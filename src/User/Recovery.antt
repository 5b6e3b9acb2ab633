-- ===== src/User/Recovery.antt =====
-- packages/application/src/user/usecases: RequestPasswordResetUseCase, ResetPasswordUseCase and
-- VerifyEmailUseCase. The hash of a token, the hash of a password, the random token and `toLowerCase`
-- are parameters. One call reads one clock.
pub mod SingleUse
use for_real_bank.Prelude.{
  ℕ, zero, suc, ◌+◌, ◌-◌, ◌*◌, ◌≤◌, ◌<◌, ◌≡◌, refl, sym, ap, ◌∙◌, ◌≢◌, ◌↔◌, ◌⊎◌, inl, inr, Bool,
  true, false, not, ◌&&◌, ◌||◌, Option, none, some, List, [], ◌∷◌, ◌++◌, map, arith, ltb, leb, ◌==◌,
  if◌then◌else◌, length, Bool-cases, Option-cases, is_some,
}
use for_real_bank.Prelude.Text.{Text, text, text_eq, trim, is_empty}
use for_real_bank.Effect.{
  Exec, Result, ok, err, pure, throw, gets, or_throw, modify, throw_if, ◌>>=◌, ◌>>◌,
  invalid_reset_token, weak_password, invalid_email_verification_token,
}
use for_real_bank.User.{User, change_password, mark_email_verified}
use for_real_bank.User.Policy.{is_strong_password}
use for_real_bank.User.Token.{Token, is_usable, mark_used}
use for_real_bank.User.Ports.{UserRepository, TokenRepository}

-- What the mail of a reset carries: the address, the first name, the language and the raw token of the
-- link, and the minutes until it expires.
pub record Mail : Type 0 where
  pub to : Text
  pub first_name : Text
  pub in_english : Bool
  pub token : Text
  pub expires_in_minutes : ℕ

-- The tables of the users and of the tokens of one kind, and the mails that were sent.
pub record Db (R : UserRepository) (T : TokenRepository) : Type 0 where
  pub users : R.Store
  pub tokens : T.Store
  pub mails : List Mail

module _ (R : UserRepository) (T : TokenRepository) where
  abbrev save_user : ℕ → User → Exec (Db R T) (Unit {0})
  save_user now u = modify (λ db. record db { users = R.save now u db.users })

  abbrev save_token : Token → Exec (Db R T) (Unit {0})
  save_token t = modify (λ db. record db { tokens = T.save t db.tokens })

  abbrev mark_user_tokens_used : ℕ → ℕ → Exec (Db R T) (Unit {0})
  mark_user_tokens_used user_id at =
      modify (λ db. record db { tokens = T.mark_user_tokens_used user_id at db.tokens })

  abbrev usable_token : ℕ → Option Token → Option Token
  usable_token now none = none
  usable_token now (some t) = if is_usable now t then some t else none

  abbrev unless_banned : Option User → Option User
  unless_banned none = none
  unless_banned (some u) = if u.is_banned then none else some u

  pub record ResetPorts : Type 0 where
    pub hash_token : Text → Text
    pub hash_password : Text → Text
    pub to_lower_case : Text → Text

  module _ (P : ResetPorts) where
    abbrev expiry_minutes : ℕ
    expiry_minutes = 30

    abbrev is_english : Option Text → Bool
    is_english none = false
    is_english (some locale) = text_eq locale (text "en")

    send_reset : ℕ → ℕ → Text → Option Text → User → Exec (Db R T) (Unit {0})
    send_reset now token_id raw locale user = do
      mark_user_tokens_used user.id now
      save_token (record {
        id = token_id;
        user_id = user.id;
        token_hash = P.hash_token raw;
        expires_at = now + expiry_minutes * 60 * 1000;
        created_at = now;
        used_at = none;
      })
      modify (λ db. record db {
        mails =
            record {
              to = user.email;
              first_name = user.first_name;
              in_english = is_english locale;
              token = raw;
              expires_in_minutes = expiry_minutes;
            }
            ∷ db.mails;
      })

    abbrev send_if_found : ℕ → ℕ → Text → Option Text → Option User → Exec (Db R T) (Unit {0})
    send_if_found now token_id raw locale none = pure tt
    send_if_found now token_id raw locale (some user) = send_reset now token_id raw locale user

    -- The answer is the same whether or not the address is that of a user.
    unfoldable pub request_password_reset :
        ℕ → ℕ → Text → Text → Option Text → Exec (Db R T) (Unit {0})
    unfolding send_reset
    request_password_reset now token_id raw email locale = do
      found ← gets (λ db. R.find_by_email (P.to_lower_case (trim email)) db.users)
      send_if_found now token_id raw locale (unless_banned found)

    -- A missing token is an empty one.
    unfoldable pub reset_password : ℕ → Text → Text → Exec (Db R T) (Unit {0})
    reset_password now token password = do
      throw_if (is_empty (trim token)) invalid_reset_token
      throw_if (not (is_strong_password password)) weak_password
      found ← gets (λ db. T.find_by_hash (P.hash_token (trim token)) db.tokens)
      reset_token ← or_throw (usable_token now found) invalid_reset_token
      owner ← gets (λ db. R.find_by_id reset_token.user_id db.users)
      user ← or_throw (unless_banned owner) invalid_reset_token
      save_user now (change_password (P.hash_password password) now user)
      save_token (mark_used now reset_token)
      mark_user_tokens_used user.id now

    -- `VerifyEmailUseCase.execute`: it returns the identifier of the user.
    unfoldable pub verify_email : ℕ → Text → Exec (Db R T) ℕ
    verify_email now token = do
      throw_if (is_empty (trim token)) invalid_email_verification_token
      found ← gets (λ db. T.find_by_hash (P.hash_token (trim token)) db.tokens)
      verification_token ← or_throw (usable_token now found) invalid_email_verification_token
      owner ← gets (λ db. R.find_by_id verification_token.user_id db.users)
      user ← or_throw owner invalid_email_verification_token
      save_token (mark_used now verification_token)
      save_user now (mark_email_verified now user)
      pure user.id

-- ===== src/User/Login.antt =====
-- packages/application/src/user/usecases/LoginUserUseCase.ts
pub mod Guards
pub mod BruteForce
pub mod Forgiven
use for_real_bank.Prelude.{
  ℕ, ◌+◌, ◌*◌, ◌≡◌, Bool, Option, none, some, not, if◌then◌else◌, zero, suc, ◌-◌, ◌≤◌, ◌<◌, refl,
  sym, ap, ◌∙◌, ◌≢◌, ◌↔◌, ◌⊎◌, inl, inr, true, false, ◌&&◌, ◌||◌, List, [], ◌∷◌, ◌++◌, map, arith,
  ltb, leb, ◌==◌, length, Bool-cases, Option-cases, is_some,
}
use for_real_bank.Prelude.Text.{Text, text}
use for_real_bank.Effect.{
  Exec, pure, throw, gets, or_throw, modify, throw_if, ◌>>=◌, ◌>>◌, invalid_credentials,
  account_locked, email_not_verified, two_factor_required, two_factor_not_configured,
  invalid_two_factor_code,
}
use for_real_bank.User.{User, is_locked, record_failed_login, mark_login}
use for_real_bank.User.Ports.{UserRepository}

-- An empty code counts as no code.
pub record Credentials : Type 0 where
  pub email : Text
  pub password : Text
  pub two_factor_code : Option Text

pub record JwtPayload : Type 0 where
  pub user_id : ℕ
  pub session_id : ℕ
  pub issued_at : ℕ
  pub expires_at : ℕ
  pub issuer : Text
  pub audience : Text

abbrev pub max_attempts : ℕ
max_attempts = 5

abbrev pub lock_ms : ℕ
lock_ms = 15 * 60 * 1000

-- The hasher, the verifier and the signer are ports with no implementation in the application.
pub record AuthPorts : Type 0 where
  pub compare : Text → Text → Bool
  pub verify : Text → Text → Bool
  pub sign : JwtPayload → Text

module _ (R : UserRepository) (P : AuthPorts) where
  verify_code : Credentials → User → Exec R.Store (Unit {0})
  verify_code input user = do
    code ← or_throw input.two_factor_code two_factor_required
    secret ← or_throw user.two_factor_secret two_factor_not_configured
    throw_if (not (P.verify secret code)) invalid_two_factor_code

  unfoldable pub check_second_factor : Credentials → User → Exec R.Store (Unit {0})
  unfolding verify_code
  check_second_factor input user =
      if user.two_factor_enabled then verify_code input user else pure tt

  unfoldable pub grant : ℕ → ℕ → User → Exec R.Store Text
  grant now session_id user = do
    modify (R.save now (mark_login now user))
    pure (
        P.sign (record {
          user_id = user.id;
          session_id = session_id;
          issued_at = now;
          expires_at = now + 15 * 60 * 1000;
          issuer = text "forrealbank.auth";
          audience = text "forrealbank.api";
        }))

  wrong_password : ℕ → User → Exec R.Store Text
  wrong_password now user = do
    modify (R.save now (record_failed_login max_attempts lock_ms now user))
    throw invalid_credentials

  right_password : ℕ → ℕ → Credentials → User → Exec R.Store Text
  unfolding check_second_factor grant
  right_password now session_id input user = do
    throw_if (not user.email_verified) email_not_verified
    check_second_factor input user
    grant now session_id user

  -- `now` is `new Date()`, and `session_id` what the generator draws.
  unfoldable pub login : ℕ → ℕ → Credentials → Exec R.Store Text
  unfolding wrong_password right_password
  login now session_id input = do
    found ← gets (R.find_by_email input.email)
    user ← or_throw found invalid_credentials
    throw_if (is_locked now user) account_locked
    if P.compare input.password user.password_hash
        then right_password now session_id input user
        else wrong_password now user

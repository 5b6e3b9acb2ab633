-- ===== src/User/Recovery/SingleUse.antt =====
-- A token is used once.
use for_real_bank.Prelude.{
  ℕ, ◌≡◌, refl, sym, ap, ◌∙◌, inl, inr, true, none, some, arith, Option-cases,
}
use for_real_bank.Prelude.Text.{Text, trim, text_eq_iff}
use for_real_bank.Effect.{Result, ok, err, invalid_reset_token, invalid_email_verification_token}
use for_real_bank.User.{User, change_password, mark_email_verified}
use for_real_bank.User.Policy.{is_strong_password}
use for_real_bank.User.Token.{Token, is_usable, mark_used}
use for_real_bank.User.Ports.{UserRepository, TokenRepository, row_of}
use for_real_bank.User.Recovery.{Db, ResetPorts, usable_token, reset_password, verify_email}

module _ (R : UserRepository) (T : TokenRepository) (P : ResetPorts R T) where
  -- The state that a successful reset leaves.
  abbrev after_reset : ℕ → Text → Token → User → Db R T → Db R T
  after_reset now password t u db = record db {
    users = R.save now (change_password (P.hash_password password) now u) db.users;
    tokens = T.mark_user_tokens_used u.id now (T.save (mark_used now t) db.tokens);
  }

  -- A reset that succeeds found the owner of its token.
  reset_done :
      (now : ℕ) (token password : Text) (db : Db R T)
      → (reset_password R T P now token password db).0 ≡ ok tt
      → (t : Token) → T.find_by_hash (P.hash_token (trim token)) db.tokens ≡ some t
      → (u : User) × (R.find_by_id t.user_id db.users ≡ some u)
        × (reset_password R T P now token password db ≡ (ok tt, after_reset now password t u db))
  unfolding reset_password
  reset_done now token password db h t found =
      elim (Option-cases (R.find_by_id t.user_id db.users)) [
        | inl missing ↦ absurd (ground arith)
        | inr (u, owner) ↦ (u, owner, ground arith)
      ]

  -- A token that cannot be used gets nothing, and nothing is written.
  reset_unusable :
      (now : ℕ) (token password : Text) (db : Db R T)
      → is_strong_password password ≡ true
      → usable_token R T now (T.find_by_hash (P.hash_token (trim token)) db.tokens) ≡ none
      → reset_password R T P now token password db ≡ (err invalid_reset_token, db)
  unfolding reset_password
  reset_unusable now token password db strong unusable = ground arith

  tokens_dead :
      (now later : ℕ) (h : Text) (t t' : Token) (user_id : ℕ) (s : T.Store)
      → t.user_id ≡ user_id
      → T.find_by_hash h s ≡ some t'
      → t'.user_id ≡ user_id
      → usable_token R T later
          (T.find_by_hash h (T.mark_user_tokens_used user_id now (T.save (mark_used now t) s)))
        ≡ none
  unfolding is_usable
  tokens_dead now later h t t' user_id s own found own' = ground (
    arith,
    T.find_by_hash-mark user_id now h (T.save (mark_used now t) s),
    T.find_by_hash-save (mark_used now t) h s,
  )

  -- After a successful reset, every token of that user is dead, the one that was used included: a
  -- later reset with such a token and a strong password throws `INVALID_RESET_TOKEN` and writes
  -- nothing.
  pub reset_kills_tokens :
      (now : ℕ) (token password : Text) (db : Db R T)
      → (reset_password R T P now token password db).0 ≡ ok tt
      → (t : Token) → T.find_by_hash (P.hash_token (trim token)) db.tokens ≡ some t
      → (other : Text) (t' : Token) → T.find_by_hash (P.hash_token (trim other)) db.tokens ≡ some t'
      → t'.user_id ≡ t.user_id
      → (later : ℕ) (password' : Text) → is_strong_password password' ≡ true
      → let db' = (reset_password R T P now token password db).1 in
        reset_password R T P later other password' db' ≡ (err invalid_reset_token, db')
  reset_kills_tokens now token password db h t found other t' found' same later password' strong' =
      let (u, owner, e) = reset_done now token password db h t found in
      let own = R.id-find_by_id t.user_id u db.users owner in
      rw e (
        reset_unusable later other password' (after_reset now password t u db) strong' (
          tokens_dead now later (P.hash_token (trim other)) t t' u.id db.tokens (sym own) found'
            (same ∙ sym own)))

  -- After a successful reset the account has the hash of the new password, and neither failures nor a
  -- lock.
  pub reset_changes_password :
      (now : ℕ) (token password : Text) (db : Db R T)
      → (reset_password R T P now token password db).0 ≡ ok tt
      → (t : Token) → T.find_by_hash (P.hash_token (trim token)) db.tokens ≡ some t
      → (u : User) × (R.find_by_id t.user_id (reset_password R T P now token password db).1.users
          ≡ some u)
        × (u.password_hash ≡ P.hash_password password)
        × (u.failed_login_count ≡ 0)
        × (u.lock_until ≡ none)
  unfolding change_password
  reset_changes_password now token password db h t found =
      let (u, owner, e) = reset_done now token password db h t found in
      let v = change_password (P.hash_password password) now u in
      (
        row_of now v,
        ap (λ (x : Result (Unit {0}) × Db R T). R.find_by_id t.user_id x.1.users) e
            ∙ ground (
              arith,
              R.find_by_id-save now t.user_id t.user_id u v db.users owner
                  (record { id = refl; email = refl; first_name = refl; last_name = refl }),
              R.id-find_by_id t.user_id u db.users owner,
            ),
        refl,
        refl,
        refl,
      )

  -- A verification that succeeds found the owner of its token.
  verify_done :
      (now : ℕ) (token : Text) (user_id : ℕ) (db : Db R T)
      → (verify_email R T P now token db).0 ≡ ok user_id
      → (t : Token) → T.find_by_hash (P.hash_token (trim token)) db.tokens ≡ some t
      → (u : User) × (R.find_by_id t.user_id db.users ≡ some u)
        × (verify_email R T P now token db ≡ (
          ok u.id,
          record db {
            users = R.save now (mark_email_verified now u) db.users;
            tokens = T.save (mark_used now t) db.tokens;
          },
        ))
  unfolding verify_email
  verify_done now token user_id db h t found =
      elim (Option-cases (R.find_by_id t.user_id db.users)) [
        | inl missing ↦ absurd (ground arith)
        | inr (u, owner) ↦ (u, owner, ground arith)
      ]

  verify_unusable :
      (now : ℕ) (token : Text) (db : Db R T)
      → usable_token R T now (T.find_by_hash (P.hash_token (trim token)) db.tokens) ≡ none
      → verify_email R T P now token db ≡ (err invalid_email_verification_token, db)
  unfolding verify_email
  verify_unusable now token db unusable = ground arith

  used_dead :
      (now later : ℕ) (h : Text) (t : Token) (s : T.Store)
      → T.find_by_hash h s ≡ some t
      → usable_token R T later (T.find_by_hash h (T.save (mark_used now t) s)) ≡ none
  unfolding is_usable
  used_dead now later h t s found = ground (
    arith,
    T.find_by_hash-save (mark_used now t) h s,
    T.token_hash-find_by_hash h t s found,
    text_eq_iff t.token_hash h,
  )

  -- A verification that succeeds returns the owner of the token, whose address is then verified. A
  -- second verification with the same token throws `INVALID_EMAIL_VERIFICATION_TOKEN` and writes
  -- nothing.
  pub verify_email_once :
      (now : ℕ) (token : Text) (user_id : ℕ) (db : Db R T)
      → (verify_email R T P now token db).0 ≡ ok user_id
      → (t : Token) → T.find_by_hash (P.hash_token (trim token)) db.tokens ≡ some t
      → let db' = (verify_email R T P now token db).1 in
        (user_id ≡ t.user_id)
        × ((u : User) × (R.find_by_id user_id db'.users ≡ some u) × (u.email_verified ≡ true))
        × ((later : ℕ)
            → verify_email R T P later token db' ≡ (err invalid_email_verification_token, db'))
  unfolding mark_email_verified
  verify_email_once now token user_id db h t found =
      let (u, owner, e) = verify_done now token user_id db h t found in
      let own = R.id-find_by_id t.user_id u db.users owner in
      let v = mark_email_verified now u in
      let is_user : user_id ≡ t.user_id = ground arith in
      (
        is_user,
        (
          row_of now v,
          ap (λ (x : Result ℕ × Db R T). R.find_by_id user_id x.1.users) e
              ∙ ground (
                arith,
                R.find_by_id-save now t.user_id user_id u v db.users owner
                    (record { id = refl; email = refl; first_name = refl; last_name = refl }),
              ),
          refl,
        ),
        λ later. rw e (
            verify_unusable later token
              (record db {
                users = R.save now v db.users;
                tokens = T.save (mark_used now t) db.tokens;
              })
              (used_dead now later (P.hash_token (trim token)) t db.tokens found)),
      )

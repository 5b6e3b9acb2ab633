-- ===== src/User/Login/BruteForce.antt =====
-- What wrong passwords do to an account over several calls of `login`.
use for_real_bank.Prelude.{
  ℕ, ◌≡◌, true, false, some, arith, none, List, suc, ◌≤◌, ◌∷◌, ◌<◌, length, Option, ◌+◌, refl, [],
}
use for_real_bank.Effect.{err, invalid_credentials, account_locked}
use for_real_bank.User.{User, is_locked, record_failed_login, Text}
use for_real_bank.User.Ports.{UserRepository, row_of}
use for_real_bank.User.Login.{Credentials, AuthPorts, max_attempts, lock_ms, login}

module _ (R : UserRepository) (P : AuthPorts) where
  -- A call with a wrong password, to an account that is not locked.
  pub login_wrong_password :
      (now session_id : ℕ) (input : Credentials) (u : User) (s : R.Store)
      → R.find_by_email input.email s ≡ some u
      → is_locked now u ≡ false
      → P.compare input.password u.password_hash ≡ false
      → login R P now session_id input s
        ≡ (err invalid_credentials, R.save now (record_failed_login max_attempts lock_ms now u) s)
  unfolding login
  login_wrong_password now session_id input u s found open_ wrong = ground arith

  login_locked :
      (now session_id : ℕ) (input : Credentials) (u : User) (s : R.Store)
      → R.find_by_email input.email s ≡ some u
      → is_locked now u ≡ true
      → login R P now session_id input s ≡ (err account_locked, s)
  unfolding login
  login_locked now session_id input u s found locked = ground arith

  -- The user of an address has failed `k` times, is not locked, and has another password.
  abbrev Failing : Credentials → ℕ → R.Store → Type 0
  Failing input k s =
      (u : User) × (R.find_by_email input.email s ≡ some u)
      × (u.failed_login_count ≡ k)
      × (u.lock_until ≡ none)
      × (P.compare input.password u.password_hash ≡ false)

  pub is_locked-none : (now : ℕ) (u : User) → u.lock_until ≡ none → is_locked now u ≡ false
  unfolding is_locked
  is_locked-none now u h = ground arith

  -- Calls of `login` with the same credentials at the given times.
  unfoldable pub attempts : ℕ → Credentials → List ℕ → R.Store → R.Store
  attempts session_id input [] s = s
  attempts session_id input (t ∷ ts) s =
      attempts session_id input ts (login R P t session_id input s).1

  attempt-Failing :
      (now session_id : ℕ) (input : Credentials) (k : ℕ) (s : R.Store)
      → suc k < max_attempts
      → Failing input k s
      → Failing input (suc k) (login R P now session_id input s).1
  unfolding record_failed_login
  attempt-Failing now session_id input k s few (u, found, count, unlocked, wrong) =
      let v = record_failed_login max_attempts lock_ms now u in
      rw (login_wrong_password now session_id input u s found (is_locked-none now u unlocked) wrong)
        (
          row_of now v,
          R.find_by_email-save now input.email u v s found
              (record { id = refl; email = refl; first_name = refl; last_name = refl }),
          ground arith,
          ground arith,
          wrong,
        )

  attempts-Failing :
      (session_id : ℕ) (input : Credentials) (ts : List ℕ) (k : ℕ) (s : R.Store)
      → k + length ts < max_attempts
      → Failing input k s
      → Failing input (k + length ts) (attempts session_id input ts s)
  unfolding attempts
  attempts-Failing session_id input [] k s few (u, found, count, unlocked, wrong) =
      (u, found, omega arith, unlocked, wrong)
  attempts-Failing session_id input (t ∷ ts) k s few h =
      let (u, found, count, unlocked, wrong) =
        attempts-Failing session_id input ts (suc k) (login R P t session_id input s).1
          (omega arith) (attempt-Failing t session_id input k s (omega arith) h) in
      (u, found, omega arith, unlocked, wrong)

  -- If the user found by an address is not locked, has failed at least four times and is given a
  -- wrong password, then for fifteen minutes every login with that address, whatever the password
  -- and the code, throws `ACCOUNT_LOCKED` and writes nothing.
  pub wrong_password_locks :
      (now session_id : ℕ) (input : Credentials) (u : User) (s : R.Store)
      → R.find_by_email input.email s ≡ some u
      → is_locked now u ≡ false
      → P.compare input.password u.password_hash ≡ false
      → max_attempts ≤ u.failed_login_count + 1
      → (later other_session : ℕ) (password : Text) (code : Option Text) → later < now + lock_ms
      → let s' = (login R P now session_id input s).1 in
        login R P later other_session
          (record { email = input.email; password = password; two_factor_code = code })
          s'
        ≡ (err account_locked, s')
  unfolding record_failed_login is_locked
  wrong_password_locks now session_id input u s found open_ wrong many later other password code
        soon =
      let v = record_failed_login max_attempts lock_ms now u in
      rw (login_wrong_password now session_id input u s found open_ wrong) (
        login_locked later other
          (record { email = input.email; password = password; two_factor_code = code })
          (row_of now v) (R.save now v s)
          (R.find_by_email-save now input.email u v s found
            (record { id = refl; email = refl; first_name = refl; last_name = refl }))
          (ground arith))

  -- From an account with no failure and no lock, five wrong passwords in a row, at any times, lock
  -- it: until fifteen minutes after the last of them every login with that address throws
  -- `ACCOUNT_LOCKED` and writes nothing, also one with the right password.
  pub five_failures_lock :
      (session_id : ℕ) (input : Credentials) (ts : List ℕ) (t : ℕ) (u : User) (s : R.Store)
      → R.find_by_email input.email s ≡ some u
      → u.failed_login_count ≡ 0
      → u.lock_until ≡ none
      → P.compare input.password u.password_hash ≡ false
      → length ts ≡ 4
      → (later other_session : ℕ) (password : Text) (code : Option Text) → later < t + lock_ms
      → let s' = (login R P t session_id input (attempts session_id input ts s)).1 in
        login R P later other_session
          (record { email = input.email; password = password; two_factor_code = code })
          s'
        ≡ (err account_locked, s')
  five_failures_lock session_id input ts t u s found none_yet unlocked wrong four =
      let (v, found', count, unlocked', wrong') =
        attempts-Failing session_id input ts 0 s (omega arith)
          (u, found, none_yet, unlocked, wrong) in
      wrong_password_locks t session_id input v (attempts session_id input ts s) found'
        (is_locked-none t v unlocked') wrong' (omega arith)

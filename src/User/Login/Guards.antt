-- ===== src/User/Login/Guards.antt =====
-- Which calls of `login` succeed.
use for_real_bank.Prelude.{
  ℕ, ◌+◌, ◌≡◌, ap, ◌↔◌, inl, inr, Bool, true, false, Option, none, some, arith, Option-cases,
}
use for_real_bank.Prelude.Text.{Text, text}
use for_real_bank.Effect.{ok}
use for_real_bank.User.{User, is_locked, mark_login}
use for_real_bank.User.Ports.{UserRepository}
use for_real_bank.User.Login.{Credentials, AuthPorts, login}

-- The second factor, where it is on: a code was sent, a secret is set, and the code fits it.
abbrev pub SecondFactor : AuthPorts → Bool → Option Text → Option Text → Type 0
SecondFactor P false code secret = Unit
SecondFactor P true none secret = ⊥
SecondFactor P true (some code) none = ⊥
SecondFactor P true (some code) (some secret) = P.verify secret code ≡ true

pub record IsAdmitted (P : AuthPorts) (now : ℕ) (input : Credentials) (u : User) : Type 0 where
  pub unlocked : is_locked now u ≡ false
  pub password : P.compare input.password u.password_hash ≡ true
  pub verified : u.email_verified ≡ true
  pub second_factor : SecondFactor P u.two_factor_enabled input.two_factor_code u.two_factor_secret

abbrev pub session_token : AuthPorts → ℕ → ℕ → User → Text
session_token P now session_id u = P.sign (record {
  user_id = u.id;
  session_id = session_id;
  issued_at = now;
  expires_at = now + 900000;
  issuer = text "forrealbank.auth";
  audience = text "forrealbank.api";
})

module _ (R : UserRepository) (P : AuthPorts) where
  -- A login that is admitted clears the failures, stamps the login, and returns a token for that user
  -- which expires fifteen minutes later.
  pub login_grants :
      (now session_id : ℕ) (input : Credentials) (u : User) (s : R.Store)
      → R.find_by_email input.email s ≡ some u
      → IsAdmitted P now input u
      → login R P now session_id input s
        ≡ (ok (session_token P now session_id u), R.save now (mark_login now u) s)
  unfolding login
  login_grants now session_id input u s found h = ground arith

  login_ok-IsAdmitted :
      (now session_id : ℕ) (input : Credentials) (u : User) (token : Text) (s : R.Store)
      → R.find_by_email input.email s ≡ some u
      → (login R P now session_id input s).0 ≡ ok token
      → IsAdmitted P now input u
  unfolding login
  login_ok-IsAdmitted now session_id input u token s found e = ground arith

  login_unknown :
      (now session_id : ℕ) (input : Credentials) (token : Text) (s : R.Store)
      → R.find_by_email input.email s ≡ none
      → ¬ ((login R P now session_id input s).0 ≡ ok token)
  unfolding login
  login_unknown now session_id input token s missing e = ground arith

  -- A login returns a token exactly when the address is that of a user who is not locked, whose
  -- password was given, whose address is verified and, where the second factor is on, whose code was
  -- given.
  pub login_ok_iff :
      (now session_id : ℕ) (input : Credentials) (s : R.Store)
      → ((token : Text) × ((login R P now session_id input s).0 ≡ ok token))
        ↔ ((u : User) × (R.find_by_email input.email s ≡ some u) × IsAdmitted P now input u)
  login_ok_iff now session_id input s = (
    λ (token, e). elim (Option-cases (R.find_by_email input.email s)) [
      | inl missing ↦ absurd (login_unknown now session_id input token s missing e)
      | inr (u, found) ↦ (u, found, login_ok-IsAdmitted now session_id input u token s found e)
    ],
    λ (u, found, h). (
      session_token P now session_id u,
      ap (λ x. x.0) (login_grants now session_id input u s found h),
    ),
  )

-- ===== src/User.antt =====
-- packages/domain/src/user: the user entity, its roles, its brute-force lock, its second factor, its
-- ban, and the password policy. A method that mutates the entity returns the new record; the
-- default argument `at = new Date()` is passed.
pub mod Policy
pub mod Token
pub mod Ports
pub mod Login
pub mod Recovery
pub mod Admin
use for_real_bank.Prelude.{
  ℕ, ◌+◌, Bool, true, false, Option, none, some, List, [], ◌∷◌, ◌||◌, ltb, leb, is_some,
  if◌then◌else◌, zero, suc, ◌-◌, ◌*◌, ◌≤◌, ◌<◌, ◌≡◌, refl, sym, ap, ◌∙◌, ◌≢◌, ◌↔◌, ◌⊎◌, inl, inr,
  not, ◌&&◌, ◌++◌, map, arith, ◌==◌, length, Bool-cases, Option-cases,
}
use for_real_bank.Prelude.Text.{Text}
use for_real_bank.Effect.{Result, ok, err, two_factor_not_configured}

pub data RoleName : Type 0 where
  client advisor director admin : RoleName

abbrev pub role_eq : RoleName → RoleName → Bool
role_eq client client = true
role_eq advisor advisor = true
role_eq director director = true
role_eq admin admin = true
role_eq _ _ = false

-- `roles.includes(r)` on an array, `roles.has(r)` on a set.
unfoldable pub has_role : List RoleName → RoleName → Bool
has_role [] r = false
has_role (q ∷ qs) r = role_eq q r || has_role qs r

-- Dates are milliseconds since the epoch.
pub record User : Type 0 where
  pub id : ℕ
  pub email : Text
  pub password_hash : Text
  pub roles : List RoleName
  pub created_at : ℕ
  pub updated_at : ℕ
  pub first_name : Text
  pub last_name : Text
  pub last_login_at : Option ℕ
  pub email_verified : Bool
  pub email_verified_at : Option ℕ
  pub is_banned : Bool
  pub banned_at : Option ℕ
  pub ban_reason : Option Text
  pub failed_login_count : ℕ
  pub lock_until : Option ℕ
  pub two_factor_secret : Option Text
  pub two_factor_enabled : Bool

unfoldable pub touch : ℕ → User → User
touch at u = record u { updated_at = at }

unfoldable pub begin_two_factor_setup : Text → ℕ → User → User
unfolding touch
begin_two_factor_setup secret at u =
    touch at (record u { two_factor_secret = some secret; two_factor_enabled = false })

unfoldable pub enable_two_factor : ℕ → User → Result User
unfolding touch
enable_two_factor at u =
    if is_some u.two_factor_secret
    then ok (touch at (record u { two_factor_enabled = true }))
    else err two_factor_not_configured

unfoldable pub disable_two_factor : ℕ → User → User
unfolding touch
disable_two_factor at u =
    touch at (record u { two_factor_secret = none; two_factor_enabled = false })

lock_after : Option ℕ → ℕ → Bool
lock_after none at = false
lock_after (some until) at = ltb at until

unfoldable pub is_locked : ℕ → User → Bool
unfolding lock_after
is_locked at u = lock_after u.lock_until at

unfoldable pub record_failed_login : ℕ → ℕ → ℕ → User → User
unfolding touch
record_failed_login max_attempts lock_ms at u =
    let next = u.failed_login_count + 1 in
    touch at (record u {
      failed_login_count = next;
      lock_until = if leb max_attempts next then some (at + lock_ms) else u.lock_until;
    })

unfoldable pub reset_login_failures : ℕ → User → User
unfolding touch
reset_login_failures at u = touch at (record u { failed_login_count = 0; lock_until = none })

unfoldable pub set_names : Text → Text → ℕ → User → User
unfolding touch
set_names first last at u = touch at (record u { first_name = first; last_name = last })

unfoldable pub mark_login : ℕ → User → User
unfolding touch
mark_login at u =
    touch at (record u { last_login_at = some at; failed_login_count = 0; lock_until = none })

unfoldable pub mark_email_verified : ℕ → User → User
unfolding touch
mark_email_verified at u =
    touch at (record u { email_verified = true; email_verified_at = some at })

unfoldable pub change_password : Text → ℕ → User → User
unfolding touch
change_password hash at u =
    touch at (record u { password_hash = hash; failed_login_count = 0; lock_until = none })

unfoldable pub ban : Option Text → ℕ → User → User
unfolding touch
ban reason at u = touch at (record u { is_banned = true; banned_at = some at; ban_reason = reason })

unfoldable pub unban : ℕ → User → User
unfolding touch
unban at u = touch at (record u { is_banned = false; banned_at = none; ban_reason = none })

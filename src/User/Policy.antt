-- ===== src/User/Policy.antt =====
-- packages/application/src/users/BanPolicy.ts and packages/domain/src/user/PasswordPolicy.ts.
use for_real_bank.Prelude.{
  ℕ, zero, suc, ◌≤◌, ◌<◌, ◌≡◌, ◌≢◌, refl, ◌↔◌, ◌⊎◌, inl, inr, Bool, true, not, ◌&&◌, ◌||◌, Option,
  none, some, List, [], ◌∷◌, arith, leb, ◌==◌, length, any, get_elem?, Bool-cases, if◌then◌else◌,
}
use for_real_bank.Prelude.Text.{Text}
use for_real_bank.User.{RoleName, director, admin, has_role}

pub record Party : Type 0 where
  pub id : ℕ
  pub roles : List RoleName

pub data BanDenialReason : Type 0 where
  self_ban_forbidden target_role_not_bannable actor_not_allowed : BanDenialReason

-- `none` is the permission.
unfoldable pub check_ban_permission : Party → Party → Option BanDenialReason
check_ban_permission actor target =
    let target_is_admin = has_role target.roles admin in
    let target_is_director = has_role target.roles director in
    if actor.id == target.id
    then some self_ban_forbidden
    else if has_role actor.roles admin
    then (if target_is_admin then some target_role_not_bannable else none)
    else if has_role actor.roles director
    then (if target_is_admin || target_is_director then some target_role_not_bannable else none)
    else some actor_not_allowed

-- The rank of an account, as the ban matrix orders them: 2 for an admin, 1 for a director who is no
-- admin, and 0 for anybody else.
abbrev pub rank : Party → ℕ
rank p = if has_role p.roles admin then 2 else if has_role p.roles director then 1 else 0

-- A ban is permitted exactly when the two are different accounts and the rank of the actor is above
-- the rank of the target.
pub check_ban_permission_iff :
    (actor target : Party)
    → (check_ban_permission actor target ≡ none)
      ↔ ((actor.id ≢ target.id) × (rank target < rank actor))
unfolding check_ban_permission
check_ban_permission_iff actor target = ground arith

-- Two accounts can never ban each other.
pub check_ban_permission_asymmetric :
    (a b : Party) → check_ban_permission a b ≡ none → check_ban_permission b a ≢ none
check_ban_permission_asymmetric a b ab ba =
    omega (arith, ((check_ban_permission_iff a b).0 ab).1, ((check_ban_permission_iff b a).0 ba).1)

pub record PasswordStrengthCheck : Type 0 where
  pub min_length : Bool
  pub has_lower : Bool
  pub has_upper : Bool
  pub has_digit : Bool
  pub has_symbol : Bool

abbrev pub is_lower : ℕ → Bool
is_lower c = leb b'a' c && leb c b'z'

abbrev pub is_upper : ℕ → Bool
is_upper c = leb b'A' c && leb c b'Z'

abbrev pub is_digit : ℕ → Bool
is_digit c = leb b'0' c && leb c b'9'

-- `/[^A-Za-z0-9]/`
abbrev pub is_symbol : ℕ → Bool
is_symbol c = not (is_upper c || (is_lower c || is_digit c))

abbrev pub password_min_length : ℕ
password_min_length = 12

unfoldable pub check_password_strength : Text → PasswordStrengthCheck
check_password_strength pwd = record {
  min_length = leb password_min_length (length pwd);
  has_lower = any is_lower pwd;
  has_upper = any is_upper pwd;
  has_digit = any is_digit pwd;
  has_symbol = any is_symbol pwd;
}

unfoldable pub is_strong_password : Text → Bool
unfolding check_password_strength
is_strong_password pwd =
    let c = check_password_strength pwd in
    c.min_length && (c.has_lower && (c.has_upper && (c.has_digit && c.has_symbol)))

-- Some position of the text holds a code unit between the two bounds.
abbrev pub HasBetween : Text → ℕ → ℕ → Type 0
HasBetween pwd lo hi = (i : ℕ) × (c : ℕ) × (get_elem? pwd i ≡ some c) × (lo ≤ c) × (c ≤ hi)

-- Some position of the text holds a code unit outside the letters and the digits of ASCII.
abbrev pub HasOther : Text → Type 0
HasOther pwd =
    (i : ℕ) × (c : ℕ) × (get_elem? pwd i ≡ some c)
    × ((c < 48) ⊎ (((57 < c) × (c < 65)) ⊎ (((90 < c) × (c < 97)) ⊎ (122 < c))))

any→at :
    (p : ℕ → Bool) (s : Text)
    → any p s ≡ true
    → (i : ℕ) × (c : ℕ) × (get_elem? s i ≡ some c) × (p c ≡ true)
any→at p [] h = cc
any→at p (c ∷ s) h = elim (Bool-cases (p c)) [
  | inl here ↦ (0, c, refl, here)
  | inr other ↦ let (i, d, at, pd) = any→at p s (ground arith) in (suc i, d, at, pd)
]

at→any : (p : ℕ → Bool) (s : Text) (i c : ℕ) → get_elem? s i ≡ some c → p c ≡ true → any p s ≡ true
at→any p [] i c at pc = cc
at→any p (d ∷ s) zero c at pc = ground arith
at→any p (d ∷ s) (suc i) c at pc = ground (arith, at→any p s i c at pc)

HasBetween-iff :
    (s : Text) (lo hi : ℕ) → (any (λ c. leb lo c && leb c hi) s ≡ true) ↔ HasBetween s lo hi
HasBetween-iff s lo hi = (
  λ h.
      let (i, c, at, pc) = any→at (λ c. leb lo c && leb c hi) s h in
      (i, c, at, ground arith, ground arith),
  λ (i, c, at, above, below). at→any (λ c. leb lo c && leb c hi) s i c at (ground arith),
)

HasOther-iff : (s : Text) → (any is_symbol s ≡ true) ↔ HasOther s
HasOther-iff s = (
  λ h. let (i, c, at, pc) = any→at is_symbol s h in (i, c, at, grind arith),
  λ (i, c, at, out). at→any is_symbol s i c at (grind arith),
)

-- A password is strong exactly when it has twelve code units or more, and among them a lower-case
-- letter, an upper-case letter, a digit and a code unit that is none of these.
pub is_strong_password_iff :
    (pwd : Text)
    → (is_strong_password pwd ≡ true) ↔ (
        (12 ≤ length pwd)
        × HasBetween pwd b'a' b'z'
        × HasBetween pwd b'A' b'Z'
        × HasBetween pwd b'0' b'9'
        × HasOther pwd)
unfolding is_strong_password
is_strong_password_iff pwd = (
  λ h. (
    ground arith,
    (HasBetween-iff pwd b'a' b'z').0 (ground arith),
    (HasBetween-iff pwd b'A' b'Z').0 (ground arith),
    (HasBetween-iff pwd b'0' b'9').0 (ground arith),
    (HasOther-iff pwd).0 (ground arith),
  ),
  λ (long, lower, upper, digit, other). ground (
    arith,
    (HasBetween-iff pwd b'a' b'z').1 lower,
    (HasBetween-iff pwd b'A' b'Z').1 upper,
    (HasBetween-iff pwd b'0' b'9').1 digit,
    (HasOther-iff pwd).1 other,
  ),
)

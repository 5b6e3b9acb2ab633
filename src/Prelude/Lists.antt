-- ===== src/Prelude/Lists.antt =====
-- Lists measured by native numbers, under the library's names, and the Boolean list methods.
use Prim.Native.Nat.{ℕ, zero, suc, ◌+◌, ◌≤◌}
use mathlib.Core.Path.{◌≡◌}
use mathlib.Core.Bool.{Bool, true, false, ◌&&◌, ◌||◌}
use mathlib.Core.List.{List, [], ◌∷◌, ◌++◌, map}
use mathlib.Core.Option.{Option, none, some}
use native.Mathlib.Omega.{arith}
use mathlib.Core.Path.{sym, ap, ◌∙◌}
use mathlib.Core.Logic.{inl, inr}
use for_real_bank.Prelude.Tests.{◌==◌, if◌then◌else◌, Bool-cases}

module _ {ℓ} {A : Type ℓ} where
  abbrev pub length : List A → ℕ
  length [] = 0
  length (x ∷ xs) = suc (length xs)

  abbrev pub get_elem? : List A → ℕ → Option A
  get_elem? [] i = none
  get_elem? (x ∷ xs) zero = some x
  get_elem? (x ∷ xs) (suc i) = get_elem? xs i

  -- `xs.filter(p)`
  abbrev pub keep : (A → Bool) → List A → List A
  keep p [] = []
  keep p (x ∷ xs) = let rest = keep p xs in if p x then x ∷ rest else rest

  -- `xs.find(p)`
  abbrev pub find : (A → Bool) → List A → Option A
  find p [] = none
  find p (x ∷ xs) = let rest = find p xs in if p x then some x else rest

  -- `xs.some(p)`
  abbrev pub any : (A → Bool) → List A → Bool
  any p [] = false
  any p (x ∷ xs) = p x || any p xs

  -- `xs.every(p)`
  abbrev pub all : (A → Bool) → List A → Bool
  all p [] = true
  all p (x ∷ xs) = p x && all p xs

  abbrev pub All {κ} : (A → Type κ) → List A → Type κ
  All P [] = Unit
  All P (x ∷ xs) = P x × All P xs

  pub length-append : (xs ys : List A) → length (xs ++ ys) ≡ length xs + length ys
  length-append [] ys = omega arith
  length-append (x ∷ xs) ys = omega (arith, length-append xs ys)

  pub length-keep : (p : A → Bool) (xs : List A) → length (keep p xs) ≤ length xs
  length-keep p [] = omega arith
  length-keep p (x ∷ xs) = ground (arith, length-keep p xs)

pub find-holds {ℓ} :
    {A : Type ℓ} (p : A → Bool) (xs : List A) (x : A) → find p xs ≡ some x → p x ≡ true
find-holds p [] x h = ground arith
find-holds p (y ∷ ys) x h = elim (Bool-cases (p y)) [
  | inl in' ↦ let same : y ≡ x = ground arith in ap p (sym same) ∙ in'
  | inr out ↦ find-holds p ys x (ground arith)
]

module _ {ℓ κ} {A : Type ℓ} (P : A → Type κ) where
  pub All-find : (t : A → Bool) (xs : List A) (x : A) → All P xs → find t xs ≡ some x → P x
  All-find t [] x h e = ground arith
  All-find t (y ∷ ys) x h e = elim (Bool-cases (t y)) [
    | inl here ↦ ground arith
    | inr later ↦ All-find t ys x h.1 (ground arith)
  ]

  pub All-replace :
      (t : A → Bool) (y : A) (xs : List A)
      → All P xs
      → P y
      → All P (map (λ x. if t x then y else x) xs)
  All-replace t y [] h p = tt
  All-replace t y (x ∷ xs) h p = ground (arith, All-replace t y xs h.1 p)

  pub All-keep : (t : A → Bool) (xs : List A) → All P xs → All P (keep t xs)
  All-keep t [] h = tt
  All-keep t (x ∷ xs) h = ground (arith, All-keep t xs h.1)

  pub All-snoc : (xs : List A) (y : A) → All P xs → P y → All P (xs ++ y ∷ [])
  All-snoc [] y h p = (p, tt)
  All-snoc (x ∷ xs) y h p = (h.0, All-snoc xs y h.1 p)

-- `xs.includes(x)` on identifiers.
abbrev pub includes : List ℕ → ℕ → Bool
includes [] x = false
includes (y ∷ ys) x = y == x || includes ys x

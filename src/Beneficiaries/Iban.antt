-- ===== src/Beneficiaries/Iban.antt =====
-- apps/api-nest/src/interface/beneficiaries/iban.ts, and AccountRepository.findByIban on the texts that accounts hold.
use for_real_bank.Prelude.{
  all, keep, ℕ, ◌-◌, ◌≡◌, refl, ◌∙◌, Bool, true, false, not, ◌&&◌, ◌||◌, [], ◌∷◌, map, arith, ltb,
  leb, ◌==◌, if◌then◌else◌, length, ◌≤◌,
}
use for_real_bank.Prelude.Text.{Text, is_space}
use for_real_bank.User.Policy.{is_lower, is_upper}

-- `[\s-]`
unfoldable pub is_separator : ℕ → Bool
is_separator c = is_space c || c == b'-'

-- `upper` is `toUpperCase`; a missing text is an empty one.
unfoldable pub normalize_iban : (Text → Text) → Text → Text
normalize_iban upper raw = upper (keep (λ c. not (is_separator c)) raw)

abbrev pub is_digit : ℕ → Bool
is_digit c = leb b'0' c && leb c b'9'

abbrev pub is_alphanumeric : ℕ → Bool
is_alphanumeric c = is_upper c || is_digit c

-- `/^[A-Z]{2}[0-9]{2}[A-Z0-9]{11,30}$/`
unfoldable pub is_valid_iban : Text → Bool
is_valid_iban (a ∷ b ∷ c ∷ d ∷ rest) =
    is_upper a
    && (is_upper b
        && (is_digit c
            && (is_digit d
                && (all is_alphanumeric rest && (leb 11 (length rest) && leb (length rest) 30)))))
is_valid_iban _ = false

-- What `toUpperCase` does on an ASCII code unit.
abbrev pub ascii_upper : ℕ → ℕ
ascii_upper c = if is_lower c then c - 32 else c

-- What `toUpperCase` does on an ASCII text.
abbrev pub IsUpperCase : (Text → Text) → Type 0
IsUpperCase upper = (s : Text) → all (λ c. ltb c 128) s ≡ true → upper s ≡ map ascii_upper s

-- `raw` is a way to write `iban`: hyphens and blanks anywhere, digits, and letters of either case.
pub data Writes : Text → Text → Type 0 where
  nothing : Writes [] []
  hyphen : (raw iban : Text) → Writes raw iban → Writes (b'-' ∷ raw) iban
  blank : (raw iban : Text) → Writes raw iban → Writes (b' ' ∷ raw) iban
  no_break : (raw iban : Text) → Writes raw iban → Writes (160 ∷ raw) iban
  control : (c : ℕ) (raw iban : Text) → 9 ≤ c → c ≤ 13 → Writes raw iban → Writes (c ∷ raw) iban
  digit :
      (c : ℕ) (raw iban : Text)
      → b'0' ≤ c
      → c ≤ b'9'
      → Writes raw iban
      → Writes (c ∷ raw) (c ∷ iban)
  capital :
      (c : ℕ) (raw iban : Text)
      → b'A' ≤ c
      → c ≤ b'Z'
      → Writes raw iban
      → Writes (c ∷ raw) (c ∷ iban)
  small :
      (c : ℕ) (raw iban : Text)
      → b'a' ≤ c
      → c ≤ b'z'
      → Writes raw iban
      → Writes (c ∷ raw) ((c - 32) ∷ iban)

control_lem : (c : ℕ) → 9 ≤ c → c ≤ 13 → is_separator c ≡ true
unfolding is_separator is_space
control_lem c h h' = ground arith

-- Digits and letters are from 48 to 122.
kept_lem : (c : ℕ) → 48 ≤ c → c ≤ 122 → is_separator c ≡ false
unfolding is_separator is_space
kept_lem c h h' = ground arith

-- The code units that are left after the separators.
abbrev stripped : Text → Text
stripped = keep (λ c. not (is_separator c))

stripped-ascii : (raw iban : Text) → Writes raw iban → all (λ c. ltb c 128) (stripped raw) ≡ true
unfolding is_separator is_space
stripped-ascii _ _ nothing = refl
stripped-ascii _ _ (hyphen raw iban w) = stripped-ascii raw iban w
stripped-ascii _ _ (blank raw iban w) = stripped-ascii raw iban w
stripped-ascii _ _ (no_break raw iban w) = stripped-ascii raw iban w
stripped-ascii _ _ (control c raw iban h h' w) = rw (control_lem c h h') (stripped-ascii raw iban w)
stripped-ascii _ _ (digit c raw iban h h' w) =
    rw (kept_lem c (omega arith) (omega arith)) (ground (arith, stripped-ascii raw iban w))
stripped-ascii _ _ (capital c raw iban h h' w) =
    rw (kept_lem c (omega arith) (omega arith)) (ground (arith, stripped-ascii raw iban w))
stripped-ascii _ _ (small c raw iban h h' w) =
    rw (kept_lem c (omega arith) (omega arith)) (ground (arith, stripped-ascii raw iban w))

upper_same : (c : ℕ) → c ≤ 96 → ascii_upper c ≡ c
upper_same c h = ground arith

upper_small : (c : ℕ) → b'a' ≤ c → c ≤ b'z' → ascii_upper c ≡ c - 32
upper_small c h h' = ground arith

raised : (raw iban : Text) → Writes raw iban → map ascii_upper (stripped raw) ≡ iban
unfolding is_separator is_space
raised _ _ nothing = refl
raised _ _ (hyphen raw iban w) = raised raw iban w
raised _ _ (blank raw iban w) = raised raw iban w
raised _ _ (no_break raw iban w) = raised raw iban w
raised _ _ (control c raw iban h h' w) = rw (control_lem c h h') (raised raw iban w)
raised _ _ (digit c raw iban h h' w) =
    rw (kept_lem c (omega arith) (omega arith))
      (λ k. upper_same c (omega arith) k ∷ raised raw iban w k)
raised _ _ (capital c raw iban h h' w) =
    rw (kept_lem c (omega arith) (omega arith))
      (λ k. upper_same c (omega arith) k ∷ raised raw iban w k)
raised _ _ (small c raw iban h h' w) =
    rw (kept_lem c (omega arith) (omega arith)) (λ k. upper_small c h h' k ∷ raised raw iban w k)

-- If `toUpperCase` raises the letters of an ASCII text, every way to write an IBAN, with hyphens, spaces, no-break spaces, tabs and line ends
-- anywhere and with letters of either case, is normalised to that IBAN.
pub normalize_written :
    (upper : Text → Text) (raw iban : Text)
    → IsUpperCase upper
    → Writes raw iban
    → normalize_iban upper raw ≡ iban
unfolding normalize_iban
normalize_written upper raw iban law w =
    law (stripped raw) (stripped-ascii raw iban w) ∙ raised raw iban w

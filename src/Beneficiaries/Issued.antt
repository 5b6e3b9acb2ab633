-- ===== src/Beneficiaries/Issued.antt =====
-- The IBANs that the bank issues (packages/application/src/onboarding/usecases/InitializeClientUseCase.ts), as
-- beneficiaries and as what AccountRepository.findByIban looks for.
use for_real_bank.Prelude.{
  all, keep, find, ℕ, zero, suc, ◌<◌, ◌≡◌, refl, sym, ap, ◌∙◌, Bool, true, false, not, Option, none,
  some, List, [], ◌∷◌, ◌++◌, map, arith, ltb, ◌==◌, length,
}
use for_real_bank.Prelude.Text.{Text, text, text_eq, text_eq_self, is_space}
use for_real_bank.Onboarding.{World, Bank, BankAccount, grouped, random_digits, generate_iban}
use for_real_bank.Beneficiaries.Iban.{
  is_separator, normalize_iban, is_digit, is_alphanumeric, is_valid_iban, ascii_upper, IsUpperCase,
}

-- `REPLACE(account.iban, ' ', '')`, and `iban.replace(/\s/g, '')`.
abbrev pub without_blanks : Text → Text
without_blanks = keep (λ c. not (c == b' '))

unfoldable pub find_by_iban : Text → List BankAccount → Option BankAccount
find_by_iban iban accounts =
    find (λ a. text_eq (without_blanks a.iban) (keep (λ c. not (is_space c)) iban)) accounts

-- Taking the blanks out of the groups of a text of digits gives the text.
ungrouped :
    (drops : ℕ → Bool)
    → drops 32 ≡ true
    → ((c : ℕ) → is_digit c ≡ true → drops c ≡ false)
    → (t : Text) → all is_digit t ≡ true
    → keep (λ c. not (drops c)) (grouped t) ≡ t
ungrouped drops blank digit [] h = refl
ungrouped drops blank digit (a ∷ []) h = ground (arith, digit a)
ungrouped drops blank digit (a ∷ b ∷ []) h = ground (arith, digit a, digit b)
ungrouped drops blank digit (a ∷ b ∷ c ∷ []) h = ground (arith, digit a, digit b, digit c)
ungrouped drops blank digit (a ∷ b ∷ c ∷ d ∷ []) h =
    ground (arith, digit a, digit b, digit c, digit d)
ungrouped drops blank digit (a ∷ b ∷ c ∷ d ∷ e ∷ rest) h =
    ground
      (arith, blank, digit a, digit b, digit c, digit d, ungrouped drops blank digit (e ∷ rest))

digit_separator : (c : ℕ) → is_digit c ≡ true → is_separator c ≡ false
unfolding is_separator is_space
digit_separator c h = ground arith

digit_space : (c : ℕ) → is_digit c ≡ true → is_space c ≡ false
unfolding is_space
digit_space c h = ground arith

random_digits_lem :
    (W : World)
    → ((k : ℕ) → W.random k 10 < 10)
    → (n : ℕ) (b : Bank)
    → (all is_digit (random_digits W n b).0 ≡ true) × (length (random_digits W n b).0 ≡ n)
unfolding random_digits
random_digits_lem W below zero b = (refl, refl)
random_digits_lem W below (suc n) b =
    let rest = random_digits_lem W below n (record b { drawn = suc b.drawn }) in
    (ground (arith, rest, below b.drawn), ground (arith, rest))

digits_ascii : (t : Text) → all is_digit t ≡ true → all (λ c. ltb c 128) t ≡ true
digits_ascii [] h = refl
digits_ascii (c ∷ t) h = ground (arith, digits_ascii t)

digits_upper : (t : Text) → all is_digit t ≡ true → map ascii_upper t ≡ t
digits_upper [] h = refl
digits_upper (c ∷ t) h = ground (arith, digits_upper t)

digits_alphanumeric : (t : Text) → all is_digit t ≡ true → all is_alphanumeric t ≡ true
digits_alphanumeric [] h = refl
digits_alphanumeric (c ∷ t) h = ground (arith, digits_alphanumeric t)

-- An IBAN of the bank without its blanks.
abbrev bare : Text → Text
bare digits = text "FR76" ++ digits

issued_normalized :
    (upper : Text → Text) (digits : Text)
    → IsUpperCase upper
    → all is_digit digits ≡ true
    → normalize_iban upper (text "FR76 " ++ grouped digits) ≡ bare digits
unfolding normalize_iban is_separator is_space
issued_normalized upper digits law h =
    ap (λ t. upper (text "FR76" ++ t)) (ungrouped is_separator refl digit_separator digits h)
    ∙ (law (bare digits) (digits_ascii digits h)
        ∙ ap (λ t. text "FR76" ++ t) (digits_upper digits h))

issued_valid :
    (digits : Text)
    → all is_digit digits ≡ true
    → length digits ≡ 23
    → is_valid_iban (bare digits) ≡ true
unfolding is_valid_iban
issued_valid digits h n = ground (arith, digits_alphanumeric digits h)

keep_digits :
    (digits : Text) → all is_digit digits ≡ true → keep (λ c. not (is_space c)) digits ≡ digits
keep_digits [] h = refl
keep_digits (c ∷ t) h = ground (arith, digit_space c, keep_digits t)

bare_digits :
    (digits : Text)
    → all is_digit digits ≡ true
    → keep (λ c. not (is_space c)) (bare digits) ≡ bare digits
unfolding is_space
bare_digits digits h = ap (λ t. text "FR76" ++ t) (keep_digits digits h)

issued_without_blanks :
    (digits : Text)
    → all is_digit digits ≡ true
    → without_blanks (text "FR76 " ++ grouped digits) ≡ bare digits
issued_without_blanks digits h =
    ap (λ t. text "FR76" ++ t) (ungrouped (λ c. c == b' ') refl (λ c e. ground arith) digits h)

find_last :
    (t : BankAccount → Bool) (others : List BankAccount) (a : BankAccount)
    → find t others ≡ none
    → t a ≡ true
    → find t (others ++ a ∷ []) ≡ some a
find_last t [] a h e = ground arith
find_last t (b ∷ others) a h e = ground (arith, find_last t others a)

-- If the random digits are below ten and `toUpperCase` raises the letters of an ASCII text: the IBAN
-- that the bank issues, normalised, is valid for a beneficiary, and the account that is opened under
-- it is the one that is found by the normalised IBAN, unless an older account has the same.
pub issued_iban_found :
    (W : World) (upper : Text → Text) (b : Bank) (others : List BankAccount) (a : BankAccount)
    → ((k : ℕ) → W.random k 10 < 10)
    → IsUpperCase upper
    → a.iban ≡ (generate_iban W b).0
    → find_by_iban (normalize_iban upper a.iban) others ≡ none
    → (is_valid_iban (normalize_iban upper a.iban) ≡ true)
      × (find_by_iban (normalize_iban upper a.iban) (others ++ a ∷ []) ≡ some a)
unfolding generate_iban find_by_iban
issued_iban_found W upper b others a below law issued missing =
    let digits = (random_digits W 23 b).0 in
    let (h, n) = random_digits_lem W below 23 b in
    let normal : normalize_iban upper a.iban ≡ bare digits =
      ap (normalize_iban upper) issued ∙ issued_normalized upper digits law h in
    let here : text_eq (without_blanks a.iban)
          (keep (λ c. not (is_space c)) (normalize_iban upper a.iban))
        ≡ true =
      rw (issued, issued_without_blanks digits h)
        (rw (ap (normalize_iban upper) (sym issued), normal, bare_digits digits h)
          (text_eq_self (bare digits))) in
    (
      rw normal (issued_valid digits h n),
      find_last
          (λ x.
            text_eq (without_blanks x.iban)
              (keep (λ c. not (is_space c)) (normalize_iban upper a.iban)))
          others a missing here,
    )

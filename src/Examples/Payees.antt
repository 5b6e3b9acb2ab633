-- ===== src/Examples/Payees.antt =====
-- The theorems on beneficiaries and IBANs, at the beneficiaries of two users and at an account that is opened.
use for_real_bank.Prelude.{ℕ, ◌<◌, ◌≡◌, refl, true, none, some, List, [], ◌∷◌, map, arith, ◌%◌}
use for_real_bank.Prelude.Text.{Text, text, is_space}
use for_real_bank.Onboarding.{World, Bank, BankAccount, generate_iban}
use for_real_bank.InitiateTransfer.{checking}
use for_real_bank.Beneficiaries.Iban.{
  ascii_upper, IsUpperCase, Writes, blank, hyphen, small, digit, nothing, normalize_iban,
  normalize_written, is_valid_iban, is_separator,
}
use for_real_bank.Beneficiaries.Issued.{find_by_iban, issued_iban_found}
use for_real_bank.Beneficiaries.{Beneficiary, create_beneficiary, update_label}
use for_real_bank.Beneficiaries.Rows.{IsClean, Reach, created, relabelled, start, next}
use for_real_bank.Beneficiaries.Clean.{Reach-IsClean}
use for_real_bank.Beneficiaries.Scope.{of_user, Step-scoped}

abbrev raise : Text → Text
raise = map ascii_upper

raise-IsUpperCase : IsUpperCase raise
raise-IsUpperCase s h = refl

-- "f-r 7" as a way to write "FR7".
typed-Writes : Writes (text "f-r 7") (text "FR7")
typed-Writes = small 102 _ _ (omega arith) (omega arith) (
    hyphen _ _ (
      small 114 _ _ (omega arith) (omega arith)
        (blank _ _ (digit 55 _ _ (omega arith) (omega arith) nothing))))

normalize_written_example : normalize_iban raise (text "f-r 7") ≡ text "FR7"
normalize_written_example =
    normalize_written raise (text "f-r 7") (text "FR7") raise-IsUpperCase typed-Writes

abbrev outside : World
outside = record {
  random = λ k n. k % n;
  uuid = λ k. k;
  expiry = 0;
  find_user = λ u. none;
  list_users = [];
}

abbrev empty_bank : Bank
empty_bank = record {
  accounts = [];
  investments = [];
  cards = [];
  links = [];
  drawn = 0;
  inserted = 0;
}

abbrev opened : BankAccount
opened = record {
  id = 1;
  user_id = 2;
  name = text "Compte courant";
  account_type = checking;
  balance = 0;
  iban = (generate_iban outside empty_bank).0;
  account_number = [];
  interest_rate = none;
}

digits_below : (k : ℕ) → k % 10 < 10
digits_below k = omega arith

issued_iban_found_example :
    (is_valid_iban (normalize_iban raise opened.iban) ≡ true)
    × (find_by_iban (normalize_iban raise opened.iban) (opened ∷ []) ≡ some opened)
unfolding find_by_iban
issued_iban_found_example =
    issued_iban_found outside raise empty_bank [] opened digits_below raise-IsUpperCase refl refl

abbrev raw : Text
raw = text "fr76 9876 5432 1098 7654 3210 987"

abbrev one : List Beneficiary
one = (create_beneficiary raise 1 7 (text "Loyer") raw [] []).1

abbrev two : List Beneficiary
two = (create_beneficiary raise 2 8 (text "Loyer") raw [] one).1

one-Reach : Reach raise one
one-Reach = next 7 [] one start (created 1 (text "Loyer") raw [] refl)

two-Reach : Reach raise two
unfolding create_beneficiary normalize_iban is_valid_iban is_separator is_space
two-Reach = next 8 one two one-Reach (created 2 (text "Loyer") raw [] refl)

Reach-IsClean_example : IsClean two
Reach-IsClean_example = Reach-IsClean raise two two-Reach

Step-scoped_example : of_user 7 (update_label 8 2 (text "Bail") two).1 ≡ of_user 7 two
Step-scoped_example =
    Step-scoped raise 8 7 two (update_label 8 2 (text "Bail") two).1 refl
      (Reach-IsClean raise two two-Reach) (relabelled 2 (text "Bail"))

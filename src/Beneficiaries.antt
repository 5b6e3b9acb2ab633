-- ===== src/Beneficiaries.antt =====
-- apps/api-nest/src/interface/beneficiaries: iban.ts and beneficiaries.service.ts. `upper` stands for `toUpperCase`.
-- A creation reads the table and writes it later, so it takes the table of each of the two moments.
-- The news and the notification of a creation, which never make it fail, are left out.
pub mod Iban
pub mod Issued
pub mod Rows
pub mod Clean
pub mod Scope
use for_real_bank.Prelude.{
  ℕ, zero, suc, ◌+◌, ◌-◌, ◌*◌, ◌≤◌, ◌<◌, ◌≡◌, refl, sym, ap, ◌∙◌, ◌≢◌, ◌↔◌, ◌⊎◌, inl, inr, Bool,
  true, false, not, ◌&&◌, ◌||◌, Option, none, some, List, [], ◌∷◌, ◌++◌, map, arith, ltb, leb, ◌==◌,
  if◌then◌else◌, length, Bool-cases, Option-cases, is_some, any, find, keep,
}
use for_real_bank.Prelude.Text.{Text, text_eq, is_space}
use for_real_bank.Effect.{
  Result, ok, err, invalid_iban, beneficiary_already_exists, beneficiary_not_found,
}
use for_real_bank.Beneficiaries.Iban.{normalize_iban, is_valid_iban}

pub record Beneficiary : Type 0 where
  pub id : ℕ
  pub user_id : ℕ
  pub label : Text
  pub iban : Text

-- `findOne({ where: { userId, iban } })`, as a truth value.
abbrev pub has_iban : ℕ → Text → List Beneficiary → Bool
has_iban u iban = any (λ b. b.user_id == u && text_eq b.iban iban)

-- `save` of a new row, under the unique constraint on the user and the IBAN.
abbrev pub insert_beneficiary :
    Beneficiary → List Beneficiary → Result Beneficiary × List Beneficiary
insert_beneficiary b bs =
    if has_iban b.user_id b.iban bs
    then (err beneficiary_already_exists, bs)
    else (ok b, bs ++ b ∷ [])

-- `create`: `seen` is the table that the check reads, and the last argument the one that is written.
unfoldable pub create_beneficiary :
    (Text → Text)
    → ℕ
    → ℕ
    → Text
    → Text
    → List Beneficiary
    → List Beneficiary
    → Result Beneficiary × List Beneficiary
create_beneficiary upper new_id u label raw seen bs =
    let iban = normalize_iban upper raw in
    if not (is_valid_iban iban)
    then (err invalid_iban, bs)
    else if has_iban u iban seen
    then (err beneficiary_already_exists, bs)
    else insert_beneficiary (record { id = new_id; user_id = u; label = label; iban = iban }) bs

unfoldable pub update_label :
    ℕ → ℕ → Text → List Beneficiary → Result Beneficiary × List Beneficiary
update_label u id label bs = elim (find (λ b. b.id == id && b.user_id == u) bs) [
  | none ↦ (err beneficiary_not_found, bs)
  | some b ↦ (
    ok (record b { label = label }),
    map (λ x. if x.id == b.id then record b { label = label } else x) bs,
  )
]

unfoldable pub delete_beneficiary : ℕ → ℕ → List Beneficiary → Result (Unit {0}) × List Beneficiary
delete_beneficiary u id bs =
    if any (λ b. b.id == id && b.user_id == u) bs
    then (ok tt, keep (λ b. not (b.id == id && b.user_id == u)) bs)
    else (err beneficiary_not_found, bs)

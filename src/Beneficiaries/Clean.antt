-- ===== src/Beneficiaries/Clean.antt =====
-- Every table of beneficiaries that the service can reach, and whose rows a request may touch.
use for_real_bank.Prelude.{
  find, ℕ, ◌≡◌, inl, inr, not, ◌&&◌, none, some, List, map, arith, ◌==◌, Bool-cases, Option-cases,
}
use for_real_bank.Prelude.Text.{Text}
use for_real_bank.Effect.{ok, err}
use for_real_bank.Beneficiaries.Iban.{normalize_iban, is_valid_iban}
use for_real_bank.Beneficiaries.{
  Beneficiary, has_iban, create_beneficiary, update_label, delete_beneficiary,
  beneficiary_not_found,
}
use for_real_bank.Beneficiaries.Rows.{
  IsClean, Step, Reach, created, relabelled, deleted, start, next, snoc-IsClean, keep-IsClean,
  found_rows, relabel, relabel-IsClean,
}

module _ (u id : ℕ) (label : Text) (bs : List Beneficiary) where
  pub update_missing :
      find (λ b. b.id == id && b.user_id == u) bs ≡ none
      → update_label u id label bs ≡ (err beneficiary_not_found, bs)
  unfolding update_label
  update_missing e = ground arith

  pub update_found :
      (b : Beneficiary)
      → find (λ b. b.id == id && b.user_id == u) bs ≡ some b
      → update_label u id label bs ≡ (ok (record b { label = label }), map (relabel b label) bs)
  unfolding update_label
  update_found b e = ground arith

Step-IsClean :
    (upper : Text → Text) (u : ℕ) (bs bs' : List Beneficiary)
    → Step upper u bs bs'
    → IsClean bs
    → IsClean bs'
unfolding create_beneficiary delete_beneficiary
Step-IsClean upper u bs _ (created new_id label raw seen new) h =
    let iban = normalize_iban upper raw in
    let b : Beneficiary = record { id = new_id; user_id = u; label = label; iban = iban } in
    elim (Bool-cases (is_valid_iban iban)) [
      | inr invalid ↦ ground arith
      | inl valid ↦ elim (Bool-cases (has_iban u iban bs)) [
        | inl taken ↦ ground arith
        | inr fresh ↦ ground (arith, snoc-IsClean bs b h valid fresh new)
      ]
    ]
Step-IsClean upper u bs _ (relabelled id label) h =
    elim (Option-cases (find (λ b. b.id == id && b.user_id == u) bs)) [
      | inl missing ↦ rw (update_missing u id label bs missing) h
      | inr (b, found) ↦ rw (update_found u id label bs b found) (
          relabel-IsClean b label bs (found_rows (λ x. x.id == id && x.user_id == u) bs b h found)
            h)
    ]
Step-IsClean upper u bs _ (deleted id) h =
    ground (arith, keep-IsClean (λ b. not (b.id == id && b.user_id == u)) bs h)

-- In every table that can be reached from an empty one by creations under new identifiers (each with
-- a check on a table that may be out of date), changes of labels and deletions, by any users and in
-- any order, every IBAN is valid, no user has one IBAN twice, and no identifier stands in two rows.
pub Reach-IsClean : (upper : Text → Text) (bs : List Beneficiary) → Reach upper bs → IsClean bs
Reach-IsClean upper _ start = tt
Reach-IsClean upper _ (next u bs bs' reached step) =
    Step-IsClean upper u bs bs' step (Reach-IsClean upper bs reached)

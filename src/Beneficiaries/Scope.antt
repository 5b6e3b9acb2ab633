-- ===== src/Beneficiaries/Scope.antt =====
-- A request of a user touches his own beneficiaries only.
use for_real_bank.Prelude.{
  All, find, keep, ℕ, ◌≡◌, refl, inl, inr, false, not, ◌&&◌, List, [], ◌∷◌, ◌++◌, map, arith, ◌==◌,
  Bool-cases, Option-cases,
}
use for_real_bank.Prelude.Text.{Text}
use for_real_bank.Beneficiaries.Iban.{normalize_iban}
use for_real_bank.Beneficiaries.{Beneficiary, create_beneficiary, delete_beneficiary}
use for_real_bank.Beneficiaries.Rows.{
  IsClean, Step, created, relabelled, deleted, IsRowOf, found_rows, find-any, relabel,
}
use for_real_bank.Beneficiaries.Clean.{update_missing, update_found}

abbrev pub of_user : ℕ → List Beneficiary → List Beneficiary
of_user v = keep (λ b. b.user_id == v)

of_user-snoc :
    (v : ℕ) (bs : List Beneficiary) (b : Beneficiary)
    → (b.user_id == v) ≡ false
    → of_user v (bs ++ b ∷ []) ≡ of_user v bs
of_user-snoc v [] b h = ground arith
of_user-snoc v (x ∷ bs) b h = ground (arith, of_user-snoc v bs b h)

of_user-delete :
    (u v id : ℕ) (bs : List Beneficiary)
    → (u == v) ≡ false
    → of_user v (keep (λ b. not (b.id == id && b.user_id == u)) bs) ≡ of_user v bs
of_user-delete u v id [] h = refl
of_user-delete u v id (x ∷ bs) h = ground (arith, of_user-delete u v id bs h)

of_user-relabel :
    (v : ℕ) (label : Text) (b : Beneficiary) (bs : List Beneficiary)
    → (b.user_id == v) ≡ false
    → All (IsRowOf b) bs
    → of_user v (map (relabel b label) bs) ≡ of_user v bs
of_user-relabel v label b [] h rows = refl
of_user-relabel v label b (x ∷ bs) h rows =
    let rest = of_user-relabel v label b bs h rows.1 in
    elim (Bool-cases (x.id == b.id)) [
      | inl same ↦ ground (arith, rest, rows.0 same)
      | inr other ↦ ground (arith, rest)
    ]

-- On a clean table, a request of one user, whatever it is and whether it succeeds or not, leaves the
-- beneficiaries of every other user as they were.
pub Step-scoped :
    (upper : Text → Text) (u v : ℕ) (bs bs' : List Beneficiary)
    → (u == v) ≡ false
    → IsClean bs
    → Step upper u bs bs'
    → of_user v bs' ≡ of_user v bs
unfolding create_beneficiary delete_beneficiary
Step-scoped upper u v bs _ other clean (created new_id label raw seen new) =
    let b : Beneficiary = record {
      id = new_id;
      user_id = u;
      label = label;
      iban = normalize_iban upper raw;
    } in
    ground (arith, of_user-snoc v bs b other)
Step-scoped upper u v bs _ other clean (relabelled id label) =
    let t = λ (b : Beneficiary). b.id == id && b.user_id == u in
    elim (Option-cases (find t bs)) [
      | inl missing ↦ rw (update_missing u id label bs missing) refl
      | inr (b, found) ↦
          let mine : (b.user_id == v) ≡ false = ground (arith, find-any t bs b found) in
          rw (update_found u id label bs b found)
            (of_user-relabel v label b bs mine (found_rows t bs b clean found))
    ]
Step-scoped upper u v bs _ other clean (deleted id) = ground (arith, of_user-delete u v id bs other)

-- ===== src/Transfer/Outcomes.antt =====
-- How a movement of money can end.
use for_real_bank.Prelude.{ℕ, ◌≡◌, inl, inr, true, ◌∙◌, Bool-cases, refl, arith}
use for_real_bank.Effect.{ok, err, numeric_overflow}
use for_real_bank.Transfer.{Db, ExecuteTransferInput, completed, nan, move}
use for_real_bank.Transfer.Steps.{has_room, after_debit, after_credit, move_lem}

-- How `move` ends.
pub data Outcome (source_tx destination_tx : ℕ) (i : ExecuteTransferInput) (db : Db) : Type 0 where
  big :
      (move source_tx destination_tx i db).0 ≡ err numeric_overflow
      → Outcome source_tx destination_tx i db
  paid :
      move source_tx destination_tx i db ≡ (
        ok (completed nan nan source_tx destination_tx),
        after_credit destination_tx i (after_debit source_tx i db),
      )
      → Outcome source_tx destination_tx i db

module _ (source_tx destination_tx : ℕ) (i : ExecuteTransferInput) (db : Db) where
  -- Room in the destination is all that a movement needs.
  pub move_completes :
      has_room i.destination i.amount (after_debit source_tx i db) ≡ true
      → move source_tx destination_tx i db ≡ (
        ok (completed nan nan source_tx destination_tx),
        after_credit destination_tx i (after_debit source_tx i db),
      )
  move_completes room = move_lem source_tx destination_tx i db ∙ rw room refl

  pub move_cases : Outcome source_tx destination_tx i db
  move_cases = elim (Bool-cases (has_room i.destination i.amount (after_debit source_tx i db))) [
    | inl room ↦ paid (move_completes room)
    | inr full ↦ let e = move_lem source_tx destination_tx i db in big (ground (arith, full, e))
  ]

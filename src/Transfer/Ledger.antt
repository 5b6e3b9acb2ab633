-- ===== src/Transfer/Ledger.antt =====
-- What the gateway is meant to keep: a ledger of balances and used keys, and any sequence of transfers on it.
use for_real_bank.Prelude.Int.{ℤ, pos, ◌+ℤ◌, ◌-ℤ◌, leb_ℤ}
use for_real_bank.Transfer.Steps.{balance_at}
use for_real_bank.Transfer.Balances.{party_eq}
use for_real_bank.Effect.{Result, err, ok, transfer_destination_not_found, numeric_overflow}
use for_real_bank.Prelude.{
  ℕ, ◌≡◌, Bool, false, ◌||◌, Option, none, some, List, [], ◌∷◌, if◌then◌else◌, any, true,
}
use for_real_bank.Prelude.Text.{Text, text_eq}
use for_real_bank.Transfer.{
  Db, TransferParty, ExecuteTransferInput, DataSource, ExecuteTransferOutput, execute,
  insufficient_funds, duplicate, numeric_ok, completed, nan, number,
}

-- A ledger forgets the tables, the movements and the locks.
pub record Ledger : Type 0 where
  pub balance : TransferParty → Option ℤ
  pub knows : Text → Bool

abbrev pub is_used : Option Text → (Text → Bool) → Bool
is_used none knows = false
is_used (some key) knows = knows key

abbrev pub also_used : Option Text → (Text → Bool) → Text → Bool
also_used none knows t = knows t
also_used (some key) knows t = text_eq t key || knows t

abbrev pub set_balance : TransferParty → ℤ → (TransferParty → Option ℤ) → TransferParty → Option ℤ
set_balance p v balance q = if party_eq q p then some v else balance q

module _ (source_tx destination_tx : ℕ) (i : ExecuteTransferInput) where
  unfoldable pub credit_ledger :
      ℤ → Option ℤ → (TransferParty → Option ℤ) → Ledger → Result ExecuteTransferOutput × Ledger
  credit_ledger v none paid l = (err transfer_destination_not_found, l)
  credit_ledger v (some w) paid l =
      if numeric_ok (w +ℤ pos i.amount)
      then (
        ok (completed (number v) (number (w +ℤ pos i.amount)) source_tx destination_tx),
        record {
          balance = set_balance i.destination (w +ℤ pos i.amount) paid;
          knows = also_used i.idempotency_key l.knows;
        },
      )
      else (err numeric_overflow, l)

  unfoldable pub debit_ledger : Option ℤ → Ledger → Result ExecuteTransferOutput × Ledger
  unfolding credit_ledger
  debit_ledger none l = (ok insufficient_funds, l)
  debit_ledger (some v) l =
      if leb_ℤ (pos i.amount) v
      then (let paid = set_balance i.source (v -ℤ pos i.amount) l.balance in
          credit_ledger (v -ℤ pos i.amount) (paid i.destination) paid l)
      else (ok insufficient_funds, l)

  -- One transfer on the ledger.
  unfoldable pub transfer : Ledger → Result ExecuteTransferOutput × Ledger
  unfolding debit_ledger
  transfer l =
      if is_used i.idempotency_key l.knows
      then (ok duplicate, l)
      else debit_ledger (l.balance i.source) l

-- A transfer with the identifiers that the database draws for its two movements.
abbrev pub Request : Type 0
Request = ℕ × ℕ × ExecuteTransferInput

-- A sequence of transfers on the tables, and on the ledger, with all answers.
unfoldable pub run_gateway :
    DataSource → List Request → Db → List (Result ExecuteTransferOutput) × Db
run_gateway ds [] db = ([], db)
run_gateway ds ((tx, tx', i) ∷ rs) db =
    let (r, db') = execute ds tx tx' i db in
    let (answers, db'') = run_gateway ds rs db' in (r ∷ answers, db'')

unfoldable pub run_ledger : List Request → Ledger → List (Result ExecuteTransferOutput) × Ledger
run_ledger [] l = ([], l)
run_ledger ((tx, tx', i) ∷ rs) l =
    let (r, l') = transfer tx tx' i l in let (answers, l'') = run_ledger rs l' in (r ∷ answers, l'')

-- The ledger neither lacked the money nor the destination.
abbrev pub is_settled : Result ExecuteTransferOutput → Bool
is_settled (ok insufficient_funds) = false
is_settled (err transfer_destination_not_found) = false
is_settled _ = true

-- An answer without the balances that it reports.
abbrev pub without_balances : Result ExecuteTransferOutput → Result ExecuteTransferOutput
without_balances (ok (completed _ _ tx tx')) = ok (completed nan nan tx tx')
without_balances r = r

pub record IsLedgerOf (l : Ledger) (db : Db) : Type 0 where
  pub balances : (q : TransferParty) → l.balance q ≡ balance_at q db
  pub keys : (key : Text) → l.knows key ≡ any (text_eq key) db.keys

-- ===== src/Transfer/Steps.antt =====
-- What the debit, the credit and the row locks of a transfer leave.
use for_real_bank.Prelude.{
  ℕ, ◌≡◌, inl, inr, true, false, Option, none, some, ◌++◌, arith, if◌then◌else◌, Bool-cases, refl,
  Bool, all,
}
use for_real_bank.Prelude.Int.{ℤ, pos, ◌+ℤ◌, ◌-ℤ◌, leb_ℤ}
use for_real_bank.Prelude.Text.{Text}
use for_real_bank.Effect
use for_real_bank.Effect.{
  Result, ok, err, insufficient_funds_signal, transfer_destination_not_found, numeric_overflow,
}
use for_real_bank.Transfer.Rows.{IsKeyed, balance_of, update_where, returning_lem, update-IsKeyed}
use mathlib.Core.List.{append_assoc}
use for_real_bank.Transfer.{
  Db, TransferParty, TransferAccountKind, bank, investment, table_of, with_table,
  ExecuteTransferInput, completed, outgoing, incoming, decrement_if_sufficient, increment,
  write_ledger, lock_order, lock_row, move, numeric_ok, party_lt, Direction, Movement,
  insert_movement, movement_type, signed_amount, nan, returning,
}

abbrev pub balance_at : TransferParty → Db → Option ℤ
balance_at p db = balance_of p.id (table_of p.kind db)

pub record IsKeyedDb (db : Db) : Type 0 where
  pub accounts : IsKeyed db.accounts
  pub investment_accounts : IsKeyed db.investment_accounts

abbrev pub debited : TransferParty → ℕ → Db → Db
debited p a db =
    with_table p.kind
      (update_where (λ v. leb_ℤ (pos a) v) (λ v. v -ℤ pos a) p.id (table_of p.kind db)) db

abbrev pub credited : TransferParty → ℕ → Db → Db
credited p a db =
    with_table p.kind (update_where (λ v. true) (λ v. v +ℤ pos a) p.id (table_of p.kind db)) db

IsKeyed-table : (k : TransferAccountKind) (db : Db) → IsKeyedDb db → IsKeyed (table_of k db)
IsKeyed-table bank db h = h.accounts
IsKeyed-table investment db h = h.investment_accounts

decrement_lem :
    (p : TransferParty) (a : ℕ) (db : Db)
    → decrement_if_sufficient p a db ≡ (ok (some nan), debited p a db)
unfolding decrement_if_sufficient
decrement_lem p a db = refl

-- Every new balance of the credited party fits its column.
abbrev pub has_room : TransferParty → ℕ → Db → Bool
has_room p a db = all numeric_ok (returning (λ v. true) (λ v. v +ℤ pos a) p.id (table_of p.kind db))

pub increment_lem :
    (p : TransferParty) (a : ℕ) (db : Db)
    → has_room p a db ≡ true
    → increment p a db ≡ (ok (some nan), credited p a db)
unfolding increment
increment_lem p a db room = rw room refl

pub increment_overflow :
    (p : TransferParty) (a : ℕ) (db : Db)
    → has_room p a db ≡ false
    → increment p a db ≡ (err numeric_overflow, db)
unfolding increment
increment_overflow p a db full = rw full refl

-- With the primary key there is at most one new balance.
pub has_room_lem :
    (p : TransferParty) (a : ℕ) (db : Db)
    → IsKeyedDb db
    → has_room p a db ≡ elim (balance_at p db) [ none ↦ true | some w ↦ numeric_ok (w +ℤ pos a) ]
has_room_lem p a db h = ground (
  arith,
  returning_lem (λ v. true) (λ v. v +ℤ pos a) p.id (table_of p.kind db) (IsKeyed-table p.kind db h),
)

lock_rows :
    (a b : TransferParty) (db : Db)
    → Effect.for_each lock_row (lock_order a b) db
      ≡ (ok tt, record db { locked = db.locked ++ lock_order a b })
unfolding lock_order lock_row Effect.for_each
lock_rows a b db = elim (Bool-cases (party_lt b a)) [
  | inl e ↦ rw (e, append_assoc)
  | inr e ↦ rw (e, append_assoc)
]

-- The row of a movement, as `write_ledger` inserts it.
abbrev pub movement : ℕ → TransferParty → Direction → ℕ → Text → Movement
movement new_id p d a description = record {
  id = new_id;
  account_id = p.id;
  type = movement_type p.kind d;
  description = description;
  amount = signed_amount p.kind d a;
  balance_after = nan;
}

abbrev pub with_locks : TransferParty → TransferParty → Db → Db
with_locks a b db = record db { locked = db.locked ++ lock_order a b }

-- The tables after the debit and its movement.
abbrev pub after_debit : ℕ → ExecuteTransferInput → Db → Db
after_debit tx i db =
    insert_movement i.source.kind (movement tx i.source outgoing i.amount i.description)
      (debited i.source i.amount (with_locks i.source i.destination db))

-- The tables after the credit and its movement.
abbrev pub after_credit : ℕ → ExecuteTransferInput → Db → Db
after_credit tx i db =
    insert_movement i.destination.kind (movement tx i.destination incoming i.amount i.description)
      (credited i.destination i.amount db)

debited-IsKeyed : (p : TransferParty) (a : ℕ) (db : Db) → IsKeyedDb db → IsKeyedDb (debited p a db)
debited-IsKeyed p a db h =
    let test = λ (v : ℤ). leb_ℤ (pos a) v in
    let f = λ (v : ℤ). v -ℤ pos a in
    ground (
      arith,
      update-IsKeyed test f p.id db.accounts h.accounts,
      update-IsKeyed test f p.id db.investment_accounts h.investment_accounts,
    )

pub after_debit-IsKeyed :
    (tx : ℕ) (i : ExecuteTransferInput) (db : Db) → IsKeyedDb db → IsKeyedDb (after_debit tx i db)
after_debit-IsKeyed tx i db h =
    let g =
      debited-IsKeyed i.source i.amount (with_locks i.source i.destination db)
        (record { accounts = h.accounts; investment_accounts = h.investment_accounts }) in
    ground arith

module _ (source_tx destination_tx : ℕ) (i : ExecuteTransferInput) (db : Db) where
  abbrev middle : Db
  middle = after_debit source_tx i db

  -- Whatever the balances are, the movement goes through where the credit fits.
  pub move_lem : move source_tx destination_tx i db ≡ (
      if has_room i.destination i.amount middle
      then (ok (completed nan nan source_tx destination_tx), after_credit destination_tx i middle)
      else (err numeric_overflow, middle))
  unfolding move write_ledger
  move_lem =
      let locks = lock_rows i.source i.destination db in
      let debit = decrement_lem i.source i.amount (with_locks i.source i.destination db) in
      elim (Bool-cases (has_room i.destination i.amount middle)) [
        | inl room ↦ ground (arith, locks, debit, increment_lem i.destination i.amount middle room)
        | inr full ↦
            ground (arith, locks, debit, increment_overflow i.destination i.amount middle full)
      ]

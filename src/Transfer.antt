-- ===== src/Transfer.antt =====
-- packages/infrastructure/typeorm/src/repositories/TransferGateway.ts: the atomic movement of money.
-- Amounts and balances are cents (the columns are decimal(15, 2)). An SQL statement is a function on
-- its table (its numeric columns take NaN); the transaction of the data source is a parameter with its two laws.
pub mod Rows
pub mod Steps
pub mod Outcomes
pub mod Money
pub mod Atomic
pub mod Balances
pub mod Ledger
pub mod Refinement
use for_real_bank.Prelude.{
  ℕ, zero, suc, ◌+◌, ◌-◌, ◌*◌, ◌≤◌, ◌<◌, ◌≡◌, refl, sym, ap, ◌∙◌, ◌≢◌, ◌↔◌, ◌⊎◌, inl, inr, Bool,
  true, false, not, ◌&&◌, ◌||◌, Option, none, some, List, [], ◌∷◌, ◌++◌, map, arith, ltb, leb, ◌==◌,
  if◌then◌else◌, length, Bool-cases, Option-cases, is_some, any, all,
}
use for_real_bank.Prelude.Int.{ℤ, pos, ◌-ℤ◌, ◌+ℤ◌, ltb_ℤ, leb_ℤ}
use for_real_bank.Prelude.Text.{Text, text, text_eq}
use for_real_bank.Effect.{
  Exec, pure, throw, gets, modify, or_throw, ◌>>=◌, ◌>>◌, Result, ok, err, for_each, Error,
  insufficient_funds_signal, transfer_destination_not_found, numeric_overflow,
}
use for_real_bank.Transfer.Rows.{
  Table, update_where, returning, balance_of, returning, update_where,
}

pub data TransferAccountKind : Type 0 where
  bank investment : TransferAccountKind

pub record TransferParty : Type 0 where
  pub kind : TransferAccountKind
  pub id : ℕ

-- An empty key counts as no key.
pub record ExecuteTransferInput : Type 0 where
  pub source : TransferParty
  pub destination : TransferParty
  pub amount : ℕ
  pub description : Text
  pub idempotency_key : Option Text

-- A JavaScript number that stands for a balance.
pub data Reading : Type 0 where
  nan : Reading
  number : ℤ → Reading

pub data ExecuteTransferOutput : Type 0 where
  completed : Reading → Reading → ℕ → ℕ → ExecuteTransferOutput
  insufficient_funds : ExecuteTransferOutput
  duplicate : ExecuteTransferOutput

pub data Direction : Type 0 where
  incoming outgoing : Direction

-- The `type` column of the two tables of movements.
pub data MovementType : Type 0 where
  debit transfer withdrawal deposit : MovementType

-- A row of `bank_transactions` or `investment_transactions`.
pub record Movement : Type 0 where
  pub id : ℕ
  pub account_id : ℕ
  pub type : MovementType
  pub description : Text
  pub amount : ℤ
  pub balance_after : Reading

-- The tables that a transfer touches, and the rows that the running transaction has locked.
pub record Db : Type 0 where
  pub accounts : Table
  pub investment_accounts : Table
  pub keys : List Text
  pub bank_transactions : List Movement
  pub investment_transactions : List Movement
  pub locked : List TransferParty

abbrev pub kind_eq : TransferAccountKind → TransferAccountKind → Bool
kind_eq bank bank = true
kind_eq investment investment = true
kind_eq _ _ = false

-- `sqlShape`: the table of a kind of account.
abbrev pub table_of : TransferAccountKind → Db → Table
table_of bank db = db.accounts
table_of investment db = db.investment_accounts

abbrev pub with_table : TransferAccountKind → Table → Db → Db
with_table bank t db = record db { accounts = t }
with_table investment t db = record db { investment_accounts = t }

-- The keys `kind:id` in the order of the texts.
abbrev pub party_lt : TransferParty → TransferParty → Bool
party_lt a b = if kind_eq a.kind b.kind then ltb a.id b.id else kind_eq a.kind bank

-- The two parties, sorted by their keys.
unfoldable pub lock_order : TransferParty → TransferParty → List TransferParty
lock_order a b = if party_lt b a then b ∷ a ∷ [] else a ∷ b ∷ []

unfoldable pub lock_row : TransferParty → Exec Db (Unit {0})
lock_row party = modify (λ db. record db { locked = db.locked ++ party ∷ [] })

-- `decimal(15, 2)` holds no balance of 10 ^ 13 euros or more.
abbrev pub numeric_ok : ℤ → Bool
numeric_ok v = ltb_ℤ v (pos 1000000000000000)

-- What `manager.query` gives for an `UPDATE … RETURNING`: the list of the rows and their number, as
-- ban-requests.service.ts:247 reads it.
pub data QueryItem : Type 0 where
  rows_of : List ℤ → QueryItem
  row_count : ℕ → QueryItem

abbrev pub update_result : List ℤ → List QueryItem
update_result rows = rows_of rows ∷ row_count (length rows) ∷ []

-- `Number(item.balance)`: neither a list nor a number has the field.
abbrev pub number_of : QueryItem → Reading
number_of (rows_of _) = nan
number_of (row_count _) = nan

-- `rows.length > 0 ? Number(rows[0].balance) : null`
abbrev pub read_balance : List QueryItem → Option Reading
read_balance [] = none
read_balance (item ∷ _) = some (number_of item)

unfoldable pub decrement_if_sufficient : TransferParty → ℕ → Exec Db (Option Reading)
decrement_if_sufficient party amount db =
    let t = table_of party.kind db in
    let test = λ (v : ℤ). leb_ℤ (pos amount) v in
    let f = λ (v : ℤ). v -ℤ pos amount in
    (
      ok (read_balance (update_result (returning test f party.id t))),
      with_table party.kind (update_where test f party.id t) db,
    )

-- The statement fails where a new balance does not fit its column.
unfoldable pub increment : TransferParty → ℕ → Exec Db (Option Reading)
increment party amount db =
    let t = table_of party.kind db in
    let test = λ (v : ℤ). true in
    let f = λ (v : ℤ). v +ℤ pos amount in
    let new = returning test f party.id t in
    if all numeric_ok new
    then (
      ok (read_balance (update_result new)),
      with_table party.kind (update_where test f party.id t) db,
    )
    else (err numeric_overflow, db)

abbrev pub movement_type : TransferAccountKind → Direction → MovementType
movement_type bank outgoing = debit
movement_type bank incoming = transfer
movement_type investment outgoing = withdrawal
movement_type investment incoming = deposit

-- Debits of a bank account are stored as negative amounts.
abbrev pub signed_amount : TransferAccountKind → Direction → ℕ → ℤ
signed_amount bank outgoing amount = pos 0 -ℤ pos amount
signed_amount _ _ amount = pos amount

abbrev pub insert_movement : TransferAccountKind → Movement → Db → Db
insert_movement bank m db = record db { bank_transactions = db.bank_transactions ++ m ∷ [] }
insert_movement investment m db = record db {
  investment_transactions = db.investment_transactions ++ m ∷ [];
}

-- `new_id` is the identifier that the database draws for the row.
unfoldable pub write_ledger : ℕ → TransferParty → Direction → ℕ → Reading → Text → Exec Db ℕ
write_ledger new_id party direction amount balance_after description = do
  modify (
      insert_movement party.kind (record {
        id = new_id;
        account_id = party.id;
        type = movement_type party.kind direction;
        description = description;
        amount = signed_amount party.kind direction amount;
        balance_after = balance_after;
      }))
  pure new_id

-- `INSERT … ON CONFLICT (key) DO NOTHING RETURNING key`: whether the key is new.
unfoldable pub claim_key : Option Text → Exec Db Bool
claim_key none db = (ok true, db)
claim_key (some key) db =
    if any (text_eq key) db.keys
    then (ok false, db)
    else (ok true, record db { keys = key ∷ db.keys })

unfoldable pub move : ℕ → ℕ → ExecuteTransferInput → Exec Db ExecuteTransferOutput
move source_tx destination_tx input = do
  for_each lock_row (lock_order input.source input.destination)
  debited ← decrement_if_sufficient input.source input.amount
  new_source ← or_throw debited insufficient_funds_signal
  out_id ← write_ledger source_tx input.source outgoing input.amount new_source input.description
  credited ← increment input.destination input.amount
  new_destination ← or_throw credited transfer_destination_not_found
  in_id ←
      write_ledger destination_tx input.destination incoming input.amount new_destination
        input.description
  pure (completed new_source new_destination out_id in_id)

unfoldable pub gateway_body : ℕ → ℕ → ExecuteTransferInput → Exec Db ExecuteTransferOutput
unfolding claim_key move
gateway_body source_tx destination_tx input = do
  claimed ← claim_key input.idempotency_key
  if claimed then move source_tx destination_tx input else pure duplicate

-- The end of a transaction releases its row locks.
abbrev pub release : Db → Db
release db = record db { locked = [] }

-- `dataSource.transaction`: it commits what a body that returns has written, and it leaves nothing of
-- a body that throws.
pub record DataSource : Type 0 where
  pub transaction : Exec Db ExecuteTransferOutput → Exec Db ExecuteTransferOutput
  pub commits :
      (body : Exec Db ExecuteTransferOutput) (out : ExecuteTransferOutput) (db db' : Db)
      → body db ≡ (ok out, db')
      → transaction body db ≡ (ok out, release db')
  pub rolls_back :
      (body : Exec Db ExecuteTransferOutput) (e : Error) (db db' : Db)
      → body db ≡ (err e, db')
      → transaction body db ≡ (err e, db)

-- `catch (error)`: the internal signal becomes an outcome, and the other errors go on.
abbrev pub catch_signal : Result ExecuteTransferOutput → Result ExecuteTransferOutput
catch_signal (ok out) = ok out
catch_signal (err insufficient_funds_signal) = ok insufficient_funds
catch_signal (err e) = err e

-- `TransferGateway.execute`, with the identifiers that the database draws for the two movements.
unfoldable pub execute : DataSource → ℕ → ℕ → ExecuteTransferInput → Exec Db ExecuteTransferOutput
unfolding gateway_body
execute source source_tx destination_tx input db =
    let (r, db') = source.transaction (gateway_body source_tx destination_tx input) db in
    (catch_signal r, db')

-- ===== src/Examples/Money.antt =====
-- The theorems on transfers at two accounts of one user: 50 euros of 120 go from the checking account to the
-- savings account.
use for_real_bank.Prelude.{
  ℕ, ◌+◌, ◌*◌, ◌≡◌, refl, true, Option, none, some, [], ◌∷◌, arith, ◌==◌, if◌then◌else◌, List, any,
  map,
}
use Prim.Native.Nat.{◌/◌}
use for_real_bank.Prelude.Int.{pos, ◌+ℤ◌, ◌-ℤ◌, ◌≤ℤ◌}
use for_real_bank.Prelude.Text.{text}
use for_real_bank.Effect.{for_each, Exec, ok, err, Error}
use for_real_bank.Transfer.{
  Db, bank, TransferParty, ExecuteTransferInput, ExecuteTransferOutput, completed, nan, duplicate,
  DataSource, execute, gateway_body, claim_key, move, release, write_ledger, lock_row, increment,
  decrement_if_sufficient, lock_order,
}
use for_real_bank.Transfer.Ledger.{
  Ledger, Request, run_gateway, run_ledger, IsLedgerOf, without_balances, transfer, debit_ledger,
  credit_ledger,
}
use for_real_bank.Transfer.Refinement.{run_gateway_refines}
use for_real_bank.Prelude.Text.{text_eq}
use for_real_bank.Transfer.Steps.{IsKeyedDb, balance_at}
use for_real_bank.Transfer.Atomic.{execute_all_or_nothing, execute_replay}
use for_real_bank.Transfer.Balances.{execute_moves, party_eq}
use for_real_bank.InitiateTransfer.{
  JsNumber, Account, AccountReads, checking, savings, TransferRequest, initiate, validate,
  check_amount, round_money, resolve_source, resolve_destination,
}
use for_real_bank.InitiateTransfer.Authorised.{success-IsAuthorised, IsAuthorised}

abbrev committed : Exec Db ExecuteTransferOutput → Exec Db ExecuteTransferOutput
committed body db =
    let (r, db') = body db in elim r [ ok out ↦ (ok out, release db') | err e ↦ (err e, db) ]

commits_lem :
    (body : Exec Db ExecuteTransferOutput) (out : ExecuteTransferOutput) (db db' : Db)
    → body db ≡ (ok out, db')
    → committed body db ≡ (ok out, release db')
commits_lem body out db db' h = ground (arith, h)

rolls_back_lem :
    (body : Exec Db ExecuteTransferOutput) (e : Error) (db db' : Db)
    → body db ≡ (err e, db')
    → committed body db ≡ (err e, db)
rolls_back_lem body e db db' h = ground (arith, h)

-- A transaction that commits or leaves the tables as they were.
abbrev database : DataSource
database = record { transaction = committed; commits = commits_lem; rolls_back = rolls_back_lem }

abbrev tables : Db
tables = record {
  accounts = (1, pos 12000) ∷ (2, pos 700) ∷ [];
  investment_accounts = [];
  keys = [];
  bank_transactions = [];
  investment_transactions = [];
  locked = [];
}

abbrev account_at : ℕ → TransferParty
account_at i = record { kind = bank; id = i }

abbrev order_of : ℕ → ExecuteTransferInput
order_of amount = record {
  source = account_at 1;
  destination = account_at 2;
  amount = amount;
  description = text "Rent";
  idempotency_key = some (text "k1");
}

tables-IsKeyedDb : IsKeyedDb tables
tables-IsKeyedDb = record { accounts = (refl, (refl, tt)); investment_accounts = tt }

execute_all_or_nothing_example :
    (execute database 7 8 (order_of 1000000000000000) tables).1 ≡ tables
unfolding execute gateway_body claim_key move write_ledger lock_row increment
    decrement_if_sufficient lock_order for_each ◌+ℤ◌
execute_all_or_nothing_example =
    execute_all_or_nothing database 7 8 (order_of 1000000000000000) tables tables-IsKeyedDb refl
      refl

execute_replay_example :
    execute database 9 10 (order_of 3) (execute database 7 8 (order_of 5000) tables).1
    ≡ (ok duplicate, (execute database 7 8 (order_of 5000) tables).1)
unfolding execute gateway_body claim_key move write_ledger lock_row increment
    decrement_if_sufficient lock_order for_each ◌+ℤ◌
execute_replay_example =
    execute_replay database 7 8 (order_of 5000) tables tables-IsKeyedDb (text "k1") refl refl 9 10
      (order_of 3) refl

covered : pos 5000 ≤ℤ pos 12000
covered = omega arith

execute_moves_example :
    let (r, db') = execute database 7 8 (order_of 5000) tables in
    (r ≡ ok (completed nan nan 7 8))
    × ((q : TransferParty)
        → balance_at q db' ≡ (
            if party_eq q (account_at 2)
            then some (pos 700 +ℤ pos 5000)
            else if party_eq q (account_at 1)
            then some (pos 12000 -ℤ pos 5000)
            else balance_at q tables))
unfolding ◌+ℤ◌
execute_moves_example =
    execute_moves database 7 8 (order_of 5000) (pos 12000) (pos 700) tables tables-IsKeyedDb refl
      refl refl covered refl refl

-- Numbers that are whole cents.
abbrev cents : JsNumber
cents = record {
  Number = ℕ;
  is_finite = λ x. true;
  at_most_zero = λ x. x == 0;
  add = λ x y. x + y;
  mul = λ x y. x * y;
  div = λ x y. x / y;
  round = λ x. x;
  epsilon = 0;
  hundred = 100;
  to_cents = λ x. x;
}

abbrev account_row : ℕ → Option Account
account_row i =
    if i == 1
    then some (record { id = 1; user_id = 40; account_type = checking })
    else if i == 2
    then some (record { id = 2; user_id = 40; account_type = savings })
    else none

abbrev reads : AccountReads
reads = record {
  find_by_id = account_row;
  find_by_iban = λ iban. none;
  find_investment = λ i. none;
}

abbrev request_of : ℕ → TransferRequest cents
request_of amount = record {
  user_id = 40;
  source_type = bank;
  source_account_id = some 1;
  destination_account_id = some 2;
  destination_iban = none;
  amount = some amount;
  description = none;
  idempotency_key = none;
}

success-IsAuthorised_example :
    (i : ExecuteTransferInput) × IsAuthorised reads cents (request_of 5000) i
    × ((execute database 7 8 i tables).0 ≡ ok (completed nan nan 7 8))
    × ((initiate reads cents database 7 8 (request_of 5000) tables).1
        ≡ (execute database 7 8 i tables).1)
unfolding execute gateway_body claim_key move write_ledger lock_row increment
    decrement_if_sufficient lock_order for_each ◌+ℤ◌ ◌-ℤ◌ initiate validate check_amount round_money
    resolve_source resolve_destination
success-IsAuthorised_example =
    success-IsAuthorised reads cents (request_of 5000) database 7 8 (completed nan nan 7 8) tables
      refl

-- The ledger of the tables.
abbrev books : Ledger
books = record { balance = λ p. balance_at p tables; knows = λ key. any (text_eq key) tables.keys }

tables-IsLedgerOf : IsLedgerOf books tables
tables-IsLedgerOf = record { balances = λ p. refl; keys = λ key. refl }

-- Back from the savings account, with no key.
abbrev back_of : ℕ → ExecuteTransferInput
back_of amount = record {
  source = account_at 2;
  destination = account_at 1;
  amount = amount;
  description = text "Back";
  idempotency_key = none;
}

abbrev orders : List Request
orders = (7, 8, order_of 5000) ∷ (9, 10, order_of 5000) ∷ (11, 12, back_of 5200) ∷ []

run_gateway_refines_example :
    (map without_balances (run_gateway database orders tables).0
      ≡ map without_balances (run_ledger orders books).0)
    × IsLedgerOf (run_ledger orders books).1 (run_gateway database orders tables).1
unfolding run_ledger transfer debit_ledger credit_ledger ◌+ℤ◌ ◌-ℤ◌ text_eq
run_gateway_refines_example =
    run_gateway_refines database orders books tables tables-IsKeyedDb tables-IsLedgerOf refl

-- ===== src/InitiateTransfer.antt =====
-- packages/application/src/transactions/usecases/InitiateTransferUseCase.ts: the checks before the
-- gateway. A JavaScript number is a parameter with the operations that the code applies; the reads
-- of the account repositories are functions; an empty identifier, text or key counts as none.
pub mod Authorised
use for_real_bank.Prelude.{
  any, ℕ, zero, suc, ◌+◌, ◌-◌, ◌*◌, ◌≤◌, ◌<◌, ◌≡◌, refl, sym, ap, ◌∙◌, ◌≢◌, ◌↔◌, ◌⊎◌, inl, inr,
  Bool, true, false, not, ◌&&◌, ◌||◌, Option, none, some, List, [], ◌∷◌, ◌++◌, map, arith, ltb, leb,
  ◌==◌, if◌then◌else◌, length, Bool-cases, Option-cases, is_some,
}
use for_real_bank.Prelude.Text.{Text, text, trim, is_empty}
use for_real_bank.Effect.{Exec, Result, ok, err}
use for_real_bank.Transfer.{
  Db, TransferAccountKind, bank, investment, kind_eq, TransferParty, ExecuteTransferInput,
  ExecuteTransferOutput, completed, insufficient_funds, duplicate, DataSource, execute,
}

pub record JsNumber : Type 1 where
  pub Number : Type 0
  pub is_finite : Number → Bool
  pub at_most_zero : Number → Bool
  pub add : Number → Number → Number
  pub mul : Number → Number → Number
  pub div : Number → Number → Number
  pub round : Number → Number
  pub epsilon : Number
  pub hundred : Number
  -- The cents of the decimal that the database driver is sent.
  pub to_cents : Number → ℕ

pub data AccountType : Type 0 where
  checking savings : AccountType

pub record Account : Type 0 where
  pub id : ℕ
  pub user_id : ℕ
  pub account_type : AccountType

pub record InvestmentAccount : Type 0 where
  pub id : ℕ
  pub user_id : ℕ

pub record AccountReads : Type 0 where
  pub find_by_id : ℕ → Option Account
  pub find_by_iban : Text → Option Account
  pub find_investment : ℕ → Option InvestmentAccount

pub record TransferRequest (N : JsNumber) : Type 0 where
  pub user_id : ℕ
  pub source_type : TransferAccountKind
  pub source_account_id : Option ℕ
  pub destination_account_id : Option ℕ
  pub destination_iban : Option Text
  -- `none` is a value that is not a number.
  pub amount : Option N.Number
  pub description : Option Text
  pub idempotency_key : Option Text

pub data Message : Type 0 where
  invalid_amount missing_source source_not_found investment_not_found : Message
  investment_to_iban destination_not_owned destination_not_found : Message
  only_checking iban_not_found missing_destination same_account : Message
  no_funds duplicate_request : Message

-- The results of the steps of the validation: a value, or the message of the failure.
pub data Checked {ℓ} (A : Type ℓ) : Type ℓ where
  passed : A → Checked A
  refused : Message → Checked A

infixl 5 ◌>>=◌
abbrev pub ◌>>=◌ {ℓ κ} : {A : Type ℓ} {B : Type κ} → Checked A → (A → Checked B) → Checked B
passed a >>= f = f a
refused m >>= f = refused m

pub data TransferResult : Type 0 where
  failure : Message → TransferResult
  success : ExecuteTransferOutput → TransferResult

unfoldable pub round_money : (N : JsNumber) → N.Number → N.Number
round_money N value = N.div (N.round (N.mul (N.add value N.epsilon) N.hundred)) N.hundred

unfoldable pub check_amount : (N : JsNumber) → Option N.Number → Checked N.Number
unfolding round_money
check_amount N none = refused invalid_amount
check_amount N (some x) =
    if not (N.is_finite x) || N.at_most_zero x
    then refused invalid_amount
    else (let amount = round_money N x in
        if N.at_most_zero amount then refused invalid_amount else passed amount)

abbrev pub or_refuse {ℓ} : {A : Type ℓ} → Option A → Message → Checked A
or_refuse none m = refused m
or_refuse (some a) m = passed a

-- The source, with the type of its account where it is a bank account.
pub record Source : Type 0 where
  pub party : TransferParty
  pub account_type : Option AccountType

module _ (A : AccountReads) where
  bank_source : ℕ → ℕ → Checked Source
  bank_source user_id id = do
    account ← or_refuse (A.find_by_id id) source_not_found
    if not (account.user_id == user_id)
        then refused source_not_found
        else passed (record {
          party = record { kind = bank; id = account.id };
          account_type = some account.account_type;
        })

  investment_source : ℕ → ℕ → Option Text → Checked Source
  investment_source user_id id iban = do
    account ← or_refuse (A.find_investment id) investment_not_found
    if not (account.user_id == user_id)
        then refused investment_not_found
        else if is_some iban
        then refused investment_to_iban
        else passed
            (record { party = record { kind = investment; id = account.id }; account_type = none })

  unfoldable pub resolve_source : TransferAccountKind → ℕ → ℕ → Option Text → Checked Source
  unfolding bank_source investment_source
  resolve_source bank user_id id iban = bank_source user_id id
  resolve_source investment user_id id iban = investment_source user_id id iban

  own_investment : ℕ → Option InvestmentAccount → Checked TransferParty
  own_investment user_id none = refused destination_not_found
  own_investment user_id (some account) =
      if account.user_id == user_id
      then passed (record { kind = investment; id = account.id })
      else refused destination_not_found

  own_account : ℕ → ℕ → Option Account → Checked TransferParty
  unfolding own_investment
  own_account user_id id none = own_investment user_id (A.find_investment id)
  own_account user_id id (some account) =
      if account.user_id == user_id
      then passed (record { kind = bank; id = account.id })
      else refused destination_not_owned

  abbrev is_checking : Option AccountType → Bool
  is_checking (some checking) = true
  is_checking _ = false

  external_account : TransferAccountKind → Option AccountType → Text → Checked TransferParty
  external_account source_type account_type iban =
      if not (kind_eq source_type bank)
      then refused investment_to_iban
      else if not (is_checking account_type)
      then refused only_checking
      else (do
        dest ← or_refuse (A.find_by_iban iban) iban_not_found
        passed (record { kind = bank; id = dest.id }))

  unfoldable pub resolve_destination :
      ℕ → TransferAccountKind → Option ℕ → Option Text → Option AccountType → Checked TransferParty
  unfolding own_account external_account
  resolve_destination user_id source_type (some id) iban account_type =
      own_account user_id id (A.find_by_id id)
  resolve_destination user_id source_type none (some iban) account_type =
      external_account source_type account_type iban
  resolve_destination user_id source_type none none account_type = refused missing_destination

  abbrev same_party : TransferParty → TransferParty → Bool
  same_party p q = kind_eq p.kind q.kind && p.id == q.id

  -- `req.description?.trim() || 'Transfer'`
  abbrev describe : Option Text → Text
  describe none = text "Transfer"
  describe (some d) = if is_empty (trim d) then text "Transfer" else trim d

  -- The checks, and the order that they pass to the gateway.
  unfoldable pub validate : (N : JsNumber) → TransferRequest N → Checked ExecuteTransferInput
  validate N req = do
    amount ← check_amount N req.amount
    source_id ← or_refuse req.source_account_id missing_source
    source ← resolve_source req.source_type req.user_id source_id req.destination_iban
    destination ←
        resolve_destination req.user_id req.source_type req.destination_account_id
          req.destination_iban source.account_type
    if same_party source.party destination
        then refused same_account
        else passed (record {
          source = source.party;
          destination = destination;
          amount = N.to_cents amount;
          description = describe req.description;
          idempotency_key = req.idempotency_key;
        })

  abbrev report : Result ExecuteTransferOutput → Result TransferResult
  report (ok insufficient_funds) = ok (failure no_funds)
  report (ok duplicate) = ok (failure duplicate_request)
  report (ok (completed v w tx tx')) = ok (success (completed v w tx tx'))
  report (err e) = err e

  abbrev settle : DataSource → ℕ → ℕ → Checked ExecuteTransferInput → Exec Db TransferResult
  settle ds tx tx' (refused m) db = (ok (failure m), db)
  settle ds tx tx' (passed input) db = let (r, db') = execute ds tx tx' input db in (report r, db')

  -- `InitiateTransferUseCase.execute`
  unfoldable pub initiate :
      (N : JsNumber) → DataSource → ℕ → ℕ → TransferRequest N → Exec Db TransferResult
  unfolding validate
  initiate N ds tx tx' req = settle ds tx tx' (validate N req)

-- ===== src/InitiateTransfer/Authorised.antt =====
-- Whose money a request can move, and where to.
use for_real_bank.Prelude.{
  ℕ, ◌≡◌, refl, ◌⊎◌, inl, inr, Bool, true, false, Option, none, some, [], arith, Option-cases,
}
use for_real_bank.Prelude.Text.{Text}
use mathlib.Core.Path.{subst}
use for_real_bank.Effect.{Result, ok}
use for_real_bank.Transfer.{
  Db, TransferAccountKind, bank, investment, TransferParty, ExecuteTransferInput,
  ExecuteTransferOutput, DataSource, execute,
}
use for_real_bank.Transfer.Steps.{IsKeyedDb}
use for_real_bank.Transfer.Atomic.{execute_all_or_nothing}
use for_real_bank.InitiateTransfer.{
  JsNumber, checking, Account, InvestmentAccount, AccountReads, TransferRequest, Message, Checked,
  passed, refused, TransferResult, success, round_money, check_amount, Source, resolve_source,
  resolve_destination, validate, initiate, or_refuse, same_party, ◌>>=◌, missing_source,
}

-- A check that passes has passed its first step.
>>=-eq-passed {ℓ κ} :
    {A : Type ℓ} {B : Type κ} (m : Checked A) (f : A → Checked B) {b : B}
    → (m >>= f) ≡ passed b
    → (a : A) × (m ≡ passed a) × (f a ≡ passed b)
>>=-eq-passed (passed a) f h = (a, refl, h)
>>=-eq-passed (refused m) f h = cc

Checked-cases {ℓ} :
    {A : Type ℓ} (c : Checked A) → ((m : Message) × (c ≡ refused m)) ⊎ ((a : A) × (c ≡ passed a))
Checked-cases (refused m) = inl (m, refl)
Checked-cases (passed a) = inr (a, refl)

abbrev pub is_success : Result TransferResult → Bool
is_success (ok (success out)) = true
is_success _ = false

-- The amount is a finite number above zero, before and after the rounding to cents.
abbrev pub IsPositive : (N : JsNumber) → Option N.Number → N.Number → Type 0
IsPositive N given amount =
    (x : N.Number) × (given ≡ some x)
    × (N.is_finite x ≡ true)
    × (N.at_most_zero x ≡ false)
    × (amount ≡ round_money N x)
    × (N.at_most_zero amount ≡ false)

check_amount-IsPositive :
    (N : JsNumber) (given : Option N.Number) (amount : N.Number)
    → check_amount N given ≡ passed amount
    → IsPositive N given amount
unfolding check_amount
check_amount-IsPositive N none amount h = cc
check_amount-IsPositive N (some x) amount h =
    (x, refl, ground arith, ground arith, ground arith, ground arith)

module _ (A : AccountReads) where
  -- The source is an account of the user, by the identifier of the request.
  abbrev pub OwnsSource : TransferAccountKind → ℕ → ℕ → Source → Type 0
  OwnsSource bank user_id id s =
      (a : Account) × (A.find_by_id id ≡ some a)
      × (a.user_id ≡ user_id)
      × (s ≡ record {
        party = record { kind = bank; id = a.id };
        account_type = some a.account_type;
      })
  OwnsSource investment user_id id s =
      (a : InvestmentAccount) × (A.find_investment id ≡ some a)
      × (a.user_id ≡ user_id)
      × (s ≡ record { party = record { kind = investment; id = a.id }; account_type = none })

  -- The destination is an account of the user, or the account of an IBAN, and then the source is a
  -- checking account.
  pub data MayReceive (user_id : ℕ) (s : Source) (p : TransferParty) : Type 0 where
    own_bank :
        (id : ℕ) (a : Account)
        → A.find_by_id id ≡ some a
        → a.user_id ≡ user_id
        → p ≡ record { kind = bank; id = a.id }
        → MayReceive user_id s p
    own_investment :
        (id : ℕ) (a : InvestmentAccount)
        → A.find_investment id ≡ some a
        → a.user_id ≡ user_id
        → p ≡ record { kind = investment; id = a.id }
        → MayReceive user_id s p
    external :
        (iban : Text) (a : Account)
        → A.find_by_iban iban ≡ some a
        → s.account_type ≡ some checking
        → p ≡ record { kind = bank; id = a.id }
        → MayReceive user_id s p

  resolve_source-OwnsSource :
      (k : TransferAccountKind) (user_id id : ℕ) (iban : Option Text) (s : Source)
      → resolve_source A k user_id id iban ≡ passed s
      → OwnsSource k user_id id s
  unfolding resolve_source
  resolve_source-OwnsSource bank user_id id iban s h = elim (Option-cases (A.find_by_id id)) [
    | inl unknown ↦ absurd (ground arith)
    | inr (a, found) ↦ (a, found, ground arith, ground arith)
  ]
  resolve_source-OwnsSource investment user_id id iban s h =
      elim (Option-cases (A.find_investment id)) [
        | inl unknown ↦ absurd (ground arith)
        | inr (a, found) ↦ (a, found, ground arith, ground arith)
      ]

  -- A branch of the resolution, by the reads that it makes.
  own_account_cases :
      (user_id id : ℕ) (k : TransferAccountKind) (iban : Option Text) (s : Source)
      (p : TransferParty)
      → resolve_destination A user_id k (some id) iban s.account_type ≡ passed p
      → MayReceive user_id s p
  unfolding resolve_destination
  own_account_cases user_id id k iban s p h = elim (Option-cases (A.find_by_id id)) [
    | inr (a, found) ↦ own_bank id a found (ground arith) (ground arith)
    | inl other ↦ elim (Option-cases (A.find_investment id)) [
      | inr (b, found) ↦ own_investment id b found (ground arith) (ground arith)
      | inl unknown ↦ absurd (ground arith)
    ]
  ]

  external_cases :
      (user_id : ℕ) (k : TransferAccountKind) (iban : Text) (s : Source) (p : TransferParty)
      → resolve_destination A user_id k none (some iban) s.account_type ≡ passed p
      → MayReceive user_id s p
  unfolding resolve_destination
  external_cases user_id k iban s p h = elim (Option-cases (A.find_by_iban iban)) [
    | inl unknown ↦ absurd (ground arith)
    | inr (a, found) ↦ external iban a found (ground arith) (ground arith)
  ]

  resolve_destination-MayReceive :
      (user_id : ℕ) (k : TransferAccountKind) (id : Option ℕ) (iban : Option Text) (s : Source)
      (p : TransferParty)
      → resolve_destination A user_id k id iban s.account_type ≡ passed p
      → MayReceive user_id s p
  resolve_destination-MayReceive user_id k (some id) iban s p h =
      own_account_cases user_id id k iban s p h
  resolve_destination-MayReceive user_id k none (some iban) s p h =
      external_cases user_id k iban s p h
  resolve_destination-MayReceive user_id k none none s p h =
      absurd (unfold resolve_destination in ground arith)

  module _ (N : JsNumber) (req : TransferRequest N) where
    -- What the gateway is asked to do for a request.
    pub record IsAuthorised (i : ExecuteTransferInput) : Type 0 where
      pub source_id : ℕ
      pub source : Source
      pub amount : N.Number
      pub positive : IsPositive N req.amount amount
      pub cents : i.amount ≡ N.to_cents amount
      pub owned : OwnsSource req.source_type req.user_id source_id source
      pub source_party : i.source ≡ source.party
      pub receives : MayReceive req.user_id source i.destination
      pub distinct : same_party A i.source i.destination ≡ false

    validate-IsAuthorised :
        (i : ExecuteTransferInput) → validate A N req ≡ passed i → IsAuthorised i
    unfolding validate
    validate-IsAuthorised i h =
        let (amount, positive, h1) = >>=-eq-passed (check_amount N req.amount) _ h in
        let (id, given, h2) = >>=-eq-passed (or_refuse req.source_account_id missing_source) _ h1 in
        let (s, from, h3) =
          >>=-eq-passed (resolve_source A req.source_type req.user_id id req.destination_iban) _
            h2 in
        let (p, to, h4) =
          >>=-eq-passed
            (resolve_destination A req.user_id req.source_type req.destination_account_id
              req.destination_iban s.account_type)
            _ h3 in
        let receives =
          resolve_destination-MayReceive req.user_id req.source_type req.destination_account_id
            req.destination_iban s p to in
        let same : p ≡ i.destination = ground arith in
        record {
          source_id = id;
          source = s;
          amount = amount;
          positive = check_amount-IsPositive N req.amount amount positive;
          cents = ground arith;
          owned =
              resolve_source-OwnsSource req.source_type req.user_id id req.destination_iban s from;
          source_party = ground arith;
          receives = subst (λ d. MayReceive req.user_id s d) same receives;
          distinct = ground arith;
        }

    -- A transfer that succeeds was authorised: its amount is a finite number above zero; its source is
    -- an account of the user; its destination is another account, which is the user's own, or the
    -- account of an IBAN, and then the source is a checking account. The gateway has completed it.
    pub success-IsAuthorised :
        (ds : DataSource) (tx tx' : ℕ) (out : ExecuteTransferOutput) (db : Db)
        → (initiate A N ds tx tx' req db).0 ≡ ok (success out)
        → (i : ExecuteTransferInput) × IsAuthorised i
          × ((execute ds tx tx' i db).0 ≡ ok out)
          × ((initiate A N ds tx tx' req db).1 ≡ (execute ds tx tx' i db).1)
    unfolding initiate
    success-IsAuthorised ds tx tx' out db h = elim (Checked-cases (validate A N req)) [
      | inl (m, e) ↦ absurd (ground arith)
      | inr (i, e) ↦ (i, validate-IsAuthorised i e, ground arith, ground arith)
    ]

    -- On tables whose identifiers are unique, with no row locked, a transfer that is refused or
    -- that throws changes no table, whether a check, the funds, the key or an error stopped it.
    pub failure_changes_nothing :
        (ds : DataSource) (tx tx' : ℕ) (db : Db)
        → IsKeyedDb db
        → db.locked ≡ []
        → is_success (initiate A N ds tx tx' req db).0 ≡ false
        → (initiate A N ds tx tx' req db).1 ≡ db
    unfolding initiate
    failure_changes_nothing ds tx tx' db keyed unlocked h =
        elim (Checked-cases (validate A N req)) [
          | inl (m, e) ↦ ground arith
          | inr (i, e) ↦ rw e (execute_all_or_nothing ds tx tx' i db keyed unlocked (ground arith))
        ]

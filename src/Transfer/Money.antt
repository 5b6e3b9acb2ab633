-- ===== src/Transfer/Money.antt =====
-- The sum of all balances, and their signs, under the debit and the credit of `move`.
use for_real_bank.Prelude.{
  ℕ, ◌≡◌, refl, Bool, true, some, arith, ◌∙◌, ◌⊎◌, inl, inr, Option, none, if◌then◌else◌,
  Bool-cases, Option-cases,
}
use for_real_bank.Prelude.Int.{ℤ, pos, ◌+ℤ◌, ◌-ℤ◌, ◌≤ℤ◌, leb_ℤ, int_laws}
use for_real_bank.Transfer.Rows.{
  IsSolvent, total, total-update, update-IsSolvent, update-IsKeyed, IsKeyed, update-none,
  balance_of-update, update-refused,
}
use for_real_bank.Transfer.{
  Db, TransferAccountKind, bank, investment, ExecuteTransferInput, insert_movement, Movement,
  outgoing, incoming, Table, TransferParty, balance_of, update_where,
}
use for_real_bank.Transfer.Steps.{
  IsKeyedDb, balance_at, debited, credited, after_debit, after_credit, with_locks, movement,
  after_debit-IsKeyed,
}

-- All the money of the bank, in cents.
abbrev pub total_money : Db → ℤ
total_money db = total db.accounts +ℤ total db.investment_accounts

pub record IsSolventDb (db : Db) : Type 0 where
  pub accounts : IsSolvent db.accounts
  pub investment_accounts : IsSolvent db.investment_accounts

-- What the debit takes from a balance, and what the credit adds to it.
abbrev pub taken_of : ℕ → Option ℤ → ℕ
taken_of a none = 0
taken_of a (some v) = if leb_ℤ (pos a) v then a else 0

abbrev pub given_of : ℕ → Option ℤ → ℕ
given_of a none = 0
given_of a (some v) = a

Kind-cases : (k : TransferAccountKind) → (k ≡ bank) ⊎ (k ≡ investment)
Kind-cases bank = inl refl
Kind-cases investment = inr refl

module _ (a : ℕ) where
  abbrev covers : ℤ → Bool
  covers v = leb_ℤ (pos a) v

  abbrev minus : ℤ → ℤ
  minus v = v -ℤ pos a

  abbrev plus : ℤ → ℤ
  plus v = v +ℤ pos a

  table_debited :
      (id : ℕ) (t : Table)
      → IsKeyed t
      → total (update_where covers minus id t) +ℤ pos (taken_of a (balance_of id t)) ≡ total t
  table_debited id t h = elim (Option-cases (balance_of id t)) [
    | inl unknown ↦ rw (unknown, update-none covers minus id t unknown) (omega int_laws)
    | inr (v, e) ↦ elim (Bool-cases (covers v)) [
      | inl enough ↦
          let moved = total-update covers minus id v t h e enough in
          rw (e, enough) (grind (int_laws, moved))
      | inr little ↦ rw (update-refused covers minus id v t h e little, e, little) (omega int_laws)
    ]
  ]

  table_credited :
      (id : ℕ) (t : Table)
      → IsKeyed t
      → total (update_where (λ v. true) plus id t) ≡ total t +ℤ pos (given_of a (balance_of id t))
  table_credited id t h = elim (Option-cases (balance_of id t)) [
    | inl unknown ↦ rw (unknown, update-none (λ v. true) plus id t unknown) (omega int_laws)
    | inr (w, e) ↦
        let moved = total-update (λ v. true) plus id w t h e refl in rw e (grind (int_laws, moved))
  ]

  -- A debit takes no account away.
  given_debited :
      (id j : ℕ) (t : Table)
      → given_of a (balance_of j (update_where covers minus id t)) ≡ given_of a (balance_of j t)
  given_debited id j t = elim (Option-cases (balance_of j t)) [
    | inl unknown ↦ rw (balance_of-update covers minus id j t, unknown) refl
    | inr (v, e) ↦ rw (balance_of-update covers minus id j t, e) refl
  ]

  debited_total :
      (p : TransferParty) (db : Db)
      → IsKeyedDb db
      → total_money (debited p a db) +ℤ pos (taken_of a (balance_at p db)) ≡ total_money db
  debited_total p db h = elim (Kind-cases p.kind) [
    | inl e ↦
        let moved = table_debited p.id db.accounts h.accounts in rw e (grind (int_laws, moved))
    | inr e ↦
        let moved = table_debited p.id db.investment_accounts h.investment_accounts in
        rw e (grind (int_laws, moved))
  ]

  credited_total :
      (p : TransferParty) (db : Db)
      → IsKeyedDb db
      → total_money (credited p a db) ≡ total_money db +ℤ pos (given_of a (balance_at p db))
  credited_total p db h = elim (Kind-cases p.kind) [
    | inl e ↦
        let moved = table_credited p.id db.accounts h.accounts in rw e (grind (int_laws, moved))
    | inr e ↦
        let moved = table_credited p.id db.investment_accounts h.investment_accounts in
        rw e (grind (int_laws, moved))
  ]

  same_given :
      (p q : TransferParty) (db : Db)
      → given_of a (balance_at q (debited p a db)) ≡ given_of a (balance_at q db)
  same_given p q db = elim (Kind-cases p.kind) [
    | inl e ↦ elim (Kind-cases q.kind) [
      | inl e' ↦ rw (e, e') (given_debited p.id q.id db.accounts)
      | inr e' ↦ rw (e, e') refl
    ]
    | inr e ↦ elim (Kind-cases q.kind) [
      | inl e' ↦ rw (e, e') refl
      | inr e' ↦ rw (e, e') (given_debited p.id q.id db.investment_accounts)
    ]
  ]

  minus_nonneg : (v : ℤ) → covers v ≡ true → pos 0 ≤ℤ v → pos 0 ≤ℤ minus v
  minus_nonneg v c h = grind int_laws

  plus_nonneg : (v : ℤ) → true ≡ true → pos 0 ≤ℤ v → pos 0 ≤ℤ plus v
  plus_nonneg v c h = omega int_laws

  debited-IsSolvent :
      (k : TransferAccountKind) (id : ℕ) (db : Db)
      → IsSolventDb db
      → IsSolventDb (debited (record { kind = k; id = id }) a db)
  debited-IsSolvent bank id db h = record {
    accounts = update-IsSolvent covers minus id minus_nonneg db.accounts h.accounts;
    investment_accounts = h.investment_accounts;
  }
  debited-IsSolvent investment id db h = record {
    accounts = h.accounts;
    investment_accounts =
        update-IsSolvent covers minus id minus_nonneg db.investment_accounts h.investment_accounts;
  }

  credited-IsSolvent :
      (k : TransferAccountKind) (id : ℕ) (db : Db)
      → IsSolventDb db
      → IsSolventDb (credited (record { kind = k; id = id }) a db)
  credited-IsSolvent bank id db h = record {
    accounts = update-IsSolvent (λ v. true) plus id plus_nonneg db.accounts h.accounts;
    investment_accounts = h.investment_accounts;
  }
  credited-IsSolvent investment id db h = record {
    accounts = h.accounts;
    investment_accounts =
        update-IsSolvent (λ v. true) plus id plus_nonneg db.investment_accounts
          h.investment_accounts;
  }

  credited-IsKeyed :
      (k : TransferAccountKind) (id : ℕ) (db : Db)
      → IsKeyedDb db
      → IsKeyedDb (credited (record { kind = k; id = id }) a db)
  credited-IsKeyed bank id db h = record {
    accounts = update-IsKeyed (λ v. true) plus id db.accounts h.accounts;
    investment_accounts = h.investment_accounts;
  }
  credited-IsKeyed investment id db h = record {
    accounts = h.accounts;
    investment_accounts =
        update-IsKeyed (λ v. true) plus id db.investment_accounts h.investment_accounts;
  }

-- The later state has lost `taken` and gained `given`, and keeps the keys and the signs.
pub record Moves (taken given : ℕ) (db db' : Db) : Type 0 where
  pub money : total_money db' +ℤ pos taken ≡ total_money db +ℤ pos given
  pub keyed : IsKeyedDb db'
  pub solvent : IsSolventDb db → IsSolventDb db'

total-insert :
    (k : TransferAccountKind) (m : Movement) (db : Db)
    → total_money (insert_movement k m db) ≡ total_money db
total-insert bank m db = refl
total-insert investment m db = refl

insert-IsKeyed :
    (k : TransferAccountKind) (m : Movement) (db : Db)
    → IsKeyedDb db
    → IsKeyedDb (insert_movement k m db)
insert-IsKeyed bank m db h = record {
  accounts = h.accounts;
  investment_accounts = h.investment_accounts;
}
insert-IsKeyed investment m db h = record {
  accounts = h.accounts;
  investment_accounts = h.investment_accounts;
}

insert-IsSolvent :
    (k : TransferAccountKind) (m : Movement) (db : Db)
    → IsSolventDb db
    → IsSolventDb (insert_movement k m db)
insert-IsSolvent bank m db h = record {
  accounts = h.accounts;
  investment_accounts = h.investment_accounts;
}
insert-IsSolvent investment m db h = record {
  accounts = h.accounts;
  investment_accounts = h.investment_accounts;
}

same_insert_given :
    (a : ℕ) (k : TransferAccountKind) (m : Movement) (q : TransferParty) (db : Db)
    → given_of a (balance_at q (insert_movement k m db)) ≡ given_of a (balance_at q db)
same_insert_given a bank m q db = ground arith
same_insert_given a investment m q db = ground arith

-- A movement takes what the source covers, and gives to a destination that exists.
pub paid-Moves :
    (source_tx destination_tx : ℕ) (i : ExecuteTransferInput) (db : Db)
    → IsKeyedDb db
    → Moves
        (taken_of i.amount (balance_at i.source db))
        (given_of i.amount (balance_at i.destination db))
        db
        (after_credit destination_tx i (after_debit source_tx i db))
paid-Moves source_tx destination_tx i db keyed =
    let a = i.amount in
    let d0 = with_locks i.source i.destination db in
    let keyed0 : IsKeyedDb d0 = record {
      accounts = keyed.accounts;
      investment_accounts = keyed.investment_accounts;
    } in
    let d1 = debited i.source a d0 in
    let out = movement source_tx i.source outgoing a i.description in
    let d2 = after_debit source_tx i db in
    let keyed2 = after_debit-IsKeyed source_tx i db keyed in
    let d3 = credited i.destination a d2 in
    let in' = movement destination_tx i.destination incoming a i.description in
    let given : given_of a (balance_at i.destination d2)
        ≡ given_of a (balance_at i.destination db) =
      same_insert_given a i.source.kind out i.destination d1
      ∙ (same_given a i.source i.destination d0 ∙ ground arith) in
    let taken : taken_of a (balance_at i.source d0) ≡ taken_of a (balance_at i.source db) =
      ground arith in
    record {
      money = grind (
        int_laws,
        total-insert i.destination.kind in' d3,
        credited_total a i.destination d2 keyed2,
        given,
        taken,
        total-insert i.source.kind out d1,
        debited_total a i.source d0 keyed0,
      );
      keyed =
          insert-IsKeyed i.destination.kind in' d3
            (credited-IsKeyed a i.destination.kind i.destination.id d2 keyed2);
      solvent = λ h. insert-IsSolvent i.destination.kind in' d3 (
          credited-IsSolvent a i.destination.kind i.destination.id d2 (
            insert-IsSolvent i.source.kind out d1 (
              debited-IsSolvent a i.source.kind i.source.id d0
                (record { accounts = h.accounts; investment_accounts = h.investment_accounts }))));
    }

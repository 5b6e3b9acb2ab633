-- ===== src/Transfer/Balances.antt =====
-- The balances after a completed transfer, and the order of the row locks.
use for_real_bank.Prelude.Text.{Text}
use for_real_bank.Prelude.{
  ℕ, ◌≡◌, refl, ap, ◌∙◌, Bool, true, false, ◌&&◌, Option, none, some, arith, ◌==◌, if◌then◌else◌,
}
use for_real_bank.Prelude.Int.{ℤ, pos, ◌+ℤ◌, ◌-ℤ◌, ◌≤ℤ◌, leb_ℤ}
use for_real_bank.Effect.{Result, ok}
use for_real_bank.Transfer.Rows.{balance_of-update}
use for_real_bank.Transfer.{
  Db, TransferAccountKind, bank, investment, TransferParty, ExecuteTransferInput,
  ExecuteTransferOutput, completed, nan, DataSource, execute, kind_eq, numeric_ok, release,
  lock_order, Movement, insert_movement, outgoing, incoming,
}
use for_real_bank.Transfer.Steps.{
  IsKeyedDb, balance_at, debited, credited, after_debit, after_credit, with_locks, movement,
  after_debit-IsKeyed, has_room_lem,
}
use for_real_bank.Transfer.Outcomes.{move_completes}
use for_real_bank.Transfer.Atomic.{
  is_known, with_key, with_key-IsKeyed, body_fresh, execute_commits,
}

abbrev pub party_eq : TransferParty → TransferParty → Bool
party_eq p q = kind_eq p.kind q.kind && p.id == q.id

balance_at-debited :
    (p q : TransferParty) (a : ℕ) (v : ℤ) (db : Db)
    → balance_at p db ≡ some v
    → pos a ≤ℤ v
    → balance_at q (debited p a db) ≡ (if party_eq q p then some (v -ℤ pos a) else balance_at q db)
balance_at-debited p q a v db h c =
    let test = λ (w : ℤ). leb_ℤ (pos a) w in
    let f = λ (w : ℤ). w -ℤ pos a in
    ground (
      arith,
      balance_of-update test f p.id q.id db.accounts,
      balance_of-update test f p.id q.id db.investment_accounts,
    )

balance_at-credited :
    (p q : TransferParty) (a : ℕ) (w : ℤ) (db : Db)
    → balance_at p db ≡ some w
    → balance_at q (credited p a db) ≡ (if party_eq q p then some (w +ℤ pos a) else balance_at q db)
balance_at-credited p q a w db h =
    let test = λ (w : ℤ). true in
    let f = λ (w : ℤ). w +ℤ pos a in
    ground (
      arith,
      balance_of-update test f p.id q.id db.accounts,
      balance_of-update test f p.id q.id db.investment_accounts,
    )

same_insert :
    (k : TransferAccountKind) (m : Movement) (q : TransferParty) (db : Db)
    → balance_at q (insert_movement k m db) ≡ balance_at q db
same_insert bank m q db = ground arith
same_insert investment m q db = ground arith

pub same_with_key :
    (key : Option Text) (q : TransferParty) (db : Db)
    → balance_at q (with_key key db) ≡ balance_at q db
same_with_key none q db = refl
same_with_key (some key) q db = ground arith

same_with_locks :
    (a b q : TransferParty) (db : Db) → balance_at q (with_locks a b db) ≡ balance_at q db
same_with_locks a b q db = ground arith

pub same_release : (q : TransferParty) (db : Db) → balance_at q (release db) ≡ balance_at q db
same_release q db = ground arith

pub after_debit_balance :
    (tx : ℕ) (i : ExecuteTransferInput) (v : ℤ) (q : TransferParty) (db : Db)
    → balance_at i.source db ≡ some v
    → pos i.amount ≤ℤ v
    → balance_at q (after_debit tx i db)
      ≡ (if party_eq q i.source then some (v -ℤ pos i.amount) else balance_at q db)
after_debit_balance tx i v q db h c =
    let d0 = with_locks i.source i.destination db in
    let m = movement tx i.source outgoing i.amount i.description in
    same_insert i.source.kind m q (debited i.source i.amount d0)
    ∙ (balance_at-debited i.source q i.amount v d0
          (same_with_locks i.source i.destination i.source db ∙ h) c
        ∙ rw (same_with_locks i.source i.destination q db))

-- A transfer with a new key and a destination that has room after the debit.
pub execute_completes :
    (ds : DataSource) (source_tx destination_tx : ℕ) (i : ExecuteTransferInput) (w : ℤ) (db : Db)
    → IsKeyedDb db
    → is_known i.idempotency_key db ≡ false
    → balance_at i.destination (after_debit source_tx i (with_key i.idempotency_key db)) ≡ some w
    → numeric_ok (w +ℤ pos i.amount) ≡ true
    → execute ds source_tx destination_tx i db ≡ (
      ok (completed nan nan source_tx destination_tx),
      release
          (after_credit destination_tx i (after_debit source_tx i (with_key i.idempotency_key db))),
    )
execute_completes ds source_tx destination_tx i w db keyed fresh target room =
    let db0 = with_key i.idempotency_key db in
    let middle = after_debit source_tx i db0 in
    let keyed' =
      after_debit-IsKeyed source_tx i db0 (with_key-IsKeyed i.idempotency_key db keyed) in
    execute_commits ds source_tx destination_tx i db (completed nan nan source_tx destination_tx)
      (after_credit destination_tx i middle)
      (body_fresh ds source_tx destination_tx i db fresh
        ∙ move_completes source_tx destination_tx i db0
            (has_room_lem i.destination i.amount middle keyed' ∙ rw target room))

pub completed_balance :
    (source_tx destination_tx : ℕ) (i : ExecuteTransferInput) (v w : ℤ) (q : TransferParty)
    (db : Db)
    → balance_at i.source db ≡ some v
    → pos i.amount ≤ℤ v
    → balance_at i.destination (after_debit source_tx i (with_key i.idempotency_key db)) ≡ some w
    → balance_at q (
        release
          (after_credit destination_tx i (after_debit source_tx i (with_key i.idempotency_key db))))
      ≡ (if party_eq q i.destination
          then some (w +ℤ pos i.amount)
          else if party_eq q i.source
          then some (v -ℤ pos i.amount)
          else balance_at q db)
completed_balance source_tx destination_tx i v w q db source covered target =
    let db0 = with_key i.idempotency_key db in
    let middle = after_debit source_tx i db0 in
    let m = movement destination_tx i.destination incoming i.amount i.description in
    same_release q (after_credit destination_tx i middle)
    ∙ (same_insert i.destination.kind m q (credited i.destination i.amount middle)
        ∙ (balance_at-credited i.destination q i.amount w middle target
            ∙ rw (
              after_debit_balance source_tx i v q db0
                  (same_with_key i.idempotency_key i.source db ∙ source) covered,
              same_with_key i.idempotency_key q db,
            )))

-- On tables whose identifiers are unique, between two different accounts, with a key that is new,
-- an amount that the source covers and room for it in the destination, the transfer is completed.
-- The source has lost the amount, the destination has gained it, and every other account has the
-- balance that it had; but the two balances that the reply reports are not numbers.
pub execute_moves :
    (ds : DataSource) (source_tx destination_tx : ℕ) (i : ExecuteTransferInput) (v w : ℤ) (db : Db)
    → IsKeyedDb db
    → is_known i.idempotency_key db ≡ false
    → party_eq i.destination i.source ≡ false
    → balance_at i.source db ≡ some v
    → pos i.amount ≤ℤ v
    → balance_at i.destination db ≡ some w
    → numeric_ok (w +ℤ pos i.amount) ≡ true
    → let (r, db') = execute ds source_tx destination_tx i db in
      (r ≡ ok (completed nan nan source_tx destination_tx))
      × ((q : TransferParty)
          → balance_at q db' ≡ (
              if party_eq q i.destination
              then some (w +ℤ pos i.amount)
              else if party_eq q i.source
              then some (v -ℤ pos i.amount)
              else balance_at q db))
execute_moves ds source_tx destination_tx i v w db keyed fresh different source covered target
      room =
    let db0 = with_key i.idempotency_key db in
    let target0 : balance_at i.destination (after_debit source_tx i db0) ≡ some w =
      after_debit_balance source_tx i v i.destination db0
        (same_with_key i.idempotency_key i.source db ∙ source) covered
      ∙ rw different (same_with_key i.idempotency_key i.destination db ∙ target) in
    let done = execute_completes ds source_tx destination_tx i w db keyed fresh target0 room in
    (
      ap (λ x. x.0) done,
      λ q.
          ap (λ (x : Result ExecuteTransferOutput × Db). balance_at q x.1) done
          ∙ completed_balance source_tx destination_tx i v w q db source covered target0,
    )

-- Two transfers between the same two parties lock their rows in the same order, whichever of the two
-- is the source.
pub lock_order_comm : (a b : TransferParty) → lock_order a b ≡ lock_order b a
unfolding lock_order
lock_order_comm a b = ground arith

-- ===== src/Transfer/Refinement.antt =====
-- Where the ledger lacks no money and no destination, the gateway has its balances and its used keys.
use for_real_bank.Prelude.Int.{ℤ, pos, ◌+ℤ◌, ◌-ℤ◌, ◌≤ℤ◌, leb_ℤ}
use for_real_bank.Transfer.Steps.{
  IsKeyedDb, balance_at, after_debit, after_credit, after_debit-IsKeyed, move_lem, has_room_lem,
}
use for_real_bank.Transfer.Atomic.{
  is_known, with_key, with_key-IsKeyed, body_known, body_fresh, execute_commits, execute_rolls_back,
  execute-Moves,
}
use for_real_bank.Transfer.Balances.{
  after_debit_balance, same_with_key, same_release, execute_completes, completed_balance,
}
use for_real_bank.Effect.{err, numeric_overflow}
use for_real_bank.Prelude.{
  ℕ, ◌≡◌, refl, sym, ap, ◌∙◌, inl, inr, false, Option, none, some, List, [], ◌∷◌, arith, Bool-cases,
  Option-cases, any, all, map, true,
}
use for_real_bank.Prelude.Text.{Text, text_eq}
use for_real_bank.Transfer.{
  Db, TransferParty, ExecuteTransferInput, DataSource, release, execute, duplicate, numeric_ok,
  gateway_body,
}
use for_real_bank.Transfer.Ledger.{
  Ledger, is_used, also_used, set_balance, credit_ledger, debit_ledger, transfer, Request,
  run_gateway, run_ledger, IsLedgerOf, is_settled, without_balances,
}

IsLedgerOf-release : (l : Ledger) (db : Db) → IsLedgerOf l db → IsLedgerOf l (release db)
IsLedgerOf-release l db h = record {
  balances = λ q. h.balances q ∙ sym (same_release q db);
  keys = h.keys;
}

used_known :
    (key : Option Text) (l : Ledger) (db : Db)
    → IsLedgerOf l db
    → is_used key l.knows ≡ is_known key db
used_known none l db h = refl
used_known (some key) l db h = h.keys key

also_used_known :
    (key : Option Text) (l : Ledger) (db : Db) (t : Text)
    → IsLedgerOf l db
    → also_used key l.knows t ≡ any (text_eq t) (with_key key db).keys
also_used_known none l db t h = h.keys t
also_used_known (some key) l db t h = rw (h.keys t) refl

same_keys :
    (source_tx destination_tx : ℕ) (i : ExecuteTransferInput) (db : Db)
    → (after_credit destination_tx i (after_debit source_tx i db)).keys ≡ db.keys
same_keys source_tx destination_tx i db = ground arith

module _ (ds : DataSource) (source_tx destination_tx : ℕ) (i : ExecuteTransferInput) (l : Ledger)
    (db : Db) (keyed : IsKeyedDb db) (same : IsLedgerOf l db)
    (settled : is_settled (transfer source_tx destination_tx i l).0 ≡ true) where
  abbrev Refines : Type 0
  Refines =
      let (r, db') = execute ds source_tx destination_tx i db in
      let (r', l') = transfer source_tx destination_tx i l in
      (without_balances r ≡ without_balances r') × IsLedgerOf l' db'

  abbrev opened : Db
  opened = with_key i.idempotency_key db

  module _ (fresh : is_known i.idempotency_key db ≡ false) where
    -- The source has the amount.
    module _ (v : ℤ) (source : balance_at i.source db ≡ some v) (covered : pos i.amount ≤ℤ v) where
      abbrev paid : TransferParty → Option ℤ
      paid = set_balance i.source (v -ℤ pos i.amount) l.balance

      target_balance :
          balance_at i.destination (after_debit source_tx i opened) ≡ paid i.destination
      target_balance =
          after_debit_balance source_tx i v i.destination opened
            (same_with_key i.idempotency_key i.source db ∙ source) covered
          ∙ rw (same_with_key i.idempotency_key i.destination db, same.balances i.destination) refl

      -- The ledger has reached the credit.
      ledger_credits :
          transfer source_tx destination_tx i l
          ≡ credit_ledger source_tx destination_tx i (v -ℤ pos i.amount) (paid i.destination) paid l
      unfolding transfer debit_ledger
      ledger_credits =
          ground (arith, used_known i.idempotency_key l db same, same.balances i.source)

      -- The credit does not fit its column.
      overflow_refines :
          (w : ℤ)
          → balance_at i.destination (after_debit source_tx i opened) ≡ some w
          → numeric_ok (w +ℤ pos i.amount) ≡ false
          → Refines
      unfolding credit_ledger
      overflow_refines w target full =
          let keyed' =
            after_debit-IsKeyed source_tx i opened (with_key-IsKeyed i.idempotency_key db keyed) in
          let room = has_room_lem i.destination i.amount (after_debit source_tx i opened) keyed' in
          let moved = move_lem source_tx destination_tx i opened in
          let body = body_fresh ds source_tx destination_tx i db fresh in
          let failed : (gateway_body source_tx destination_tx i db).0 ≡ err numeric_overflow =
            ap (λ x. x.0) (body ∙ moved) ∙ rw (room, target, full) refl in
          rw
            (
              execute_rolls_back ds source_tx destination_tx i db numeric_overflow failed,
              ledger_credits,
              sym target_balance,
              target,
              full,
            )
            (refl, same)

      covered_refines : Refines
      unfolding credit_ledger
      covered_refines =
          elim (Option-cases (balance_at i.destination (after_debit source_tx i opened))) [
            | inl unknown ↦ ground (arith, settled, ledger_credits, target_balance)
            | inr (w, target) ↦ elim (Bool-cases (numeric_ok (w +ℤ pos i.amount))) [
              | inl room ↦
                  let done =
                    execute_completes ds source_tx destination_tx i w db keyed fresh target room in
                  rw (done, ledger_credits, sym target_balance, target, room)
                    (
                      refl,
                      record {
                        balances = λ q. rw (same.balances q) (
                            sym (
                              completed_balance source_tx destination_tx i v w q db source covered
                                target));
                        keys = λ t.
                            also_used_known i.idempotency_key l db t same
                            ∙ ap (any (text_eq t))
                                (sym (same_keys source_tx destination_tx i opened));
                      },
                    )
              | inr full ↦ overflow_refines w target full
            ]
          ]

    fresh_refines : Refines
    unfolding transfer debit_ledger
    fresh_refines = elim (Option-cases (balance_at i.source db)) [
      | inl unknown ↦
          ground (arith, settled, used_known i.idempotency_key l db same, same.balances i.source)
      | inr (v, source) ↦ elim (Bool-cases (leb_ℤ (pos i.amount) v)) [
        | inl enough ↦ covered_refines v source (ground arith)
        | inr little ↦
            ground (arith, settled, used_known i.idempotency_key l db same, same.balances i.source)
      ]
    ]

  transfer_refines : Refines
  unfolding transfer
  transfer_refines = elim (Bool-cases (is_known i.idempotency_key db)) [
    | inl known ↦
        rw
          (
            execute_commits ds source_tx destination_tx i db duplicate db
                (body_known ds source_tx destination_tx i db known),
            used_known i.idempotency_key l db same,
            known,
          )
          (refl, IsLedgerOf-release l db same)
    | inr fresh ↦ fresh_refines fresh
  ]

-- On tables whose identifiers are unique, any sequence of transfers in which the ledger never lacks
-- the money or the destination gives, one by one, the answers of the ledger but for the balances
-- that they report, and leaves every balance and every used key as the ledger has it.
pub run_gateway_refines :
    (ds : DataSource) (rs : List Request) (l : Ledger) (db : Db)
    → IsKeyedDb db
    → IsLedgerOf l db
    → all is_settled (run_ledger rs l).0 ≡ true
    → (map without_balances (run_gateway ds rs db).0 ≡ map without_balances (run_ledger rs l).0)
      × IsLedgerOf (run_ledger rs l).1 (run_gateway ds rs db).1
unfolding run_gateway run_ledger
run_gateway_refines ds [] l db keyed same settled = (refl, same)
run_gateway_refines ds ((tx, tx', i) ∷ rs) l db keyed same settled =
    let step = transfer_refines ds tx tx' i l db keyed same (ground (arith, settled)) in
    let rest =
      run_gateway_refines ds rs (transfer tx tx' i l).1 (execute ds tx tx' i db).1
        (execute-Moves ds tx tx' i db keyed).keyed step.1 (ground (arith, settled)) in
    (λ k. step.0 k ∷ rest.0 k, rest.1)

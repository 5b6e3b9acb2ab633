-- ===== src/Transfer/Atomic.antt =====
-- `execute`: what a transfer leaves behind, on every branch.
use for_real_bank.Prelude.{
  ℕ, ◌≡◌, refl, Bool, true, false, Option, none, some, ◌∷◌, arith, any, sym, ap, ◌∙◌, ◌⊎◌, inl, inr,
  [], Bool-cases, if◌then◌else◌,
}
use for_real_bank.Prelude.Text.{text_eq_self, Text, text_eq}
use for_real_bank.Effect.{Error, ok, err, Result, numeric_overflow}
use for_real_bank.Transfer.{
  Db, ExecuteTransferInput, ExecuteTransferOutput, duplicate, DataSource, release, catch_signal,
  claim_key, move, gateway_body, execute, completed, nan, TransferParty,
}
use for_real_bank.Transfer.Money.{Moves, paid-Moves, IsSolventDb, taken_of, given_of}
use for_real_bank.Transfer.Steps.{after_debit, after_credit, IsKeyedDb, balance_at}
use for_real_bank.Transfer.Outcomes.{big, paid, move_cases}

-- Whether a key was used before; no key never was.
abbrev pub is_known : Option Text → Db → Bool
is_known none db = false
is_known (some key) db = any (text_eq key) db.keys

abbrev pub with_key : Option Text → Db → Db
with_key none db = db
with_key (some key) db = record db { keys = key ∷ db.keys }

claim_known :
    (key : Option Text) (db : Db) → is_known key db ≡ true → claim_key key db ≡ (ok false, db)
unfolding claim_key
claim_known none db h = cc
claim_known (some key) db h = ground arith

claim_fresh :
    (key : Option Text) (db : Db)
    → is_known key db ≡ false
    → claim_key key db ≡ (ok true, with_key key db)
unfolding claim_key
claim_fresh none db h = refl
claim_fresh (some key) db h = ground arith

pub with_key-IsKeyed : (key : Option Text) (db : Db) → IsKeyedDb db → IsKeyedDb (with_key key db)
with_key-IsKeyed none db h = h
with_key-IsKeyed (some key) db h = record {
  accounts = h.accounts;
  investment_accounts = h.investment_accounts;
}

module _ (ds : DataSource) (source_tx destination_tx : ℕ) (i : ExecuteTransferInput) (db : Db) where
  pub body_known :
      is_known i.idempotency_key db ≡ true
      → gateway_body source_tx destination_tx i db ≡ (ok duplicate, db)
  unfolding gateway_body
  body_known h = ground (arith, claim_known i.idempotency_key db h)

  pub body_fresh :
      is_known i.idempotency_key db ≡ false
      → gateway_body source_tx destination_tx i db
        ≡ move source_tx destination_tx i (with_key i.idempotency_key db)
  unfolding gateway_body
  body_fresh h = ground (arith, claim_fresh i.idempotency_key db h)

  pub execute_commits :
      (out : ExecuteTransferOutput) (db' : Db)
      → gateway_body source_tx destination_tx i db ≡ (ok out, db')
      → execute ds source_tx destination_tx i db ≡ (ok out, release db')
  unfolding execute
  execute_commits out db' e =
      ground (arith, ds.commits (gateway_body source_tx destination_tx i) out db db' e)

  pub execute_rolls_back :
      (e : Error)
      → (gateway_body source_tx destination_tx i db).0 ≡ err e
      → execute ds source_tx destination_tx i db ≡ (catch_signal (err e), db)
  unfolding execute
  execute_rolls_back e h =
      let body = gateway_body source_tx destination_tx i in
      ground (arith, ds.rolls_back body e db (body db).1 (λ k. (h k, (body db).1)))

with_key-Moves :
    (taken given : ℕ) (key : Option Text) (db db' : Db)
    → Moves taken given (with_key key db) db'
    → Moves taken given db (release db')
with_key-Moves taken given none db db' h = record {
  money = h.money;
  keyed = record { accounts = h.keyed.accounts; investment_accounts = h.keyed.investment_accounts };
  solvent = λ s. record {
    accounts = (h.solvent s).accounts;
    investment_accounts = (h.solvent s).investment_accounts;
  };
}
with_key-Moves taken given (some key) db db' h =
    let solvent = λ (s : IsSolventDb db).
      h.solvent (record { accounts = s.accounts; investment_accounts = s.investment_accounts }) in
    record {
      money = h.money;
      keyed = record {
        accounts = h.keyed.accounts;
        investment_accounts = h.keyed.investment_accounts;
      };
      solvent = λ s. record {
        accounts = (solvent s).accounts;
        investment_accounts = (solvent s).investment_accounts;
      };
    }

with_key-taken :
    (a : ℕ) (key : Option Text) (p : TransferParty) (db : Db)
    → taken_of a (balance_at p (with_key key db)) ≡ taken_of a (balance_at p db)
with_key-taken a none p db = refl
with_key-taken a (some key) p db = ground arith

with_key-given :
    (a : ℕ) (key : Option Text) (p : TransferParty) (db : Db)
    → given_of a (balance_at p (with_key key db)) ≡ given_of a (balance_at p db)
with_key-given a none p db = refl
with_key-given a (some key) p db = ground arith

Moves-self : (db : Db) → IsKeyedDb db → Moves 0 0 db db
Moves-self db keyed = record { money = refl; keyed = keyed; solvent = λ s. s }

Moves-release : (db : Db) → IsKeyedDb db → Moves 0 0 db (release db)
Moves-release db keyed = with_key-Moves 0 0 none db db (Moves-self db keyed)

release_unlocked : (db : Db) → db.locked ≡ [] → release db ≡ db
release_unlocked db unlocked = λ k. record db { locked = sym unlocked k }

abbrev pub is_completed : Result ExecuteTransferOutput → Bool
is_completed (ok (completed _ _ _ _)) = true
is_completed _ = false

module _ (ds : DataSource) (source_tx destination_tx : ℕ) (i : ExecuteTransferInput) (db : Db)
    (keyed : IsKeyedDb db) where
  abbrev run : Result ExecuteTransferOutput × Db
  run = execute ds source_tx destination_tx i db

  abbrev taken : ℕ
  taken = taken_of i.amount (balance_at i.source db)

  abbrev given : ℕ
  given = given_of i.amount (balance_at i.destination db)

  -- How a fresh transfer ends, seen from `execute`.
  fresh_cases :
      is_known i.idempotency_key db ≡ false
      → ((is_completed run.0 ≡ false) × (run.1 ≡ db))
        ⊎ ((db' : Db) × (is_completed run.0 ≡ true)
            × (run.1 ≡ release db')
            × Moves taken given (with_key i.idempotency_key db) db'
            × (db'.keys ≡ (with_key i.idempotency_key db).keys))
  fresh_cases fresh =
      let db0 = with_key i.idempotency_key db in
      let keyed0 = with_key-IsKeyed i.idempotency_key db keyed in
      let body = body_fresh ds source_tx destination_tx i db fresh in
      let undo = execute_rolls_back ds source_tx destination_tx i db in
      elim (move_cases source_tx destination_tx i db0) [
        | big e ↦ inl (ground (arith, undo numeric_overflow (cc (body, e))))
        | paid e ↦
            let after = after_credit destination_tx i (after_debit source_tx i db0) in
            let done =
              execute_commits ds source_tx destination_tx i db
                (completed nan nan source_tx destination_tx) after (body ∙ e) in
            inr (
              after,
              ap (λ x. is_completed x.0) done,
              ap (λ x. x.1) done,
              rw
                  (
                    sym (with_key-taken i.amount i.idempotency_key i.source db),
                    sym (with_key-given i.amount i.idempotency_key i.destination db),
                  )
                  (paid-Moves source_tx destination_tx i db0 keyed0),
              ground arith,
            )
      ]

  pub execute-Moves :
      Moves
        (if is_completed run.0 then taken_of i.amount (balance_at i.source db) else 0)
        (if is_completed run.0 then given_of i.amount (balance_at i.destination db) else 0)
        db
        run.1
  execute-Moves = elim (Bool-cases (is_known i.idempotency_key db)) [
    | inl known ↦
        rw
          (execute_commits ds source_tx destination_tx i db duplicate db
            (body_known ds source_tx destination_tx i db known))
          (Moves-release db keyed)
    | inr fresh ↦ elim (fresh_cases fresh) [
      | inl (failed, same) ↦ rw (failed, same) (Moves-self db keyed)
      | inr (db', done, after, h, _) ↦
          rw (done, after) (with_key-Moves taken given i.idempotency_key db db' h)
    ]
  ]

  -- On tables whose identifiers are unique, with no row locked, a transfer that is not completed
  -- (a repeated key, or a balance that does not fit its column) leaves every table as it was: the
  -- debit, the movement and the idempotency key are undone.
  pub execute_all_or_nothing : db.locked ≡ [] → is_completed run.0 ≡ false → run.1 ≡ db
  execute_all_or_nothing unlocked failed = elim (Bool-cases (is_known i.idempotency_key db)) [
    | inl known ↦
        ap (λ x. x.1)
          (execute_commits ds source_tx destination_tx i db duplicate db
            (body_known ds source_tx destination_tx i db known))
        ∙ release_unlocked db unlocked
    | inr fresh ↦ elim (fresh_cases fresh) [ inl (_, same) ↦ same | inr (db', done, _, _, _) ↦ cc ]
  ]

  -- On tables whose identifiers are unique, a second request with the idempotency key of a
  -- completed transfer, whatever else it asks for, is a duplicate, and changes nothing.
  pub execute_replay :
      (key : Text)
      → i.idempotency_key ≡ some key
      → is_completed run.0 ≡ true
      → (tx tx' : ℕ) (j : ExecuteTransferInput) → j.idempotency_key ≡ some key
      → execute ds tx tx' j run.1 ≡ (ok duplicate, run.1)
  execute_replay key has_key done tx tx' j same_key =
      elim (Bool-cases (is_known i.idempotency_key db)) [
        | inl known ↦ cc (
            execute_commits ds source_tx destination_tx i db duplicate db
              (body_known ds source_tx destination_tx i db known))
        | inr fresh ↦ elim (fresh_cases fresh) [
          | inl (failed, _) ↦ cc
          | inr (db', _, after, _, keys) ↦
              execute_commits ds tx tx' j run.1 duplicate run.1 (
                body_known ds tx tx' j run.1
                  (rw (same_key, after) (ground (arith, text_eq_self key))))
              ∙ cc (after, ap release after)
        ]
      ]

-- ===== src/Trading/Solvent.antt =====
-- No order leaves an account with a negative cash balance or a position with a negative quantity.
use for_real_bank.Effect.{Result-cases, Exec}
use for_real_bank.Prelude.{
  All, ℕ, ◌≡◌, inl, inr, Bool, ◌&&◌, none, some, List, [], ◌∷◌, arith, ◌==◌, Option-cases, All-find,
}
use for_real_bank.Prelude.Int.{pos, ◌≤ℤ◌}
use for_real_bank.Prelude.Text.{Text, trim}
use for_real_bank.Trading.Tables.{
  Double, MarketAsset, InvestmentAccount, Position, Db, OrderRequest, OrderReply, Prices, Fresh,
  Transaction, find_owned, find_position,
}
use for_real_bank.Trading.{
  update_managed_asset, supported, save_order, settle_execution, held_quantity,
  execute_market_order, place_order, create_order, executed, pending, find_proposed, find_asset,
}
use for_real_bank.Trading.Positions.{validate_market_execution}
use for_real_bank.Trading.Numbers.{NumberLaws, IsSolvent}
use for_real_bank.Trading.Settlement.{
  refresh_account_valuation-IsSolvent, save_order-IsSolvent, settled,
}

module _ (N : Double) (L : NumberLaws N) where
  market_order-IsSolvent :
      (prices : Prices N) (fresh : Fresh) (body : OrderRequest N) (a : InvestmentAccount)
      (asset : MarketAsset) (db : Db)
      → L.positive body.quantity
      → L.nonneg (prices.quote asset)
      → pos 0 ≤ℤ a.cash_balance
      → IsSolvent db
      → IsSolvent (execute_market_order N prices fresh body a asset db).1
  unfolding execute_market_order
  market_order-IsSolvent prices fresh body a asset db hq hp ha h =
      let o = find_position a.id asset.id db.positions in
      let price = prices.quote asset in
      let held = λ (p : Position) (e : o ≡ some p).
        All-find (λ (q : Position). pos 0 ≤ℤ q.quantity)
          (λ q. q.account_id == a.id && q.asset_id == asset.id) db.positions p h.held e in
      elim (Result-cases (
        validate_market_execution N body.side body.quantity price (N.of_cents a.cash_balance)
          (held_quantity N o))) [
            | inr (e, refused) ↦ ground arith
            | inl (amount, valid) ↦
                let s1 = settle_execution N fresh body a asset o price amount db in
                let kept1 =
                  settled N L fresh body a asset hq price hp ha o amount db held valid h in
                let s2 =
                  save_order N fresh body a.id asset.id executed (some price) (some fresh.now)
                    s1.1 in
                let kept2 =
                  save_order-IsSolvent N L fresh body a.id asset.id executed (some price)
                    (some fresh.now) s1.1 kept1.0 in
                elim (Result-cases s1.0) [
                  | inr (e, failed) ↦ ground (arith, kept1.0)
                  | inl (cash, paid) ↦
                      let kept3 =
                        refresh_account_valuation-IsSolvent N L prices a cash s2.1
                          (kept1.1 cash paid) kept2 in
                      ground (arith, kept2, kept3)
                ]
          ]

  place_order-IsSolvent :
      (prices : Prices N) (fresh : Fresh) (user_id : ℕ) (body : OrderRequest N)
      (asset : MarketAsset) (db : Db)
      → L.positive body.quantity
      → L.nonneg (prices.quote asset)
      → IsSolvent db
      → IsSolvent (place_order N prices fresh user_id body asset db).1
  unfolding place_order
  place_order-IsSolvent prices fresh user_id body asset db hq hp h =
      elim (Option-cases (find_owned body.account_id user_id db.accounts)) [
        | inl unknown ↦ ground arith
        | inr (a, found) ↦
            let ha =
              All-find (λ (b : InvestmentAccount). pos 0 ≤ℤ b.cash_balance)
                (λ b. b.id == body.account_id && b.user_id == user_id) db.accounts a h.cash found in
            ground (
              arith,
              market_order-IsSolvent prices fresh body a asset db hq hp ha h,
              save_order-IsSolvent N L fresh body a.id asset.id pending none none db h,
            )
      ]

  transaction-IsSolvent :
      (t : Transaction N) (body : Exec Db (OrderReply N)) (db : Db)
      → IsSolvent (body db).1
      → IsSolvent db
      → IsSolvent (t.run body db).1
  transaction-IsSolvent t body db h' h = elim (Result-cases (body db).0) [
    | inl (r, e) ↦ rw (t.commits body r db (body db).1 (λ k. (e k, (body db).1))) h'
    | inr (e, failed) ↦ rw (t.rolls_back body e db (body db).1 (λ k. (failed k, (body db).1))) h
  ]

  create_order-IsSolvent :
      (upper : Text → Text) (t : Transaction N) (prices : Prices N) (fresh : Fresh) (user_id : ℕ)
      (body : OrderRequest N) (db : Db)
      → L.positive body.quantity
      → ((asset : MarketAsset) → L.nonneg (prices.quote asset))
      → IsSolvent db
      → IsSolvent (create_order N upper t prices fresh user_id body db).1
  unfolding create_order
  create_order-IsSolvent upper t prices fresh user_id body db hq hp h =
      elim (Option-cases (supported N (find_proposed (upper (trim body.symbol)) db.assets))) [
        | inl unknown ↦ ground arith
        | inr (asset, found) ↦
            let kept = place_order-IsSolvent prices fresh user_id body asset db hq (hp asset) h in
            ground (
              arith,
              transaction-IsSolvent t (place_order N prices fresh user_id body asset) db kept h,
            )
      ]

-- A request at a time, with the prices of that time.
pub data Event (N : Double) : Type 0 where
  order : Prices N → Fresh → ℕ → OrderRequest N → Event N
  manage : ℕ → Bool → ℕ → ℕ → Event N

module _ (N : Double) (upper : Text → Text) (t : Transaction N) where
  abbrev pub handle : Event N → Db → Db
  handle (order prices fresh user_id body) db =
      (create_order N upper t prices fresh user_id body db).1
  handle (manage id is_tradable director_id now) db =
      (update_managed_asset id is_tradable director_id now db).1

  -- The tables after a sequence of requests.
  unfoldable pub run_events : List (Event N) → Db → Db
  run_events [] db = db
  run_events (e ∷ es) db = run_events es (handle e db)

-- What the validation of the request, and the market, promise of an event.
abbrev pub IsValid : {N : Double} → NumberLaws N → Event N → Type 0
IsValid L (order prices fresh user_id body) =
    L.positive body.quantity × ((asset : MarketAsset) → L.nonneg (prices.quote asset))
IsValid L (manage id is_tradable director_id now) = Unit

update_managed_asset-IsSolvent :
    (id : ℕ) (is_tradable : Bool) (director_id now : ℕ) (db : Db)
    → IsSolvent db
    → IsSolvent (update_managed_asset id is_tradable director_id now db).1
unfolding update_managed_asset
update_managed_asset-IsSolvent id is_tradable director_id now db h =
    elim (Option-cases (find_asset id db.assets)) [
      | inl unknown ↦ ground arith
      | inr (a, found) ↦ ground arith
    ]

handle-IsSolvent :
    (N : Double) (L : NumberLaws N) (upper : Text → Text) (t : Transaction N) (e : Event N)
    (db : Db)
    → IsValid L e
    → IsSolvent db
    → IsSolvent (handle N upper t e db)
handle-IsSolvent N L upper t (order prices fresh user_id body) db valid h =
    create_order-IsSolvent N L upper t prices fresh user_id body db valid.0 valid.1 h
handle-IsSolvent N L upper t (manage id is_tradable director_id now) db valid h =
    update_managed_asset-IsSolvent id is_tradable director_id now db h

-- `NumberLaws` lists what is asked of the numbers and of the columns. After any sequence of orders
-- for positive quantities, at quotes that are not negative, and of changes of what is on offer,
-- whether they succeed or fail, no account has a negative cash balance and no position a negative
-- quantity, if none had before.
pub run_events-IsSolvent :
    (N : Double) (L : NumberLaws N) (upper : Text → Text) (t : Transaction N) (es : List (Event N))
    (db : Db)
    → All (IsValid L) es
    → IsSolvent db
    → IsSolvent (run_events N upper t es db)
unfolding run_events
run_events-IsSolvent N L upper t [] db valid h = h
run_events-IsSolvent N L upper t (e ∷ es) db valid h =
    run_events-IsSolvent N L upper t es (handle N upper t e db) valid.1
      (handle-IsSolvent N L upper t e db valid.0 h)

-- ===== src/Trading/Writes.antt =====
-- What the steps of an execution write where they return.
use for_real_bank.Prelude.{
  ℕ, ◌≡◌, refl, inl, inr, Option, none, some, List, [], ◌∷◌, ◌++◌, arith, ◌==◌, Option-cases, keep,
}
use for_real_bank.Prelude.Int.{ℤ}
use for_real_bank.Effect.{Result-cases, ok}
use for_real_bank.Trading.Tables.{
  Double, Side, buy, sell, MarketAsset, InvestmentAccount, Position, Order, Db, OrderRequest,
  Prices, Fresh, save_account, OrderStatus,
}
use for_real_bank.Trading.Positions.{
  round_money, buy_asset, sell_asset, refresh_account_valuation, price_column, value_positions,
}
use for_real_bank.Trading.Numbers.{Side-cases}
use for_real_bank.Trading.{save_order, settle_execution}

module _ (N : Double) where
  -- The cash balance after an execution.
  abbrev pub new_cash : Side → ℤ → N.Number → N.Number
  new_cash buy balance amount = round_money N (N.sub (N.of_cents balance) amount)
  new_cash sell balance amount = round_money N (N.add (N.of_cents balance) amount)

  abbrev SameBut : Db → Db → Type 0
  SameBut db db' =
      (db'.assets ≡ db.assets) × (db'.accounts ≡ db.accounts) × (db'.orders ≡ db.orders)

  buy_asset-SameBut :
      (fresh : Fresh) (o : Option Position) (account_id asset_id : ℕ) (q price : N.Number) (db : Db)
      → SameBut db (buy_asset N fresh o account_id asset_id q price db).1
  unfolding buy_asset
  buy_asset-SameBut fresh none account_id asset_id q price db = ground arith
  buy_asset-SameBut fresh (some p) account_id asset_id q price db = ground arith

  sell_asset-SameBut : (p : Position) (q : N.Number) (db : Db) → SameBut db (sell_asset N p q db).1
  unfolding sell_asset
  sell_asset-SameBut p q db = ground arith

  pub settle_lem :
      (fresh : Fresh) (body : OrderRequest N) (a : InvestmentAccount) (asset : MarketAsset)
      (o : Option Position) (price amount cash : N.Number) (db : Db)
      → (settle_execution N fresh body a asset o price amount db).0 ≡ ok cash
      → (cash ≡ new_cash body.side a.cash_balance amount)
        × SameBut db (settle_execution N fresh body a asset o price amount db).1
  unfolding settle_execution
  settle_lem fresh body a asset o price amount cash db h = elim (Side-cases body.side) [
    | inl side ↦
        let same = buy_asset-SameBut fresh o a.id asset.id body.quantity price db in
        elim (Result-cases (buy_asset N fresh o a.id asset.id body.quantity price db).0) [
          | inl (u, e) ↦ ground (arith, same)
          | inr (e, failed) ↦ ground arith
        ]
    | inr side ↦ elim (Option-cases o) [
      | inl without ↦ ground arith
      | inr (p, e) ↦
          let same = sell_asset-SameBut p body.quantity db in
          elim (Result-cases (sell_asset N p body.quantity db).0) [
            | inl (u, e') ↦ ground (arith, same)
            | inr (e', failed) ↦ ground arith
          ]
    ]
  ]

  -- The row of an order, with what its columns hold of the numbers.
  pub record IsRowOf (body : OrderRequest N) (account_id asset_id : ℕ) (state : OrderStatus)
      (price : Option N.Number) (o : Order) : Type 0 where
    pub account : o.account_id ≡ account_id
    pub asset : o.asset_id ≡ asset_id
    pub order_type : o.order_type ≡ body.order_type
    pub side : o.side ≡ body.side
    pub status : o.status ≡ state
    pub quantity : N.to_units body.quantity ≡ some o.quantity
    pub executed_price : price_column N price ≡ some o.executed_price

  pub save_order_lem :
      (fresh : Fresh) (body : OrderRequest N) (account_id asset_id : ℕ) (status : OrderStatus)
      (price : Option N.Number) (at : Option ℕ) (db : Db)
      → (save_order N fresh body account_id asset_id status price at db).0 ≡ ok tt
      → let db' = (save_order N fresh body account_id asset_id status price at db).1 in
        ((o : Order) × IsRowOf body account_id asset_id status price o
          × (db'.orders ≡ db.orders ++ o ∷ []))
        × (db'.assets ≡ db.assets)
        × (db'.accounts ≡ db.accounts)
        × (db'.positions ≡ db.positions)
  unfolding save_order
  save_order_lem fresh body account_id asset_id status price at db h =
      elim (Option-cases (N.to_units body.quantity)) [
        | inl refused ↦ ground arith
        | inr (u, e) ↦ elim (Option-cases (price_column N body.price)) [
          | inl refused ↦ ground arith
          | inr (c, e1) ↦ elim (Option-cases (price_column N price)) [
            | inl refused ↦ ground arith
            | inr (d, e2) ↦
                let o : Order = record {
                  id = fresh.order_id;
                  account_id = account_id;
                  asset_id = asset_id;
                  order_type = body.order_type;
                  side = body.side;
                  quantity = u;
                  price = c;
                  status = status;
                  executed_price = d;
                  executed_at = at;
                } in
                rw (e, e1, e2)
                  (
                    (
                      o,
                      record {
                        account = refl;
                        asset = refl;
                        order_type = refl;
                        side = refl;
                        status = refl;
                        quantity = e;
                        executed_price = e2;
                      },
                      refl,
                    ),
                    refl,
                    refl,
                    refl,
                  )
          ]
        ]
      ]

  -- The accounts after the valuation of one of them.
  pub record IsValued (a : InvestmentAccount) (cash : N.Number) (ps : List Position)
      (assets : List MarketAsset) (prices : Prices N) (b : InvestmentAccount) : Type 0 where
    pub value : N.Number
    pub cost : N.Number
    pub totals : value_positions N prices assets ps N.zero N.zero ≡ some (value, cost)
    pub cash_balance : N.to_cents cash ≡ some b.cash_balance
    pub total_value : N.to_cents (round_money N (N.add cash value)) ≡ some b.total_value
    pub total_gain_loss : N.to_cents (round_money N (N.sub value cost)) ≡ some b.total_gain_loss
    pub id : b.id ≡ a.id
    pub user_id : b.user_id ≡ a.user_id
    pub status : b.status ≡ a.status

  pub refresh_lem :
      (prices : Prices N) (a : InvestmentAccount) (cash : N.Number) (db : Db)
      → (refresh_account_valuation N prices a cash db).0 ≡ ok tt
      → let db' = (refresh_account_valuation N prices a cash db).1 in
        (b : InvestmentAccount) × IsValued a cash
          (keep (λ p. p.account_id == a.id) db.positions)
          db.assets
          prices
          b
        × (db' ≡ save_account b db)
  unfolding refresh_account_valuation
  refresh_lem prices a cash db h =
      let ps = keep (λ p. p.account_id == a.id) db.positions in
      elim (Option-cases (value_positions N prices db.assets ps N.zero N.zero)) [
        | inl missing ↦ ground arith
        | inr (t, e) ↦ elim (Option-cases (N.to_cents cash)) [
          | inl refused ↦ ground arith
          | inr (c, e1) ↦ elim (Option-cases (N.to_cents (round_money N (N.add cash t.0)))) [
            | inl refused ↦ ground arith
            | inr (v, e2) ↦ elim (Option-cases (N.to_cents (round_money N (N.sub t.0 t.1)))) [
              | inl refused ↦ ground arith
              | inr (g, e3) ↦
                  let b : InvestmentAccount = record a {
                    cash_balance = c;
                    total_value = v;
                    total_gain_loss = g;
                  } in
                  rw (e, e1, e2, e3)
                    (
                      b,
                      record {
                        value = t.0;
                        cost = t.1;
                        totals = e;
                        cash_balance = e1;
                        total_value = e2;
                        total_gain_loss = e3;
                        id = refl;
                        user_id = refl;
                        status = refl;
                      },
                      refl,
                    )
            ]
          ]
        ]
      ]

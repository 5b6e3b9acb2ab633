-- ===== src/Trading/Settlement.antt =====
-- The purchase, the sale, the valuation and the order row keep the cash balances and the quantities from zero up.
use for_real_bank.Effect.{ok, Result-cases}
use for_real_bank.Prelude.{
  ℕ, ◌≡◌, refl, inl, inr, false, Option, none, some, arith, ◌==◌, Bool-cases, Option-cases, keep,
}
use for_real_bank.Prelude.Int.{pos, ◌≤ℤ◌}
use for_real_bank.Trading.Tables.{
  Double, buy, sell, MarketAsset, InvestmentAccount, Position, Db, OrderRequest, Prices, Fresh,
}
use for_real_bank.Trading.{save_order, settle_execution, held_quantity, OrderStatus, price_column}
use for_real_bank.Trading.Positions.{
  round_money, execution_amount, validate_market_execution, buy_asset, sell_asset,
  refresh_account_valuation, average_price, value_positions,
}
use for_real_bank.Trading.Numbers.{
  NumberLaws, IsSolvent, save_position-IsSolvent, insert_position-IsSolvent,
  remove_position-IsSolvent, save_account-IsSolvent, Side-cases, validate_lem,
}

module _ (N : Double) (L : NumberLaws N) where
  pub round_money-nonneg : (x : N.Number) → L.nonneg x → L.nonneg (round_money N x)
  unfolding round_money
  round_money-nonneg x h = search (
    L.div_nonneg, L.round_nonneg, L.mul_nonneg, L.add_nonneg, L.epsilon_nonneg, L.hundred_positive,
    h,
  )

  execution_amount-nonneg :
      (price q : N.Number) → L.nonneg price → L.positive q → L.nonneg (execution_amount N price q)
  unfolding execution_amount
  execution_amount-nonneg price q hp hq = search (
    L.div_nonneg, L.round_nonneg, L.mul_nonneg, L.add_nonneg, L.epsilon_nonneg, L.hundred_positive,
    hp, hq,
  )

  sell_asset-IsSolvent :
      (p : Position) (q : N.Number) (db : Db)
      → L.positive q
      → N.lt (N.of_units p.quantity) q ≡ false
      → IsSolvent db
      → IsSolvent (sell_asset N p q db).1
  unfolding sell_asset
  sell_asset-IsSolvent p q db hq covered h =
      let left = N.sub (N.of_units p.quantity) q in
      let left_nonneg = L.sub_units_nonneg p.quantity q hq covered in
      elim (Bool-cases (N.at_most left N.epsilon)) [
        | inl gone ↦ rw gone (remove_position-IsSolvent p db h)
        | inr rest ↦ elim (Option-cases (N.to_units left)) [
          | inl refused ↦ rw (rest, refused) h
          | inr (u, e) ↦
              rw (rest, e)
                (save_position-IsSolvent (record p { quantity = u }) db
                  (L.to_units_nonneg left u left_nonneg e) h)
        ]
      ]

  buy_asset-IsSolvent :
      (fresh : Fresh) (o : Option Position) (account_id asset_id : ℕ) (q price : N.Number) (db : Db)
      → L.positive q
      → ((p : Position) → o ≡ some p → pos 0 ≤ℤ p.quantity)
      → IsSolvent db
      → IsSolvent (buy_asset N fresh o account_id asset_id q price db).1
  unfolding buy_asset
  buy_asset-IsSolvent fresh none account_id asset_id q price db hq ho h =
      elim (Option-cases (N.to_units q)) [
        | inl refused ↦ rw refused h
        | inr (u, e) ↦ elim (Option-cases (N.to_cents price)) [
          | inl refused ↦ rw (e, refused) h
          | inr (c, e') ↦
              rw (e, e')
                (insert_position-IsSolvent
                  (record {
                    id = fresh.position_id;
                    account_id = account_id;
                    asset_id = asset_id;
                    quantity = u;
                    avg_purchase_price = c;
                  })
                  db (L.to_units_nonneg q u (L.positive_nonneg q hq) e) h)
        ]
      ]
  buy_asset-IsSolvent fresh (some p) account_id asset_id q price db hq ho h =
      let new = N.add (N.of_units p.quantity) q in
      let new_nonneg =
        L.add_nonneg (N.of_units p.quantity) q (L.of_units_nonneg p.quantity (ho p refl))
          (L.positive_nonneg q hq) in
      elim (Option-cases (N.to_units new)) [
        | inl refused ↦ rw refused h
        | inr (u, e) ↦ elim (Option-cases (N.to_cents (average_price N p q price))) [
          | inl refused ↦ rw (e, refused) h
          | inr (c, e') ↦
              rw (e, e')
                (save_position-IsSolvent (record p { quantity = u; avg_purchase_price = c }) db
                  (L.to_units_nonneg new u new_nonneg e) h)
        ]
      ]

  pub refresh_account_valuation-IsSolvent :
      (prices : Prices N) (a : InvestmentAccount) (cash : N.Number) (db : Db)
      → L.nonneg cash
      → IsSolvent db
      → IsSolvent (refresh_account_valuation N prices a cash db).1
  unfolding refresh_account_valuation
  refresh_account_valuation-IsSolvent prices a cash db hc h =
      let ps = keep (λ p. p.account_id == a.id) db.positions in
      elim (Option-cases (value_positions N prices db.assets ps N.zero N.zero)) [
        | inl missing ↦ rw missing h
        | inr (t, e) ↦ elim (Option-cases (N.to_cents cash)) [
          | inl refused ↦ rw (e, refused) h
          | inr (c, e1) ↦ elim (Option-cases (N.to_cents (round_money N (N.add cash t.0)))) [
            | inl refused ↦ rw (e, e1, refused) h
            | inr (v, e2) ↦ elim (Option-cases (N.to_cents (round_money N (N.sub t.0 t.1)))) [
              | inl refused ↦ rw (e, e1, e2, refused) h
              | inr (g, e3) ↦
                  rw (e, e1, e2, e3)
                    (save_account-IsSolvent
                      (record a { cash_balance = c; total_value = v; total_gain_loss = g }) db
                      (L.to_cents_nonneg cash c hc e1) h)
            ]
          ]
        ]
      ]

  pub save_order-IsSolvent :
      (fresh : Fresh) (body : OrderRequest N) (account_id asset_id : ℕ) (status : OrderStatus)
      (price : Option N.Number) (at : Option ℕ) (db : Db)
      → IsSolvent db
      → IsSolvent (save_order N fresh body account_id asset_id status price at db).1
  unfolding save_order
  save_order-IsSolvent fresh body account_id asset_id status price at db h =
      elim (Option-cases (N.to_units body.quantity)) [
        | inl refused ↦ rw refused h
        | inr (u, e) ↦ elim (Option-cases (price_column N body.price)) [
          | inl refused ↦ rw (e, refused) h
          | inr (c, e1) ↦ elim (Option-cases (price_column N price)) [
            | inl refused ↦ rw (e, e1, refused) h
            | inr (d, e2) ↦ rw (e, e1, e2) (record { cash = h.cash; held = h.held })
          ]
        ]
      ]

  module _ (fresh : Fresh) (body : OrderRequest N) (a : InvestmentAccount) (asset : MarketAsset)
      (quantity_positive : L.positive body.quantity) (price : N.Number)
      (price_nonneg : L.nonneg price) (cash_nonneg : pos 0 ≤ℤ a.cash_balance) where
    abbrev Settled : Option Position → N.Number → Db → Type 0
    Settled o amount db =
        let (r, db') = settle_execution N fresh body a asset o price amount db in
        IsSolvent db' × ((c : N.Number) → r ≡ ok c → L.nonneg c)

    Settled-buy :
        (o : Option Position) (amount : N.Number) (db : Db)
        → ((p : Position) → o ≡ some p → pos 0 ≤ℤ p.quantity)
        → body.side ≡ buy
        → L.nonneg amount
        → N.lt (N.of_cents a.cash_balance) amount ≡ false
        → IsSolvent db
        → Settled o amount db
    unfolding settle_execution
    Settled-buy o amount db ho side ha covered h =
        let rest =
          round_money-nonneg (N.sub (N.of_cents a.cash_balance) amount)
            (L.sub_cents_nonneg a.cash_balance amount ha covered) in
        let kept =
          buy_asset-IsSolvent fresh o a.id asset.id body.quantity price db quantity_positive ho h in
        elim (Result-cases (buy_asset N fresh o a.id asset.id body.quantity price db).0) [
          | inl (u, e) ↦ ground (arith, rest, kept)
          | inr (e, failed) ↦ ground (arith, kept)
        ]

    Settled-sell :
        (o : Option Position) (amount : N.Number) (db : Db)
        → body.side ≡ sell
        → L.nonneg amount
        → N.lt (held_quantity N o) body.quantity ≡ false
        → IsSolvent db
        → Settled o amount db
    unfolding settle_execution held_quantity
    Settled-sell none amount db side ha covered h = ground arith
    Settled-sell (some p) amount db side ha covered h =
        let rest = round_money-nonneg (N.add (N.of_cents a.cash_balance) amount) (
          L.add_nonneg (N.of_cents a.cash_balance) amount
            (L.of_cents_nonneg a.cash_balance cash_nonneg) ha) in
        let enough : N.lt (N.of_units p.quantity) body.quantity ≡ false = ground arith in
        let kept = sell_asset-IsSolvent p body.quantity db quantity_positive enough h in
        elim (Result-cases (sell_asset N p body.quantity db).0) [
          | inl (u, e) ↦ ground (arith, rest, kept)
          | inr (e, failed) ↦ ground (arith, kept)
        ]

    pub settled :
        (o : Option Position) (amount : N.Number) (db : Db)
        → ((p : Position) → o ≡ some p → pos 0 ≤ℤ p.quantity)
        → validate_market_execution N body.side body.quantity price
            (N.of_cents a.cash_balance)
            (held_quantity N o)
          ≡ ok amount
        → IsSolvent db
        → Settled o amount db
    unfolding validate_market_execution
    settled o amount db ho valid h =
        let (exact, covers) =
          validate_lem N body.side body.quantity price (N.of_cents a.cash_balance)
            (held_quantity N o) amount valid in
        let ha : L.nonneg amount =
          rw exact (execution_amount-nonneg price body.quantity price_nonneg quantity_positive) in
        elim (Side-cases body.side) [
          | inl side ↦ Settled-buy o amount db ho side ha (ground (arith, covers)) h
          | inr side ↦ Settled-sell o amount db side ha (ground (arith, covers)) h
        ]

-- ===== src/Trading/Positions.antt =====
-- The policy of market orders, the purchase and the sale of a position, and the valuation of an account:
-- apps/api-nest/src/interface/trading/trading-order.policy.ts and trading.controller.ts.
use for_real_bank.Prelude.{
  ℕ, Bool, true, Option, none, some, List, [], ◌∷◌, ◌==◌, if◌then◌else◌, keep,
}
use for_real_bank.Prelude.Int.{ℤ}
use for_real_bank.Effect.{
  ◌>>=◌, Exec, ok, Result, err, insufficient_cash, insufficient_quantity, modify, or_throw, gets,
  numeric_overflow, missing_relation,
}
use for_real_bank.Trading.Tables.{
  Double, Side, buy, sell, MarketAsset, InvestmentAccount, Position, Db, Prices, Fresh,
  is_supported_asset_type, find_asset, save_account, save_position, insert_position,
  remove_position,
}

module _ (N : Double) where
  unfoldable pub round_money : N.Number → N.Number
  round_money value = N.div (N.round (N.mul (N.add value N.epsilon) N.hundred)) N.hundred

  unfoldable pub execution_amount : N.Number → N.Number → N.Number
  execution_amount price quantity =
      N.div (N.round (N.mul (N.add (N.mul price quantity) N.epsilon) N.hundred)) N.hundred

  -- Side, quantity, execution price, cash balance and held quantity.
  unfoldable pub validate_market_execution :
      Side → N.Number → N.Number → N.Number → N.Number → Result N.Number
  validate_market_execution buy quantity price cash held =
      let amount = execution_amount price quantity in
      if N.lt cash amount then err insufficient_cash else ok amount
  validate_market_execution sell quantity price cash held =
      let amount = execution_amount price quantity in
      if N.lt held quantity then err insufficient_quantity else ok amount

  -- `if (!body.price)`
  unfoldable pub price_missing : Option N.Number → Bool
  price_missing none = true
  price_missing (some x) = N.is_falsy x

  -- A nullable decimal(15, 2); the outer `none` is the refusal of the column.
  unfoldable pub price_column : Option N.Number → Option (Option ℤ)
  price_column none = some none
  price_column (some x) = elim (N.to_cents x) [ none ↦ none | some c ↦ some (some c) ]

  -- An average over a position that exists.
  unfoldable pub average_price : Position → N.Number → N.Number → N.Number
  unfolding round_money
  average_price p quantity price =
      let old = N.of_units p.quantity in
      round_money (
        N.div (N.add (N.mul (N.of_cents p.avg_purchase_price) old) (N.mul price quantity))
          (N.add old quantity))

  unfoldable pub buy_asset :
      Fresh → Option Position → ℕ → ℕ → N.Number → N.Number → Exec Db (Unit {0})
  unfolding average_price
  buy_asset fresh none account_id asset_id quantity price = do
    units ← or_throw (N.to_units quantity) numeric_overflow
    average ← or_throw (N.to_cents price) numeric_overflow
    modify (
        insert_position (record {
          id = fresh.position_id;
          account_id = account_id;
          asset_id = asset_id;
          quantity = units;
          avg_purchase_price = average;
        }))
  buy_asset fresh (some p) account_id asset_id quantity price = do
    units ← or_throw (N.to_units (N.add (N.of_units p.quantity) quantity)) numeric_overflow
    average ← or_throw (N.to_cents (average_price p quantity price)) numeric_overflow
    modify (save_position (record p { quantity = units; avg_purchase_price = average }))

  -- `epsilon` is 0.000000001, here and in the rounding.
  unfoldable pub sell_asset : Position → N.Number → Exec Db (Unit {0})
  sell_asset p quantity =
      let remaining = N.sub (N.of_units p.quantity) quantity in
      if N.at_most remaining N.epsilon then modify (remove_position p) else (do
        units ← or_throw (N.to_units remaining) numeric_overflow
        modify (save_position (record p { quantity = units })))

  unfoldable pub market_price : Prices N → Position → MarketAsset → N.Number
  market_price prices p asset =
      if is_supported_asset_type asset.asset_type
      then prices.display asset
      else N.of_cents p.avg_purchase_price

  -- The value and the cost of the positions; a position without its asset is a type error.
  unfoldable pub value_positions :
      Prices N
      → List MarketAsset
      → List Position
      → N.Number
      → N.Number
      → Option (N.Number × N.Number)
  unfolding market_price
  value_positions prices assets [] value cost = some (value, cost)
  value_positions prices assets (p ∷ ps) value cost = elim (find_asset p.asset_id assets) [
    | none ↦ none
    | some asset ↦
        let quantity = N.of_units p.quantity in
        value_positions prices assets ps
          (N.add value (N.mul quantity (market_price prices p asset)))
          (N.add cost (N.mul quantity (N.of_cents p.avg_purchase_price)))
  ]

  -- The account is the row that was read, with the new cash balance.
  unfoldable pub refresh_account_valuation :
      Prices N → InvestmentAccount → N.Number → Exec Db (Unit {0})
  unfolding value_positions round_money
  refresh_account_valuation prices account cash = do
    positions ← gets (λ db. keep (λ p. p.account_id == account.id) db.positions)
    assets ← gets (λ db. db.assets)
    totals ← or_throw (value_positions prices assets positions N.zero N.zero) missing_relation
    balance ← or_throw (N.to_cents cash) numeric_overflow
    total ← or_throw (N.to_cents (round_money (N.add cash totals.0))) numeric_overflow
    gain ← or_throw (N.to_cents (round_money (N.sub totals.0 totals.1))) numeric_overflow
    modify (
        save_account
          (record account { cash_balance = balance; total_value = total; total_gain_loss = gain }))

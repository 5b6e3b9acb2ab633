-- ===== src/Trading.antt =====
-- apps/api-nest/src/interface/trading/trading.controller.ts: the placing of an order, and the director's
-- choice of the assets that are on offer.
pub mod Tables
pub mod Positions
pub mod Numbers
pub mod Settlement
pub mod Solvent
pub mod Market
pub mod Cached
pub mod Quotes
pub mod Kept
pub mod Writes
pub mod Filled
use for_real_bank.Prelude.{
  ℕ, zero, suc, ◌+◌, ◌-◌, ◌*◌, ◌≤◌, ◌<◌, ◌≡◌, refl, sym, ap, ◌∙◌, ◌≢◌, ◌↔◌, ◌⊎◌, inl, inr, Bool,
  true, false, not, ◌&&◌, ◌||◌, Option, none, some, List, [], ◌∷◌, ◌++◌, map, arith, ltb, leb, ◌==◌,
  if◌then◌else◌, length, Bool-cases, Option-cases, is_some, find, keep,
}
use for_real_bank.Prelude.Int.{ℤ}
use for_real_bank.Prelude.Text.{Text, text_eq, trim}
use for_real_bank.Effect.{
  ◌>>=◌, ◌>>◌, Exec, ok, Result, Error, err, insufficient_cash, insufficient_quantity, modify,
  or_throw, gets, pure, numeric_overflow, missing_relation, from_result,
  investment_account_not_found, asset_not_proposed, throw_if, account_not_active,
  asset_not_tradable, price_required,
}
use for_real_bank.Trading.Tables.{
  Double, Side, buy, sell, OrderType, market, limit, stop, OrderStatus, pending, executed,
  MarketAsset, InvestmentAccount, Position, Order, Db, OrderRequest, OrderReply, registered, filled,
  Prices, Fresh, is_supported_asset_type, is_market, is_active, find_proposed, find_asset,
  find_owned, find_position, save_account, save_position, insert_position, remove_position,
  insert_order, save_asset, Transaction,
}
use for_real_bank.Trading.Positions.{
  round_money, validate_market_execution, price_missing, price_column, buy_asset, sell_asset,
  refresh_account_valuation,
}

module _ (N : Double) where
  unfoldable pub held_quantity : Option Position → N.Number
  held_quantity none = N.zero
  held_quantity (some p) = N.of_units p.quantity

  -- The position and the cash balance after an execution.
  unfoldable pub settle_execution :
      Fresh
      → OrderRequest N
      → InvestmentAccount
      → MarketAsset
      → Option Position
      → N.Number
      → N.Number
      → Exec Db N.Number
  unfolding round_money buy_asset sell_asset
  settle_execution fresh body account asset position price amount = elim body.side [
    | buy ↦ do
      buy_asset N fresh position account.id asset.id body.quantity price
      pure (round_money N (N.sub (N.of_cents account.cash_balance) amount))
    | sell ↦ do
      p ← or_throw position insufficient_quantity
      sell_asset N p body.quantity
      pure (round_money N (N.add (N.of_cents account.cash_balance) amount))
  ]

  -- `manager.save(order)`
  unfoldable pub save_order :
      Fresh → OrderRequest N → ℕ → ℕ → OrderStatus → Option N.Number → Option ℕ → Exec Db (Unit {0})
  unfolding price_column
  save_order fresh body account_id asset_id status executed_price executed_at = do
    units ← or_throw (N.to_units body.quantity) numeric_overflow
    price ← or_throw (price_column N body.price) numeric_overflow
    paid_price ← or_throw (price_column N executed_price) numeric_overflow
    modify (
        insert_order (record {
          id = fresh.order_id;
          account_id = account_id;
          asset_id = asset_id;
          order_type = body.order_type;
          side = body.side;
          quantity = units;
          price = price;
          status = status;
          executed_price = paid_price;
          executed_at = executed_at;
        }))

  unfoldable pub execute_market_order :
      Prices N → Fresh → OrderRequest N → InvestmentAccount → MarketAsset → Exec Db (OrderReply N)
  unfolding validate_market_execution settle_execution save_order refresh_account_valuation
      held_quantity
  execute_market_order prices fresh body account asset = do
    position ← gets (λ db. find_position account.id asset.id db.positions)
    amount ← from_result (
        validate_market_execution N body.side body.quantity (prices.quote asset)
          (N.of_cents account.cash_balance) (held_quantity position))
    cash ← settle_execution fresh body account asset position (prices.quote asset) amount
    save_order fresh body account.id asset.id executed (some (prices.quote asset)) (some fresh.now)
    refresh_account_valuation N prices account cash
    pure (filled fresh.order_id (prices.quote asset) amount cash)

  -- The body of the transaction.
  unfoldable pub place_order :
      Prices N → Fresh → ℕ → OrderRequest N → MarketAsset → Exec Db (OrderReply N)
  unfolding save_order execute_market_order
  place_order prices fresh user_id body asset = do
    found ← gets (λ db. find_owned body.account_id user_id db.accounts)
    account ← or_throw found investment_account_not_found
    throw_if (not (is_active account.status)) account_not_active
    if is_market body.order_type then execute_market_order prices fresh body account asset else (do
      save_order fresh body account.id asset.id pending none none
      pure (registered fresh.order_id))

  abbrev pub supported : Option MarketAsset → Option MarketAsset
  supported none = none
  supported (some a) = if is_supported_asset_type a.asset_type then some a else none

  -- `createOrder`; `upper` is `toUpperCase`.
  unfoldable pub create_order :
      (Text → Text) → Transaction N → Prices N → Fresh → ℕ → OrderRequest N → Exec Db (OrderReply N)
  unfolding place_order price_missing
  create_order upper transaction prices fresh user_id body = do
    found ← gets (λ db. supported (find_proposed (upper (trim body.symbol)) db.assets))
    asset ← or_throw found asset_not_proposed
    throw_if (not asset.is_tradable) asset_not_tradable
    throw_if (not (is_market body.order_type) && price_missing N body.price) price_required
    transaction.run (place_order prices fresh user_id body asset)

-- `updateManagedAsset`, by the director, with the time of the request.
unfoldable pub update_managed_asset : ℕ → Bool → ℕ → ℕ → Exec Db MarketAsset
update_managed_asset id is_tradable director_id now = do
  found ← gets (λ db. find_asset id db.assets)
  asset ← or_throw found asset_not_proposed
  throw_if (not (is_supported_asset_type asset.asset_type)) asset_not_proposed
  let changed = record asset {
    is_tradable = is_tradable;
    proposed_by = if is_tradable then some director_id else none;
    proposed_at = if is_tradable then some now else none;
  }
  modify (save_asset changed)
  pure changed

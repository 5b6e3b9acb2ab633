-- ===== src/Trading/Market.antt =====
-- apps/api-nest/src/interface/trading/market-quotes.ts: the quotes with their cache. The provider's answers and
-- the texts of the dates are parameters; a price of the code is written in cents. The cache of
-- the code is one map whose keys begin with the kind of the value: here each kind has its map. The
-- histories are left out.
use for_real_bank.Prelude.{
  ℕ, ◌+◌, Bool, true, not, ◌||◌, Option, none, some, List, [], ◌∷◌, ◌++◌, leb, if◌then◌else◌, keep,
  find,
}
use for_real_bank.Prelude.Int.{ℤ, pos, negsuc}
use for_real_bank.Prelude.Text.{Text, text, text_eq, is_empty}
use for_real_bank.Effect.{
  Exec, ok, err, pure, modify, or_throw, throw_if, ◌>>=◌, ◌>>◌, provider_error, invalid_quote,
  invalid_rate,
}
use for_real_bank.Trading.Tables.{Double, MarketAsset, crypto}
use for_real_bank.Trading.Positions.{round_money}

pub data QuoteSource : Type 0 where
  twelve_data simulated : QuoteSource

pub record MarketQuote (N : Double) : Type 0 where
  pub price : N.Number
  pub change_percent : N.Number
  pub source : QuoteSource
  pub as_of : Text

-- `TwelveQuoteResponse`, with the numbers that `Number` makes of its texts.
pub record TwelveQuote (N : Double) : Type 0 where
  pub close : N.Number
  pub percent_change : N.Number
  pub currency : Option Text
  pub datetime : Option Text

pub record Entry (V : Type 0) : Type 0 where
  pub key : Text
  pub value : V
  pub expires_at : ℕ

pub record Cache (N : Double) : Type 0 where
  pub quotes : List (Entry (MarketQuote N))
  pub rates : List (Entry N.Number)

module _ {V : Type 0} where
  abbrev pub delete_key : Text → List (Entry V) → List (Entry V)
  delete_key key = keep (λ e. not (text_eq e.key key))

  -- The value of an entry that has not expired.
  abbrev pub live : ℕ → Option (Entry V) → Option V
  live now none = none
  live now (some e) = if leb e.expires_at now then none else some e.value

  -- `getCached`
  unfoldable pub get_cached : ℕ → Text → List (Entry V) → Option V × List (Entry V)
  get_cached now key es =
      let found = live now (find (λ e. text_eq e.key key) es) in
      elim found [ none ↦ (none, delete_key key es) | some v ↦ (some v, es) ]

  -- `setCached`
  abbrev pub set_cached : Text → V → ℕ → List (Entry V) → List (Entry V)
  set_cached key value expires_at es =
      record { key = key; value = value; expires_at = expires_at } ∷ delete_key key es

-- What the provider answers to a request at this time; `none` is an error.
abbrev pub Provider : Double → Type 0
Provider N = Text → Option (TwelveQuote N)

abbrev pub provider_symbol : MarketAsset → Text
provider_symbol asset = elim asset.asset_type [
  | crypto ↦ asset.symbol ++ text "/EUR"
  | _ ↦ asset.symbol
]

-- `FALLBACK_QUOTES`, in cents and in hundredths of a percent.
abbrev fallback_table : List (Text × ℤ × ℤ)
fallback_table =
    (text "AAPL", pos 19842, pos 124)
    ∷ (text "AMZN", pos 21018, pos 76)
    ∷ (text "BTC", pos 5852035, pos 281)
    ∷ (text "ETH", pos 305472, negsuc 62)
    ∷ (text "GOOGL", pos 17631, pos 105)
    ∷ (text "MSFT", pos 42867, negsuc 27)
    ∷ (text "QQQ", pos 47412, pos 44)
    ∷ (text "SOL", pos 13248, pos 416)
    ∷ (text "SPY", pos 54826, pos 32)
    ∷ (text "TSLA", pos 24573, negsuc 191)
    ∷ []

abbrev or_default : Option (Text × ℤ × ℤ) → ℤ × ℤ
or_default none = (pos 10000, pos 0)
or_default (some (symbol, price, change)) = (price, change)

unfoldable pub fallback_numbers : Text → ℤ × ℤ
fallback_numbers symbol = or_default (find (λ row. text_eq row.0 symbol) fallback_table)

module _ (N : Double) where
  -- `value || 0`
  unfoldable pub or_zero : N.Number → N.Number
  or_zero x = if N.is_falsy x then N.zero else x

  abbrev pub truthy : Option N.Number → Option N.Number
  truthy none = none
  truthy (some x) = if N.is_falsy x then none else some x

  -- `!Number.isFinite(x) || x <= 0`
  abbrev pub unusable : N.Number → Bool
  unusable x = not (N.is_finite x) || N.at_most x N.zero

  unfoldable pub ask_rate : Provider N → ℕ → Text → Exec (Cache N) N.Number
  ask_rate provider now pair = do
    response ← or_throw (provider pair) provider_error
    throw_if (unusable response.close) invalid_rate
    modify (λ c. record c { rates = set_cached pair response.close (now + 1800000) c.rates })
    pure response.close

module _ (N : Double) (upper : Text → Text) (iso : ℕ → Text) where
  unfoldable pub fallback_quote : ℕ → Text → MarketQuote N
  fallback_quote now symbol = record {
    price = N.of_cents (fallback_numbers (upper symbol)).0;
    change_percent = N.of_cents (fallback_numbers (upper symbol)).1;
    source = simulated;
    as_of = iso now;
  }

  -- `value || new Date().toISOString()`
  abbrev pub or_now : ℕ → Option Text → Text
  or_now now none = iso now
  or_now now (some []) = iso now
  or_now now (some (c ∷ t)) = c ∷ t

  -- `!currency || currency.toUpperCase() === 'EUR'`
  abbrev pub is_euro : Option Text → Bool
  is_euro none = true
  is_euro (some t) = is_empty t || text_eq (upper t) (text "EUR")

  abbrev pub pair_of : Option Text → Text
  pair_of none = []
  pair_of (some t) = upper t ++ text "/EUR"

  unfoldable pub euro_rate : Provider N → ℕ → Option Text → Exec (Cache N) N.Number
  euro_rate provider now currency c =
      let (cached, rates) = get_cached now (pair_of currency) c.rates in
      if is_euro currency then (ok (N.of_cents (pos 100)), c) else elim (truthy N cached) [
        | some rate ↦ (ok rate, record c { rates = rates })
        | none ↦ ask_rate N provider now (pair_of currency) (record c { rates = rates })
      ]

  -- The `try` block of `getQuote`.
  unfoldable pub ask_quote : Provider N → ℕ → MarketAsset → Exec (Cache N) (MarketQuote N)
  ask_quote provider now asset = do
    response ← or_throw (provider (provider_symbol asset)) provider_error
    throw_if (unusable N response.close) invalid_quote
    rate ← euro_rate provider now response.currency
    let quote : MarketQuote N = record {
      price = round_money N (N.mul response.close rate);
      change_percent = round_money N (or_zero N response.percent_change);
      source = twelve_data;
      as_of = or_now now response.datetime;
    }
    modify (λ c. record c { quotes = set_cached asset.symbol quote (now + 60000) c.quotes })
    pure quote

  -- `getDisplayQuote`
  unfoldable pub get_display_quote : ℕ → MarketAsset → Cache N → MarketQuote N × Cache N
  get_display_quote now asset c =
      let (cached, quotes) = get_cached now asset.symbol c.quotes in
      elim cached [
        | some quote ↦ (quote, record c { quotes = quotes })
        | none ↦ (fallback_quote now asset.symbol, record c { quotes = quotes })
      ]

  -- `getQuote`; `configured` tells whether there is a key of the provider.
  unfoldable pub get_quote : Bool → Provider N → ℕ → MarketAsset → Cache N → MarketQuote N × Cache N
  get_quote configured provider now asset c =
      let (cached, quotes) = get_cached now asset.symbol c.quotes in
      let c' : Cache N = record c { quotes = quotes } in
      let (asked, c'') = ask_quote provider now asset c' in
      elim cached [
        | some quote ↦ (quote, c')
        | none ↦
            (if configured
              then (elim asked [
                | ok quote ↦ (quote, c'')
                | err e ↦ (fallback_quote now asset.symbol, c'')
              ])
              else (fallback_quote now asset.symbol, c'))
      ]

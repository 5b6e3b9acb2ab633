-- ===== src/Trading/Cached.antt =====
-- How the cache of the quotes is read and written, and how each way to a quote ends.
use for_real_bank.Prelude.{
  All, find, ℕ, ◌+◌, ◌≡◌, refl, inl, inr, Bool, true, false, Option, none, some, List, arith,
  Option-cases, All-keep, All-find,
}
use for_real_bank.Prelude.Int.{pos, ◌≤ℤ◌}
use for_real_bank.Prelude.Text.{Text, text_eq}
use for_real_bank.Effect.{provider_error, invalid_quote, ok, err, Error}
use for_real_bank.Trading.Tables.{Double, MarketAsset}
use for_real_bank.Trading.Positions.{round_money}
use for_real_bank.Trading.Market.{
  or_zero, or_now, twelve_data, provider_symbol, MarketQuote, TwelveQuote, Entry, Cache, get_cached,
  set_cached, delete_key, live, Provider, fallback_numbers, fallback_quote, euro_rate, ask_quote,
  get_quote, unusable, provider_symbol,
}

module _ {V : Type 0} (now : ℕ) (key : Text) (es : List (Entry V)) where
  abbrev pub found : Option (Entry V)
  found = find (λ e. text_eq e.key key) es

  pub get_cached_hit : (v : V) → live now found ≡ some v → get_cached now key es ≡ (some v, es)
  unfolding get_cached
  get_cached_hit v h = ground arith

  pub get_cached_miss : live now found ≡ none → get_cached now key es ≡ (none, delete_key key es)
  unfolding get_cached
  get_cached_miss h = ground arith

module _ {V : Type 0} (P : V → Type 0) where
  abbrev pub Holds : List (Entry V) → Type 0
  Holds = All (λ e. P e.value)

  pub live_lem :
      (now : ℕ) (o : Option (Entry V)) (v : V)
      → live now o ≡ some v
      → (e : Entry V) × (o ≡ some e) × (v ≡ e.value)
  live_lem now none v h = ground arith
  live_lem now (some e) v h = (e, refl, ground arith)

  pub get_cached_lem :
      (now : ℕ) (key : Text) (es : List (Entry V))
      → Holds es
      → ((v : V) → (get_cached now key es).0 ≡ some v → P v) × Holds (get_cached now key es).1
  get_cached_lem now key es h = elim (Option-cases (live now (found now key es))) [
    | inl missing ↦ rw (get_cached_miss now key es missing) (λ v e. ground arith, All-keep _ _ es h)
    | inr (v, e) ↦
        let (entry, here, same) = live_lem now (found now key es) v e in
        let p = All-find (λ (e : Entry V). P e.value) (λ e. text_eq e.key key) es entry h here in
        rw (get_cached_hit now key es v e) (λ w e'. ground (arith, p), h)
  ]

  pub set_cached_lem :
      (key : Text) (v : V) (at : ℕ) (es : List (Entry V))
      → P v
      → Holds es
      → Holds (set_cached key v at es)
  set_cached_lem key v at es p h = (p, All-keep _ _ es h)

pub fallback_nonneg : (symbol : Text) → pos 0 ≤ℤ (fallback_numbers symbol).0
unfolding fallback_numbers
fallback_nonneg symbol = ground arith

module _ (N : Double) (upper : Text → Text) (iso : ℕ → Text) (provider : Provider N) (now : ℕ) where
  pub ask_silent :
      (asset : MarketAsset) (c : Cache N)
      → provider (provider_symbol asset) ≡ none
      → ask_quote N upper iso provider now asset c ≡ (err provider_error, c)
  unfolding ask_quote
  ask_silent asset c silent = ground arith

  pub ask_bad :
      (asset : MarketAsset) (r : TwelveQuote N) (c : Cache N)
      → provider (provider_symbol asset) ≡ some r
      → unusable N r.close ≡ true
      → ask_quote N upper iso provider now asset c ≡ (err invalid_quote, c)
  unfolding ask_quote
  ask_bad asset r c answer bad = ground arith

  pub ask_failed :
      (asset : MarketAsset) (r : TwelveQuote N) (e : Error) (c : Cache N)
      → provider (provider_symbol asset) ≡ some r
      → unusable N r.close ≡ false
      → (euro_rate N upper iso provider now r.currency c).0 ≡ err e
      → ask_quote N upper iso provider now asset c
        ≡ (err e, (euro_rate N upper iso provider now r.currency c).1)
  unfolding ask_quote
  ask_failed asset r e c answer good failed = ground arith

  -- The quote that an answer makes at a rate.
  abbrev pub quote_at : TwelveQuote N → N.Number → MarketQuote N
  quote_at r rate = record {
    price = round_money N (N.mul r.close rate);
    change_percent = round_money N (or_zero N r.percent_change);
    source = twelve_data;
    as_of = or_now N upper iso now r.datetime;
  }

  pub ask_done :
      (asset : MarketAsset) (r : TwelveQuote N) (rate : N.Number) (c : Cache N)
      → provider (provider_symbol asset) ≡ some r
      → unusable N r.close ≡ false
      → (euro_rate N upper iso provider now r.currency c).0 ≡ ok rate
      → ask_quote N upper iso provider now asset c ≡ (
          let c' = (euro_rate N upper iso provider now r.currency c).1 in
          (
            ok (quote_at r rate),
            record c' {
              quotes = set_cached asset.symbol (quote_at r rate) (now + 60000) c'.quotes;
            },
          ))
  unfolding ask_quote
  ask_done asset r rate c answer good paid = ground arith

  -- The cache when the expired quote of the asset has been taken out.
  abbrev pub looked : MarketAsset → Cache N → Cache N
  looked asset c = record c { quotes = (get_cached now asset.symbol c.quotes).1 }

  module _ (configured : Bool) (asset : MarketAsset) where
    pub quote_hit :
        (q : MarketQuote N) (c : Cache N)
        → (get_cached now asset.symbol c.quotes).0 ≡ some q
        → get_quote N upper iso configured provider now asset c ≡ (q, looked asset c)
    unfolding get_quote
    quote_hit q c e = ground arith

    pub quote_bare :
        (c : Cache N)
        → (get_cached now asset.symbol c.quotes).0 ≡ none
        → configured ≡ false
        → get_quote N upper iso configured provider now asset c
          ≡ (fallback_quote N upper iso now asset.symbol, looked asset c)
    unfolding get_quote
    quote_bare c e bare = ground arith

    pub quote_failed :
        (e : Error) (c : Cache N)
        → (get_cached now asset.symbol c.quotes).0 ≡ none
        → configured ≡ true
        → (ask_quote N upper iso provider now asset (looked asset c)).0 ≡ err e
        → get_quote N upper iso configured provider now asset c ≡ (
          fallback_quote N upper iso now asset.symbol,
          (ask_quote N upper iso provider now asset (looked asset c)).1,
        )
    unfolding get_quote
    quote_failed e c missing key failed = ground arith

    pub quote_asked :
        (q : MarketQuote N) (c : Cache N)
        → (get_cached now asset.symbol c.quotes).0 ≡ none
        → configured ≡ true
        → (ask_quote N upper iso provider now asset (looked asset c)).0 ≡ ok q
        → get_quote N upper iso configured provider now asset c
          ≡ (q, (ask_quote N upper iso provider now asset (looked asset c)).1)
    unfolding get_quote
    quote_asked q c missing key e = ground arith

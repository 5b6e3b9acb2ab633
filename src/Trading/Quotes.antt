-- ===== src/Trading/Quotes.antt =====
-- The prices that the market data service gives.
use for_real_bank.Prelude.{
  All, ℕ, ◌+◌, ◌≡◌, inl, inr, Bool, false, Option, none, some, arith, Bool-cases, Option-cases,
}
use for_real_bank.Prelude.Text.{Text}
use for_real_bank.Effect.{ok, Result-cases}
use for_real_bank.Trading.Tables.{Double, MarketAsset}
use for_real_bank.Trading.Numbers.{NumberLaws}
use for_real_bank.Trading.Settlement.{round_money-nonneg}
use for_real_bank.Trading.Market.{
  provider_symbol, MarketQuote, Entry, Cache, get_cached, Provider, fallback_numbers,
  fallback_quote, euro_rate, ask_rate, ask_quote, get_quote, pair_of, truthy, unusable, is_euro,
  provider_symbol,
}
use for_real_bank.Trading.Cached.{
  get_cached_lem, set_cached_lem, fallback_nonneg, ask_silent, ask_bad, ask_failed, quote_at,
  ask_done, quote_hit, quote_bare, quote_failed, quote_asked,
}

module _ (N : Double) (L : NumberLaws N) where
  -- No cached price is negative, and every cached rate is a number above zero.
  pub record IsPriced (c : Cache N) : Type 0 where
    pub quotes : All (λ (e : Entry (MarketQuote N)). L.nonneg e.value.price) c.quotes
    pub rates : All (λ (e : Entry N.Number). L.positive e.value) c.rates

  usable_lem : (x : N.Number) → unusable N x ≡ false → L.positive x
  usable_lem x h = L.finite_positive x (ground arith) (ground arith)

  truthy_lem : (o : Option N.Number) (x : N.Number) → truthy N o ≡ some x → o ≡ some x
  truthy_lem none x h = ground arith
  truthy_lem (some y) x h = ground arith

  module _ (upper : Text → Text) (iso : ℕ → Text) (provider : Provider N) (now : ℕ) where
    ask_rate_lem :
        (pair : Text) (c : Cache N)
        → IsPriced c
        → ((x : N.Number) → (ask_rate N provider now pair c).0 ≡ ok x → L.positive x)
          × IsPriced (ask_rate N provider now pair c).1
    unfolding ask_rate
    ask_rate_lem pair c h = elim (Option-cases (provider pair)) [
      | inl silent ↦ rw silent (λ x e. ground arith, h)
      | inr (r, e) ↦ elim (Bool-cases (unusable N r.close)) [
        | inl bad ↦ rw (e, bad) (λ x e'. ground arith, h)
        | inr good ↦
            let p = usable_lem r.close good in
            rw (e, good)
              (
                λ x e'. ground (arith, p),
                record {
                  quotes = h.quotes;
                  rates = set_cached_lem L.positive pair r.close (now + 1800000) c.rates p h.rates;
                },
              )
      ]
    ]

    euro_rate_lem :
        (currency : Option Text) (c : Cache N)
        → IsPriced c
        → ((x : N.Number) → (euro_rate N upper iso provider now currency c).0 ≡ ok x → L.positive x)
          × IsPriced (euro_rate N upper iso provider now currency c).1
    unfolding euro_rate
    euro_rate_lem currency c h =
        let pair = pair_of N upper iso currency in
        let (hit, rest) = get_cached_lem L.positive now pair c.rates h.rates in
        let c' : Cache N = record c { rates = (get_cached now pair c.rates).1 } in
        let asked = ask_rate_lem pair c' (record { quotes = h.quotes; rates = rest }) in
        let one = L.of_cents_positive 100 (omega arith) in
        elim (Bool-cases (is_euro N upper iso currency)) [
          | inl euro ↦ rw euro (λ x e. ground (arith, one), h)
          | inr foreign ↦ elim (Option-cases (truthy N (get_cached now pair c.rates).0)) [
            | inl none_left ↦ rw (foreign, none_left) asked
            | inr (rate, e) ↦
                let p = hit rate (truthy_lem (get_cached now pair c.rates).0 rate e) in
                rw (foreign, e)
                  (λ x e'. ground (arith, p), record { quotes = h.quotes; rates = rest })
          ]
        ]

    ask_quote_lem :
        (asset : MarketAsset) (c : Cache N)
        → IsPriced c
        → ((q : MarketQuote N)
            → (ask_quote N upper iso provider now asset c).0 ≡ ok q
            → L.nonneg q.price)
          × IsPriced (ask_quote N upper iso provider now asset c).1
    ask_quote_lem asset c h = elim (Option-cases (provider (provider_symbol asset))) [
      | inl silent ↦
          rw (ask_silent N upper iso provider now asset c silent) (λ x e. ground arith, h)
      | inr (r, e) ↦ elim (Bool-cases (unusable N r.close)) [
        | inl bad ↦ rw (ask_bad N upper iso provider now asset r c e bad) (λ x e'. ground arith, h)
        | inr good ↦
            let (rated, h') = euro_rate_lem r.currency c h in
            let run = euro_rate N upper iso provider now r.currency c in
            elim (Result-cases run.0) [
              | inr (e', failed) ↦
                  rw (ask_failed N upper iso provider now asset r e' c e good failed)
                    (λ x e'. ground arith, h')
              | inl (rate, paid) ↦
                  let p = round_money-nonneg N L (N.mul r.close rate) (
                    L.mul_nonneg r.close rate (L.positive_nonneg r.close (usable_lem r.close good))
                      (rated rate paid)) in
                  rw (ask_done N upper iso provider now asset r rate c e good paid) (
                    λ q e'. ground (arith, p),
                    record {
                      quotes =
                          set_cached_lem (λ (q : MarketQuote N). L.nonneg q.price) asset.symbol
                            (quote_at N upper iso provider now r rate) (now + 60000) run.1.quotes p
                            h'.quotes;
                      rates = h'.rates;
                    },
                  )
            ]
      ]
    ]

    -- `NumberLaws` lists what is asked of the numbers. Whatever the provider answers, or if it does not,
    -- a quote is never negative, and a cache in which no price is negative and every rate is above
    -- zero stays so.
    pub get_quote-IsPriced :
        (configured : Bool) (asset : MarketAsset) (c : Cache N)
        → IsPriced c
        → L.nonneg (get_quote N upper iso configured provider now asset c).0.price
          × IsPriced (get_quote N upper iso configured provider now asset c).1
    unfolding fallback_quote
    get_quote-IsPriced configured asset c h =
        let (hit, rest) =
          get_cached_lem (λ (q : MarketQuote N). L.nonneg q.price) now asset.symbol c.quotes
            h.quotes in
        let c' : Cache N = record c { quotes = (get_cached now asset.symbol c.quotes).1 } in
        let h' : IsPriced c' = record { quotes = rest; rates = h.rates } in
        let (asked, h'') = ask_quote_lem asset c' h' in
        let fallback =
          L.of_cents_nonneg (fallback_numbers (upper asset.symbol)).0
            (fallback_nonneg (upper asset.symbol)) in
        elim (Option-cases (get_cached now asset.symbol c.quotes).0) [
          | inr (q, e) ↦
              rw (quote_hit N upper iso provider now configured asset q c e) (hit q e, h')
          | inl missing ↦ elim (Bool-cases configured) [
            | inr bare ↦
                rw (quote_bare N upper iso provider now configured asset c missing bare)
                  (fallback, h')
            | inl key ↦ elim (Result-cases (ask_quote N upper iso provider now asset c').0) [
              | inr (e, failed) ↦
                  rw (quote_failed N upper iso provider now configured asset e c missing key failed)
                    (fallback, h'')
              | inl (q, e) ↦
                  rw (quote_asked N upper iso provider now configured asset q c missing key e)
                    (asked q e, h'')
            ]
          ]
        ]

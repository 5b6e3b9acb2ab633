-- ===== src/Trading/Kept.antt =====
-- How long the quotes of the market data service are kept.
use for_real_bank.Prelude.{
  ℕ, ◌+◌, ◌≤◌, ◌<◌, ◌≡◌, refl, ap, ◌∙◌, inl, inr, Bool, true, none, some, List, ◌∷◌, arith,
  Bool-cases, Option-cases,
}
use for_real_bank.Prelude.Text.{Text, text_eq_self}
use for_real_bank.Effect.{ok, Result-cases}
use for_real_bank.Trading.Tables.{Double, MarketAsset}
use for_real_bank.Trading.Market.{
  provider_symbol, MarketQuote, Entry, Cache, get_cached, delete_key, Provider, euro_rate,
  ask_quote, get_display_quote, get_quote, unusable, provider_symbol,
}
use for_real_bank.Trading.Cached.{
  found, get_cached_hit, get_cached_miss, ask_silent, ask_bad, ask_failed, quote_at, ask_done,
  looked, quote_hit, quote_asked,
}

module _ (N : Double) where
  abbrev entry_of : Text → MarketQuote N → ℕ → Entry (MarketQuote N)
  entry_of symbol q now = record { key = symbol; value = q; expires_at = now + 60000 }

  ask_entry :
      (upper : Text → Text) (iso : ℕ → Text) (provider : Provider N) (now : ℕ) (asset : MarketAsset)
      (q : MarketQuote N) (c : Cache N)
      → (ask_quote N upper iso provider now asset c).0 ≡ ok q
      → (es : List (Entry (MarketQuote N))) × ((ask_quote N upper iso provider now asset c).1.quotes
          ≡ entry_of asset.symbol q now ∷ es)
  ask_entry upper iso provider now asset q c h =
      elim (Option-cases (provider (provider_symbol asset))) [
        | inl silent ↦ ground (arith, ask_silent N upper iso provider now asset c silent)
        | inr (r, e) ↦ elim (Bool-cases (unusable N r.close)) [
          | inl bad ↦ ground (arith, ask_bad N upper iso provider now asset r c e bad)
          | inr good ↦
              let run = euro_rate N upper iso provider now r.currency c in
              elim (Result-cases run.0) [
                | inr (e', failed) ↦
                    ground (arith, ask_failed N upper iso provider now asset r e' c e good failed)
                | inl (rate, paid) ↦
                    let done = ask_done N upper iso provider now asset r rate c e good paid in
                    let same : quote_at N upper iso provider now r rate ≡ q =
                      ground (arith, done) in
                    (
                      delete_key asset.symbol run.1.quotes,
                      ap (λ x. x.1.quotes) done
                          ∙ ap
                              (λ v.
                                entry_of asset.symbol v now ∷ delete_key asset.symbol run.1.quotes)
                              same,
                    )
              ]
        ]
      ]

  module _ (asset : MarketAsset) (q : MarketQuote N) (now : ℕ) (c : Cache N)
      (es : List (Entry (MarketQuote N))) (e : c.quotes ≡ entry_of asset.symbol q now ∷ es) where
    found_entry : found now asset.symbol c.quotes ≡ some (entry_of asset.symbol q now)
    found_entry = rw (e, text_eq_self asset.symbol) refl

    kept_lem :
        (later : ℕ)
        → later < now + 60000
        → get_cached later asset.symbol c.quotes ≡ (some q, c.quotes)
    kept_lem later h = get_cached_hit later asset.symbol c.quotes q (rw found_entry (ground arith))

    gone_lem : (later : ℕ) → now + 60000 ≤ later → (get_cached later asset.symbol c.quotes).0 ≡ none
    gone_lem later h =
        ap (λ x. x.0) (get_cached_miss later asset.symbol c.quotes (rw found_entry (ground arith)))

    display_lem :
        (upper : Text → Text) (iso : ℕ → Text) (later : ℕ)
        → later < now + 60000
        → get_display_quote N upper iso later asset c ≡ (q, c)
    unfolding get_display_quote
    display_lem upper iso later h = ground (arith, kept_lem later h)

    quote_lem :
        (upper : Text → Text) (iso : ℕ → Text) (configured : Bool) (provider : Provider N)
        (later : ℕ)
        → later < now + 60000
        → get_quote N upper iso configured provider later asset c ≡ (q, c)
    quote_lem upper iso configured provider later h =
        let kept = kept_lem later h in
        quote_hit N upper iso provider later configured asset q c (ap (λ x. x.0) kept) ∙ λ k.
        (q, record c { quotes = (kept k).1 })

  -- A quote that the provider has given is served again, by both ways to read a quote, for a minute:
  -- whatever the provider answers meanwhile, and with no other change. After the minute it is no
  -- longer in the cache.
  pub get_quote_kept :
      (upper : Text → Text) (iso : ℕ → Text) (provider : Provider N) (now : ℕ) (asset : MarketAsset)
      (q : MarketQuote N) (c : Cache N)
      → (get_cached now asset.symbol c.quotes).0 ≡ none
      → (ask_quote N upper iso provider now asset (looked N upper iso provider now asset c)).0
        ≡ ok q
      → let (q', c') = get_quote N upper iso true provider now asset c in
        (q' ≡ q)
        × ((later : ℕ) (configured : Bool) (provider' : Provider N)
            → later < now + 60000
            → (get_quote N upper iso configured provider' later asset c' ≡ (q, c'))
              × (get_display_quote N upper iso later asset c' ≡ (q, c')))
        × ((later : ℕ) → now + 60000 ≤ later → (get_cached later asset.symbol c'.quotes).0 ≡ none)
  get_quote_kept upper iso provider now asset q c missing asked =
      let c' =
        (ask_quote N upper iso provider now asset (looked N upper iso provider now asset c)).1 in
      let (es, e) =
        ask_entry upper iso provider now asset q (looked N upper iso provider now asset c) asked in
      rw (quote_asked N upper iso provider now true asset q c missing refl asked) (
        refl,
        λ later configured provider' soon. (
          quote_lem asset q now c' es e upper iso configured provider' later soon,
          display_lem asset q now c' es e upper iso later soon,
        ),
        λ later late. gone_lem asset q now c' es e later late,
      )

-- ===== src/Trading/Filled.antt =====
-- What a placed order writes, and that an order that throws writes nothing.
use for_real_bank.Prelude.{
  ℕ, ◌≡◌, refl, ap, ◌∙◌, inl, inr, true, none, some, [], ◌∷◌, ◌++◌, map, arith, ◌==◌, if◌then◌else◌,
  Bool-cases, Option-cases, keep,
}
use for_real_bank.Prelude.Text.{Text, trim}
use for_real_bank.Effect.{Result-cases, ok, err, Error}
use for_real_bank.Trading.Tables.{
  is_market, pending, Double, MarketAsset, InvestmentAccount, Order, Db, OrderRequest, Prices,
  Fresh, Transaction, find_owned, find_position, find_proposed, executed, filled, save_account,
  is_active,
}
use for_real_bank.Trading.Positions.{
  execution_amount, validate_market_execution, refresh_account_valuation,
}
use for_real_bank.Trading.Numbers.{validate_lem, Covers}
use for_real_bank.Trading.{
  supported, save_order, settle_execution, held_quantity, execute_market_order, place_order,
  create_order,
}
use for_real_bank.Trading.Writes.{
  new_cash, settle_lem, IsRowOf, IsValued, save_order_lem, refresh_lem,
}

module _ (N : Double) where
  -- A market order that has been executed at its price.
  pub record IsFilled (upper : Text → Text) (prices : Prices N) (user_id : ℕ)
      (body : OrderRequest N) (price amount cash : N.Number) (db db' : Db) : Type 0 where
    pub asset : MarketAsset
    pub account : InvestmentAccount
    pub valued : InvestmentAccount
    pub row : Order
    pub offered : supported N (find_proposed (upper (trim body.symbol)) db.assets) ≡ some asset
    pub owned : find_owned body.account_id user_id db.accounts ≡ some account
    pub active : is_active account.status ≡ true
    pub at_price : price ≡ prices.quote asset
    pub exact : amount ≡ execution_amount N price body.quantity
    pub covers :
        Covers N body.side body.quantity
          (N.of_cents account.cash_balance)
          (held_quantity N (find_position account.id asset.id db.positions))
          amount
    pub settled : cash ≡ new_cash N body.side account.cash_balance amount
    pub is_row : IsRowOf N body account.id asset.id executed (some price) row
    pub orders : db'.orders ≡ db.orders ++ row ∷ []
    pub is_valued :
        IsValued N account cash
          (keep (λ p. p.account_id == account.id) db'.positions)
          db'.assets
          prices
          valued
    pub assets : db'.assets ≡ db.assets
    pub accounts : db'.accounts ≡ (save_account valued db).accounts

  market_order_lem :
      (upper : Text → Text) (prices : Prices N) (fresh : Fresh) (user_id : ℕ)
      (body : OrderRequest N) (asset : MarketAsset) (a : InvestmentAccount) (order_id : ℕ)
      (price amount cash : N.Number) (db : Db)
      → supported N (find_proposed (upper (trim body.symbol)) db.assets) ≡ some asset
      → find_owned body.account_id user_id db.accounts ≡ some a
      → is_active a.status ≡ true
      → (execute_market_order N prices fresh body a asset db).0
        ≡ ok (filled order_id price amount cash)
      → IsFilled upper prices user_id body price amount cash db
          (execute_market_order N prices fresh body a asset db).1
  unfolding execute_market_order
  market_order_lem upper prices fresh user_id body asset a order_id price amount cash db offered
        owned active h =
      let o = find_position a.id asset.id db.positions in
      let quote = prices.quote asset in
      elim (Result-cases (
        validate_market_execution N body.side body.quantity quote (N.of_cents a.cash_balance)
          (held_quantity N o))) [
            | inr (e, refused) ↦ ground arith
            | inl (m, valid) ↦
                let s1 = settle_execution N fresh body a asset o quote m db in
                elim (Result-cases s1.0) [
                  | inr (e, failed) ↦ ground arith
                  | inl (c, paid) ↦
                      let s2 =
                        save_order N fresh body a.id asset.id executed (some quote) (some fresh.now)
                          s1.1 in
                      elim (Result-cases s2.0) [
                        | inr (e, failed) ↦ ground arith
                        | inl (u, saved) ↦
                            let s3 = refresh_account_valuation N prices a c s2.1 in
                            elim (Result-cases s3.0) [
                              | inr (e, failed) ↦ ground arith
                              | inl (u', done) ↦
                                  let same : execute_market_order N prices fresh body a asset db
                                      ≡ (ok (filled fresh.order_id quote m c), s3.1) =
                                    ground arith in
                                  let answers : (price ≡ quote) × (amount ≡ m) × (cash ≡ c) =
                                    ground arith in
                                  let (exact, covers) =
                                    validate_lem N body.side body.quantity quote
                                      (N.of_cents a.cash_balance) (held_quantity N o) m valid in
                                  let (settled, (assets1, accounts1, orders1)) =
                                    settle_lem N fresh body a asset o quote m c db paid in
                                  let ((row, is_row, orders2), assets2, accounts2, positions2) =
                                    save_order_lem N fresh body a.id asset.id executed (some quote)
                                      (some fresh.now) s1.1 saved in
                                  let (valued, is_valued, final) =
                                    refresh_lem N prices a c s2.1 done in
                                  rw (same, answers.0, answers.1, answers.2)
                                    (record {
                                      asset = asset;
                                      account = a;
                                      valued = valued;
                                      row = row;
                                      offered = offered;
                                      owned = owned;
                                      active = active;
                                      at_price = refl;
                                      exact = exact;
                                      covers = covers;
                                      settled = settled;
                                      is_row = is_row;
                                      orders =
                                          ap (λ x. x.orders) final
                                          ∙ (orders2 ∙ ap (λ os. os ++ row ∷ []) orders1);
                                      is_valued = rw final is_valued;
                                      assets = ap (λ x. x.assets) final ∙ (assets2 ∙ assets1);
                                      accounts =
                                          ap (λ x. x.accounts) final
                                          ∙ ap (map (λ b. if b.id == valued.id then valued else b))
                                              (accounts2 ∙ accounts1);
                                    })
                            ]
                      ]
                ]
          ]

  place_order_lem :
      (upper : Text → Text) (prices : Prices N) (fresh : Fresh) (user_id : ℕ)
      (body : OrderRequest N) (asset : MarketAsset) (order_id : ℕ) (price amount cash : N.Number)
      (db : Db)
      → supported N (find_proposed (upper (trim body.symbol)) db.assets) ≡ some asset
      → (place_order N prices fresh user_id body asset db).0
        ≡ ok (filled order_id price amount cash)
      → IsFilled upper prices user_id body price amount cash db
          (place_order N prices fresh user_id body asset db).1
  unfolding place_order
  place_order_lem upper prices fresh user_id body asset order_id price amount cash db offered h =
      elim (Option-cases (find_owned body.account_id user_id db.accounts)) [
        | inl unknown ↦ ground arith
        | inr (a, owned) ↦ elim (Bool-cases (is_active a.status)) [
          | inr closed ↦ ground arith
          | inl active ↦ elim (Bool-cases (is_market body.order_type)) [
            | inl now ↦
                rw (owned, active, now)
                  (market_order_lem upper prices fresh user_id body asset a order_id price amount
                    cash db offered owned active (ground arith))
            | inr later ↦
                elim (Result-cases (save_order N fresh body a.id asset.id pending none none db).0) [
                  | inl (u, e) ↦ ground arith
                  | inr (e, failed) ↦ ground arith
                ]
          ]
        ]
      ]

  -- An order that throws, whatever the error and wherever it is raised (an asset that is not on
  -- offer, an account of somebody else, too little cash, too small a position, a column that is too
  -- narrow), leaves every table as it was.
  pub create_order_rolls_back :
      (upper : Text → Text) (t : Transaction N) (prices : Prices N) (fresh : Fresh) (user_id : ℕ)
      (body : OrderRequest N) (db : Db) (e : Error)
      → (create_order N upper t prices fresh user_id body db).0 ≡ err e
      → (create_order N upper t prices fresh user_id body db).1 ≡ db
  unfolding create_order
  create_order_rolls_back upper t prices fresh user_id body db e failed =
      elim (Option-cases (supported N (find_proposed (upper (trim body.symbol)) db.assets))) [
        | inl unknown ↦ ground arith
        | inr (asset, found) ↦
            let m = place_order N prices fresh user_id body asset in
            elim (Result-cases (m db).0) [
              | inl (r, done) ↦ ground (arith, t.commits m r db (m db).1 (λ k. (done k, (m db).1)))
              | inr (e, undone) ↦
                  ground (arith, t.rolls_back m e db (m db).1 (λ k. (undone k, (m db).1)))
            ]
      ]

  -- An order that is answered as executed is one for an asset that is on offer, on an active account
  -- of the user. The amount is the rounded product of the quote and the quantity; the cash covered
  -- it (a purchase), or the position held the quantity (a sale); the answer carries the quote, the
  -- amount and the new balance. One executed order row is added, the account alone is rewritten,
  -- with that balance and the value and the gain of its positions, and the assets stay.
  pub create_order_filled :
      (upper : Text → Text) (t : Transaction N) (prices : Prices N) (fresh : Fresh) (user_id : ℕ)
      (body : OrderRequest N) (order_id : ℕ) (price amount cash : N.Number) (db : Db)
      → (create_order N upper t prices fresh user_id body db).0
        ≡ ok (filled order_id price amount cash)
      → IsFilled upper prices user_id body price amount cash db
          (create_order N upper t prices fresh user_id body db).1
  unfolding create_order
  create_order_filled upper t prices fresh user_id body order_id price amount cash db h =
      elim (Option-cases (supported N (find_proposed (upper (trim body.symbol)) db.assets))) [
        | inl unknown ↦ ground arith
        | inr (asset, found) ↦
            let m = place_order N prices fresh user_id body asset in
            elim (Result-cases (m db).0) [
              | inr (e, undone) ↦
                  ground (arith, t.rolls_back m e db (m db).1 (λ k. (undone k, (m db).1)))
              | inl (r, done) ↦
                  let ran = t.commits m r db (m db).1 (λ k. (done k, (m db).1)) in
                  let same : create_order N upper t prices fresh user_id body db
                      ≡ (ok r, (m db).1) =
                    ground (arith, ran) in
                  rw same (
                    place_order_lem upper prices fresh user_id body asset order_id price amount cash
                      db found (ground arith))
            ]
      ]

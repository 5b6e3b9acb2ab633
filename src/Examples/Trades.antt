-- ===== src/Examples/Trades.antt =====
-- The theorems on orders and quotes, at an account with 1,000 euros that buys and sells shares at 200 euros.
use for_real_bank.Prelude.{
  All, ℕ, ◌*◌, ◌≡◌, refl, true, false, none, some, List, [], ◌∷◌, arith, if◌then◌else◌, ◌/◌, ◌≤◌,
  ◌<◌, Bool,
}
use for_real_bank.Prelude.Int.{ℤ, pos, ◌+ℤ◌, ◌-ℤ◌, ◌≤ℤ◌, ltb_ℤ, leb_ℤ, int_laws, pos_part}
use for_real_bank.Prelude.Text.{text, Text}
use for_real_bank.Effect.{Exec, ok, err, Error, insufficient_cash}
use for_real_bank.Trading.Tables.{
  Double, buy, sell, market, stock, active, MarketAsset, InvestmentAccount, Db, OrderRequest,
  OrderReply, Prices, Fresh, Transaction,
}
use for_real_bank.Trading.Market.{
  Provider, Cache, MarketQuote, twelve_data, get_quote, get_display_quote, get_cached, ask_quote,
  euro_rate, or_zero,
}
use for_real_bank.Trading.Quotes.{IsPriced, get_quote-IsPriced}
use for_real_bank.Trading.Kept.{get_quote_kept}
use for_real_bank.Trading.Numbers.{NumberLaws, IsSolvent}
use for_real_bank.Trading.Solvent.{Event, order, manage, IsValid, run_events, run_events-IsSolvent}
use for_real_bank.Trading.Filled.{IsFilled, create_order_rolls_back, create_order_filled}
use for_real_bank.Trading.{create_order}
use for_real_bank.Trading.Positions.{execution_amount, round_money}
use for_real_bank.Prelude.Text.{text_eq, trim}

-- Numbers that are whole cents, or whole shares.
abbrev whole : Double
whole = record {
  Number = ℤ;
  lt = ltb_ℤ;
  at_most = leb_ℤ;
  is_finite = λ x. true;
  add = λ x y. x +ℤ y;
  sub = λ x y. x -ℤ y;
  mul = λ x y. pos (pos_part x * pos_part y);
  div = λ x y. pos (pos_part x / pos_part y);
  round = λ x. x;
  is_falsy = λ x. leb_ℤ x (pos 0);
  zero = pos 0;
  hundred = pos 100;
  epsilon = pos 0;
  of_cents = λ c. c;
  of_units = λ c. c;
  to_cents = λ x. if ltb_ℤ x (pos 1000000000000000) then some x else none;
  to_units = λ x. if ltb_ℤ x (pos 100000000000000000000) then some x else none;
}

abbrev IsNonneg : ℤ → Type 0
IsNonneg x = pos 0 ≤ℤ x

abbrev IsPositive : ℤ → Type 0
IsPositive x = ltb_ℤ (pos 0) x ≡ true

add_lem : (x y : ℤ) → IsNonneg x → IsNonneg y → IsNonneg (x +ℤ y)
add_lem x y h h' = grind int_laws

sub_lem : (c x : ℤ) → ltb_ℤ c x ≡ false → IsNonneg (c -ℤ x)
sub_lem c x h = grind int_laws

cents_lem : (x c : ℤ) → IsNonneg x → whole.to_cents x ≡ some c → IsNonneg c
cents_lem x c h e = ground arith

units_lem : (x c : ℤ) → IsNonneg x → whole.to_units x ≡ some c → IsNonneg c
units_lem x c h e = ground arith

positive_lem : (x : ℤ) → IsPositive x → IsNonneg x
positive_lem x h = ground arith

finite_lem : (x : ℤ) → leb_ℤ x (pos 0) ≡ false → IsPositive x
finite_lem x h = ground arith

cents-IsPositive : (c : ℕ) → 0 < c → IsPositive (pos c)
cents-IsPositive c h = ground arith

abbrev whole_laws : NumberLaws whole
whole_laws = record {
  nonneg = IsNonneg;
  positive = IsPositive;
  epsilon_nonneg = omega arith;
  hundred_positive = refl;
  positive_nonneg = positive_lem;
  finite_positive = λ x f h. finite_lem x h;
  add_nonneg = add_lem;
  mul_nonneg = λ x y h h'. omega arith;
  div_nonneg = λ x y h h'. omega arith;
  round_nonneg = λ x h. h;
  of_cents_nonneg = λ c h. h;
  of_cents_positive = cents-IsPositive;
  of_units_nonneg = λ c h. h;
  to_cents_nonneg = cents_lem;
  to_units_nonneg = units_lem;
  sub_cents_nonneg = λ c x h e. sub_lem c x e;
  sub_units_nonneg = λ c x h e. sub_lem c x e;
}

abbrev share : MarketAsset
share = record {
  id = 4;
  symbol = text "MSFT";
  asset_type = stock;
  is_tradable = true;
  proposed_by = some 2;
  proposed_at = some 100;
}

abbrev portfolio : InvestmentAccount
portfolio = record {
  id = 3;
  user_id = 9;
  cash_balance = pos 100000;
  total_value = pos 100000;
  total_gain_loss = pos 0;
  status = active;
}

abbrev market_db : Db
market_db = record {
  assets = share ∷ [];
  accounts = portfolio ∷ [];
  positions =
      record {
        id = 6;
        account_id = 3;
        asset_id = 4;
        quantity = pos 2;
        avg_purchase_price = pos 15000;
      }
      ∷ [];
  orders = [];
}

abbrev quotes : Prices whole
quotes = record { quote = λ a. pos 20000; display = λ a. pos 20000 }

abbrev drawn : Fresh
drawn = record { order_id = 11; position_id = 12; now = 500 }

abbrev bought : ℕ → OrderRequest whole
bought n = record {
  account_id = 3;
  symbol = text " MSFT";
  side = buy;
  quantity = pos n;
  order_type = market;
  price = none;
}

abbrev sold : ℕ → OrderRequest whole
sold n = record {
  account_id = 3;
  symbol = text "MSFT";
  side = sell;
  quantity = pos n;
  order_type = market;
  price = none;
}

abbrev committed : Exec Db (OrderReply whole) → Exec Db (OrderReply whole)
committed body db =
    let (r, db') = body db in elim r [ ok out ↦ (ok out, db') | err e ↦ (err e, db) ]

commits_lem :
    (body : Exec Db (OrderReply whole)) (out : OrderReply whole) (db db' : Db)
    → body db ≡ (ok out, db')
    → committed body db ≡ (ok out, db')
commits_lem body out db db' h = ground (arith, h)

rolls_back_lem :
    (body : Exec Db (OrderReply whole)) (e : Error) (db db' : Db)
    → body db ≡ (err e, db')
    → committed body db ≡ (err e, db)
rolls_back_lem body e db db' h = ground (arith, h)

abbrev exchange : Transaction whole
exchange = record { run = committed; commits = commits_lem; rolls_back = rolls_back_lem }

abbrev day : List (Event whole)
day =
    order quotes drawn 9 (bought 3)
    ∷ order quotes drawn 9 (sold 4)
    ∷ order quotes drawn 9 (sold 9)
    ∷ manage 4 false 2 600
    ∷ []

quotes-IsNonneg : (a : MarketAsset) → IsNonneg (quotes.quote a)
quotes-IsNonneg a = omega arith

day-IsValid : All (IsValid whole_laws) day
day-IsValid =
    ((refl, quotes-IsNonneg), ((refl, quotes-IsNonneg), ((refl, quotes-IsNonneg), (tt, tt))))

market_db-IsSolvent : IsSolvent market_db
market_db-IsSolvent = record { cash = (omega arith, tt); held = (omega arith, tt) }

run_events-IsSolvent_example : IsSolvent (run_events whole (λ s. s) exchange day market_db)
run_events-IsSolvent_example =
    run_events-IsSolvent whole whole_laws (λ s. s) exchange day market_db day-IsValid
      market_db-IsSolvent

create_order_rolls_back_example :
    (create_order whole (λ s. s) exchange quotes drawn 9 (bought 6) market_db).1 ≡ market_db
unfolding create_order text_eq trim execution_amount ◌+ℤ◌
create_order_rolls_back_example =
    create_order_rolls_back whole (λ s. s) exchange quotes drawn 9 (bought 6) market_db
      insufficient_cash refl

create_order_filled_example :
    IsFilled whole
      (λ s. s)
      quotes
      9
      (bought 3)
      (pos 20000)
      (pos 60000)
      (pos 40000)
      market_db
      (create_order whole (λ s. s) exchange quotes drawn 9 (bought 3) market_db).1
unfolding create_order text_eq trim execution_amount ◌+ℤ◌ ◌-ℤ◌
create_order_filled_example =
    create_order_filled whole (λ s. s) exchange quotes drawn 9 (bought 3) 11 (pos 20000) (pos 60000)
      (pos 40000) market_db refl

abbrev answers : Provider whole
answers symbol = some (record {
  close = pos 200;
  percent_change = pos 12;
  currency = some (text "EUR");
  datetime = none;
})

abbrev cold : Cache whole
cold = record { quotes = []; rates = [] }

abbrev date_text : ℕ → Text
date_text t = t ∷ []

abbrev same_case : Text → Text
same_case s = s

cold-IsPriced : IsPriced whole whole_laws cold
cold-IsPriced = record { quotes = tt; rates = tt }

get_quote-IsPriced_example :
    IsNonneg (get_quote whole same_case date_text true answers 5 share cold).0.price
    × IsPriced whole whole_laws (get_quote whole same_case date_text true answers 5 share cold).1
get_quote-IsPriced_example =
    get_quote-IsPriced whole whole_laws same_case date_text answers 5 true share cold cold-IsPriced

abbrev fresh_quote : MarketQuote whole
fresh_quote = record {
  price = pos 20000;
  change_percent = pos 12;
  source = twelve_data;
  as_of = date_text 5;
}

get_quote_kept_example :
    let (q, c) = get_quote whole same_case date_text true answers 5 share cold in
    (q ≡ fresh_quote)
    × ((later : ℕ) (configured : Bool) (provider : Provider whole)
        → later < 60005
        → (get_quote whole same_case date_text configured provider later share c ≡ (fresh_quote, c))
          × (get_display_quote whole same_case date_text later share c ≡ (fresh_quote, c)))
    × ((later : ℕ) → 60005 ≤ later → (get_cached later share.symbol c.quotes).0 ≡ none)
unfolding get_cached ask_quote euro_rate text_eq round_money ◌+ℤ◌ or_zero
get_quote_kept_example =
    get_quote_kept whole same_case date_text answers 5 share fresh_quote cold refl refl

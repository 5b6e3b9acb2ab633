-- ===== src/Trading/Tables.antt =====
-- The tables of apps/api-nest/src/interface/trading/trading.controller.ts and what it is sent.
-- A JavaScript number is a parameter with the operations that the code applies.
-- A decimal column holds a whole number: cents, or hundred-millionths of a unit for a quantity; a
-- number that does not fit its column makes the statement fail. The rows of `Db` are the columns
-- that the controller reads or writes. A transaction of the data source is a parameter with its laws.
use for_real_bank.Prelude.{
  ℕ, ◌≡◌, Bool, true, false, not, ◌&&◌, Option, List, [], ◌∷◌, ◌++◌, map, ◌==◌, if◌then◌else◌,
  is_some, find, keep,
}
use for_real_bank.Prelude.Int.{ℤ}
use for_real_bank.Prelude.Text.{Text, text_eq}
use for_real_bank.Effect.{Exec, ok, Error, err}

pub record Double : Type 1 where
  pub Number : Type 0
  pub lt : Number → Number → Bool
  pub at_most : Number → Number → Bool
  pub is_finite : Number → Bool
  pub add : Number → Number → Number
  pub sub : Number → Number → Number
  pub mul : Number → Number → Number
  pub div : Number → Number → Number
  pub round : Number → Number
  -- `!x`: zero, or not a number.
  pub is_falsy : Number → Bool
  pub zero : Number
  pub hundred : Number
  pub epsilon : Number
  -- `Number(column)`
  pub of_cents : ℤ → Number
  pub of_units : ℤ → Number
  -- What the column holds of the number that is sent; `none` where the column refuses it.
  pub to_cents : Number → Option ℤ
  pub to_units : Number → Option ℤ

pub data AssetType : Type 0 where
  stock crypto etf commodity : AssetType

pub data Side : Type 0 where
  buy sell : Side

pub data OrderType : Type 0 where
  market limit stop : OrderType

pub data OrderStatus : Type 0 where
  pending executed cancelled failed : OrderStatus

pub data AccountStatus : Type 0 where
  active closed suspended : AccountStatus

pub record MarketAsset : Type 0 where
  pub id : ℕ
  pub symbol : Text
  pub asset_type : AssetType
  pub is_tradable : Bool
  pub proposed_by : Option ℕ
  pub proposed_at : Option ℕ

pub record InvestmentAccount : Type 0 where
  pub id : ℕ
  pub user_id : ℕ
  pub cash_balance : ℤ
  pub total_value : ℤ
  pub total_gain_loss : ℤ
  pub status : AccountStatus

pub record Position : Type 0 where
  pub id : ℕ
  pub account_id : ℕ
  pub asset_id : ℕ
  pub quantity : ℤ
  pub avg_purchase_price : ℤ

pub record Order : Type 0 where
  pub id : ℕ
  pub account_id : ℕ
  pub asset_id : ℕ
  pub order_type : OrderType
  pub side : Side
  pub quantity : ℤ
  pub price : Option ℤ
  pub status : OrderStatus
  pub executed_price : Option ℤ
  pub executed_at : Option ℕ

pub record Db : Type 0 where
  pub assets : List MarketAsset
  pub accounts : List InvestmentAccount
  pub positions : List Position
  pub orders : List Order

-- `CreateTradingOrderDto`
pub record OrderRequest (N : Double) : Type 0 where
  pub account_id : ℕ
  pub symbol : Text
  pub side : Side
  pub quantity : N.Number
  pub order_type : OrderType
  pub price : Option N.Number

pub data OrderReply (N : Double) : Type 0 where
  registered : ℕ → OrderReply N
  -- The identifier of the order, the price, the amount and the new cash balance.
  filled : ℕ → N.Number → N.Number → N.Number → OrderReply N

-- The prices of the market data service: of `getQuote`, and of `getDisplayQuote`.
pub record Prices (N : Double) : Type 0 where
  pub quote : MarketAsset → N.Number
  pub display : MarketAsset → N.Number

-- The identifiers that the database draws, and the time of the request.
pub record Fresh : Type 0 where
  pub order_id : ℕ
  pub position_id : ℕ
  pub now : ℕ

abbrev pub is_supported_asset_type : AssetType → Bool
is_supported_asset_type commodity = false
is_supported_asset_type _ = true

abbrev pub is_market : OrderType → Bool
is_market market = true
is_market _ = false

abbrev pub is_active : AccountStatus → Bool
is_active active = true
is_active _ = false

-- `where: { symbol, isTradable: true, proposedAt: Not(IsNull()) }`
abbrev pub find_proposed : Text → List MarketAsset → Option MarketAsset
find_proposed symbol =
    find (λ a. text_eq a.symbol symbol && (a.is_tradable && is_some a.proposed_at))

abbrev pub find_asset : ℕ → List MarketAsset → Option MarketAsset
find_asset id = find (λ a. a.id == id)

abbrev pub find_owned : ℕ → ℕ → List InvestmentAccount → Option InvestmentAccount
find_owned id user_id = find (λ a. a.id == id && a.user_id == user_id)

abbrev pub find_position : ℕ → ℕ → List Position → Option Position
find_position account_id asset_id = find (λ p. p.account_id == account_id && p.asset_id == asset_id)

-- `manager.save` of a row that was read, and `manager.remove`.
abbrev pub save_account : InvestmentAccount → Db → Db
save_account a db = record db { accounts = map (λ b. if b.id == a.id then a else b) db.accounts }

abbrev pub save_position : Position → Db → Db
save_position p db = record db { positions = map (λ q. if q.id == p.id then p else q) db.positions }

abbrev pub insert_position : Position → Db → Db
insert_position p db = record db { positions = db.positions ++ p ∷ [] }

abbrev pub remove_position : Position → Db → Db
remove_position p db = record db { positions = keep (λ q. not (q.id == p.id)) db.positions }

abbrev pub insert_order : Order → Db → Db
insert_order o db = record db { orders = db.orders ++ o ∷ [] }

abbrev pub save_asset : MarketAsset → Db → Db
save_asset a db = record db { assets = map (λ b. if b.id == a.id then a else b) db.assets }

-- `dataSource.transaction`
pub record Transaction (N : Double) : Type 0 where
  pub run : Exec Db (OrderReply N) → Exec Db (OrderReply N)
  pub commits :
      (body : Exec Db (OrderReply N)) (r : OrderReply N) (db db' : Db)
      → body db ≡ (ok r, db')
      → run body db ≡ (ok r, db')
  pub rolls_back :
      (body : Exec Db (OrderReply N)) (e : Error) (db db' : Db)
      → body db ≡ (err e, db')
      → run body db ≡ (err e, db)

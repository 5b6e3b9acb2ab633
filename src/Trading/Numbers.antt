-- ===== src/Trading/Numbers.antt =====
-- What the code relies on of numbers, and the tables without negative cash balances and quantities.
use for_real_bank.Effect.{ok}
use for_real_bank.Prelude.{
  All, ◌≡◌, refl, ◌⊎◌, inl, inr, false, not, some, arith, ◌==◌, ℕ, ◌<◌, true, All-replace, All-snoc,
  All-keep,
}
use for_real_bank.Prelude.Int.{ℤ, pos, ◌≤ℤ◌}
use for_real_bank.Trading.Tables.{
  Double, Side, buy, sell, InvestmentAccount, Position, Db, save_position, insert_position,
  remove_position, save_account,
}
use for_real_bank.Trading.Positions.{execution_amount, validate_market_execution}

-- What the code relies on of JavaScript numbers and of the columns. `nonneg` holds of the numbers
-- from zero up, infinity included, and `positive` of the finite ones above zero.
pub record NumberLaws (N : Double) : Type 1 where
  pub nonneg : N.Number → Type 0
  pub positive : N.Number → Type 0
  pub epsilon_nonneg : nonneg N.epsilon
  pub hundred_positive : positive N.hundred
  pub positive_nonneg : (x : N.Number) → positive x → nonneg x
  pub finite_positive :
      (x : N.Number) → N.is_finite x ≡ true → N.at_most x N.zero ≡ false → positive x
  pub add_nonneg : (x y : N.Number) → nonneg x → nonneg y → nonneg (N.add x y)
  pub mul_nonneg : (x y : N.Number) → nonneg x → positive y → nonneg (N.mul x y)
  pub div_nonneg : (x y : N.Number) → nonneg x → positive y → nonneg (N.div x y)
  pub round_nonneg : (x : N.Number) → nonneg x → nonneg (N.round x)
  pub of_cents_nonneg : (c : ℤ) → pos 0 ≤ℤ c → nonneg (N.of_cents c)
  pub of_cents_positive : (c : ℕ) → 0 < c → positive (N.of_cents (pos c))
  pub of_units_nonneg : (c : ℤ) → pos 0 ≤ℤ c → nonneg (N.of_units c)
  pub to_cents_nonneg : (x : N.Number) (c : ℤ) → nonneg x → N.to_cents x ≡ some c → pos 0 ≤ℤ c
  pub to_units_nonneg : (x : N.Number) (c : ℤ) → nonneg x → N.to_units x ≡ some c → pos 0 ≤ℤ c
  -- A difference from a column is from zero up unless the column is less.
  pub sub_cents_nonneg :
      (c : ℤ) (x : N.Number)
      → nonneg x
      → N.lt (N.of_cents c) x ≡ false
      → nonneg (N.sub (N.of_cents c) x)
  pub sub_units_nonneg :
      (c : ℤ) (x : N.Number)
      → positive x
      → N.lt (N.of_units c) x ≡ false
      → nonneg (N.sub (N.of_units c) x)

pub record IsSolvent (db : Db) : Type 0 where
  pub cash : All (λ (a : InvestmentAccount). pos 0 ≤ℤ a.cash_balance) db.accounts
  pub held : All (λ (p : Position). pos 0 ≤ℤ p.quantity) db.positions

pub save_position-IsSolvent :
    (p : Position) (db : Db) → pos 0 ≤ℤ p.quantity → IsSolvent db → IsSolvent (save_position p db)
save_position-IsSolvent p db hp h = record {
  cash = h.cash;
  held =
      All-replace (λ (q : Position). pos 0 ≤ℤ q.quantity) (λ q. q.id == p.id) p db.positions h.held
        hp;
}

pub insert_position-IsSolvent :
    (p : Position) (db : Db) → pos 0 ≤ℤ p.quantity → IsSolvent db → IsSolvent (insert_position p db)
insert_position-IsSolvent p db hp h = record {
  cash = h.cash;
  held = All-snoc (λ (q : Position). pos 0 ≤ℤ q.quantity) db.positions p h.held hp;
}

pub remove_position-IsSolvent :
    (p : Position) (db : Db) → IsSolvent db → IsSolvent (remove_position p db)
remove_position-IsSolvent p db h = record {
  cash = h.cash;
  held =
      All-keep (λ (q : Position). pos 0 ≤ℤ q.quantity) (λ q. not (q.id == p.id)) db.positions
        h.held;
}

pub save_account-IsSolvent :
    (a : InvestmentAccount) (db : Db)
    → pos 0 ≤ℤ a.cash_balance
    → IsSolvent db
    → IsSolvent (save_account a db)
save_account-IsSolvent a db ha h = record {
  cash =
      All-replace (λ (b : InvestmentAccount). pos 0 ≤ℤ b.cash_balance) (λ b. b.id == a.id) a
        db.accounts h.cash ha;
  held = h.held;
}

pub Side-cases : (s : Side) → (s ≡ buy) ⊎ (s ≡ sell)
Side-cases buy = inl refl
Side-cases sell = inr refl

-- What a validated execution tells of the cash and of the quantity.
abbrev pub Covers : (N : Double) → Side → N.Number → N.Number → N.Number → N.Number → Type 0
Covers N buy quantity cash held amount = N.lt cash amount ≡ false
Covers N sell quantity cash held amount = N.lt held quantity ≡ false

pub validate_lem :
    (N : Double) (side : Side) (quantity price cash held amount : N.Number)
    → validate_market_execution N side quantity price cash held ≡ ok amount
    → (amount ≡ execution_amount N price quantity) × Covers N side quantity cash held amount
unfolding validate_market_execution
validate_lem N buy quantity price cash held amount h = ground arith
validate_lem N sell quantity price cash held amount h = ground arith

-- ===== src/Transfer/Rows.antt =====
-- The balance column of a table of accounts, by primary key, and the two updates of the gateway.
use for_real_bank.Prelude.{
  ℕ, ◌≡◌, refl, Bool, ◌&&◌, Option, none, some, List, [], ◌∷◌, arith, ◌==◌, if◌then◌else◌, inl, inr,
  true, Bool-cases, false,
}
use for_real_bank.Prelude.Int.{ℤ, pos, ◌+ℤ◌, ◌≤ℤ◌, int_laws}

abbrev pub Table : Type 0
Table = List (ℕ × ℤ)

-- `SELECT balance … WHERE id = k`
abbrev pub balance_of : ℕ → Table → Option ℤ
balance_of k [] = none
balance_of k ((j, v) ∷ t) = if j == k then some v else balance_of k t

-- `UPDATE … SET balance = f balance WHERE id = k AND test balance`, on every row that fits.
abbrev pub update_where : (ℤ → Bool) → (ℤ → ℤ) → ℕ → Table → Table
update_where test f k [] = []
update_where test f k ((j, v) ∷ t) =
    (j, (if j == k && test v then f v else v)) ∷ update_where test f k t

-- `… RETURNING balance`: the new values in the rows that fit.
abbrev pub returning : (ℤ → Bool) → (ℤ → ℤ) → ℕ → Table → List ℤ
returning test f k [] = []
returning test f k ((j, v) ∷ t) =
    let rest = returning test f k t in if j == k && test v then f v ∷ rest else rest

-- The primary key: no identifier stands in two rows.
abbrev pub IsKeyed : Table → Type 0
IsKeyed [] = Unit
IsKeyed ((k, v) ∷ t) = (balance_of k t ≡ none) × IsKeyed t

-- No balance is below zero.
abbrev pub IsSolvent : Table → Type 0
IsSolvent [] = Unit
IsSolvent ((k, v) ∷ t) = (pos 0 ≤ℤ v) × IsSolvent t

abbrev pub total : Table → ℤ
total [] = pos 0
total ((k, v) ∷ t) = v +ℤ total t

module _ (test : ℤ → Bool) (f : ℤ → ℤ) (k : ℕ) where
  pub balance_of-update :
      (j : ℕ) (t : Table)
      → balance_of j (update_where test f k t) ≡ elim (balance_of j t) [
        | none ↦ none
        | some v ↦ some (if j == k && test v then f v else v)
      ]
  balance_of-update j [] = refl
  balance_of-update j ((i, v) ∷ t) = ground (arith, balance_of-update j t)

  pub update-none : (t : Table) → balance_of k t ≡ none → update_where test f k t ≡ t
  update-none [] h = refl
  update-none ((i, v) ∷ t) h = ground (arith, update-none t)

  pub returning-none : (t : Table) → balance_of k t ≡ none → returning test f k t ≡ []
  returning-none [] h = refl
  returning-none ((i, v) ∷ t) h = ground (arith, returning-none t)

  pub update-IsKeyed : (t : Table) → IsKeyed t → IsKeyed (update_where test f k t)
  update-IsKeyed [] h = tt
  update-IsKeyed ((i, v) ∷ t) h = ground (arith, update-IsKeyed t h.1, balance_of-update i t)

  -- With the primary key the statement returns the new value of the one row that it changed.
  pub returning_lem :
      (t : Table)
      → IsKeyed t
      → returning test f k t
        ≡ elim (balance_of k t) [ none ↦ [] | some v ↦ (if test v then f v ∷ [] else []) ]
  returning_lem [] h = refl
  returning_lem ((i, v) ∷ t) h = ground (arith, returning_lem t h.1, returning-none t)

  pub update-refused :
      (v : ℤ) (t : Table)
      → IsKeyed t
      → balance_of k t ≡ some v
      → test v ≡ false
      → update_where test f k t ≡ t
  update-refused v [] h e p = refl
  update-refused v ((i, w) ∷ t) h e p = ground (arith, update-none t, update-refused v t h.1)

  -- The total moves by what the one changed row moves.
  pub total-update :
      (v : ℤ) (t : Table)
      → IsKeyed t
      → balance_of k t ≡ some v
      → test v ≡ true
      → total (update_where test f k t) +ℤ v ≡ total t +ℤ f v
  total-update v [] h e p = cc
  total-update v ((i, w) ∷ t) h e p = elim (Bool-cases (i == k)) [
    | inl here ↦ grind (int_laws, update-none t)
    | inr other ↦ grind (int_laws, total-update v t)
  ]

  pub update-IsSolvent :
      ((v : ℤ) → test v ≡ true → pos 0 ≤ℤ v → pos 0 ≤ℤ f v)
      → (t : Table) → IsSolvent t
      → IsSolvent (update_where test f k t)
  update-IsSolvent keeps [] h = tt
  update-IsSolvent keeps ((i, v) ∷ t) h = ground (arith, keeps v, update-IsSolvent keeps t h.1)

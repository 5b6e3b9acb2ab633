-- ===== src/LeastLoaded.antt =====
-- packages/application/src/common/pickLeastLoaded.ts: the choice of an advisor or of a director.
use for_real_bank.Prelude.{
  any, keep, get_elem?, any, ℕ, zero, suc, ◌≤◌, ◌≡◌, refl, sym, ◌≢◌, ◌⊎◌, inl, inr, Bool, true,
  Option, none, some, List, [], ◌∷◌, arith, ltb, ◌==◌, if◌then◌else◌, length, Bool-cases,
  Option-cases,
}

pub record Candidate : Type 0 where
  pub id : ℕ
  pub count : ℕ

-- `Math.min(...counts)` of a first candidate and the rest.
abbrev min_count : ℕ → List Candidate → ℕ
min_count m [] = m
min_count m (c ∷ cs) = min_count (if ltb c.count m then c.count else m) cs

abbrev least_loaded : ℕ → List Candidate → List Candidate
least_loaded m cs = keep (λ c. c.count == m) cs

-- `leastLoaded[index] ?? leastLoaded[0]`, and then its identifier.
abbrev chosen_at : ℕ → List Candidate → Option ℕ
chosen_at i [] = none
chosen_at i (c ∷ cs) = elim (get_elem? (c ∷ cs) i) [ none ↦ some c.id | some d ↦ some d.id ]

-- `draw n` is `Math.floor(random() * n)`.
unfoldable pub pick_least_loaded_id : (ℕ → ℕ) → List Candidate → Option ℕ
pick_least_loaded_id draw [] = none
pick_least_loaded_id draw (c ∷ cs) =
    let least = least_loaded (min_count c.count cs) (c ∷ cs) in
    chosen_at (draw (length least)) least

min_count-le : (m : ℕ) (cs : List Candidate) → min_count m cs ≤ m
min_count-le m [] = omega arith
min_count-le m (c ∷ cs) = elim (Bool-cases (ltb c.count m)) [
  | inl lower ↦ rw lower (ground (arith, min_count-le c.count cs))
  | inr same ↦ rw same (min_count-le m cs)
]

min_count-le_at :
    (m : ℕ) (cs : List Candidate) (j : ℕ) (d : Candidate)
    → get_elem? cs j ≡ some d
    → min_count m cs ≤ d.count
min_count-le_at m [] j d at = cc
min_count-le_at m (c ∷ cs) zero d at =
    ground (arith, min_count-le (if ltb c.count m then c.count else m) cs)
min_count-le_at m (c ∷ cs) (suc j) d at =
    min_count-le_at (if ltb c.count m then c.count else m) cs j d at

keep-at :
    (p : Candidate → Bool) (cs : List Candidate) (i : ℕ) (c : Candidate)
    → get_elem? (keep p cs) i ≡ some c
    → (j : ℕ) × (get_elem? cs j ≡ some c) × (p c ≡ true)
keep-at p [] i c at = cc
keep-at p (d ∷ cs) zero c at = elim (Bool-cases (p d)) [
  | inl in' ↦ (0, ground arith, ground arith)
  | inr out ↦ let (j, at', pc) = keep-at p cs zero c (ground arith) in (suc j, at', pc)
]
keep-at p (d ∷ cs) (suc i) c at = elim (Bool-cases (p d)) [
  | inl in' ↦ let (j, at', pc) = keep-at p cs i c (ground arith) in (suc j, at', pc)
  | inr out ↦ let (j, at', pc) = keep-at p cs (suc i) c (ground arith) in (suc j, at', pc)
]

chosen_at-id :
    (i : ℕ) (cs : List Candidate) (id : ℕ)
    → chosen_at i cs ≡ some id
    → (k : ℕ) × (c : Candidate) × (get_elem? cs k ≡ some c) × (c.id ≡ id)
chosen_at-id i [] id h = cc
chosen_at-id i (c ∷ cs) id h = elim (Option-cases (get_elem? (c ∷ cs) i)) [
  | inl out ↦ (0, c, refl, ground arith)
  | inr (d, at) ↦ (i, d, at, ground arith)
]

chosen_at_total : (i : ℕ) (cs : List Candidate) → cs ≢ [] → (id : ℕ) × (chosen_at i cs ≡ some id)
chosen_at_total i [] h = absurd (h refl)
chosen_at_total i (c ∷ cs) h = elim (Option-cases (get_elem? (c ∷ cs) i)) [
  | inl out ↦ (c.id, ground arith)
  | inr (d, at) ↦ (d.id, ground arith)
]

-- The least count is that of the first candidate, or that of another.
min_count_attained :
    (m v : ℕ) (cs : List Candidate)
    → min_count m cs ≡ v
    → (v ≡ m) ⊎ (any (λ c. c.count == v) cs ≡ true)
min_count_attained m v [] e = inl (sym e)
min_count_attained m v (c ∷ cs) e =
    elim (min_count_attained (if ltb c.count m then c.count else m) v cs e) [
      | inr later ↦ inr (ground arith)
      | inl first ↦ elim (Bool-cases (ltb c.count m)) [
        | inl lower ↦ inr (ground arith)
        | inr same ↦ inl (ground arith)
      ]
    ]

keep-ne-nil : (p : Candidate → Bool) (cs : List Candidate) → any p cs ≡ true → keep p cs ≢ []
keep-ne-nil p [] h = cc
keep-ne-nil p (c ∷ cs) h = ground (arith, keep-ne-nil p cs)

least_loaded-ne-nil :
    (c : Candidate) (cs : List Candidate) → least_loaded (min_count c.count cs) (c ∷ cs) ≢ []
least_loaded-ne-nil c cs =
    keep-ne-nil (λ d. d.count == min_count c.count cs) (c ∷ cs)
      (elim (min_count_attained c.count (min_count c.count cs) cs refl) [
        | inl first ↦ ground arith
        | inr other ↦ ground arith
      ])

min_count-le_all :
    (c : Candidate) (cs : List Candidate) (k : ℕ) (d : Candidate)
    → get_elem? (c ∷ cs) k ≡ some d
    → min_count c.count cs ≤ d.count
min_count-le_all c cs zero d at = ground (arith, min_count-le c.count cs)
min_count-le_all c cs (suc k) d at = min_count-le_at c.count cs k d at

-- A chosen identifier is that of a candidate, and no candidate has a lower count.
pub pick_least_loaded_id_least :
    (draw : ℕ → ℕ) (cs : List Candidate) (id : ℕ)
    → pick_least_loaded_id draw cs ≡ some id
    → (j : ℕ) × (c : Candidate) × (get_elem? cs j ≡ some c)
      × (c.id ≡ id)
      × ((k : ℕ) (d : Candidate) → get_elem? cs k ≡ some d → c.count ≤ d.count)
unfolding pick_least_loaded_id
pick_least_loaded_id_least draw [] id h = cc
pick_least_loaded_id_least draw (c ∷ cs) id h =
    let m = min_count c.count cs in
    let least = least_loaded m (c ∷ cs) in
    let (i, d, at, named) = chosen_at-id (draw (length least)) least id h in
    let (j, at', lowest) = keep-at (λ e. e.count == m) (c ∷ cs) i d at in
    (j, d, at', named, λ k e at''. ground (arith, min_count-le_all c cs k e at''))

-- Some candidate is chosen unless there is none.
pub pick_least_loaded_id_total :
    (draw : ℕ → ℕ) (c : Candidate) (cs : List Candidate)
    → (id : ℕ) × (pick_least_loaded_id draw (c ∷ cs) ≡ some id)
unfolding pick_least_loaded_id
pick_least_loaded_id_total draw c cs =
    let least = least_loaded (min_count c.count cs) (c ∷ cs) in
    chosen_at_total (draw (length least)) least (least_loaded-ne-nil c cs)

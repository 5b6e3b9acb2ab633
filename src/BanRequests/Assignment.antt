-- ===== src/BanRequests/Assignment.antt =====
-- Which director a new ban request goes to.
use for_real_bank.Prelude.{
  keep, get_elem?, ℕ, zero, suc, ◌≤◌, ◌≡◌, ap, ◌∙◌, Bool, true, false, inl, inr, none, some, List,
  [], ◌∷◌, arith, Bool-cases, refl, sym, ◌≢◌, not, ◌&&◌,
}
use for_real_bank.User.{User, has_role, director}
use for_real_bank.BanRequests.{
  BanRequest, pending_of, loads, pick_assigned_director, is_active_director,
}
use for_real_bank.LeastLoaded.{
  Candidate, pick_least_loaded_id, pick_least_loaded_id_least, pick_least_loaded_id_total,
}

kept-at :
    (p : User → Bool) (us : List User) (k : ℕ) (u : User)
    → get_elem? (keep p us) k ≡ some u
    → (j : ℕ) × (get_elem? us j ≡ some u) × (p u ≡ true)
kept-at p [] k u h = ground arith
kept-at p (v ∷ us) zero u h = elim (Bool-cases (p v)) [
  | inl in' ↦ let same : v ≡ u = ground arith in (0, ap some same, ap p (sym same) ∙ in')
  | inr out ↦ let (j, at, fits) = kept-at p us zero u (ground arith) in (suc j, at, fits)
]
kept-at p (v ∷ us) (suc k) u h = elim (Bool-cases (p v)) [
  | inl in' ↦ let (j, at, fits) = kept-at p us k u (ground arith) in (suc j, at, fits)
  | inr out ↦ let (j, at, fits) = kept-at p us (suc k) u (ground arith) in (suc j, at, fits)
]

at-kept :
    (p : User → Bool) (us : List User) (j : ℕ) (u : User)
    → get_elem? us j ≡ some u
    → p u ≡ true
    → (k : ℕ) × (get_elem? (keep p us) k ≡ some u)
at-kept p [] j u h fits = ground arith
at-kept p (v ∷ us) zero u h fits =
    let same : v ≡ u = ground arith in
    let fits' : p v ≡ true = ap p same ∙ fits in (0, ground arith)
at-kept p (v ∷ us) (suc j) u h fits =
    let (k, at) = at-kept p us j u h fits in
    elim (Bool-cases (p v)) [ inl in' ↦ (suc k, rw in' at) | inr out ↦ (k, rw out at) ]

loads-at :
    (us : List User) (qs : List BanRequest) (k : ℕ) (c : Candidate)
    → get_elem? (loads us qs) k ≡ some c
    → (u : User) × (get_elem? us k ≡ some u) × (u.id ≡ c.id) × (c.count ≡ pending_of c.id qs)
loads-at [] qs k c h = ground arith
loads-at (u ∷ us) qs zero c h = (u, refl, ground arith, ground arith)
loads-at (u ∷ us) qs (suc k) c h = loads-at us qs k c h

at-loads :
    (us : List User) (qs : List BanRequest) (k : ℕ) (u : User)
    → get_elem? us k ≡ some u
    → get_elem? (loads us qs) k ≡ some (record { id = u.id; count = pending_of u.id qs })
at-loads [] qs k u h = ground arith
at-loads (v ∷ us) qs zero u h = ground arith
at-loads (v ∷ us) qs (suc k) u h = at-loads us qs k u h

-- Somebody is chosen of a list that has someone.
chosen :
    (draw : ℕ → ℕ) (us : List User) (qs : List BanRequest) (k : ℕ) (u : User)
    → get_elem? us k ≡ some u
    → pick_least_loaded_id draw (loads us qs) ≢ none
chosen draw [] qs k u h e = ground arith
chosen draw (v ∷ us) qs k u h e =
    let (d, some') =
      pick_least_loaded_id_total draw (record { id = v.id; count = pending_of v.id qs })
        (loads us qs) in
    cc

-- A ban request is assigned to a director who is not banned, and no director who is not banned has
-- fewer pending requests; and someone is assigned unless there is no such director.
pub pick_assigned_director_least :
    (draw : ℕ → ℕ) (users : List User) (qs : List BanRequest)
    → ((d : ℕ)
        → pick_assigned_director draw users qs ≡ some d
        → ((k : ℕ) × (u : User) × (get_elem? users k ≡ some u)
            × (u.id ≡ d)
            × (has_role u.roles director ≡ true)
            × (u.is_banned ≡ false))
          × ((k : ℕ) (e : User)
              → get_elem? users k ≡ some e
              → has_role e.roles director ≡ true
              → e.is_banned ≡ false
              → pending_of d qs ≤ pending_of e.id qs))
      × (pick_assigned_director draw users qs ≡ none
          → (k : ℕ) (e : User) → get_elem? users k ≡ some e
          → (has_role e.roles director && not e.is_banned) ≡ false)
unfolding pick_assigned_director
pick_assigned_director_least draw users qs =
    let active = keep is_active_director users in
    (
      λ d h.
          let (j, c, at, named, least) = pick_least_loaded_id_least draw (loads active qs) d h in
          let (u, at', same, count) = loads-at active qs j c at in
          let (i, at'', fits) = kept-at is_active_director users j u at' in
          (
            (i, u, at'', same ∙ named, ground arith, ground arith),
            λ k e is banned free.
                let (n, is') = at-kept is_active_director users k e is (ground arith) in
                let lower =
                  least n (record { id = e.id; count = pending_of e.id qs })
                    (at-loads active qs n e is') in
                let own : c.count ≡ pending_of d qs = count ∙ ap (λ x. pending_of x qs) named in
                ground arith,
          ),
      λ h k e is. elim (Bool-cases (is_active_director e)) [
        | inl fits ↦
            let (n, is') = at-kept is_active_director users k e is fits in
            absurd (chosen draw active qs n e is' h)
        | inr out ↦ out
      ],
    )

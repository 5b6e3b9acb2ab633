-- ===== src/Chat/Reach.antt =====
-- Who is among the contacts of a user.
use for_real_bank.Prelude.{
  keep, any, All, ℕ, ◌≡◌, refl, ◌≢◌, inl, inr, Bool, true, false, not, List, [], ◌∷◌, map, arith,
  ◌==◌, if◌then◌else◌, Bool-cases, Option-cases, find-holds, suc, ◌⊎◌, some, get_elem?, All-find,
}
use for_real_bank.User.{RoleName, User, has_role, client, advisor, director}
use for_real_bank.Advisors.{AdvisorClient, find_advisor_of, list_clients_of}
use for_real_bank.Chat.{find_by_ids, includes}
use for_real_bank.Prelude.{find}
use for_real_bank.Chat.Contacts.{
  set_user, set_where, is_served, is_staff, own_clients, own_advisor, set_found, list_allowed_users,
  is_contact_allowed, MayContact,
}

set_user-All : (P : User → Type 0) (u : User) (m : List User) → P u → All P m → All P (set_user u m)
set_user-All P u [] h a = (h, tt)
set_user-All P u (w ∷ ws) h a = elim (Bool-cases (w.id == u.id)) [
  | inl same ↦ rw same (h, a.1)
  | inr other ↦ rw other (a.0, set_user-All P u ws h a.1)
]

set_where-All :
    (P Q : User → Type 0) (p : User → Bool) (us m : List User)
    → ((u : User) → Q u → p u ≡ true → P u)
    → All Q us
    → All P m
    → All P (set_where p us m)
set_where-All P Q p [] m each q a = a
set_where-All P Q p (u ∷ us) m each q a = elim (Bool-cases (p u)) [
  | inl in' ↦
      rw in'
        (set_where-All P Q p us (set_user u m) each q.1 (set_user-All P u m (each u q.0 in') a))
  | inr out ↦ rw out (set_where-All P Q p us m each q.1 a)
]

-- What holds at every place of a list holds of all of it.
at-All :
    (P : User → Type 0) (us : List User)
    → ((k : ℕ) (u : User) → get_elem? us k ≡ some u → P u)
    → All P us
at-All P [] each = tt
at-All P (u ∷ us) each = (each 0 u refl, at-All P us (λ k v at. each (suc k) v at))

if-All :
    (P : User → Type 0) (c : Bool) (xs ys : List User)
    → (c ≡ true → All P xs)
    → (c ≡ false → All P ys)
    → All P (if c then xs else ys)
if-All P true xs ys a b = a refl
if-All P false xs ys a b = b refl

All-keep :
    (P : User → Type 0) (p : User → Bool) (us : List User)
    → All P us
    → All (λ u. P u × (p u ≡ true)) (keep p us)
All-keep P p [] a = tt
All-keep P p (u ∷ us) a = elim (Bool-cases (p u)) [
  | inl in' ↦ rw in' ((a.0, in'), All-keep P p us a.1)
  | inr out ↦ rw out (All-keep P p us a.1)
]

All-any :
    (P : User → Type 0) (i : ℕ) (us : List User)
    → All P us
    → any (λ u. u.id == i) us ≡ true
    → (v : User) × (v.id ≡ i) × P v
All-any P i [] a h = ground arith
All-any P i (u ∷ us) a h = elim (Bool-cases (u.id == i)) [
  | inl same ↦ (u, ground arith, a.0)
  | inr other ↦ All-any P i us a.1 (ground arith)
]

own_clients-All :
    (P : User → Type 0) (ids : List ℕ) (us : List User)
    → All P us
    → All (λ u. P u × (includes ids u.id ≡ true)) (find_by_ids ids us)
own_clients-All P ids us a = All-keep P (λ u. includes ids u.id) us a

includes-client :
    (ls : List AdvisorClient) (x : ℕ)
    → includes (map (λ l. l.client_id) ls) x ≡ true
    → any (λ l. l.client_id == x) ls ≡ true
includes-client [] x h = h
includes-client (l ∷ ls) x h = ground (arith, includes-client ls x)

-- The user stands in one of the two tables.
abbrev pub Listed : List User → List User → User → Type 0
Listed users directory v =
    ((k : ℕ) × (get_elem? users k ≡ some v)) ⊎ ((k : ℕ) × (get_elem? directory k ≡ some v))

module _ (users directory : List User) (links : List AdvisorClient) (i : ℕ)
    (roles : List RoleName) where
  abbrev May : User → Type 0
  May v = Listed users directory v × MayContact users directory links i roles v

  users-All : All (Listed users directory) users
  users-All = at-All (Listed users directory) users (λ k u at. inl (k, at))

  directory-All : All (Listed users directory) directory
  directory-All = at-All (Listed users directory) directory (λ k u at. inr (k, at))

  abbrev as_director : List User
  as_director = if has_role roles director then set_where is_served directory [] else []

  abbrev as_advisor : List User
  as_advisor =
      if has_role roles advisor
      then set_where is_staff directory
          (set_where (λ u. true) (own_clients i links users) as_director)
      else as_director

  as_director-All : All May as_director
  as_director-All = elim (Bool-cases (has_role roles director)) [
    | inl yes' ↦ rw yes' (
        set_where-All May (Listed users directory) is_served directory []
          (λ u mem served. (mem, inl (yes', served))) directory-All tt)
    | inr no' ↦ rw no' tt
  ]

  as_advisor-All : All May as_advisor
  as_advisor-All = elim (Bool-cases (has_role roles advisor)) [
    | inl yes' ↦
        let ids = map (λ l. l.client_id) (list_clients_of i links) in
        rw yes' (
          set_where-All May (Listed users directory) is_staff directory
            (set_where (λ u. true) (own_clients i links users) as_director)
            (λ u mem staff. (mem, inr (inr (inl (yes', staff))))) directory-All
            (set_where-All May (λ u. Listed users directory u × (includes ids u.id ≡ true))
              (λ u. true) (own_clients i links users) as_director
              (λ u mem _.
                (mem.0, inr (inl (yes', includes-client (list_clients_of i links) u.id mem.1))))
              (own_clients-All (Listed users directory) ids users users-All) as_director-All))
    | inr no' ↦ rw no' as_director-All
  ]

  set_found-All :
      (m : List User)
      → has_role roles client ≡ true
      → All May m
      → All May (set_found (own_advisor (find_advisor_of i links) users) m)
  set_found-All m yes' a = elim (Option-cases (find_advisor_of i links)) [
    | inl none' ↦ rw none' a
    | inr (l, at) ↦ elim (Option-cases (find (λ u. u.id == l.advisor_id) users)) [
      | inl missing ↦ rw at (rw missing a)
      | inr (u, found) ↦
          let same = find-holds (λ w. w.id == l.advisor_id) users u found in
          let mem =
            All-find (Listed users directory) (λ w. w.id == l.advisor_id) users u users-All found in
          rw at
            (rw found (set_user-All May u m (mem, inr (inr (inr (yes', (l, at, ground arith))))) a))
    ]
  ]

  allowed-All :
      All
        (λ v. (May v × (not (v.id == i) ≡ true)) × (not v.is_banned ≡ true))
        (list_allowed_users users directory links i roles)
  unfolding list_allowed_users
  allowed-All =
      let listed =
        if has_role roles client
        then set_found (own_advisor (find_advisor_of i links) users) as_advisor
        else as_advisor in
      All-keep (λ v. May v × (not (v.id == i) ≡ true)) (λ u. not u.is_banned)
        (keep (λ u. not (u.id == i)) listed)
        (All-keep May (λ u. not (u.id == i)) listed
          (if-All May (has_role roles client)
            (set_found (own_advisor (find_advisor_of i links) users) as_advisor) as_advisor
            (λ yes'. set_found-All as_advisor yes' as_advisor-All) (λ no'. as_advisor-All)))

-- Whoever a user may open a private conversation with stands in one of the two tables of users, is another user who is not banned, and is one of
-- these: for a director, a client or an advisor; for an advisor, one of his clients, an advisor or a director; for a client, his advisor.
pub is_contact_allowed-MayContact :
    (users directory : List User) (links : List AdvisorClient) (i : ℕ) (roles : List RoleName)
    (target : ℕ)
    → is_contact_allowed users directory links i roles target ≡ true
    → (target ≢ i)
      × ((v : User) × (v.id ≡ target)
          × Listed users directory v
          × (v.is_banned ≡ false)
          × MayContact users directory links i roles v)
unfolding is_contact_allowed
is_contact_allowed-MayContact users directory links i roles target h =
    let (v, same, ((may, other), free)) =
      All-any
        (λ v.
          ((Listed users directory v × MayContact users directory links i roles v)
            × (not (v.id == i) ≡ true))
          × (not v.is_banned ≡ true))
        target (list_allowed_users users directory links i roles)
        (allowed-All users directory links i roles) (ground arith) in
    (ground arith, (v, same, may.0, ground arith, may.1))

-- ===== src/Advisors/Replace.antt =====
-- What a change of advisor leaves.
use for_real_bank.Prelude.{
  ℕ, ◌≡◌, refl, ap, ◌∙◌, ◌≢◌, inl, inr, true, false, Option, none, some, List, [], ◌∷◌, ◌++◌, arith,
  ◌==◌, if◌then◌else◌, Bool-cases,
}
use for_real_bank.Effect.{ok}
use for_real_bank.User.{User, has_role, advisor}
use for_real_bank.Advisors.{
  AdvisorClient, Advisors, find_advisor_of, without_client, replace_advisor, reassign, is_client,
  is_advisor, is_same, is_banned_user, advisor_id_of,
}

find-without_self :
    (c : ℕ) (ls : List AdvisorClient) → find_advisor_of c (without_client c ls) ≡ none
unfolding find_advisor_of
find-without_self c [] = refl
find-without_self c (l ∷ ls) = ground (arith, find-without_self c ls)

find-without_ne :
    (c d : ℕ) (ls : List AdvisorClient)
    → d ≢ c
    → find_advisor_of d (without_client c ls) ≡ find_advisor_of d ls
unfolding find_advisor_of
find-without_ne c d [] h = refl
find-without_ne c d (l ∷ ls) h = ground (arith, find-without_ne c d ls h)

pub find-append :
    (d : ℕ) (ls : List AdvisorClient) (l : AdvisorClient)
    → find_advisor_of d (ls ++ l ∷ []) ≡ elim (find_advisor_of d ls) [
      | none ↦ (if l.client_id == d then some l else none)
      | some m ↦ some m
    ]
unfolding find_advisor_of
find-append d [] l = refl
find-append d (m ∷ ls) l = ground (arith, find-append d ls l)

-- No client stands in two links.
abbrev pub IsUnique : List AdvisorClient → Type 0
IsUnique [] = Unit
IsUnique (l ∷ ls) = (find_advisor_of l.client_id ls ≡ none) × IsUnique ls

IsUnique-without : (c : ℕ) (ls : List AdvisorClient) → IsUnique ls → IsUnique (without_client c ls)
IsUnique-without c [] h = tt
IsUnique-without c (l ∷ ls) h = elim (Bool-cases (l.client_id == c)) [
  | inl same ↦ rw same (IsUnique-without c ls h.1)
  | inr other ↦
      rw other (find-without_ne c l.client_id ls (ground arith) ∙ h.0, IsUnique-without c ls h.1)
]

IsUnique-append :
    (ls : List AdvisorClient) (l : AdvisorClient)
    → IsUnique ls
    → find_advisor_of l.client_id ls ≡ none
    → IsUnique (ls ++ l ∷ [])
unfolding find_advisor_of
IsUnique-append [] l h e = (refl, tt)
IsUnique-append (m ∷ ls) l h e =
    (ground (arith, find-append m.client_id ls l), IsUnique-append ls l h.1 (ground arith))

-- Replacing the link of one client touches no other one.
find-replaced :
    (c : ℕ) (ls : List AdvisorClient) (l : AdvisorClient)
    → l.client_id ≡ c
    → (d : ℕ) → d ≢ c
    → find_advisor_of d (without_client c ls ++ l ∷ []) ≡ find_advisor_of d ls
find-replaced c ls l e d h =
    ground (arith, find-append d (without_client c ls) l, find-without_ne c d ls h)

find-replaced_self :
    (c : ℕ) (ls : List AdvisorClient) (l : AdvisorClient)
    → l.client_id ≡ c
    → find_advisor_of c (without_client c ls ++ l ∷ []) ≡ some l
find-replaced_self c ls l e =
    ground (arith, find-append c (without_client c ls) l, find-without_self c ls)

IsUnique-replaced :
    (c : ℕ) (ls : List AdvisorClient) (l : AdvisorClient)
    → l.client_id ≡ c
    → IsUnique ls
    → IsUnique (without_client c ls ++ l ∷ [])
IsUnique-replaced c ls l e h =
    IsUnique-append (without_client c ls) l (IsUnique-without c ls h)
      (ap (λ d. find_advisor_of d (without_client c ls)) e ∙ find-without_self c ls)

abbrev link_of : ℕ → ℕ → ℕ → AdvisorClient
link_of new_id a c = record { id = new_id; advisor_id = a; client_id = c }

reassign_guards :
    (find_user : ℕ → Option User) (new_id actor_id client_id new_advisor_id : ℕ) (old : Option ℕ)
    (db : Advisors)
    → (reassign find_user new_id actor_id client_id new_advisor_id db).0 ≡ ok old
    → (is_client (find_user client_id) ≡ true)
      × (is_advisor (find_user new_advisor_id) ≡ true)
      × (is_banned_user (find_user new_advisor_id) ≡ false)
      × (is_same old new_advisor_id ≡ false)
      × (old ≡ advisor_id_of (find_advisor_of client_id db.links))
      × ((reassign find_user new_id actor_id client_id new_advisor_id db).1.links
          ≡ without_client client_id db.links ++ link_of new_id new_advisor_id client_id ∷ [])
      × ((reassign find_user new_id actor_id client_id new_advisor_id db).1.history
          ≡ db.history
            ++ record {
              changed_client = client_id;
              old_advisor_id = old;
              new_advisor_id = new_advisor_id;
              changed_by = actor_id;
            }
              ∷ [])
unfolding reassign replace_advisor
reassign_guards find_user new_id actor_id client_id new_advisor_id old db h = ground arith

advisor_found :
    (o : Option User)
    → is_advisor o ≡ true
    → is_banned_user o ≡ false
    → (a : User) × (o ≡ some a) × (has_role a.roles advisor ≡ true) × (a.is_banned ≡ false)
advisor_found none r b = ground arith
advisor_found (some a) r b = (a, refl, r, b)

is_same-ne : (o : Option ℕ) (a : ℕ) → is_same o a ≡ false → o ≢ some a
is_same-ne none a h = ground arith
is_same-ne (some b) a h = ground arith

-- Where no client has two advisors, a reassignment that succeeds was of an account that is a
-- client, to an advisor who is not banned and is not the present one. The client then has the new
-- advisor, no other client has another one than before, no client has two, and the change stands
-- at the end of the audit.
pub reassign_exact :
    (find_user : ℕ → Option User) (new_id actor_id client_id new_advisor_id : ℕ) (old : Option ℕ)
    (db : Advisors)
    → IsUnique db.links
    → (reassign find_user new_id actor_id client_id new_advisor_id db).0 ≡ ok old
    → let db' = (reassign find_user new_id actor_id client_id new_advisor_id db).1 in
      (is_client (find_user client_id) ≡ true)
      × ((a : User) × (find_user new_advisor_id ≡ some a)
          × (has_role a.roles advisor ≡ true)
          × (a.is_banned ≡ false))
      × (old ≢ some new_advisor_id)
      × ((l : AdvisorClient) × (find_advisor_of client_id db'.links ≡ some l)
          × (l.advisor_id ≡ new_advisor_id))
      × ((c : ℕ) → c ≢ client_id → find_advisor_of c db'.links ≡ find_advisor_of c db.links)
      × IsUnique db'.links
      × (db'.history
          ≡ db.history
            ++ record {
              changed_client = client_id;
              old_advisor_id = old;
              new_advisor_id = new_advisor_id;
              changed_by = actor_id;
            }
              ∷ [])
reassign_exact find_user new_id actor_id client_id new_advisor_id old db unique h =
    let (isc, adv, open', fresh, was, links, history) =
      reassign_guards find_user new_id actor_id client_id new_advisor_id old db h in
    let l = link_of new_id new_advisor_id client_id in
    (
      isc,
      advisor_found (find_user new_advisor_id) adv open',
      is_same-ne old new_advisor_id fresh,
      (l, rw links (find-replaced_self client_id db.links l refl), refl),
      (λ c ne. rw links (find-replaced client_id db.links l refl c ne)),
      rw links (IsUnique-replaced client_id db.links l refl unique),
      history,
    )

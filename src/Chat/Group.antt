-- ===== src/Chat/Group.antt =====
-- Who is in a new group.
use for_real_bank.Prelude.{
  keep, any, includes, ℕ, ◌≤◌, ◌≡◌, refl, sym, ap, ◌∙◌, ◌≢◌, inl, inr, Bool, true, false, not, ◌&&◌,
  ◌||◌, some, List, [], ◌∷◌, ◌++◌, arith, ◌==◌, length, Bool-cases,
}
use for_real_bank.Prelude.Text.{Text, trim, is_empty}
use for_real_bank.Effect.{ok}
use for_real_bank.User.{RoleName, User}
use for_real_bank.Advisors.{AdvisorClient}
use for_real_bank.Chat.{
  Chat, GroupResult, find_by_ids, has_user, is_member, requested_of, is_privileged, is_outsider,
  insert_group, create_group, find, group_chat,
}
use for_real_bank.Chat.Members.{
  IsDistinct, includes-keep, includes-unique_ids, members-IsDistinct, all_added,
  create_group_guards, exactly_added,
}

is_empty-length : (t : Text) → is_empty t ≡ false → 1 ≤ length t
is_empty-length [] h = ground arith
is_empty-length (c ∷ cs) h = ground arith

members-asked :
    (creator : ℕ) (ids : List ℕ) (u : ℕ)
    → includes (creator ∷ requested_of creator ids) u ≡ (u == creator || includes ids u)
members-asked creator ids u = ground (
  arith,
  includes-unique_ids (keep (λ i. not (i == creator)) ids) u,
  includes-keep (λ i. not (i == creator)) ids u,
)

user_found :
    (u : ℕ) (us : List User)
    → has_user u us ≡ true
    → (v : User) × (find (λ w. w.id == u) us ≡ some v)
user_found u [] h = ground arith
user_found u (w ∷ ws) h = elim (Bool-cases (w.id == u)) [
  | inl same ↦ (w, ground arith)
  | inr other ↦ let (v, at) = user_found u ws (ground arith) in (v, ground arith)
]

-- What holds of no user found holds of no member.
member_free :
    (u : ℕ) (us : List User) (ids : List ℕ) (p : User → Bool) (v : User)
    → find (λ w. w.id == u) us ≡ some v
    → includes ids u ≡ true
    → any p (find_by_ids ids us) ≡ false
    → p v ≡ false
member_free u [] ids p v at in' free = ground arith
member_free u (w ∷ ws) ids p v at in' free = elim (Bool-cases (w.id == u)) [
  | inl same ↦
      let same' : w.id ≡ u = ground arith in
      let in'' : includes ids w.id ≡ true = ap (includes ids) same' ∙ in' in
      let one : w ≡ v = ground arith in ap p (sym one) ∙ ground arith
  | inr other ↦ member_free u ws ids p v (ground arith) in' (ground arith)
]

near_member :
    (roles : List RoleName) (o any_o : Bool)
    → (not (is_privileged roles) && any_o) ≡ false
    → (any_o ≡ false → o ≡ false)
    → (not (is_privileged roles) && o) ≡ false
near_member roles o any_o h each = elim (Bool-cases (is_privileged roles)) [
  | inl all' ↦ rw all' refl
  | inr some' ↦ rw some' (each (ground arith))
]

-- A group that is created has a trimmed name of 1 to 120 characters and 3 to 50 distinct members: the creator and those asked for. It is the one
-- conversation that is added, with that name, and they are the members that are added to it; no other conversation gets one. Each of
-- them is a user, and each other than the creator is not banned and, unless the creator is a director or an admin, is one of
-- the creator's clients or of the staff.
pub create_group_exact :
    (users : List User) (links : List AdvisorClient) (new_id creator : ℕ) (roles : List RoleName)
    (given : Text) (ids : List ℕ) (chat : Chat) (r : GroupResult)
    → (create_group users links new_id creator roles given ids chat).0 ≡ ok r
    → let chat' = (create_group users links new_id creator roles given ids chat).1 in
      (r.name ≡ trim given)
      × (1 ≤ length r.name)
      × (length r.name ≤ 120)
      × (3 ≤ length r.participant_ids)
      × (length r.participant_ids ≤ 50)
      × IsDistinct r.participant_ids
      × ((u : ℕ) → includes r.participant_ids u ≡ (u == creator || includes ids u))
      × (chat'.conversations
          ≡ chat.conversations
            ++ record { id = r.conversation_id; type = group_chat; name = some r.name } ∷ [])
      × ((d u : ℕ)
          → is_member d u chat'.participants
            ≡ is_member d u chat.participants
              || (r.conversation_id == d && includes r.participant_ids u))
      × ((u : ℕ)
          → includes r.participant_ids u ≡ true
          → (is_member r.conversation_id u chat'.participants ≡ true)
            × ((v : User) × (find (λ w. w.id == u) users ≡ some v)
                × (u ≢ creator
                    → (v.is_banned ≡ false)
                      × ((not (is_privileged roles) && is_outsider creator links v) ≡ false))))
create_group_exact users links new_id creator roles given ids chat r h =
    let (name_ok, enough, few, free, near, done, e) =
      create_group_guards users links new_id creator roles given ids chat r h in
    let same : r ≡ record {
      conversation_id = new_id;
      name = trim given;
      participant_ids = creator ∷ requested_of creator ids;
    } =
      ground arith in
    let chat' = (create_group users links new_id creator roles given ids chat).1 in
    let all_joined = λ (d u : ℕ).
      exactly_added users new_id (creator ∷ requested_of creator ids) d u
        (insert_group new_id (trim given) chat) done in
    let inside : (u : ℕ)
        → includes (creator ∷ requested_of creator ids) u ≡ true
        → (has_user u users ≡ true) × (is_member new_id u chat'.participants ≡ true) =
      λ u m.
        let (known, in') =
          (all_added users new_id (creator ∷ requested_of creator ids)
              (insert_group new_id (trim given) chat) done).0
            u m in
        (known, ap (λ p. is_member new_id u p.1.participants) e ∙ in') in
    rw same (
      refl,
      is_empty-length (trim given) (ground arith),
      ground arith,
      ground arith,
      ground arith,
      members-IsDistinct creator ids,
      members-asked creator ids,
      ap (λ p. p.1.conversations) e ∙ (all_joined 0 0).0,
      λ d u. ap (λ p. is_member d u p.1.participants) e ∙ (all_joined d u).1,
      λ u m.
          let (known, in') = inside u m in
          let (v, at) = user_found u users known in
          (
            in',
            (
              v,
              at,
              λ other.
                  let asked : includes (requested_of creator ids) u ≡ true = ground arith in
                  (
                    member_free u users (requested_of creator ids) (λ w. w.is_banned) v at asked
                        free,
                    near_member roles (is_outsider creator links v)
                        (any (is_outsider creator links)
                          (find_by_ids (requested_of creator ids) users))
                        near
                        (member_free u users (requested_of creator ids) (is_outsider creator links)
                          v at asked),
                  ),
            ),
          ),
    )

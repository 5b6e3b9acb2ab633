-- ===== src/Chat/Members.antt =====
-- The members of a group while it is made.
use for_real_bank.Prelude.{
  keep, any, includes, ℕ, ◌+◌, ◌≡◌, refl, sym, ap, ◌∙◌, inl, inr, Bool, true, false, not, ◌&&◌,
  ◌||◌, List, [], ◌∷◌, ◌++◌, arith, ltb, ◌==◌, length, Bool-cases,
}
use for_real_bank.Prelude.Text.{Text, trim, is_empty}
use for_real_bank.Effect.{Result-cases, Result, ok, for_each}
use for_real_bank.User.{RoleName, User}
use for_real_bank.Advisors.{AdvisorClient}
use for_real_bank.Chat.{
  Chat, GroupResult, Participant, find_by_ids, has_user, is_member, unique_ids, requested_of,
  is_privileged, is_outsider, add_participant, insert_group, create_group,
}

-- No identifier stands twice.
abbrev pub IsDistinct : List ℕ → Type 0
IsDistinct [] = Unit
IsDistinct (x ∷ xs) = (includes xs x ≡ false) × IsDistinct xs

pub includes-keep :
    (p : ℕ → Bool) (xs : List ℕ) (x : ℕ) → includes (keep p xs) x ≡ includes xs x && p x
includes-keep p [] x = refl
includes-keep p (y ∷ ys) x = elim (Bool-cases (y == x)) [
  | inl same ↦ let same' : y ≡ x = ground arith in ground (arith, includes-keep p ys x)
  | inr other ↦ ground (arith, includes-keep p ys x)
]

IsDistinct-keep : (p : ℕ → Bool) (xs : List ℕ) → IsDistinct xs → IsDistinct (keep p xs)
IsDistinct-keep p [] h = tt
IsDistinct-keep p (x ∷ xs) h = elim (Bool-cases (p x)) [
  | inl in' ↦ rw in' (includes-keep p xs x ∙ rw (h.0) refl, IsDistinct-keep p xs h.1)
  | inr out ↦ rw out (IsDistinct-keep p xs h.1)
]

unique_ids-IsDistinct : (xs : List ℕ) → IsDistinct (unique_ids xs)
unfolding unique_ids
unique_ids-IsDistinct [] = tt
unique_ids-IsDistinct (x ∷ xs) = (
  ground (arith, includes-keep (λ y. not (y == x)) (unique_ids xs) x),
  IsDistinct-keep (λ y. not (y == x)) (unique_ids xs) (unique_ids-IsDistinct xs),
)

pub includes-unique_ids : (xs : List ℕ) (x : ℕ) → includes (unique_ids xs) x ≡ includes xs x
unfolding unique_ids
includes-unique_ids [] x = refl
includes-unique_ids (y ∷ ys) x =
    ground (arith, includes-keep (λ z. not (z == y)) (unique_ids ys) x, includes-unique_ids ys x)

pub members-IsDistinct :
    (creator : ℕ) (ids : List ℕ) → IsDistinct (creator ∷ requested_of creator ids)
members-IsDistinct creator ids = (
  includes-unique_ids (keep (λ i. not (i == creator)) ids) creator
      ∙ ground (arith, includes-keep (λ i. not (i == creator)) ids creator),
  unique_ids-IsDistinct (keep (λ i. not (i == creator)) ids),
)

pub is_member-append :
    (c u : ℕ) (ps : List Participant) (p : Participant)
    → is_member c u (ps ++ p ∷ []) ≡ is_member c u ps || (p.conversation_id == c && p.user_id == u)
is_member-append c u [] p = ground arith
is_member-append c u (q ∷ qs) p = ground (arith, is_member-append c u qs p)

module _ (users : List User) (c : ℕ) where
  pub added :
      (u : ℕ) (chat : Chat)
      → (add_participant users c u chat).0 ≡ ok tt
      → (has_user u users ≡ true)
        × (is_member c u (add_participant users c u chat).1.participants ≡ true)
        × ((v : ℕ)
            → is_member c v chat.participants ≡ true
            → is_member c v (add_participant users c u chat).1.participants ≡ true)
  unfolding add_participant
  added u chat h =
      let p : Participant = record { conversation_id = c; user_id = u } in
      (
        ground arith,
        ground (arith, is_member-append c u chat.participants p),
        λ v m. ground (arith, is_member-append c v chat.participants p),
      )

  for_each-cons :
      (x : ℕ) (xs : List ℕ) (chat : Chat)
      → (for_each (add_participant users c) (x ∷ xs) chat).0 ≡ ok tt
      → ((add_participant users c x chat).0 ≡ ok tt)
        × (for_each (add_participant users c) (x ∷ xs) chat
            ≡ for_each (add_participant users c) xs (add_participant users c x chat).1)
  unfolding for_each
  for_each-cons x xs chat h = elim (Result-cases (add_participant users c x chat).0) [
    | inl (_, done) ↦ (done, rw (done, for_each) refl)
    | inr (e, failed) ↦ ground arith
  ]

  pub all_added :
      (us : List ℕ) (chat : Chat)
      → (for_each (add_participant users c) us chat).0 ≡ ok tt
      → ((u : ℕ)
          → includes us u ≡ true
          → (has_user u users ≡ true)
            × (is_member c u (for_each (add_participant users c) us chat).1.participants ≡ true))
        × ((v : ℕ)
            → is_member c v chat.participants ≡ true
            → is_member c v (for_each (add_participant users c) us chat).1.participants ≡ true)
  unfolding for_each
  all_added [] chat h = ((λ u m. ground arith), λ v m. m)
  all_added (x ∷ xs) chat h =
      let (one, rest) = for_each-cons x xs chat h in
      let chat' = (add_participant users c x chat).1 in
      let (known, in', kept) = added x chat one in
      let (others, kept') = all_added xs chat' (ap (λ p. p.0) (sym rest) ∙ h) in
      (
        λ u m. elim (Bool-cases (x == u)) [
          | inl same ↦
              let same' : x ≡ u = ground arith in
              (
                ap (λ z. has_user z users) (sym same') ∙ known,
                ap (λ p. is_member c u p.1.participants) rest
                    ∙ kept' u (ap (λ z. is_member c z chat'.participants) (sym same') ∙ in'),
              )
          | inr other ↦
              let (known', in'') = others u (ground arith) in
              (known', ap (λ p. is_member c u p.1.participants) rest ∙ in'')
        ],
        λ v m. ap (λ p. is_member c v p.1.participants) rest ∙ kept' v (kept v m),
      )

same_pair :
    (c u d v : ℕ) (ps : List Participant)
    → is_member c u ps ≡ true
    → is_member d v ps ≡ is_member d v ps || (c == d && u == v)
same_pair c u d v ps h = elim (Bool-cases (c == d && u == v)) [
  | inl same ↦
      let ec : c ≡ d = ground arith in
      let eu : u ≡ v = ground arith in
      let h' : is_member d v ps ≡ true =
        ap (λ x. is_member x v ps) (sym ec) ∙ (ap (λ x. is_member c x ps) (sym eu) ∙ h) in
      rw h' refl
  | inr other ↦ rw other (ground arith)
]

module _ (users : List User) (c : ℕ) where
  one_added :
      (x d v : ℕ) (chat : Chat)
      → (add_participant users c x chat).0 ≡ ok tt
      → let chat' = (add_participant users c x chat).1 in
        (chat'.conversations ≡ chat.conversations)
        × (is_member d v chat'.participants ≡ is_member d v chat.participants || (c == d && x == v))
  unfolding add_participant
  one_added x d v chat h =
      let p : Participant = record { conversation_id = c; user_id = x } in
      elim (Bool-cases (is_member c x chat.participants)) [
        | inl there ↦ ground (arith, same_pair c x d v chat.participants there)
        | inr fresh ↦ ground (arith, is_member-append d v chat.participants p)
      ]

  -- The members after a loop that has added them all, and no others.
  pub exactly_added :
      (us : List ℕ) (d v : ℕ) (chat : Chat)
      → (for_each (add_participant users c) us chat).0 ≡ ok tt
      → let chat' = (for_each (add_participant users c) us chat).1 in
        (chat'.conversations ≡ chat.conversations)
        × (is_member d v chat'.participants
            ≡ is_member d v chat.participants || (c == d && includes us v))
  unfolding for_each
  exactly_added [] d v chat h = (refl, ground arith)
  exactly_added (x ∷ xs) d v chat h =
      let (one, rest) = for_each-cons users c x xs chat h in
      let (same, joined') = one_added x d v chat one in
      let (same', joined'') =
        exactly_added xs d v (add_participant users c x chat).1 (ap (λ p. p.0) (sym rest) ∙ h) in
      (
        ap (λ p. p.1.conversations) rest ∙ (same' ∙ same),
        ap (λ p. is_member d v p.1.participants) rest ∙ ground (arith, joined', joined''),
      )

module _ (users : List User) (links : List AdvisorClient) (new_id creator : ℕ)
    (roles : List RoleName) (given : Text) (ids : List ℕ) (chat : Chat) where
  abbrev pub found : List User
  found = find_by_ids (requested_of creator ids) users

  abbrev joined : Result (Unit {0}) × Chat
  joined =
      for_each (add_participant users new_id) (creator ∷ requested_of creator ids)
        (insert_group new_id (trim given) chat)

  pub create_group_guards :
      (r : GroupResult)
      → (create_group users links new_id creator roles given ids chat).0 ≡ ok r
      → ((is_empty (trim given) || ltb 120 (length (trim given))) ≡ false)
        × (ltb (length (requested_of creator ids)) 2 ≡ false)
        × (ltb 50 (length (requested_of creator ids) + 1) ≡ false)
        × (any (λ u. u.is_banned) found ≡ false)
        × ((not (is_privileged roles) && any (is_outsider creator links) found) ≡ false)
        × (joined.0 ≡ ok tt)
        × (create_group users links new_id creator roles given ids chat ≡ (
          ok (record {
            conversation_id = new_id;
            name = trim given;
            participant_ids = creator ∷ requested_of creator ids;
          }),
          joined.1,
        ))
  unfolding create_group
  create_group_guards r h = ground arith

-- ===== src/Messages/Badges.antt =====
-- The unread group of a user for a conversation, and what one notification does to every group.
use for_real_bank.Prelude.{
  find, All, ℕ, ◌+◌, ◌<◌, ◌≡◌, refl, sym, ◌∙◌, inl, inr, Bool, true, false, ◌&&◌, Option, none,
  some, List, [], ◌∷◌, ◌++◌, arith, ◌==◌, if◌then◌else◌, Bool-cases, Option-cases, All-find,
  find-holds, All-snoc,
}
use for_real_bank.Prelude.Text.{Text, text, text_eq_iff}
use for_real_bank.Notifications.{Notification, NotificationType, is_unread_group, increment_grouped}
use for_real_bank.Messages.{Printing, group_key}

-- The number on the badge of a user for a conversation.
abbrev pub count_of : Option Notification → ℕ
count_of none = 0
count_of (some n) = n.unread_count

-- Every identifier stands in one row, and below the next one.
abbrev pub IsKeyed : ℕ → List Notification → Type 0
IsKeyed next [] = Unit
IsKeyed next (n ∷ ns) = (n.id < next) × All (λ m. (m.id == n.id) ≡ false) ns × IsKeyed next ns

-- Two searches that end at one identifier end at one row.
find_same :
    (t t' : Notification → Bool) (next : ℕ) (ns : List Notification) (n n' : Notification)
    → IsKeyed next ns
    → find t ns ≡ some n
    → find t' ns ≡ some n'
    → n.id ≡ n'.id
    → n ≡ n'
find_same t t' next [] n n' keyed e e' same = ground arith
find_same t t' next (m ∷ ns) n n' keyed e e' same = elim (Bool-cases (t m)) [
  | inl here ↦ elim (Bool-cases (t' m)) [
    | inl here' ↦ ground arith
    | inr later' ↦
        let apart =
          All-find (λ (x : Notification). (x.id == m.id) ≡ false) t' ns n' keyed.1 (ground arith) in
        ground (arith, apart)
  ]
  | inr later ↦ elim (Bool-cases (t' m)) [
    | inl here' ↦
        let apart =
          All-find (λ (x : Notification). (x.id == m.id) ≡ false) t ns n keyed.1 (ground arith) in
        ground (arith, apart)
    | inr later' ↦ find_same t t' next ns n n' keyed.2 (ground arith) (ground arith) same
  ]
]

find-snoc :
    (t : Notification → Bool) (ns : List Notification) (n : Notification)
    → find t (ns ++ n ∷ [])
      ≡ elim (find t ns) [ some m ↦ some m | none ↦ (if t n then some n else none) ]
find-snoc t [] n = ground arith
find-snoc t (m ∷ ns) n = ground (arith, find-snoc t ns n)

append_cancel : (p s t : Text) → p ++ s ≡ p ++ t → s ≡ t
append_cancel [] s t h = h
append_cancel (c ∷ p) s t h = append_cancel p s t (ground arith)

module _ (print : Printing) (injective : (a b : ℕ) → print.uuid a ≡ print.uuid b → a ≡ b) where
  abbrev pub concerns : ℕ → ℕ → Notification → Bool
  concerns u c = is_unread_group u NotificationType.message (group_key print c)

  -- A notification belongs to one user and one conversation.
  pub concerns_one :
      (u v c d : ℕ) (n : Notification)
      → concerns u c n ≡ true
      → concerns v d n ≡ true
      → (u ≡ v) × (c ≡ d)
  concerns_one u v c d n h h' = elim (Option-cases n.group_key) [
    | inl without ↦ ground arith
    | inr (k, e) ↦
        let left = (text_eq_iff k (group_key print c)).0 (ground arith) in
        let right = (text_eq_iff k (group_key print d)).0 (ground arith) in
        (
          ground arith,
          injective c d (
              append_cancel (text "conversation:") (print.uuid c) (print.uuid d)
                (sym left ∙ right)),
        )
  ]

  abbrev pub badge : ℕ → ℕ → List Notification → ℕ
  badge u c ns = count_of (find (concerns u c) ns)

  module _ (id : ℕ) (title content : Text) (now : ℕ) where
    abbrev raised : Notification → Notification
    raised n =
        if n.id == id
        then record n {
          title = title;
          content = content;
          unread_count = n.unread_count + 1;
          updated_at = now;
        }
        else n

    find-increment :
        (v d : ℕ) (ns : List Notification)
        → find (concerns v d) (increment_grouped id title content now ns)
          ≡ elim (find (concerns v d) ns) [ none ↦ none | some n ↦ some (raised n) ]
    find-increment v d [] = refl
    find-increment v d (n ∷ ns) = ground (arith, find-increment v d ns)

    increment-All :
        (next i : ℕ) (ns : List Notification)
        → All (λ m. (m.id == i) ≡ false) ns
        → All (λ m. (m.id == i) ≡ false) (increment_grouped id title content now ns)
    increment-All next i [] h = tt
    increment-All next i (n ∷ ns) h = ground (arith, increment-All next i ns h.1)

    pub increment-IsKeyed :
        (next : ℕ) (ns : List Notification)
        → IsKeyed next ns
        → IsKeyed next (increment_grouped id title content now ns)
    increment-IsKeyed next [] h = tt
    increment-IsKeyed next (n ∷ ns) h =
        let same : (raised n).id ≡ n.id = ground arith in
        (rw same h.0, rw same (increment-All next n.id ns h.1), increment-IsKeyed next ns h.2)

  -- One more on the group that was found, and no other group changes.
  pub badge-increment :
      (u v c d next now : ℕ) (title content : Text) (n : Notification) (ns : List Notification)
      → IsKeyed next ns
      → find (concerns u c) ns ≡ some n
      → badge v d (increment_grouped n.id title content now ns)
        ≡ (if v == u && d == c then badge v d ns + 1 else badge v d ns)
  badge-increment u v c d next now title content n ns keyed found =
      let mine = find-holds (concerns u c) ns n found in
      let after = find-increment n.id title content now v d ns in
      elim (Bool-cases (v == u && d == c)) [
        | inl same ↦
            let ev : v ≡ u = ground arith in
            let ed : d ≡ c = ground arith in
            let found' : find (concerns v d) ns ≡ some n = rw (ev, ed) found in
            ground (arith, after)
        | inr other ↦ elim (Option-cases (find (concerns v d) ns)) [
          | inl without ↦ ground (arith, after)
          | inr (m, e) ↦ elim (Bool-cases (m.id == n.id)) [
            | inl here ↦
                let one =
                  find_same (concerns u c) (concerns v d) next ns n m keyed found e
                    (ground arith) in
                let his : concerns v d n ≡ true = rw one (find-holds (concerns v d) ns m e) in
                ground (arith, concerns_one u v c d n mine his)
            | inr apart ↦ ground (arith, after)
          ]
        ]
      ]

  fresh-All :
      (next : ℕ) (ns : List Notification) → IsKeyed next ns → All (λ m. (m.id == next) ≡ false) ns
  fresh-All next [] h = tt
  fresh-All next (n ∷ ns) h = ground (arith, fresh-All next ns h.2)

  pub snoc-IsKeyed :
      (next : ℕ) (ns : List Notification) (n : Notification)
      → IsKeyed next ns
      → n.id ≡ next
      → IsKeyed (next + 1) (ns ++ n ∷ [])
  snoc-IsKeyed next [] n h e = ground arith
  snoc-IsKeyed next (m ∷ ns) n h e = (
    ground arith,
    All-snoc (λ (x : Notification). (x.id == m.id) ≡ false) ns n h.1 (ground arith),
    snoc-IsKeyed next ns n h.2 e,
  )

  -- A first notification opens its own group with 1.
  pub badge-snoc :
      (u v c d : ℕ) (n : Notification) (ns : List Notification)
      → concerns u c n ≡ true
      → find (concerns u c) ns ≡ none
      → n.unread_count ≡ 1
      → badge v d (ns ++ n ∷ []) ≡ (if v == u && d == c then badge v d ns + 1 else badge v d ns)
  badge-snoc u v c d n ns mine missing one =
      let after = find-snoc (concerns v d) ns n in
      elim (Bool-cases (v == u && d == c)) [
        | inl same ↦
            let ev : v ≡ u = ground arith in
            let ed : d ≡ c = ground arith in
            let missing' : find (concerns v d) ns ≡ none = rw (ev, ed) missing in
            let mine' : concerns v d n ≡ true = rw (ev, ed) mine in ground (arith, after)
        | inr other ↦ elim (Option-cases (find (concerns v d) ns)) [
          | inr (m, e) ↦ ground (arith, after)
          | inl without ↦ elim (Bool-cases (concerns v d n)) [
            | inl his ↦ ground (arith, concerns_one u v c d n mine his)
            | inr not_his ↦ ground (arith, after)
          ]
        ]
      ]

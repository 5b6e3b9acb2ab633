-- ===== src/Messages/Sent.antt =====
-- Whom a message notifies: the recipients that have not muted the conversation, once each.
use for_real_bank.Prelude.{
  find, All, includes, any, ℕ, ◌+◌, ◌≡◌, refl, sym, ap, ◌∙◌, inl, inr, Bool, true, false, not, ◌&&◌,
  ◌||◌, none, List, [], ◌∷◌, ◌++◌, arith, ◌==◌, if◌then◌else◌, Bool-cases, Option-cases,
}
use for_real_bank.Prelude.Text.{text_eq_self}
use for_real_bank.Effect.{ok, for_each}
use for_real_bank.Notifications.{Notification, create_notification, row_of}
use for_real_bank.Messages.{
  Printing, Mailbox, ChatMessage, group_key, first_params, notify, muted_now, find_settings,
}
use for_real_bank.Messages.Badges.{
  IsKeyed, badge, concerns, badge-increment, badge-snoc, increment-IsKeyed, snoc-IsKeyed,
}

-- The tables that a notification does not touch.
pub record SameButInbox (m m' : Mailbox) : Type 0 where
  pub users : m'.users ≡ m.users
  pub chat : m'.chat ≡ m.chat
  pub messages : m'.messages ≡ m.messages
  pub states : m'.states ≡ m.states
  pub settings : m'.settings ≡ m.settings

only_inbox :
    (m : Mailbox) (ns : List Notification) (next : ℕ)
    → SameButInbox m (record m { notifications = ns; next_id = next })
only_inbox m ns next = record {
  users = refl;
  chat = refl;
  messages = refl;
  states = refl;
  settings = refl;
}

abbrev pub silent : ℕ → ℕ → ℕ → Mailbox → Bool
silent now u c m = muted_now now (find_settings u c m.settings)

-- No user stands twice in a list.
abbrev pub IsUnique : List ℕ → Type 0
IsUnique [] = Unit
IsUnique (u ∷ us) = (includes us u ≡ false) × IsUnique us

-- A badge that one of two steps may raise, but never both.
join_badges :
    (x y z z' : Bool) (b b1 b2 : ℕ)
    → (x ≡ true → y ≡ false)
    → z' ≡ z
    → b1 ≡ (if (x || false) && z then b + 1 else b)
    → b2 ≡ (if y && z' then b1 + 1 else b1)
    → b2 ≡ (if (x || y) && z then b + 1 else b)
join_badges true true z z' b b1 b2 apart same h h' = ground (arith, apart refl)
join_badges true false z z' b b1 b2 apart same h h' = ground arith
join_badges false y z z' b b1 b2 apart same h h' = ground arith

other_user :
    (u v : ℕ) (us : List ℕ) → includes us u ≡ false → (u == v) ≡ true → includes us v ≡ false
other_user u v us h e = let same : u ≡ v = ground arith in rw (sym same) h

module _ (print : Printing) (injective : (a b : ℕ) → print.uuid a ≡ print.uuid b → a ≡ b) where
  abbrev pub badge_in : ℕ → ℕ → Mailbox → ℕ
  badge_in v d m = badge print injective v d m.notifications

  -- What a step leaves, if it raises the badges that `raises` says by one.
  pub record Raises (raises : ℕ → ℕ → Bool) (m m' : Mailbox) : Type 0 where
    pub keyed : IsKeyed m'.next_id m'.notifications
    pub same : SameButInbox m m'
    pub badges :
        (v d : ℕ) → badge_in v d m' ≡ (if raises v d then badge_in v d m + 1 else badge_in v d m)

  module _ (now : ℕ) (message : ChatMessage) where
    notify_muted :
        (u : ℕ) (m : Mailbox)
        → IsKeyed m.next_id m.notifications
        → silent now u message.conversation_id m ≡ true
        → (notify print now message u m).0 ≡ ok tt
          × Raises (λ v d. false) m (notify print now message u m).1
    unfolding notify
    notify_muted u m keyed muted =
        rw muted (refl, record { keyed = keyed; same = only_inbox m _ _; badges = λ v d. refl })

    abbrev first_row : ℕ → Mailbox → Notification
    first_row u m = row_of m.next_id now (first_params print u message)

    created_lem :
        (u : ℕ) (m : Mailbox)
        → any (λ x. x == u) m.users ≡ true
        → create_notification m.users m.next_id now (first_params print u message) m.notifications
          ≡ (ok (first_row u m), m.notifications ++ first_row u m ∷ [])
    unfolding create_notification
    created_lem u m known = rw known refl

    notify_first :
        (u : ℕ) (m : Mailbox)
        → any (λ x. x == u) m.users ≡ true
        → silent now u message.conversation_id m ≡ false
        → find (concerns print injective u message.conversation_id) m.notifications ≡ none
        → notify print now message u m ≡ (
          ok tt,
          record m {
            notifications = m.notifications ++ first_row u m ∷ [];
            next_id = m.next_id + 1;
          },
        )
    unfolding notify
    notify_first u m known loud e = ground (arith, created_lem u m known)

    notify_lem :
        (u : ℕ) (m : Mailbox)
        → IsKeyed m.next_id m.notifications
        → any (λ x. x == u) m.users ≡ true
        → silent now u message.conversation_id m ≡ false
        → (notify print now message u m).0 ≡ ok tt
          × Raises
              (λ v d. v == u && d == message.conversation_id)
              m
              (notify print now message u m).1
    unfolding notify
    notify_lem u m keyed known loud =
        let c = message.conversation_id in
        let mine : concerns print injective u c (first_row u m) ≡ true =
          ground (arith, text_eq_self (group_key print c)) in
        elim (Option-cases (find (concerns print injective u c) m.notifications)) [
          | inr (n, e) ↦
              rw (loud, e)
                (
                  refl,
                  record {
                    keyed =
                        increment-IsKeyed print injective n.id _ _ now m.next_id m.notifications
                          keyed;
                    same = only_inbox m _ _;
                    badges = λ v d.
                        badge-increment print injective u v c d m.next_id now _ _ n m.notifications
                          keyed e;
                  },
                )
          | inl e ↦ rw (notify_first u m known loud e) (
            refl,
            record {
              keyed =
                  snoc-IsKeyed print injective m.next_id m.notifications (first_row u m) keyed refl;
              same = only_inbox m _ _;
              badges = λ v d.
                  badge-snoc print injective u v c d (first_row u m) m.notifications mine e refl;
            },
          )
        ]

    abbrev pub hits : List ℕ → Mailbox → ℕ → ℕ → Bool
    hits us m v d =
        includes us v
        && (d == message.conversation_id && not (silent now v message.conversation_id m))

    Raises-eq :
        (r r' : ℕ → ℕ → Bool) (m m' : Mailbox)
        → ((v d : ℕ) → r v d ≡ r' v d)
        → Raises r m m'
        → Raises r' m m'
    Raises-eq r r' m m' same h = record {
      keyed = h.keyed;
      same = h.same;
      badges = λ v d. rw (sym (same v d)) (h.badges v d);
    }

    -- The only user that a notification may raise is its own.
    hits_one :
        (u v d : ℕ) (b : Bool) (m : Mailbox)
        → silent now u message.conversation_id m ≡ b
        → hits (u ∷ []) m v d ≡ (v == u && d == message.conversation_id) && not b
    hits_one u v d b m h = elim (Bool-cases (u == v)) [
      | inl same ↦
          let e : u ≡ v = ground arith in
          let h' : silent now v message.conversation_id m ≡ b = rw (sym e) h in ground (arith, h')
      | inr other ↦ ground arith
    ]

    notify_one :
        (u : ℕ) (m : Mailbox)
        → IsKeyed m.next_id m.notifications
        → any (λ x. x == u) m.users ≡ true
        → (notify print now message u m).0 ≡ ok tt
          × Raises (hits (u ∷ []) m) m (notify print now message u m).1
    notify_one u m keyed known =
        let c = message.conversation_id in
        elim (Bool-cases (silent now u c m)) [
          | inl muted ↦
              let (done, h) = notify_muted u m keyed muted in
              (
                done,
                Raises-eq (λ v d. false) (hits (u ∷ []) m) m _
                    (λ v d. ground (arith, hits_one u v d true m muted)) h,
              )
          | inr loud ↦
              let (done, h) = notify_lem u m keyed known loud in
              (
                done,
                Raises-eq (λ v d. v == u && d == c) (hits (u ∷ []) m) m _
                    (λ v d. ground (arith, hits_one u v d false m loud)) h,
              )
        ]

    pub notify_all :
        (us : List ℕ) (m : Mailbox)
        → IsKeyed m.next_id m.notifications
        → All (λ u. any (λ x. x == u) m.users ≡ true) us
        → IsUnique us
        → (for_each (notify print now message) us m).0 ≡ ok tt
          × Raises (hits us m) m (for_each (notify print now message) us m).1
    unfolding for_each
    notify_all [] m keyed known unique =
        (refl, record { keyed = keyed; same = only_inbox m _ _; badges = λ v d. refl })
    notify_all (u ∷ us) m keyed known unique =
        let (done, one) = notify_one u m keyed known.0 in
        let m' = (notify print now message u m).1 in
        let (done', rest) = notify_all us m' one.keyed (rw one.same.users known.1) unique.1 in
        rw (done, for_each)
          (
            done',
            record {
              keyed = rest.keyed;
              same = record {
                users = rest.same.users ∙ one.same.users;
                chat = rest.same.chat ∙ one.same.chat;
                messages = rest.same.messages ∙ one.same.messages;
                states = rest.same.states ∙ one.same.states;
                settings = rest.same.settings ∙ one.same.settings;
              };
              badges = λ v d.
                  join_badges (u == v) (includes us v)
                    (d == message.conversation_id && not (silent now v message.conversation_id m))
                    (d == message.conversation_id && not (silent now v message.conversation_id m'))
                    (badge_in v d m) (badge_in v d m')
                    (badge_in v d (for_each (notify print now message) us m').1)
                    (other_user u v us unique.0)
                    (ap
                      (λ ss.
                        d == message.conversation_id
                        && not (muted_now now (find_settings v message.conversation_id ss)))
                      one.same.settings)
                    (one.badges v d) (rest.badges v d);
            },
          )

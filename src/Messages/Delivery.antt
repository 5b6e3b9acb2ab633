-- ===== src/Messages/Delivery.antt =====
-- A message that is sent, and the badges after any number of messages.
use for_real_bank.Prelude.{
  All, includes, any, keep, ℕ, ◌+◌, ◌≡◌, refl, ap, inl, inr, Bool, true, false, not, ◌&&◌, List, [],
  ◌∷◌, ◌++◌, arith, ◌==◌, if◌then◌else◌, length, Bool-cases, is_some, All-keep, zero, suc, ◌∙◌,
  none, some, get_elem?,
}
use for_real_bank.Effect.{ok, err, for_each, conversation_or_sender_missing}
use for_real_bank.Chat.{find_conversation, list_by_conversation}
use for_real_bank.Notifications.{Notification}
use for_real_bank.Messages.{
  Printing, Mailbox, ChatMessage, MessageInput, notify, create_message, send_message, clear_hidden,
  UserState,
}
use for_real_bank.Messages.Badges.{IsKeyed}
use for_real_bank.Messages.Sent.{silent, badge_in, IsUnique, notify_all}

abbrev pub recipients : MessageInput → Mailbox → List ℕ
recipients i m =
    keep (λ u. not (u == i.sender_id)) (list_by_conversation i.conversation_id m.chat.participants)

-- The conversation and the sender exist.
abbrev pub is_sendable : MessageInput → Mailbox → Bool
is_sendable i m =
    is_some (find_conversation i.conversation_id m.chat.conversations)
    && any (λ u. u == i.sender_id) m.users

-- The user takes part in the conversation of the message, has not sent it, and has not muted it.
abbrev pub receives : ℕ → MessageInput → Mailbox → ℕ → ℕ → Bool
receives now i m v d =
    includes (recipients i m) v
    && (d == i.conversation_id && not (silent now v i.conversation_id m))

-- The participants of a conversation are users, once each.
pub record IsStaffed (m : Mailbox) (c : ℕ) : Type 0 where
  pub known :
      All (λ u. any (λ x. x == u) m.users ≡ true) (list_by_conversation c m.chat.participants)
  pub unique : IsUnique (list_by_conversation c m.chat.participants)

includes-keep :
    (t : ℕ → Bool) (us : List ℕ) (u : ℕ) → includes us u ≡ false → includes (keep t us) u ≡ false
includes-keep t [] u h = refl
includes-keep t (x ∷ us) u h = ground (arith, includes-keep t us u)

keep-IsUnique : (t : ℕ → Bool) (us : List ℕ) → IsUnique us → IsUnique (keep t us)
keep-IsUnique t [] h = tt
keep-IsUnique t (u ∷ us) h = ground (arith, keep-IsUnique t us h.1, includes-keep t us u h.0)

IsKeyed-suc : (next : ℕ) (ns : List Notification) → IsKeyed next ns → IsKeyed (next + 1) ns
IsKeyed-suc next [] h = tt
IsKeyed-suc next (n ∷ ns) h = (ground arith, h.1, IsKeyed-suc next ns h.2)

abbrev row_of_message : ℕ → MessageInput → Mailbox → ChatMessage
row_of_message now i m = record {
  id = m.next_id;
  conversation_id = i.conversation_id;
  sender_id = i.sender_id;
  content = i.content;
  created_at = now;
}

-- The tables when the recipients are about to be notified.
abbrev stored : ℕ → MessageInput → Mailbox → Mailbox
stored now i m = record m {
  messages = m.messages ++ row_of_message now i m ∷ [];
  states = clear_hidden i.conversation_id m.states;
  next_id = m.next_id + 1;
}

-- What a message that is sent leaves.
pub record IsDelivered (print : Printing)
    (injective : (a b : ℕ) → print.uuid a ≡ print.uuid b → a ≡ b) (now : ℕ) (i : MessageInput)
    (m m' : Mailbox) (message : ChatMessage) : Type 0 where
  pub content : message.content ≡ i.content
  pub sender : message.sender_id ≡ i.sender_id
  pub place : message.conversation_id ≡ i.conversation_id
  pub messages : m'.messages ≡ m.messages ++ message ∷ []
  pub shown :
      (k : ℕ) (s : UserState)
      → get_elem? m.states k ≡ some s
      → get_elem? m'.states k
        ≡ some (if s.conversation_id == i.conversation_id then record s { hidden_at = none } else s)
  pub users : m'.users ≡ m.users
  pub chat : m'.chat ≡ m.chat
  pub settings : m'.settings ≡ m.settings
  pub keyed : IsKeyed m'.next_id m'.notifications
  pub badges :
      (v d : ℕ)
      → badge_in print injective v d m' ≡ (
          if receives now i m v d
          then badge_in print injective v d m + 1
          else badge_in print injective v d m)

-- The mailbox after a sequence of messages, each at its time.
unfoldable pub run_messages : Printing → List (ℕ × MessageInput) → Mailbox → Mailbox
run_messages print [] m = m
run_messages print ((now, i) ∷ ms) m = run_messages print ms (send_message print now i m).1

-- How many of the messages reach a user in a conversation.
abbrev pub reaching : ℕ → ℕ → List (ℕ × MessageInput) → Mailbox → ℕ
reaching v d ms m = length (keep (λ x. is_sendable x.1 m && receives x.0 x.1 m v d) ms)

module _ (print : Printing) (injective : (a b : ℕ) → print.uuid a ≡ print.uuid b → a ≡ b) where
  clear_hidden-at :
      (c : ℕ) (ss : List UserState) (k : ℕ) (s : UserState)
      → get_elem? ss k ≡ some s
      → get_elem? (clear_hidden c ss) k
        ≡ some (if s.conversation_id == c then record s { hidden_at = none } else s)
  clear_hidden-at c [] k s h = ground arith
  clear_hidden-at c (x ∷ ss) zero s h = ground arith
  clear_hidden-at c (x ∷ ss) (suc k) s h = clear_hidden-at c ss k s h

  created_lem :
      (now : ℕ) (i : MessageInput) (m : Mailbox)
      → is_sendable i m ≡ true
      → create_message now i m ≡ (
        ok (row_of_message now i m),
        record m { messages = m.messages ++ row_of_message now i m ∷ []; next_id = m.next_id + 1 },
      )
  unfolding create_message
  created_lem now i m sendable = rw sendable refl

  send_lem :
      (now : ℕ) (i : MessageInput) (m : Mailbox)
      → is_sendable i m ≡ true
      → (for_each (notify print now (row_of_message now i m)) (recipients i m) (stored now i m)).0
        ≡ ok tt
      → send_message print now i m ≡ (
        ok (row_of_message now i m),
        (for_each (notify print now (row_of_message now i m)) (recipients i m) (stored now i m)).1,
      )
  unfolding send_message
  send_lem now i m sendable done = ground (arith, created_lem now i m sendable, done)

  -- With texts of identifiers that are all different, identifiers of notifications that stand in one
  -- row each and below the next one, and a conversation whose participants are users, once each: a
  -- message of a known sender to a known conversation is stored, shows the conversation again to all
  -- who hid it, and raises by one the unread group of each participant other than the sender who
  -- has not muted the conversation, and no other group.
  pub send_message_delivers :
      (now : ℕ) (i : MessageInput) (m : Mailbox)
      → IsKeyed m.next_id m.notifications
      → IsStaffed m i.conversation_id
      → is_sendable i m ≡ true
      → (message : ChatMessage) × ((send_message print now i m).0 ≡ ok message)
        × IsDelivered print injective now i m (send_message print now i m).1 message
  send_message_delivers now i m keyed staffed sendable =
      let message = row_of_message now i m in
      let us = list_by_conversation i.conversation_id m.chat.participants in
      let t = λ (u : ℕ). not (u == i.sender_id) in
      let (done, h) =
        notify_all print injective now message (keep t us) (stored now i m)
          (IsKeyed-suc m.next_id m.notifications keyed) (All-keep _ t us staffed.known)
          (keep-IsUnique t us staffed.unique) in
      rw (send_lem now i m sendable done) (
        message,
        refl,
        record {
          content = refl;
          sender = refl;
          place = refl;
          messages = h.same.messages;
          shown = λ k s at.
              ap (λ ss. get_elem? ss k) h.same.states
              ∙ clear_hidden-at i.conversation_id m.states k s at;
          users = h.same.users;
          chat = h.same.chat;
          settings = h.same.settings;
          keyed = h.keyed;
          badges = h.badges;
        },
      )

  refused_lem :
      (now : ℕ) (i : MessageInput) (m : Mailbox)
      → is_sendable i m ≡ false
      → create_message now i m ≡ (err conversation_or_sender_missing, m)
  unfolding create_message
  refused_lem now i m refused = rw refused refl

  -- An unknown sender or an unknown conversation: nothing is written.
  unsent :
      (now : ℕ) (i : MessageInput) (m : Mailbox)
      → is_sendable i m ≡ false
      → (send_message print now i m).1 ≡ m
  unfolding send_message
  unsent now i m refused = ground (arith, refused_lem now i m refused)

  reaching-same :
      (v d : ℕ) (ms : List (ℕ × MessageInput)) (m m' : Mailbox)
      → m'.users ≡ m.users
      → m'.chat ≡ m.chat
      → m'.settings ≡ m.settings
      → reaching v d ms m' ≡ reaching v d ms m
  reaching-same v d ms m m' users chat settings k =
      reaching v d ms (record m' { users = users k; chat = chat k; settings = settings k })

  -- With texts of identifiers that are all different, identifiers of notifications that stand in one
  -- row each and below the next one, and conversations whose participants are users, once each: after
  -- any sequence of messages, refused ones included, the unread group of a user for a conversation
  -- counts what it counted before and every message that reached him.
  pub run_messages_badge :
      (v d : ℕ) (ms : List (ℕ × MessageInput)) (m : Mailbox)
      → IsKeyed m.next_id m.notifications
      → ((c : ℕ) → IsStaffed m c)
      → badge_in print injective v d (run_messages print ms m)
        ≡ badge_in print injective v d m + reaching v d ms m
  unfolding run_messages
  run_messages_badge v d [] m keyed staffed = omega arith
  run_messages_badge v d ((now, i) ∷ ms) m keyed staffed =
      let m' = (send_message print now i m).1 in
      elim (Bool-cases (is_sendable i m)) [
        | inr refused ↦
            let same =
              ap (λ x. badge_in print injective v d (run_messages print ms x))
                (unsent now i m refused) in
            ground (arith, same, run_messages_badge v d ms m keyed staffed)
        | inl sendable ↦
            let (message, sent, h) =
              send_message_delivers now i m keyed (staffed i.conversation_id) sendable in
            let staffed' : (c : ℕ) → IsStaffed m' c = λ c. record {
              known = rw (h.chat, h.users) ((staffed c).known);
              unique = rw h.chat ((staffed c).unique);
            } in
            let rest = run_messages_badge v d ms m' h.keyed staffed' in
            let tail = reaching-same v d ms m m' h.users h.chat h.settings in
            ground (arith, rest, tail, h.badges v d)
      ]

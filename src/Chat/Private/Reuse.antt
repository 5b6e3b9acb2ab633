-- ===== src/Chat/Private/Reuse.antt =====
-- Two users have one private conversation, however often it is opened.
use for_real_bank.Prelude.{
  find, ℕ, ◌≡◌, refl, sym, ap, ◌∙◌, ◌≢◌, inl, inr, Bool, true, false, ◌&&◌, none, some, List, [],
  ◌∷◌, ◌++◌, arith, Option-cases,
}
use for_real_bank.Effect.{Result, ok, Result-cases}
use for_real_bank.User.{RoleName, User}
use for_real_bank.Advisors.{AdvisorClient}
use for_real_bank.Chat.{
  Chat, Conversation, private_chat, is_private, is_member, add_participant, find_conversation,
}
use for_real_bank.Chat.Members.{is_member-append, added}
use for_real_bank.Chat.Private.{
  Desk, OpenResult, joins, find_private_between, insert_private, settle_open, create_private,
  open_private,
}

-- Adding a participant to one conversation changes no other and no row of the conversations.
added_elsewhere :
    (users : List User) (c u : ℕ) (chat : Chat) (j v : ℕ)
    → j ≢ c
    → is_member j v (add_participant users c u chat).1.participants
      ≡ is_member j v chat.participants
unfolding add_participant
added_elsewhere users c u chat j v other =
    ground
      (arith, is_member-append j v chat.participants (record { conversation_id = c; user_id = u }))

added_conversations :
    (users : List User) (c u : ℕ) (chat : Chat)
    → (add_participant users c u chat).1.conversations ≡ chat.conversations
unfolding add_participant
added_conversations users c u chat = ground arith

find-appended :
    (p q : Conversation → Bool) (i : ℕ) (cs : List Conversation) (n : Conversation)
    → ((c : Conversation) → c.id ≢ i → q c ≡ p c)
    → find p cs ≡ none
    → find_conversation i cs ≡ none
    → q n ≡ true
    → find q (cs ++ n ∷ []) ≡ some n
find-appended p q i [] n same none' fresh here = ground arith
find-appended p q i (c ∷ cs) n same none' fresh here =
    let other : c.id ≢ i = ground arith in
    ground (arith, same c other, find-appended p q i cs n same)

find-ext :
    (p q : Conversation → Bool) (cs : List Conversation)
    → ((c : Conversation) → p c ≡ q c)
    → find p cs ≡ find q cs
find-ext p q [] same = refl
find-ext p q (c ∷ cs) same = ground (arith, same c, find-ext p q cs same)

and-swap : (x y z : Bool) → (x && y && z) ≡ (x && z && y)
and-swap x true true = refl
and-swap x true false = ground arith
and-swap x false true = ground arith
and-swap x false false = refl

find_private_between_comm :
    (a b : ℕ) (chat : Chat) → find_private_between a b chat ≡ find_private_between b a chat
unfolding find_private_between
find_private_between_comm a b chat =
    find-ext (joins a b chat) (joins b a chat) chat.conversations (λ c.
      and-swap (is_private (some c)) (is_member c.id a chat.participants)
        (is_member c.id b chat.participants))

reused :
    (users directory : List User) (links : List AdvisorClient) (new_id i : ℕ)
    (roles : List RoleName) (target : ℕ) (d : Desk) (c : Conversation) (r : OpenResult)
    → find_private_between i target d.chat ≡ some c
    → (open_private users directory links new_id i roles target d).0 ≡ ok r
    → (r ≡ record { conversation_id = c.id; created = false })
      × ((open_private users directory links new_id i roles target d).1.chat ≡ d.chat)
unfolding open_private
reused users directory links new_id i roles target d c r at h = ground arith

joins-eq :
    (a b : ℕ) (c : Conversation) (chat chat' : Chat)
    → is_member c.id a chat.participants ≡ is_member c.id a chat'.participants
    → is_member c.id b chat.participants ≡ is_member c.id b chat'.participants
    → joins a b chat c ≡ joins a b chat' c
joins-eq a b c chat chat' e f = rw (e, f) refl

module _ (users : List User) (new_id i target : ℕ) (d : Desk) where
  abbrev first : Result (Unit {0}) × Chat
  first = add_participant users new_id i (insert_private new_id d.chat)

  abbrev second : Result (Unit {0}) × Chat
  second = add_participant users new_id target first.1

  create_private_steps :
      (r : OpenResult)
      → (create_private users new_id i target d).0 ≡ ok r
      → (first.0 ≡ ok tt)
        × (second.0 ≡ ok tt)
        × (create_private users new_id i target d
            ≡ settle_open i new_id
                (find_private_between i target second.1)
                (record { chat = second.1; states = d.states }))
  unfolding create_private
  create_private_steps r h = elim (Result-cases first.0) [
    | inr (e, failed) ↦ ground arith
    | inl (_, one) ↦ elim (Result-cases second.0) [
      | inr (e, failed) ↦ ground arith
      | inl (_, two) ↦ (one, two, rw (one, two, create_private) refl)
    ]
  ]

  created_found :
      find_conversation new_id d.chat.conversations ≡ none
      → find_private_between i target d.chat ≡ none
      → first.0 ≡ ok tt
      → second.0 ≡ ok tt
      → find_private_between i target second.1
        ≡ some (record { id = new_id; type = private_chat; name = none })
  unfolding find_private_between
  created_found fresh none' one two =
      let n : Conversation = record { id = new_id; type = private_chat; name = none } in
      let convs : second.1.conversations ≡ d.chat.conversations ++ n ∷ [] =
        added_conversations users new_id target first.1
        ∙ added_conversations users new_id i (insert_private new_id d.chat) in
      let (_, in_first, _) = added users new_id i (insert_private new_id d.chat) one in
      let (_, in_second, kept) = added users new_id target first.1 two in
      let elsewhere : (j v : ℕ)
          → j ≢ new_id
          → is_member j v second.1.participants ≡ is_member j v d.chat.participants =
        λ j v other.
          added_elsewhere users new_id target first.1 j v other
          ∙ added_elsewhere users new_id i (insert_private new_id d.chat) j v other in
      ap (find (joins i target second.1)) convs
      ∙ find-appended (joins i target d.chat) (joins i target second.1) new_id d.chat.conversations
          n
          (λ c other.
            joins-eq i target c second.1 d.chat (elsewhere c.id i other)
              (elsewhere c.id target other))
          none' fresh (rw (kept i in_first) (rw in_second refl))

settled :
    (i new_id : ℕ) (c : Conversation) (d : Desk)
    → c.id ≡ new_id
    → settle_open i new_id (some c) d
      ≡ (ok (record { conversation_id = new_id; created = true }), d)
settled i new_id c d e = ground arith

opened_new :
    (users directory : List User) (links : List AdvisorClient) (new_id i : ℕ)
    (roles : List RoleName) (target : ℕ) (d : Desk) (r : OpenResult)
    → find_private_between i target d.chat ≡ none
    → (open_private users directory links new_id i roles target d).0 ≡ ok r
    → open_private users directory links new_id i roles target d
      ≡ create_private users new_id i target d
unfolding open_private
opened_new users directory links new_id i roles target d r none' h = ground arith

opened_found :
    (users directory : List User) (links : List AdvisorClient) (new_id i : ℕ)
    (roles : List RoleName) (target : ℕ) (d : Desk) (r : OpenResult)
    → find_conversation new_id d.chat.conversations ≡ none
    → (open_private users directory links new_id i roles target d).0 ≡ ok r
    → (c : Conversation) × (find_private_between i target
          (open_private users directory links new_id i roles target d).1.chat
        ≡ some c)
      × (c.id ≡ r.conversation_id)
unfolding open_private
opened_found users directory links new_id i roles target d r fresh h =
    elim (Option-cases (find_private_between i target d.chat)) [
      | inr (c, at) ↦
          let (same, kept) = reused users directory links new_id i roles target d c r at h in
          (c, ap (find_private_between i target) kept ∙ at, ap (λ x. x.conversation_id) (sym same))
      | inl none' ↦
          let created = opened_new users directory links new_id i roles target d r none' h in
          let (one, two, e) =
            create_private_steps users new_id i target d r (ap (λ x. x.0) (sym created) ∙ h) in
          let at = created_found users new_id i target d fresh none' one two in
          let n : Conversation = record { id = new_id; type = private_chat; name = none } in
          let d' : Desk = record { chat = (second users new_id i target d).1; states = d.states } in
          let done : open_private users directory links new_id i roles target d
              ≡ (ok (record { conversation_id = new_id; created = true }), d') =
            created ∙ e ∙ ap (λ o. settle_open i new_id o d') at ∙ settled i new_id n d' refl in
          (n, ap (λ p. find_private_between i target p.1.chat) done ∙ at, ground (arith, done))
    ]

-- Once a private conversation of two users was opened, with an identifier that was new if it was created, whoever of the two
-- opens it again, at whatever later state of the users and of the advisors, is given the same conversation if he is let
-- in, and neither a conversation nor a participant is added.
pub open_private_once :
    (users directory : List User) (links : List AdvisorClient) (new_id i : ℕ)
    (roles : List RoleName) (target : ℕ) (d : Desk) (r : OpenResult)
    → find_conversation new_id d.chat.conversations ≡ none
    → (open_private users directory links new_id i roles target d).0 ≡ ok r
    → let d' = (open_private users directory links new_id i roles target d).1 in
      (users' directory' : List User) (links' : List AdvisorClient) (new_id' : ℕ)
      (roles' : List RoleName) (r' : OpenResult)
      → (((open_private users' directory' links' new_id' i roles' target d').0 ≡ ok r'
            → (r' ≡ record { conversation_id = r.conversation_id; created = false })
              × ((open_private users' directory' links' new_id' i roles' target d').1.chat
                  ≡ d'.chat))
          × ((open_private users' directory' links' new_id' target roles' i d').0 ≡ ok r'
              → (r' ≡ record { conversation_id = r.conversation_id; created = false })
                × ((open_private users' directory' links' new_id' target roles' i d').1.chat
                    ≡ d'.chat)))
open_private_once users directory links new_id i roles target d r fresh h users' directory' links'
      new_id' roles' r' =
    let d' = (open_private users directory links new_id i roles target d).1 in
    let (c, at, named) = opened_found users directory links new_id i roles target d r fresh h in
    let renamed : record { conversation_id = c.id; created = false }
        ≡ record { conversation_id = r.conversation_id; created = false } =
      ap (λ (k : ℕ). record { conversation_id = k; created = false }) named in
    (
      λ h'.
          let (same, kept) =
            reused users' directory' links' new_id' i roles' target d' c r' at h' in
          (same ∙ renamed, kept),
      λ h'.
          let (same, kept) =
            reused users' directory' links' new_id' target roles' i d' c r'
              (find_private_between_comm target i d'.chat ∙ at) h' in
          (same ∙ renamed, kept),
    )

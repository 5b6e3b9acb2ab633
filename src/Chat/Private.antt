-- ===== src/Chat/Private.antt =====
-- packages/application/src/chat/usecases/OpenPrivateConversationUseCase.ts, on the tables of the conversations (in
-- the order of their creation), of the participants and of the states of the users in the conversations.
pub mod Reuse
use for_real_bank.Prelude.{
  find, ℕ, zero, suc, ◌+◌, ◌-◌, ◌*◌, ◌≤◌, ◌<◌, ◌≡◌, refl, sym, ap, ◌∙◌, ◌≢◌, ◌↔◌, ◌⊎◌, inl, inr,
  Bool, true, false, not, ◌&&◌, ◌||◌, Option, none, some, List, [], ◌∷◌, ◌++◌, map, arith, ltb, leb,
  ◌==◌, if◌then◌else◌, length, Bool-cases, Option-cases, is_some,
}
use for_real_bank.Effect.{Exec, Result, ok, err, invalid_target, contact_not_allowed}
use for_real_bank.User.{RoleName, User}
use for_real_bank.Advisors.{AdvisorClient}
use for_real_bank.Chat.{
  Chat, Conversation, private_chat, is_private, is_member, add_participant, keep,
}
use for_real_bank.Chat.Contacts.{is_contact_allowed}

-- A row of `conversation_user_states`; `hidden_at` is the time at which the user hid the conversation.
pub record UserState : Type 0 where
  pub user_id : ℕ
  pub conversation_id : ℕ
  pub hidden_at : Option ℕ

pub record Desk : Type 0 where
  pub chat : Chat
  pub states : List UserState

pub record OpenResult : Type 0 where
  pub conversation_id : ℕ
  pub created : Bool

-- `setHidden`, on the row that `findOne` gives, or on a new one.
abbrev pub set_hidden : ℕ → ℕ → Option ℕ → List UserState → List UserState
set_hidden u c at [] = record { user_id = u; conversation_id = c; hidden_at = at } ∷ []
set_hidden u c at (s ∷ ss) =
    let rest = set_hidden u c at ss in
    if s.user_id == u && s.conversation_id == c then record s { hidden_at = at } ∷ ss else s ∷ rest

abbrev pub joins : ℕ → ℕ → Chat → Conversation → Bool
joins a b chat c =
    is_private (some c) && is_member c.id a chat.participants && is_member c.id b chat.participants

-- `findPrivateBetween`: the oldest private conversation of the two.
unfoldable pub find_private_between : ℕ → ℕ → Chat → Option Conversation
find_private_between a b chat = find (joins a b chat) chat.conversations

abbrev pub insert_private : ℕ → Chat → Chat
insert_private i chat = record {
  conversations = chat.conversations ++ record { id = i; type = private_chat; name = none } ∷ [];
  participants = chat.participants;
}

-- `deleteById`, and the participants that go with the conversation.
abbrev pub delete_conversation : ℕ → Chat → Chat
delete_conversation i chat = record {
  conversations = keep (λ c. not (c.id == i)) chat.conversations;
  participants = keep (λ p. not (p.conversation_id == i)) chat.participants;
}

-- The target is missing or banned.
abbrev pub is_no_target : Option User → Bool
is_no_target none = true
is_no_target (some u) = u.is_banned

-- The conversation that was there already, shown again to the one who asks.
abbrev pub reopen : ℕ → ℕ → Desk → Result OpenResult × Desk
reopen i c d = (
  ok (record { conversation_id = c; created = false }),
  record { chat = d.chat; states = set_hidden i c none d.states },
)

-- The conversation that was created, or an older one that came to be meanwhile.
abbrev pub settle_open : ℕ → ℕ → Option Conversation → Desk → Result OpenResult × Desk
settle_open i new_id none d = (ok (record { conversation_id = new_id; created = true }), d)
settle_open i new_id (some c) d =
    if c.id == new_id
    then (ok (record { conversation_id = new_id; created = true }), d)
    else reopen i c.id (record { chat = delete_conversation new_id d.chat; states = d.states })

unfoldable pub create_private : List User → ℕ → ℕ → ℕ → Exec Desk OpenResult
create_private users new_id i target d =
    let (r, chat') = add_participant users new_id i (insert_private new_id d.chat) in
    elim r [
      | err e ↦ (err e, record { chat = chat'; states = d.states })
      | ok _ ↦
          let (r', chat'') = add_participant users new_id target chat' in
          elim r' [
            | err e ↦ (err e, record { chat = chat''; states = d.states })
            | ok _ ↦
                settle_open i new_id (find_private_between i target chat'')
                  (record { chat = chat''; states = d.states })
          ]
    ]

-- `execute`
unfoldable pub open_private :
    List User → List User → List AdvisorClient → ℕ → ℕ → List RoleName → ℕ → Exec Desk OpenResult
open_private users directory links new_id i roles target d =
    if target == i
    then (err invalid_target, d)
    else if is_no_target (find (λ u. u.id == target) users)
    then (err invalid_target, d)
    else if not (is_contact_allowed users directory links i roles target)
    then (err contact_not_allowed, d)
    else elim (find_private_between i target d.chat) [
      | some c ↦ reopen i c.id d
      | none ↦ create_private users new_id i target d
    ]

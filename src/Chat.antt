-- ===== src/Chat.antt =====
-- packages/application/src/chat/usecases: CanUseConversationUseCase and CreateGroupConversationUseCase, on the
-- tables of the conversations and of their participants. `users` is the table of the users.
pub mod Contacts
pub mod Private
pub mod Reach
pub mod Freeze
pub mod Members
pub mod Group
use for_real_bank.Prelude.{
  keep, find, any, includes, ℕ, zero, suc, ◌+◌, ◌-◌, ◌*◌, ◌≤◌, ◌<◌, ◌≡◌, refl, sym, ap, ◌∙◌, ◌≢◌,
  ◌↔◌, ◌⊎◌, inl, inr, Bool, true, false, not, ◌&&◌, ◌||◌, Option, none, some, List, [], ◌∷◌, ◌++◌,
  map, arith, ltb, leb, ◌==◌, if◌then◌else◌, length, Bool-cases, Option-cases, is_some,
}
use for_real_bank.Prelude.Text.{Text, trim, is_empty}
use for_real_bank.Effect.{
  Exec, ok, err, pure, throw_if, modify, gets, for_each, ◌>>=◌, ◌>>◌, invalid_group_name,
  not_enough_participants, too_many_participants, invalid_participant, participant_not_allowed,
  conversation_or_user_missing,
}
use for_real_bank.User.{RoleName, User, has_role, client, advisor, director, admin}
use for_real_bank.Advisors.{AdvisorClient, find_advisor_of, list_clients_of}

pub data ConversationType : Type 0 where
  private_chat group_chat : ConversationType

pub record Conversation : Type 0 where
  pub id : ℕ
  pub type : ConversationType
  pub name : Option Text

pub record Participant : Type 0 where
  pub conversation_id : ℕ
  pub user_id : ℕ

pub record Chat : Type 0 where
  pub conversations : List Conversation
  pub participants : List Participant

-- `ConversationRepository.findById`
abbrev pub find_conversation : ℕ → List Conversation → Option Conversation
find_conversation i cs = find (λ c. c.id == i) cs

-- `ConversationParticipantRepository.listByConversation`, the identifiers of the users.
abbrev pub list_by_conversation : ℕ → List Participant → List ℕ
list_by_conversation i ps = map (λ p. p.user_id) (keep (λ p. p.conversation_id == i) ps)

-- `UserRepository.findByIds`
abbrev pub find_by_ids : List ℕ → List User → List User
find_by_ids ids users = keep (λ u. includes ids u.id) users

abbrev pub has_user : ℕ → List User → Bool
has_user i users = any (λ u. u.id == i) users

abbrev pub is_member : ℕ → ℕ → List Participant → Bool
is_member c u ps = any (λ p. p.conversation_id == c && p.user_id == u) ps

-- The advisor of a pair, who is not a director or an admin as well.
abbrev pub is_plain_advisor : User → Bool
is_plain_advisor u =
    has_role u.roles advisor && not (has_role u.roles director) && not (has_role u.roles admin)

abbrev pub is_plain_client : User → Bool
is_plain_client u = has_role u.roles client && not (has_role u.roles advisor)

abbrev pub is_private : Option Conversation → Bool
is_private none = false
is_private (some c) = elim c.type [ private_chat ↦ true | group_chat ↦ false ]

abbrev pub serves : Option AdvisorClient → ℕ → Bool
serves none a = false
serves (some l) a = l.advisor_id == a

abbrev pub pair_writable : Option User → Option User → List AdvisorClient → Bool
pair_writable none c links = true
pair_writable (some a) none links = true
pair_writable (some a) (some c) links = serves (find_advisor_of c.id links) a.id

-- `CanUseConversationUseCase.isWritable`
unfoldable pub is_writable : List User → List AdvisorClient → ℕ → Chat → Bool
is_writable users links i chat =
    let ids = list_by_conversation i chat.participants in
    let found = find_by_ids ids users in
    if not (is_private (find_conversation i chat.conversations))
    then true
    else if not (length ids == 2)
    then true
    else if not (length found == 2)
    then true
    else pair_writable (find is_plain_advisor found) (find is_plain_client found) links

-- `Array.from(new Set(ids))`
unfoldable pub unique_ids : List ℕ → List ℕ
unique_ids [] = []
unique_ids (x ∷ xs) = x ∷ keep (λ y. not (y == x)) (unique_ids xs)

-- The participants that were asked for, without the creator.
abbrev pub requested_of : ℕ → List ℕ → List ℕ
requested_of creator ids = unique_ids (keep (λ i. not (i == creator)) ids)

pub record GroupResult : Type 0 where
  pub conversation_id : ℕ
  pub name : Text
  pub participant_ids : List ℕ

abbrev pub is_privileged : List RoleName → Bool
is_privileged roles = has_role roles director || has_role roles admin

-- The user is neither a client of the creator nor of the staff.
abbrev pub is_outsider : ℕ → List AdvisorClient → User → Bool
is_outsider creator links u =
    not (includes (map (λ l. l.client_id) (list_clients_of creator links)) u.id)
    && not (has_role u.roles advisor)
    && not (has_role u.roles director)

-- `addParticipantIfNotExists`
unfoldable pub add_participant : List User → ℕ → ℕ → Exec Chat (Unit {0})
add_participant users c u chat =
    if not (is_some (find_conversation c chat.conversations)) || not (has_user u users)
    then (err conversation_or_user_missing, chat)
    else if is_member c u chat.participants
    then (ok tt, chat)
    else (
      ok tt,
      record {
        conversations = chat.conversations;
        participants = chat.participants ++ record { conversation_id = c; user_id = u } ∷ [];
      },
    )

-- The row of a new group.
abbrev pub insert_group : ℕ → Text → Chat → Chat
insert_group i name chat = record {
  conversations = chat.conversations ++ record { id = i; type = group_chat; name = some name } ∷ [];
  participants = chat.participants;
}

-- `CreateGroupConversationUseCase.execute`
unfoldable pub create_group :
    List User → List AdvisorClient → ℕ → ℕ → List RoleName → Text → List ℕ → Exec Chat GroupResult
create_group users links new_id creator roles given ids = do
  throw_if (is_empty (trim given) || ltb 120 (length (trim given))) invalid_group_name
  throw_if (ltb (length (requested_of creator ids)) 2) not_enough_participants
  throw_if (ltb 50 (length (requested_of creator ids) + 1)) too_many_participants
  throw_if
      (not (
          length (find_by_ids (requested_of creator ids) users)
          == length (requested_of creator ids))
        || any (λ u. u.is_banned) (find_by_ids (requested_of creator ids) users))
      invalid_participant
  throw_if
      (not (is_privileged roles)
        && any (is_outsider creator links) (find_by_ids (requested_of creator ids) users))
      participant_not_allowed
  modify (insert_group new_id (trim given))
  for_each (add_participant users new_id) (creator ∷ requested_of creator ids)
  pure (record {
    conversation_id = new_id;
    name = trim given;
    participant_ids = creator ∷ requested_of creator ids;
  })

-- ===== src/Examples/Clients.antt =====
-- The theorems on the conversations and on the opening of accounts.
use for_real_bank.Prelude.{
  includes, find, ℕ, ◌+◌, ◌≤◌, ◌≡◌, refl, ◌≢◌, true, false, not, ◌&&◌, ◌||◌, none, some, List, [],
  ◌∷◌, ltb, ◌==◌, if◌then◌else◌, length, ◌++◌,
}
use for_real_bank.Prelude.Text.{text, text_eq, trim}
use for_real_bank.Effect.{ok, for_each}
use for_real_bank.User.{User, client, advisor, has_role}
use for_real_bank.LeastLoaded.{pick_least_loaded_id}
use for_real_bank.Advisors.{
  find_advisor_of, reassign, replace_advisor, advisor_id_of, list_clients_of, count_by_advisor_ids,
}
use for_real_bank.Onboarding.{
  open_all, open_account, create_bank_account, create_account, generate_iban, random_digits,
  open_investment, issue_card, card_number, assign_advisor, active_advisors, link_chosen, link,
  Bank, World, InitializeResult, initialize, find_account, has_investment, has_card,
  checking_created, savings_created, investment_created,
}
use for_real_bank.Onboarding.Idempotent.{IsReady, initialize-IsReady, initialize_twice}
use for_real_bank.Chat.{
  unique_ids, add_participant, Chat, private_chat, is_writable, create_group, GroupResult,
  is_member, is_privileged, is_outsider, group_chat,
}
use for_real_bank.Chat.Contacts.{MayContact, is_contact_allowed, list_allowed_users}
use for_real_bank.Chat.Private.{
  Desk, OpenResult, open_private, create_private, find_private_between,
}
use for_real_bank.Chat.Private.Reuse.{open_private_once}
use for_real_bank.Chat.Reach.{Listed, is_contact_allowed-MayContact}
use for_real_bank.Chat.Freeze.{reassign_freezes}
use for_real_bank.Chat.Members.{IsDistinct}
use for_real_bank.Chat.Group.{create_group_exact}
use for_real_bank.Examples.{person}
use for_real_bank.Examples.Advice.{advice, find_user, previous, advice-IsUnique}

abbrev people : List User
people = person 4 client ∷ person 10 advisor ∷ person 11 advisor ∷ person 12 advisor ∷ []

abbrev chat : Chat
chat = record {
  conversations = record { id = 50; type = private_chat; name = none } ∷ [];
  participants =
      record { conversation_id = 50; user_id = 10 }
      ∷ record { conversation_id = 50; user_id = 4 }
      ∷ [];
}

reassign_freezes_example :
    is_writable people (reassign find_user 2 21 4 11 advice).1.links 50 chat ≡ false
unfolding reassign replace_advisor find_advisor_of has_role
reassign_freezes_example =
    reassign_freezes find_user 2 21 4 11 previous advice people 50 chat (person 10 advisor)
      (person 4 client) advice-IsUnique refl (refl, refl, refl, refl, refl)

abbrev asked : List ℕ
asked = 11 ∷ 12 ∷ 11 ∷ []

abbrev team : GroupResult
team = record { conversation_id = 60; name = text "Team"; participant_ids = 10 ∷ 11 ∷ 12 ∷ [] }

create_group_exact_example :
    let chat' = (create_group people [] 60 10 (advisor ∷ []) (text " Team ") asked chat).1 in
    (team.name ≡ trim (text " Team "))
    × (1 ≤ length team.name)
    × (length team.name ≤ 120)
    × (3 ≤ length team.participant_ids)
    × (length team.participant_ids ≤ 50)
    × IsDistinct team.participant_ids
    × ((u : ℕ) → includes team.participant_ids u ≡ (u == 10 || includes asked u))
    × (chat'.conversations
        ≡ chat.conversations ++ record { id = 60; type = group_chat; name = some team.name } ∷ [])
    × ((d u : ℕ)
        → is_member d u chat'.participants
          ≡ is_member d u chat.participants || (60 == d && includes team.participant_ids u))
    × ((u : ℕ)
        → includes team.participant_ids u ≡ true
        → (is_member team.conversation_id u chat'.participants ≡ true)
          × ((v : User) × (find (λ w. w.id == u) people ≡ some v)
              × (u ≢ 10
                  → (v.is_banned ≡ false)
                    × ((not (is_privileged (advisor ∷ [])) && is_outsider 10 [] v) ≡ false))))
unfolding create_group trim unique_ids has_role list_clients_of for_each add_participant
create_group_exact_example =
    create_group_exact people [] 60 10 (advisor ∷ []) (text " Team ") asked chat team refl

abbrev world : World
world = record {
  random = λ k n. if ltb k 27 then 1 else 2;
  uuid = λ k. 100 + k;
  expiry = 999;
  find_user = find_user;
  list_users = people;
}

abbrev no_bank : Bank
no_bank = record {
  accounts = [];
  investments = [];
  cards = [];
  links = [];
  drawn = 0;
  inserted = 0;
}

abbrev welcome : InitializeResult
welcome = record {
  initialized = true;
  created_accounts = checking_created ∷ savings_created ∷ investment_created ∷ [];
  card_created = true;
  advisor_id = some 12;
  advisor_assigned = true;
}

initialize-IsReady_example :
    IsReady 4 (initialize world 4 no_bank).1
    × (welcome.advisor_id ≡ advisor_id_of (find_advisor_of 4 (initialize world 4 no_bank).1.links))
unfolding initialize has_role open_all open_account find_account create_bank_account create_account
    generate_iban random_digits text_eq open_investment has_investment issue_card has_card
    card_number assign_advisor active_advisors link_chosen link find_advisor_of count_by_advisor_ids
    pick_least_loaded_id
initialize-IsReady_example = initialize-IsReady world 4 no_bank welcome refl refl

initialize_twice_example : initialize world 4 (initialize world 4 no_bank).1 ≡ (
  ok (record {
    initialized = true;
    created_accounts = [];
    card_created = false;
    advisor_id = some 12;
    advisor_assigned = false;
  }),
  (initialize world 4 no_bank).1,
)
unfolding initialize has_role open_all open_account find_account create_bank_account create_account
    generate_iban random_digits text_eq open_investment has_investment issue_card has_card
    card_number assign_advisor active_advisors link_chosen link find_advisor_of count_by_advisor_ids
    pick_least_loaded_id
initialize_twice_example = initialize_twice world world 4 no_bank welcome 12 refl refl refl refl

abbrev ten : ℕ
ten = 10

abbrev four : ℕ
four = 4

-- Advisor 10 writes to client 4, who is his.
is_contact_allowed-MayContact_example :
    (four ≢ ten)
    × ((v : User) × (v.id ≡ four)
        × Listed people people v
        × (v.is_banned ≡ false)
        × MayContact people people advice.links ten (advisor ∷ []) v)
unfolding is_contact_allowed list_allowed_users has_role list_clients_of
is_contact_allowed-MayContact_example =
    is_contact_allowed-MayContact people people advice.links ten (advisor ∷ []) four refl

abbrev no_chats : Desk
no_chats = record { chat = record { conversations = []; participants = [] }; states = [] }

abbrev opened : OpenResult
opened = record { conversation_id = 70; created = true }

abbrev opened_again : OpenResult
opened_again = record { conversation_id = 70; created = false }

-- Advisor 10 opens a conversation with client 4, and either of them opens it again.
open_private_once_example :
    let d' = (open_private people people advice.links 70 ten (advisor ∷ []) four no_chats).1 in
    ((open_private people people advice.links 71 ten (advisor ∷ []) four d').0 ≡ ok opened_again
      → (opened_again ≡ record { conversation_id = opened.conversation_id; created = false })
        × ((open_private people people advice.links 71 ten (advisor ∷ []) four d').1.chat
            ≡ d'.chat))
    × ((open_private people people advice.links 71 four (advisor ∷ []) ten d').0 ≡ ok opened_again
        → (opened_again ≡ record { conversation_id = opened.conversation_id; created = false })
          × ((open_private people people advice.links 71 four (advisor ∷ []) ten d').1.chat
              ≡ d'.chat))
unfolding open_private create_private find_private_between is_contact_allowed list_allowed_users
    has_role list_clients_of add_participant
open_private_once_example =
    open_private_once people people advice.links 70 ten (advisor ∷ []) four no_chats opened refl
      refl people people advice.links 71 (advisor ∷ []) opened_again

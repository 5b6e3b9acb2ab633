-- ===== src/Messages.antt =====
-- packages/application/src/chat/usecases/SendMessageUseCase.ts with the repositories of the messages, of the
-- states of the users in a conversation, and of their notification settings. The texts of an
-- identifier and of a number are parameters; a new identifier is the next of a supply that is never
-- used up, and the time is an argument.
pub mod Badges
pub mod Sent
pub mod Delivery
use for_real_bank.Prelude.{
  ℕ, zero, suc, ◌+◌, ◌-◌, ◌*◌, ◌≤◌, ◌<◌, ◌≡◌, refl, sym, ap, ◌∙◌, ◌≢◌, ◌↔◌, ◌⊎◌, inl, inr, Bool,
  true, false, not, ◌&&◌, ◌||◌, Option, none, some, List, [], ◌∷◌, ◌++◌, map, arith, ltb, leb, ◌==◌,
  if◌then◌else◌, length, Bool-cases, Option-cases, is_some, find, any, keep,
}
use for_real_bank.Prelude.Text.{Text, text}
use for_real_bank.Effect.{
  Exec, ok, err, pure, gets, modify, for_each, ◌>>=◌, ◌>>◌, conversation_or_sender_missing,
}
use for_real_bank.Chat.{Chat, find_conversation, list_by_conversation}
use for_real_bank.Chat.Private.{UserState}
use for_real_bank.Notifications.{
  Notification, NotificationParams, NotificationType, TargetType, create_notification,
  increment_grouped, find_unread_by_group_key, conversation,
}

pub record Printing : Type 0 where
  pub uuid : ℕ → Text
  pub decimal : ℕ → Text

pub record ChatMessage : Type 0 where
  pub id : ℕ
  pub conversation_id : ℕ
  pub sender_id : ℕ
  pub content : Text
  pub created_at : ℕ

-- `ConversationNotificationSettings`
pub record Settings : Type 0 where
  pub user_id : ℕ
  pub conversation_id : ℕ
  pub muted : Bool
  pub muted_until : Option ℕ

pub record Mailbox : Type 0 where
  pub users : List ℕ
  pub chat : Chat
  pub messages : List ChatMessage
  pub states : List UserState
  pub settings : List Settings
  pub notifications : List Notification
  pub next_id : ℕ

pub record MessageInput : Type 0 where
  pub conversation_id : ℕ
  pub sender_id : ℕ
  pub content : Text

-- `isMuted`: with no end, or until an end that is still to come.
unfoldable pub is_muted : ℕ → Settings → Bool
is_muted now s =
    if not s.muted then false else elim s.muted_until [ none ↦ true | some until ↦ ltb now until ]

-- `mute` and `unmute`
abbrev pub mute : Option ℕ → Settings → Settings
mute until s = record s { muted = true; muted_until = until }

abbrev pub unmute : Settings → Settings
unmute s = record s { muted = false; muted_until = none }

-- `findByUserAndConversation`
abbrev pub find_settings : ℕ → ℕ → List Settings → Option Settings
find_settings u c = find (λ s. s.user_id == u && s.conversation_id == c)

-- `upsert` of the settings
abbrev pub upsert_settings : ℕ → ℕ → Bool → Option ℕ → List Settings → List Settings
upsert_settings u c muted until [] =
    record { user_id = u; conversation_id = c; muted = muted; muted_until = until } ∷ []
upsert_settings u c muted until (s ∷ ss) =
    let rest = upsert_settings u c muted until ss in
    if s.user_id == u && s.conversation_id == c
    then record s { muted = muted; muted_until = until } ∷ ss
    else s ∷ rest

-- `settings?.isMuted()`
abbrev pub muted_now : ℕ → Option Settings → Bool
muted_now now none = false
muted_now now (some s) = is_muted now s

-- `clearHiddenForConversation`
abbrev pub clear_hidden : ℕ → List UserState → List UserState
clear_hidden c = map (λ s. if s.conversation_id == c then record s { hidden_at = none } else s)

-- `MessageRepository.create`
unfoldable pub create_message : ℕ → MessageInput → Exec Mailbox ChatMessage
create_message now input m =
    if is_some (find_conversation input.conversation_id m.chat.conversations)
      && any (λ u. u == input.sender_id) m.users
    then (let row : ChatMessage = record {
      id = m.next_id;
      conversation_id = input.conversation_id;
      sender_id = input.sender_id;
      content = input.content;
      created_at = now;
    } in
        (ok row, record m { messages = m.messages ++ row ∷ []; next_id = m.next_id + 1 }))
    else (err conversation_or_sender_missing, m)

module _ (print : Printing) where
  abbrev pub group_key : ℕ → Text
  group_key c = text "conversation:" ++ print.uuid c

  -- The first notification of a group.
  abbrev pub first_params : ℕ → ChatMessage → NotificationParams
  first_params u message = record {
    user_id = u;
    title = text "1 nouveau message";
    content = text "Vous avez reçu un nouveau message";
    type = NotificationType.message;
    target_type = some conversation;
    target_id = some (print.uuid message.conversation_id);
    target_url = some (
        text "/dashboard/messages?conversationId="
        ++ print.uuid message.conversation_id
        ++ text "&messageId="
        ++ print.uuid message.id);
    group_key = some (group_key message.conversation_id);
    oldest_unread_message_id = some message.id;
    unread_count = some 1;
  }

  -- The body of the loop on the recipients.
  unfoldable pub notify : ℕ → ChatMessage → ℕ → Exec Mailbox (Unit {0})
  notify now message u m =
      let c = message.conversation_id in
      let created =
        create_notification m.users m.next_id now (first_params u message) m.notifications in
      if muted_now now (find_settings u c m.settings)
      then (ok tt, m)
      else elim (find_unread_by_group_key u NotificationType.message (group_key c)
          m.notifications) [
            | some existing ↦
                let count = print.decimal (existing.unread_count + 1) in
                (
                  ok tt,
                  record m {
                    notifications =
                        increment_grouped existing.id (count ++ text " nouveaux messages")
                          (text "Vous avez " ++ count ++ text " messages non lus") now
                          m.notifications;
                  },
                )
            | none ↦ elim created.0 [
              | ok n ↦ (ok tt, record m { notifications = created.1; next_id = m.next_id + 1 })
              | err e ↦ (err e, m)
            ]
          ]

  unfoldable pub send_message : ℕ → MessageInput → Exec Mailbox ChatMessage
  send_message now input = do
    message ← create_message now input
    modify (λ m. record m { states = clear_hidden input.conversation_id m.states })
    participants ← gets (λ m. list_by_conversation input.conversation_id m.chat.participants)
    for_each (notify now message) (keep (λ u. not (u == input.sender_id)) participants)
    pure message

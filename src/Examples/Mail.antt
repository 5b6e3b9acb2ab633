-- ===== src/Examples/Mail.antt =====
-- The theorems on messages and notifications, in a group of three users of whom one has muted it.
use for_real_bank.Prelude.{
  keep, ℕ, ◌+◌, ◌≡◌, refl, sym, inl, inr, true, false, none, some, List, [], ◌∷◌, arith, ◌==◌,
  Bool-cases, get_elem?,
}
use for_real_bank.Prelude.Text.{text}
use for_real_bank.Effect.{ok}
use for_real_bank.Chat.{Participant, group_chat}
use for_real_bank.Notifications.{
  Notification, NotificationType, TargetType, count_unread, mark_as_read_by_target, conversation,
}
use for_real_bank.Notifications.Marks.{OnTarget, marked, mark_by_target_exact}
use for_real_bank.Messages.{Printing, ChatMessage, Mailbox, MessageInput, send_message}
use for_real_bank.Messages.Badges.{IsKeyed}
use for_real_bank.Messages.Sent.{badge_in}
use for_real_bank.Messages.Delivery.{
  IsStaffed, IsDelivered, send_message_delivers, run_messages, reaching, run_messages_badge,
}

-- Identifiers and numbers as texts of one code unit.
abbrev units : Printing
units = record { uuid = λ i. i ∷ []; decimal = λ n. n ∷ [] }

units_injective : (a b : ℕ) → units.uuid a ≡ units.uuid b → a ≡ b
units_injective a b h = ground arith

abbrev member : ℕ → Participant
member u = record { conversation_id = 50; user_id = u }

abbrev unread : Notification
unread = record {
  id = 70;
  user_id = 2;
  title = text "1 nouveau message";
  content = text "Vous avez reçu un nouveau message";
  type = NotificationType.message;
  target_type = some conversation;
  target_id = some (text "c");
  target_url = none;
  group_key = some (text "conversation:c news:7");
  oldest_unread_message_id = none;
  unread_count = 1;
  is_read = false;
  read_at = none;
  updated_at = 5;
}

abbrev mailbox : Mailbox
mailbox = record {
  users = 1 ∷ 2 ∷ 3 ∷ [];
  chat = record {
    conversations = record { id = 50; type = group_chat; name = some (text "Prêt") } ∷ [];
    participants = member 1 ∷ member 2 ∷ member 3 ∷ [];
  };
  messages = [];
  states = record { user_id = 2; conversation_id = 50; hidden_at = some 4 } ∷ [];
  settings = record { user_id = 3; conversation_id = 50; muted = true; muted_until = none } ∷ [];
  notifications = unread ∷ [];
  next_id = 80;
}

abbrev hello : MessageInput
hello = record { conversation_id = 50; sender_id = 1; content = text "Bonjour" }

abbrev answer : MessageInput
answer = record { conversation_id = 50; sender_id = 2; content = text "Bonsoir" }

mailbox-IsKeyed : IsKeyed mailbox.next_id mailbox.notifications
mailbox-IsKeyed = (omega arith, tt, tt)

mailbox-IsStaffed : (c : ℕ) → IsStaffed mailbox c
mailbox-IsStaffed c = elim (Bool-cases (50 == c)) [
  | inl here ↦
      (let same : 50 ≡ c = ground arith in
        rw (sym same)
          (record { known = (refl, (refl, (refl, tt))); unique = (refl, (refl, (refl, tt))) }))
  | inr elsewhere ↦ record { known = rw elsewhere tt; unique = rw elsewhere tt }
]

mark_by_target_exact_example :
    let (n, ns') = mark_as_read_by_target 2 TargetType.news (text "7") 100 mailbox.notifications in
    ((k : ℕ) (m : Notification)
      → get_elem? mailbox.notifications k ≡ some m
      → (m.user_id ≡ 2
          → m.is_read ≡ false
          → OnTarget TargetType.news (text "7") m
          → get_elem? ns' k ≡ some (marked 100 m))
        × (¬ (OnTarget TargetType.news (text "7") m) → get_elem? ns' k ≡ some m))
    × (count_unread 2 ns' + n ≡ 1)
    × ((v : ℕ)
        → (v == 2) ≡ false
        → keep (λ m. m.user_id == v) ns' ≡ keep (λ m. m.user_id == v) mailbox.notifications)
    × (mark_as_read_by_target 2 TargetType.news (text "7") 200 ns' ≡ (0, ns'))
mark_by_target_exact_example =
    mark_by_target_exact 2 TargetType.news (text "7") 100 200 mailbox.notifications

send_message_delivers_example :
    (message : ChatMessage) × ((send_message units 90 hello mailbox).0 ≡ ok message)
    × IsDelivered units units_injective 90 hello mailbox
        (send_message units 90 hello mailbox).1
        message
send_message_delivers_example =
    send_message_delivers units units_injective 90 hello mailbox mailbox-IsKeyed
      (mailbox-IsStaffed 50) refl

abbrev thread : List (ℕ × MessageInput)
thread = (90, hello) ∷ (91, answer) ∷ (92, hello) ∷ []

run_messages_badge_example :
    badge_in units units_injective 2 50 (run_messages units thread mailbox)
    ≡ badge_in units units_injective 2 50 mailbox + reaching 2 50 thread mailbox
run_messages_badge_example =
    run_messages_badge units units_injective 2 50 thread mailbox mailbox-IsKeyed mailbox-IsStaffed

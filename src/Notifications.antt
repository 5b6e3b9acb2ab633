-- ===== src/Notifications.antt =====
-- packages/infrastructure/typeorm/src/repositories/NotificationRepository.ts on the table of the notifications;
-- an identifier that the database or `uuid` draws is an argument, and so is the time.
pub mod Marks
use for_real_bank.Prelude.{
  find, any, keep, ℕ, zero, suc, ◌+◌, ◌-◌, ◌*◌, ◌≤◌, ◌<◌, ◌≡◌, refl, sym, ap, ◌∙◌, ◌≢◌, ◌↔◌, ◌⊎◌,
  inl, inr, Bool, true, false, not, ◌&&◌, ◌||◌, Option, none, some, List, [], ◌∷◌, ◌++◌, map, arith,
  ltb, leb, ◌==◌, if◌then◌else◌, length, Bool-cases, Option-cases, is_some,
}
use for_real_bank.Prelude.Text.{Text, text, text_eq}
use for_real_bank.Effect.{Result, ok, err, user_not_found, not_your_notification}

pub data NotificationType : Type 0 where
  message transaction security system payment account news : NotificationType

pub data TargetType : Type 0 where
  conversation message account transaction payment news url : TargetType

pub record Notification : Type 0 where
  pub id : ℕ
  pub user_id : ℕ
  pub title : Text
  pub content : Text
  pub type : NotificationType
  pub target_type : Option TargetType
  pub target_id : Option Text
  pub target_url : Option Text
  pub group_key : Option Text
  pub oldest_unread_message_id : Option ℕ
  pub unread_count : ℕ
  pub is_read : Bool
  pub read_at : Option ℕ
  pub updated_at : ℕ

-- `CreateNotificationParams`; a count that is missing is 1.
pub record NotificationParams : Type 0 where
  pub user_id : ℕ
  pub title : Text
  pub content : Text
  pub type : NotificationType
  pub target_type : Option TargetType
  pub target_id : Option Text
  pub target_url : Option Text
  pub group_key : Option Text
  pub oldest_unread_message_id : Option ℕ
  pub unread_count : Option ℕ

-- The place of a type in its enumeration.
abbrev pub type_number : NotificationType → ℕ
type_number NotificationType.message = 0
type_number NotificationType.transaction = 1
type_number security = 2
type_number system = 3
type_number NotificationType.payment = 4
type_number NotificationType.account = 5
type_number NotificationType.news = 6

abbrev pub target_number : TargetType → ℕ
target_number conversation = 0
target_number TargetType.message = 1
target_number TargetType.account = 2
target_number TargetType.transaction = 3
target_number TargetType.payment = 4
target_number TargetType.news = 5
target_number url = 6

-- `targetType.toLowerCase()`
abbrev pub target_word : TargetType → Text
target_word conversation = text "conversation"
target_word TargetType.message = text "message"
target_word TargetType.account = text "account"
target_word TargetType.transaction = text "transaction"
target_word TargetType.payment = text "payment"
target_word TargetType.news = text "news"
target_word url = text "url"

abbrev pub option_text_eq : Option Text → Text → Bool
option_text_eq none t = false
option_text_eq (some s) t = text_eq s t

abbrev count_or_one : Option ℕ → ℕ
count_or_one none = 1
count_or_one (some n) = n

abbrev pub row_of : ℕ → ℕ → NotificationParams → Notification
row_of new_id now p = record {
  id = new_id;
  user_id = p.user_id;
  title = p.title;
  content = p.content;
  type = p.type;
  target_type = p.target_type;
  target_id = p.target_id;
  target_url = p.target_url;
  group_key = p.group_key;
  oldest_unread_message_id = p.oldest_unread_message_id;
  unread_count = count_or_one p.unread_count;
  is_read = false;
  read_at = none;
  updated_at = now;
}

-- `create`, with the identifiers of the users.
unfoldable pub create_notification :
    List ℕ
    → ℕ
    → ℕ
    → NotificationParams
    → List Notification
    → Result Notification × List Notification
create_notification users new_id now p ns =
    if any (λ u. u == p.user_id) users
    then (let n = row_of new_id now p in (ok n, ns ++ n ∷ []))
    else (err user_not_found, ns)

abbrev pub is_unread_group : ℕ → NotificationType → Text → Notification → Bool
is_unread_group user_id type key n =
    n.user_id == user_id
    && (type_number n.type == type_number type && (option_text_eq n.group_key key && not n.is_read))

abbrev pub find_unread_by_group_key :
    ℕ → NotificationType → Text → List Notification → Option Notification
find_unread_by_group_key user_id type key = find (is_unread_group user_id type key)

abbrev pub increment_grouped : ℕ → Text → Text → ℕ → List Notification → List Notification
increment_grouped id title content now = map (λ n.
    if n.id == id
    then record n {
      title = title;
      content = content;
      unread_count = n.unread_count + 1;
      updated_at = now;
    }
    else n)

-- `SET is_read = true, read_at = now`, with the column of the update, on the unread rows of the user that fit.
abbrev pub set_read : (Notification → Bool) → ℕ → ℕ → List Notification → List Notification
set_read fits user_id now = map (λ n.
    if fits n && (n.user_id == user_id && not n.is_read)
    then record n { is_read = true; read_at = some now; updated_at = now }
    else n)

abbrev pub mark_as_read : ℕ → ℕ → ℕ → List Notification → List Notification
mark_as_read id = set_read (λ n. n.id == id)

-- The number of rows that an update touches.
abbrev pub affected : (Notification → Bool) → ℕ → List Notification → ℕ
affected fits user_id ns = length (keep (λ n. fits n && (n.user_id == user_id && not n.is_read)) ns)

unfoldable pub mark_all_as_read : ℕ → ℕ → List Notification → ℕ × List Notification
mark_all_as_read user_id now ns =
    (affected (λ n. true) user_id ns, set_read (λ n. true) user_id now ns)

-- `string_to_array(group_key, ' ')`; of an empty text it is the empty array.
abbrev prepend : ℕ → List Text → List Text
prepend c [] = (c ∷ []) ∷ []
prepend c (t ∷ ts) = (c ∷ t) ∷ ts

abbrev split_spaces : Text → List Text
split_spaces [] = [] ∷ []
split_spaces (c ∷ s) = let rest = split_spaces s in if c == b' ' then [] ∷ rest else prepend c rest

abbrev pub tokens : Option Text → List Text
tokens none = []
tokens (some []) = []
tokens (some (c ∷ s)) = split_spaces (c ∷ s)

abbrev pub targets : TargetType → Text → Notification → Bool
targets type id n =
    (elim n.target_type [ none ↦ false | some t ↦ target_number t == target_number type ]
      && option_text_eq n.target_id id)
    || any (text_eq (target_word type ++ text ":" ++ id)) (tokens n.group_key)

unfoldable pub mark_as_read_by_target :
    ℕ → TargetType → Text → ℕ → List Notification → ℕ × List Notification
mark_as_read_by_target user_id type id now ns =
    (affected (targets type id) user_id ns, set_read (targets type id) user_id now ns)

-- `countUnread`
abbrev pub count_unread : ℕ → List Notification → ℕ
count_unread user_id ns = length (keep (λ n. n.user_id == user_id && not n.is_read) ns)

unfoldable pub delete_by_id : ℕ → ℕ → List Notification → Result (Unit {0}) × List Notification
delete_by_id id user_id ns = elim (find (λ n. n.id == id) ns) [
  | none ↦ (ok tt, ns)
  | some n ↦
      (if n.user_id == user_id
        then (ok tt, keep (λ m. not (m.id == id)) ns)
        else (err not_your_notification, ns))
]

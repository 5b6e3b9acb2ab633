-- ===== src/Examples.antt =====
-- Concrete rows and implementations of the ports, on which the theorems are applied.
pub mod Money
pub mod Accounts
pub mod Advice
pub mod Clients
mod Trades
mod Mail
mod Payees
use for_real_bank.Prelude.{
  find, keep, ℕ, zero, suc, ◌+◌, ◌-◌, ◌*◌, ◌≤◌, ◌<◌, ◌≡◌, refl, sym, ap, ◌∙◌, ◌≢◌, ◌↔◌, ◌⊎◌, inl,
  inr, Bool, true, false, not, ◌&&◌, ◌||◌, Option, none, some, List, [], ◌∷◌, ◌++◌, map, arith, ltb,
  leb, ◌==◌, if◌then◌else◌, length, Bool-cases, Option-cases, is_some, find-holds,
}
use for_real_bank.Prelude.Text.{Text, text, text_eq, text_eq_iff}
use for_real_bank.User.{User, RoleName, client, advisor, director}
use for_real_bank.User.Token.{Token, mark_used}
use for_real_bank.User.Ports.{UserRepository, TokenRepository, row_of, mark_unused, IsUpdate}

pub find-keep :
    (i j : ℕ) (us : List User)
    → find (λ u. u.id == j) (keep (λ u. not (u.id == i)) us)
      ≡ (if i == j then none else find (λ u. u.id == j) us)
find-keep i j [] = ground arith
find-keep i j (u ∷ us) = ground (arith, find-keep i j us)

pub email-saved :
    (now : ℕ) (e : Text) (u v : User) (s : List User)
    → find (λ w. text_eq w.email e) s ≡ some u
    → IsUpdate u v
    → find (λ w. text_eq w.email e) (row_of now v ∷ s) ≡ some (row_of now v)
email-saved now e u v s h same =
    let held = find-holds (λ (w : User). text_eq w.email e) s u h in
    let held' : text_eq v.email e ≡ true = ap (λ t. text_eq t e) same.email ∙ held in rw held' refl

-- A table of users, the newest row first.
abbrev pub user_log : UserRepository
user_log = record {
  Store = List User;
  find_by_id = λ i s. find (λ u. u.id == i) s;
  find_by_email = λ e s. find (λ u. text_eq u.email e) s;
  save = λ now u s. row_of now u ∷ s;
  delete_by_id = λ i s. keep (λ u. not (u.id == i)) s;
  find_by_id-save = λ now i j u v s h same. refl;
  find_by_id-delete = find-keep;
  find_by_email-save = email-saved;
  id-find_by_id = λ i u s h. let held = find-holds (λ (w : User). w.id == i) s u h in ground arith;
}

abbrev mark_row : ℕ → ℕ → Token → Token
mark_row user_id at t =
    if t.user_id == user_id && not (is_some t.used_at) then mark_used at t else t

mark_row-hash : (user_id at : ℕ) (t : Token) → (mark_row user_id at t).token_hash ≡ t.token_hash
unfolding mark_used
mark_row-hash user_id at t = elim (Bool-cases (t.user_id == user_id && not (is_some t.used_at))) [
  | inl open' ↦ rw open' refl
  | inr done ↦ rw done refl
]

pub mark_rows :
    (user_id at : ℕ) (h : Text) (s : List Token)
    → find (λ t. text_eq t.token_hash h) (map (mark_row user_id at) s)
      ≡ mark_unused user_id at (find (λ t. text_eq t.token_hash h) s)
mark_rows user_id at h [] = refl
mark_rows user_id at h (t ∷ ts) =
    rw (mark_row-hash user_id at t) (elim (Bool-cases (text_eq t.token_hash h)) [
      | inl here ↦ rw here (elim (Bool-cases (t.user_id == user_id && not (is_some t.used_at))) [
        | inl open' ↦ rw open' refl
        | inr done ↦ rw done refl
      ])
      | inr there ↦ rw there (mark_rows user_id at h ts)
    ])

-- A table of tokens, the newest row first.
abbrev pub token_log : TokenRepository
token_log = record {
  Store = List Token;
  find_by_hash = λ h s. find (λ t. text_eq t.token_hash h) s;
  save = λ t s. t ∷ s;
  mark_user_tokens_used = λ user_id at s. map (mark_row user_id at) s;
  find_by_hash-save = λ t h s. refl;
  find_by_hash-mark = mark_rows;
  token_hash-find_by_hash = λ h t s e.
      (text_eq_iff t.token_hash h).0 (find-holds (λ (w : Token). text_eq w.token_hash h) s t e);
}

abbrev pub person : ℕ → RoleName → User
person i r = record {
  id = i;
  email = text "ada@example.org";
  password_hash = text "Secret";
  roles = r ∷ [];
  created_at = 0;
  updated_at = 0;
  first_name = text "Ada";
  last_name = text "Byron";
  last_login_at = none;
  email_verified = true;
  email_verified_at = none;
  is_banned = false;
  banned_at = none;
  ban_reason = none;
  failed_login_count = 0;
  lock_until = none;
  two_factor_secret = none;
  two_factor_enabled = false;
}

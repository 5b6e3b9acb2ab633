-- ===== src/Examples/Accounts.antt =====
-- The theorems on accounts: logins, resets, verifications, roles and bans.
use for_real_bank.Prelude.{
  ℕ, ◌≤◌, ◌<◌, ◌≡◌, refl, ◌≢◌, ◌↔◌, true, none, some, List, [], ◌∷◌, arith, length,
}
use for_real_bank.Prelude.Text.{Text, text, text_eq, trim}
use for_real_bank.Effect.{
  ok, err, account_locked, invalid_reset_token, invalid_email_verification_token,
}
use for_real_bank.User.{User, RoleName, client, admin, has_role, is_locked}
use for_real_bank.User.Token.{Token, is_usable}
use for_real_bank.User.Policy.{
  Party, rank, check_ban_permission, check_ban_permission_iff, is_strong_password,
  is_strong_password_iff, HasBetween, HasOther,
}
use for_real_bank.User.Login.{Credentials, AuthPorts, login}
use for_real_bank.User.Login.Guards.{IsAdmitted, login_ok_iff}
use for_real_bank.User.Login.BruteForce.{attempts, five_failures_lock}
use for_real_bank.User.Recovery.{Db, ResetPorts, reset_password, verify_email}
use for_real_bank.User.Recovery.SingleUse.{
  reset_kills_tokens, reset_changes_password, verify_email_once,
}
use for_real_bank.User.Admin.{update_user_roles, update_user_roles_exact, unique}
use for_real_bank.Examples.{user_log, token_log, person}

abbrev ports : AuthPorts
ports = record {
  compare = λ p h. text_eq p h;
  verify = λ s c. text_eq s c;
  sign = λ p. p.user_id ∷ p.expires_at ∷ [];
}

abbrev ada : User
ada = person 4 client

abbrev store : List User
store = ada ∷ []

abbrev given : Text → Credentials
given p = record { email = text "ada@example.org"; password = p; two_factor_code = none }

admitted : IsAdmitted ports 1000 (given (text "Secret")) ada
unfolding text_eq is_locked
admitted = record { unlocked = refl; password = refl; verified = refl; second_factor = tt }

login_ok_iff_example :
    ((token : Text) × ((login user_log ports 1000 5 (given (text "Secret")) store).0 ≡ ok token))
    ↔ ((u : User) × (user_log.find_by_email (text "ada@example.org") store ≡ some u)
        × IsAdmitted ports 1000 (given (text "Secret")) u)
login_ok_iff_example = login_ok_iff user_log ports 1000 5 (given (text "Secret")) store

abbrev boss : Party
boss = record { id = 1; roles = admin ∷ [] }

abbrev customer : Party
customer = record { id = 2; roles = client ∷ [] }

check_ban_permission_iff_example :
    (check_ban_permission boss customer ≡ none)
    ↔ ((boss.id ≢ customer.id) × (rank customer < rank boss))
check_ban_permission_iff_example = check_ban_permission_iff boss customer

is_strong_password_iff_example : (is_strong_password (text "Tr0ub4dor&3xyz") ≡ true) ↔ (
    (12 ≤ length (text "Tr0ub4dor&3xyz"))
    × HasBetween (text "Tr0ub4dor&3xyz") b'a' b'z'
    × HasBetween (text "Tr0ub4dor&3xyz") b'A' b'Z'
    × HasBetween (text "Tr0ub4dor&3xyz") b'0' b'9'
    × HasOther (text "Tr0ub4dor&3xyz"))
is_strong_password_iff_example = is_strong_password_iff (text "Tr0ub4dor&3xyz")

-- One failure before the lock.
abbrev careless : User
careless = record ada { failed_login_count = 4 }

five_failures_lock_example :
    let s' =
      (login user_log ports 5000 5 (given (text "guess")) (
        attempts user_log ports 5
          (given (text "guess"))
          (1000 ∷ 2000 ∷ 3000 ∷ 4000 ∷ [])
          store)).1 in
    login user_log ports 6000 6 (given (text "Secret")) s' ≡ (err account_locked, s')
unfolding text_eq
five_failures_lock_example =
    five_failures_lock user_log ports 5 (given (text "guess")) (1000 ∷ 2000 ∷ 3000 ∷ 4000 ∷ []) 5000
      ada store refl refl refl refl refl 6000 6 (text "Secret") none (omega arith)

abbrev reset_ports : ResetPorts user_log token_log
reset_ports = record { hash_token = λ t. t; hash_password = λ p. p; to_lower_case = λ t. t }

abbrev issued : Text → Token
issued hash = record {
  id = 30;
  user_id = 4;
  token_hash = hash;
  expires_at = 9000;
  created_at = 0;
  used_at = none;
}

abbrev db : Db user_log token_log
db = record { users = store; tokens = issued (text "t1") ∷ issued (text "t2") ∷ []; mails = [] }

abbrev strong : Text
strong = text "Tr0ub4dor&3xyz"

reset_kills_tokens_example :
    let db' = (reset_password user_log token_log reset_ports 1000 (text "t1") strong db).1 in
    reset_password user_log token_log reset_ports 2000 (text "t2") strong db'
    ≡ (err invalid_reset_token, db')
unfolding text_eq reset_password trim is_strong_password is_usable
reset_kills_tokens_example =
    reset_kills_tokens user_log token_log reset_ports 1000 (text "t1") strong db refl
      (issued (text "t1")) refl (text "t2") (issued (text "t2")) refl refl 2000 strong refl

reset_changes_password_example :
    (u : User) × (user_log.find_by_id 4
        (reset_password user_log token_log reset_ports 1000 (text "t1") strong db).1.users
      ≡ some u)
    × (u.password_hash ≡ strong)
    × (u.failed_login_count ≡ 0)
    × (u.lock_until ≡ none)
unfolding text_eq reset_password trim is_strong_password is_usable
reset_changes_password_example =
    reset_changes_password user_log token_log reset_ports 1000 (text "t1") strong db refl
      (issued (text "t1")) refl

verify_email_once_example :
    let db' = (verify_email user_log token_log reset_ports 1000 (text "t1") db).1 in
    (4 ≡ (issued (text "t1")).user_id)
    × ((u : User) × (user_log.find_by_id 4 db'.users ≡ some u) × (u.email_verified ≡ true))
    × ((later : ℕ)
        → verify_email user_log token_log reset_ports later (text "t1") db'
          ≡ (err invalid_email_verification_token, db'))
unfolding text_eq verify_email trim is_usable
verify_email_once_example =
    verify_email_once user_log token_log reset_ports 1000 (text "t1") 4 db refl (issued (text "t1"))
      refl

abbrev own_id : ℕ
own_id = 4

abbrev other_id : ℕ
other_id = 9

update_user_roles_exact_example :
    (u : User) × (user_log.find_by_id 4
        (update_user_roles user_log 1000 own_id own_id (admin ∷ client ∷ admin ∷ []) store).1
      ≡ some u)
    × ((q : RoleName) → has_role u.roles q ≡ has_role (admin ∷ client ∷ admin ∷ []) q)
    × (own_id ≡ own_id → has_role u.roles admin ≡ true)
unfolding update_user_roles has_role unique
update_user_roles_exact_example =
    update_user_roles_exact user_log 1000 own_id own_id (admin ∷ client ∷ admin ∷ []) store refl

-- ===== src/User/Ports.antt =====
-- The ports of packages/domain/src/user/ports that the use cases call, as records of operations. Their
-- laws are the documented behaviour of the tables behind them.
use for_real_bank.Prelude.{
  ℕ, ◌≡◌, Option, none, some, List, [], ◌∷◌, ◌&&◌, not, ◌==◌, is_some, if◌then◌else◌,
}
use for_real_bank.Prelude.Text.{Text, text_eq, trim}
use for_real_bank.User.{RoleName, client, User}
use for_real_bank.User.Token.{Token, mark_used}

abbrev pub effective_roles : List RoleName → List RoleName
effective_roles [] = client ∷ []
effective_roles (r ∷ rs) = r ∷ rs

-- What `UserRepository.save` leaves to be read again: a user with no role becomes a client, the names
-- are trimmed, and the column of the update is set by the database.
abbrev pub row_of : ℕ → User → User
row_of now u = record u {
  roles = effective_roles u.roles;
  first_name = trim u.first_name;
  last_name = trim u.last_name;
  updated_at = now;
}

-- An update of a stored user, with his names. `save` throws where a name is blank, and so no stored
-- name is blank, and no such update throws.
pub record IsUpdate (u v : User) : Type 0 where
  pub id : v.id ≡ u.id
  pub email : v.email ≡ u.email
  pub first_name : v.first_name ≡ u.first_name
  pub last_name : v.last_name ≡ u.last_name

pub record UserRepository : Type 1 where
  pub Store : Type 0
  pub find_by_id : ℕ → Store → Option User
  pub find_by_email : Text → Store → Option User
  pub save : ℕ → User → Store → Store
  pub delete_by_id : ℕ → Store → Store
  pub find_by_id-save :
      (now i j : ℕ) (u v : User) (s : Store)
      → find_by_id i s ≡ some u
      → IsUpdate u v
      → find_by_id j (save now v s) ≡ (if v.id == j then some (row_of now v) else find_by_id j s)
  pub find_by_id-delete :
      (i j : ℕ) (s : Store)
      → find_by_id j (delete_by_id i s) ≡ (if i == j then none else find_by_id j s)
  -- The update of a user found by the address is found by the address.
  pub find_by_email-save :
      (now : ℕ) (e : Text) (u v : User) (s : Store)
      → find_by_email e s ≡ some u
      → IsUpdate u v
      → find_by_email e (save now v s) ≡ some (row_of now v)
  -- The primary key finds what it is asked for.
  pub id-find_by_id : (i : ℕ) (u : User) (s : Store) → find_by_id i s ≡ some u → u.id ≡ i

abbrev pub mark_unused : ℕ → ℕ → Option Token → Option Token
mark_unused user_id at none = none
mark_unused user_id at (some t) =
    if t.user_id == user_id && not (is_some t.used_at) then some (mark_used at t) else some t

-- `IPasswordResetTokenRepository` and `IEmailVerificationTokenRepository`, which are alike.
pub record TokenRepository : Type 1 where
  pub Store : Type 0
  pub find_by_hash : Text → Store → Option Token
  pub save : Token → Store → Store
  pub mark_user_tokens_used : ℕ → ℕ → Store → Store
  pub find_by_hash-save :
      (t : Token) (h : Text) (s : Store)
      → find_by_hash h (save t s) ≡ (if text_eq t.token_hash h then some t else find_by_hash h s)
  pub find_by_hash-mark :
      (user_id at : ℕ) (h : Text) (s : Store)
      → find_by_hash h (mark_user_tokens_used user_id at s)
        ≡ mark_unused user_id at (find_by_hash h s)
  -- The hash finds what it is asked for.
  pub token_hash-find_by_hash :
      (h : Text) (t : Token) (s : Store) → find_by_hash h s ≡ some t → t.token_hash ≡ h

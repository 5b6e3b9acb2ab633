-- ===== src/User/Login/Forgiven.antt =====
-- What a successful login does to the failures before it.
use for_real_bank.Prelude.{ℕ, ◌≡◌, none, some}
use for_real_bank.User.Ports.{UserRepository}
use for_real_bank.User.Login.{Credentials, AuthPorts, User}

module _ (R : UserRepository) (P : AuthPorts) where
  -- The user of an address has failed `k` times, is not locked, and is `u` for a login.
  pub record IsOpen (input : Credentials) (u : User) (k : ℕ) (s : R.Store) : Type 0 where
    pub user : User
    pub found : R.find_by_email input.email s ≡ some user
    pub count : user.failed_login_count ≡ k
    pub unlocked : user.lock_until ≡ none
    pub id : user.id ≡ u.id
    pub password_hash : user.password_hash ≡ u.password_hash
    pub email_verified : user.email_verified ≡ u.email_verified
    pub enabled : user.two_factor_enabled ≡ u.two_factor_enabled
    pub secret : user.two_factor_secret ≡ u.two_factor_secret

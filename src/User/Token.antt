-- ===== src/User/Token.antt =====
-- packages/domain/src/user/PasswordResetToken.ts; EmailVerificationToken.ts is the same class under
-- another name.
use for_real_bank.Prelude.{ℕ, Bool, Option, some, ◌&&◌, not, ltb, is_some}
use for_real_bank.Prelude.Text.{Text}

pub record Token : Type 0 where
  pub id : ℕ
  pub user_id : ℕ
  pub token_hash : Text
  pub expires_at : ℕ
  pub created_at : ℕ
  pub used_at : Option ℕ

unfoldable pub is_usable : ℕ → Token → Bool
is_usable at t = not (is_some t.used_at) && ltb at t.expires_at

abbrev pub mark_used : ℕ → Token → Token
mark_used at t = record t { used_at = some at }

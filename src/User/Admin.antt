-- ===== src/User/Admin.antt =====
-- packages/application/src/user/usecases: BanUserUseCase, UnbanUserUseCase, DeleteOwnAccountUseCase,
-- DeleteUserByAdminUseCase and UpdateUserRolesUseCase.
use for_real_bank.Prelude.{
  ℕ, ◌≡◌, refl, ap, ◌∙◌, inl, inr, Bool, true, false, not, ◌&&◌, Option, some, List, [], ◌∷◌, arith,
  ◌==◌, if◌then◌else◌, Option-cases,
}
use for_real_bank.Prelude.Text.{Text}
use for_real_bank.Effect.{
  Exec, Result, ok, gets, or_throw, modify, throw_if, ◌>>=◌, ◌>>◌, user_not_found,
  forbidden_operation, invalid_role,
}
use for_real_bank.User.{RoleName, admin, role_eq, has_role, User, ban, unban, touch}
use for_real_bank.User.Ports.{UserRepository, row_of, effective_roles}

abbrev without : RoleName → List RoleName → List RoleName
without r [] = []
without r (q ∷ qs) = let rest = without r qs in if role_eq r q then rest else q ∷ rest

-- `Array.from(new Set(roles))`
unfoldable pub unique : List RoleName → List RoleName
unique [] = []
unique (r ∷ rs) = r ∷ without r (unique rs)

abbrev is_nil : List RoleName → Bool
is_nil [] = true
is_nil (r ∷ rs) = false

module _ (R : UserRepository) where
  abbrev require : ℕ → Exec R.Store User
  require id = do found ← gets (R.find_by_id id); or_throw found user_not_found

  unfoldable pub ban_user : ℕ → ℕ → Option Text → Exec R.Store (Unit {0})
  ban_user now target reason = do user ← require target; modify (R.save now (ban reason now user))

  unfoldable pub unban_user : ℕ → ℕ → Exec R.Store (Unit {0})
  unban_user now target = do user ← require target; modify (R.save now (unban now user))

  unfoldable pub delete_own_account : ℕ → Exec R.Store (Unit {0})
  delete_own_account user_id = do user ← require user_id; modify (R.delete_by_id user.id)

  unfoldable pub delete_user_by_admin : ℕ → ℕ → Exec R.Store (Unit {0})
  delete_user_by_admin acting target = do
    throw_if (target == acting) forbidden_operation
    user ← require target
    modify (R.delete_by_id target)

  unfoldable pub update_user_roles : ℕ → ℕ → ℕ → List RoleName → Exec R.Store (Unit {0})
  update_user_roles now acting target roles = do
    user ← require target
    throw_if (target == acting && not (has_role roles admin)) forbidden_operation
    throw_if (is_nil (unique roles)) invalid_role
    modify (R.save now (touch now (record user { roles = unique roles })))

has_role-without :
    (r q : RoleName) (rs : List RoleName)
    → has_role (without r rs) q ≡ (if role_eq r q then false else has_role rs q)
unfolding has_role
has_role-without r q [] = ground arith
has_role-without r q (p ∷ ps) = ground (arith, has_role-without r q ps)

-- The set of the roles is not changed by the removal of repetitions.
has_role-unique : (q : RoleName) (rs : List RoleName) → has_role (unique rs) q ≡ has_role rs q
unfolding has_role unique
has_role-unique q [] = refl
has_role-unique q (r ∷ rs) = ground (arith, has_role-unique q rs, has_role-without r q (unique rs))

module _ (R : UserRepository) where
  update_done :
      (now acting target : ℕ) (roles : List RoleName) (s : R.Store)
      → (update_user_roles R now acting target roles s).0 ≡ ok tt
      → (u : User) × (R.find_by_id target s ≡ some u)
        × ((target == acting && not (has_role roles admin)) ≡ false)
        × (is_nil (unique roles) ≡ false)
        × (update_user_roles R now acting target roles s
            ≡ (ok tt, R.save now (touch now (record u { roles = unique roles })) s))
  unfolding update_user_roles
  update_done now acting target roles s h = elim (Option-cases (R.find_by_id target s)) [
    | inl missing ↦ absurd (ground arith)
    | inr (u, found) ↦ (u, found, ground arith, ground arith, ground arith)
  ]

  effective_roles_lem : (rs : List RoleName) → is_nil rs ≡ false → effective_roles rs ≡ rs
  effective_roles_lem [] h = cc
  effective_roles_lem (r ∷ rs) h = refl

  -- A change of roles that succeeds leaves the account with exactly the roles that were asked for, and
  -- nobody takes the role of an admin from himself.
  pub update_user_roles_exact :
      (now acting target : ℕ) (roles : List RoleName) (s : R.Store)
      → (update_user_roles R now acting target roles s).0 ≡ ok tt
      → (u : User) × (R.find_by_id target (update_user_roles R now acting target roles s).1
          ≡ some u)
        × ((q : RoleName) → has_role u.roles q ≡ has_role roles q)
        × (target ≡ acting → has_role u.roles admin ≡ true)
  unfolding touch
  update_user_roles_exact now acting target roles s h =
      let (u, found, guard, some_role, e) = update_done now acting target roles s h in
      let v = touch now (record u { roles = unique roles }) in
      let same = effective_roles_lem (unique roles) some_role in
      let exact = λ (q : RoleName). ap (λ rs. has_role rs q) same ∙ has_role-unique q roles in
      (
        row_of now v,
        ap (λ (x : Result (Unit {0}) × R.Store). R.find_by_id target x.1) e
            ∙ ground (
              arith,
              R.find_by_id-save now target target u v s found
                  (record { id = refl; email = refl; first_name = refl; last_name = refl }),
              R.id-find_by_id target u s found,
            ),
        exact,
        λ self. exact admin ∙ ground arith,
      )

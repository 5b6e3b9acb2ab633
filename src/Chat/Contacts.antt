-- ===== src/Chat/Contacts.antt =====
-- packages/application/src/chat/usecases/ListContactableUsersUseCase.ts: with whom a user may open a private
-- conversation. `directory` is what `list` returns for its limit of 500; a `Map` by identifier is the list of
-- its values.
use for_real_bank.Prelude.{
  keep, any, ℕ, ◌≡◌, ◌⊎◌, Bool, true, false, not, ◌||◌, Option, none, some, List, [], ◌∷◌, map,
  ◌==◌, if◌then◌else◌,
}
use for_real_bank.User.{RoleName, User, has_role, client, advisor, director}
use for_real_bank.Advisors.{AdvisorClient, find_advisor_of, list_clients_of}
use for_real_bank.Chat.{find_by_ids}
use for_real_bank.Prelude.{find}

-- `byId.set(user.id, user)`
abbrev pub set_user : User → List User → List User
set_user u [] = u ∷ []
set_user u (w ∷ ws) = let rest = set_user u ws in if w.id == u.id then u ∷ ws else w ∷ rest

-- `for (const user of users) if (p(user)) byId.set(user.id, user)`
abbrev pub set_where : (User → Bool) → List User → List User → List User
set_where p [] m = m
set_where p (u ∷ us) m = set_where p us (if p u then set_user u m else m)

abbrev pub is_served : User → Bool
is_served u = has_role u.roles client || has_role u.roles advisor

abbrev pub is_staff : User → Bool
is_staff u = has_role u.roles advisor || has_role u.roles director

abbrev pub own_clients : ℕ → List AdvisorClient → List User → List User
own_clients i links users = find_by_ids (map (λ l. l.client_id) (list_clients_of i links)) users

-- The advisor of a client.
abbrev pub own_advisor : Option AdvisorClient → List User → Option User
own_advisor none users = none
own_advisor (some l) users = find (λ u. u.id == l.advisor_id) users

abbrev pub set_found : Option User → List User → List User
set_found none m = m
set_found (some u) m = set_user u m

unfoldable pub list_allowed_users :
    List User → List User → List AdvisorClient → ℕ → List RoleName → List User
list_allowed_users users directory links i roles =
    let m = if has_role roles director then set_where is_served directory [] else [] in
    let m' =
      if has_role roles advisor
      then set_where is_staff directory (set_where (λ u. true) (own_clients i links users) m)
      else m in
    let m'' =
      if has_role roles client
      then set_found (own_advisor (find_advisor_of i links) users) m'
      else m' in
    keep (λ u. not u.is_banned) (keep (λ u. not (u.id == i)) m'')

-- `isContactAllowed`
unfoldable pub is_contact_allowed :
    List User → List User → List AdvisorClient → ℕ → List RoleName → ℕ → Bool
unfolding list_allowed_users
is_contact_allowed users directory links i roles target =
    if target == i
    then false
    else any (λ u. u.id == target) (list_allowed_users users directory links i roles)

-- The four grounds on which a user may be written to.
abbrev pub MayContact :
    List User → List User → List AdvisorClient → ℕ → List RoleName → User → Type 0
MayContact users directory links i roles v =
    ((has_role roles director ≡ true) × (is_served v ≡ true))
    ⊎ (((has_role roles advisor ≡ true)
          × (any (λ l. l.client_id == v.id) (list_clients_of i links) ≡ true))
        ⊎ (((has_role roles advisor ≡ true) × (is_staff v ≡ true))
            ⊎ ((has_role roles client ≡ true)
                × ((l : AdvisorClient) × (find_advisor_of i links ≡ some l)
                    × (l.advisor_id ≡ v.id)))))

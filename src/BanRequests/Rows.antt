-- ===== src/BanRequests/Rows.antt =====
-- The rows of the ban requests by their identifiers, before and after an update.
use for_real_bank.Prelude.{
  ℕ, ◌≡◌, refl, inl, inr, Bool, true, Option, none, some, List, [], ◌∷◌, arith, ◌==◌, if◌then◌else◌,
  Bool-cases, Option-cases,
}
use for_real_bank.Effect.{ok, err, user_not_found}
use for_real_bank.Prelude.Text.{Text}
use for_real_bank.User.{User, ban}
use for_real_bank.User.Ports.{UserRepository}
use for_real_bank.User.Admin.{ban_user}
use for_real_bank.BanRequests.{BanRequest, find_request, update_request, first_where, claimable}

-- No two rows have one identifier.
abbrev pub IsKeyed : List BanRequest → Type 0
IsKeyed [] = Unit
IsKeyed (q ∷ qs) = (find_request q.id qs ≡ none) × IsKeyed qs

first_where-none :
    (i actor : ℕ) (qs : List BanRequest)
    → find_request i qs ≡ none
    → first_where (claimable i actor) qs ≡ none
unfolding find_request
first_where-none i actor [] h = refl
first_where-none i actor (q ∷ qs) h = ground (arith, first_where-none i actor qs)

pub first_where-claimable :
    (i actor : ℕ) (qs : List BanRequest) (q : BanRequest)
    → IsKeyed qs
    → find_request i qs ≡ some q
    → first_where (claimable i actor) qs ≡ (if claimable i actor q then some q else none)
unfolding find_request
first_where-claimable i actor [] q keyed h = ground arith
first_where-claimable i actor (p ∷ ps) q keyed h = elim (Bool-cases (p.id == i)) [
  | inl same ↦ ground (arith, first_where-none i actor ps)
  | inr other ↦ ground (arith, first_where-claimable i actor ps q)
]

pub find_request-id :
    (i : ℕ) (qs : List BanRequest) (q : BanRequest)
    → find_request i qs ≡ some q
    → (q.id == i) ≡ true
unfolding find_request
find_request-id i [] q h = ground arith
find_request-id i (p ∷ ps) q h = ground (arith, find_request-id i ps q)

abbrev pub changed :
    (BanRequest → Bool) → (BanRequest → BanRequest) → Option BanRequest → Option BanRequest
changed w f none = none
changed w f (some q) = some (if w q then f q else q)

pub find_request-update :
    (j : ℕ) (w : BanRequest → Bool) (f : BanRequest → BanRequest) (qs : List BanRequest)
    → ((q : BanRequest) → (f q).id ≡ q.id)
    → find_request j (update_request w f qs) ≡ changed w f (find_request j qs)
unfolding find_request
find_request-update j w f [] same = refl
find_request-update j w f (q ∷ qs) same = ground (arith, same q, find_request-update j w f qs same)

pub claim-found :
    (i actor : ℕ) (qs : List BanRequest) (q : BanRequest)
    → IsKeyed qs
    → first_where (claimable i actor) qs ≡ some q
    → (find_request i qs ≡ some q) × (claimable i actor q ≡ true)
claim-found i actor qs q keyed h = elim (Option-cases (find_request i qs)) [
  | inl out ↦ ground (arith, first_where-none i actor qs out)
  | inr (p, at) ↦ ground (arith, first_where-claimable i actor qs p keyed at)
]

pub ban_user-found :
    (R : UserRepository) (now t : ℕ) (reason : Option Text) (s : R.Store) (u : User)
    → R.find_by_id t s ≡ some u
    → ban_user R now t reason s ≡ (ok tt, R.save now (ban reason now u) s)
unfolding ban_user
ban_user-found R now t reason s u e = ground arith

pub ban_user-missing :
    (R : UserRepository) (now t : ℕ) (reason : Option Text) (s : R.Store)
    → R.find_by_id t s ≡ none
    → ban_user R now t reason s ≡ (err user_not_found, s)
unfolding ban_user
ban_user-missing R now t reason s e = ground arith

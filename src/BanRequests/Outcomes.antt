-- ===== src/BanRequests/Outcomes.antt =====
-- The outcomes of a decision, one for each way through it.
use for_real_bank.Prelude.{
  ℕ, ◌≡◌, refl, ap, ◌∙◌, inl, inr, Bool, true, false, Option, none, some, List, arith, ◌==◌,
  if◌then◌else◌, Bool-cases, Option-cases,
}
use for_real_bank.Effect.{ok, err, user_not_found, Error}
use for_real_bank.Prelude.Text.{Text}
use for_real_bank.User.{User, ban}
use for_real_bank.User.Ports.{UserRepository}
use for_real_bank.BanRequests.{
  BanRequest, BanRequestStatus, pending, accepted, rejected, is_pending, find_request,
  update_request, first_where, claimable, decided, reopened, refusal, accepted_reason, Db, decide,
  disconnect_user,
}
use for_real_bank.BanRequests.Rows.{
  IsKeyed, find_request-id, find_request-update, claim-found, ban_user-found, ban_user-missing,
}

module _ (R : UserRepository) (now i actor : ℕ) (comment : Option Text) (db : Db R) where
  abbrev pub claimed : Bool → List BanRequest
  claimed accept = update_request (claimable i actor) (decided now actor accept comment) db.requests

  pub decide_refused :
      (accept : Bool)
      → first_where (claimable i actor) db.requests ≡ none
      → decide R now i actor accept comment db ≡ (refusal (find_request i db.requests), db)
  unfolding decide
  decide_refused accept h = rw (h, decide) refl

  pub decide_rejected :
      (q : BanRequest)
      → first_where (claimable i actor) db.requests ≡ some q
      → decide R now i actor false comment db ≡ (
        ok rejected,
        record { requests = claimed false; users = db.users; connected = db.connected },
      )
  unfolding decide
  decide_rejected q h = rw (h, decide) refl

  pub decide_accepted :
      (q : BanRequest) (u : User)
      → first_where (claimable i actor) db.requests ≡ some q
      → R.find_by_id q.client_id db.users ≡ some u
      → decide R now i actor true comment db ≡ (
        ok accepted,
        record {
          requests = claimed true;
          users = R.save now (ban (some accepted_reason) now u) db.users;
          connected = disconnect_user q.client_id db.connected;
        },
      )
  unfolding decide
  decide_accepted q u h e =
      ground (arith, ban_user-found R now q.client_id (some accepted_reason) db.users u e)

  pub decide_unapplied :
      (q : BanRequest)
      → first_where (claimable i actor) db.requests ≡ some q
      → R.find_by_id q.client_id db.users ≡ none
      → decide R now i actor true comment db ≡ (
        err user_not_found,
        record {
          requests = update_request (λ p. p.id == i) (reopened now) (claimed true);
          users = db.users;
          connected = db.connected;
        },
      )
  unfolding decide
  decide_unapplied q h e =
      ground (arith, ban_user-missing R now q.client_id (some accepted_reason) db.users e)

-- An update that takes exactly the row found under `i` is read back under `i`, and nowhere else.
update-at :
    (i j : ℕ) (w : BanRequest → Bool) (f : BanRequest → BanRequest) (qs : List BanRequest)
    (q : BanRequest)
    → ((p : BanRequest) → (f p).id ≡ p.id)
    → ((p : BanRequest) → w p ≡ true → (p.id == i) ≡ true)
    → find_request i qs ≡ some q
    → w q ≡ true
    → find_request j (update_request w f qs) ≡ (if i == j then some (f q) else find_request j qs)
update-at i j w f qs q same only at wq = elim (Bool-cases (i == j)) [
  | inl e ↦ let e' : i ≡ j = ground arith in ground (arith, find_request-update j w f qs same)
  | inr n ↦ elim (Option-cases (find_request j qs)) [
    | inl out ↦ ground (arith, find_request-update j w f qs same)
    | inr (p, at') ↦
        let pj = find_request-id j qs p at' in
        elim (Bool-cases (w p)) [
          | inl wp ↦ ground (arith, only p wp)
          | inr out ↦ ground (arith, find_request-update j w f qs same)
        ]
  ]
]

module _ (now i actor : ℕ) (comment : Option Text) (qs : List BanRequest) (q : BanRequest)
    (keyed : IsKeyed qs) (at : first_where (claimable i actor) qs ≡ some q) where
  pub claimed-at :
      (accept : Bool) (j : ℕ)
      → find_request j (update_request (claimable i actor) (decided now actor accept comment) qs)
        ≡ (if i == j then some (decided now actor accept comment q) else find_request j qs)
  claimed-at accept j =
      let (at', c) = claim-found i actor qs q keyed at in
      update-at i j (claimable i actor) (decided now actor accept comment) qs q (λ p. refl)
        (λ p w. ground arith) at' c

  reopened-at :
      (j : ℕ)
      → find_request j (
          update_request
            (λ p. p.id == i)
            (reopened now)
            (update_request (claimable i actor) (decided now actor true comment) qs))
        ≡ (if i == j
            then some (reopened now (decided now actor true comment q))
            else find_request j qs)
  reopened-at j =
      let (at', c) = claim-found i actor qs q keyed at in
      let after = update_request (claimable i actor) (decided now actor true comment) qs in
      let d = decided now actor true comment q in
      let step : find_request j (update_request (λ p. p.id == i) (reopened now) after)
          ≡ (if i == j then some (reopened now d) else find_request j after) =
        update-at i j (λ p. p.id == i) (reopened now) after d (λ p. refl) (λ p w. w)
          (ground (arith, claimed-at true i)) (find_request-id i qs q at') in
      ground (arith, claimed-at true j)

abbrev pub row_status : Option BanRequest → Option BanRequestStatus
row_status none = none
row_status (some q) = some q.status

-- The status of a request, by its identifier.
abbrev pub status_at : ℕ → List BanRequest → Option BanRequestStatus
status_at j qs = row_status (find_request j qs)

is_pending-eq : (t : BanRequestStatus) → is_pending t ≡ true → t ≡ pending
is_pending-eq pending h = refl
is_pending-eq accepted h = ground arith
is_pending-eq rejected h = ground arith

pub claimable-status :
    (i actor : ℕ) (q : BanRequest)
    → claimable i actor q ≡ true
    → (q.status ≡ pending) × (q.assigned_director_id ≡ actor)
claimable-status i actor q c = (is_pending-eq q.status (ground arith), ground arith)

reopened-status :
    (now i actor j : ℕ) (comment : Option Text) (qs : List BanRequest) (q : BanRequest)
    → IsKeyed qs
    → first_where (claimable i actor) qs ≡ some q
    → status_at j (
        update_request
          (λ p. p.id == i)
          (reopened now)
          (update_request (claimable i actor) (decided now actor true comment) qs))
      ≡ status_at j qs
reopened-status now i actor j comment qs q keyed at =
    let (at', c) = claim-found i actor qs q keyed at in
    let (waiting, _) = claimable-status i actor q c in
    ap row_status (reopened-at now i actor comment qs q keyed at j) ∙ (elim (Bool-cases (i == j)) [
      | inl e ↦ let e' : i ≡ j = ground arith in ground arith
      | inr n ↦ rw n refl
    ])

pub claimed_error :
    (R : UserRepository) (now i actor j : ℕ) (accept : Bool) (comment : Option Text) (db : Db R)
    (e : Error) (q : BanRequest)
    → IsKeyed db.requests
    → first_where (claimable i actor) db.requests ≡ some q
    → (decide R now i actor accept comment db).0 ≡ err e
    → (status_at j (decide R now i actor accept comment db).1.requests ≡ status_at j db.requests)
      × ((decide R now i actor accept comment db).1.users ≡ db.users)
claimed_error R now i actor j false comment db e q keyed at h =
    ground (arith, decide_rejected R now i actor comment db q at)
claimed_error R now i actor j true comment db e q keyed at h =
    elim (Option-cases (R.find_by_id q.client_id db.users)) [
      | inl missing ↦ (
        ap (λ x. status_at j x.1.requests) (decide_unapplied R now i actor comment db q at missing)
            ∙ reopened-status now i actor j comment db.requests q keyed at,
        ap (λ x. x.1.users) (decide_unapplied R now i actor comment db q at missing),
      )
      | inr (u, found) ↦ ground (arith, decide_accepted R now i actor comment db q u at found)
    ]

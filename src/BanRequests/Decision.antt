-- ===== src/BanRequests/Decision.antt =====
-- Who decides a ban request, once, and with what effect.
use for_real_bank.Prelude.{
  ℕ, ◌≡◌, refl, sym, ap, ◌∙◌, ◌≢◌, ◌↔◌, inl, inr, Bool, true, false, Option, none, some, List, [],
  ◌∷◌, arith, ◌==◌, if◌then◌else◌, Option-cases, not, ◌&&◌, includes,
}
use for_real_bank.Effect.{ok, err, already_processed, Error}
use for_real_bank.Prelude.Text.{Text, text, trim, is_empty}
use for_real_bank.User.{User, ban, touch}
use for_real_bank.User.Ports.{UserRepository}
use for_real_bank.BanRequests.{
  BanRequest, BanRequestStatus, pending, is_pending, status_of, find_request, update_request,
  first_where, claimable, decided, refusal, accepted_reason, Db, decide, disconnect_user, accepted,
  rejected,
}
use for_real_bank.BanRequests.Rows.{
  IsKeyed, first_where-claimable, find_request-id, find_request-update, claim-found,
}
use for_real_bank.BanRequests.Outcomes.{
  decide_refused, decide_rejected, decide_accepted, decide_unapplied, claimed-at, status_at,
  claimable-status, claimed_error,
}

-- Where the identifiers of the requests are unique, a decision that throws leaves the status of
-- every request and every user as they were, also where the ban of the client fails after the
-- claim.
pub decide_error_keeps :
    (R : UserRepository) (now i actor j : ℕ) (accept : Bool) (comment : Option Text) (db : Db R)
    (e : Error)
    → IsKeyed db.requests
    → (decide R now i actor accept comment db).0 ≡ err e
    → (status_at j (decide R now i actor accept comment db).1.requests ≡ status_at j db.requests)
      × ((decide R now i actor accept comment db).1.users ≡ db.users)
decide_error_keeps R now i actor j accept comment db e keyed h =
    elim (Option-cases (first_where (claimable i actor) db.requests)) [
      | inl out ↦ rw (decide_refused R now i actor comment db accept out) (refl, refl)
      | inr (q, at) ↦ claimed_error R now i actor j accept comment db e q keyed at h
    ]

refusal-ne-ok : (o : Option BanRequest) (t : BanRequestStatus) → refusal o ≢ ok t
refusal-ne-ok none t h = ground arith
refusal-ne-ok (some q) t h = ground arith

claim_won :
    (i actor : ℕ) (qs : List BanRequest) (q : BanRequest)
    → IsKeyed qs
    → find_request i qs ≡ some q
    → q.status ≡ pending
    → q.assigned_director_id ≡ actor
    → first_where (claimable i actor) qs ≡ some q
claim_won i actor qs q keyed at waiting own =
    ground (arith, first_where-claimable i actor qs q keyed at, find_request-id i qs q at)

client_found :
    (R : UserRepository) (now i actor : ℕ) (accept : Bool) (comment : Option Text) (db : Db R)
    (q : BanRequest)
    → first_where (claimable i actor) db.requests ≡ some q
    → (decide R now i actor accept comment db).0 ≡ ok (status_of accept)
    → accept ≡ true
    → (u : User) × (R.find_by_id q.client_id db.users ≡ some u)
client_found R now i actor false comment db q at h agreed = ground arith
client_found R now i actor true comment db q at h agreed =
    elim (Option-cases (R.find_by_id q.client_id db.users)) [
      | inl missing ↦ ground (arith, decide_unapplied R now i actor comment db q at missing)
      | inr found ↦ found
    ]

claim_of_ok :
    (R : UserRepository) (now i actor : ℕ) (accept : Bool) (comment : Option Text) (db : Db R)
    → (decide R now i actor accept comment db).0 ≡ ok (status_of accept)
    → (q : BanRequest) × (first_where (claimable i actor) db.requests ≡ some q)
claim_of_ok R now i actor accept comment db h =
    elim (Option-cases (first_where (claimable i actor) db.requests)) [
      | inl out ↦ absurd (
          refusal-ne-ok (find_request i db.requests) (status_of accept)
            (sym (ap (λ x. x.0) (decide_refused R now i actor comment db accept out)) ∙ h))
      | inr found ↦ found
    ]

decide_done :
    (R : UserRepository) (now i actor : ℕ) (accept : Bool) (comment : Option Text) (db : Db R)
    (q : BanRequest)
    → first_where (claimable i actor) db.requests ≡ some q
    → (accept ≡ true → R.find_by_id q.client_id db.users ≢ none)
    → (decide R now i actor accept comment db).0 ≡ ok (status_of accept)
decide_done R now i actor false comment db q at client =
    ground (arith, decide_rejected R now i actor comment db q at)
decide_done R now i actor true comment db q at client =
    elim (Option-cases (R.find_by_id q.client_id db.users)) [
      | inl missing ↦ absurd (client refl missing)
      | inr (u, found) ↦ ground (arith, decide_accepted R now i actor comment db q u at found)
    ]

-- Where the identifiers of the requests are unique, a decision is made exactly by the director to
-- whom the request is assigned, while it is pending and, for an acceptance, where its client
-- exists.
pub decide_ok_iff :
    (R : UserRepository) (now i actor : ℕ) (accept : Bool) (comment : Option Text) (db : Db R)
    → IsKeyed db.requests
    → ((decide R now i actor accept comment db).0 ≡ ok (status_of accept)) ↔ (
        (q : BanRequest) × (find_request i db.requests ≡ some q)
        × (q.status ≡ pending)
        × (q.assigned_director_id ≡ actor)
        × (accept ≡ true → R.find_by_id q.client_id db.users ≢ none))
decide_ok_iff R now i actor accept comment db keyed = (
  λ h.
      let (q, at) = claim_of_ok R now i actor accept comment db h in
      let (at', c) = claim-found i actor db.requests q keyed at in
      let (waiting, own) = claimable-status i actor q c in
      (
        q,
        at',
        waiting,
        own,
        λ agreed missing.
            let (u, found) = client_found R now i actor accept comment db q at h agreed in cc,
      ),
  λ (q, at, waiting, own, client).
      decide_done R now i actor accept comment db q
        (claim_won i actor db.requests q keyed at waiting own) client,
)

decide_rows :
    (R : UserRepository) (now i actor : ℕ) (accept : Bool) (comment : Option Text) (db : Db R)
    (q : BanRequest)
    → first_where (claimable i actor) db.requests ≡ some q
    → (decide R now i actor accept comment db).0 ≡ ok (status_of accept)
    → (decide R now i actor accept comment db).1.requests
      ≡ update_request (claimable i actor) (decided now actor accept comment) db.requests
decide_rows R now i actor false comment db q at h =
    ap (λ x. x.1.requests) (decide_rejected R now i actor comment db q at)
decide_rows R now i actor true comment db q at h =
    let (u, found) = client_found R now i actor true comment db q at h refl in
    ap (λ x. x.1.requests) (decide_accepted R now i actor comment db q u at found)

decide_rejects :
    (R : UserRepository) (now i actor : ℕ) (accept : Bool) (comment : Option Text) (db : Db R)
    (q : BanRequest)
    → first_where (claimable i actor) db.requests ≡ some q
    → accept ≡ false
    → let db' = (decide R now i actor accept comment db).1 in
      (db'.users ≡ db.users) × (db'.connected ≡ db.connected)
decide_rejects R now i actor false comment db q at denied =
    let e = decide_rejected R now i actor comment db q at in
    (ap (λ x. x.1.users) e, ap (λ x. x.1.connected) e)
decide_rejects R now i actor true comment db q at denied = ground arith

-- The row of a user who is banned by an accepted request.
abbrev banned_row : ℕ → User → User
banned_row now u = record u {
  is_banned = true;
  banned_at = some now;
  ban_reason = some (text "BAN_REQUEST_ACCEPTED");
  updated_at = now;
}

ban_lem : (now : ℕ) (u : User) → ban (some accepted_reason) now u ≡ banned_row now u
unfolding ban touch
ban_lem now u = refl

includes-disconnect :
    (i u : ℕ) (us : List ℕ) → includes (disconnect_user i us) u ≡ includes us u && not (u == i)
includes-disconnect i u [] = refl
includes-disconnect i u (x ∷ us) = ground (arith, includes-disconnect i u us)

decide_accepts :
    (R : UserRepository) (now i actor : ℕ) (accept : Bool) (comment : Option Text) (db : Db R)
    (q : BanRequest)
    → first_where (claimable i actor) db.requests ≡ some q
    → (decide R now i actor accept comment db).0 ≡ ok (status_of accept)
    → accept ≡ true
    → let db' = (decide R now i actor accept comment db).1 in
      ((u : User) × (R.find_by_id q.client_id db.users ≡ some u)
        × (db'.users ≡ R.save now (banned_row now u) db.users))
      × ((v : ℕ) → includes db'.connected v ≡ includes db.connected v && not (v == q.client_id))
decide_accepts R now i actor false comment db q at h agreed = ground arith
decide_accepts R now i actor true comment db q at h agreed =
    let (u, found) = client_found R now i actor true comment db q at h refl in
    let e = decide_accepted R now i actor comment db q u at found in
    (
      (u, found, ap (λ x. x.1.users) e ∙ ap (λ w. R.save now w db.users) (ban_lem now u)),
      λ v. ap (λ x. includes x.1.connected v) e ∙ includes-disconnect q.client_id v db.connected,
    )

-- The row of a request that is decided.
abbrev decided_row : ℕ → ℕ → Bool → Option Text → BanRequest → BanRequest
decided_row now actor accept comment q = record q {
  status = if accept then accepted else rejected;
  decision_comment = elim comment [
    | none ↦ none
    | some c ↦ if is_empty (trim c) then none else some (trim c)
  ];
  processed_at = some now;
  processed_by_id = some actor;
  updated_at = now;
}

decided_lem :
    (now actor : ℕ) (accept : Bool) (comment : Option Text) (q : BanRequest)
    → decided now actor accept comment q ≡ decided_row now actor accept comment q
decided_lem now actor true none q = refl
decided_lem now actor true (some c) q = refl
decided_lem now actor false none q = refl
decided_lem now actor false (some c) q = refl

-- A request that is decided is claimed by nobody.
claim_lost :
    (i actor : ℕ) (qs : List BanRequest) (q : BanRequest)
    → find_request i qs ≡ some q
    → is_pending q.status ≡ false
    → IsKeyed qs
    → first_where (claimable i actor) qs ≡ none
claim_lost i actor qs q at done keyed = ground (arith, first_where-claimable i actor qs q keyed at)

IsKeyed-update :
    (w : BanRequest → Bool) (f : BanRequest → BanRequest) (qs : List BanRequest)
    → ((p : BanRequest) → (f p).id ≡ p.id)
    → IsKeyed qs
    → IsKeyed (update_request w f qs)
IsKeyed-update w f [] same h = tt
IsKeyed-update w f (q ∷ qs) same h = (
  ground (arith, same q, find_request-update (if w q then f q else q).id w f qs same),
  IsKeyed-update w f qs same h.1,
)

decided-processed :
    (now actor : ℕ) (accept : Bool) (comment : Option Text) (q : BanRequest)
    → is_pending (decided now actor accept comment q).status ≡ false
decided-processed now actor true comment q = refl
decided-processed now actor false comment q = refl

decided_again :
    (R : UserRepository) (now i actor : ℕ) (accept : Bool) (comment : Option Text) (db : Db R)
    (q : BanRequest)
    → IsKeyed db.requests
    → find_request i db.requests ≡ some q
    → is_pending q.status ≡ false
    → decide R now i actor accept comment db ≡ (err already_processed, db)
decided_again R now i actor accept comment db q keyed at done =
    decide_refused R now i actor comment db accept (claim_lost i actor db.requests q at done keyed)
    ∙ ap (λ r. (r, db)) (rw at (rw done refl))

-- Where the identifiers of the requests are unique, a decision that is made is written to its
-- request, with the decider, the time and the trimmed comment, and to no other. An acceptance saves
-- the client as banned, and nothing else, in the table of the users, and ends the sessions of the
-- client and no others; a rejection changes no user and ends no session. Whoever decides the same
-- request again is told that it is processed, with nothing changed.
pub decide_once :
    (R : UserRepository) (now i actor : ℕ) (accept : Bool) (comment : Option Text) (db : Db R)
    → IsKeyed db.requests
    → (q : BanRequest) → find_request i db.requests ≡ some q
    → (decide R now i actor accept comment db).0 ≡ ok (status_of accept)
    → let db' = (decide R now i actor accept comment db).1 in
      ((j : ℕ)
        → find_request j db'.requests ≡ (
            if i == j
            then some (record q {
              status = if accept then accepted else rejected;
              decision_comment = elim comment [
                | none ↦ none
                | some c ↦ if is_empty (trim c) then none else some (trim c)
              ];
              processed_at = some now;
              processed_by_id = some actor;
              updated_at = now;
            })
            else find_request j db.requests))
      × (accept ≡ false → (db'.users ≡ db.users) × (db'.connected ≡ db.connected))
      × (accept ≡ true
          → ((u : User) × (R.find_by_id q.client_id db.users ≡ some u)
              × (db'.users
                  ≡ R.save now
                      (record u {
                        is_banned = true;
                        banned_at = some now;
                        ban_reason = some (text "BAN_REQUEST_ACCEPTED");
                        updated_at = now;
                      })
                      db.users))
            × ((v : ℕ)
                → includes db'.connected v ≡ includes db.connected v && not (v == q.client_id)))
      × ((now' actor' : ℕ) (accept' : Bool) (comment' : Option Text)
          → decide R now' i actor' accept' comment' db' ≡ (err already_processed, db'))
decide_once R now i actor accept comment db keyed q found h =
    let (p, at) = claim_of_ok R now i actor accept comment db h in
    let (at', c) = claim-found i actor db.requests p keyed at in
    let same : p ≡ q = cc in
    let at'' : first_where (claimable i actor) db.requests ≡ some q = cc in
    let rows = decide_rows R now i actor accept comment db q at'' h in
    let written : (j : ℕ)
        → find_request j (decide R now i actor accept comment db).1.requests ≡ (
            if i == j
            then some (decided now actor accept comment q)
            else find_request j db.requests) =
      λ j.
        ap (find_request j) rows
        ∙ claimed-at now i actor comment db.requests q keyed at'' accept j in
    (
      λ j.
          written j
          ∙ ap (λ p. if i == j then some p else find_request j db.requests)
              (decided_lem now actor accept comment q),
      decide_rejects R now i actor accept comment db q at'',
      decide_accepts R now i actor accept comment db q at'' h,
      λ now' actor' accept' comment'.
          decided_again R now' i actor' accept' comment' (decide R now i actor accept comment db).1
            (decided now actor accept comment q)
            (rw rows (
              IsKeyed-update (claimable i actor) (decided now actor accept comment) db.requests
                (λ p. refl) keyed))
            (written i ∙ ground arith) (decided-processed now actor accept comment q),
    )

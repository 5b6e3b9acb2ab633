-- ===== src/BanRequests.antt =====
-- apps/api-nest/src/interface/users-management/ban-requests.service.ts: the table of the ban requests,
-- the choice of a director and the decision. The primary key is unique.
pub mod Rows
pub mod Outcomes
pub mod Decision
pub mod Assignment
use for_real_bank.Prelude.{
  ℕ, zero, suc, ◌+◌, ◌-◌, ◌*◌, ◌≤◌, ◌<◌, ◌≡◌, refl, sym, ap, ◌∙◌, ◌≢◌, ◌↔◌, ◌⊎◌, inl, inr, Bool,
  true, false, not, ◌&&◌, ◌||◌, Option, none, some, List, [], ◌∷◌, ◌++◌, map, arith, ltb, leb, ◌==◌,
  if◌then◌else◌, length, Bool-cases, Option-cases, is_some, keep,
}
use for_real_bank.Effect.{
  Exec, Result, ok, err, ban_request_not_found, already_processed, not_assigned_director,
}
use for_real_bank.Prelude.Text.{Text, text, trim, is_empty}
use for_real_bank.User.{User, has_role, director}
use for_real_bank.User.Ports.{UserRepository}
use for_real_bank.User.Admin.{ban_user}
use for_real_bank.LeastLoaded.{Candidate, pick_least_loaded_id}

pub data BanRequestStatus : Type 0 where
  pending accepted rejected : BanRequestStatus

pub record BanRequest : Type 0 where
  pub id : ℕ
  pub client_id : ℕ
  pub advisor_requester_id : ℕ
  pub assigned_director_id : ℕ
  pub reason : Text
  pub status : BanRequestStatus
  pub conversation_id : Option ℕ
  pub message_id : Option ℕ
  pub decision_comment : Option Text
  pub processed_at : Option ℕ
  pub processed_by_id : Option ℕ
  pub updated_at : ℕ

abbrev pub is_pending : BanRequestStatus → Bool
is_pending pending = true
is_pending accepted = false
is_pending rejected = false

abbrev pub status_of : Bool → BanRequestStatus
status_of true = accepted
status_of false = rejected

-- `banRequests.findOne({ where: { id } })`
unfoldable pub find_request : ℕ → List BanRequest → Option BanRequest
find_request i [] = none
find_request i (q ∷ qs) = if q.id == i then some q else find_request i qs

-- `UPDATE … SET … WHERE id = i AND w`, with the first row it returns.
abbrev pub update_request :
    (BanRequest → Bool) → (BanRequest → BanRequest) → List BanRequest → List BanRequest
update_request w f [] = []
update_request w f (q ∷ qs) = (if w q then f q else q) ∷ update_request w f qs

abbrev pub first_where : (BanRequest → Bool) → List BanRequest → Option BanRequest
first_where w [] = none
first_where w (q ∷ qs) = if w q then some q else first_where w qs

-- `(comment ?? '').trim() || null`
abbrev pub comment_of : Option Text → Option Text
comment_of none = none
comment_of (some c) = if is_empty (trim c) then none else some (trim c)

-- The guard of the claim.
abbrev pub claimable : ℕ → ℕ → BanRequest → Bool
claimable i actor q = q.id == i && is_pending q.status && q.assigned_director_id == actor

-- What the claim writes.
abbrev pub decided : ℕ → ℕ → Bool → Option Text → BanRequest → BanRequest
decided now actor accept comment q = record q {
  status = status_of accept;
  decision_comment = comment_of comment;
  processed_at = some now;
  processed_by_id = some actor;
  updated_at = now;
}

-- What a ban that fails leaves.
abbrev pub reopened : ℕ → BanRequest → BanRequest
reopened now q = record q {
  status = pending;
  decision_comment = none;
  processed_at = none;
  processed_by_id = none;
  updated_at = now;
}

-- The three refusals of a claim that took no row.
abbrev pub refusal : Option BanRequest → Result BanRequestStatus
refusal none = err ban_request_not_found
refusal (some q) =
    if not (is_pending q.status) then err already_processed else err not_assigned_director

-- `COUNT(br.id) FILTER (WHERE br.status = 'PENDING')` of one director.
unfoldable pub pending_of : ℕ → List BanRequest → ℕ
pending_of d [] = 0
pending_of d (q ∷ qs) =
    let rest = pending_of d qs in
    if q.assigned_director_id == d && is_pending q.status then suc rest else rest

-- The users of the query: directors who are not banned.
abbrev pub is_active_director : User → Bool
is_active_director u = has_role u.roles director && not u.is_banned

-- A row of the query for each of them, with the number of his pending requests.
abbrev pub loads : List User → List BanRequest → List Candidate
loads [] qs = []
loads (u ∷ us) qs = record { id = u.id; count = pending_of u.id qs } ∷ loads us qs

-- `pickAssignedDirector`, on the table of the users.
unfoldable pub pick_assigned_director : (ℕ → ℕ) → List User → List BanRequest → Option ℕ
pick_assigned_director draw users qs =
    pick_least_loaded_id draw (loads (keep is_active_director users) qs)

-- `disconnectUser`, on the users of the open sockets.
abbrev pub disconnect_user : ℕ → List ℕ → List ℕ
disconnect_user i = keep (λ u. not (u == i))

-- `BAN_REQUEST_ACCEPTED`
abbrev pub accepted_reason : Text
accepted_reason = text "BAN_REQUEST_ACCEPTED"

module _ (R : UserRepository) where
  pub record Db : Type 0 where
    pub requests : List BanRequest
    pub users : R.Store
    pub connected : List ℕ

  -- The ban of the client of a claimed request, the end of his sessions, and the `catch` that
  -- reopens the request.
  abbrev apply_ban : ℕ → ℕ → BanRequest → Exec Db BanRequestStatus
  apply_ban now i q db =
      let (r, users') = ban_user R now q.client_id (some accepted_reason) db.users in
      elim r [
        | ok _ ↦ (
          ok accepted,
          record {
            requests = db.requests;
            users = users';
            connected = disconnect_user q.client_id db.connected;
          },
        )
        | err e ↦ (
          err e,
          record {
            requests = update_request (λ p. p.id == i) (reopened now) db.requests;
            users = users';
            connected = db.connected;
          },
        )
      ]

  -- `BanRequestsService.decide`, without its best-effort notice.
  unfoldable pub decide : ℕ → ℕ → ℕ → Bool → Option Text → Exec Db BanRequestStatus
  decide now i actor accept comment db = elim (first_where (claimable i actor) db.requests) [
    | none ↦ (refusal (find_request i db.requests), db)
    | some q ↦
        let db' : Db = record {
          requests =
              update_request (claimable i actor) (decided now actor accept comment) db.requests;
          users = db.users;
          connected = db.connected;
        } in
        if accept
        then apply_ban now i (decided now actor accept comment q) db'
        else (ok rejected, db')
  ]

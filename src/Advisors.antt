-- ===== src/Advisors.antt =====
-- packages/infrastructure/typeorm/src/repositories/AdvisorClientRepository.ts and the core of
-- apps/api-nest/src/interface/users-management/advisor-reassignment.service.ts: which advisor a client
-- has, and the change of it. The table has a unique index on the client.
pub mod Replace
use for_real_bank.Prelude.{
  keep, ℕ, zero, suc, ◌+◌, ◌-◌, ◌*◌, ◌≤◌, ◌<◌, ◌≡◌, refl, sym, ap, ◌∙◌, ◌≢◌, ◌↔◌, ◌⊎◌, inl, inr,
  Bool, true, false, not, ◌&&◌, ◌||◌, Option, none, some, List, [], ◌∷◌, ◌++◌, map, arith, ltb, leb,
  ◌==◌, if◌then◌else◌, length, Bool-cases, Option-cases, is_some,
}
use for_real_bank.Effect.{
  Result, ok, err, Exec, client_not_found, target_not_advisor, advisor_banned, advisor_unchanged,
}
use for_real_bank.User.{User, has_role, client, advisor}
use for_real_bank.LeastLoaded.{Candidate}

pub record AdvisorClient : Type 0 where
  pub id : ℕ
  pub advisor_id : ℕ
  pub client_id : ℕ

-- A row of the audit of the changes.
pub record Change : Type 0 where
  pub changed_client : ℕ
  pub old_advisor_id : Option ℕ
  pub new_advisor_id : ℕ
  pub changed_by : ℕ

pub record Advisors : Type 0 where
  pub links : List AdvisorClient
  pub history : List Change

-- `findAdvisorOf`
unfoldable pub find_advisor_of : ℕ → List AdvisorClient → Option AdvisorClient
find_advisor_of c [] = none
find_advisor_of c (l ∷ ls) = if l.client_id == c then some l else find_advisor_of c ls

unfoldable pub list_clients_of : ℕ → List AdvisorClient → List AdvisorClient
list_clients_of a ls = keep (λ l. l.advisor_id == a) ls

-- `SELECT advisor_id, COUNT(*) … GROUP BY advisor_id`, at one advisor; an advisor with no row counts 0.
unfoldable pub count_of : ℕ → List AdvisorClient → ℕ
count_of a [] = 0
count_of a (l ∷ ls) = if l.advisor_id == a then suc (count_of a ls) else count_of a ls

-- `countByAdvisorIds`, in the order of the identifiers.
unfoldable pub count_by_advisor_ids : List ℕ → List AdvisorClient → List Candidate
unfolding count_of
count_by_advisor_ids [] ls = []
count_by_advisor_ids (a ∷ as') ls =
    record { id = a; count = count_of a ls } ∷ count_by_advisor_ids as' ls

abbrev pub advisor_id_of : Option AdvisorClient → Option ℕ
advisor_id_of none = none
advisor_id_of (some l) = some l.advisor_id

abbrev pub is_same : Option ℕ → ℕ → Bool
is_same none a = false
is_same (some b) a = b == a

-- `DELETE FROM advisor_clients WHERE client_id = c`
abbrev pub without_client : ℕ → List AdvisorClient → List AdvisorClient
without_client c ls = keep (λ l. not (l.client_id == c)) ls

-- The body of the transaction of `replaceAdvisor`, which throws before it writes. `new_id` is the
-- identifier drawn for the link.
unfoldable pub replace_advisor : ℕ → ℕ → ℕ → ℕ → Exec Advisors (Option ℕ)
unfolding find_advisor_of
replace_advisor new_id client_id new_advisor_id changed_by db =
    let old = advisor_id_of (find_advisor_of client_id db.links) in
    if is_same old new_advisor_id then (err advisor_unchanged, db) else (
      ok old,
      record {
        links =
            without_client client_id db.links
            ++ record { id = new_id; advisor_id = new_advisor_id; client_id = client_id } ∷ [];
        history =
            db.history
            ++ record {
              changed_client = client_id;
              old_advisor_id = old;
              new_advisor_id = new_advisor_id;
              changed_by = changed_by;
            }
              ∷ [];
      },
    )

abbrev pub is_client : Option User → Bool
is_client none = false
is_client (some u) = has_role u.roles client

abbrev pub is_advisor : Option User → Bool
is_advisor none = false
is_advisor (some u) = has_role u.roles advisor

abbrev pub is_banned_user : Option User → Bool
is_banned_user none = false
is_banned_user (some u) = u.is_banned

-- `AdvisorReassignmentService.reassign`, without its best-effort notices. `find_user` is
-- `users.findById`.
unfoldable pub reassign : (ℕ → Option User) → ℕ → ℕ → ℕ → ℕ → Exec Advisors (Option ℕ)
unfolding replace_advisor
reassign find_user new_id actor_id client_id new_advisor_id db =
    if not (is_client (find_user client_id))
    then (err client_not_found, db)
    else if not (is_advisor (find_user new_advisor_id))
    then (err target_not_advisor, db)
    else if is_banned_user (find_user new_advisor_id)
    then (err advisor_banned, db)
    else replace_advisor new_id client_id new_advisor_id actor_id db

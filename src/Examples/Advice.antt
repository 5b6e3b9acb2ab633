-- ===== src/Examples/Advice.antt =====
-- The theorems on the choice of an advisor, on the reassignment of clients and on the ban requests.
use for_real_bank.Prelude.{
  get_elem?, ℕ, ◌≤◌, ◌≡◌, refl, ◌≢◌, ◌↔◌, Bool, true, false, Option, none, some, List, [], ◌∷◌,
  ◌==◌, if◌then◌else◌, not, ◌&&◌, includes,
}
use for_real_bank.Prelude.Text.{Text, text}
use for_real_bank.Effect.{ok, err, user_not_found, already_processed}
use for_real_bank.User.{User, client, advisor, has_role}
use for_real_bank.LeastLoaded.{Candidate, pick_least_loaded_id, pick_least_loaded_id_least}
use for_real_bank.Advisors.{
  is_client, AdvisorClient, Advisors, find_advisor_of, reassign, replace_advisor,
}
use for_real_bank.Advisors.Replace.{reassign_exact, IsUnique}
use for_real_bank.BanRequests.{
  Db, BanRequest, pending, status_of, find_request, decide, pending_of, pick_assigned_director,
  accepted,
}
use for_real_bank.BanRequests.Rows.{IsKeyed}
use for_real_bank.BanRequests.Outcomes.{status_at}
use for_real_bank.BanRequests.Decision.{decide_error_keeps, decide_ok_iff, decide_once}
use for_real_bank.BanRequests.Assignment.{pick_assigned_director_least}
use for_real_bank.User.Admin.{ban_user}
use for_real_bank.Examples.{user_log, person, director}

abbrev candidates : List Candidate
candidates =
    record { id = 10; count = 3 }
    ∷ record { id = 11; count = 1 }
    ∷ record { id = 12; count = 1 }
    ∷ []

pick_least_loaded_id_least_example :
    (j : ℕ) × (c : Candidate) × (get_elem? candidates j ≡ some c)
    × (c.id ≡ 12)
    × ((k : ℕ) (d : Candidate) → get_elem? candidates k ≡ some d → c.count ≤ d.count)
unfolding pick_least_loaded_id
pick_least_loaded_id_least_example = pick_least_loaded_id_least (λ n. 1) candidates 12 refl

abbrev request : BanRequest
request = record {
  id = 30;
  client_id = 4;
  advisor_requester_id = 10;
  assigned_director_id = 20;
  reason = text "Fraud";
  status = pending;
  conversation_id = none;
  message_id = none;
  decision_comment = none;
  processed_at = none;
  processed_by_id = none;
  updated_at = 0;
}

-- Director 20, who has the request, director 21, who has none, and client 4.
abbrev staff : List User
staff = person 20 director ∷ person 21 director ∷ person 4 client ∷ []

pick_assigned_director_least_example :
    ((d : ℕ)
      → pick_assigned_director (λ n. 0) staff (request ∷ []) ≡ some d
      → ((k : ℕ) × (u : User) × (get_elem? staff k ≡ some u)
          × (u.id ≡ d)
          × (has_role u.roles director ≡ true)
          × (u.is_banned ≡ false))
        × ((k : ℕ) (e : User)
            → get_elem? staff k ≡ some e
            → has_role e.roles director ≡ true
            → e.is_banned ≡ false
            → pending_of d (request ∷ []) ≤ pending_of e.id (request ∷ [])))
    × (pick_assigned_director (λ n. 0) staff (request ∷ []) ≡ none
        → (k : ℕ) (e : User) → get_elem? staff k ≡ some e
        → (has_role e.roles director && not e.is_banned) ≡ false)
pick_assigned_director_least_example = pick_assigned_director_least (λ n. 0) staff (request ∷ [])

abbrev ban_db : Db user_log
ban_db = record { requests = request ∷ []; users = person 4 client ∷ []; connected = 4 ∷ 20 ∷ [] }

-- The client of the request is not there any more.
abbrev orphan_db : Db user_log
orphan_db = record { requests = request ∷ []; users = []; connected = [] }

request-IsKeyed : IsKeyed (request ∷ [])
unfolding find_request
request-IsKeyed = (refl, tt)

decide_error_keeps_example :
    (status_at 30 (decide user_log 700 30 20 true none orphan_db).1.requests
      ≡ status_at 30 orphan_db.requests)
    × ((decide user_log 700 30 20 true none orphan_db).1.users ≡ orphan_db.users)
unfolding decide find_request ban_user
decide_error_keeps_example =
    decide_error_keeps user_log 700 30 20 30 true none orphan_db user_not_found request-IsKeyed refl

decide_ok_iff_example : ((decide user_log 700 30 20 true none ban_db).0 ≡ ok (status_of true)) ↔ (
    (q : BanRequest) × (find_request 30 ban_db.requests ≡ some q)
    × (q.status ≡ pending)
    × (q.assigned_director_id ≡ 20)
    × (true ≡ true → user_log.find_by_id q.client_id ban_db.users ≢ none))
decide_ok_iff_example = decide_ok_iff user_log 700 30 20 true none ban_db request-IsKeyed

decide_once_example :
    let db' = (decide user_log 700 30 20 true none ban_db).1 in
    ((j : ℕ)
      → find_request j db'.requests ≡ (
          if 30 == j
          then some (record request {
            status = accepted;
            decision_comment = none;
            processed_at = some 700;
            processed_by_id = some 20;
            updated_at = 700;
          })
          else find_request j ban_db.requests))
    × (true ≡ false → (db'.users ≡ ban_db.users) × (db'.connected ≡ ban_db.connected))
    × (true ≡ true
        → ((u : User) × (user_log.find_by_id 4 ban_db.users ≡ some u)
            × (db'.users
                ≡ user_log.save 700
                    (record u {
                      is_banned = true;
                      banned_at = some 700;
                      ban_reason = some (text "BAN_REQUEST_ACCEPTED");
                      updated_at = 700;
                    })
                    ban_db.users))
          × ((v : ℕ) → includes db'.connected v ≡ includes ban_db.connected v && not (v == 4)))
    × ((now' actor' : ℕ) (accept' : Bool) (comment' : Option Text)
        → decide user_log now' 30 actor' accept' comment' db' ≡ (err already_processed, db'))
unfolding decide find_request ban_user
decide_once_example =
    decide_once user_log 700 30 20 true none ban_db request-IsKeyed request refl refl

-- Client 4 has advisor 10, and gets advisor 11.
abbrev pub advice : Advisors
advice = record { links = record { id = 1; advisor_id = 10; client_id = 4 } ∷ []; history = [] }

abbrev pub find_user : ℕ → Option User
find_user i = if i == 4 then some (person 4 client) else some (person i advisor)

abbrev pub previous : Option ℕ
previous = some 10

pub advice-IsUnique : IsUnique advice.links
unfolding find_advisor_of
advice-IsUnique = (refl, tt)

reassign_exact_example :
    let db' = (reassign find_user 2 21 4 11 advice).1 in
    (is_client (find_user 4) ≡ true)
    × ((a : User) × (find_user 11 ≡ some a)
        × (has_role a.roles advisor ≡ true)
        × (a.is_banned ≡ false))
    × (previous ≢ some 11)
    × ((l : AdvisorClient) × (find_advisor_of 4 db'.links ≡ some l) × (l.advisor_id ≡ 11))
    × ((c : ℕ) → c ≢ 4 → find_advisor_of c db'.links ≡ find_advisor_of c advice.links)
    × IsUnique db'.links
    × (db'.history
        ≡ record {
          changed_client = 4;
          old_advisor_id = some 10;
          new_advisor_id = 11;
          changed_by = 21;
        }
          ∷ [])
unfolding reassign replace_advisor find_advisor_of has_role
reassign_exact_example = reassign_exact find_user 2 21 4 11 previous advice advice-IsUnique refl

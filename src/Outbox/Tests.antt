-- ===== src/Outbox/Tests.antt =====
-- The outbox worker on small inputs.
use node_nexus_api.Prelude.{
  str_eq, Bool, false, ℕ, ◌+◌, ◌≤◌, ◌<◌, String, Bool, true, false, Option, none, some, List, [],
  ◌∷◌, ◌≡◌, refl, arith, All, min, count_if,
}
use node_nexus_api.Dict.{Dict, contains, get, put}
use node_nexus_api.Outbox.{
  pending, completed, failed, null, text, other, Payload, Event, AuditLog, is_selected,
  to_audit_log, savepoint, backoff, deliver, run_rows, run_once,
}
use node_nexus_api.Outbox.Delivery.{IsConsistent, deliver_exact, is_deliverable}
use node_nexus_api.Outbox.Batches.{total_attempts, completed_rows, run_once_lem}

runs : Unit {0}
unfolding contains get put to_audit_log savepoint backoff deliver run_rows run_once
runs = tt

abbrev uuid : String → Option String
uuid s = some s

abbrev known : String → Bool
known s = true

abbrev unlocked : String → Bool
unlocked id = false

abbrev working : String → Option String
working id = none

abbrev good : Payload
good = record { node_id = text "n1"; action = text "execute"; user = null; details = null }

abbrev bad : Payload
bad = record { node_id = null; action = other; user = null; details = null }

abbrev row : String → Payload → ℕ → Event
row id payload attempts = record {
  id = id;
  payload = payload;
  status = pending;
  attempts = attempts;
  next_attempt_at = 0;
  last_error_type = none;
  delivered_at = none;
}

abbrev table : List Event
table = row "e1" good 0 ∷ row "e2" bad 4 ∷ row "e3" bad 2 ∷ row "e4" good 0 ∷ []

abbrev no_log : Dict AuditLog
no_log = []

run_once-table : (run_once uuid known 5 3 100 unlocked working no_log table).2 ≡ 1
unfolding runs
run_once-table = refl

-- Another worker has the first row.
run_once-locked : (run_once uuid known 5 1 100 (str_eq "e1") working no_log table).2 ≡ 0
unfolding runs
run_once-locked = refl

-- The third row waits 4 seconds after its third attempt.
run_once-waits :
    (run_once uuid known 5 1 100 unlocked working no_log (row "e3" bad 2 ∷ [])).1
    ≡ record (row "e3" bad 3) { next_attempt_at = 104; last_error_type = some "ValueError" } ∷ []
unfolding runs
run_once-waits = refl

fresh-IsConsistent : (e : Event) → e.status ≡ pending → e.attempts < 5 → IsConsistent 5 no_log e
fresh-IsConsistent e p h = record {
  spare = λ _. h;
  spent = λ q. absurd (cc (p, q));
  logged = λ q. absurd (cc (p, q));
}

run_once_lem_example :
    All
      (IsConsistent 5 (run_once uuid known 5 3 100 unlocked working no_log table).0)
      (run_once uuid known 5 3 100 unlocked working no_log table).1
    × ((k : String)
        → contains no_log k ≡ true
        → get (run_once uuid known 5 3 100 unlocked working no_log table).0 k ≡ get no_log k)
    × (total_attempts (run_once uuid known 5 3 100 unlocked working no_log table).1
        ≡ total_attempts table + min 3 (count_if (is_selected unlocked 100) table))
    × (completed_rows (run_once uuid known 5 3 100 unlocked working no_log table).1
        ≡ completed_rows table + (run_once uuid known 5 3 100 unlocked working no_log table).2)
run_once_lem_example = run_once_lem uuid known 5 3 100 unlocked working no_log table (
  fresh-IsConsistent (row "e1" good 0) refl (omega arith),
  (
    fresh-IsConsistent (row "e2" bad 4) refl (omega arith),
    (
      fresh-IsConsistent (row "e3" bad 2) refl (omega arith),
      (fresh-IsConsistent (row "e4" good 0) refl (omega arith), tt),
    ),
  ),
)

deliver_exact_example :
    (is_deliverable uuid known no_log (row "e2" bad 4) none ≡ true
      → ((deliver uuid known 5 no_log (row "e2" bad 4) 100 none).1.status ≡ completed)
        × ((deliver uuid known 5 no_log (row "e2" bad 4) 100 none).2 ≡ true)
        × (contains (deliver uuid known 5 no_log (row "e2" bad 4) 100 none).0 "e2" ≡ true))
    × (is_deliverable uuid known no_log (row "e2" bad 4) none ≡ false
        → ((deliver uuid known 5 no_log (row "e2" bad 4) 100 none).0 ≡ no_log)
          × ((deliver uuid known 5 no_log (row "e2" bad 4) 100 none).2 ≡ false)
          × (5 ≤ 5 → (deliver uuid known 5 no_log (row "e2" bad 4) 100 none).1.status ≡ failed)
          × (5 < 5
              → ((deliver uuid known 5 no_log (row "e2" bad 4) 100 none).1.status ≡ pending)
                × (100 < (deliver uuid known 5 no_log (row "e2" bad 4) 100 none).1.next_attempt_at)
                × ((deliver uuid known 5 no_log (row "e2" bad 4) 100 none).1.next_attempt_at
                    ≤ 400)))
deliver_exact_example = deliver_exact uuid known 5 no_log (row "e2" bad 4) 100 none

-- ===== src/Outbox/Batches.antt =====
-- A batch of deliveries.
use node_nexus_api.Prelude.{
  ℕ, zero, suc, ◌+◌, ◌≤◌, ◌<◌, String, Bool, true, false, Option, List, [], ◌∷◌, ◌≡◌, refl, ◌∙◌,
  arith, leb, Bool-cases, leb→le, inl, inr, All, &&-eq-true, count_if, min,
}
use node_nexus_api.Dict.{Dict, contains, get}
use node_nexus_api.Outbox.{
  Status, pending, processing, completed, failed, is_pending, is_selected, Event, AuditLog, deliver,
  run_rows, run_once,
}
use node_nexus_api.Outbox.Delivery.{
  IsConsistent, is_deliverable, deliver_counts, deliver_exact, deliver_keeps, deliver-IsConsistent,
}

abbrev pub is_completed : Status → Bool
is_completed completed = true
is_completed _ = false

is_pending-eq : (s : Status) → is_pending s ≡ true → s ≡ pending
is_pending-eq pending h = refl
is_pending-eq processing h = cc
is_pending-eq completed h = cc
is_pending-eq failed h = cc

abbrev pub total_attempts : List Event → ℕ
total_attempts [] = 0
total_attempts (event ∷ events) = event.attempts + total_attempts events

abbrev pub completed_rows : List Event → ℕ
completed_rows events = count_if (λ e. is_completed e.status) events

module _ (parse_uuid : String → Option String) (node_exists : String → Bool) (max_attempts now : ℕ)
    (locked : String → Bool) (flush : String → Option String) where
  abbrev rows : ℕ → Dict AuditLog → List Event → Dict AuditLog × List Event × ℕ
  rows = run_rows parse_uuid node_exists max_attempts now locked flush

  abbrev Consistent : Dict AuditLog → List Event → Type 0
  Consistent log = All (IsConsistent max_attempts log)

  abbrev delivered : Dict AuditLog → Event → Dict AuditLog × Event × Bool
  delivered log event = deliver parse_uuid node_exists max_attempts log event now (flush event.id)

  -- The log only grows.
  run_rows_keeps :
      (room : ℕ) (log : Dict AuditLog) (events : List Event) (k : String)
      → contains log k ≡ true
      → (contains (rows room log events).0 k ≡ true) × (get (rows room log events).0 k ≡ get log k)
  unfolding run_rows
  run_rows_keeps room log [] k h = (h, refl)
  run_rows_keeps zero log (event ∷ events) k h = (h, refl)
  run_rows_keeps (suc room) log (event ∷ events) k h =
      elim (Bool-cases (is_selected locked now event)) [
        | inr idle ↦ rw (idle, run_rows) (run_rows_keeps (suc room) log events k h)
        | inl due ↦
            let (a, b) =
              deliver_keeps parse_uuid node_exists max_attempts log event now (flush event.id) k
                h in
            let (c, d) = run_rows_keeps room (delivered log event).0 events k a in
            rw (due, run_rows) (c, d ∙ b)
      ]

  still :
      (log log' : Dict AuditLog) (event : Event)
      → ((k : String) → contains log k ≡ true → contains log' k ≡ true)
      → IsConsistent max_attempts log event
      → IsConsistent max_attempts log' event
  still log log' event more h = record {
    spare = h.spare;
    spent = h.spent;
    logged = λ p. more event.id (h.logged p);
  }

  Consistent-later :
      (log log' : Dict AuditLog) (events : List Event)
      → ((k : String) → contains log k ≡ true → contains log' k ≡ true)
      → Consistent log events
      → Consistent log' events
  Consistent-later log log' [] more h = tt
  Consistent-later log log' (event ∷ events) more h =
      (still log log' event more h.0, Consistent-later log log' events more h.1)

  run_rows-Consistent :
      (room : ℕ) (log : Dict AuditLog) (events : List Event)
      → Consistent log events
      → Consistent (rows room log events).0 (rows room log events).1
  unfolding run_rows
  run_rows-Consistent room log [] h = tt
  run_rows-Consistent zero log (event ∷ events) h = h
  run_rows-Consistent (suc room) log (event ∷ events) h =
      elim (Bool-cases (is_selected locked now event)) [
        | inr idle ↦
            let ih = run_rows-Consistent (suc room) log events h.1 in
            let old = still log _ event (λ k c. (run_rows_keeps (suc room) log events k c).0) h.0 in
            rw (idle, run_rows) (old, ih)
        | inl due ↦
            let log₁ = (delivered log event).0 in
            let waiting = is_pending-eq event.status (&&-eq-true _ _ (&&-eq-true _ _ due).0).0 in
            let rest =
              Consistent-later log log₁ events
                (λ k c.
                  (deliver_keeps parse_uuid node_exists max_attempts log event now (flush event.id)
                    k c).0)
                h.1 in
            let ih = run_rows-Consistent room log₁ events rest in
            let new =
              still log₁ _ (delivered log event).1 (λ k c. (run_rows_keeps room log₁ events k c).0)
                (deliver-IsConsistent parse_uuid node_exists max_attempts log event now
                  (flush event.id) waiting) in
            rw (due, run_rows) (new, ih)
      ]

  delivered_row :
      (log : Dict AuditLog) (event : Event)
      → event.status ≡ pending
      → is_completed (delivered log event).1.status ≡ (delivered log event).2
  delivered_row log event waiting =
      let (done, undone) =
        deliver_exact parse_uuid node_exists max_attempts log event now (flush event.id) in
      elim (Bool-cases (is_deliverable parse_uuid node_exists log event (flush event.id))) [
        | inl ok ↦ let (a, b, c) = done ok in ground (arith, a, b)
        | inr bad ↦
            let (a, b, c, d) = undone bad in
            elim (Bool-cases (leb max_attempts (event.attempts + 1))) [
              | inl last ↦ let f = c (leb→le max_attempts _ last) in ground (arith, b, f)
              | inr more ↦
                  let room : event.attempts + 1 < max_attempts = ground arith in
                  let same = (d room).0 in ground (arith, b, same, waiting)
            ]
      ]

  run_rows-counts :
      (room : ℕ) (log : Dict AuditLog) (events : List Event)
      → (total_attempts (rows room log events).1
          ≡ total_attempts events + min room (count_if (is_selected locked now) events))
        × (completed_rows (rows room log events).1
            ≡ completed_rows events + (rows room log events).2)
        × ((rows room log events).2 ≤ room)
  unfolding run_rows
  run_rows-counts room log [] = (omega arith, omega arith, omega arith)
  run_rows-counts zero log (event ∷ events) = (omega arith, omega arith, omega arith)
  run_rows-counts (suc room) log (event ∷ events) =
      elim (Bool-cases (is_selected locked now event)) [
        | inr idle ↦
            let (a, b, c) = run_rows-counts (suc room) log events in
            rw (idle, run_rows) (omega (arith, a), ground (arith, b), c)
        | inl due ↦
            let waiting = is_pending-eq event.status (&&-eq-true _ _ (&&-eq-true _ _ due).0).0 in
            let (a, b, c) = run_rows-counts room (delivered log event).0 events in
            let one =
              (deliver_counts parse_uuid node_exists max_attempts log event now
                (flush event.id)).1 in
            rw (due, run_rows)
              (
                omega (arith, a, one),
                ground (arith, b, delivered_row log event waiting, waiting),
                ground (arith, c),
              )
      ]

-- One `run_once`, whatever the payloads, the nodes and the database do: the rows stay consistent with the log (a pending row has attempts left, a failed one has none, a completed one is in the log); no entry of the log is lost or changed; exactly as many attempts are made as there are due rows that no other worker has locked, up to the batch size; and the number returned is that of the rows that became completed.
pub run_once_lem :
    (parse_uuid : String → Option String) (node_exists : String → Bool)
    (max_attempts batch_size now : ℕ) (locked : String → Bool) (flush : String → Option String)
    (log : Dict AuditLog) (events : List Event)
    → All (IsConsistent max_attempts log) events
    → All
        (IsConsistent max_attempts
          (run_once parse_uuid node_exists max_attempts batch_size now locked flush log events).0)
        (run_once parse_uuid node_exists max_attempts batch_size now locked flush log events).1
      × ((k : String)
          → contains log k ≡ true
          → get
              (run_once parse_uuid node_exists max_attempts batch_size now locked flush log
                events).0
              k
            ≡ get log k)
      × (total_attempts
            (run_once parse_uuid node_exists max_attempts batch_size now locked flush log events).1
          ≡ total_attempts events + min batch_size (count_if (is_selected locked now) events))
      × (completed_rows
            (run_once parse_uuid node_exists max_attempts batch_size now locked flush log events).1
          ≡ completed_rows events
            + (run_once parse_uuid node_exists max_attempts batch_size now locked flush log
                events).2)
unfolding run_once
run_once_lem parse_uuid node_exists max_attempts batch_size now locked flush log events h = (
  run_rows-Consistent parse_uuid node_exists max_attempts now locked flush batch_size log events h,
  λ k c.
      (run_rows_keeps parse_uuid node_exists max_attempts now locked flush batch_size log events k
        c).1,
  (run_rows-counts parse_uuid node_exists max_attempts now locked flush batch_size log events).0,
  (run_rows-counts parse_uuid node_exists max_attempts now locked flush batch_size log events).1,
)

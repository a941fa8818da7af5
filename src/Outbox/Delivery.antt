-- ===== src/Outbox/Delivery.antt =====
-- One delivery attempt.
use node_nexus_api.Prelude.{
  ℕ, ◌+◌, ◌-◌, ◌≤◌, ◌<◌, String, Bool, true, false, Option, none, some, ◌≡◌, refl, ◌∙◌, ◌||◌, arith,
  leb, Bool-cases, leb→le, inl, inr, str_eq, eq_iff,
}
use node_nexus_api.Dict.{Dict, contains, get, get-put}
use native.Mathlib.Nat.{one-le-pow}
use node_nexus_api.Dict.Sizes.{contains-put_self, contains-put}
use node_nexus_api.Outbox.{
  pending, completed, failed, Event, AuditLog, Conversion, converted, raises, to_audit_log,
  insert_converted, savepoint, backoff, after_savepoint, deliver,
}

-- The rows of the outbox and the log agree: a pending row has attempts left, a failed one has used
-- them all, and a completed one is in the log.
pub record IsConsistent (max_attempts : ℕ) (log : Dict AuditLog) (event : Event) : Type 0 where
  pub spare : event.status ≡ pending → event.attempts < max_attempts
  pub spent : event.status ≡ failed → max_attempts ≤ event.attempts
  pub logged : event.status ≡ completed → contains log event.id ≡ true

backoff_range : (attempts : ℕ) → (1 ≤ backoff attempts) × (backoff attempts ≤ 300)
unfolding backoff
backoff_range attempts = omega (arith, one-le-pow (attempts - 1) 2 (omega arith))

module _ (parse_uuid : String → Option String) (node_exists : String → Bool) where
  -- Whether the delivery succeeds: the event is in the log, or its payload converts and the database
  -- takes it.
  abbrev pub is_accepted : Conversion → Option String → Bool
  is_accepted (converted entry) none = true
  is_accepted _ _ = false

  abbrev pub is_deliverable : Dict AuditLog → Event → Option String → Bool
  is_deliverable log event flush =
      contains log event.id || is_accepted (to_audit_log parse_uuid node_exists event.payload) flush

  abbrev savepoint_event : Dict AuditLog → Event → Option String → Dict AuditLog × Option String
  savepoint_event = savepoint parse_uuid node_exists

  inserted :
      (log : Dict AuditLog) (id : String) (flush : Option String) (c : Conversion)
      → (is_accepted c flush ≡ true
          → ((insert_converted log id flush c).1 ≡ none)
            × (contains (insert_converted log id flush c).0 id ≡ true))
        × (is_accepted c flush ≡ false
            → (e : String) × (insert_converted log id flush c ≡ (log, some e)))
        × ((k : String)
            → contains log k ≡ true
            → contains (insert_converted log id flush c).0 k ≡ true)
        × ((k : String)
            → str_eq id k ≡ false
            → get (insert_converted log id flush c).0 k ≡ get log k)
  inserted log id none (converted entry) = (
    λ h. (refl, contains-put_self log id entry),
    λ h. absurd (cc),
    λ k. contains-put log id k entry,
    λ k other. get-put log id k entry ∙ rw other,
  )
  inserted log id (some e) (converted entry) =
      (λ h. absurd (cc), λ h. (e, refl), λ k h. h, λ k h. refl)
  inserted log id flush (raises e) = (λ h. absurd (cc), λ h. (e, refl), λ k h. h, λ k h. refl)

  savepoint_cases :
      (log : Dict AuditLog) (event : Event) (flush : Option String)
      → (is_deliverable log event flush ≡ true
          → ((savepoint_event log event flush).1 ≡ none)
            × (contains (savepoint_event log event flush).0 event.id ≡ true))
        × (is_deliverable log event flush ≡ false
            → (e : String) × (savepoint_event log event flush ≡ (log, some e)))
        × ((k : String)
            → contains log k ≡ true
            → contains (savepoint_event log event flush).0 k ≡ true)
        × ((k : String)
            → contains log k ≡ true
            → get (savepoint_event log event flush).0 k ≡ get log k)
  unfolding savepoint
  savepoint_cases log event flush = elim (Bool-cases (contains log event.id)) [
    | inl there ↦ rw there (λ h. (refl, there), λ h. absurd (cc), λ k h. h, λ k h. refl)
    | inr absent ↦
        let (a, b, c, d) =
          inserted log event.id flush (to_audit_log parse_uuid node_exists event.payload) in
        rw absent (a, b, c, λ k h. d k (ground (arith, eq_iff event.id k)))
  ]

  abbrev pub deliver_event :
      ℕ → Dict AuditLog → Event → ℕ → Option String → Dict AuditLog × Event × Bool
  deliver_event = deliver parse_uuid node_exists

  -- One attempt counts, and keeps the identity of the row.
  pub deliver_counts :
      (max_attempts : ℕ) (log : Dict AuditLog) (event : Event) (now : ℕ) (flush : Option String)
      → ((deliver_event max_attempts log event now flush).1.id ≡ event.id)
        × ((deliver_event max_attempts log event now flush).1.attempts ≡ event.attempts + 1)
  unfolding deliver
  deliver_counts max_attempts log event now flush =
      let tried = record event { attempts = event.attempts + 1 } in
      counted (savepoint_event log tried flush)
    where
      counted :
          (r : Dict AuditLog × Option String)
          → ((after_savepoint max_attempts
                (record event { attempts = event.attempts + 1 })
                now
                r).1.id
              ≡ event.id)
            × ((after_savepoint max_attempts
                  (record event { attempts = event.attempts + 1 })
                  now
                  r).1.attempts
                ≡ event.attempts + 1)
      counted (log', none) = (refl, refl)
      counted (log', some e) = ground arith

  -- A deliverable row is completed at once, and is in the log. Any other leaves the log alone: its row
  -- fails if this was the last attempt, and else waits between 1 and 300 seconds.
  pub deliver_exact :
      (max_attempts : ℕ) (log : Dict AuditLog) (event : Event) (now : ℕ) (flush : Option String)
      → (is_deliverable log event flush ≡ true
          → ((deliver_event max_attempts log event now flush).1.status ≡ completed)
            × ((deliver_event max_attempts log event now flush).2 ≡ true)
            × (contains (deliver_event max_attempts log event now flush).0 event.id ≡ true))
        × (is_deliverable log event flush ≡ false
            → ((deliver_event max_attempts log event now flush).0 ≡ log)
              × ((deliver_event max_attempts log event now flush).2 ≡ false)
              × (max_attempts ≤ event.attempts + 1
                  → (deliver_event max_attempts log event now flush).1.status ≡ failed)
              × (event.attempts + 1 < max_attempts
                  → ((deliver_event max_attempts log event now flush).1.status ≡ event.status)
                    × (now < (deliver_event max_attempts log event now flush).1.next_attempt_at)
                    × ((deliver_event max_attempts log event now flush).1.next_attempt_at
                        ≤ now + 300)))
  unfolding deliver
  deliver_exact max_attempts log event now flush =
      let tried : Event = record event { attempts = event.attempts + 1 } in
      let (yes_case, no_case, keeps, same) = savepoint_cases log tried flush in
      (
        λ h.
            let (fine, there) = yes_case h in
            completes (savepoint_event log tried flush) fine there,
        λ h.
            let (e, r) = no_case h in
            rw r (
              refl,
              refl,
              λ last. ground arith,
              λ more. ground (arith, backoff_range (event.attempts + 1)),
            ),
      )
    where
      completes :
          (r : Dict AuditLog × Option String)
          → r.1 ≡ none
          → contains r.0 event.id ≡ true
          → ((after_savepoint max_attempts
                (record event { attempts = event.attempts + 1 })
                now
                r).1.status
              ≡ completed)
            × ((after_savepoint max_attempts
                  (record event { attempts = event.attempts + 1 })
                  now
                  r).2
                ≡ true)
            × (contains
                  (after_savepoint max_attempts
                    (record event { attempts = event.attempts + 1 })
                    now
                    r).0
                  event.id
                ≡ true)
      completes (log', none) fine there = (refl, refl, there)
      completes (log', some e) fine there = absurd (cc)

  -- No entry of the log is lost or changed.
  pub deliver_keeps :
      (max_attempts : ℕ) (log : Dict AuditLog) (event : Event) (now : ℕ) (flush : Option String)
      (k : String)
      → contains log k ≡ true
      → (contains (deliver_event max_attempts log event now flush).0 k ≡ true)
        × (get (deliver_event max_attempts log event now flush).0 k ≡ get log k)
  unfolding deliver
  deliver_keeps max_attempts log event now flush k h =
      let tried : Event = record event { attempts = event.attempts + 1 } in
      let (yes_case, no_case, keeps, same) = savepoint_cases log tried flush in
      kept (savepoint_event log tried flush) (keeps k h) (same k h)
    where
      kept :
          (r : Dict AuditLog × Option String)
          → contains r.0 k ≡ true
          → get r.0 k ≡ get log k
          → (contains
                (after_savepoint max_attempts
                  (record event { attempts = event.attempts + 1 })
                  now
                  r).0
                k
              ≡ true)
            × (get
                  (after_savepoint max_attempts
                    (record event { attempts = event.attempts + 1 })
                    now
                    r).0
                  k
                ≡ get log k)
      kept (log', none) a b = (a, b)
      kept (log', some e) a b = (a, b)

  pub deliver-IsConsistent :
      (max_attempts : ℕ) (log : Dict AuditLog) (event : Event) (now : ℕ) (flush : Option String)
      → event.status ≡ pending
      → IsConsistent max_attempts
          (deliver_event max_attempts log event now flush).0
          (deliver_event max_attempts log event now flush).1
  deliver-IsConsistent max_attempts log event now flush waiting =
      let (done, undone) = deliver_exact max_attempts log event now flush in
      let (same_id, counted) = deliver_counts max_attempts log event now flush in
      elim (Bool-cases (is_deliverable log event flush)) [
        | inl ok ↦
            let (a, b, c) = done ok in
            record {
              spare = λ p. absurd (cc (a, p));
              spent = λ p. absurd (cc (a, p));
              logged = λ p. rw same_id c;
            }
        | inr bad ↦
            let (a, b, c, d) = undone bad in
            elim (Bool-cases (leb max_attempts (event.attempts + 1))) [
              | inl last ↦
                  let f = c (ground arith) in
                  record {
                    spare = λ p. absurd (cc (f, p));
                    spent =
                        λ p. omega (arith, counted, leb→le max_attempts (event.attempts + 1) last);
                    logged = λ p. absurd (cc (f, p));
                  }
              | inr more ↦
                  let room : event.attempts + 1 < max_attempts = ground arith in
                  let same = (d room).0 in
                  record {
                    spare = λ p. omega (arith, counted, room);
                    spent = λ p. absurd (cc (same, waiting, p));
                    logged = λ p. absurd (cc (same, waiting, p));
                  }
            ]
      ]

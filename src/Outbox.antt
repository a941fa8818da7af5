-- ===== src/Outbox.antt =====
-- app/adapters/persistence/audit_outbox_worker.py: delivery of the pending rows of the audit outbox to
-- the audit log. The rows stand in the order of `created_at`, in which the query returns them. Times
-- are in seconds. The parsing of a UUID, the table of nodes and the outcome of the flush of the
-- savepoint are parameters. No code sets the status `processing`. Metrics are left out, and so is a
-- failure of the outer transaction, which rolls the batch back.
pub mod Delivery
pub mod Batches
mod Tests
use node_nexus_api.Prelude.{
  ℕ, zero, suc, ◌+◌, ◌-◌, ◌^◌, String, Bool, true, false, not, Option, none, some, List, [], ◌∷◌,
  ◌++◌, ◌&&◌, min, leb, if◌then◌else◌, str_eq,
}
use node_nexus_api.Dict.{Dict, contains, put}

pub data Status : Type 0 where
  pending processing completed failed : Status

-- The value of a key of the payload: absent or null, a string, or anything else.
pub data Json : Type 0 where
  null : Json
  text : String → Json
  other : Json

pub record Payload : Type 0 where
  pub node_id : Json
  pub action : Json
  pub user : Json
  pub details : Json

pub record Event : Type 0 where
  pub id : String
  pub payload : Payload
  pub status : Status
  pub attempts : ℕ
  pub next_attempt_at : ℕ
  pub last_error_type : Option String
  pub delivered_at : Option ℕ

pub record AuditLog : Type 0 where
  pub node_id : Option String
  pub action : String
  pub user : Option String
  pub details : Option String

pub data Conversion : Type 0 where
  converted : AuditLog → Conversion
  raises : String → Conversion

abbrev pub value_error : String
value_error = "ValueError"

abbrev pub is_pending : Status → Bool
is_pending pending = true
is_pending _ = false

unfoldable pub backoff : ℕ → ℕ
backoff attempts = min 300 (2 ^ (attempts - 1))

abbrev pub after_error : ℕ → Event → ℕ → String → Event
after_error max_attempts event now e =
    if leb max_attempts event.attempts
    then record event { last_error_type = some e; status = failed }
    else record event { last_error_type = some e; next_attempt_at = now + backoff event.attempts }

abbrev pub after_savepoint :
    ℕ → Event → ℕ → Dict AuditLog × Option String → Dict AuditLog × Event × Bool
after_savepoint max_attempts event now (log, none) = (
  log,
  record event { status = completed; last_error_type = none; delivered_at = some now },
  true,
)
after_savepoint max_attempts event now (log, some e) =
    (log, after_error max_attempts event now e, false)

abbrev pub is_due : ℕ → Event → Bool
is_due now event = is_pending event.status && leb event.next_attempt_at now

-- Whether the query of `run_once` selects the row, before the limit: `skip_locked` passes over the rows
-- that another worker has locked.
abbrev pub is_selected : (String → Bool) → ℕ → Event → Bool
is_selected locked now event = is_due now event && not (locked event.id)

abbrev pub insert_converted :
    Dict AuditLog → String → Option String → Conversion → Dict AuditLog × Option String
insert_converted log id flush (raises e) = (log, some e)
insert_converted log id none (converted entry) = (put log id entry, none)
insert_converted log id (some e) (converted entry) = (log, some e)

module _ (parse_uuid : String → Option String) (node_exists : String → Bool) where
  -- The last three checks of `_to_audit_log`, in order.
  abbrev pub with_details : Option String → String → Option String → Json → Conversion
  with_details linked action user null =
      converted (record { node_id = linked; action = action; user = user; details = none })
  with_details linked action user (text d) =
      converted (record { node_id = linked; action = action; user = user; details = some d })
  with_details linked action user other = raises value_error

  abbrev pub with_user : Option String → String → Json → Json → Conversion
  with_user linked action null details = with_details linked action none details
  with_user linked action (text u) details = with_details linked action (some u) details
  with_user linked action other details = raises value_error

  abbrev pub with_action : Option String → Payload → Json → Conversion
  with_action linked p (text a) = with_user linked a p.user p.details
  with_action linked p _ = raises value_error

  abbrev pub with_node : Payload → Option String → Conversion
  with_node p none = raises value_error
  with_node p (some uuid) = with_action (if node_exists uuid then some uuid else none) p p.action

  abbrev pub of_node_id : Payload → Json → Conversion
  of_node_id p null = with_action none p p.action
  of_node_id p (text s) =
      if str_eq s "" then with_action none p p.action else with_node p (parse_uuid s)
  of_node_id p other = raises value_error

  unfoldable pub to_audit_log : Payload → Conversion
  to_audit_log p = of_node_id p p.node_id

  -- The savepoint: the log with the event in it, or the type of the exception. `flush` is `none`, or
  -- the exception that the database raises.
  unfoldable pub savepoint : Dict AuditLog → Event → Option String → Dict AuditLog × Option String
  savepoint log event flush =
      if contains log event.id
      then (log, none)
      else insert_converted log event.id flush (to_audit_log event.payload)

  unfoldable pub deliver :
      ℕ → Dict AuditLog → Event → ℕ → Option String → Dict AuditLog × Event × Bool
  deliver max_attempts log event now flush =
      let tried = record event { attempts = event.attempts + 1 } in
      after_savepoint max_attempts tried now (savepoint log tried flush)

  -- `run_once` over the rows, with the room left in the batch: the log, the rows, the deliveries.
  -- `locked` says which rows another worker has locked, and `flush` gives the outcome of the flush for
  -- each event.
  unfoldable pub run_rows :
      ℕ
      → ℕ
      → (String → Bool)
      → (String → Option String)
      → ℕ
      → Dict AuditLog
      → List Event
      → Dict AuditLog × List Event × ℕ
  run_rows max_attempts now locked flush room log [] = (log, [], 0)
  run_rows max_attempts now locked flush zero log (event ∷ events) = (log, event ∷ events, 0)
  run_rows max_attempts now locked flush (suc room) log (event ∷ events) =
      elim (is_selected locked now event) [
        | false ↦
            let (log', events', n) = run_rows max_attempts now locked flush (suc room) log events in
            (log', event ∷ events', n)
        | true ↦
            let (log₁, event', done) = deliver max_attempts log event now (flush event.id) in
            let (log', events', n) = run_rows max_attempts now locked flush room log₁ events in
            (log', event' ∷ events', if done then suc n else n)
      ]

  unfoldable pub run_once :
      (max_attempts batch_size : ℕ)
      → ℕ
      → (String → Bool)
      → (String → Option String)
      → Dict AuditLog
      → List Event
      → Dict AuditLog × List Event × ℕ
  run_once max_attempts batch_size now locked flush =
      run_rows max_attempts now locked flush batch_size

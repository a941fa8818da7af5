-- ===== src/Scripts/Batches.antt =====
-- `execute_script` behind the resolution of its steps and targets: the executions that it creates, and what
-- becomes of them. The ids that the writer gives are numbers in order.
use node_nexus_api.Prelude.{ℕ, suc, String, Bool, List, [], ◌∷◌, ◌++◌, map, if◌then◌else◌, ◌==◌}
use node_nexus_api.Scripts.{
  ResolvedStep, StepResult, Status, running, success, error, Remote, run_remote,
}

pub record Execution : Type 0 where
  pub id : ℕ
  pub status : Status
  pub steps : List StepResult

-- ScriptExecutionTargetDTO, with the remote side of its node
pub record Target : Type 0 where
  pub execution_id : ℕ
  pub remote : Remote
  pub steps : List ResolvedStep

-- ScriptNodeResultDTO
pub record NodeResult : Type 0 where
  pub execution_id : ℕ
  pub status : Status
  pub steps : List StepResult

-- How the wait for the runs ends: all in time, or too late. A wait that is cancelled is left out: it ends
-- `execute_script` with a CancelledError.
pub data Wait : Type 0 where
  in_time late : Wait

pub data Batch : Type 0 where
  results : List NodeResult → Batch
  timeout_error : Batch

-- The executions in the database, the events for subscribers, and the next id.
pub record State : Type 0 where
  pub executions : List Execution
  pub events : List (String × ℕ)
  pub next_id : ℕ

unfoldable pub create_execution : State → State
create_execution s = record {
  executions = s.executions ++ record { id = s.next_id; status = running; steps = [] } ∷ [];
  events = s.events;
  next_id = suc s.next_id;
}

abbrev pub set_status : ℕ → Status → List StepResult → Execution → Execution
set_status id status steps x =
    if x.id == id then record { id = x.id; status = status; steps = steps } else x

-- One target for each node, and its execution.
unfoldable pub create_targets : List ResolvedStep → State → List Remote → State × List Target
create_targets steps s [] = (s, [])
create_targets steps s (node ∷ nodes) =
    let (s', targets) = create_targets steps (create_execution s) nodes in
    (s', record { execution_id = s.next_id; remote = node; steps = steps } ∷ targets)

unfoldable pub run_target : Target → NodeResult
run_target t = record {
  execution_id = t.execution_id;
  status = (run_remote t.remote t.steps).1;
  steps = (run_remote t.remote t.steps).0;
}

-- `"execution.completed" if result.status == "success" else "execution.failed"`
abbrev pub event_of : Status → String
event_of success = "execution.completed"
event_of _ = "execution.failed"

-- The update of one execution, which the writer refuses or makes, and the event after one that is made.
module _ (updates : ℕ → Bool) where
  unfoldable pub update_execution : State → ℕ → Status → List StepResult → State
  update_execution s id status steps =
      if updates id
      then record {
        executions = map (set_status id status steps) s.executions;
        events = s.events ++ (event_of status, id) ∷ [];
        next_id = s.next_id;
      }
      else s

  unfoldable pub persist : State → List NodeResult → State
  persist s [] = s
  persist s (r ∷ rs) = persist (update_execution s r.execution_id r.status r.steps) rs

  unfoldable pub mark_errors : State → List Target → State
  mark_errors s [] = s
  mark_errors s (t ∷ targets) = mark_errors (update_execution s t.execution_id error []) targets

  abbrev pub after_wait : Wait → State → List Target → State × Batch
  after_wait in_time s targets =
      (persist s (map run_target targets), results (map run_target targets))
  after_wait late s targets = (mark_errors s targets, timeout_error)

  unfoldable pub execute_targets : List ResolvedStep → Wait → State → List Remote → State × Batch
  execute_targets steps wait s nodes =
      let (s', targets) = create_targets steps s nodes in after_wait wait s' targets

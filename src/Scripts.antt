-- ===== src/Scripts.antt =====
-- app/application/services/script_execution_service.py: the steps of a script on one node, and a run of a
-- script on several nodes. The remote side, the writer of the executions and the clock are parameters; so
-- is the fingerprint of a command, a SHA-256.
pub mod Steps
pub mod Batches
pub mod Settled
pub mod Ends
mod Tests
use node_nexus_api.Prelude.{
  ℕ, suc, String, Bool, true, false, not, Option, none, some, List, [], ◌∷◌, ◌++◌, ◌||◌, map, Text,
  codes, text_eq, if◌then◌else◌, ◌==◌, any_of, keep_if,
}
use node_nexus_api.Output.{bound_output}

-- ResolvedScriptStepDTO
pub record ResolvedStep : Type 0 where
  pub label : Text
  pub command : Text
  pub on_failure : Text
  pub resolution_error : Option Text

-- ScriptStepResultDTO
pub record StepResult : Type 0 where
  pub step_index : ℕ
  pub label : Text
  pub command_fingerprint : Text
  pub stdout : Text
  pub stderr : Text
  pub stdout_bytes : ℕ
  pub stderr_bytes : ℕ
  pub truncated : Bool
  pub exit_code : ℕ

pub data Status : Type 0 where
  running success error : Status

-- What a node answers to a command.
pub data Answer : Type 0 where
  ended : (stdout stderr : Text) → (exit_code : ℕ) → Answer
  timed_out : Answer
  failed : Answer

-- The remote side of one target: whether the connection opens, its answer to each step, and whether it
-- closes; and the largest number of bytes of an output.
pub record Remote : Type 0 where
  pub opens : Bool
  pub execute_command : ℕ → Text → Answer
  pub closes : Bool
  pub fingerprint : Text → Text
  pub timeout_text : Text
  pub max_bytes : ℕ

module _ (remote : Remote) where
  -- A step that could not be resolved is not sent. `failed` stands for an exception.
  abbrev pub answer_of : ℕ → ResolvedStep → Option Text → Answer
  answer_of index step none = remote.execute_command index step.command
  answer_of index step (some message) = ended [] message 1

  abbrev pub answer : ℕ → ResolvedStep → Answer
  answer index step = answer_of index step step.resolution_error

  abbrev pub step_result : ℕ → ResolvedStep → Text → Text → ℕ → StepResult
  step_result index step stdout stderr exit_code =
      let safe_stdout = bound_output stdout remote.max_bytes in
      let safe_stderr = bound_output stderr remote.max_bytes in
      record {
        step_index = index;
        label = step.label;
        command_fingerprint = remote.fingerprint step.command;
        stdout = safe_stdout.value;
        stderr = safe_stderr.value;
        stdout_bytes = safe_stdout.original_bytes;
        stderr_bytes = safe_stderr.original_bytes;
        truncated = safe_stdout.truncated || safe_stderr.truncated;
        exit_code = exit_code;
      }

  -- The rest of the loop after a step: by its exit code, and by its answer.
  abbrev pub recorded :
      StepResult → (stop : Bool) → List StepResult × Status → List StepResult × Status
  recorded r stop rest =
      if r.exit_code == 0
      then (r ∷ rest.0, rest.1)
      else if stop
      then (r ∷ [], error)
      else (r ∷ rest.0, error)

  abbrev pub is_stop : ResolvedStep → Bool
  is_stop step = text_eq step.on_failure (codes "stop")

  abbrev pub after_step :
      ℕ → ResolvedStep → Answer → List StepResult × Status → List StepResult × Status
  after_step index step (ended stdout stderr exit_code) rest =
      recorded (step_result index step stdout stderr exit_code) (is_stop step) rest
  after_step index step timed_out rest =
      recorded (step_result index step [] remote.timeout_text 124) (is_stop step) rest
  after_step index step failed rest = ([], error)

  unfoldable pub run_steps : ℕ → List ResolvedStep → List StepResult × Status
  run_steps index [] = ([], success)
  run_steps index (step ∷ steps) =
      let rest = run_steps (suc index) steps in after_step index step (answer index step) rest

  -- `_run_remote`: the results and the status
  unfoldable pub run_remote : List ResolvedStep → List StepResult × Status
  run_remote steps =
      let run = run_steps 0 steps in
      if not remote.opens then ([], error) else if remote.closes then run else (run.0, error)

-- `resolve_targets`, over the nodes that the reader finds by ids and by tags
abbrev pub in_both :
    {Node : Type 0} → (Node → ℕ) → Option (List Node) → Option (List Node) → List Node
in_both id (some by_ids) (some by_tags) = keep_if (λ n. any_of (λ t. id n == id t) by_tags) by_ids
in_both id (some by_ids) none = by_ids
in_both id none (some by_tags) = by_tags
in_both id none none = []

abbrev pub found_by : {Key Node : Type 0} → (List Key → List Node) → List Key → Option (List Node)
found_by read [] = none
found_by read (k ∷ keys) = some (read (k ∷ keys))

unfoldable pub resolve_targets :
    {Node : Type 0}
    → (Node → ℕ)
    → (List ℕ → List Node)
    → (List Text → List Node)
    → List ℕ
    → List Text
    → List Node
resolve_targets id by_ids by_tags node_ids tags =
    in_both id (found_by by_ids node_ids) (found_by by_tags tags)

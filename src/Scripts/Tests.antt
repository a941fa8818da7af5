-- ===== src/Scripts/Tests.antt =====
-- Scripts on one and on two nodes.
use node_nexus_api.Prelude.{
  ℕ, zero, suc, true, not, none, List, [], ◌∷◌, ◌||◌, Text, codes, ltb, all_of, ◌≡◌, refl, map,
}
use node_nexus_api.Scripts.{
  ResolvedStep, success, error, Answer, ended, timed_out, Remote, run_steps, run_remote,
  resolve_targets,
}
use node_nexus_api.Scripts.Batches.{
  in_time, State, create_execution, create_targets, run_target, update_execution, persist,
  execute_targets,
}
use node_nexus_api.Scripts.Settled.{is_running}
use node_nexus_api.Scripts.Ends.{execute_targets_end}

abbrev step_of : Text → Text → ResolvedStep
step_of command on_failure = record {
  label = command;
  command = command;
  on_failure = on_failure;
  resolution_error = none;
}

-- The second step of three fails and goes on, the third stops.
abbrev three : List ResolvedStep
three =
    step_of (codes "id") (codes "stop")
    ∷ step_of (codes "false") (codes "continue")
    ∷ step_of (codes "sleep") (codes "stop")
    ∷ step_of (codes "true") (codes "stop")
    ∷ []

abbrev answers : ℕ → Text → Answer
answers zero command = ended (codes "root") [] 0
answers (suc zero) command = ended [] [] 1
answers _ command = timed_out

abbrev node : Remote
node = record {
  opens = true;
  execute_command = answers;
  closes = true;
  fingerprint = λ s. s;
  timeout_text = codes "Timeout";
  max_bytes = 16;
}

exit_codes : map (λ r. r.exit_code) (run_remote node three).0 ≡ 0 ∷ 1 ∷ 124 ∷ []
unfolding run_remote run_steps
exit_codes = refl

abbrev start : State
start = record {
  executions = record { id = 0; status = success; steps = [] } ∷ [];
  events = [];
  next_id = 1;
}

execute_targets_end_example :
    all_of
      (λ x. ltb x.id 1 || not (is_running x.status))
      (execute_targets (λ id. true) three in_time start (node ∷ node ∷ [])).0.executions
    ≡ true
execute_targets_end_example =
    execute_targets_end (λ id. true) (λ id. refl) three in_time start (node ∷ node ∷ []) refl

batch_statuses :
    map (λ x. x.status) (execute_targets (λ id. true) three in_time start (node ∷ [])).0.executions
    ≡ success ∷ error ∷ []
unfolding execute_targets create_targets create_execution run_target persist update_execution
    run_remote run_steps
batch_statuses = refl

both_targets :
    resolve_targets (λ n. n) (λ ids. ids) (λ tags. 2 ∷ 3 ∷ []) (1 ∷ 2 ∷ []) (codes "web" ∷ [])
    ≡ 2 ∷ []
unfolding resolve_targets
both_targets = refl

-- ===== src/Scripts/Ends.antt =====
-- What becomes of the executions of a batch.
use mathlib.Core.Path.{subst}
use node_nexus_api.Prelude.{
  ℕ, Bool, true, false, not, List, [], ◌∷◌, ◌||◌, map, ltb, all_of, ◌≡◌, refl, sym, ap, All,
  &&-eq-true,
}
use node_nexus_api.Scripts.{ResolvedStep, Remote, run_remote}
use node_nexus_api.Scripts.Steps.{run_remote_lem}
use node_nexus_api.Scripts.Batches.{
  Execution, Target, Wait, in_time, late, State, create_targets, run_target, persist, mark_errors,
  execute_targets,
}
use node_nexus_api.Scripts.Settled.{
  is_running, settled, among, ended-running, persist-settled, mark_errors-settled,
  create_targets-settled,
}

results_end : (ts : List Target) → All (λ r. is_running r.status ≡ false) (map run_target ts)
unfolding run_target
results_end [] = tt
results_end (t ∷ ts) = (
  ended-running (run_remote t.remote t.steps).1 (run_remote_lem t.remote t.steps).finished,
  results_end ts,
)

same_ids :
    (ts : List Target)
    → map (λ r. r.execution_id) (map run_target ts) ≡ map (λ t. t.execution_id) ts
unfolding run_target
same_ids [] = refl
same_ids (t ∷ ts) = ap (λ (ids : List ℕ). t.execution_id ∷ ids) (same_ids ts)

old_settled :
    (n : ℕ) (xs : List Execution)
    → all_of (λ x. ltb x.id n) xs ≡ true
    → all_of (settled n (λ i. false)) xs ≡ true
old_settled n [] h = refl
old_settled n (x ∷ xs) h =
    let (a, rest) = &&-eq-true (ltb x.id n) (all_of (λ x. ltb x.id n) xs) h in
    rw a (old_settled n xs rest)

none_left :
    (n : ℕ) (xs : List Execution)
    → all_of (settled n (λ i. false)) xs ≡ true
    → all_of (λ x. ltb x.id n || not (is_running x.status)) xs ≡ true
none_left n [] h = refl
none_left n (x ∷ xs) h =
    let (a, rest) = &&-eq-true (settled n (λ i. false) x) (all_of (settled n (λ i. false)) xs) h in
    rw (or_false (ltb x.id n) (not (is_running x.status)) a) (none_left n xs rest)
  where
    or_false : (a b : Bool) → (a || (b || false)) ≡ true → (a || b) ≡ true
    or_false true b k = refl
    or_false false true k = refl
    or_false false false k = k

created_settled :
    (steps : List ResolvedStep) (s : State) (nodes : List Remote)
    → all_of (λ x. ltb x.id s.next_id) s.executions ≡ true
    → all_of
        (settled s.next_id (among (map (λ t. t.execution_id) (create_targets steps s nodes).1)))
        (create_targets steps s nodes).0.executions
      ≡ true
created_settled steps s nodes old =
    create_targets-settled s.next_id steps s nodes (λ i. false)
      (old_settled s.next_id s.executions old)

-- When the runs end, in time or too late, and the writer makes every update, no execution that the batch created is left running: each execution was there before, with an id below the next one, or has ended.
pub execute_targets_end :
    (updates : ℕ → Bool)
    → ((i : ℕ) → updates i ≡ true)
    → (steps : List ResolvedStep) (wait : Wait) (s : State) (nodes : List Remote)
    → all_of (λ x. ltb x.id s.next_id) s.executions ≡ true
    → all_of
        (λ x. ltb x.id s.next_id || not (is_running x.status))
        (execute_targets updates steps wait s nodes).0.executions
      ≡ true
unfolding execute_targets
execute_targets_end updates made steps in_time s nodes old =
    let ts : List Target = (create_targets steps s nodes).1 in
    none_left s.next_id
      (persist updates (create_targets steps s nodes).0 (map run_target ts)).executions
      (persist-settled updates made s.next_id (create_targets steps s nodes).0 (map run_target ts)
        (results_end ts)
        (subst
          (λ (ids : List ℕ).
            all_of (settled s.next_id (among ids)) (create_targets steps s nodes).0.executions
            ≡ true)
          (sym (same_ids ts)) (created_settled steps s nodes old)))
execute_targets_end updates made steps late s nodes old =
    none_left s.next_id
      (mark_errors updates (create_targets steps s nodes).0
        (create_targets steps s nodes).1).executions
      (mark_errors-settled updates made s.next_id (create_targets steps s nodes).0
        (create_targets steps s nodes).1 (created_settled steps s nodes old))

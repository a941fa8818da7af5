-- ===== src/Scripts/Steps.antt =====
-- What the results of a script on one node say.
use node_nexus_api.Output.{bound_output}
use node_nexus_api.Prelude.{
  Option, none, some, Text, ℕ, suc, Bool, true, false, not, List, [], ◌∷◌, if◌then◌else◌, ◌==◌,
  length, all_of, ◌≡◌, refl, ◌↔◌, ◌≢◌, arith, &&-eq-true,
}
use node_nexus_api.Scripts.{
  answer_of, ResolvedStep, StepResult, Status, running, success, error, Answer, ended, timed_out,
  failed, Remote, answer, step_result, recorded, is_stop, after_step, run_steps, run_remote,
}

abbrev pub exited_well : StepResult → Bool
exited_well r = r.exit_code == 0

-- A result holds the longest allowed beginnings of these outputs, and this exit code.
abbrev pub Holds : Remote → StepResult → Text → Text → ℕ → Type 0
Holds remote r stdout stderr exit_code =
    (r.exit_code ≡ exit_code)
    × (r.stdout ≡ (bound_output stdout remote.max_bytes).value)
    × (r.stderr ≡ (bound_output stderr remote.max_bytes).value)

-- A result tells what the node answered to the command of its step; a step that was not resolved is not
-- a success, and its message is the error output.
pub record Answers (remote : Remote) (index : ℕ) (step : ResolvedStep) (r : StepResult)
    : Type 0 where
  pub unresolved :
      (message : Text) → step.resolution_error ≡ some message → Holds remote r [] message 1
  pub exited :
      (stdout stderr : Text) (exit_code : ℕ)
      → step.resolution_error ≡ none
      → remote.execute_command index step.command ≡ ended stdout stderr exit_code
      → Holds remote r stdout stderr exit_code
  pub ran_out :
      step.resolution_error ≡ none
      → remote.execute_command index step.command ≡ timed_out
      → Holds remote r [] remote.timeout_text 124
  pub no_failure : step.resolution_error ≡ none → remote.execute_command index step.command ≢ failed

-- The results are those of the first steps, one for each and in order, each telling what the node
-- answered; a step that failed and stops the script is the last one.
abbrev pub Follows : Remote → ℕ → List ResolvedStep → List StepResult → Type 0
Follows remote index steps [] = Unit
Follows remote index [] (r ∷ results) = ⊥
Follows remote index (step ∷ steps) (r ∷ results) =
    (r.step_index ≡ index)
    × (r.label ≡ step.label)
    × Answers remote index step r
    × ((exited_well r ≡ false) → is_stop remote step ≡ true → results ≡ [])
    × Follows remote (suc index) steps results

-- Every step has a result, and every result is a good one.
abbrev pub AllWell : List ResolvedStep → List StepResult → Type 0
AllWell steps results = (length results ≡ length steps) × (all_of exited_well results ≡ true)

module _ (remote : Remote) (index : ℕ) (step : ResolvedStep) (steps : List ResolvedStep)
    (run : List StepResult × Status) where
  recorded-Follows :
      (r : StepResult) (stop : Bool)
      → stop ≡ is_stop remote step
      → r.step_index ≡ index
      → r.label ≡ step.label
      → Answers remote index step r
      → Follows remote (suc index) steps run.0
      → Follows remote index (step ∷ steps) (recorded remote r stop run).0
  recorded-Follows r stop e i l n h = by (r.exit_code == 0) stop refl refl
    where
      by :
          (b s : Bool)
          → (r.exit_code == 0) ≡ b
          → stop ≡ s
          → (let out : List StepResult × Status =
                if b
                then (r ∷ run.0, run.1)
                else if s
                then (r ∷ [], error)
                else (r ∷ run.0, error) in
              Follows remote index (step ∷ steps) out.0)
      by true s g k = (i, l, n, (λ w. absurd (cc)), h)
      by false true g k = (i, l, n, (λ _ _. refl), tt)
      by false false g k = (i, l, n, (λ _ t. absurd (cc)), h)

  unresolved-Answers :
      (message : Text)
      → step.resolution_error ≡ some message
      → Answers remote index step (step_result remote index step [] message 1)
  unresolved-Answers message e = record {
    unresolved = λ m u. (refl, refl, cc);
    exited = λ o x c u y. absurd (cc);
    ran_out = λ u y. absurd (cc);
    no_failure = λ u y. absurd (cc);
  }

  ended-Answers :
      (stdout stderr : Text) (exit_code : ℕ)
      → step.resolution_error ≡ none
      → remote.execute_command index step.command ≡ ended stdout stderr exit_code
      → Answers remote index step (step_result remote index step stdout stderr exit_code)
  ended-Answers stdout stderr exit_code e x = record {
    unresolved = λ m u. absurd (cc);
    exited = λ o r c u y. (cc, cc, cc);
    ran_out = λ u y. absurd (cc);
    no_failure = λ u y. absurd (cc);
  }

  timed_out-Answers :
      step.resolution_error ≡ none
      → remote.execute_command index step.command ≡ timed_out
      → Answers remote index step (step_result remote index step [] remote.timeout_text 124)
  timed_out-Answers e x = record {
    unresolved = λ m u. absurd (cc);
    exited = λ o r c u y. absurd (cc);
    ran_out = λ u y. (refl, refl, refl);
    no_failure = λ u y. absurd (cc);
  }

  sent-Follows :
      (a : Answer)
      → step.resolution_error ≡ none
      → remote.execute_command index step.command ≡ a
      → Follows remote (suc index) steps run.0
      → Follows remote index (step ∷ steps) (after_step remote index step a run).0
  sent-Follows (ended stdout stderr exit_code) e x h =
      recorded-Follows (step_result remote index step stdout stderr exit_code) (is_stop remote step)
        refl refl refl (ended-Answers stdout stderr exit_code e x) h
  sent-Follows timed_out e x h =
      recorded-Follows (step_result remote index step [] remote.timeout_text 124)
        (is_stop remote step) refl refl refl (timed_out-Answers e x) h
  sent-Follows failed e x h = tt

  after_step-Follows :
      (found : Option Text)
      → step.resolution_error ≡ found
      → Follows remote (suc index) steps run.0
      → Follows remote index
          (step ∷ steps)
          (after_step remote index step (answer_of remote index step found) run).0
  after_step-Follows none e h = sent-Follows (remote.execute_command index step.command) e refl h
  after_step-Follows (some message) e h =
      recorded-Follows (step_result remote index step [] message 1) (is_stop remote step) refl refl
        refl (unresolved-Answers message e) h

  recorded-AllWell :
      (r : StepResult) (stop : Bool)
      → ((run.1 ≡ success) ↔ AllWell steps run.0)
      → ((recorded remote r stop run).1 ≡ success)
        ↔ AllWell (step ∷ steps) (recorded remote r stop run).0
  recorded-AllWell r stop h = by (r.exit_code == 0) stop refl
    where
      by :
          (b s : Bool)
          → exited_well r ≡ b
          → let out : List StepResult × Status =
              if b then (r ∷ run.0, run.1) else if s then (r ∷ [], error) else (r ∷ run.0, error) in
            (out.1 ≡ success) ↔ AllWell (step ∷ steps) out.0
      by true s g = (
        (λ k. let (n, a) = h.0 k in (omega (arith, n), rw g a)),
        (λ k.
            h.1
              (omega (arith, k.0), (&&-eq-true (exited_well r) (all_of exited_well run.0) k.1).1)),
      )
      by false true g =
          ((λ k. absurd (cc)), (λ k. absurd (not_well (&&-eq-true (exited_well r) true k.1).0)))
        where
          not_well : exited_well r ≡ true → ⊥
          not_well t = cc
      by false false g = (
        (λ k. absurd (cc)),
        (λ k. absurd (not_well (&&-eq-true (exited_well r) (all_of exited_well run.0) k.1).0)),
      )
        where
          not_well : exited_well r ≡ true → ⊥
          not_well t = cc

  after_step-AllWell :
      (a : Answer)
      → ((run.1 ≡ success) ↔ AllWell steps run.0)
      → ((after_step remote index step a run).1 ≡ success)
        ↔ AllWell (step ∷ steps) (after_step remote index step a run).0
  after_step-AllWell (ended stdout stderr exit_code) h =
      recorded-AllWell (step_result remote index step stdout stderr exit_code) (is_stop remote step)
        h
  after_step-AllWell timed_out h =
      recorded-AllWell (step_result remote index step [] remote.timeout_text 124)
        (is_stop remote step) h
  after_step-AllWell failed h = ((λ k. absurd (cc)), (λ k. absurd (omega (arith, k.0))))

module _ (remote : Remote) where
  run_steps-Follows :
      (index : ℕ) (steps : List ResolvedStep)
      → Follows remote index steps (run_steps remote index steps).0
  unfolding run_steps
  run_steps-Follows index [] = tt
  run_steps-Follows index (step ∷ steps) =
      after_step-Follows remote index step steps (run_steps remote (suc index) steps)
        step.resolution_error refl (run_steps-Follows (suc index) steps)

  run_steps-AllWell :
      (index : ℕ) (steps : List ResolvedStep)
      → ((run_steps remote index steps).1 ≡ success)
        ↔ AllWell steps (run_steps remote index steps).0
  unfolding run_steps
  run_steps-AllWell index [] = ((λ _. (refl, refl)), (λ _. refl))
  run_steps-AllWell index (step ∷ steps) =
      after_step-AllWell remote index step steps (run_steps remote (suc index) steps)
        (answer remote index step) (run_steps-AllWell (suc index) steps)

  after_step_ends :
      (index : ℕ) (step : ResolvedStep) (a : Answer) (run : List StepResult × Status)
      → run.1 ≢ running
      → (after_step remote index step a run).1 ≢ running
  after_step_ends index step (ended stdout stderr exit_code) run h =
      by (exit_code == 0) (is_stop remote step)
    where
      by :
          (b s : Bool)
          → (let out : List StepResult × Status =
                if b
                then (step_result remote index step stdout stderr exit_code ∷ run.0, run.1)
                else if s
                then (step_result remote index step stdout stderr exit_code ∷ [], error)
                else (step_result remote index step stdout stderr exit_code ∷ run.0, error) in
              out.1 ≢ running)
      by true s = h
      by false true = λ k. absurd (cc)
      by false false = λ k. absurd (cc)
  after_step_ends index step timed_out run h = by (is_stop remote step)
    where
      by :
          (s : Bool)
          → (let out : List StepResult × Status =
                if s
                then (step_result remote index step [] remote.timeout_text 124 ∷ [], error)
                else (step_result remote index step [] remote.timeout_text 124 ∷ run.0, error) in
              out.1 ≢ running)
      by true = λ k. absurd (cc)
      by false = λ k. absurd (cc)
  after_step_ends index step failed run h = λ k. absurd (cc)

  run_steps_ends :
      (index : ℕ) (steps : List ResolvedStep) → (run_steps remote index steps).1 ≢ running
  unfolding run_steps
  run_steps_ends index [] = λ k. absurd (cc)
  run_steps_ends index (step ∷ steps) =
      after_step_ends index step (answer remote index step) (run_steps remote (suc index) steps)
        (run_steps_ends (suc index) steps)

  -- What a run on a node reports.
  pub record Reported (steps : List ResolvedStep) (run : List StepResult × Status) : Type 0 where
    pub follows : Follows remote 0 steps run.0
    pub succeeds : (run.1 ≡ success) ↔ (
        (remote.opens ≡ true) × (remote.closes ≡ true) × AllWell steps (run_steps remote 0 steps).0)
    pub finished : run.1 ≢ running

  pub run_remote_lem : (steps : List ResolvedStep) → Reported steps (run_remote remote steps)
  unfolding run_remote
  run_remote_lem steps = by remote.opens remote.closes refl refl
    where
      by :
          (o c : Bool)
          → remote.opens ≡ o
          → remote.closes ≡ c
          → Reported steps (
              if not o
              then ([], error)
              else if c
              then run_steps remote 0 steps
              else ((run_steps remote 0 steps).0, error))
      by false c e f = record {
        follows = tt;
        succeeds = ((λ k. absurd (cc)), (λ k. absurd (cc)));
        finished = λ k. absurd (cc);
      }
      by true false e f = record {
        follows = run_steps-Follows 0 steps;
        succeeds = ((λ k. absurd (cc)), (λ k. absurd (cc)));
        finished = λ k. absurd (cc);
      }
      by true true e f = record {
        follows = run_steps-Follows 0 steps;
        succeeds = let w = run_steps-AllWell 0 steps in ((λ k. (e, f, w.0 k)), (λ k. w.1 k.2));
        finished = run_steps_ends 0 steps;
      }

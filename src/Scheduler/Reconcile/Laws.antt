-- ===== src/Scheduler/Reconcile/Laws.antt =====
-- The runtime jobs after a reconciliation.
use node_nexus_api.Prelude.{
  all_of, ◌+◌, String, true, false, none, List, ◌∷◌, ◌++◌, ◌≡◌, refl, ◌∙◌, arith, length,
  if◌then◌else◌,
}
use node_nexus_api.Scheduler.Reconcile.{
  JobStore, Schedule, is_desired, reconcile, Trigger, key_error, is_known,
}
use node_nexus_api.Scheduler.Reconcile.Loop.{
  at_start, register_aborts, get-each_other, get-at_start, each-counts,
}

module _ {Plan : Type 0} (js : JobStore Plan) (trigger : Plan → Trigger) where
  -- The first schedule with an unknown timezone ends the reconciliation with a KeyError: the schedules before it count as restored or failed, and a script that no schedule before it names keeps the job that it had if some enabled schedule asks for it, and is left without a job if none does; so no later schedule is registered.
  pub reconcile_aborts :
      (before after : List (Schedule Plan)) (d : Schedule Plan) (s : js.Store)
      → all_of (λ b. is_known (trigger b.plan)) before ≡ true
      → trigger d.plan ≡ key_error
      → let ds : List (Schedule Plan) = before ++ d ∷ after in
        ((reconcile js trigger ds s).aborted ≡ true)
        × ((reconcile js trigger ds s).restored + (reconcile js trigger ds s).failed
            ≡ length before)
        × ((j : String)
            → is_desired js trigger before j ≡ false
            → js.get_job (reconcile js trigger ds s).jobs j
              ≡ (if is_desired js trigger ds j then js.get_job s j else none))
  unfolding reconcile
  reconcile_aborts before after d s known unknown =
      let ds : List (Schedule Plan) = before ++ d ∷ after in
      rw (register_aborts js trigger before after d (at_start js trigger ds s) known unknown refl) (
        refl,
        omega (arith, (each-counts js trigger before (at_start js trigger ds s) known).0),
        λ j h.
            get-each_other js trigger before (at_start js trigger ds s) j h
            ∙ get-at_start js trigger ds s j,
      )

-- ===== src/Scheduler/Reconcile/Loop.antt =====
-- The loops of `reconcile`: what they leave of each job, what they count, and where they end.
use node_nexus_api.Prelude.{
  suc, all_of, &&-eq-true, ◌+◌, String, Bool, true, false, not, none, some, List, [], ◌∷◌, ◌++◌,
  ◌≡◌, refl, ◌∙◌, arith, any_of, length, str_eq, eq_iff, eq_refl, if◌then◌else◌, Bool-cases, inl,
  inr, count_if, ◌&&◌, ◌||◌,
}
use node_nexus_api.Scheduler.Reconcile.{
  JobStore, Schedule, Reconciled, schedule_script, unschedule_script, remove_stale, registered,
  register, is_desired, reconcile, get-unschedule, get-scheduled, Trigger, parsed, value_error,
  key_error, is_parsed, is_known, scheduled_as,
}

module _ {Plan : Type 0} (js : JobStore Plan) (trigger : Plan → Trigger) where
  open js use {Store, get_job, get_jobs, listed}

  get-remove_stale :
      (desired : String → Bool) (ids : List String) (s : Store) (j : String)
      → get_job (remove_stale js trigger desired ids s) j
        ≡ (if not (desired j) && any_of (str_eq j) ids then none else get_job s j)
  unfolding remove_stale
  get-remove_stale desired [] s j = ground arith
  get-remove_stale desired (id ∷ ids) s j = elim (Bool-cases (desired id)) [
    | inl wanted ↦ rw wanted (get-remove_stale desired ids s j ∙ ground (arith, eq_iff j id))
    | inr stale ↦ rw stale (
        get-remove_stale desired ids (unschedule_script js trigger s id) j
        ∙ ground (arith, eq_iff j id, eq_iff id j, get-unschedule js trigger s id j))
  ]

  -- The loop as it goes on when no exception ends it.
  unfoldable pub register_each : List (Schedule Plan) → Reconciled Store → Reconciled Store
  register_each [] r = r
  register_each (d ∷ ds) r =
      register_each ds (registered js trigger d.script_id r (schedule_script js trigger r.jobs d))

  get-registered :
      (d : Schedule Plan) (r : Reconciled Store) (j : String)
      → get_job (registered js trigger d.script_id r (schedule_script js trigger r.jobs d)).jobs j
        ≡ (if str_eq d.script_id j && is_parsed (trigger d.plan)
            then some d.plan
            else get_job r.jobs j)
  unfolding schedule_script
  get-registered d r j = by (trigger d.plan)
    where
      by :
          (t : Trigger)
          → get_job
              (registered js trigger d.script_id r (scheduled_as js trigger r.jobs d t)).jobs
              j
            ≡ (if str_eq d.script_id j && is_parsed t then some d.plan else get_job r.jobs j)
      by parsed = ground (arith, get-scheduled js trigger r.jobs d j)
      by value_error = ground arith
      by key_error = ground arith

  registered-counts :
      (d : Schedule Plan) (r : Reconciled Store)
      → is_known (trigger d.plan) ≡ true
      → let next = registered js trigger d.script_id r (schedule_script js trigger r.jobs d) in
        (next.restored + next.failed ≡ suc (r.restored + r.failed))
        × (next.failed ≡ (if not (is_parsed (trigger d.plan)) then suc r.failed else r.failed))
        × (next.aborted ≡ r.aborted)
  unfolding schedule_script
  registered-counts d r known = by (trigger d.plan) known
    where
      by :
          (t : Trigger)
          → is_known t ≡ true
          → let next = registered js trigger d.script_id r (scheduled_as js trigger r.jobs d t) in
            (next.restored + next.failed ≡ suc (r.restored + r.failed))
            × (next.failed ≡ (if not (is_parsed t) then suc r.failed else r.failed))
            × (next.aborted ≡ r.aborted)
      by parsed k = ground arith
      by value_error k = ground arith
      by key_error k = absurd (cc)

  pub get-each_other :
      (ds : List (Schedule Plan)) (r : Reconciled Store) (j : String)
      → is_desired js trigger ds j ≡ false
      → get_job (register_each ds r).jobs j ≡ get_job r.jobs j
  unfolding register_each is_desired
  get-each_other [] r j h = refl
  get-each_other (d ∷ ds) r j h =
      get-each_other ds _ j (ground arith)
      ∙ get-registered d r j
      ∙ ground (arith, eq_iff d.script_id j, eq_iff j d.script_id)

  abbrev pub is_known_plan : Schedule Plan → Bool
  is_known_plan d = is_known (trigger d.plan)

  -- What the loop counts, when no timezone is unknown.
  pub each-counts :
      (ds : List (Schedule Plan)) (r : Reconciled Store)
      → all_of is_known_plan ds ≡ true
      → ((register_each ds r).restored + (register_each ds r).failed
          ≡ r.restored + r.failed + length ds)
        × ((register_each ds r).failed
            ≡ r.failed + count_if (λ d. not (is_parsed (trigger d.plan))) ds)
        × ((register_each ds r).aborted ≡ r.aborted)
  unfolding register_each
  each-counts [] r known = (omega arith, omega arith, refl)
  each-counts (d ∷ ds) r known =
      let (k, ks) = &&-eq-true (is_known_plan d) (all_of is_known_plan ds) known in
      let ih =
        each-counts ds (registered js trigger d.script_id r (schedule_script js trigger r.jobs d))
          ks in
      let here = registered-counts d r k in
      (omega (arith, ih.0, here.0), ground (arith, ih.1, here.1), ih.2 ∙ here.2)

  each_append :
      (before after : List (Schedule Plan)) (r : Reconciled Store)
      → register_each (before ++ after) r ≡ register_each after (register_each before r)
  unfolding register_each
  each_append [] after r = refl
  each_append (d ∷ before) after r = each_append before after _

  each_cons :
      (d : Schedule Plan) (ds : List (Schedule Plan)) (r : Reconciled Store)
      → register_each (d ∷ ds) r
        ≡ register_each ds
            (registered js trigger d.script_id r (schedule_script js trigger r.jobs d))
  unfolding register_each
  each_cons d ds r = refl

  register-each :
      (ds : List (Schedule Plan)) (r : Reconciled Store)
      → all_of is_known_plan ds ≡ true
      → r.aborted ≡ false
      → register js trigger ds r ≡ register_each ds r
  unfolding register register_each
  register-each [] r known fresh = refl
  register-each (d ∷ ds) r known fresh =
      let (k, ks) = &&-eq-true (is_known_plan d) (all_of is_known_plan ds) known in
      let next = registered js trigger d.script_id r (schedule_script js trigger r.jobs d) in
      let goes_on = (registered-counts d r k).2 ∙ fresh in
      rw goes_on (register-each ds next ks goes_on)

  -- The loop ends at the first unknown timezone.
  pub register_aborts :
      (before after : List (Schedule Plan)) (d : Schedule Plan) (r : Reconciled Store)
      → all_of is_known_plan before ≡ true
      → trigger d.plan ≡ key_error
      → r.aborted ≡ false
      → register js trigger (before ++ d ∷ after) r
        ≡ record (register_each before r) { aborted = true }
  unfolding register register_each schedule_script
  register_aborts [] after d r known unknown fresh = rw unknown refl
  register_aborts (b ∷ before) after d r known unknown fresh =
      let (k, ks) = &&-eq-true (is_known_plan b) (all_of is_known_plan before) known in
      let next = registered js trigger b.script_id r (schedule_script js trigger r.jobs b) in
      let goes_on = (registered-counts b r k).2 ∙ fresh in
      rw goes_on (register_aborts before after d next ks unknown goes_on)

  is_desired-append :
      (before after : List (Schedule Plan)) (j : String)
      → is_desired js trigger (before ++ after) j
        ≡ (is_desired js trigger before j || is_desired js trigger after j)
  unfolding is_desired
  is_desired-append [] after j = refl
  is_desired-append (d ∷ before) after j = ground (arith, is_desired-append before after j)

  desired_self :
      (before after : List (Schedule Plan)) (d : Schedule Plan)
      → is_desired js trigger (before ++ d ∷ after) d.script_id ≡ true
  desired_self before after d =
      rw is_desired-append (unfold is_desired in ground (arith, eq_refl d.script_id))

  -- The state at the beginning of the second loop.
  abbrev pub at_start : List (Schedule Plan) → Store → Reconciled Store
  at_start ds s = record {
    jobs = remove_stale js trigger (is_desired js trigger ds) (get_jobs s) s;
    marks = [];
    restored = 0;
    failed = 0;
    aborted = false;
  }

  pub get-at_start :
      (ds : List (Schedule Plan)) (s : Store) (j : String)
      → get_job (at_start ds s).jobs j ≡ (if is_desired js trigger ds j then get_job s j else none)
  get-at_start ds s j =
      get-remove_stale (is_desired js trigger ds) (get_jobs s) s j ∙ ground (arith, listed s j)

  pub reconcile-each :
      (ds : List (Schedule Plan)) (s : Store)
      → all_of is_known_plan ds ≡ true
      → reconcile js trigger ds s ≡ register_each ds (at_start ds s)
  unfolding reconcile
  reconcile-each ds s known = register-each ds (at_start ds s) known refl

  -- No job is left that no enabled schedule asks for.
  pub reconcile_stale :
      (ds : List (Schedule Plan)) (s : Store) (j : String)
      → is_desired js trigger ds j ≡ false
      → get_job (register_each ds (at_start ds s)).jobs j ≡ none
  reconcile_stale ds s j h = get-each_other ds (at_start ds s) j h ∙ get-at_start ds s j ∙ rw h refl

  -- The job of a schedule, the only one for its script: of the schedule's own plan if that parses, and
  -- the job that was there before if it does not.
  pub reconcile_desired :
      (before after : List (Schedule Plan)) (d : Schedule Plan) (s : Store)
      → is_desired js trigger before d.script_id ≡ false
      → is_desired js trigger after d.script_id ≡ false
      → let ds = before ++ d ∷ after in
        get_job (register_each ds (at_start ds s)).jobs d.script_id
        ≡ (if is_parsed (trigger d.plan) then some d.plan else get_job s d.script_id)
  reconcile_desired before after d s hb ha =
      rw (each_append, each_cons)
        (get-each_other after _ d.script_id ha
          ∙ get-registered d _ d.script_id
          ∙ rw
              (
                eq_refl d.script_id,
                get-each_other before _ d.script_id hb,
                get-at_start (before ++ d ∷ after) s d.script_id,
                desired_self before after d,
              )
              refl)

-- ===== src/Scheduler/Reconcile.antt =====
-- app/application/services/schedule_reconciliation.py with the runtime jobs of
-- app/adapters/runtime/apscheduler_runtime.py: the enabled schedules are made into jobs.
-- APScheduler's job store is a parameter, with what the code relies on as laws; so is what
-- `CronTrigger.from_crontab(cron, timezone=ZoneInfo(timezone))` makes of a plan, before anything is written.
mod Loop
pub mod Laws
use node_nexus_api.Prelude.{
  ℕ, suc, ◌+◌, String, Bool, true, false, not, Option, none, some, List, [], ◌∷◌, ◌≡◌, refl, arith,
  any_of, all_of, length, str_eq, eq_iff, eq_refl, if◌then◌else◌, Bool-cases, inl, inr, count_if,
  map, ◌&&◌,
}

abbrev pub is_job {ℓ} : {A : Type ℓ} → Option A → Bool
is_job none = false
is_job (some j) = true

pub record JobStore (Plan : Type 0) : Type 1 where
  pub Store : Type 0
  pub get_job : Store → String → Option Plan
  pub get_jobs : Store → List String
  pub remove_job : Store → String → Store
  pub add_job : Store → String → Plan → Store
  pub get-remove :
      (s : Store) (k j : String)
      → get_job (remove_job s k) j ≡ (if str_eq k j then none else get_job s j)
  pub get-add :
      (s : Store) (k j : String) (p : Plan)
      → get_job (add_job s k p) j ≡ (if str_eq k j then some p else get_job s j)
  pub listed : (s : Store) (j : String) → any_of (str_eq j) (get_jobs s) ≡ is_job (get_job s j)

-- A plan has a trigger, or its cron expression or timezone is malformed, which is a ValueError, or its
-- timezone is unknown: ZoneInfoNotFoundError is a KeyError.
pub data Trigger : Type 0 where
  parsed value_error key_error : Trigger

abbrev pub is_parsed : Trigger → Bool
is_parsed parsed = true
is_parsed _ = false

abbrev pub is_known : Trigger → Bool
is_known key_error = false
is_known _ = true

-- What an attempt to schedule a script ends in: the new jobs, or an exception.
pub data Scheduled (Store : Type 0) : Type 0 where
  scheduled : Store → Scheduled Store
  raised_value_error raised_key_error : Scheduled Store

pub record Schedule (Plan : Type 0) : Type 0 where
  pub script_id : String
  pub plan : Plan

pub record Reconciled (Store : Type 0) : Type 0 where
  pub jobs : Store
  -- the calls of `mark_registration`, newest first: whether the schedule is registered
  pub marks : List (String × Bool)
  pub restored : ℕ
  pub failed : ℕ
  -- an exception that is not caught ends `reconcile`
  pub aborted : Bool

module _ {Plan : Type 0} (js : JobStore Plan) (trigger : Plan → Trigger) where
  open js use {Store, get_job, get_jobs, remove_job, add_job, get-remove, get-add, listed}

  abbrev pub scheduled_as : Store → Schedule Plan → Trigger → Scheduled Store
  scheduled_as s d parsed =
      if is_job (get_job s d.script_id)
      then scheduled (add_job (remove_job s d.script_id) d.script_id d.plan)
      else scheduled (add_job s d.script_id d.plan)
  scheduled_as s d value_error = raised_value_error
  scheduled_as s d key_error = raised_key_error

  unfoldable pub schedule_script : Store → Schedule Plan → Scheduled Store
  schedule_script s d = scheduled_as s d (trigger d.plan)

  unfoldable pub unschedule_script : Store → String → Store
  unschedule_script s id = if is_job (get_job s id) then remove_job s id else s

  -- The first loop of `reconcile`, over the jobs that were there.
  unfoldable pub remove_stale : (String → Bool) → List String → Store → Store
  remove_stale desired [] s = s
  remove_stale desired (id ∷ ids) s =
      remove_stale desired ids (if not (desired id) then unschedule_script s id else s)

  -- `except (RuntimeError, ValueError)`
  abbrev pub registered : String → Reconciled Store → Scheduled Store → Reconciled Store
  registered id r raised_key_error = record r { aborted = true }
  registered id r raised_value_error = record r {
    marks = (id, false) ∷ r.marks;
    failed = r.failed + 1;
  }
  registered id r (scheduled s) = record r {
    jobs = s;
    marks = (id, true) ∷ r.marks;
    restored = r.restored + 1;
  }

  -- The second loop.
  unfoldable pub register : List (Schedule Plan) → Reconciled Store → Reconciled Store
  register [] r = r
  register (d ∷ ds) r =
      let next = registered d.script_id r (schedule_script r.jobs d) in
      let rest = register ds next in if next.aborted then next else rest

  unfoldable pub is_desired : List (Schedule Plan) → String → Bool
  is_desired ds id = any_of (λ d. str_eq id d.script_id) ds

  unfoldable pub reconcile : List (Schedule Plan) → Store → Reconciled Store
  reconcile ds s = register ds (record {
    jobs = remove_stale (is_desired ds) (get_jobs s) s;
    marks = [];
    restored = 0;
    failed = 0;
    aborted = false;
  })

  pub get-unschedule :
      (s : Store) (k j : String)
      → get_job (unschedule_script s k) j ≡ (if str_eq k j then none else get_job s j)
  unfolding unschedule_script
  get-unschedule s k j = elim (Bool-cases (is_job (get_job s k))) [
    | inl there ↦ rw there (get-remove s k j)
    | inr absent ↦ rw absent (ground (arith, eq_iff k j))
  ]

  pub get-scheduled :
      (s : Store) (d : Schedule Plan) (j : String)
      → get_job
          (if is_job (get_job s d.script_id)
            then add_job (remove_job s d.script_id) d.script_id d.plan
            else add_job s d.script_id d.plan)
          j
        ≡ (if str_eq d.script_id j then some d.plan else get_job s j)
  get-scheduled s d j = ground (
    arith,
    get-add s d.script_id j d.plan,
    get-add (remove_job s d.script_id) d.script_id j d.plan,
    get-remove s d.script_id j,
  )

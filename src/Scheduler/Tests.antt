-- ===== src/Scheduler/Tests.antt =====
-- The scheduler on small inputs.
use node_nexus_api.Prelude.{
  ℕ, ◌+◌, String, true, false, none, some, List, [], ◌∷◌, ◌≡◌, refl, arith, any_of, str_eq, eq_iff,
  if◌then◌else◌, ◌==◌, map,
}
use node_nexus_api.Dict
use node_nexus_api.Dict.{Dict}
use node_nexus_api.Scheduler.{
  Ownership, Database, Runtime, probe, owns_execution, try_acquire, release, monitor_round,
  executed, skipped_no_ownership, execute_scheduled_script,
}
use node_nexus_api.Scheduler.Replicas.{
  Cluster, Event, monitor_of, stop_of, lost_session_of, react_all, monitor, IsExclusive,
  at_most_one_owner, lost_lock_keeps_executing,
}
use node_nexus_api.Scheduler.Restored.{monitor_round_decides}
use node_nexus_api.Scheduler.Reconcile.{
  Trigger, parsed, value_error, key_error, JobStore, Schedule, is_job, reconcile, is_desired,
  register, remove_stale, schedule_script, unschedule_script,
}
use node_nexus_api.Scheduler.Reconcile.Laws.{reconcile_aborts}

abbrev idle : Ownership
idle = record { is_postgres = true; connection = none; acquired = false }

abbrev owner : Ownership
owner = record { is_postgres = true; connection = some 7; acquired = true }

abbrev silent : Database
silent = record { connect = none; try_lock = none; alive = false }

abbrev runtime_of : Ownership → Runtime
runtime_of o = record { ownership = some o; owns = o.acquired; has_executor = true }

abbrev start : Cluster
start = record { holder = none; replica = λ i. runtime_of idle }

start-IsExclusive : IsExclusive start
unfolding owns_execution
start-IsExclusive = record { postgres = λ i. refl; owners = λ i h. absurd (cc) }

abbrev handover : List Event
handover = monitor_of 1 ∷ monitor_of 2 ∷ stop_of 1 ∷ monitor_of 2 ∷ []

two_is_owner : owns_execution ((react_all start handover).replica 2) ≡ true
unfolding owns_execution monitor_round probe try_acquire release
two_is_owner = refl

at_most_one_owner_example : ◌≡◌ {A = ℕ} 2 2
at_most_one_owner_example =
    at_most_one_owner start handover 2 2 start-IsExclusive (tt, (tt, (tt, (tt, tt)))) two_is_owner
      two_is_owner

-- With a lost session two replicas are owners.
abbrev lost : List Event
lost = monitor_of 1 ∷ lost_session_of 1 ∷ monitor_of 2 ∷ []

two_owners :
    (owns_execution ((react_all start lost).replica 1) ≡ true)
    × (owns_execution ((react_all start lost).replica 2) ≡ true)
unfolding owns_execution monitor_round probe try_acquire
two_owners = (refl, refl)

lost_lock_keeps_executing_example :
    execute_scheduled_script (monitor (runtime_of owner) (silent ∷ silent ∷ [])) ≡ executed
lost_lock_keeps_executing_example =
    lost_lock_keeps_executing (runtime_of owner) owner (silent ∷ silent ∷ []) refl refl refl

-- APScheduler's store as a table.
table_listed :
    {V : Type 0} (d : Dict V) (j : String)
    → any_of (str_eq j) (map (λ e. e.0) d) ≡ is_job (Dict.get d j)
unfolding Dict.get
table_listed [] j = refl
table_listed ((k, v) ∷ d) j = ground (arith, table_listed d j, eq_iff j k, eq_iff k j)

abbrev table : JobStore ℕ
table = record {
  Store = Dict ℕ;
  get_job = Dict.get;
  get_jobs = λ d. map (λ e. e.0) d;
  remove_job = Dict.remove;
  add_job = Dict.put;
  get-remove = Dict.get-remove;
  get-add = Dict.get-put;
  listed = table_listed;
}

abbrev daily : Schedule ℕ
daily = record { script_id = "daily"; plan = 3 }

abbrev broken : Schedule ℕ
broken = record { script_id = "broken"; plan = 0 }

-- A plan is a number: 0 does not parse, and 7 has an unknown timezone.
abbrev trigger : ℕ → Trigger
trigger n = if n == 0 then value_error else if n == 7 then key_error else parsed

abbrev lunar : Schedule ℕ
lunar = record { script_id = "lunar"; plan = 7 }

abbrev before_restart : Dict ℕ
before_restart = ("old", 1) ∷ ("broken", 9) ∷ []

reconcile_run :
    (reconcile table trigger (daily ∷ broken ∷ []) before_restart).jobs
    ≡ ("broken", 9) ∷ ("daily", 3) ∷ []
unfolding reconcile register remove_stale schedule_script unschedule_script is_desired Dict.get
    Dict.put Dict.remove
reconcile_run = refl

reconcile_aborts_example :
    ((reconcile table trigger (broken ∷ lunar ∷ daily ∷ []) before_restart).aborted ≡ true)
    × ((reconcile table trigger (broken ∷ lunar ∷ daily ∷ []) before_restart).restored
          + (reconcile table trigger (broken ∷ lunar ∷ daily ∷ []) before_restart).failed
        ≡ 1)
    × ((j : String)
        → is_desired table trigger (broken ∷ []) j ≡ false
        → Dict.get (reconcile table trigger (broken ∷ lunar ∷ daily ∷ []) before_restart).jobs j ≡ (
            if is_desired table trigger (broken ∷ lunar ∷ daily ∷ []) j
            then Dict.get before_restart j
            else none))
reconcile_aborts_example =
    reconcile_aborts table trigger (broken ∷ []) (daily ∷ []) lunar before_restart refl refl

monitor_round_decides_example :
    ((conn : ℕ)
      → silent.connect ≡ some conn
      → silent.try_lock ≡ some true
      → execute_scheduled_script (monitor_round (runtime_of idle) silent) ≡ executed)
    × (silent.connect ≡ none
        → execute_scheduled_script (monitor_round (runtime_of idle) silent) ≡ skipped_no_ownership)
    × (silent.try_lock ≡ none
        → execute_scheduled_script (monitor_round (runtime_of idle) silent) ≡ skipped_no_ownership)
    × (silent.try_lock ≡ some false
        → execute_scheduled_script (monitor_round (runtime_of idle) silent) ≡ skipped_no_ownership)
monitor_round_decides_example =
    monitor_round_decides (runtime_of idle) idle silent refl refl refl refl

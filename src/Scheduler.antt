-- ===== src/Scheduler.antt =====
-- Ownership of scheduled execution: the advisory lock of app/adapters/persistence/scheduler_ownership.py
-- and the replica's monitor of app/adapters/runtime/apscheduler_runtime.py, on the path with an
-- ownership port. What PostgreSQL answers is an argument: whether a connection opens, what
-- `pg_try_advisory_lock` returns, and whether the lock's connection still answers.
pub mod Reconcile
pub mod Replicas
pub mod Restored
mod Tests
use node_nexus_api.Prelude.{ℕ, Bool, true, false, not, Option, none, some, ◌&&◌, if◌then◌else◌}

pub record Ownership : Type 0 where
  pub is_postgres : Bool
  pub connection : Option ℕ
  pub acquired : Bool

-- `none`: the call raises
pub record Database : Type 0 where
  pub connect : Option ℕ
  pub try_lock : Option Bool
  pub alive : Bool

pub data Answer : Type 0 where
  return : Bool → Answer
  raise : Answer

abbrev pub is_open : Option ℕ → Bool
is_open none = false
is_open (some c) = true

abbrev pub locked : Ownership → ℕ → Option Bool → Ownership × Answer
locked o conn none = (o, raise)
locked o conn (some false) = (record o { acquired = false }, return false)
locked o conn (some true) = (record o { connection = some conn; acquired = true }, return true)

abbrev pub connected : Ownership → Option ℕ → Option Bool → Ownership × Answer
connected o none answer = (o, raise)
connected o (some conn) answer = locked o conn answer

unfoldable pub try_acquire : Ownership → Database → Ownership × Answer
try_acquire o db =
    if not o.is_postgres
    then (record o { acquired = true }, return true)
    else if o.acquired && is_open o.connection
    then (o, return true)
    else connected o db.connect db.try_lock

unfoldable pub probe : Ownership → Database → Bool
probe o db =
    if not o.is_postgres then true else elim o.connection [ none ↦ false | some c ↦ db.alive ]

-- The connection is closed whether or not the unlock succeeds.
unfoldable pub release : Ownership → Ownership
release o =
    if not o.is_postgres
    then record o { acquired = false }
    else record o { connection = none; acquired = false }

-- The part of `ApschedulerRuntime` that decides who executes.
pub record Runtime : Type 0 where
  pub ownership : Option Ownership
  pub owns : Bool
  pub has_executor : Bool

-- the property `owns_execution`
unfoldable pub owns_execution : Runtime → Bool
owns_execution r = elim r.ownership [ none ↦ r.owns | some o ↦ o.acquired ]

-- One pass of the loop in `_monitor_ownership_with_port`, for the ownership `o` of the runtime. An
-- exception, of the acquisition or of the failed probe, is caught.
abbrev pub after_acquire : Runtime → Ownership × Answer → Runtime
after_acquire r (o, return acquired) = record r { ownership = some o; owns = acquired }
after_acquire r (o, raise) = record r { ownership = some o; owns = false }

abbrev pub monitor_port : Runtime → Ownership → Database → Runtime
monitor_port r o db =
    if not o.acquired
    then after_acquire r (try_acquire o db)
    else if probe o db
    then r
    else record r { owns = false }

unfoldable pub monitor_round : Runtime → Database → Runtime
monitor_round r db = elim r.ownership [ none ↦ r | some o ↦ monitor_port r o db ]

pub data JobOutcome : Type 0 where
  skipped_no_ownership executed runtime_error : JobOutcome

-- `_execute_scheduled_script`, up to the call of the executor
unfoldable pub execute_scheduled_script : Runtime → JobOutcome
unfolding owns_execution
execute_scheduled_script r =
    if not (owns_execution r)
    then skipped_no_ownership
    else if not r.has_executor
    then runtime_error
    else executed

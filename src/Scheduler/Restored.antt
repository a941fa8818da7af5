-- ===== src/Scheduler/Restored.antt =====
-- What the monitor makes of a replica that is not the owner.
use node_nexus_api.Prelude.{true, false, none, some, ◌≡◌, arith, ℕ}
use node_nexus_api.Scheduler.{
  Ownership, Database, try_acquire, Runtime, monitor_round, skipped_no_ownership, executed,
  execute_scheduled_script,
}

-- On PostgreSQL, a replica with an executor and an ownership port that has not acquired the lock
-- executes its jobs after a round of the monitor if a connection opened and the lock was granted, and
-- skips them if no connection opened, the query for the lock failed or the lock was refused.
pub monitor_round_decides :
    (r : Runtime) (o : Ownership) (db : Database)
    → r.ownership ≡ some o
    → o.is_postgres ≡ true
    → o.acquired ≡ false
    → r.has_executor ≡ true
    → ((conn : ℕ)
        → db.connect ≡ some conn
        → db.try_lock ≡ some true
        → execute_scheduled_script (monitor_round r db) ≡ executed)
      × (db.connect ≡ none → execute_scheduled_script (monitor_round r db) ≡ skipped_no_ownership)
      × (db.try_lock ≡ none → execute_scheduled_script (monitor_round r db) ≡ skipped_no_ownership)
      × (db.try_lock ≡ some false
          → execute_scheduled_script (monitor_round r db) ≡ skipped_no_ownership)
unfolding execute_scheduled_script monitor_round try_acquire
monitor_round_decides r o db e postgres idle ready = (
  λ conn opened granted. ground arith,
  λ closed. ground arith,
  λ failed. ground arith,
  λ refused. ground arith,
)

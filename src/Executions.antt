-- ===== src/Executions.antt =====
-- app/application/services/execution_registry.py: the tasks of the executions that run. An entry is a task
-- with the time of its registration in seconds, or a task alone. `done` says which tasks have ended. The
-- order of the entries, which nothing reads, is that of the last registrations.
mod Expiry
mod Tests
use node_nexus_api.Prelude.{
  ℕ, ◌-◌, Bool, true, false, not, Option, none, some, List, [], ◌∷◌, ◌++◌, keep_if, ltb,
  if◌then◌else◌, ◌==◌,
}

pub data Entry : Type 0 where
  timed : (task time : ℕ) → Entry
  direct : (task : ℕ) → Entry

abbrev pub Registry : Type 0
Registry = List (ℕ × Entry)

abbrev pub task_of : Entry → ℕ
task_of (timed task time) = task
task_of (direct task) = task

-- `now - ts > _TTL_SECONDS`
abbrev pub is_expired : ℕ → Entry → Bool
is_expired now (timed task time) = ltb 3600 (now - time)
is_expired now (direct task) = false

unfoldable pub cleanup_expired : ℕ → Registry → Registry
cleanup_expired now tasks = keep_if (λ p. not (is_expired now p.1)) tasks

-- `_tasks.pop(execution_id, None)`, which is also what a task does when it ends
unfoldable pub remove : Registry → ℕ → Registry
remove tasks id = keep_if (λ p. not (p.0 == id)) tasks

unfoldable pub register_execution : ℕ → ℕ → ℕ → Registry → Registry
register_execution now id task tasks =
    remove (cleanup_expired now tasks) id ++ (id, timed task now) ∷ []

unfoldable pub entry_of : Registry → ℕ → Option Entry
entry_of [] id = none
entry_of ((id', entry) ∷ tasks) id =
    let rest = entry_of tasks id in if id' == id then some entry else rest

abbrev pub task_in : Option Entry → Option ℕ
task_in none = none
task_in (some entry) = some (task_of entry)

unfoldable pub get_execution_task : Registry → ℕ → Option ℕ
get_execution_task tasks id = task_in (entry_of tasks id)

-- The task that is cancelled. `none`: there is none, or it has ended.
abbrev pub cancelled_of : (ℕ → Bool) → Option ℕ → Option ℕ
cancelled_of done none = none
cancelled_of done (some task) = if done task then none else some task

unfoldable pub cancel_execution_task : (ℕ → Bool) → Registry → ℕ → Option ℕ
cancel_execution_task done tasks id = cancelled_of done (get_execution_task tasks id)

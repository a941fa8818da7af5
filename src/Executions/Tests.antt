-- ===== src/Executions/Tests.antt =====
-- Two executions, more than an hour apart.
use node_nexus_api.Prelude.{
  true, Bool, ℕ, ◌==◌, ◌+◌, ◌≤◌, ◌<◌, false, none, some, [], ◌-◌, ltb, if◌then◌else◌, ◌≡◌, refl,
}
use node_nexus_api.Executions.{
  get_execution_task, register_execution, cancel_execution_task, cleanup_expired, remove, entry_of,
}
use node_nexus_api.Executions.Expiry.{register-cancel}

abbrev is_twenty : ℕ → Bool
is_twenty task = task == 20

register-cancel_example :
    let after = register_execution 2000 2 20 (register_execution 100 1 10 []) in
    (get_execution_task after 1 ≡ (if ltb 3600 (2000 - 100) then none else some 10))
    × (2000 ≤ 100 + 3600 → is_twenty 10 ≡ false → cancel_execution_task is_twenty after 1 ≡ some 10)
    × (2000 ≤ 100 + 3600 → is_twenty 10 ≡ true → cancel_execution_task is_twenty after 1 ≡ none)
    × (100 + 3600 < 2000 → cancel_execution_task is_twenty after 1 ≡ none)
register-cancel_example = register-cancel is_twenty 100 2000 1 10 2 20 [] refl refl

-- A task that runs for more than an hour is no longer cancelled.
long_run :
    cancel_execution_task
      (λ task. false)
      (register_execution 4000 2 20 (register_execution 100 1 10 []))
      1
    ≡ none
unfolding cancel_execution_task get_execution_task register_execution cleanup_expired remove
    entry_of
long_run = refl

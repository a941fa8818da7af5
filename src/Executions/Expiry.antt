-- ===== src/Executions/Expiry.antt =====
-- How long a running execution can be cancelled.
use node_nexus_api.Prelude.{
  ◌+◌, ◌≤◌, ◌<◌, Bool, ℕ, ◌-◌, true, false, not, Option, none, some, [], ◌∷◌, ◌++◌, ltb,
  if◌then◌else◌, ◌==◌, ==_refl, ◌≡◌, refl, ap, ◌∙◌, arith, Bool-cases, inl, inr,
}
use node_nexus_api.Executions.{
  Entry, timed, Registry, is_expired, cleanup_expired, remove, register_execution, entry_of,
  task_in, get_execution_task, cancel_execution_task,
}

entry-removed : (tasks : Registry) (id : ℕ) → entry_of (remove tasks id) id ≡ none
unfolding entry_of remove
entry-removed [] id = refl
entry-removed ((id', entry) ∷ tasks) id = elim (Bool-cases (id' == id)) [
  | inl y ↦ rw y (entry-removed tasks id)
  | inr n ↦ rw (n, n) (entry-removed tasks id)
]

entry-removed_other :
    (tasks : Registry) (id other : ℕ)
    → (id == other) ≡ false
    → entry_of (remove tasks other) id ≡ entry_of tasks id
unfolding entry_of remove
entry-removed_other [] id other h = refl
entry-removed_other ((id', entry) ∷ tasks) id other h = elim (Bool-cases (id' == other)) [
  | inl y ↦ rw (y, not_other id' y) (entry-removed_other tasks id other h)
  | inr n ↦ rw n (
      ap (λ (o : Option Entry). if id' == id then some entry else o)
        (entry-removed_other tasks id other h))
]
  where
    not_other : (i : ℕ) → (i == other) ≡ true → (i == id) ≡ false
    not_other i y = ground (arith, h)

entry-append :
    (xs ys : Registry) (id : ℕ) → entry_of xs id ≡ none → entry_of (xs ++ ys) id ≡ entry_of ys id
unfolding entry_of
entry-append [] ys id h = refl
entry-append ((id', entry) ∷ xs) ys id h = elim (Bool-cases (id' == id)) [
  | inl y ↦ let g = rw y at h in absurd (cc)
  | inr n ↦ let g = rw n at h in rw n (entry-append xs ys id g)
]

entry-append_other :
    (xs : Registry) (id other : ℕ) (entry : Entry)
    → (other == id) ≡ false
    → entry_of (xs ++ (other, entry) ∷ []) id ≡ entry_of xs id
unfolding entry_of
entry-append_other [] id other entry h = rw h refl
entry-append_other ((id', e) ∷ xs) id other entry h =
    ap (λ (o : Option Entry). if id' == id then some e else o)
      (entry-append_other xs id other entry h)

cleanup-append :
    (now : ℕ) (xs ys : Registry)
    → cleanup_expired now (xs ++ ys) ≡ cleanup_expired now xs ++ cleanup_expired now ys
unfolding cleanup_expired
cleanup-append now [] ys = refl
cleanup-append now ((id, e) ∷ xs) ys = elim (Bool-cases (not (is_expired now e))) [
  | inl y ↦ rw (y, cleanup-append now xs ys) refl
  | inr n ↦ rw (n, cleanup-append now xs ys) refl
]

entry-cleanup :
    (now : ℕ) (xs : Registry) (id : ℕ)
    → entry_of xs id ≡ none
    → entry_of (cleanup_expired now xs) id ≡ none
unfolding entry_of cleanup_expired
entry-cleanup now [] id h = refl
entry-cleanup now ((id', e) ∷ xs) id h = elim (Bool-cases (id' == id)) [
  | inl y ↦ let g = rw y at h in absurd (cc)
  | inr n ↦ let g = rw n at h in kept n (entry-cleanup now xs id g)
]
  where
    kept :
        (id' == id) ≡ false
        → entry_of (cleanup_expired now xs) id ≡ none
        → entry_of
            (if not (is_expired now e)
              then (id', e) ∷ cleanup_expired now xs
              else cleanup_expired now xs)
            id
          ≡ none
    kept n k = elim (Bool-cases (not (is_expired now e))) [ inl y ↦ rw (y, n) k | inr m ↦ rw m k ]

-- The cleanup at `now` of an entry alone.
last-cleanup :
    (now time id task : ℕ)
    → task_in (entry_of (cleanup_expired now ((id, timed task time) ∷ [])) id)
      ≡ (if ltb 3600 (now - time) then none else some task)
unfolding cleanup_expired entry_of
last-cleanup now time id task = elim (Bool-cases (ltb 3600 (now - time))) [
  | inl y ↦ rw y refl
  | inr n ↦ rw (n, ==_refl id) refl
]

register-get :
    (now later id task other task' : ℕ) (tasks : Registry)
    → (id == other) ≡ false
    → (other == id) ≡ false
    → get_execution_task
        (register_execution later other task' (register_execution now id task tasks))
        id
      ≡ (if ltb 3600 (later - now) then none else some task)
unfolding get_execution_task register_execution
register-get now later id task other task' tasks h k =
    ap task_in (
      entry-append_other (remove (cleanup_expired later (before ++ mine)) other) id other
        (timed task' later) k
      ∙ (entry-removed_other (cleanup_expired later (before ++ mine)) id other h
          ∙ (ap (λ (xs : Registry). entry_of xs id) (cleanup-append later before mine)
              ∙ entry-append (cleanup_expired later before) (cleanup_expired later mine) id
                  (entry-cleanup later before id (entry-removed (cleanup_expired now tasks) id)))))
    ∙ last-cleanup later now id task
  where
    before : Registry
    before = remove (cleanup_expired now tasks) id

    mine : Registry
    mine = (id, timed task now) ∷ []

-- After the registration of another execution, a task that was registered is found unless more than an hour lies between the two registrations, and then a cancellation cancels exactly that task if it has not ended, and nothing if it has; more than an hour later a cancellation cancels nothing, whether the task has ended or not.
pub register-cancel :
    (done : ℕ → Bool) (now later id task other task' : ℕ) (tasks : Registry)
    → (id == other) ≡ false
    → (other == id) ≡ false
    → let after = register_execution later other task' (register_execution now id task tasks) in
      (get_execution_task after id ≡ (if ltb 3600 (later - now) then none else some task))
      × (later ≤ now + 3600 → done task ≡ false → cancel_execution_task done after id ≡ some task)
      × (later ≤ now + 3600 → done task ≡ true → cancel_execution_task done after id ≡ none)
      × (now + 3600 < later → cancel_execution_task done after id ≡ none)
unfolding cancel_execution_task
register-cancel done now later id task other task' tasks h k =
    let found = register-get now later id task other task' tasks h k in
    (
      found,
      (λ soon runs. rw (found, in_time soon, runs) refl),
      (λ soon ended. rw (found, in_time soon, ended) refl),
      (λ late. rw (found, too_late late) refl),
    )
  where
    in_time : later ≤ now + 3600 → ltb 3600 (later - now) ≡ false
    in_time soon = ground arith

    too_late : now + 3600 < later → ltb 3600 (later - now) ≡ true
    too_late late = ground arith

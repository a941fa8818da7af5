-- ===== src/Scripts/Settled.antt =====
-- Which executions of a batch have ended, as the updates are made.
use node_nexus_api.Prelude.{
  ℕ, Bool, true, false, not, List, [], ◌∷◌, ◌||◌, map, if◌then◌else◌, ◌==◌, ltb, all_of, ◌≡◌, refl,
  ◌∙◌, ◌≢◌, All, ==_refl, all_of-append, &&-eq-true,
}
use node_nexus_api.Scripts.{ResolvedStep, StepResult, Status, running, success, error, Remote}
use node_nexus_api.Scripts.Batches.{
  Execution, Target, NodeResult, State, create_execution, set_status, create_targets,
  update_execution, persist, mark_errors,
}

abbrev pub is_running : Status → Bool
is_running running = true
is_running success = false
is_running error = false

pub ended-running : (st : Status) → st ≢ running → is_running st ≡ false
ended-running running h = absurd (h refl)
ended-running success h = refl
ended-running error h = refl

-- An execution that was there before, has ended, or is one that `p` still has to end.
abbrev pub settled : ℕ → (ℕ → Bool) → Execution → Bool
settled n p x = ltb x.id n || (not (is_running x.status) || p x.id)

pub weaken-settled :
    (n : ℕ) (p q : ℕ → Bool)
    → ((i : ℕ) → p i ≡ true → q i ≡ true)
    → (xs : List Execution) → all_of (settled n p) xs ≡ true
    → all_of (settled n q) xs ≡ true
weaken-settled n p q f [] h = refl
weaken-settled n p q f (x ∷ xs) h =
    let (a, rest) = &&-eq-true (settled n p x) (all_of (settled n p) xs) h in
    rw (one (ltb x.id n) (not (is_running x.status)) (p x.id) (q x.id) (f x.id) a)
      (weaken-settled n p q f xs rest)
  where
    one : (a b c d : Bool) → (c ≡ true → d ≡ true) → (a || (b || c)) ≡ true → (a || (b || d)) ≡ true
    one true b c d g k = refl
    one false true c d g k = refl
    one false false c d g k = g k

or_true : (b : Bool) → (b || true) ≡ true
or_true true = refl
or_true false = refl

-- An update ends the execution that it is for.
set_status-settled :
    (n id : ℕ) (p : ℕ → Bool) (st : Status) (steps : List StepResult)
    → is_running st ≡ false
    → (xs : List Execution) → all_of (settled n (λ i. i == id || p i)) xs ≡ true
    → all_of (settled n p) (map (set_status id st steps) xs) ≡ true
set_status-settled n id p st steps e [] h = refl
set_status-settled n id p st steps e (x ∷ xs) h =
    let (a, rest) =
      &&-eq-true (settled n (λ i. i == id || p i) x) (all_of (settled n (λ i. i == id || p i)) xs)
        h in
    rw (one (x.id == id) refl a) (set_status-settled n id p st steps e xs rest)
  where
    one :
        (b : Bool)
        → (x.id == id) ≡ b
        → (ltb x.id n || (not (is_running x.status) || ((x.id == id) || p x.id))) ≡ true
        → settled n p (if b then record { id = x.id; status = st; steps = steps } else x) ≡ true
    one true g k = rw e (or_true (ltb x.id n))
    one false g k = rw g at k

abbrev pub among : List ℕ → ℕ → Bool
among [] i = false
among (id ∷ ids) i = i == id || among ids i

module _ (updates : ℕ → Bool) (all_made : (i : ℕ) → updates i ≡ true) (n : ℕ) where
  update-settled :
      (s : State) (id : ℕ) (p : ℕ → Bool) (st : Status) (steps : List StepResult)
      → is_running st ≡ false
      → all_of (settled n (λ i. i == id || p i)) s.executions ≡ true
      → all_of (settled n p) (update_execution updates s id st steps).executions ≡ true
  unfolding update_execution
  update-settled s id p st steps e h =
      rw (all_made id) (set_status-settled n id p st steps e s.executions h)

  pub persist-settled :
      (s : State) (rs : List NodeResult)
      → All (λ r. is_running r.status ≡ false) rs
      → all_of (settled n (among (map (λ r. r.execution_id) rs))) s.executions ≡ true
      → all_of (settled n (λ i. false)) (persist updates s rs).executions ≡ true
  unfolding persist
  persist-settled s [] e h = weaken-settled n (among []) (λ i. false) (λ i k. k) s.executions h
  persist-settled s (r ∷ rs) e h =
      persist-settled (update_execution updates s r.execution_id r.status r.steps) rs e.1 (
        update-settled s r.execution_id (among (map (λ r. r.execution_id) rs)) r.status r.steps e.0
          h)

  pub mark_errors-settled :
      (s : State) (ts : List Target)
      → all_of (settled n (among (map (λ t. t.execution_id) ts))) s.executions ≡ true
      → all_of (settled n (λ i. false)) (mark_errors updates s ts).executions ≡ true
  unfolding mark_errors
  mark_errors-settled s [] h = weaken-settled n (among []) (λ i. false) (λ i k. k) s.executions h
  mark_errors-settled s (t ∷ ts) h =
      mark_errors-settled (update_execution updates s t.execution_id error []) ts
        (update-settled s t.execution_id (among (map (λ t. t.execution_id) ts)) error [] refl h)

-- The executions that are created are those of the targets.
pub create_targets-settled :
    (n : ℕ) (steps : List ResolvedStep) (s : State) (nodes : List Remote) (p : ℕ → Bool)
    → all_of (settled n p) s.executions ≡ true
    → all_of
        (settled n
          (λ i. p i || among (map (λ t. t.execution_id) (create_targets steps s nodes).1) i))
        (create_targets steps s nodes).0.executions
      ≡ true
unfolding create_targets create_execution
create_targets-settled n steps s [] p h =
    weaken-settled n p (λ i. p i || false) (λ i k. rw k refl) s.executions h
create_targets-settled n steps s (node ∷ nodes) p h =
    let ids : List ℕ =
      map (λ t. t.execution_id) (create_targets steps (create_execution s) nodes).1 in
    weaken-settled n (λ i. (p i || i == s.next_id) || among ids i)
      (λ i. p i || (i == s.next_id || among ids i))
      (λ i k. assoc (p i) (i == s.next_id) (among ids i) k)
      (create_targets steps (create_execution s) nodes).0.executions
      (create_targets-settled n steps (create_execution s) nodes (λ i. p i || i == s.next_id)
        created)
  where
    assoc : (a b c : Bool) → ((a || b) || c) ≡ true → (a || (b || c)) ≡ true
    assoc true b c k = refl
    assoc false b c k = k

    last_one :
        settled n
          (λ i. p i || i == s.next_id)
          (record { id = s.next_id; status = running; steps = [] })
        ≡ true
    last_one = rw (==_refl s.next_id, or_true (p s.next_id)) (or_true (ltb s.next_id n))

    created : all_of (settled n (λ i. p i || i == s.next_id)) (create_execution s).executions ≡ true
    created =
        all_of-append (settled n (λ i. p i || i == s.next_id)) s.executions
          (record { id = s.next_id; status = running; steps = [] } ∷ [])
        ∙ rw
            (
              weaken-settled n p (λ i. p i || i == s.next_id) (λ i k. rw k refl) s.executions h,
              last_one,
            )
            refl

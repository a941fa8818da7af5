-- ===== src/Docker/Order.antt =====
-- The order of an audit event that must be committed and what follows it.
use node_nexus_api.Prelude.{
  ℕ, String, Bool, true, false, Option, none, some, List, [], ◌∷◌, Text, if◌then◌else◌, ◌≡◌, refl,
}
use node_nexus_api.Docker.Runs.{
  Node, Effect, required, ran, logged, published, Outcome, returns, raises, World, Op, bound, ◌>>=◌,
  pure, raise, not_docker_node, checked, target_of, get_target, written, log_required,
  call_required, call_piped_required,
}

-- Nothing happens and an error is raised, or the event comes first.
abbrev pub Led : {A : Type 0} → String → List Effect × Outcome A → Type 0
Led action ([], returns a) = ⊥
Led action ([], raises e) = Unit
Led action (required event ∷ es, o) = event ≡ action
Led action (e ∷ es, o) = ⊥

abbrev pub LedBy : {A : Type 0} → Option String → List Effect × Outcome A → Type 0
LedBy none r = Unit
LedBy (some action) r = Led action r

module _ {A B : Type 0} (action : String) (w : World) (f : A → Op B) where
  Led-bound : (r : List Effect × Outcome A) → Led action r → Led action (bound r f w)
  Led-bound ([], returns a) h = absurd h
  Led-bound ([], raises e) h = tt
  Led-bound (required event ∷ es, returns a) h = h
  Led-bound (required event ∷ es, raises e) h = h
  Led-bound (ran command timeout ∷ es, o) h = absurd h
  Led-bound (logged event ∷ es, o) h = absurd h
  Led-bound (published event ∷ es, o) h = absurd h

  pub Led-bind : (m : Op A) → Led action (m w) → Led action ((m >>= f) w)
  Led-bind m h = Led-bound (m w) h

  Led-after_quiet :
      (r : List Effect × Outcome A)
      → r.0 ≡ []
      → ((a : A) → Led action (f a w))
      → Led action (bound r f w)
  Led-after_quiet ([], returns a) q h = h a
  Led-after_quiet ([], raises e) q h = tt
  Led-after_quiet (e ∷ es, o) q h = absurd (cc)

  pub Led-after :
      (m : Op A) → (m w).0 ≡ [] → ((a : A) → Led action (f a w)) → Led action ((m >>= f) w)
  Led-after m q h = Led-after_quiet (m w) q h

pub checked-quiet : {A : Type 0} (o : Option A) (w : World) → (checked o w).0 ≡ []
checked-quiet none w = refl
checked-quiet (some a) w = refl

pub target-quiet : (w : World) → (get_target w).0 ≡ []
unfolding get_target
target-quiet w = target w.node
  where
    target : (o : Option Node) → (target_of o w).0 ≡ []
    target none = refl
    target (some node) = docker node.has_docker
      where
        docker : (b : Bool) → ((if b then pure node else raise not_docker_node) w).0 ≡ []
        docker true = refl
        docker false = refl

pub quiet-bound :
    {A B : Type 0} (w : World) (f : A → Op B) (r : List Effect × Outcome A)
    → r.0 ≡ []
    → ((a : A) → (f a w).0 ≡ [])
    → (bound r f w).0 ≡ []
quiet-bound w f ([], returns a) q h = h a
quiet-bound w f ([], raises e) q h = refl
quiet-bound w f (e ∷ es, o) q h = absurd (cc)

pub quiet-checked :
    {A B : Type 0} (w : World) (f : A → Op B) (o : Option A)
    → ((a : A) → (f a w).0 ≡ [])
    → ((checked o >>= f) w).0 ≡ []
quiet-checked w f o h = quiet-bound w f (checked o w) (checked-quiet o w) h

module _ (w : World) (audit : w.has_audit ≡ true) where
  pub Led-log_required : (action : String) → Led action (log_required action w)
  unfolding log_required
  Led-log_required action = rw audit (committed (w.commits action))
    where
      committed : (b : Bool) → Led action (written (required action) b)
      committed true = refl
      committed false = tt

  pub Led-call_required :
      (action : String) (args : Text) (timeout : ℕ)
      → Led action (call_required action args timeout w)
  unfolding call_required
  Led-call_required action args timeout =
      Led-after action w _ get_target (target-quiet w)
        λ node. Led-bind action w _ (log_required action) (Led-log_required action)

  pub Led-call_piped_required :
      (action : String) (stdin args : Text) (timeout : ℕ)
      → Led action (call_piped_required action stdin args timeout w)
  unfolding call_piped_required
  Led-call_piped_required action stdin args timeout =
      Led-after action w _ get_target (target-quiet w)
        λ node. Led-bind action w _ (log_required action) (Led-log_required action)

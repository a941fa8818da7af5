-- ===== src/Docker/Returns.antt =====
-- What holds of the value that an operation returns, when it returns one.
use node_nexus_api.Prelude.{Option, none, some, List, ◌≡◌, refl}
use node_nexus_api.Docker.Runs.{Effect, Outcome, returns, raises, World, Op, bound, ◌>>=◌, checked}
use node_nexus_api.Docker.Commands.{Call, Calls, Within, All-append}

abbrev pub Holds : {A : Type 0} → (A → Type 0) → Outcome A → Type 0
Holds P (returns a) = P a
Holds P (raises e) = Unit

abbrev pub Returning : {A : Type 0} → (A → Type 0) → List Effect × Outcome A → Type 0
Returning P r = Holds P r.1

module _ {A B : Type 0} (Q : A → Type 0) (w : World) (f : A → Op B) where
  Returning-bound :
      (P : B → Type 0) (r : List Effect × Outcome A)
      → Returning Q r
      → ((a : A) → Q a → Returning P (f a w))
      → Returning P (bound r f w)
  Returning-bound P (es, returns a) h k = k a h
  Returning-bound P (es, raises e) h k = tt

  pub Returning-bind :
      (P : B → Type 0) (m : Op A)
      → Returning Q (m w)
      → ((a : A) → Q a → Returning P (f a w))
      → Returning P ((m >>= f) w)
  Returning-bind P m h k = Returning-bound P (m w) h k

  Within-then_bound :
      (c : Call) (r : List Effect × Outcome A)
      → Within c w r
      → Returning Q r
      → ((a : A) → Q a → Within c w (f a w))
      → Within c w (bound r f w)
  Within-then_bound c (es, returns a) t h k = All-append (Calls c w) es (f a w).0 t (k a h)
  Within-then_bound c (es, raises e) t h k = t

  pub Within-then :
      (c : Call) (m : Op A)
      → Within c w (m w)
      → Returning Q (m w)
      → ((a : A) → Q a → Within c w (f a w))
      → Within c w ((m >>= f) w)
  Within-then c m t h k = Within-then_bound c (m w) t h k

pub Returning-checked :
    {A : Type 0} (o : Option A) (w : World) → Returning (λ v. o ≡ some v) (checked o w)
Returning-checked none w = tt
Returning-checked (some a) w = refl

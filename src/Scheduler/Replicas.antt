-- ===== src/Scheduler/Replicas.antt =====
-- Several replicas and one advisory lock.
use node_nexus_api.Prelude.{
  ℕ, Bool, true, false, Option, none, some, List, [], ◌∷◌, ◌≡◌, refl, sym, ap, ◌==◌, arith, ◌∙◌,
  if◌then◌else◌,
}
use node_nexus_api.Scheduler.{
  Ownership, Database, try_acquire, release, probe, Runtime, owns_execution, monitor_port,
  monitor_round, executed, execute_scheduled_script,
}

-- Rounds of the monitor, each with what the database answers in it.
abbrev pub monitor : Runtime → List Database → Runtime
monitor r [] = r
monitor r (db ∷ dbs) = monitor (monitor_round r db) dbs

-- The replicas of a PostgreSQL deployment and the session that holds the lock.
pub record Cluster : Type 0 where
  pub holder : Option ℕ
  pub replica : ℕ → Runtime

abbrev pub update : (ℕ → Runtime) → ℕ → Runtime → ℕ → Runtime
update f i r j = if i == j then r else f j

abbrev pub is_free : Option ℕ → Bool
is_free none = true
is_free (some i) = false

abbrev pub is_held_by : ℕ → Option ℕ → Bool
is_held_by i none = false
is_held_by i (some j) = i == j

-- What PostgreSQL answers to replica `i`: a new session gets the lock if it is free, and the session
-- of a holder answers.
abbrev pub answers : Cluster → ℕ → Database
answers c i = record {
  connect = some i;
  try_lock = some (is_free c.holder);
  alive = is_held_by i c.holder;
}

abbrev pub taken : ℕ → Option ℕ → Option ℕ
taken i none = some i
taken i (some j) = some j

abbrev pub given_back : ℕ → Option ℕ → Option ℕ
given_back i none = none
given_back i (some j) = if i == j then none else some j

pub data Event : Type 0 where
  monitor_of stop_of lost_session_of : ℕ → Event

-- `shutdown`, which gives the lock back through the port
abbrev pub stopped : Runtime → Runtime
stopped r = record r {
  ownership = elim r.ownership [ none ↦ none | some o ↦ some (release o) ];
  owns = false;
}

-- A round of the monitor asks for the lock in a replica that is not the owner, and PostgreSQL grants a
-- lock that is free.
abbrev pub react : Cluster → Event → Cluster
react c (monitor_of i) = record {
  holder = if owns_execution (c.replica i) then c.holder else taken i c.holder;
  replica = update c.replica i (monitor_round (c.replica i) (answers c i));
}
react c (stop_of i) = record {
  holder = given_back i c.holder;
  replica = update c.replica i (stopped (c.replica i));
}
react c (lost_session_of i) = record c { holder = given_back i c.holder }

abbrev pub react_all : Cluster → List Event → Cluster
react_all c [] = c
react_all c (e ∷ es) = react_all (react c e) es

-- A port of the PostgreSQL kind.
abbrev pub is_postgres_port : Option Ownership → Bool
is_postgres_port none = false
is_postgres_port (some o) = o.is_postgres

-- Every replica is on PostgreSQL, and only the holder of the lock takes itself for the owner.
pub record IsExclusive (c : Cluster) : Type 0 where
  pub postgres : (i : ℕ) → is_postgres_port (c.replica i).ownership ≡ true
  pub owners : (i : ℕ) → owns_execution (c.replica i) ≡ true → c.holder ≡ some i

abbrev pub KeepsSession : Event → Type 0
KeepsSession (lost_session_of i) = ⊥
KeepsSession _ = Unit

abbrev pub KeepSessions : List Event → Type 0
KeepSessions [] = Unit
KeepSessions (e ∷ es) = KeepsSession e × KeepSessions es

-- A round of the monitor leaves a PostgreSQL port, which is the owner after it only if it was before or
-- the database granted the lock.
module _ (r : Runtime) (conn : ℕ) (free alive : Bool) where
  abbrev database : Database
  database = record { connect = some conn; try_lock = some free; alive = alive }

  port_round-postgres :
      (o : Ownership)
      → r.ownership ≡ some o
      → o.is_postgres ≡ true
      → is_postgres_port (monitor_port r o database).ownership ≡ true
  unfolding try_acquire probe
  port_round-postgres o e h = ground (arith, e, h)

  port_round-granted :
      (o : Ownership)
      → r.ownership ≡ some o
      → o.is_postgres ≡ true
      → owns_execution (monitor_port r o database) ≡ true
      → owns_execution r ≡ false
      → free ≡ true
  unfolding try_acquire probe owns_execution
  port_round-granted o e h owns not_owns = ground (arith, e, h)

  round-port :
      (o : Ownership) → r.ownership ≡ some o → monitor_round r database ≡ monitor_port r o database
  unfolding monitor_round
  round-port o e = rw e refl

  round-postgres :
      is_postgres_port r.ownership ≡ true
      → is_postgres_port (monitor_round r database).ownership ≡ true
  round-postgres h = by r.ownership refl h
    where
      by :
          (p : Option Ownership)
          → r.ownership ≡ p
          → is_postgres_port p ≡ true
          → is_postgres_port (monitor_round r database).ownership ≡ true
      by none e k = absurd (cc)
      by (some o) e k =
          ap (λ (x : Runtime). is_postgres_port x.ownership) (round-port o e)
          ∙ port_round-postgres o e k

  round-granted :
      is_postgres_port r.ownership ≡ true
      → owns_execution (monitor_round r database) ≡ true
      → owns_execution r ≡ false
      → free ≡ true
  round-granted h owns = by r.ownership refl h
    where
      by :
          (p : Option Ownership)
          → r.ownership ≡ p
          → is_postgres_port p ≡ true
          → owns_execution r ≡ false
          → free ≡ true
      by none e k n = absurd (cc)
      by (some o) e k n =
          port_round-granted o e k (sym (ap owns_execution (round-port o e)) ∙ owns) n

stopped-postgres :
    (r : Runtime)
    → is_postgres_port r.ownership ≡ true
    → is_postgres_port (stopped r).ownership ≡ true
unfolding release
stopped-postgres r h = ground (arith, h)

stopped_disowns :
    (r : Runtime) → is_postgres_port r.ownership ≡ true → owns_execution (stopped r) ≡ false
unfolding release owns_execution
stopped_disowns r h = ground (arith, h)

react-IsExclusive :
    (c : Cluster) (e : Event) → KeepsSession e → IsExclusive c → IsExclusive (react c e)
react-IsExclusive c (monitor_of i) k inv = record {
  postgres = λ j. ground (
    arith,
    inv.postgres j,
    round-postgres (c.replica i) i (is_free c.holder) (is_held_by i c.holder) (inv.postgres i),
  );
  owners = λ j owns. ground (
    arith,
    inv.owners i,
    inv.owners j,
    round-granted (c.replica i) i (is_free c.holder) (is_held_by i c.holder) (inv.postgres i),
  );
}
react-IsExclusive c (stop_of i) k inv = record {
  postgres = λ j. ground (arith, inv.postgres j, stopped-postgres (c.replica i) (inv.postgres i));
  owners = λ j owns. ground (arith, inv.owners j, stopped_disowns (c.replica i) (inv.postgres i));
}
react-IsExclusive c (lost_session_of i) k inv = absurd k

-- From a state in which every replica is on PostgreSQL and only the holder of the lock takes itself for the owner, and as long as no session is lost: after any interleaving of rounds of the monitors and shutdowns of the replicas, at most one replica takes itself for the owner of execution.
pub at_most_one_owner :
    (c : Cluster) (es : List Event) (i j : ℕ)
    → IsExclusive c
    → KeepSessions es
    → owns_execution ((react_all c es).replica i) ≡ true
    → owns_execution ((react_all c es).replica j) ≡ true
    → i ≡ j
at_most_one_owner c [] i j inv k hi hj = ground (arith, inv.owners i hi, inv.owners j hj)
at_most_one_owner c (e ∷ es) i j inv k hi hj =
    at_most_one_owner (react c e) es i j (react-IsExclusive c e k.0 inv) k.1 hi hj

monitor_round-kept :
    (r : Runtime) (o : Ownership) (db : Database)
    → r.ownership ≡ some o
    → o.acquired ≡ true
    → ((monitor_round r db).ownership ≡ some o)
      × ((monitor_round r db).has_executor ≡ r.has_executor)
unfolding monitor_round
monitor_round-kept r o db e acquired = ground arith

-- A replica with an executor whose ownership port has acquired the lock executes its jobs whatever the
-- later rounds of the monitor meet, a lost session included: `owns_execution` reads the port, and a
-- failed probe does not change the port.
pub lost_lock_keeps_executing :
    (r : Runtime) (o : Ownership) (dbs : List Database)
    → r.ownership ≡ some o
    → o.acquired ≡ true
    → r.has_executor ≡ true
    → execute_scheduled_script (monitor r dbs) ≡ executed
unfolding execute_scheduled_script monitor_round
lost_lock_keeps_executing r o [] e acquired ready = ground arith
lost_lock_keeps_executing r o (db ∷ dbs) e acquired ready =
    lost_lock_keeps_executing (monitor_round r db) o dbs (monitor_round-kept r o db e acquired).0
      acquired ((monitor_round-kept r o db e acquired).1 ∙ ready)

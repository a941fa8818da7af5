-- ===== src/Events/Reached.antt =====
-- What holds of the broadcaster after any sequence of steps.
use node_nexus_api.Prelude.{List, [], ◌∷◌, ◌++◌}
use node_nexus_api.Events.{Broadcaster}
use node_nexus_api.Events.Streams.{Step, subscribes, leaves, takes, publishes}

module _ {Event : Type 0} where
  -- The events after one step.
  abbrev pub and_then : List Event → Step Event → List Event
  and_then all (publishes e) = all ++ e ∷ []
  and_then all (subscribes id) = all
  and_then all (leaves id) = all
  and_then all (takes id) = all

  abbrev pub new_broadcaster : Broadcaster Event
  new_broadcaster = record { queues = []; history = [] }

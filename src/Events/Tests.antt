-- ===== src/Events/Tests.antt =====
-- The broadcaster on a few events.
use node_nexus_api.Prelude.{ℕ, [], ◌∷◌, List, ◌≡◌, refl}
use node_nexus_api.Events.{
  subscribe, publish, put_nowait, put_each, pop_all, pop, replay, take_next,
}
use node_nexus_api.Events.Streams.{Step, subscribes, takes, publishes, step, run}
use node_nexus_api.Events.Reached.{new_broadcaster}

-- One subscriber joins after an event, and reads one of two.
abbrev steps : List (Step ℕ)
steps = publishes 5 ∷ subscribes 1 ∷ publishes 7 ∷ takes 1 ∷ []

run_result : run new_broadcaster steps ≡ record {
  queues = (1, record { taken = 5 ∷ []; waiting = 7 ∷ [] }) ∷ [];
  history = 5 ∷ 7 ∷ [];
}
unfolding step subscribe publish put_nowait put_each pop_all pop replay take_next
run_result = refl

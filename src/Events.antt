-- ===== src/Events.antt =====
-- app/application/services/sse_broadcaster.py. `put_nowait` of a queue with a largest size raises when the
-- queue has that size, as documented; the ids of subscribers, which are random, are arguments.
mod Streams
mod Reached
mod Tests
use node_nexus_api.Prelude.{
  ℕ, Bool, true, false, not, Option, none, some, List, [], ◌∷◌, ◌++◌, ◌||◌, ltb, length, take_last,
  if◌then◌else◌, ◌==◌,
}

-- A queue, with what its reader has taken from it so far.
pub record Queue (Event : Type 0) : Type 0 where
  pub taken : List Event
  pub waiting : List Event

pub record Broadcaster (Event : Type 0) : Type 0 where
  pub queues : List (ℕ × Queue Event)
  pub history : List Event

module _ {Event : Type 0} where
  abbrev pub added : Queue Event → Event → Queue Event
  added q e = record { taken = q.taken; waiting = q.waiting ++ e ∷ [] }

  -- `queue.put_nowait(event)`: `none` stands for QueueFull
  unfoldable pub put_nowait : Queue Event → Event → Option (Queue Event)
  put_nowait q e = if ltb (length q.waiting) 256 then some (added q e) else none

  -- The loop of `subscribe`, which stops at a full queue.
  unfoldable pub replay : Queue Event → List Event → Queue Event
  replay q [] = q
  replay q (e ∷ events) = elim (put_nowait q e) [ none ↦ q | some q' ↦ replay q' events ]

  abbrev pub empty_queue : Queue Event
  empty_queue = record { taken = []; waiting = [] }

  unfoldable pub pop : List (ℕ × Queue Event) → ℕ → List (ℕ × Queue Event)
  pop [] id = []
  pop ((id', q) ∷ queues) id =
      let rest = pop queues id in if id' == id then rest else (id', q) ∷ rest

  -- The id is new.
  unfoldable pub subscribe : Broadcaster Event → ℕ → Broadcaster Event
  subscribe b id = record {
    queues = b.queues ++ (id, replay empty_queue (take_last 50 b.history)) ∷ [];
    history = b.history;
  }

  unfoldable pub unsubscribe : Broadcaster Event → ℕ → Broadcaster Event
  unsubscribe b id = record { queues = pop b.queues id; history = b.history }

  -- The loop of `publish` over the queues: the queues, and the ids of those that are full.
  unfoldable pub put_each : Event → List (ℕ × Queue Event) → List (ℕ × Queue Event) × List ℕ
  put_each e [] = ([], [])
  put_each e ((id, q) ∷ queues) =
      let (rest, dead) = put_each e queues in
      elim (put_nowait q e) [
        | none ↦ ((id, q) ∷ rest, id ∷ dead)
        | some q' ↦ ((id, q') ∷ rest, dead)
      ]

  unfoldable pub pop_all : List (ℕ × Queue Event) → List ℕ → List (ℕ × Queue Event)
  pop_all queues [] = queues
  pop_all queues (id ∷ dead) = pop_all (pop queues id) dead

  abbrev pub trimmed : List Event → List Event
  trimmed history = if ltb 100 (length history) then take_last 100 history else history

  unfoldable pub publish : Broadcaster Event → Event → Broadcaster Event
  publish b e = record {
    queues = pop_all (put_each e b.queues).0 (put_each e b.queues).1;
    history = trimmed (b.history ++ e ∷ []);
  }

  -- The reader of one queue takes the event in front, if there is one.
  abbrev pub taken_first : Queue Event → Queue Event
  taken_first q = elim q.waiting [
    | [] ↦ q
    | e ∷ waiting ↦ record { taken = q.taken ++ e ∷ []; waiting = waiting }
  ]

  unfoldable pub take_next : List (ℕ × Queue Event) → ℕ → List (ℕ × Queue Event)
  take_next [] id = []
  take_next ((id', q) ∷ queues) id =
      let rest = take_next queues id in
      if id' == id then (id', taken_first q) ∷ rest else (id', q) ∷ rest

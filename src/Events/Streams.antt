-- ===== src/Events/Streams.antt =====
-- What the queues of the subscribers hold of the events that were published.
use node_nexus_api.Prelude.{
  ℕ, suc, ◌+◌, ◌-◌, ◌≤◌, min, Bool, true, false, none, some, List, [], ◌∷◌, ◌++◌, ◌||◌, ltb, length,
  take, drop, any_of, All, if◌then◌else◌, ◌==◌, ◌≡◌, refl, sym, ap, ◌∙◌, ◌⊎◌, inl, inr, arith,
  append_assoc, append-nil, take-append-drop, length-append, length-take_last, Bool-cases, ==_refl,
}
use node_nexus_api.Events.{
  Queue, Broadcaster, added, put_nowait, replay, pop, subscribe, unsubscribe, put_each, pop_all,
  trimmed, publish, taken_first, take_next,
}

-- What the broadcaster and its subscribers do, one step at a time.
pub data Step (Event : Type 0) : Type 0 where
  subscribes leaves takes : ℕ → Step Event
  publishes : Event → Step Event

module _ {Event : Type 0} where
  unfoldable pub step : Broadcaster Event → Step Event → Broadcaster Event
  step b (subscribes id) = subscribe b id
  step b (leaves id) = unsubscribe b id
  step b (takes id) = record { queues = take_next b.queues id; history = b.history }
  step b (publishes e) = publish b e

  abbrev pub run : Broadcaster Event → List (Step Event) → Broadcaster Event
  run b [] = b
  run b (s ∷ steps) = run (step b s) steps

  -- The events that are published.
  abbrev pub published : List (Step Event) → List Event
  published [] = []
  published (publishes e ∷ steps) = e ∷ published steps
  published (subscribes id ∷ steps) = published steps
  published (leaves id ∷ steps) = published steps
  published (takes id ∷ steps) = published steps

  -- The last events of a sequence.
  abbrev pub Ends : List Event → List Event → Type 0
  Ends all es = (before : List Event) × (all ≡ before ++ es)

  -- A subscriber has been given the last events, in order and each once: those it has taken, and those
  -- that wait, at most 256.
  pub record UpToDate (all : List Event) (q : Queue Event) : Type 0 where
    pub ends : Ends all (q.taken ++ q.waiting)
    pub bounded : length q.waiting ≤ 256

  pub record Good (all : List Event) (b : Broadcaster Event) : Type 0 where
    pub history : Ends all b.history
    pub history_length : length b.history ≡ min 100 (length all)
    pub up_to_date : All (λ p. UpToDate all p.1) b.queues

  pub Ends-add :
      (all es : List Event) (e : Event) → Ends all es → Ends (all ++ e ∷ []) (es ++ e ∷ [])
  Ends-add all es e (before, h) =
      (before, ap (λ (xs : List Event). xs ++ e ∷ []) h ∙ append_assoc before es (e ∷ []))

  pub Ends-drop : (all es : List Event) (n : ℕ) → Ends all es → Ends all (drop n es)
  Ends-drop all es n (before, h) = (
    before ++ take n es,
    h
        ∙ (ap (λ (xs : List Event). before ++ xs) (sym (take-append-drop n es))
            ∙ sym (append_assoc before (take n es) (drop n es))),
  )

  pub trimmed-Ends : (all history : List Event) → Ends all history → Ends all (trimmed history)
  trimmed-Ends all history h = elim (Bool-cases (ltb 100 (length history))) [
    | inl y ↦ rw y (Ends-drop all history (length history - 100) h)
    | inr n ↦ rw n h
  ]

  pub length-trimmed : (history : List Event) → length (trimmed history) ≡ min 100 (length history)
  length-trimmed history = let e = length-take_last 100 history in ground arith

  UpToDate-added :
      (all : List Event) (e : Event) (q : Queue Event)
      → ltb (length q.waiting) 256 ≡ true
      → UpToDate all q
      → UpToDate (all ++ e ∷ []) (added q e)
  UpToDate-added all e q room u = record {
    ends =
        let (before, h) = Ends-add all (q.taken ++ q.waiting) e u.ends in
        (
          before,
          h ∙ ap (λ (xs : List Event). before ++ xs) (append_assoc q.taken q.waiting (e ∷ [])),
        );
    bounded = let n = length-append q.waiting (e ∷ []) in ground arith;
  }

  pub replay_all :
      (q : Queue Event) (es : List Event)
      → length q.waiting + length es ≤ 256
      → replay q es ≡ record { taken = q.taken; waiting = q.waiting ++ es }
  unfolding replay put_nowait
  replay_all q [] h = rw append-nil refl
  replay_all q (e ∷ es) h = step_true (ltb (length q.waiting) 256) (room (length q.waiting) h) (
      replay_all (added q e) es (let n = length-append q.waiting (e ∷ []) in omega (arith, n, h))
      ∙ ap (λ (xs : List Event). record { taken = q.taken; waiting = xs })
          (append_assoc q.waiting (e ∷ []) es))
    where
      room : (n : ℕ) → n + suc (length es) ≤ 256 → ltb n 256 ≡ true
      room n k = ground arith

      step_true :
          {r : Queue Event} (b : Bool)
          → b ≡ true
          → replay (added q e) es ≡ r
          → (elim (if b then some (added q e) else none) [ none ↦ q | some q' ↦ replay q' es ]) ≡ r
      step_true true h k = k
      step_true false h k = absurd (cc)

  -- A queue is up to date with a new event, or on the list of those that are full.
  abbrev KeptOrDead : List Event → List ℕ → ℕ × Queue Event → Type 0
  KeptOrDead all dead p = (any_of (λ id. p.0 == id) dead ≡ true) ⊎ UpToDate all p.1

  KeptOrDead-more :
      (all : List Event) (id : ℕ) (dead : List ℕ) (queues : List (ℕ × Queue Event))
      → All (KeptOrDead all dead) queues
      → All (KeptOrDead all (id ∷ dead)) queues
  KeptOrDead-more all id dead [] h = tt
  KeptOrDead-more all id dead (p ∷ queues) h = (more h.0, KeptOrDead-more all id dead queues h.1)
    where
      more : KeptOrDead all dead p → KeptOrDead all (id ∷ dead) p
      more (inl d) = inl (member (p.0 == id) (any_of (λ i. p.0 == i) dead) d)
        where
          member : (x y : Bool) → y ≡ true → (x || y) ≡ true
          member x y e = ground arith
      more (inr u) = inr u

  pub put_each-Good :
      (all : List Event) (e : Event) (queues : List (ℕ × Queue Event))
      → All (λ p. UpToDate all p.1) queues
      → All (KeptOrDead (all ++ e ∷ []) (put_each e queues).1) (put_each e queues).0
  unfolding put_each put_nowait
  put_each-Good all e [] h = tt
  put_each-Good all e ((id, q) ∷ queues) h =
      one (ltb (length q.waiting) 256) refl (put_each e queues) (put_each-Good all e queues h.1)
    where
      one :
          (b : Bool)
          → ltb (length q.waiting) 256 ≡ b
          → (r : List (ℕ × Queue Event) × List ℕ) → All (KeptOrDead (all ++ e ∷ []) r.1) r.0
          → let out : List (ℕ × Queue Event) × List ℕ =
              elim (if b then some (added q e) else none) [
                | none ↦ ((id, q) ∷ r.0, id ∷ r.1)
                | some q' ↦ ((id, q') ∷ r.0, r.1)
              ] in
            All (KeptOrDead (all ++ e ∷ []) out.1) out.0
      one true room r rest = (inr (UpToDate-added all e q room h.0), rest)
      one false full r rest =
          (inl (rw (==_refl id) refl), KeptOrDead-more (all ++ e ∷ []) id r.1 r.0 rest)

  pop-KeptOrDead :
      (all : List Event) (id : ℕ) (dead : List ℕ) (queues : List (ℕ × Queue Event))
      → All (KeptOrDead all (id ∷ dead)) queues
      → All (KeptOrDead all dead) (pop queues id)
  unfolding pop
  pop-KeptOrDead all id dead [] h = tt
  pop-KeptOrDead all id dead ((id', q) ∷ queues) h =
      one (id' == id) refl (pop queues id) (pop-KeptOrDead all id dead queues h.1)
    where
      one :
          (b : Bool)
          → (id' == id) ≡ b
          → (rest : List (ℕ × Queue Event)) → All (KeptOrDead all dead) rest
          → All (KeptOrDead all dead) (if b then rest else (id', q) ∷ rest)
      one true e rest k = k
      one false e rest k = (others h.0, k)
        where
          others : KeptOrDead all (id ∷ dead) (id', q) → KeptOrDead all dead (id', q)
          others (inl d) = inl (ground arith)
          others (inr u) = inr u

  pub pop_all-UpToDate :
      (all : List Event) (dead : List ℕ) (queues : List (ℕ × Queue Event))
      → All (KeptOrDead all dead) queues
      → All (λ p. UpToDate all p.1) (pop_all queues dead)
  unfolding pop_all
  pop_all-UpToDate all [] queues h = each queues h
    where
      each :
          (queues : List (ℕ × Queue Event))
          → All (KeptOrDead all []) queues
          → All (λ p. UpToDate all p.1) queues
      each [] h = tt
      each (p ∷ queues) h = (one h.0, each queues h.1)
        where
          one : KeptOrDead all [] p → UpToDate all p.1
          one (inl d) = absurd (cc)
          one (inr u) = u
  pop_all-UpToDate all (id ∷ dead) queues h =
      pop_all-UpToDate all dead (pop queues id) (pop-KeptOrDead all id dead queues h)

  pub pop-UpToDate :
      (all : List Event) (id : ℕ) (queues : List (ℕ × Queue Event))
      → All (λ p. UpToDate all p.1) queues
      → All (λ p. UpToDate all p.1) (pop queues id)
  unfolding pop
  pop-UpToDate all id [] h = tt
  pop-UpToDate all id ((id', q) ∷ queues) h =
      one (id' == id) (pop queues id) (pop-UpToDate all id queues h.1)
    where
      one :
          (b : Bool) (rest : List (ℕ × Queue Event))
          → All (λ p. UpToDate all p.1) rest
          → All (λ p. UpToDate all p.1) (if b then rest else (id', q) ∷ rest)
      one true rest k = k
      one false rest k = (h.0, k)

  taken_first-UpToDate :
      (all : List Event) (taken waiting : List Event)
      → UpToDate all (record { taken = taken; waiting = waiting })
      → UpToDate all (taken_first (record { taken = taken; waiting = waiting }))
  taken_first-UpToDate all taken [] u = u
  taken_first-UpToDate all taken (e ∷ waiting) u = record {
    ends = (
      u.ends.0,
      u.ends.1
          ∙ ap (λ (xs : List Event). u.ends.0 ++ xs) (sym (append_assoc taken (e ∷ []) waiting)),
    );
    bounded = let n = u.bounded in omega (arith, n);
  }

  pub take_next-UpToDate :
      (all : List Event) (id : ℕ) (queues : List (ℕ × Queue Event))
      → All (λ p. UpToDate all p.1) queues
      → All (λ p. UpToDate all p.1) (take_next queues id)
  unfolding take_next
  take_next-UpToDate all id [] h = tt
  take_next-UpToDate all id ((id', q) ∷ queues) h =
      one (id' == id) (take_next queues id) (take_next-UpToDate all id queues h.1)
    where
      one :
          (b : Bool) (rest : List (ℕ × Queue Event))
          → All (λ p. UpToDate all p.1) rest
          → All (λ p. UpToDate all p.1) (if b then (id', taken_first q) ∷ rest else (id', q) ∷ rest)
      one true rest k = (taken_first-UpToDate all q.taken q.waiting h.0, k)
      one false rest k = (h.0, k)

  pub snoc-UpToDate :
      (all : List Event) (p : ℕ × Queue Event) (queues : List (ℕ × Queue Event))
      → All (λ p. UpToDate all p.1) queues
      → UpToDate all p.1
      → All (λ p. UpToDate all p.1) (queues ++ p ∷ [])
  snoc-UpToDate all p [] h u = (u, tt)
  snoc-UpToDate all p (r ∷ queues) h u = (h.0, snoc-UpToDate all p queues h.1 u)

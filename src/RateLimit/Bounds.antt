-- ===== src/RateLimit/Bounds.antt =====
-- The size of the table, and the exact answer to one request.
use node_nexus_api.Prelude.{
  ℕ, ◌+◌, ◌*◌, ◌/◌, ◌-◌, ◌≤◌, ◌<◌, String, true, false, List, [], ◌∷◌, ◌++◌, ◌≡◌, ◌⊎◌, inl, inr,
  arith, leb, length, str_eq, eq_refl, keep_if, Bool-cases, any_of, ap, max, refl, ◌∙◌,
}
use node_nexus_api.Dict.{contains}
use node_nexus_api.Dict.Sizes.{
  length-put, length-put_old, length-move_to_end, contains-put_self, contains-move_to_end_self,
  length-pop_first,
}
use node_nexus_api.RateLimit.{
  Limiter, admitted, limited, index_error, excluded_paths, entries_of, drop_old,
  cleanup_old_entries, make_room, retry_after, ticks_per_second, prepare, decide, dispatch,
}
use node_nexus_api.RateLimit.Steps.{
  recent, Between, Between-le, Between-drop_old, drop_old-eq-keep_if, HasRoom, entries_of-prepare,
  prepare-SameSettings, decide-other, decide-admits, decide-refuses,
}

clients_after_put :
    (m : Limiter) (ip : String) (now : ℕ)
    → (contains m.ip_counts ip ≡ true) ⊎ (length m.ip_counts < m.max_clients)
    → length m.ip_counts ≤ m.max_clients
    → length (cleanup_old_entries m ip now).ip_counts ≤ m.max_clients
unfolding cleanup_old_entries
clients_after_put m ip now (inl old) h =
    omega (arith, length-put_old m.ip_counts ip (drop_old m.window now (entries_of m ip)) old)
clients_after_put m ip now (inr new) h =
    omega (arith, length-put m.ip_counts ip (drop_old m.window now (entries_of m ip)))

make_room-HasRoom :
    (l : Limiter) (ip : String)
    → 0 < l.max_clients
    → length l.ip_counts ≤ l.max_clients
    → HasRoom (make_room l ip) ip
      × (length (make_room l ip).ip_counts ≤ l.max_clients)
      × ((make_room l ip).max_clients ≡ l.max_clients)
unfolding make_room
make_room-HasRoom l ip pos h = elim (Bool-cases (contains l.ip_counts ip)) [
  | inl old ↦ rw old (inl old, h, refl)
  | inr new ↦ elim (Bool-cases (leb l.max_clients (length l.ip_counts))) [
    | inl full ↦
        rw (new, full)
          (
            inr (omega (arith, length-pop_first l.ip_counts)),
            omega (arith, length-pop_first l.ip_counts),
            refl,
          )
    | inr free ↦ rw (new, free) (inr (ground arith), h, refl)
  ]
]

cleaned :
    (m : Limiter) (ip : String) (now : ℕ)
    → contains (cleanup_old_entries m ip now).ip_counts ip ≡ true
unfolding cleanup_old_entries
cleaned m ip now = contains-put_self m.ip_counts ip (drop_old m.window now (entries_of m ip))

prepare-clients :
    (l : Limiter) (ip : String) (now : ℕ)
    → 0 < l.max_clients
    → length l.ip_counts ≤ l.max_clients
    → (length (prepare l ip now).ip_counts ≤ l.max_clients)
      × (contains (prepare l ip now).ip_counts ip ≡ true)
unfolding prepare
prepare-clients l ip now pos h =
    let (room, small, same) = make_room-HasRoom l ip pos h in
    let m = make_room l ip in
    let c = cleanup_old_entries m ip now in
    (
      omega (
        arith,
        clients_after_put m ip now room (omega arith),
        length-move_to_end c.ip_counts ip (entries_of c ip) (cleaned m ip now),
      ),
      contains-move_to_end_self c.ip_counts ip (entries_of c ip),
    )

decide-clients :
    (m : Limiter) (ip : String) (now : ℕ)
    → contains m.ip_counts ip ≡ true
    → length (decide m ip now).0.ip_counts ≡ length m.ip_counts
unfolding decide
decide-clients m ip now old =
    ground (arith, length-put_old m.ip_counts ip (entries_of m ip ++ now ∷ []) old)

-- With room for at least one client, no request makes the table larger than `max_clients`.
pub dispatch-clients-le :
    (l : Limiter) (path ip : String) (now : ℕ)
    → 0 < l.max_clients
    → length l.ip_counts ≤ l.max_clients
    → length (dispatch l path ip now).0.ip_counts ≤ l.max_clients
unfolding dispatch
dispatch-clients-le l path ip now pos h = elim (Bool-cases (any_of (str_eq path) excluded_paths)) [
  | inl free ↦ rw free h
  | inr counted ↦
      let (small, there) = prepare-clients l ip now pos h in
      rw counted (omega (arith, decide-clients (prepare l ip now) ip now there))
]

retry_after_range :
    (window now lo : ℕ) (ts : List ℕ)
    → ticks_per_second ≤ window
    → 0 < length ts
    → Between lo now ts
    → (s : ℕ) × (retry_after window now ts ≡ limited s) × (1 ≤ s) × (s * ticks_per_second ≤ window)
unfolding retry_after
retry_after_range window now lo [] w h o = absurd (omega arith)
retry_after_range window now lo (t ∷ ts) w h o = (
  max 1 ((t + window - now) / ticks_per_second),
  refl,
  omega arith,
  omega (arith, Between-le t now ts o.1),
)

-- The times at which the client was admitted and that still count.
abbrev pub recent_times : Limiter → String → ℕ → List ℕ
recent_times l ip now = keep_if (recent l.window now) (entries_of l ip)

module _ (l : Limiter) (path ip : String) (now : ℕ)
    (counted : any_of (str_eq path) excluded_paths ≡ false) (room : HasRoom l ip)
    (sorted : Between 0 now (entries_of l ip)) where
  prepared : entries_of (prepare l ip now) ip ≡ recent_times l ip now
  prepared =
      rw (entries_of-prepare l ip now ip room, eq_refl ip)
        (drop_old-eq-keep_if l.window now 0 now (entries_of l ip) sorted)

  -- While fewer than `requests` of its requests are recent, the client's request passes, the header
  -- says how many more may follow, and the request is remembered.
  pub dispatch-admits :
      length (recent_times l ip now) < l.requests
      → ((dispatch l path ip now).1 ≡ admitted (l.requests - length (recent_times l ip now) - 1))
        × (entries_of (dispatch l path ip now).0 ip ≡ recent_times l ip now ++ now ∷ [])
  unfolding dispatch
  dispatch-admits h =
      let settings = (prepare-SameSettings l ip now).requests in
      let (o, e) =
        decide-admits (prepare l ip now) ip now (omega (arith, settings, ap length prepared)) in
      rw counted (cc (o, prepared, settings), cc (e, prepared))

  -- Otherwise it is answered 429, with a Retry-After between 1 and the window.
  pub dispatch-limits :
      0 < l.requests
      → ticks_per_second ≤ l.window
      → l.requests ≤ length (recent_times l ip now)
      → (s : ℕ) × ((dispatch l path ip now).1 ≡ limited s)
        × (1 ≤ s)
        × (s * ticks_per_second ≤ l.window)
  unfolding dispatch
  dispatch-limits pos w h =
      let settings = (prepare-SameSettings l ip now).requests in
      let (s, answer, low, high) =
        retry_after_range l.window now 0 (recent_times l ip now) w (omega arith) (
          rw (← drop_old-eq-keep_if l.window now 0 now (entries_of l ip) sorted)
            (Between-drop_old l.window now 0 now (entries_of l ip) sorted)) in
      let refused =
        decide-refuses (prepare l ip now) ip now (omega (arith, settings, ap length prepared)) in
      (
        s,
        rw (counted, refused) (cc (answer, prepared, (prepare-SameSettings l ip now).window)),
        low,
        high,
      )

  -- The entries of the other clients stay as they are.
  pub dispatch-others :
      (j : String) → str_eq ip j ≡ false → entries_of (dispatch l path ip now).0 j ≡ entries_of l j
  unfolding dispatch
  dispatch-others j other = rw (
    counted,
    decide-other (prepare l ip now) ip now j other,
    entries_of-prepare l ip now j room,
    other,
  )

-- A client below its limit is admitted with the number of requests left, and remembered; a client at
-- its limit is told to retry after a whole number of seconds, at least 1 and no longer than the window;
-- no other client is affected. The conditions: the path is not excluded, the table has room, the times
-- are in order up to now, the limit is positive and the window is at least a second.
pub dispatch_exact :
    (l : Limiter) (path ip : String) (now : ℕ)
    → any_of (str_eq path) excluded_paths ≡ false
    → HasRoom l ip
    → Between 0 now (entries_of l ip)
    → 0 < l.requests
    → ticks_per_second ≤ l.window
    → (length (recent_times l ip now) < l.requests
        → ((dispatch l path ip now).1 ≡ admitted (l.requests - length (recent_times l ip now) - 1))
          × (entries_of (dispatch l path ip now).0 ip ≡ recent_times l ip now ++ now ∷ []))
      × (l.requests ≤ length (recent_times l ip now)
          → (s : ℕ) × ((dispatch l path ip now).1 ≡ limited s)
            × (1 ≤ s)
            × (s * ticks_per_second ≤ l.window))
      × ((j : String)
          → str_eq ip j ≡ false
          → entries_of (dispatch l path ip now).0 j ≡ entries_of l j)
dispatch_exact l path ip now counted room sorted pos w = (
  dispatch-admits l path ip now counted room sorted,
  dispatch-limits l path ip now counted room sorted pos w,
  dispatch-others l path ip now counted room sorted,
)

-- Under a limit of 0, which the settings allow, a request of a client with no recent requests is not
-- answered 429: `entries[0]` raises IndexError. The path is not excluded, the table has room, and
-- the times are in order up to now.
pub dispatch_zero_limit :
    (l : Limiter) (path ip : String) (now : ℕ)
    → any_of (str_eq path) excluded_paths ≡ false
    → HasRoom l ip
    → Between 0 now (entries_of l ip)
    → l.requests ≡ 0
    → recent_times l ip now ≡ []
    → (dispatch l path ip now).1 ≡ index_error
unfolding dispatch retry_after
dispatch_zero_limit l path ip now counted room sorted zero_limit quiet =
    let settings = (prepare-SameSettings l ip now).requests in
    let none_left = prepared l path ip now counted room sorted ∙ quiet in
    rw (counted, decide-refuses (prepare l ip now) ip now (omega (arith, settings, zero_limit)))
      (rw none_left refl)

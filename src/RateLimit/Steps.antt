-- ===== src/RateLimit/Steps.antt =====
-- What one request does to the table of the rate limiter.
use node_nexus_api.Prelude.{
  ℕ, ◌+◌, ◌-◌, ◌≤◌, ◌<◌, String, Bool, true, false, List, [], ◌∷◌, ◌++◌, ◌≡◌, refl, ◌∙◌, ◌⊎◌, inl,
  inr, arith, ltb, leb, length, str_eq, eq_refl, if◌then◌else◌, keep_if, Bool-cases, any_of,
}
use node_nexus_api.Dict.{get, contains, get-put, get-move_to_end}
use node_nexus_api.RateLimit.{
  Limiter, admitted, excluded_paths, deque_of, entries_of, drop_old, cleanup_old_entries, make_room,
  retry_after, prepare, decide, dispatch,
}

-- A request time that still counts at `now`.
abbrev pub recent : ℕ → ℕ → ℕ → Bool
recent window now t = ltb now (t + window)

-- Times in the order in which they came, from `lo` to `hi`.
abbrev pub Between : ℕ → ℕ → List ℕ → Type 0
Between lo hi [] = lo ≤ hi
Between lo hi (t ∷ ts) = (lo ≤ t) × Between t hi ts

pub Between-le : (lo hi : ℕ) (ts : List ℕ) → Between lo hi ts → lo ≤ hi
Between-le lo hi [] o = o
Between-le lo hi (t ∷ ts) o = omega (arith, Between-le t hi ts o.1)

pub Between-append :
    (lo hi now : ℕ) (ts : List ℕ) → Between lo hi ts → hi ≤ now → Between lo now (ts ++ now ∷ [])
Between-append lo hi now [] o h = omega arith
Between-append lo hi now (t ∷ ts) o h = (o.0, Between-append t hi now ts o.1 h)

pub Between-wider :
    (lo lo' hi hi' : ℕ) (ts : List ℕ) → Between lo hi ts → lo' ≤ lo → hi ≤ hi' → Between lo' hi' ts
Between-wider lo lo' hi hi' [] o h k = omega arith
Between-wider lo lo' hi hi' (t ∷ ts) o h k =
    (omega arith, Between-wider t t hi hi' ts o.1 (omega arith) k)

pub Between-drop_old :
    (window now lo hi : ℕ) (ts : List ℕ) → Between lo hi ts → Between lo hi (drop_old window now ts)
unfolding drop_old
Between-drop_old window now lo hi [] o = o
Between-drop_old window now lo hi (t ∷ ts) o = elim (Bool-cases (leb (t + window) now)) [
  | inl old ↦
      rw old
        (Between-wider t lo hi hi _ (Between-drop_old window now t hi ts o.1) o.0 (omega arith))
  | inr new ↦ rw new o
]

keep_if-recent-all :
    (window now lo hi : ℕ) (ts : List ℕ)
    → now < lo + window
    → Between lo hi ts
    → keep_if (recent window now) ts ≡ ts
keep_if-recent-all window now lo hi [] h o = refl
keep_if-recent-all window now lo hi (t ∷ ts) h o =
    ground (arith, keep_if-recent-all window now t hi ts (omega arith) o.1)

-- Popping from the left removes exactly the old entries, since they are in order.
pub drop_old-eq-keep_if :
    (window now lo hi : ℕ) (ts : List ℕ)
    → Between lo hi ts
    → drop_old window now ts ≡ keep_if (recent window now) ts
unfolding drop_old
drop_old-eq-keep_if window now lo hi [] o = refl
drop_old-eq-keep_if window now lo hi (t ∷ ts) o = elim (Bool-cases (leb (t + window) now)) [
  | inl old ↦ ground (arith, drop_old-eq-keep_if window now t hi ts o.1)
  | inr new ↦ ground (arith, keep_if-recent-all window now t hi ts (ground arith) o.1)
]

-- Whether the table has room for `ip` without forgetting another client.
abbrev pub HasRoom : Limiter → String → Type 0
HasRoom l ip = (contains l.ip_counts ip ≡ true) ⊎ (length l.ip_counts < l.max_clients)

pub make_room-eq_of_HasRoom : (l : Limiter) (ip : String) → HasRoom l ip → make_room l ip ≡ l
unfolding make_room
make_room-eq_of_HasRoom l ip (inl h) = rw h
make_room-eq_of_HasRoom l ip (inr h) = ground arith

-- The entries of every client after the old ones of `ip` are gone.
pub entries_of-prepare :
    (l : Limiter) (ip : String) (now : ℕ) (j : String)
    → HasRoom l ip
    → entries_of (prepare l ip now) j
      ≡ (if str_eq ip j then drop_old l.window now (entries_of l ip) else entries_of l j)
unfolding prepare entries_of cleanup_old_entries
entries_of-prepare l ip now j h =
    rw (make_room-eq_of_HasRoom l ip h) (simp (get-move_to_end, get-put, eq_refl) (ground arith))

-- The settings are never written.
pub record SameSettings (l m : Limiter) : Type 0 where
  pub requests : l.requests ≡ m.requests
  pub window : l.window ≡ m.window
  pub max_clients : l.max_clients ≡ m.max_clients

pub prepare-SameSettings : (l : Limiter) (ip : String) (now : ℕ) → SameSettings (prepare l ip now) l
unfolding prepare make_room cleanup_old_entries
prepare-SameSettings l ip now = ground arith

pub decide-SameSettings : (l : Limiter) (ip : String) (now : ℕ) → SameSettings (decide l ip now).0 l
unfolding decide
decide-SameSettings l ip now = ground arith

pub dispatch-SameSettings :
    (l : Limiter) (path ip : String) (now : ℕ) → SameSettings (dispatch l path ip now).0 l
unfolding dispatch
dispatch-SameSettings l path ip now = elim (Bool-cases (any_of (str_eq path) excluded_paths)) [
  | inl free ↦ rw free (record { requests = refl; window = refl; max_clients = refl })
  | inr counted ↦
      let q = decide-SameSettings (prepare l ip now) ip now in
      let p = prepare-SameSettings l ip now in
      rw counted (record {
        requests = q.requests ∙ p.requests;
        window = q.window ∙ p.window;
        max_clients = q.max_clients ∙ p.max_clients;
      })
]

-- `decide` writes the entries of `ip` alone, and only when it admits.
pub decide-other :
    (l : Limiter) (ip : String) (now : ℕ) (j : String)
    → str_eq ip j ≡ false
    → entries_of (decide l ip now).0 j ≡ entries_of l j
unfolding decide entries_of
decide-other l ip now j h =
    ground (arith, get-put l.ip_counts ip j (deque_of (get l.ip_counts ip) ++ now ∷ []))

pub decide-admits :
    (l : Limiter) (ip : String) (now : ℕ)
    → length (entries_of l ip) < l.requests
    → ((decide l ip now).1 ≡ admitted (l.requests - length (entries_of l ip) - 1))
      × (entries_of (decide l ip now).0 ip ≡ entries_of l ip ++ now ∷ [])
unfolding decide entries_of
decide-admits l ip now h =
    ground
      (arith, get-put l.ip_counts ip ip (deque_of (get l.ip_counts ip) ++ now ∷ []), eq_refl ip)

pub decide-refuses :
    (l : Limiter) (ip : String) (now : ℕ)
    → l.requests ≤ length (entries_of l ip)
    → decide l ip now ≡ (l, retry_after l.window now (entries_of l ip))
unfolding decide
decide-refuses l ip now h = ground arith

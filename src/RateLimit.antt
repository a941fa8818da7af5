-- ===== src/RateLimit.antt =====
-- app/api/middleware.py, `RateLimitMiddleware`: a sliding window of request times for each client.
-- Times are the readings of `time.monotonic()` in ticks of a nanosecond, and the window, a whole number
-- of seconds in the source, is measured in the same ticks. `now - window` may be negative in the source, so a comparison `t <= now - window` is written
-- `t + window <= now`. What `dispatch` does before it awaits `call_next` runs without interruption:
-- it is one step, and the response says how the request goes on.
pub mod Steps
pub mod Log
pub mod Window
pub mod Bounds
mod Tests
use node_nexus_api.Prelude.{
  ℕ, ◌+◌, ◌-◌, ◌/◌, String, Bool, Option, none, some, List, [], ◌∷◌, ◌++◌, ◌&&◌, not, max, leb,
  length, str_eq, if◌then◌else◌, any_of,
}
use node_nexus_api.Dict.{Dict, get, contains, put, pop_first, move_to_end}

pub record Limiter : Type 0 where
  pub requests : ℕ
  pub window : ℕ
  pub max_clients : ℕ
  pub ip_counts : Dict (List ℕ)

-- What becomes of a request: it passes unchecked, it passes with the header
-- X-RateLimit-Remaining, it is answered 429 with Retry-After, or `entries[0]` raises IndexError.
pub data Outcome : Type 0 where
  excluded : Outcome
  admitted : (remaining : ℕ) → Outcome
  limited : (retry_after : ℕ) → Outcome
  index_error : Outcome

abbrev pub excluded_paths : List String
excluded_paths = "/health" ∷ "/ready" ∷ "/metrics" ∷ []

abbrev pub deque_of : Option (List ℕ) → List ℕ
deque_of none = []
deque_of (some entries) = entries

-- `self._ip_counts.get(ip, ())`
unfoldable pub entries_of : Limiter → String → List ℕ
entries_of l ip = deque_of (get l.ip_counts ip)

-- `while entries and entries[0] <= cutoff: entries.popleft()`
unfoldable pub drop_old : ℕ → ℕ → List ℕ → List ℕ
drop_old window now [] = []
drop_old window now (t ∷ entries) =
    let rest = drop_old window now entries in if leb (t + window) now then rest else t ∷ entries

unfoldable pub cleanup_old_entries : Limiter → String → ℕ → Limiter
cleanup_old_entries l ip now = record l {
  ip_counts = put l.ip_counts ip (drop_old l.window now (entries_of l ip));
}

-- The oldest client makes room for a new one.
unfoldable pub make_room : Limiter → String → Limiter
make_room l ip =
    if not (contains l.ip_counts ip) && leb l.max_clients (length l.ip_counts)
    then record l { ip_counts = pop_first l.ip_counts }
    else l

abbrev pub touch : Limiter → String → Limiter
touch l ip = record l { ip_counts = move_to_end l.ip_counts ip (entries_of l ip) }

abbrev pub ticks_per_second : ℕ
ticks_per_second = 1000000000

-- `max(1, int(window - (now - entries[0])))`: whole seconds, cut off
unfoldable pub retry_after : ℕ → ℕ → List ℕ → Outcome
retry_after window now [] = index_error
retry_after window now (t ∷ entries) = limited (max 1 ((t + window - now) / ticks_per_second))

-- The state once the client's old entries are gone.
unfoldable pub prepare : Limiter → String → ℕ → Limiter
prepare l ip now = touch (cleanup_old_entries (make_room l ip) ip now) ip

unfoldable pub decide : Limiter → String → ℕ → Limiter × Outcome
decide l ip now =
    let entries = entries_of l ip in
    if leb l.requests (length entries) then (l, retry_after l.window now entries) else (
      record l { ip_counts = put l.ip_counts ip (entries ++ now ∷ []) },
      admitted (l.requests - length entries - 1),
    )

unfoldable pub dispatch : Limiter → String → String → ℕ → Limiter × Outcome
dispatch l path ip now =
    if any_of (str_eq path) excluded_paths then (l, excluded) else decide (prepare l ip now) ip now

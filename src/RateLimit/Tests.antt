-- ===== src/RateLimit/Tests.antt =====
-- The rate limiter on small inputs: two requests in a window of 60 ticks, two clients.
use node_nexus_api.Prelude.{
  ℕ, ◌-◌, ◌*◌, ◌≤◌, ◌<◌, ◌++◌, false, String, List, [], ◌∷◌, ◌≡◌, refl, inl, inr, arith, length,
  count_if, str_eq,
}
use node_nexus_api.Dict.{contains, get, put, remove, move_to_end, pop_first}
use node_nexus_api.RateLimit.{
  Limiter, excluded, admitted, limited, entries_of, drop_old, cleanup_old_entries, make_room,
  retry_after, ticks_per_second, prepare, decide, dispatch,
}
use node_nexus_api.RateLimit.Log.{Request, admissions, within}
use node_nexus_api.RateLimit.Window.{fresh, admissions-le-requests}
use node_nexus_api.RateLimit.Bounds.{recent_times, dispatch-clients-le, dispatch_exact}

-- Opens all that a request runs.
runs : Unit {0}
unfolding contains get put remove move_to_end pop_first entries_of drop_old cleanup_old_entries
    make_room retry_after prepare decide dispatch admissions
runs = tt

abbrev at : String → ℕ → Request
at ip now = record { path = "/api/v2/nodes/"; ip = ip; now = now }

abbrev trace : List Request
trace = at "a" 5 ∷ at "b" 6 ∷ at "a" 10 ∷ at "a" 11 ∷ at "a" 65 ∷ []

abbrev two : Limiter
two = fresh 2 60 10

admissions-trace : admissions two trace "a" [] ≡ 65 ∷ 10 ∷ 5 ∷ []
unfolding runs
admissions-trace = refl

abbrev full : Limiter
full = record two { ip_counts = ("a", 5 ∷ 10 ∷ []) ∷ [] }

dispatch-health : dispatch full "/health" "a" 11 ≡ (full, excluded)
unfolding runs
dispatch-health = refl

admissions-le-requests_example : count_if (within 60 5) (admissions two trace "a" []) ≤ 2
unfolding runs
admissions-le-requests_example =
    admissions-le-requests 2 60 10 trace "a" 5 (omega arith)
      (inr (omega arith), (inr (omega arith), (inl refl, (inl refl, (inl refl, tt)))))

dispatch-clients-le_example :
    length (dispatch (record full { max_clients = 1 }) "/x" "b" 11).0.ip_counts ≤ 1
dispatch-clients-le_example =
    dispatch-clients-le (record full { max_clients = 1 }) "/x" "b" 11 (omega arith) (omega arith)

-- A minute in ticks, and a client at its limit since the tenth second.
abbrev minute : Limiter
minute = record {
  requests = 2;
  window = 60 * ticks_per_second;
  max_clients = 10;
  ip_counts = ("a", 5000000000 ∷ 10000000000 ∷ []) ∷ [];
}

dispatch-cut_off : (dispatch minute "/x" "a" 11700000000).1 ≡ limited 53
unfolding runs
dispatch-cut_off = refl

-- Less than a second is left.
dispatch-at_least_one : (dispatch minute "/x" "a" 64500000000).1 ≡ limited 1
unfolding runs
dispatch-at_least_one = refl

dispatch_exact_example :
    (length (recent_times minute "a" 11700000000) < 2
      → ((dispatch minute "/x" "a" 11700000000).1
          ≡ admitted (2 - length (recent_times minute "a" 11700000000) - 1))
        × (entries_of (dispatch minute "/x" "a" 11700000000).0 "a"
            ≡ recent_times minute "a" 11700000000 ++ 11700000000 ∷ []))
    × (2 ≤ length (recent_times minute "a" 11700000000)
        → (s : ℕ) × ((dispatch minute "/x" "a" 11700000000).1 ≡ limited s)
          × (1 ≤ s)
          × (s * ticks_per_second ≤ 60 * ticks_per_second))
    × ((j : String)
        → str_eq "a" j ≡ false
        → entries_of (dispatch minute "/x" "a" 11700000000).0 j ≡ entries_of minute j)
dispatch_exact_example =
    dispatch_exact minute "/x" "a" 11700000000 refl (unfold contains in inl refl)
      (unfold entries_of get in omega arith) (omega arith) (omega arith)

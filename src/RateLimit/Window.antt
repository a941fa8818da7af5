-- ===== src/RateLimit/Window.antt =====
-- A whole run of the rate limiter: how many requests of one client pass in any window.
use node_nexus_api.Prelude.{
  ℕ, ◌≤◌, ◌<◌, String, false, List, [], ◌∷◌, ◌≡◌, refl, inl, inr, arith, leb, length, str_eq,
  eq_iff, eq_refl, Bool-cases, any_of, count_if, count_if-append, ◌∙◌,
}
use node_nexus_api.RateLimit.{
  Limiter, Outcome, admitted, excluded_paths, entries_of, retry_after, prepare, decide, dispatch,
}
use node_nexus_api.RateLimit.Steps.{
  recent, Between-append, Between-wider, HasRoom, prepare-SameSettings, dispatch-SameSettings,
  decide-other, decide-admits, decide-refuses,
}
use node_nexus_api.Dict.{get}
use node_nexus_api.RateLimit.Log.{
  Request, Step, note, admissions, InOrder, Fits, Tracks, Limited, within, Limited-within,
  prepare-sorted, prepare-counts, prepare-length,
}

-- The rest of a step, once the cleanup is done.
note-retry_after :
    (ip source : String) (window now : ℕ) (entries log : List ℕ)
    → note ip source now (retry_after window now entries) log ≡ log
unfolding retry_after
note-retry_after ip source window now [] log = refl
note-retry_after ip source window now (t ∷ entries) log = refl

-- The client's own request, refused.
decide-Tracks_full :
    (ip : String) (window : ℕ) (m : Limiter) (now : ℕ) (log : List ℕ)
    → Tracks ip window m now log
    → m.requests ≤ length (entries_of m ip)
    → (Tracks ip window (decide m ip now).0 now (note ip ip now (decide m ip now).1 log))
      × ((note ip ip now (decide m ip now).1 log) ≡ log)
decide-Tracks_full ip window m now log tracks full =
    rw (decide-refuses m ip now full, note-retry_after ip ip m.window now (entries_of m ip) log)
      (tracks, refl)

-- The client's own request, admitted.
decide-Tracks_free :
    (ip : String) (window : ℕ) (m : Limiter) (now : ℕ) (log : List ℕ)
    → Tracks ip window m now log
    → length (entries_of m ip) < m.requests
    → Tracks ip window (decide m ip now).0 now (now ∷ log)
decide-Tracks_free ip window m now log tracks free = record {
  sorted =
      rw (decide-admits m ip now free).1 (Between-append 0 now now _ tracks.sorted (omega arith));
  counts = λ t h.
      rw ((decide-admits m ip now free).1, count_if-append) (ground (arith, tracks.counts t h));
}

-- A request of another client.
decide-Tracks_other :
    (ip source : String) (window : ℕ) (m : Limiter) (now : ℕ) (log : List ℕ)
    → Tracks ip window m now log
    → str_eq source ip ≡ false
    → Tracks ip window (decide m source now).0 now log
decide-Tracks_other ip source window m now log tracks other = record {
  sorted = rw (decide-other m source now ip other) tracks.sorted;
  counts = λ t h. rw (decide-other m source now ip other) (tracks.counts t h);
}

-- What holds between two requests.
record Inv (ip : String) (requests window : ℕ) (l : Limiter) (lo : ℕ) (log : List ℕ) : Type 0 where
  at_window : l.window ≡ window
  at_requests : l.requests ≡ requests
  tracks : Tracks ip window l lo log
  bounded : Limited requests window log

decided_self :
    (ip : String) (requests window : ℕ) (m : Limiter) (now : ℕ) (log : List ℕ)
    → Tracks ip window m now log
    → m.requests ≡ requests
    → length (entries_of m ip) ≡ count_if (recent window now) log
    → Limited requests window log
    → Tracks ip window (decide m ip now).0 now (note ip ip now (decide m ip now).1 log)
      × Limited requests window (note ip ip now (decide m ip now).1 log)
decided_self ip requests window m now log tracks settings fresh bounded =
    elim (Bool-cases (leb m.requests (length (entries_of m ip)))) [
      | inl full ↦
          let (kept_tracks, same_log) =
            decide-Tracks_full ip window m now log tracks (ground arith) in
          (kept_tracks, rw same_log bounded)
      | inr free ↦
          let room : length (entries_of m ip) < m.requests = ground arith in
          rw ((decide-admits m ip now room).0, eq_refl ip)
            (decide-Tracks_free ip window m now log tracks room, (omega arith, bounded))
    ]

note-other :
    (ip source : String) (now : ℕ) (o : Outcome) (log : List ℕ)
    → str_eq source ip ≡ false
    → note ip source now o log ≡ log
note-other ip source now (admitted n) log other = rw other
note-other ip source now _ log other = refl

module _ (ip : String) (requests window lo now : ℕ) (l : Limiter) (log : List ℕ)
    (inv : Inv ip requests window l lo log) (later : lo ≤ now) where
  ready-Tracks :
      (source : String) → HasRoom l source → Tracks ip window (prepare l source now) now log
  ready-Tracks source room = record {
    sorted = prepare-sorted ip l window lo now log inv.tracks inv.at_window later source room;
    counts = prepare-counts ip l window lo now log inv.tracks inv.at_window later source room;
  }

  decided :
      (source : String)
      → HasRoom l source
      → Tracks ip window
          (decide (prepare l source now) source now).0
          now
          (note ip source now (decide (prepare l source now) source now).1 log)
        × Limited requests window
            (note ip source now (decide (prepare l source now) source now).1 log)
  decided source room = elim (Bool-cases (str_eq source ip)) [
    | inl same ↦
        let e = (eq_iff source ip).0 same in
        let room' : HasRoom l ip = rw e at room in
        rw e (
          decided_self ip requests window (prepare l ip now) now log (ready-Tracks ip room')
            ((prepare-SameSettings l ip now).requests ∙ inv.at_requests)
            (prepare-length ip l window lo now log inv.tracks inv.at_window later room')
            inv.bounded)
    | inr other ↦
        rw (note-other ip source now (decide (prepare l source now) source now).1 log other) (
          decide-Tracks_other ip source window (prepare l source now) now log
              (ready-Tracks source room) other,
          inv.bounded,
        )
  ]

  checked_or_excluded :
      (path source : String)
      → HasRoom l source
      → Tracks ip window
          (dispatch l path source now).0
          now
          (note ip source now (dispatch l path source now).1 log)
        × Limited requests window (note ip source now (dispatch l path source now).1 log)
  unfolding dispatch
  checked_or_excluded path source room = elim (Bool-cases (any_of (str_eq path) excluded_paths)) [
    | inl free ↦ rw free (
      record {
        sorted = Between-wider 0 0 lo now _ inv.tracks.sorted (omega arith) later;
        counts = λ t h. inv.tracks.counts t (omega arith);
      },
      inv.bounded,
    )
    | inr counted ↦ rw counted (decided source room)
  ]

  Step-Inv :
      (path source : String)
      → HasRoom l source
      → Inv ip requests window
          (dispatch l path source now).0
          now
          (note ip source now (dispatch l path source now).1 log)
  Step-Inv path source room = record {
    at_window = (dispatch-SameSettings l path source now).window ∙ inv.at_window;
    at_requests = (dispatch-SameSettings l path source now).requests ∙ inv.at_requests;
    tracks = (checked_or_excluded path source room).0;
    bounded = (checked_or_excluded path source room).1;
  }

admissions-Limited :
    (ip : String) (requests window lo : ℕ) (rs : List Request) (l : Limiter) (log : List ℕ)
    → Inv ip requests window l lo log
    → InOrder lo rs
    → Fits l rs
    → Limited requests window (admissions l rs ip log)
unfolding admissions
admissions-Limited ip requests window lo [] l log inv order fits = inv.bounded
admissions-Limited ip requests window lo (r ∷ rs) l log inv order fits =
    admissions-Limited ip requests window r.now rs (Step l r).0 _
      (Step-Inv ip requests window lo r.now l log inv order.0 r.path r.ip fits.0) order.1 fits.1

-- The limiter as `__init__` leaves it.
abbrev pub fresh : ℕ → ℕ → ℕ → Limiter
fresh requests window max_clients = record {
  requests = requests;
  window = window;
  max_clients = max_clients;
  ip_counts = [];
}

fresh-Inv :
    (ip : String) (requests window max_clients : ℕ)
    → Inv ip requests window (fresh requests window max_clients) 0 []
unfolding entries_of get
fresh-Inv ip requests window max_clients = record {
  at_window = refl;
  at_requests = refl;
  tracks = record { sorted = omega arith; counts = λ now h. refl };
  bounded = tt;
}

-- From the start, for any requests of any clients in the order of the clock that never push a client
-- out of the table: of each client at most `requests` requests are admitted in any window of length
-- `window`, wherever it starts.
pub admissions-le-requests :
    (requests window max_clients : ℕ) (rs : List Request) (ip : String) (start : ℕ)
    → InOrder 0 rs
    → Fits (fresh requests window max_clients) rs
    → count_if (within window start) (admissions (fresh requests window max_clients) rs ip [])
      ≤ requests
admissions-le-requests requests window max_clients rs ip start order fits =
    Limited-within requests window start _ (
      admissions-Limited ip requests window 0 rs _ [] (fresh-Inv ip requests window max_clients)
        order fits)

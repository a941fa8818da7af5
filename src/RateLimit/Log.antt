-- ===== src/RateLimit/Log.antt =====
-- The log of the admitted requests of one client, and what the table keeps of it.
use node_nexus_api.Prelude.{
  ℕ, ◌+◌, ◌≤◌, String, Bool, true, List, [], ◌∷◌, ◌≡◌, refl, inl, inr, arith, ltb, leb, length,
  str_eq, eq_iff, eq_refl, if◌then◌else◌, keep_if, Bool-cases, ◌&&◌, count_if, length-keep_if,
}
use node_nexus_api.RateLimit.{Limiter, Outcome, admitted, entries_of, drop_old, prepare, dispatch}
use node_nexus_api.RateLimit.Steps.{
  recent, Between, Between-wider, Between-drop_old, drop_old-eq-keep_if, HasRoom,
  entries_of-prepare,
}

pub record Request : Type 0 where
  pub path : String
  pub ip : String
  pub now : ℕ

abbrev pub Step : Limiter → Request → Limiter × Outcome
Step l r = dispatch l r.path r.ip r.now

-- The times, newest first, at which requests of `ip` were admitted.
abbrev pub note : (ip source : String) → ℕ → Outcome → List ℕ → List ℕ
note ip source now (admitted _) log = if str_eq source ip then now ∷ log else log
note ip source now _ log = log

unfoldable pub admissions : Limiter → List Request → String → List ℕ → List ℕ
admissions l [] ip log = log
admissions l (r ∷ rs) ip log = admissions (Step l r).0 rs ip (note ip r.ip r.now (Step l r).1 log)

-- Requests come in the order of the clock.
abbrev pub InOrder : ℕ → List Request → Type 0
InOrder lo [] = Unit
InOrder lo (r ∷ rs) = (lo ≤ r.now) × InOrder r.now rs

-- No client is forgotten to make room for another.
abbrev pub Fits : Limiter → List Request → Type 0
Fits l [] = Unit
Fits l (r ∷ rs) = HasRoom l r.ip × Fits (Step l r).0 rs

-- What the table knows of the admitted requests of one client at time `lo`.
pub record Tracks (ip : String) (window : ℕ) (l : Limiter) (lo : ℕ) (log : List ℕ) : Type 0 where
  pub sorted : Between 0 lo (entries_of l ip)
  pub counts :
      (now : ℕ)
      → lo ≤ now
      → count_if (recent window now) (entries_of l ip) ≡ count_if (recent window now) log

-- Every admitted request is at most the `requests`-th of its client in the window that it ends.
abbrev pub Limited : ℕ → ℕ → List ℕ → Type 0
Limited requests window [] = Unit
Limited requests window (t ∷ log) =
    (count_if (recent window t) log + 1 ≤ requests) × Limited requests window log

count-keep_if-recent :
    (window now later : ℕ) (ts : List ℕ)
    → now ≤ later
    → count_if (recent window later) (keep_if (recent window now) ts)
      ≡ count_if (recent window later) ts
count-keep_if-recent window now later [] h = refl
count-keep_if-recent window now later (t ∷ ts) h =
    ground (arith, count-keep_if-recent window now later ts h)

-- Times in the window of length `window` that starts at `x`.
abbrev pub within : ℕ → ℕ → ℕ → Bool
within window x t = leb x t && ltb t (x + window)

within-le-recent :
    (window x t : ℕ) (log : List ℕ)
    → within window x t ≡ true
    → count_if (within window x) log ≤ count_if (recent window t) log
within-le-recent window x t [] h = omega arith
within-le-recent window x t (s ∷ log) h = ground (arith, within-le-recent window x t log h)

pub Limited-within :
    (requests window x : ℕ) (log : List ℕ)
    → Limited requests window log
    → count_if (within window x) log ≤ requests
Limited-within requests window x [] h = omega arith
Limited-within requests window x (t ∷ log) h = elim (Bool-cases (within window x t)) [
  | inl inside ↦ rw inside (omega (arith, within-le-recent window x t log inside))
  | inr outside ↦ rw outside (Limited-within requests window x log h.1)
]

module _ (ip : String) (l : Limiter) (window lo now : ℕ) (log : List ℕ)
    (tracks : Tracks ip window l lo log) (same_window : l.window ≡ window) (later : lo ≤ now) where
  kept : drop_old l.window now (entries_of l ip) ≡ keep_if (recent window now) (entries_of l ip)
  kept = simp same_window (drop_old-eq-keep_if window now 0 lo (entries_of l ip) tracks.sorted)

  -- After the cleanup for a request of any client `from`.
  pub prepare-sorted :
      (from : String) → HasRoom l from → Between 0 now (entries_of (prepare l from now) ip)
  prepare-sorted from room =
      rw (entries_of-prepare l from now ip room) (elim (Bool-cases (str_eq from ip)) [
        | inl same ↦
            rw (same, (eq_iff from ip).0 same)
              (Between-wider 0 0 lo now _ (Between-drop_old l.window now 0 lo _ tracks.sorted)
                (omega arith) later)
        | inr other ↦ rw other (Between-wider 0 0 lo now _ tracks.sorted (omega arith) later)
      ])

  pub prepare-counts :
      (from : String)
      → HasRoom l from
      → (t : ℕ) → now ≤ t
      → count_if (recent window t) (entries_of (prepare l from now) ip)
        ≡ count_if (recent window t) log
  prepare-counts from room t h =
      rw (entries_of-prepare l from now ip room) (elim (Bool-cases (str_eq from ip)) [
        | inl same ↦
            rw
              (
                same,
                (eq_iff from ip).0 same,
                kept,
                count-keep_if-recent window now t (entries_of l ip) h,
              )
              (tracks.counts t (omega arith))
        | inr other ↦ rw other (tracks.counts t (omega arith))
      ])

  pub prepare-length :
      HasRoom l ip → length (entries_of (prepare l ip now) ip) ≡ count_if (recent window now) log
  prepare-length room =
      rw (entries_of-prepare l ip now ip room, eq_refl ip, kept, length-keep_if)
        (tracks.counts now later)

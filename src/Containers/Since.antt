-- ===== src/Containers/Since.antt =====
-- The logs, and the time they start from.
use mathlib.Core.Path.{subst}
use node_nexus_api.Prelude.{
  ℕ, Bool, true, false, Option, none, some, [], ◌∷◌, ◌++◌, Text, codes, ◌≡◌, refl, arith, all_of,
  ltb, &&-eq-true, Bool-cases, inl, inr,
}
use node_nexus_api.Shell.{is_safe}
use node_nexus_api.Shell.Lines.{
  join, Reads, AllRead, join_words, Reads-plain, Reads-decimal, decimal_safe, decimal,
}
use node_nexus_api.Validation.{validate_container_id}
use node_nexus_api.Docker.Runs.{World, ◌>>=◌, pure, checked, call}
use node_nexus_api.Docker.Commands.{Call, Within, Within-bind, Within-checked, Within-call}
use node_nexus_api.Docker.Returns.{Returning, Within-then}
use node_nexus_api.Containers.{
  Python, text, merged_logs, or_decimal, parse_since, since_flag, checked_since, get_logs,
}
use node_nexus_api.Containers.Requests.{Request, logs, call_of, since_words}
use node_nexus_api.Containers.Reading.{Reads-literal, AllRead-append, id-Reads}
use node_nexus_api.Containers.Commands.{Within-logged}

-- `str.isdigit` holds of no ASCII character but the ten digits.
abbrev pub AsciiDigits : {Item : Type 0} → Python Item → Type 0
AsciiDigits py = (c : ℕ) → py.is_digit c ≡ true → ltb c 128 ≡ true → is_safe c ≡ true

-- The time that a request for logs starts from is in ASCII.
abbrev pub ascii_since : Request → Bool
ascii_since (logs id tail (some since)) = all_of (λ c. ltb c 128) since
ascii_since _ = true

module _ {Item : Type 0} (py : Python Item) (digits : AsciiDigits py) (w : World) where
  digits-safe :
      (s : Text)
      → all_of py.is_digit s ≡ true
      → all_of (λ c. ltb c 128) s ≡ true
      → all_of is_safe s ≡ true
  digits-safe [] h k = refl
  digits-safe (c ∷ s) h k =
      let (h0, hs) = &&-eq-true (py.is_digit c) (all_of py.is_digit s) h in
      let (k0, ks) = &&-eq-true (ltb c 128) (all_of (λ c. ltb c 128) s) k in
      rw (digits c h0 k0) (digits-safe s hs ks)

  seconds-Reads : (o : Option (Bool × ℕ)) (v : Text) → or_decimal o ≡ some v → Reads v v
  unfolding is_safe
  seconds-Reads none v h = absurd (cc)
  seconds-Reads (some (true, n)) v h =
      subst (λ t. Reads t t) (same h)
        (Reads-plain (codes "-" ++ decimal n) refl (unfold is_safe in decimal_safe n))
    where
      same :
          ◌≡◌ {A = Option Text} (some (codes "-" ++ decimal n)) (some v)
          → codes "-" ++ decimal n ≡ v
      same e = ground arith
  seconds-Reads (some (false, n)) v h = subst (λ t. Reads t t) (same h) (Reads-decimal n)
    where
      same : ◌≡◌ {A = Option Text} (some (decimal n)) (some v) → decimal n ≡ v
      same e = ground arith

  since-Reads :
      (c : ℕ) (s v : Text)
      → all_of (λ c. ltb c 128) (c ∷ s) ≡ true
      → parse_since py (c ∷ s) ≡ some v
      → Reads v v
  unfolding parse_since
  since-Reads c s v a h = elim (Bool-cases (all_of py.is_digit (c ∷ s))) [
    | inl y ↦
        let e = rw y at h in
        subst (λ t. Reads t t) (same e) (Reads-plain (c ∷ s) refl (digits-safe (c ∷ s) y a))
    | inr n ↦ let e = rw n at h in seconds-Reads (py.iso_seconds (c ∷ s)) v e
  ]
    where
      same : ◌≡◌ {A = Option Text} (some (c ∷ s)) (some v) → c ∷ s ≡ v
      same e = ground arith

  checked-Reads :
      (o : Option Text)
      → ((v : Text) → o ≡ some v → Reads v v)
      → Returning
          (λ n.
            AllRead (since_flag py n) (elim o [ none ↦ [] | some v ↦ codes "--since" ∷ v ∷ [] ]))
          ((checked o >>= λ v. pure (some v)) w)
  unfolding is_safe
  checked-Reads none h = tt
  checked-Reads (some v) h = (Reads-literal (codes "--since") refl refl, (h v refl, tt))

  since-returns :
      (id : Text) (tail : ℕ) (since : Option Text)
      → ascii_since (logs id tail since) ≡ true
      → Returning (λ n. AllRead (since_flag py n) (since_words py since)) (checked_since py since w)
  since-returns id tail none a = tt
  since-returns id tail (some []) a = tt
  since-returns id tail (some (c ∷ s)) a =
      checked-Reads (parse_since py (c ∷ s)) (λ v e. since-Reads c s v a e)

  Within-since : (c : Call) (since : Option Text) → Within c w (checked_since py since w)
  Within-since c none = tt
  Within-since c (some []) = tt
  Within-since c (some (d ∷ s)) =
      Within-checked c w (parse_since py (d ∷ s)) (λ v. pure (some v)) (λ v e. tt)

  pub commands-logs :
      (id : Text) (tail : ℕ) (since : Option Text)
      → ascii_since (logs id tail since) ≡ true
      → Within (call_of py (logs id tail since)) w (get_logs py id tail since w)
  unfolding call_of get_logs is_safe
  commands-logs id tail since a =
      let c = call_of py (logs id tail since) in
      Within-checked c w (validate_container_id id) _ λ t valid.
        Within-then _ w _ c (checked_since py since) (Within-since c since)
          (since-returns id tail since a)
          λ n reads.
            let parts =
              codes "logs" ∷ codes "--tail" ∷ decimal tail ∷ (since_flag py n ++ t ∷ []) in
            Within-bind c w (call (join parts) 30) _
              (Within-call w (join parts) 30 c.words (
                join_words parts c.words (
                  Reads-literal (codes "logs") refl refl,
                  (
                    Reads-literal (codes "--tail") refl refl,
                    (
                      Reads-decimal tail,
                      AllRead-append (since_flag py n) (since_words py since) (t ∷ []) (id ∷ [])
                          reads (id-Reads id t valid, tt),
                    ),
                  ),
                )))
              (λ out.
                Within-logged c w "docker.container.logs"
                  (text (merged_logs out.stdout out.stderr)))

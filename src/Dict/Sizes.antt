-- ===== src/Dict/Sizes.antt =====
-- Sizes of tables under the operations.
use node_nexus_api.Prelude.{
  ◌+◌, ◌-◌, ◌++◌, ◌≤◌, String, Bool, true, false, none, some, [], ◌∷◌, ◌≡◌, refl, arith, eq_refl,
  eq_iff, str_eq, keep_if, if◌then◌else◌, length, length-append,
}
use node_nexus_api.Dict.{Dict, get, contains, put, remove, pop_first, move_to_end}

module _ {ℓ} {V : Type ℓ} where
  pub length-put : (d : Dict V) (k : String) (v : V) → length (put d k v) ≤ length d + 1
  unfolding put
  length-put [] k v = omega arith
  length-put ((i, w) ∷ d) k v = ground (arith, length-put d k v)

  pub length-put_old :
      (d : Dict V) (k : String) (v : V) → contains d k ≡ true → length (put d k v) ≡ length d
  unfolding put contains
  length-put_old [] k v h = ground arith
  length-put_old ((i, w) ∷ d) k v h = ground (arith, length-put_old d k v)

  pub length-remove : (d : Dict V) (k : String) → length (remove d k) ≤ length d
  unfolding remove
  length-remove [] k = omega arith
  length-remove ((i, w) ∷ d) k = ground (arith, length-remove d k)

  pub length-remove_old :
      (d : Dict V) (k : String) → contains d k ≡ true → length (remove d k) + 1 ≤ length d
  unfolding remove contains
  length-remove_old [] k h = ground arith
  length-remove_old ((i, w) ∷ d) k h = ground (arith, length-remove_old d k, length-remove d k)

  pub contains-put_self : (d : Dict V) (k : String) (v : V) → contains (put d k v) k ≡ true
  unfolding put contains
  contains-put_self [] k v = rw (eq_refl k)
  contains-put_self ((i, w) ∷ d) k v = ground (arith, contains-put_self d k v)

  pub length-move_to_end :
      (d : Dict V) (k : String) (v : V)
      → contains d k ≡ true
      → length (move_to_end d k v) ≤ length d
  unfolding move_to_end
  length-move_to_end d k v h =
      omega (arith, length-append (remove d k) ((k, v) ∷ []), length-remove_old d k h)

  contains-append_self : (d : Dict V) (k : String) (v : V) → contains (d ++ (k, v) ∷ []) k ≡ true
  unfolding contains
  contains-append_self [] k v = rw (eq_refl k)
  contains-append_self ((i, w) ∷ d) k v = ground (arith, contains-append_self d k v)

  pub contains-move_to_end_self :
      (d : Dict V) (k : String) (v : V) → contains (move_to_end d k v) k ≡ true
  unfolding move_to_end
  contains-move_to_end_self d k v = contains-append_self (remove d k) k v

  pub length-pop_first : (d : Dict V) → length (pop_first d) ≡ length d - 1
  unfolding pop_first
  length-pop_first [] = omega arith
  length-pop_first (e ∷ d) = omega arith

  pub contains-put :
      (d : Dict V) (k j : String) (v : V) → contains d j ≡ true → contains (put d k v) j ≡ true
  unfolding put contains
  contains-put [] k j v h = ground arith
  contains-put ((i, w) ∷ d) k j v h = ground (arith, contains-put d k j v)

module _ {ℓ} {V : Type ℓ} where
  pub contains-put_iff :
      (d : Dict V) (k j : String) (v : V)
      → contains (put d k v) j ≡ (if str_eq k j then true else contains d j)
  unfolding contains put
  contains-put_iff [] k j v = ground arith
  contains-put_iff ((i, w) ∷ d) k j v =
      ground (arith, contains-put_iff d k j v, eq_iff k j, eq_iff i k, eq_iff i j)

  pub contains-remove :
      (d : Dict V) (k j : String)
      → contains (remove d k) j ≡ (if str_eq k j then false else contains d j)
  unfolding contains remove
  contains-remove [] k j = ground arith
  contains-remove ((i, w) ∷ d) k j =
      ground (arith, contains-remove d k j, eq_iff k j, eq_iff i k, eq_iff i j)

  pub contains-eq-false : (d : Dict V) (k : String) → get d k ≡ none → contains d k ≡ false
  unfolding contains get
  contains-eq-false [] k h = refl
  contains-eq-false ((i, w) ∷ d) k h = ground (arith, contains-eq-false d k)

  pub contains-keep_if :
      (p : String × V → Bool) (d : Dict V) (k : String)
      → contains d k ≡ false
      → contains (keep_if p d) k ≡ false
  unfolding contains
  contains-keep_if p [] k h = refl
  contains-keep_if p ((i, w) ∷ d) k h = ground (arith, contains-keep_if p d k)

  pub contains-eq-true : (d : Dict V) (k : String) (v : V) → get d k ≡ some v → contains d k ≡ true
  unfolding contains get
  contains-eq-true [] k v h = absurd (cc)
  contains-eq-true ((i, w) ∷ d) k v h = ground (arith, contains-eq-true d k v)

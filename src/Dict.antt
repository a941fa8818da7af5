-- ===== src/Dict.antt =====
-- Python's `dict` and `collections.OrderedDict` with text keys, in insertion order. The adapters and
-- services keep their in-memory state in such tables (rate limiter, event queues, task registry).
pub mod Sizes
use node_nexus_api.Prelude.{
  String, Bool, true, false, Option, none, some, List, [], ◌∷◌, ◌++◌, ◌≡◌, refl, arith, str_eq,
  eq_iff, if◌then◌else◌,
}

abbrev pub Dict {ℓ} : Type ℓ → Type ℓ
Dict V = List (String × V)

module _ {ℓ} {V : Type ℓ} where
  -- `d.get(k)`
  unfoldable pub get : Dict V → String → Option V
  get [] k = none
  get ((j, v) ∷ d) k = if str_eq j k then some v else get d k

  -- `k in d`
  unfoldable pub contains : Dict V → String → Bool
  contains [] k = false
  contains ((j, v) ∷ d) k = if str_eq j k then true else contains d k

  -- `d[k] = v`: a key that is there keeps its place
  unfoldable pub put : Dict V → String → V → Dict V
  put [] k v = (k, v) ∷ []
  put ((j, w) ∷ d) k v = let rest = put d k v in if str_eq j k then (j, v) ∷ d else (j, w) ∷ rest

  -- `d.pop(k, None)`
  unfoldable pub remove : Dict V → String → Dict V
  remove [] k = []
  remove ((j, w) ∷ d) k = let rest = remove d k in if str_eq j k then rest else (j, w) ∷ rest

  -- `d.popitem(last=False)`, on a table that is not empty
  unfoldable pub pop_first : Dict V → Dict V
  pop_first [] = []
  pop_first (e ∷ d) = d

module _ {ℓ} {V : Type ℓ} where
  pub get-put :
      (d : Dict V) (k j : String) (v : V)
      → get (put d k v) j ≡ (if str_eq k j then some v else get d j)
  unfolding get put
  get-put [] k j v = ground arith
  get-put ((i, w) ∷ d) k j v = ground (arith, get-put d k j v, eq_iff k j, eq_iff i k, eq_iff i j)

  pub get-remove :
      (d : Dict V) (k j : String) → get (remove d k) j ≡ (if str_eq k j then none else get d j)
  unfolding get remove
  get-remove [] k j = ground arith
  get-remove ((i, w) ∷ d) k j = ground (arith, get-remove d k j, eq_iff k j, eq_iff i k, eq_iff i j)

  get-remove-append :
      (d : Dict V) (k j : String) (v : V)
      → get (remove d k ++ (k, v) ∷ []) j ≡ (if str_eq k j then some v else get d j)
  unfolding get remove
  get-remove-append [] k j v = refl
  get-remove-append ((i, w) ∷ d) k j v =
      ground (arith, get-remove-append d k j v, eq_iff k j, eq_iff i k, eq_iff i j)

  pub get-eq-none : (d : Dict V) (k : String) → contains d k ≡ false → get d k ≡ none
  unfolding get contains
  get-eq-none [] k h = refl
  get-eq-none ((i, w) ∷ d) k h = ground (arith, get-eq-none d k)

  -- `d.move_to_end(k)` of a key whose value is `v`
  unfoldable pub move_to_end : Dict V → String → V → Dict V
  unfolding remove
  move_to_end d k v = remove d k ++ ((k, v) ∷ [])

  pub get-move_to_end :
      (d : Dict V) (k j : String) (v : V)
      → get (move_to_end d k v) j ≡ (if str_eq k j then some v else get d j)
  unfolding move_to_end
  get-move_to_end d k j v = get-remove-append d k j v

pub ruleset dict_laws = (get-put, get-remove, get-move_to_end)

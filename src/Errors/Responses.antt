-- ===== src/Errors/Responses.antt =====
-- What a client learns of an error.
use node_nexus_api.Prelude.{
  ℕ, zero, suc, ◌≤◌, ◌<◌, String, Bool, true, Option, some, List, [], ◌∷◌, ◌&&◌, ◌||◌, eq_iff, leb,
  ltb, ◌≡◌, refl, sym, arith, all_of, Option-cases, inl, inr, str_eq, &&-eq-true, Bool-cases, ap,
  ◌∙◌,
}
use node_nexus_api.Dict.{Dict, get}
use node_nexus_api.Errors.Tables.{bases, domain_error_status}
use node_nexus_api.Errors.{
  mro, status_walk, status_for_domain_error, domain, unexpected, sanitize_bulk_error,
  domain_error_handler,
}

module _ {ℓ} {V : Type ℓ} where
  some_same : (w v : V) → ◌≡◌ {A = Option V} (some w) (some v) → w ≡ v
  some_same w v e = ground arith

  get-all_of :
      (p : V → Bool) (d : Dict V) (k : String) (v : V)
      → all_of (λ e. p e.1) d ≡ true
      → get d k ≡ some v
      → p v ≡ true
  unfolding get
  get-all_of p [] k v h e = absurd (cc)
  get-all_of p ((j, w) ∷ d) k v h e =
      let (here, others) = &&-eq-true (p w) (all_of (λ e. p e.1) d) h in
      elim (Bool-cases (str_eq j k)) [
        | inl y ↦ ap p (sym (some_same w v (rw y at e))) ∙ here
        | inr n ↦ get-all_of p d k v others (rw n at e)
      ]

abbrev is_error_status : ℕ → Bool
is_error_status code = leb 400 code && ltb code 600

table_statuses : all_of (λ e. is_error_status e.1) domain_error_status ≡ true
unfolding domain_error_status
table_statuses = refl

walk-is_error : (classes : List String) → is_error_status (status_walk classes) ≡ true
unfolding status_walk
walk-is_error [] = refl
walk-is_error (cls ∷ classes) = elim (Option-cases (get domain_error_status cls)) [
  | inl absent ↦ rw (status_walk, absent) (walk-is_error classes)
  | inr (code, found) ↦
      rw (status_walk, found)
        (get-all_of is_error_status domain_error_status cls code table_statuses found)
]

-- The answer to an error of the domain has an error status: 400 to 599.
pub domain_error_handler_status :
    (request_id : Option String) (path cls text : String)
    → (400 ≤ (domain_error_handler request_id path cls text).status)
      × ((domain_error_handler request_id path cls text).status < 600)
unfolding domain_error_handler status_for_domain_error
domain_error_handler_status request_id path cls text =
    let (low, high) =
      &&-eq-true (leb 400 (status_for_domain_error cls)) (ltb (status_for_domain_error cls) 600)
        (walk-is_error (mro 4 cls)) in
    (ground arith, ground arith)

-- When the handler of domain errors answers a class with a status from 500 on, neither its answer nor the message of an item of a bulk request depends on the text of the exception; nor does the message of an item for an exception outside the domain.
pub server_error_hides :
    (request_id : Option String) (path cls text other : String)
    → 500 ≤ (domain_error_handler request_id path cls text).status
    → (domain_error_handler request_id path cls other
        ≡ domain_error_handler request_id path cls text)
      × (sanitize_bulk_error (domain cls other) ≡ sanitize_bulk_error (domain cls text))
      × (sanitize_bulk_error (unexpected cls other) ≡ sanitize_bulk_error (unexpected cls text))
unfolding domain_error_handler sanitize_bulk_error
server_error_hides request_id path cls text other h = rw (server h) (refl, refl, refl)
  where
    server : {n : ℕ} → 500 ≤ n → leb 500 n ≡ true
    server g = ground arith

abbrev is_base : String → Bool
is_base cls = str_eq cls "DomainError" || str_eq cls "DockerError" || str_eq cls "Exception"

table_bases : all_of (λ e. is_base e.1) bases ≡ true
unfolding bases
table_bases = refl

base_enough :
    (n : ℕ) (cls : String)
    → is_base cls ≡ true
    → mro (suc (suc (suc n))) cls ≡ mro (suc (suc (suc zero))) cls
unfolding mro bases get
base_enough n cls h = elim (Bool-cases (str_eq cls "DomainError")) [
  | inl y ↦ rw ((eq_iff cls "DomainError").0 y) refl
  | inr a ↦ elim (Bool-cases (str_eq cls "DockerError")) [
    | inl y ↦ rw ((eq_iff cls "DockerError").0 y) refl
    | inr b ↦ rw ((eq_iff cls "Exception").0 (rw (a, b) at h)) refl
  ]
]

-- Four steps are enough for the chain of any class: more give the same list.
pub mro-enough : (n : ℕ) (cls : String) → mro (suc (suc (suc (suc n)))) cls ≡ mro 4 cls
unfolding mro
mro-enough n cls = elim (Option-cases (get bases cls)) [
  | inl absent ↦ rw (mro, absent) refl
  | inr (base, found) ↦
      rw (mro, found)
        (ap (λ (classes : List String). cls ∷ classes)
          (base_enough n base (get-all_of is_base bases cls base table_bases found)))
]

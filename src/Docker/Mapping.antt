-- ===== src/Docker/Mapping.antt =====
-- Which error a failed Docker command becomes.
use node_nexus_api.Prelude.{
  ℕ, true, none, some, [], ◌∷◌, ◌++◌, Text, codes, ◌==◌, ◌≡◌, ◌≢◌, refl, arith, contains_text,
  starts_with, ◌↔◌, Bool-cases, inl, inr,
}
use node_nexus_api.Docker.{image_not_found, says, raise_for_docker_error}

starts_with-prefix : (p q s : Text) → starts_with (p ++ q) s ≡ true → starts_with p s ≡ true
starts_with-prefix [] q s h = refl
starts_with-prefix (x ∷ p) q [] h = cc
starts_with-prefix (x ∷ p) q (y ∷ s) h = ground (arith, starts_with-prefix p q s)

-- A text that contains `p ++ q` contains `p`.
pub contains_text-prefix :
    (p q s : Text) → contains_text (p ++ q) s ≡ true → contains_text p s ≡ true
contains_text-prefix p q [] h = starts_with-prefix p q [] h
contains_text-prefix p q (y ∷ s) h =
    ground (arith, starts_with-prefix p q (y ∷ s), contains_text-prefix p q s)

module _ (lower : Text → Text) (number : ℕ → Text) where
  -- A command that exits with 0 raises nothing, and any other raises some Docker error.
  pub raises_iff_failed :
      (stderr : Text) (exit_code : ℕ)
      → (raise_for_docker_error lower number stderr exit_code ≡ none) ↔ (exit_code ≡ 0)
  unfolding raise_for_docker_error
  raises_iff_failed stderr exit_code = ground arith

  -- "No such image or container", in any case, is reported as a missing image, although the code
  -- lists it among the texts for a missing container: the test for "no such image" comes first.
  pub image_or_container_is_image :
      (stderr : Text) (exit_code : ℕ)
      → exit_code ≢ 0
      → says lower number stderr (codes "no such image or container") ≡ true
      → raise_for_docker_error lower number stderr exit_code ≡ some (image_not_found stderr)
  unfolding raise_for_docker_error
  image_or_container_is_image stderr exit_code failed said =
      let e =
        contains_text-prefix (codes "no such image") (codes " or container") (lower stderr) said in
      elim (Bool-cases (exit_code == 0)) [
        | inl zero_code ↦ ground arith
        | inr other ↦ rw (other, e)
      ]

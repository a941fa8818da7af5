-- ===== src/Validation/Ports.antt =====
-- The checks on port mappings. Which characters `\d` matches beyond ASCII is a parameter.
use node_nexus_api.Prelude.{
  ℕ, Bool, false, not, Option, none, some, List, [], ◌∷◌, ◌&&◌, ◌||◌, Text, codes, text_eq, all_of,
  if◌then◌else◌, ◌==◌, ◌≡◌, refl, arith,
}

module _ (is_digit : ℕ → Bool) where
  -- `\d+`: what follows the longest run of digits. `none`: there is no digit.
  unfoldable pub after_digits : Text → Option Text
  after_digits [] = none
  after_digits (c ∷ s) =
      let rest = after_digits s in
      if is_digit c then elim rest [ none ↦ some s | some t ↦ some t ] else none

  abbrev pub second_number : Option Text → Option Text
  second_number none = none
  second_number (some []) = some []
  second_number (some (c ∷ s)) =
      if c == b'-'
      then elim (after_digits s) [ none ↦ some (c ∷ s) | some t ↦ some t ]
      else some (c ∷ s)

  -- `\d+(?:-\d+)?`: what follows
  unfoldable pub after_range : Text → Option Text
  after_range s = second_number (after_digits s)

  abbrev pub is_rest : (Text → Bool) → Option Text → Bool
  is_rest p none = false
  is_rest p (some t) = p t

  -- `_HOST_PORT_RE` and `_PORT_SPEC_RE`
  unfoldable pub is_host_port : Text → Bool
  is_host_port s = is_rest (λ t. text_eq t []) (after_range s)

  unfoldable pub is_port_spec : Text → Bool
  is_port_spec s =
      is_rest (λ t. text_eq t [] || (text_eq t (codes "/tcp") || text_eq t (codes "/udp")))
        (after_range s)

  -- The values of the mapping are strings here, as the request type says.
  unfoldable pub validate_port_mappings : List (Text × Text) → Option (List (Text × Text))
  validate_port_mappings [] = some []
  validate_port_mappings ((container_spec, host_port) ∷ ports) =
      let rest = validate_port_mappings ports in
      if not (is_host_port host_port)
      then none
      else if not (is_port_spec container_spec)
      then none
      else elim rest [
        | none ↦ none
        | some validated ↦ some ((container_spec, host_port) ∷ validated)
      ]

  -- Port mappings are accepted exactly when every host port and every container port matches, and are
  -- then returned as they are.
  pub validate_port_mappings_iff :
      (ports : List (Text × Text))
      → validate_port_mappings ports
        ≡ (if all_of (λ p. is_host_port p.1 && is_port_spec p.0) ports then some ports else none)
  unfolding validate_port_mappings
  validate_port_mappings_iff [] = refl
  validate_port_mappings_iff ((c, p) ∷ ports) =
      let ih = validate_port_mappings_iff ports in ground arith

  pub validate_port_mappings-same :
      (ports out : List (Text × Text)) → validate_port_mappings ports ≡ some out → out ≡ ports
  validate_port_mappings-same ports out h = let e = validate_port_mappings_iff ports in ground arith

-- ===== src/Validation.antt =====
-- app/core/docker_validation.py: the checks on the parts of a Docker command. Each regular expression is
-- a test on the text; `none` is DockerValidationError. Which characters `\d` and `\w` match beyond ASCII
-- are parameters.
pub mod Ports
pub mod Addresses
pub mod References
pub mod Entries
mod Tests
use node_nexus_api.Prelude.{
  ℕ, zero, suc, ◌+◌, String, Bool, true, false, not, Option, none, some, List, [], ◌∷◌, ◌++◌, ◌&&◌,
  ◌||◌, Text, codes, leb, ◌==◌, text_eq, all_of, any_of, if◌then◌else◌,
}

-- `[a-zA-Z]` and `[a-zA-Z0-9]`
unfoldable pub is_letter : ℕ → Bool
is_letter c = leb b'a' c && leb c b'z' || leb b'A' c && leb c b'Z'

unfoldable pub is_alphanumeric : ℕ → Bool
is_alphanumeric c = is_letter c || leb b'0' c && leb c b'9'

-- A character class: the alphanumeric characters and those listed.
unfoldable pub in_class : Text → ℕ → Bool
in_class more c = is_alphanumeric c || any_of (λ d. c == d) more

-- `[a-zA-Z0-9][a-zA-Z0-9_.-]*`
unfoldable pub is_reference : Text → Bool
is_reference [] = false
is_reference (c ∷ s) = is_alphanumeric c && all_of (in_class (codes "_.-")) s

-- `[a-zA-Z0-9\-_./:]+`
unfoldable pub is_image : Text → Bool
is_image [] = false
is_image (c ∷ s) = all_of (in_class (codes "-_./:")) (c ∷ s)

abbrev pub valid_if : Bool → Text → Option Text
valid_if b s = if b then some s else none

unfoldable pub validate_container_id : Text → Option Text
validate_container_id s = valid_if (is_reference s) s

unfoldable pub validate_container_name : Text → Option Text
validate_container_name s = valid_if (is_reference s) s

unfoldable pub validate_network_name : Text → Option Text
validate_network_name s = valid_if (is_reference s) s

unfoldable pub validate_volume_name : Text → Option Text
validate_volume_name s = valid_if (is_reference s) s

unfoldable pub validate_container_new_name : Text → Option Text
validate_container_new_name s = valid_if (is_reference s) s

unfoldable pub validate_network_driver : Text → Option Text
validate_network_driver s = valid_if (is_reference s) s

-- `^…$` under `match`, where `$` is the end or before a newline at the end
unfoldable pub match_to_end : (Text → Bool) → Text → Text → Bool
match_to_end p before [] = p before
match_to_end p before (c ∷ []) = p (before ++ c ∷ []) || c == 10 && p before
match_to_end p before (c ∷ d ∷ s) = match_to_end p (before ++ c ∷ []) (d ∷ s)

unfoldable pub validate_image_name : Text → Option Text
validate_image_name s = valid_if (match_to_end is_image [] s) s

unfoldable pub validate_image_tag : Text → Option Text
validate_image_tag s = valid_if (is_image s) s

unfoldable pub validate_restart_policy : Text → Option Text
validate_restart_policy s =
    valid_if
      (any_of (text_eq s)
        (codes "no" ∷ codes "always" ∷ codes "on-failure" ∷ codes "unless-stopped" ∷ []))
      s

-- `[A-Za-z_][A-Za-z0-9_]*`
unfoldable pub is_identifier : Text → Bool
is_identifier [] = false
is_identifier (c ∷ s) = (is_letter c || c == b'_') && all_of (in_class (codes "_")) s

unfoldable pub validate_build_arg_key : Text → Option Text
validate_build_arg_key s = valid_if (is_identifier s) s

-- The text before the first `d` and the text behind it. `none`: there is no `d`.
unfoldable pub split_at : ℕ → Text → Option (Text × Text)
split_at d [] = none
split_at d (c ∷ s) =
    let rest = split_at d s in
    if c == d then some ([], s) else elim rest [ none ↦ none | some p ↦ some (c ∷ p.0, p.1) ]

-- `.+`
abbrev pub is_line : Text → Bool
is_line [] = false
is_line (c ∷ s) = all_of (λ d. not (d == 10)) (c ∷ s)

abbrev pub is_assignment : Option (Text × Text) → Bool
is_assignment none = false
is_assignment (some (key, value)) = is_identifier key && is_line value

-- `[A-Za-z_][A-Za-z0-9_]*=.+`: the name has no `=`, so it ends at the first one
unfoldable pub is_env_var : Text → Bool
is_env_var s = is_assignment (split_at b'=' s)

unfoldable pub validate_env_vars : List Text → Option (List Text)
validate_env_vars [] = some []
validate_env_vars (s ∷ env) =
    let rest = validate_env_vars env in
    if is_env_var s then elim rest [ none ↦ none | some validated ↦ some (s ∷ validated) ] else none

-- `(?:[a-zA-Z0-9_.\-/]*[a-zA-Z0-9])?`
unfoldable pub ends_alphanumeric : Text → Bool
ends_alphanumeric [] = true
ends_alphanumeric (c ∷ []) = is_alphanumeric c
ends_alphanumeric (c ∷ d ∷ s) = in_class (codes "_.-/") c && ends_alphanumeric (d ∷ s)

unfoldable pub is_label_key : Text → Bool
is_label_key [] = false
is_label_key (c ∷ s) = is_alphanumeric c && ends_alphanumeric s

-- A value of a parsed body: a string, or something else.
pub data Value : Type 0 where
  text : Text → Value
  other : Value

abbrev pub is_text : Value → Bool
is_text (text s) = true
is_text other = false

-- The keys of a JSON object are strings.
unfoldable pub validate_labels : List (Text × Value) → Option (List (Text × Value))
validate_labels [] = some []
validate_labels ((key, value) ∷ labels) =
    let rest = validate_labels labels in
    if not (is_label_key key)
    then none
    else if not (is_text value)
    then none
    else elim rest [ none ↦ none | some validated ↦ some ((key, value) ∷ validated) ]

-- `[A-Za-z0-9_./~\-:]+`
unfoldable pub is_volume_path : Text → Bool
is_volume_path [] = false
is_volume_path (c ∷ s) = all_of (in_class (codes "_./~-:")) (c ∷ s)

pub record VolumeSpec : Type 0 where
  pub bind : Option Value
  pub mode : Option Value

abbrev pub bind_path : Option Value → Option Text
bind_path (some (text s)) = if is_volume_path s then some s else none
bind_path _ = none

-- `spec.get("mode", "rw")`, which must be one of two
abbrev pub mount_mode : Option Value → Option Text
mount_mode none = some (codes "rw")
mount_mode (some (text s)) =
    if text_eq s (codes "rw") || text_eq s (codes "ro") then some s else none
mount_mode (some other) = none

abbrev pub mount :
    Text
    → Option Text
    → Option Text
    → Option (List (Text × Text × Text))
    → Option (List (Text × Text × Text))
mount host (some bind) (some mode) (some validated) = some ((host, bind, mode) ∷ validated)
mount host _ _ _ = none

-- `none` as a specification is a value that is no object.
unfoldable pub validate_volume_mounts :
    List (Text × Option VolumeSpec) → Option (List (Text × Text × Text))
validate_volume_mounts [] = some []
validate_volume_mounts ((host, none) ∷ volumes) = none
validate_volume_mounts ((host, some spec) ∷ volumes) =
    let rest = validate_volume_mounts volumes in
    if not (is_volume_path host)
    then none
    else mount host (bind_path spec.bind) (mount_mode spec.mode) rest

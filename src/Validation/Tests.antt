-- ===== src/Validation/Tests.antt =====
-- Names and entries of small commands.
use node_nexus_api.Prelude.{true, none, some, List, [], ◌∷◌, ◌++◌, Text, codes, ◌≡◌, refl}
use node_nexus_api.Validation.{
  is_letter, is_alphanumeric, in_class, is_image, validate_container_id, validate_container_name,
  validate_network_name, validate_volume_name, validate_container_new_name, validate_network_driver,
  validate_image_name, validate_image_tag, is_env_var, is_identifier, Value, text, other,
  is_volume_path, validate_volume_mounts, validate_restart_policy, validate_build_arg_key,
}
use node_nexus_api.Validation.References.{SafeName, references_safe, image_name_newline}
use node_nexus_api.Validation.Entries.{Assignment, is_env_var_iff}

tag-ok : validate_image_tag (codes "repo/web:1") ≡ some (codes "repo/web:1")
unfolding validate_image_tag is_image in_class is_alphanumeric is_letter
tag-ok = refl

-- Not only names: a leading dash is accepted too.
tag-option : validate_image_tag (codes "--help") ≡ some (codes "--help")
unfolding validate_image_tag is_image in_class is_alphanumeric is_letter
tag-option = refl

mount-read_write :
    validate_volume_mounts
      ((codes "/data", some (record { bind = some (text (codes "/d")); mode = none })) ∷ [])
    ≡ some ((codes "/data", codes "/d", codes "rw") ∷ [])
unfolding validate_volume_mounts is_volume_path in_class is_alphanumeric is_letter
mount-read_write = refl

policy-refused : validate_restart_policy (codes "never") ≡ none
unfolding validate_restart_policy
policy-refused = refl

build_arg-refused : validate_build_arg_key (codes "1A") ≡ none
unfolding validate_build_arg_key is_identifier in_class is_alphanumeric is_letter
build_arg-refused = refl

references_safe_example :
    (validate_container_id (codes "web-1") ≡ some (codes "web-1")
      → SafeName (codes "web-1") (codes "web-1"))
    × (validate_container_name (codes "web-1") ≡ some (codes "web-1")
        → SafeName (codes "web-1") (codes "web-1"))
    × (validate_network_name (codes "web-1") ≡ some (codes "web-1")
        → SafeName (codes "web-1") (codes "web-1"))
    × (validate_volume_name (codes "web-1") ≡ some (codes "web-1")
        → SafeName (codes "web-1") (codes "web-1"))
    × (validate_container_new_name (codes "web-1") ≡ some (codes "web-1")
        → SafeName (codes "web-1") (codes "web-1"))
    × (validate_network_driver (codes "web-1") ≡ some (codes "web-1")
        → SafeName (codes "web-1") (codes "web-1"))
references_safe_example = references_safe (codes "web-1") (codes "web-1")

image_name_newline_example :
    (validate_image_name (codes "repo/web:1" ++ 10 ∷ []) ≡ some (codes "repo/web:1" ++ 10 ∷ []))
    × (validate_image_tag (codes "repo/web:1" ++ 10 ∷ []) ≡ none)
image_name_newline_example = image_name_newline (codes "repo/web:1") tag-ok

is_env_var_iff_example :
    (is_env_var (codes "A=b=c") ≡ true → Assignment (codes "A=b=c"))
    × (Assignment (codes "A=b=c") → is_env_var (codes "A=b=c") ≡ true)
is_env_var_iff_example = is_env_var_iff (codes "A=b=c")

abbrev env : List Text
env = codes "A=b" ∷ codes "=c" ∷ []

abbrev labels : List (Text × Value)
labels = (codes "app", text (codes "web")) ∷ (codes "n", other) ∷ []

-- ===== src/Auth/Legacy.antt =====
-- The older dependencies of app/api/deps.py, and that they agree with the ones that replace them.
use node_nexus_api.Prelude.{
  Bool, true, false, Option, none, some, [], ◌∷◌, ◌≡◌, refl, arith, Text, codes, str_eq,
  if◌then◌else◌,
}
use node_nexus_api.Dict.{Dict}
use node_nexus_api.ApiKeys.{
  ApiKey, AuthenticatedPrincipal, Authenticated, accepted, rejected, authenticate,
}
use node_nexus_api.Auth.{
  Claim, Principal, http, key_error, type_error, Access, granted, denied, Config,
  decode_access_token, is_master, Dependency, key_principal, read_only_denied, key_result,
  after_master, by_api_key, get_current_principal, require_write_or_jwt_scope,
}

abbrev pub key_prefix_of : AuthenticatedPrincipal → Access Text
key_prefix_of p = granted p.key_prefix

abbrev pub read_only_refused : AuthenticatedPrincipal → Access Text
read_only_refused p = if str_eq p.scope "read-only" then denied (http 403) else key_prefix_of p

abbrev pub legacy_result :
    (AuthenticatedPrincipal → Access Text) → Dict ApiKey × Authenticated → Dict ApiKey × Access Text
legacy_result allow (keys, accepted p) = (keys, allow p)
legacy_result allow (keys, rejected e) = (keys, denied (key_error e))

abbrev pub legacy_after_master :
    Config → (AuthenticatedPrincipal → Access Text) → Text → Option Bool → Dependency Text
legacy_after_master cfg allow key none keys = (keys, denied type_error)
legacy_after_master cfg allow key (some true) keys = (keys, granted (codes "master"))
legacy_after_master cfg allow key (some false) keys =
    legacy_result allow (authenticate cfg.hash keys key cfg.now)

unfoldable pub get_current_api_key : Config → Option Text → Dependency Text
get_current_api_key cfg none keys = (keys, denied (http 401))
get_current_api_key cfg (some []) keys = (keys, denied (http 401))
get_current_api_key cfg (some (c ∷ key)) keys =
    legacy_after_master cfg key_prefix_of (c ∷ key) (is_master cfg (c ∷ key)) keys

unfoldable pub require_write_scope : Config → Option Text → Dependency Text
require_write_scope cfg none keys = (keys, denied (http 401))
require_write_scope cfg (some []) keys = (keys, denied (http 401))
require_write_scope cfg (some (c ∷ key)) keys =
    legacy_after_master cfg read_only_refused (c ∷ key) (is_master cfg (c ∷ key)) keys

abbrev pub user_id_of : Access (Text × Dict Claim) → Access Text
user_id_of (denied e) = denied e
user_id_of (granted (id, claims)) = granted id

unfoldable pub get_current_user_id : Config → Option Text → Access Text
get_current_user_id cfg none = denied (http 401)
get_current_user_id cfg (some token) = user_id_of (decode_access_token cfg token)

-- The identifier of a principal that was granted.
abbrev pub identifier_of : Dict ApiKey × Access Principal → Dict ApiKey × Access Text
identifier_of (keys, granted p) = (keys, granted p.identifier)
identifier_of (keys, denied e) = (keys, denied e)

read_same :
    (r : Dict ApiKey × Authenticated)
    → legacy_result key_prefix_of r ≡ identifier_of (key_result key_principal r)
read_same (keys, accepted p) = refl
read_same (keys, rejected e) = refl

write_same :
    (r : Dict ApiKey × Authenticated)
    → legacy_result read_only_refused r ≡ identifier_of (key_result read_only_denied r)
write_same (keys, accepted p) = ground arith
write_same (keys, rejected e) = refl

after_master_read :
    (cfg : Config) (key : Text) (m : Option Bool) (keys : Dict ApiKey)
    → legacy_after_master cfg key_prefix_of key m keys
      ≡ identifier_of (after_master cfg key_principal key m keys)
after_master_read cfg key none keys = refl
after_master_read cfg key (some true) keys = refl
after_master_read cfg key (some false) keys = read_same (authenticate cfg.hash keys key cfg.now)

after_master_write :
    (cfg : Config) (key : Text) (m : Option Bool) (keys : Dict ApiKey)
    → legacy_after_master cfg read_only_refused key m keys
      ≡ identifier_of (after_master cfg read_only_denied key m keys)
after_master_write cfg key none keys = refl
after_master_write cfg key (some true) keys = refl
after_master_write cfg key (some false) keys = write_same (authenticate cfg.hash keys key cfg.now)

-- For a request without a bearer token the older dependencies give what the newer ones give: the same
-- identifier, the same error and the same writes.
pub legacy_agrees :
    (cfg : Config) (key : Option Text) (keys : Dict ApiKey)
    → (get_current_api_key cfg key keys ≡ identifier_of (get_current_principal cfg none key keys))
      × (require_write_scope cfg key keys
          ≡ identifier_of (require_write_or_jwt_scope cfg none key keys))
unfolding get_current_api_key require_write_scope get_current_principal require_write_or_jwt_scope
    by_api_key
legacy_agrees cfg none keys = (refl, refl)
legacy_agrees cfg (some []) keys = (refl, refl)
legacy_agrees cfg (some (c ∷ key)) keys = (
  after_master_read cfg (c ∷ key) (is_master cfg (c ∷ key)) keys,
  after_master_write cfg (c ∷ key) (is_master cfg (c ∷ key)) keys,
)

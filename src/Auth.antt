-- ===== src/Auth.antt =====
-- app/api/deps.py with the claim checks of app/adapters/security/jwt_handler.py: who a request is, and
-- whether it may write. PyJWT's `jwt.decode` and the parsing of a UUID are parameters.
pub mod Principals
pub mod Legacy
mod Tests
use node_nexus_api.Prelude.{
  ℕ, String, Bool, true, false, not, Option, none, some, List, [], ◌∷◌, ◌&&◌, Text, codes, ltb,
  text_eq, str_eq, all_of, any_of, if◌then◌else◌,
}
use node_nexus_api.Dict.{Dict, get}
use node_nexus_api.ApiKeys.{
  ApiKey, AuthenticatedPrincipal, KeyError, authentication, revoked, expired, Authenticated,
  accepted, rejected, authenticate,
}

-- A claim of a token. Of a number the code only asks whether it is zero.
pub data Claim : Type 0 where
  null : Claim
  text : Text → Claim
  bool : Bool → Claim
  number : (nonzero : Bool) → Claim
  structured : Claim

pub data Source : Type 0 where
  jwt api_key : Source

pub record Principal : Type 0 where
  pub source : Source
  pub identifier : Text

-- The exceptions that reach the client: HTTPException with its status, those of the API-key service,
-- and the TypeError of `hmac.compare_digest` on a text that is not ASCII.
pub data AuthError : Type 0 where
  http : ℕ → AuthError
  key_error : KeyError → AuthError
  type_error : AuthError

pub data Access (A : Type 0) : Type 0 where
  granted : A → Access A
  denied : AuthError → Access A

-- The world of one request: the keys are the part that is written.
pub record Config : Type 0 where
  pub master_api_key : Text
  pub hash : Text → String
  pub jwt_decode : Text → Option (Dict Claim)
  pub parse_uuid : Text → Option Text
  pub now : ℕ

abbrev pub is_structured : Claim → Bool
is_structured structured = true
is_structured _ = false

-- `payload.get("type") != "access"`
abbrev pub is_access_type : Option Claim → Bool
is_access_type (some (text t)) = text_eq t (codes "access")
is_access_type _ = false

abbrev pub checked_payload : Option (Dict Claim) → Option (Dict Claim)
checked_payload none = none
checked_payload (some p) =
    if any_of (λ c. is_structured c.1) p
    then none
    else if not (is_access_type (get p "type"))
    then none
    else some p

-- `decode_token(token, expected_type="access")`
unfoldable pub decode_token : Config → Text → Option (Dict Claim)
decode_token cfg token = checked_payload (cfg.jwt_decode token)

abbrev pub with_user_id : Dict Claim → Option Text → Access (Text × Dict Claim)
with_user_id p none = denied (http 401)
with_user_id p (some id) = granted (id, p)

abbrev pub subject : Config → Dict Claim → Option Claim → Access (Text × Dict Claim)
subject cfg p (some (text sub)) = with_user_id p (cfg.parse_uuid sub)
subject cfg p _ = denied (http 401)

abbrev pub decoded : Config → Option (Dict Claim) → Access (Text × Dict Claim)
decoded cfg none = denied (http 401)
decoded cfg (some p) = subject cfg p (get p "sub")

unfoldable pub decode_access_token : Config → Text → Access (Text × Dict Claim)
decode_access_token cfg token = decoded cfg (decode_token cfg token)

-- `bool(claims.get(key))`
abbrev pub is_truthy : Option Claim → Bool
is_truthy none = false
is_truthy (some null) = false
is_truthy (some (text [])) = false
is_truthy (some (text (c ∷ s))) = true
is_truthy (some (bool b)) = b
is_truthy (some (number nonzero)) = nonzero
is_truthy (some structured) = true

abbrev pub is_ascii : Text → Bool
is_ascii s = all_of (λ c. ltb c 128) s

-- `hmac.compare_digest` on two texts; `none`: TypeError
unfoldable pub compare_digest : Text → Text → Option Bool
compare_digest a b = if is_ascii a && is_ascii b then some (text_eq a b) else none

abbrev pub is_nonempty : Text → Bool
is_nonempty [] = false
is_nonempty (c ∷ s) = true

-- `settings.MASTER_API_KEY and hmac.compare_digest(presented, settings.MASTER_API_KEY)`
unfoldable pub is_master : Config → Text → Option Bool
is_master cfg presented =
    if is_nonempty cfg.master_api_key
    then compare_digest presented cfg.master_api_key
    else some false

abbrev pub master : Principal
master = record { source = jwt; identifier = codes "master" }

abbrev pub jwt_user : Text → Principal
jwt_user id = record { source = jwt; identifier = id }

-- A dependency reads the request and may write the table of keys.
abbrev pub Dependency : Type 0 → Type 0
Dependency A = Dict ApiKey → Dict ApiKey × Access A

abbrev pub key_principal : AuthenticatedPrincipal → Access Principal
key_principal p = granted (record { source = api_key; identifier = p.key_prefix })

abbrev pub read_only_denied : AuthenticatedPrincipal → Access Principal
read_only_denied p = if str_eq p.scope "read-only" then denied (http 403) else key_principal p

abbrev pub key_result :
    (AuthenticatedPrincipal → Access Principal)
    → Dict ApiKey × Authenticated
    → Dict ApiKey × Access Principal
key_result allow (keys, accepted p) = (keys, allow p)
key_result allow (keys, rejected e) = (keys, denied (key_error e))

-- The X-API-Key branch, once the comparison with the master key is made.
abbrev pub after_master :
    Config → (AuthenticatedPrincipal → Access Principal) → Text → Option Bool → Dependency Principal
after_master cfg allow key none keys = (keys, denied type_error)
after_master cfg allow key (some true) keys = (keys, granted master)
after_master cfg allow key (some false) keys =
    key_result allow (authenticate cfg.hash keys key cfg.now)

-- `none` and `""` are both "no key".
unfoldable pub by_api_key :
    Config → (AuthenticatedPrincipal → Access Principal) → Option Text → Dependency Principal
by_api_key cfg allow none keys = (keys, denied (http 401))
by_api_key cfg allow (some []) keys = (keys, denied (http 401))
by_api_key cfg allow (some (c ∷ key)) keys =
    after_master cfg allow (c ∷ key) (is_master cfg (c ∷ key)) keys

abbrev pub master_claim : Config → Option Claim → Option Bool
master_claim cfg (some (text s)) = is_master cfg s
master_claim cfg _ = some false

abbrev pub jwt_identity : Text → Option Bool → Access Principal
jwt_identity id none = denied type_error
jwt_identity id (some true) = granted master
jwt_identity id (some false) = granted (jwt_user id)

abbrev pub principal_of_token : Config → Access (Text × Dict Claim) → Access Principal
principal_of_token cfg (denied e) = denied e
principal_of_token cfg (granted (id, claims)) =
    jwt_identity id (master_claim cfg (get claims "x-api-key"))

-- `get_current_principal`, with the bearer token and the X-API-Key header of the request
unfoldable pub get_current_principal : Config → Option Text → Option Text → Dependency Principal
get_current_principal cfg (some token) key keys =
    (keys, principal_of_token cfg (decode_access_token cfg token))
get_current_principal cfg none key keys = by_api_key cfg key_principal key keys

abbrev pub superuser_of_token : Access (Text × Dict Claim) → Access Text
superuser_of_token (denied e) = denied e
superuser_of_token (granted (id, claims)) =
    if is_truthy (get claims "is_superuser") then granted id else denied (http 403)

abbrev pub as_jwt_user : Access Text → Access Principal
as_jwt_user (denied e) = denied e
as_jwt_user (granted id) = granted (jwt_user id)

-- `require_write_or_jwt_scope`
unfoldable pub require_write_or_jwt_scope :
    Config → Option Text → Option Text → Dependency Principal
require_write_or_jwt_scope cfg (some token) key keys =
    (keys, as_jwt_user (superuser_of_token (decode_access_token cfg token)))
require_write_or_jwt_scope cfg none key keys = by_api_key cfg read_only_denied key keys

-- `require_superuser`
unfoldable pub require_superuser : Config → Option Text → Access Text
require_superuser cfg none = denied (http 401)
require_superuser cfg (some token) = superuser_of_token (decode_access_token cfg token)

-- ===== src/ApiKeys.antt =====
-- app/application/services/api_key_authentication.py: authentication by API key. The keys are a table
-- by the hash of the key; the hash is a parameter. Times are in seconds.
pub mod Checks
use node_nexus_api.Prelude.{
  ℕ, ◌+◌, String, Bool, true, false, not, Option, none, some, List, [], ◌∷◌, Text, ltb, leb, str_eq,
  if◌then◌else◌,
}
use node_nexus_api.Dict.{Dict, get}

pub record ApiKey : Type 0 where
  pub id : String
  pub key_prefix : Text
  pub scope : String
  pub is_active : Bool
  pub expires_at : Option ℕ
  pub last_used_at : Option ℕ

pub record AuthenticatedPrincipal : Type 0 where
  pub key_id : String
  pub key_prefix : Text
  pub scope : String

pub data KeyError : Type 0 where
  authentication revoked expired : KeyError

pub data Authenticated : Type 0 where
  accepted : AuthenticatedPrincipal → Authenticated
  rejected : KeyError → Authenticated

-- `_LAST_USED_UPDATE_INTERVAL`
abbrev pub last_used_update_interval : ℕ
last_used_update_interval = 300

abbrev pub has_expired : Option ℕ → ℕ → Bool
has_expired none now = false
has_expired (some t) now = ltb t now

-- `last_used_at is None or now - last_used_at >= interval`
abbrev pub is_stale : Option ℕ → ℕ → Bool
is_stale none now = true
is_stale (some t) now = leb (t + last_used_update_interval) now

-- `touch_last_used(id, now)`
unfoldable pub touch_last_used : Dict ApiKey → String → ℕ → Dict ApiKey
touch_last_used [] id now = []
touch_last_used ((h, k) ∷ keys) id now =
    let rest = touch_last_used keys id now in
    (h, if str_eq k.id id then record k { last_used_at = some now } else k) ∷ rest

abbrev pub principal_of : ApiKey → AuthenticatedPrincipal
principal_of k = record { key_id = k.id; key_prefix = k.key_prefix; scope = k.scope }

abbrev pub check_key : Dict ApiKey → ℕ → Option ApiKey → Dict ApiKey × Authenticated
check_key keys now none = (keys, rejected authentication)
check_key keys now (some k) =
    if not k.is_active
    then (keys, rejected revoked)
    else if has_expired k.expires_at now
    then (keys, rejected expired)
    else (
      if is_stale k.last_used_at now then touch_last_used keys k.id now else keys,
      accepted (principal_of k),
    )

unfoldable pub authenticate : (Text → String) → Dict ApiKey → Text → ℕ → Dict ApiKey × Authenticated
authenticate hash keys plain_key now = check_key keys now (get keys (hash plain_key))

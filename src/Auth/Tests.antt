-- ===== src/Auth/Tests.antt =====
-- The checks of a request on small inputs: one key that was used long ago, and a token of a superuser.
use node_nexus_api.Prelude.{
  ◌≤◌, ℕ, ◌+◌, ◌<◌, String, true, false, Option, none, some, [], ◌∷◌, ◌≡◌, refl, Text, codes,
}
use node_nexus_api.Dict.{Dict, get}
use node_nexus_api.ApiKeys.{
  ApiKey, KeyError, authentication, revoked, expired, accepted, rejected, authenticate,
}
use node_nexus_api.ApiKeys.Checks.{authenticate_exact, without_use, authenticate_writes}
use node_nexus_api.Auth.{
  Claim, text, bool, api_key, Principal, http, granted, denied, Config, decode_token,
  get_current_principal, require_write_or_jwt_scope, require_superuser, by_api_key, is_master,
  compare_digest,
}
use node_nexus_api.Auth.Principals.{
  invalid_token_denied, WriteCredential, require_write_sound, write_implies_read,
}

abbrev hash : Text → String
hash s = "h"

abbrev web_key : ApiKey
web_key = record {
  id = "1";
  key_prefix = codes "nn_w";
  scope = "read-write";
  is_active = true;
  expires_at = some 5000;
  last_used_at = some 100;
}

abbrev keys : Dict ApiKey
keys = ("h", web_key) ∷ []

abbrev claims : Dict Claim
claims =
    ("type", text (codes "access")) ∷ ("sub", text (codes "u1")) ∷ ("is_superuser", bool true) ∷ []

abbrev decode : Text → Option (Dict Claim)
decode [] = none
decode (c ∷ s) = some claims

abbrev cfg : Config
cfg = record {
  master_api_key = codes "m";
  hash = hash;
  jwt_decode = decode;
  parse_uuid = λ s. some s;
  now = 1000;
}

abbrev web : Principal
web = record { source = api_key; identifier = codes "nn_w" }

key-writes : (require_write_or_jwt_scope cfg none (some (codes "nn_web")) keys).1 ≡ granted web
unfolding require_write_or_jwt_scope by_api_key is_master compare_digest authenticate get
key-writes = refl

authenticate_exact_example :
    (get keys (hash (codes "nn_web")) ≡ none
      → (authenticate hash keys (codes "nn_web") 1000).1 ≡ rejected authentication)
    × ((k : ApiKey)
        → get keys (hash (codes "nn_web")) ≡ some k
        → (k.is_active ≡ false
            → (authenticate hash keys (codes "nn_web") 1000).1 ≡ rejected revoked)
          × ((t : ℕ)
              → k.is_active ≡ true
              → k.expires_at ≡ some t
              → t < 1000
              → (authenticate hash keys (codes "nn_web") 1000).1 ≡ rejected expired)
          × ((t : ℕ)
              → k.is_active ≡ true
              → k.expires_at ≡ some t
              → 1000 ≤ t
              → (authenticate hash keys (codes "nn_web") 1000).1
                ≡ accepted (record { key_id = k.id; key_prefix = k.key_prefix; scope = k.scope }))
          × (k.is_active ≡ true
              → k.expires_at ≡ none
              → (authenticate hash keys (codes "nn_web") 1000).1
                ≡ accepted (record { key_id = k.id; key_prefix = k.key_prefix; scope = k.scope })))
authenticate_exact_example = authenticate_exact hash keys (codes "nn_web") 1000

authenticate_writes_example :
    ((h : String)
      → without_use (get (authenticate hash keys (codes "nn_web") 1000).0 h)
        ≡ without_use (get keys h))
    × ((e : KeyError)
        → (authenticate hash keys (codes "nn_web") 1000).1 ≡ rejected e
        → (authenticate hash keys (codes "nn_web") 1000).0 ≡ keys)
    × ((k : ApiKey) (t : ℕ)
        → get keys (hash (codes "nn_web")) ≡ some k
        → k.last_used_at ≡ some t
        → 1000 < t + 300
        → (authenticate hash keys (codes "nn_web") 1000).0 ≡ keys)
authenticate_writes_example = authenticate_writes hash keys (codes "nn_web") 1000

no-token : decode_token cfg [] ≡ none
unfolding decode_token
no-token = refl

invalid_token_denied_example :
    (get_current_principal cfg (some []) (some (codes "nn_web")) keys ≡ (keys, denied (http 401)))
    × (require_write_or_jwt_scope cfg (some []) (some (codes "nn_web")) keys
        ≡ (keys, denied (http 401)))
    × (require_superuser cfg (some []) ≡ denied (http 401))
invalid_token_denied_example = invalid_token_denied cfg [] (some (codes "nn_web")) keys no-token

require_write_sound_example : WriteCredential cfg keys none (some (codes "nn_web")) web
require_write_sound_example =
    require_write_sound cfg none (some (codes "nn_web")) keys web key-writes

write_implies_read_example :
    get_current_principal cfg none (some (codes "nn_web")) keys
    ≡ require_write_or_jwt_scope cfg none (some (codes "nn_web")) keys
write_implies_read_example = write_implies_read cfg (some (codes "nn_web")) keys web key-writes

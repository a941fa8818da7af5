-- ===== src/Auth/Principals.antt =====
-- What a granted request had to present.
use node_nexus_api.Prelude.{
  ℕ, Bool, true, false, Option, none, some, [], ◌∷◌, ◌≡◌, refl, arith, Text, text_eq_sound, str_eq,
  if◌then◌else◌,
}
use node_nexus_api.Dict.{Dict, get}
use node_nexus_api.ApiKeys.{ApiKey, Authenticated, accepted, rejected, check_key, authenticate}
use node_nexus_api.ApiKeys.Checks.{is_usable}
use node_nexus_api.Auth.{
  Claim, api_key, Principal, http, type_error, Access, granted, denied, Config, decode_token,
  decode_access_token, is_truthy, is_ascii, compare_digest, is_master, is_nonempty, master,
  jwt_user, key_principal, read_only_denied, key_result, after_master, by_api_key,
  get_current_principal, superuser_of_token, as_jwt_user, require_write_or_jwt_scope,
  require_superuser,
}

-- A Bearer token that does not decode ends every check with 401 and writes nothing, whatever the
-- X-API-Key header holds: there is no fallback to the API key.
pub invalid_token_denied :
    (cfg : Config) (token : Text) (key : Option Text) (keys : Dict ApiKey)
    → decode_token cfg token ≡ none
    → (get_current_principal cfg (some token) key keys ≡ (keys, denied (http 401)))
      × (require_write_or_jwt_scope cfg (some token) key keys ≡ (keys, denied (http 401)))
      × (require_superuser cfg (some token) ≡ denied (http 401))
unfolding get_current_principal require_write_or_jwt_scope require_superuser decode_access_token
invalid_token_denied cfg token key keys h = rw h (refl, refl, refl)

-- A stored API key that may be used, and lets its bearer write.
pub record WriteKey (cfg : Config) (keys : Dict ApiKey) (plain_key : Text) (p : Principal)
    : Type 0 where
  pub stored : ApiKey
  pub found : get keys (cfg.hash plain_key) ≡ some stored
  pub usable : is_usable stored cfg.now ≡ true
  pub scope : str_eq stored.scope "read-only" ≡ false
  pub principal : p ≡ record { source = api_key; identifier = stored.key_prefix }

checked_write :
    (cfg : Config) (keys : Dict ApiKey) (plain_key : Text) (p : Principal) (found : Option ApiKey)
    → get keys (cfg.hash plain_key) ≡ found
    → (key_result read_only_denied (check_key keys cfg.now found)).1 ≡ granted p
    → WriteKey cfg keys plain_key p
checked_write cfg keys plain_key p none e h = absurd (cc)
checked_write cfg keys plain_key p (some k) e h = record {
  stored = k;
  found = e;
  usable = ground arith;
  scope = ground arith;
  principal = ground arith;
}

granted-inv :
    (id : Text) (p : Principal) (b : Bool)
    → (if b then granted (jwt_user id) else denied (http 403)) ≡ granted p
    → (b ≡ true) × (p ≡ jwt_user id)
granted-inv id p b h = ground arith

-- A token that decodes and says that its subject is a superuser.
pub record SuperuserToken (cfg : Config) (token : Text) (p : Principal) : Type 0 where
  pub id : Text
  pub claims : Dict Claim
  pub decodes : decode_access_token cfg token ≡ granted (id, claims)
  pub superuser : is_truthy (get claims "is_superuser") ≡ true
  pub principal : p ≡ jwt_user id

superuser-inv :
    (cfg : Config) (token : Text) (p : Principal) (r : Access (Text × Dict Claim))
    → decode_access_token cfg token ≡ r
    → as_jwt_user (superuser_of_token r) ≡ granted p
    → SuperuserToken cfg token p
superuser-inv cfg token p (denied e) d h = absurd (cc)
superuser-inv cfg token p (granted (id, claims)) d h = record {
  id = id;
  claims = claims;
  decodes = d;
  superuser = ground arith;
  principal = ground arith;
}

is_master-inv :
    (cfg : Config) (k : Text)
    → is_master cfg k ≡ some true
    → (is_nonempty cfg.master_api_key ≡ true) × (k ≡ cfg.master_api_key)
unfolding is_master compare_digest
is_master-inv cfg k h = ground (arith, text_eq_sound k cfg.master_api_key)

-- The credential that lets a request write.
pub data WriteCredential (cfg : Config) (keys : Dict ApiKey)
    : Option Text → Option Text → Principal → Type 0 where
  by_superuser :
      {token : Text} {key : Option Text} {p : Principal}
      → SuperuserToken cfg token p
      → WriteCredential cfg keys (some token) key p
  by_master :
      {k : Text} {p : Principal}
      → is_nonempty cfg.master_api_key ≡ true
      → k ≡ cfg.master_api_key
      → p ≡ master
      → WriteCredential cfg keys none (some k) p
  by_key :
      {plain_key : Text} {p : Principal}
      → WriteKey cfg keys plain_key p
      → WriteCredential cfg keys none (some plain_key) p

after_master-inv :
    (cfg : Config) (keys : Dict ApiKey) (k : Text) (p : Principal) (m : Option Bool)
    → is_master cfg k ≡ m
    → (after_master cfg read_only_denied k m keys).1 ≡ granted p
    → WriteCredential cfg keys none (some k) p
unfolding authenticate
after_master-inv cfg keys k p none e h = absurd (cc)
after_master-inv cfg keys k p (some true) e h =
    let m = is_master-inv cfg k e in by_master m.0 m.1 (cc)
after_master-inv cfg keys k p (some false) e h =
    by_key (checked_write cfg keys k p (get keys (cfg.hash k)) refl h)

-- A request that passes `require_write_or_jwt_scope` has a token that decodes to a superuser, or no
-- token and the configured master key, or no token and a stored API key that is active, not expired
-- and not read-only; and it passes as the identity of that credential.
pub require_write_sound :
    (cfg : Config) (bearer : Option Text) (key : Option Text) (keys : Dict ApiKey) (p : Principal)
    → (require_write_or_jwt_scope cfg bearer key keys).1 ≡ granted p
    → WriteCredential cfg keys bearer key p
unfolding require_write_or_jwt_scope by_api_key
require_write_sound cfg (some token) key keys p h =
    by_superuser (superuser-inv cfg token p (decode_access_token cfg token) refl h)
require_write_sound cfg none none keys p h = absurd (cc)
require_write_sound cfg none (some []) keys p h = absurd (cc)
require_write_sound cfg none (some (c ∷ k)) keys p h =
    after_master-inv cfg keys (c ∷ k) p (is_master cfg (c ∷ k)) refl h

checked_same :
    (r : Dict ApiKey × Authenticated) (p : Principal)
    → (key_result read_only_denied r).1 ≡ granted p
    → key_result key_principal r ≡ key_result read_only_denied r
checked_same (keys, accepted a) p h = ground arith
checked_same (keys, rejected e) p h = refl

after_master_same :
    (cfg : Config) (keys : Dict ApiKey) (k : Text) (p : Principal) (m : Option Bool)
    → (after_master cfg read_only_denied k m keys).1 ≡ granted p
    → after_master cfg key_principal k m keys ≡ after_master cfg read_only_denied k m keys
after_master_same cfg keys k p none h = refl
after_master_same cfg keys k p (some true) h = refl
after_master_same cfg keys k p (some false) h =
    checked_same (authenticate cfg.hash keys k cfg.now) p h

-- What passes the write check without a token passes the read check, as the same identity and with the
-- same writes.
pub write_implies_read :
    (cfg : Config) (key : Option Text) (keys : Dict ApiKey) (p : Principal)
    → (require_write_or_jwt_scope cfg none key keys).1 ≡ granted p
    → get_current_principal cfg none key keys ≡ require_write_or_jwt_scope cfg none key keys
unfolding require_write_or_jwt_scope by_api_key get_current_principal
write_implies_read cfg none keys p h = absurd (cc)
write_implies_read cfg (some []) keys p h = absurd (cc)
write_implies_read cfg (some (c ∷ k)) keys p h =
    after_master_same cfg keys (c ∷ k) p (is_master cfg (c ∷ k)) h

-- With a master key configured, an X-API-Key header that has a byte beyond ASCII ends in the TypeError of `hmac.compare_digest` and
-- not in a 401.
pub non_ascii_key_type_error :
    (cfg : Config) (c : ℕ) (k : Text) (keys : Dict ApiKey)
    → is_nonempty cfg.master_api_key ≡ true
    → is_ascii (c ∷ k) ≡ false
    → (get_current_principal cfg none (some (c ∷ k)) keys ≡ (keys, denied type_error))
      × (require_write_or_jwt_scope cfg none (some (c ∷ k)) keys ≡ (keys, denied type_error))
unfolding require_write_or_jwt_scope by_api_key get_current_principal is_master compare_digest
non_ascii_key_type_error cfg c k keys m a = rw (m, a) (refl, refl)

-- ===== src/ApiKeys/Checks.antt =====
-- Which keys are accepted, and what a use of a key writes.
use node_nexus_api.Prelude.{
  ℕ, ◌+◌, String, Bool, true, false, not, Option, none, some, [], ◌∷◌, ◌≡◌, refl, ◌&&◌, ◌<◌, ◌≤◌,
  arith, Text,
}
use node_nexus_api.Dict.{Dict, get}
use node_nexus_api.ApiKeys.{
  ApiKey, KeyError, authentication, revoked, expired, accepted, rejected, has_expired,
  touch_last_used, check_key, authenticate,
}

-- A key that may be used at `now`.
abbrev pub is_usable : ApiKey → ℕ → Bool
is_usable k now = k.is_active && not (has_expired k.expires_at now)

module _ (hash : Text → String) (keys : Dict ApiKey) (plain_key : Text) (now : ℕ) where
  -- An unknown hash is an authentication error, an inactive key is revoked, and an active key whose expiry lies before `now` is expired; an active key without an expiry, or with one not before `now`, is accepted with the stored id, prefix and scope of its own row.
  pub authenticate_exact :
      (get keys (hash plain_key) ≡ none
        → (authenticate hash keys plain_key now).1 ≡ rejected authentication)
      × ((k : ApiKey)
          → get keys (hash plain_key) ≡ some k
          → (k.is_active ≡ false → (authenticate hash keys plain_key now).1 ≡ rejected revoked)
            × ((t : ℕ)
                → k.is_active ≡ true
                → k.expires_at ≡ some t
                → t < now
                → (authenticate hash keys plain_key now).1 ≡ rejected expired)
            × ((t : ℕ)
                → k.is_active ≡ true
                → k.expires_at ≡ some t
                → now ≤ t
                → (authenticate hash keys plain_key now).1
                  ≡ accepted (record { key_id = k.id; key_prefix = k.key_prefix; scope = k.scope }))
            × (k.is_active ≡ true
                → k.expires_at ≡ none
                → (authenticate hash keys plain_key now).1
                  ≡ accepted
                      (record { key_id = k.id; key_prefix = k.key_prefix; scope = k.scope })))
  unfolding authenticate
  authenticate_exact = (
    λ e. rw e,
    λ k e. rw e (
      λ inactive. rw inactive,
      λ t active at old. rw (active, at) (ground arith),
      λ t active at still. rw (active, at) (ground arith),
      λ active never. rw (active, never) refl,
    ),
  )

  -- A rejected key writes nothing.
  pub authenticate_rejected :
      (e : KeyError)
      → (authenticate hash keys plain_key now).1 ≡ rejected e
      → (authenticate hash keys plain_key now).0 ≡ keys
  unfolding authenticate
  authenticate_rejected e h = ground arith

-- A stored key without the time of its last use.
abbrev pub without_use : Option ApiKey → Option ApiKey
without_use none = none
without_use (some k) = some (record k { last_used_at = none })

touch_last_used_keeps :
    (keys : Dict ApiKey) (id : String) (now : ℕ) (h : String)
    → without_use (get (touch_last_used keys id now) h) ≡ without_use (get keys h)
unfolding touch_last_used get
touch_last_used_keeps [] id now h = refl
touch_last_used_keeps ((g, k) ∷ keys) id now h = ground (arith, touch_last_used_keeps keys id now h)

-- Authentication writes nothing but times of last use, and nothing at all for a key that it rejects
-- or that was used less than five minutes ago.
pub authenticate_writes :
    (hash : Text → String) (keys : Dict ApiKey) (plain_key : Text) (now : ℕ)
    → ((h : String)
        → without_use (get (authenticate hash keys plain_key now).0 h) ≡ without_use (get keys h))
      × ((e : KeyError)
          → (authenticate hash keys plain_key now).1 ≡ rejected e
          → (authenticate hash keys plain_key now).0 ≡ keys)
      × ((k : ApiKey) (t : ℕ)
          → get keys (hash plain_key) ≡ some k
          → k.last_used_at ≡ some t
          → now < t + 300
          → (authenticate hash keys plain_key now).0 ≡ keys)
unfolding authenticate
authenticate_writes hash keys plain_key now = (
  λ h. written (get keys (hash plain_key)) h,
  authenticate_rejected hash keys plain_key now,
  λ k t e used soon. rw e (ground arith),
)
  where
    written :
        (found : Option ApiKey) (h : String)
        → without_use (get (check_key keys now found).0 h) ≡ without_use (get keys h)
    written none h = refl
    written (some k) h = ground (arith, touch_last_used_keeps keys k.id now h)

-- ===== src/Tokens/Sessions.antt =====
-- What a session may do with its refresh token.
use node_nexus_api.Prelude.{
  ◌+◌, ◌*◌, ℕ, ◌<◌, String, true, false, Option, none, some, str_eq, eq_refl, ◌≡◌, refl, arith,
  Bool-cases, inl, inr,
}
use node_nexus_api.Dict.{get, contains, put, remove, get-put, get-remove}
use node_nexus_api.Dict.Sizes.{contains-remove}
use node_nexus_api.Tokens.{
  RefreshToken, Rows, is_valid, get_user_id_by_hash, Written, answer, integrity_error, create,
  is_consumed, rotate, delete, User, Services, TokenPair, tokens, token_expired, token_expiry,
  token_pair, rotated, refresh_user, refresh_of, refresh_access_token, logout,
}

-- A hash that is not stored is refused, and nothing is written.
unknown_refused :
    (s : Services) (rows : Rows) (h : String)
    → get rows h ≡ none
    → refresh_access_token s rows h ≡ (rows, token_expired)
unfolding refresh_access_token get_user_id_by_hash
unknown_refused s rows h e = rw e refl

-- After a logout the refresh token is refused, whatever the time and the user.
pub logout_ends :
    (s : Services) (rows : Rows) (h : String)
    → refresh_access_token s (logout rows h) h ≡ (logout rows h, token_expired)
unfolding logout delete
logout_ends s rows h =
    unknown_refused s (remove rows h) h (rw (get-remove rows h h, eq_refl h) refl)

rotate_forgets :
    (rows rows' : Rows) (old user new : String) (expires_at now : ℕ)
    → str_eq new old ≡ false
    → rotate rows old user new expires_at now ≡ (rows', answer true)
    → get rows' old ≡ none
unfolding rotate create
rotate_forgets rows rows' old user new expires_at now fresh h =
    elim (Bool-cases (is_consumed (get rows old) user now)) [
      | inl y ↦ elim (Bool-cases (contains (remove rows old) new)) [
        | inl z ↦ absurd (ground arith)
        | inr z ↦ ground (
          arith,
          get-put (remove rows old) new old (record { user_id = user; expires_at = expires_at }),
          get-remove rows old old,
          eq_refl old,
        )
      ]
      | inr n ↦ absurd (ground arith)
    ]

rotated-inv :
    (pair pair' : TokenPair) (r : Rows × Written) (rows' : Rows)
    → rotated pair r ≡ (rows', tokens pair')
    → r ≡ (rows', answer true)
rotated-inv pair pair' (rows, answer true) rows' h = ground arith
rotated-inv pair pair' (rows, answer false) rows' h = absurd (cc)
rotated-inv pair pair' (rows, integrity_error) rows' h = absurd (cc)

refresh_user_forgets :
    (s : Services) (rows rows' : Rows) (old id : String) (pair : TokenPair) (found : Option User)
    → str_eq (s.hash_token s.refresh_token) old ≡ false
    → refresh_user s rows old id found ≡ (rows', tokens pair)
    → get rows' old ≡ none
refresh_user_forgets s rows rows' old id pair none fresh h = absurd (cc)
refresh_user_forgets s rows rows' old id pair (some user) fresh h =
    elim (Bool-cases user.is_active) [
      | inl y ↦
          rotate_forgets rows rows' old id (s.hash_token s.refresh_token) (token_expiry s) s.now
            fresh
            (rotated-inv (token_pair s id user.email user.is_superuser) pair
              (rotate rows old id (s.hash_token s.refresh_token) (token_expiry s) s.now) rows'
              (rw y at h))
      | inr n ↦ absurd (ground arith)
    ]

refresh_forgets :
    (s : Services) (rows rows' : Rows) (old : String) (pair : TokenPair) (found : Option String)
    → str_eq (s.hash_token s.refresh_token) old ≡ false
    → refresh_of s rows old found ≡ (rows', tokens pair)
    → get rows' old ≡ none
refresh_forgets s rows rows' old pair none fresh h = absurd (cc)
refresh_forgets s rows rows' old pair (some id) fresh h =
    refresh_user_forgets s rows rows' old id pair (get s.users id) fresh h

-- A refresh that succeeds consumes its token: in the state that it leaves, the same token is refused to
-- any request at any time, if the new token has another hash.
pub refresh_consumes :
    (s s' : Services) (rows rows' : Rows) (old : String) (pair : TokenPair)
    → str_eq (s.hash_token s.refresh_token) old ≡ false
    → refresh_access_token s rows old ≡ (rows', tokens pair)
    → refresh_access_token s' rows' old ≡ (rows', token_expired)
unfolding refresh_access_token
refresh_consumes s s' rows rows' old pair fresh h =
    unknown_refused s' rows' old
      (refresh_forgets s rows rows' old pair (get_user_id_by_hash rows old s.now) fresh h)

rotate-found :
    (rows : Rows) (old new : String) (expires_at now : ℕ) (t : RefreshToken)
    → get rows old ≡ some t
    → is_valid now t ≡ true
    → contains rows new ≡ false
    → rotate rows old t.user_id new expires_at now ≡ (
      put (remove rows old) new (record { user_id = t.user_id; expires_at = expires_at }),
      answer true,
    )
unfolding rotate create
rotate-found rows old new expires_at now t found valid free =
    ground (arith, eq_refl t.user_id, contains-remove rows old new)

-- A token that is stored, not expired, of a user that is active, is exchanged, if the new token's hash is not stored yet: the answer has an access token for the id, the email and the superuser flag of that user and the new refresh token, which is stored for the same user until the configured number of days from now.
pub refresh_continues :
    (s : Services) (rows : Rows) (old : String) (t : RefreshToken) (user : User)
    → get rows old ≡ some t
    → s.now < t.expires_at
    → get s.users t.user_id ≡ some user
    → user.is_active ≡ true
    → contains rows (s.hash_token s.refresh_token) ≡ false
    → (refresh_access_token s rows old).1
        ≡ tokens (record {
          access_token = s.encode_access_token t.user_id user.email user.is_superuser;
          refresh_token = s.refresh_token;
        })
      × (get (refresh_access_token s rows old).0 (s.hash_token s.refresh_token)
          ≡ some (record {
            user_id = t.user_id;
            expires_at = s.now + s.refresh_token_expire_days * (24 * 60 * 60);
          }))
unfolding refresh_access_token get_user_id_by_hash
refresh_continues s rows old t user found fresh u active new =
    rw
      (
        found,
        valid,
        u,
        active,
        rotate-found rows old (s.hash_token s.refresh_token) (token_expiry s) s.now t found valid
            new,
      )
      (
        refl,
        rw
            (
              get-put (remove rows old) (s.hash_token s.refresh_token)
                  (s.hash_token s.refresh_token)
                  (record { user_id = t.user_id; expires_at = token_expiry s }),
              eq_refl (s.hash_token s.refresh_token),
            )
            refl,
      )
  where
    valid : is_valid s.now t ≡ true
    valid = ground arith

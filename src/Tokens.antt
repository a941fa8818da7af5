-- ===== src/Tokens.antt =====
-- app/adapters/persistence/dao/refresh_token.py with the transactions of app/adapters/persistence/user.py
-- and app/application/services/auth_service.py: refresh tokens. The rows are a table by the token's
-- hash, which has a unique index. Every method of the gateway is one transaction. Times are in seconds.
-- The encoding, the hash of a token and the password hasher are parameters.
pub mod Rotation
pub mod Sessions
mod Tests
use node_nexus_api.Prelude.{
  ℕ, ◌+◌, ◌*◌, String, Bool, true, false, not, Option, none, some, List, [], ◌∷◌, ltb, str_eq, ◌&&◌,
  keep_if, if◌then◌else◌,
}
use node_nexus_api.Dict.{Dict, get, contains, put, remove}

pub record RefreshToken : Type 0 where
  pub user_id : String
  pub expires_at : ℕ

abbrev pub Rows : Type 0
Rows = Dict RefreshToken

-- The row of a hash, if it has not expired: `token_hash == h and expires_at > now`.
abbrev pub is_valid : ℕ → RefreshToken → Bool
is_valid now t = ltb now t.expires_at

abbrev pub valid_user : ℕ → Option RefreshToken → Option String
valid_user now none = none
valid_user now (some t) = if is_valid now t then some t.user_id else none

unfoldable pub get_user_id_by_hash : Rows → String → ℕ → Option String
get_user_id_by_hash rows h now = valid_user now (get rows h)

-- What a transaction that writes ends in: its answer, or the integrity error of the unique index, which
-- rolls it back.
pub data Written : Type 0 where
  answer : Bool → Written
  integrity_error : Written

unfoldable pub create : Rows → String → String → ℕ → Rows × Written
create rows user h expires_at =
    if contains rows h
    then (rows, integrity_error)
    else (put rows h (record { user_id = user; expires_at = expires_at }), answer true)

-- `DELETE … WHERE token_hash = old AND user_id = user AND expires_at > now RETURNING user_id`
abbrev pub is_consumed : Option RefreshToken → String → ℕ → Bool
is_consumed none user now = false
is_consumed (some t) user now = str_eq t.user_id user && is_valid now t

abbrev pub unless_conflict : Rows → Rows × Written → Rows × Written
unless_conflict before (rows, answer b) = (rows, answer b)
unless_conflict before (rows, integrity_error) = (before, integrity_error)

unfoldable pub rotate : Rows → String → String → String → ℕ → ℕ → Rows × Written
rotate rows old user new expires_at now =
    if is_consumed (get rows old) user now
    then unless_conflict rows (create (remove rows old) user new expires_at)
    else (rows, answer false)

unfoldable pub delete : Rows → String → Rows × Written
delete rows h = (remove rows h, answer (contains rows h))

unfoldable pub delete_by_user : Rows → String → Rows
delete_by_user rows user = keep_if (λ r. not (str_eq r.1.user_id user)) rows

-- `user_id == user and expires_at <= now`
unfoldable pub delete_expired_by_user : Rows → String → ℕ → Rows
delete_expired_by_user rows user now =
    keep_if (λ r. not (str_eq r.1.user_id user && not (is_valid now r.1))) rows

pub record User : Type 0 where
  pub email : String
  pub hashed_password : String
  pub is_active : Bool
  pub is_superuser : Bool

-- `get_user_id_by_email`: an email has one user at most
unfoldable pub get_user_id_by_email : Dict User → String → Option String
get_user_id_by_email [] email = none
get_user_id_by_email ((id, user) ∷ users) email =
    if str_eq user.email email then some id else get_user_id_by_email users email

-- The ports and the settings of the service. `refresh_token` is the token that this request makes.
pub record Services : Type 0 where
  pub users : Dict User
  pub encode_access_token : String → String → Bool → String
  pub refresh_token : String
  pub hash_token : String → String
  pub verify : String → String → Bool
  pub refresh_token_expire_days : ℕ
  pub now : ℕ

pub record TokenPair : Type 0 where
  pub access_token : String
  pub refresh_token : String

pub data Session : Type 0 where
  tokens : TokenPair → Session
  invalid_credentials token_expired conflict : Session

abbrev pub token_expiry : Services → ℕ
token_expiry s = s.now + s.refresh_token_expire_days * 86400

abbrev pub token_pair : Services → String → String → Bool → TokenPair
token_pair s id email is_superuser = record {
  access_token = s.encode_access_token id email is_superuser;
  refresh_token = s.refresh_token;
}

abbrev pub stored : TokenPair → Rows × Written → Rows × Session
stored pair (rows, answer b) = (rows, tokens pair)
stored pair (rows, integrity_error) = (rows, conflict)

abbrev pub checked_login : Services → Rows → String → String → String → Option User → Rows × Session
checked_login s rows email password id none = (rows, invalid_credentials)
checked_login s rows email password id (some user) =
    if not (s.verify password user.hashed_password)
    then (rows, invalid_credentials)
    else if not user.is_active
    then (rows, invalid_credentials)
    else stored (token_pair s id email user.is_superuser) (
        create (delete_expired_by_user rows id s.now) id (s.hash_token s.refresh_token)
          (token_expiry s))

abbrev pub login_of : Services → Rows → String → String → Option String → Rows × Session
login_of s rows email password none = (rows, invalid_credentials)
login_of s rows email password (some id) = checked_login s rows email password id (get s.users id)

unfoldable pub login : Services → Rows → String → String → Rows × Session
login s rows email password = login_of s rows email password (get_user_id_by_email s.users email)

abbrev pub rotated : TokenPair → Rows × Written → Rows × Session
rotated pair (rows, answer true) = (rows, tokens pair)
rotated pair (rows, answer false) = (rows, token_expired)
rotated pair (rows, integrity_error) = (rows, conflict)

-- A user that is gone is not active.
abbrev pub refresh_user : Services → Rows → String → String → Option User → Rows × Session
refresh_user s rows old id none = (rows, invalid_credentials)
refresh_user s rows old id (some user) =
    if not user.is_active
    then (rows, invalid_credentials)
    else rotated (token_pair s id user.email user.is_superuser)
        (rotate rows old id (s.hash_token s.refresh_token) (token_expiry s) s.now)

abbrev pub refresh_of : Services → Rows → String → Option String → Rows × Session
refresh_of s rows old none = (rows, token_expired)
refresh_of s rows old (some id) = refresh_user s rows old id (get s.users id)

unfoldable pub refresh_access_token : Services → Rows → String → Rows × Session
refresh_access_token s rows old = refresh_of s rows old (get_user_id_by_hash rows old s.now)

unfoldable pub logout : Rows → String → Rows
logout rows h = (delete rows h).0

-- ===== src/Tokens/Tests.antt =====
-- One user whose session is refreshed.
use node_nexus_api.Prelude.{
  ℕ, ◌+◌, ◌≤◌, true, false, some, List, [], ◌∷◌, ◌≡◌, refl, arith, count_if,
}
use node_nexus_api.Dict.{get, contains, put, remove}
use node_nexus_api.Tokens.{
  RefreshToken, Rows, User, Services, TokenPair, tokens, token_expired, get_user_id_by_hash,
  get_user_id_by_email, rotate, create, delete_expired_by_user, login, refresh_access_token,
}
use node_nexus_api.Tokens.Rotation.{Statement, rotates, exchanges, bit, is_storing, exchanges-le}
use node_nexus_api.Tokens.Sessions.{refresh_consumes, refresh_continues}

abbrev ann : User
ann = record { email = "a"; hashed_password = "#p"; is_active = true; is_superuser = false }

abbrev at_login : Services
at_login = record {
  users = ("1", ann) ∷ [];
  encode_access_token = λ id email superuser. "access";
  refresh_token = "r1";
  hash_token = λ t. t;
  verify = λ password hashed. true;
  refresh_token_expire_days = 1;
  now = 100;
}

abbrev later : Services
later = record at_login { refresh_token = "r2"; now = 200 }

abbrev row : ℕ → RefreshToken
row t = record { user_id = "1"; expires_at = t }

abbrev rows : Rows
rows = ("r1", row 86500) ∷ []

abbrev pair : TokenPair
pair = record { access_token = "access"; refresh_token = "r2" }

login-stores : (login at_login (("r0", row 50) ∷ []) "a" "p").0 ≡ rows
unfolding login get_user_id_by_email create delete_expired_by_user get put contains
login-stores = refl

refresh-pair : refresh_access_token later rows "r1" ≡ (("r2", row 86600) ∷ [], tokens pair)
unfolding refresh_access_token get_user_id_by_hash rotate create get put contains remove
refresh-pair = refl

refresh_consumes_example :
    refresh_access_token later (("r2", row 86600) ∷ []) "r1"
    ≡ (("r2", row 86600) ∷ [], token_expired)
refresh_consumes_example =
    refresh_consumes later later rows (("r2", row 86600) ∷ []) "r1" pair refl refresh-pair

get-r1 : get rows "r1" ≡ some (row 86500)
unfolding get
get-r1 = refl

get-user : get later.users "1" ≡ some ann
unfolding get
get-user = refl

contains-r2 : contains rows "r2" ≡ false
unfolding contains
contains-r2 = refl

refresh_continues_example :
    ((refresh_access_token later rows "r1").1
      ≡ tokens (record { access_token = "access"; refresh_token = "r2" }))
    × (get (refresh_access_token later rows "r1").0 "r2" ≡ some (row 86600))
refresh_continues_example =
    refresh_continues later rows "r1" (row 86500) ann get-r1 (omega arith) get-user refl contains-r2

abbrev race : List Statement
race = rotates "r1" "1" "r2" 900 200 ∷ rotates "r1" "1" "r3" 900 200 ∷ []

exchanges-le_example :
    exchanges "r1" rows race ≤ bit (contains rows "r1") + count_if (is_storing "r1") race
exchanges-le_example = exchanges-le "r1" rows race

-- ===== src/Tokens/Rotation.antt =====
-- The transactions of all requests, in the order in which the database runs them.
use node_nexus_api.Prelude.{
  ℕ, ◌+◌, ◌≤◌, String, Bool, true, false, not, Option, none, some, List, [], ◌∷◌, str_eq, eq_iff,
  ◌&&◌, keep_if, count_if, ◌≡◌, refl, arith, Bool-cases, inl, inr,
}
use node_nexus_api.Dict.{get, contains, remove}
use node_nexus_api.Dict.Sizes.{
  contains-put_iff, contains-remove, contains-eq-true, contains-keep_if,
}
use node_nexus_api.Tokens.{
  RefreshToken, Rows, is_valid, Written, answer, integrity_error, create, is_consumed, rotate,
  delete, delete_by_user, delete_expired_by_user,
}

pub data Statement : Type 0 where
  creates : (user h : String) (expires_at : ℕ) → Statement
  rotates : (old user new : String) (expires_at now : ℕ) → Statement
  deletes : (h : String) → Statement
  deletes_by_user : (user : String) → Statement
  deletes_expired : (user : String) (now : ℕ) → Statement

unfoldable pub execute : Rows → Statement → Rows × Written
execute rows (creates user h expires_at) = create rows user h expires_at
execute rows (rotates old user new expires_at now) = rotate rows old user new expires_at now
execute rows (deletes h) = delete rows h
execute rows (deletes_by_user user) = (delete_by_user rows user, answer true)
execute rows (deletes_expired user now) = (delete_expired_by_user rows user now, answer true)

-- Whether a statement would store a hash.
abbrev pub is_storing : String → Statement → Bool
is_storing k (creates user h expires_at) = str_eq h k
is_storing k (rotates old user new expires_at now) = str_eq new k
is_storing k _ = false

abbrev pub is_success : Written → Bool
is_success (answer b) = b
is_success integrity_error = false

-- Whether a statement exchanged a hash.
abbrev pub is_exchange : String → Statement → Written → Bool
is_exchange k (rotates old user new expires_at now) w = str_eq old k && is_success w
is_exchange k _ w = false

abbrev pub bit : Bool → ℕ
bit true = 1
bit false = 0

-- How often a run of statements exchanged a hash for a new one.
unfoldable pub exchanges : String → Rows → List Statement → ℕ
exchanges k rows [] = 0
exchanges k rows (s ∷ run) =
    bit (is_exchange k s (execute rows s).1) + exchanges k (execute rows s).0 run

create_step :
    (k : String) (rows : Rows) (user h : String) (expires_at : ℕ)
    → bit (contains (create rows user h expires_at).0 k) ≤ bit (contains rows k) + bit (str_eq h k)
unfolding create
create_step k rows user h expires_at =
    ground (arith, contains-put_iff rows h k (record { user_id = user; expires_at = expires_at }))

delete_step :
    (k : String) (p : String × RefreshToken → Bool) (rows : Rows)
    → bit (contains (keep_if p rows) k) ≤ bit (contains rows k) + 0
delete_step k p rows = elim (Bool-cases (contains rows k)) [
  | inl y ↦ ground arith
  | inr n ↦ ground (arith, contains-keep_if p rows k n)
]

consumed-contained :
    (rows : Rows) (old user : String) (now : ℕ) (found : Option RefreshToken)
    → get rows old ≡ found
    → is_consumed found user now ≡ true
    → contains rows old ≡ true
consumed-contained rows old user now none e h = absurd (cc)
consumed-contained rows old user now (some t) e h = contains-eq-true rows old t e

rotate_step :
    (k : String) (rows : Rows) (old user new : String) (expires_at now : ℕ)
    → bit (str_eq old k && is_success (rotate rows old user new expires_at now).1)
        + bit (contains (rotate rows old user new expires_at now).0 k)
      ≤ bit (contains rows k) + bit (str_eq new k)
unfolding rotate create
rotate_step k rows old user new expires_at now =
    elim (Bool-cases (is_consumed (get rows old) user now)) [
      | inl y ↦ ground (
        arith,
        eq_iff old k,
        consumed-contained rows old user now (get rows old) refl y,
        contains-remove rows old k,
        contains-put_iff (remove rows old) new k
            (record { user_id = user; expires_at = expires_at }),
      )
      | inr n ↦ rw n (ground arith)
    ]

execute_step :
    (k : String) (rows : Rows) (s : Statement)
    → bit (is_exchange k s (execute rows s).1) + bit (contains (execute rows s).0 k)
      ≤ bit (contains rows k) + bit (is_storing k s)
unfolding execute delete delete_by_user delete_expired_by_user
execute_step k rows (creates user h expires_at) =
    omega (arith, create_step k rows user h expires_at)
execute_step k rows (rotates old user new expires_at now) =
    rotate_step k rows old user new expires_at now
execute_step k rows (deletes h) = ground (arith, contains-remove rows h k)
execute_step k rows (deletes_by_user user) =
    omega (arith, delete_step k (λ r. not (str_eq r.1.user_id user)) rows)
execute_step k rows (deletes_expired user now) =
    omega (arith, delete_step k (λ r. not (str_eq r.1.user_id user && not (is_valid now r.1))) rows)

-- Whatever the requests and however their transactions interleave, a refresh token is exchanged no more
-- often than it was issued: once if it is in the table at the start, plus once for each statement that
-- stores it.
pub exchanges-le :
    (k : String) (rows : Rows) (run : List Statement)
    → exchanges k rows run ≤ bit (contains rows k) + count_if (is_storing k) run
unfolding exchanges
exchanges-le k rows [] = omega arith
exchanges-le k rows (s ∷ run) =
    ground (arith, execute_step k rows s, exchanges-le k (execute rows s).0 run)

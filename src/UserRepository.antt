-- ===== src/UserRepository.antt =====
-- src/server/src/db/UserRepository.cpp: accounts as rows of the table "users". `at` throws where a
-- row lacks the key.
pub mod Accounts
pub mod Passwords
use lan_chat_next.Prelude.{
  ℕ, suc, String, Bool, true, false, not, ◌&&◌, Option, none, some, List, [], ◌∷◌, ℤ, pos, negsuc,
  lt_int, succ_int, to_int32, ◌==◌, string_eq, int_eq, if◌then◌else◌, Exec, Result, ok, err,
  proceed, missing_key, ◌>>=◌, ◌>>◌, pure, skip,
}
use lan_chat_next.Json.{Value, Object, get, put, as_int, as_string, is_number}
use lan_chat_next.Records.{UserInfo}
use lan_chat_next.Env.{Env}
use lan_chat_next.Bcrypt
use lan_chat_next.PasswordHash.{verify_hash}
use lan_chat_next.Database.{Row, Database, query, insert, update, any_row}

abbrev found_or_throw : Option Value → Result Value
found_or_throw none = err missing_key
found_or_throw (some v) = ok v

-- `row.at(key)`
unfoldable pub at : Row → String → Result Value
at row k = found_or_throw (get row k)

-- Goes on with what was read.
abbrev pub with_value : {A : Type 0} → Result Value → (Value → Result A) → Result A
with_value (err c) f = err c
with_value (ok v) f = f v

abbrev pub lift : {S A : Type 0} → Result A → Exec S A
lift r s = (r, s)

abbrev version_or_zero : Option Value → ℤ
version_or_zero none = pos 0
version_or_zero (some v) = if is_number v then to_int32 (as_int v) else pos 0

-- `passwordVersion`
unfoldable pub password_version : Row → ℤ
password_version row = version_or_zero (get row "password_version")

-- `userFromRow`
unfoldable pub user_from_row : Row → Result UserInfo
user_from_row row = with_value (at row "id") λ id. with_value (at row "password_hash") λ password.
    with_value (at row "nickname") λ nickname. with_value (at row "avatar_id") λ avatar.
      ok (record {
        id = to_int32 (as_int id);
        password = as_string password;
        nickname = as_string nickname;
        avatar_id = to_int32 (as_int avatar);
      })

-- The predicates of the queries.
unfoldable pub has_id : ℤ → Row → Result Bool
has_id id row = with_value (at row "id") λ v. ok (as_int v == id)

unfoldable pub has_nickname : String → Row → Result Bool
has_nickname nickname row = with_value (at row "nickname") λ v. ok (as_string v == nickname)

abbrev some_user : Result UserInfo → Result (Option UserInfo)
some_user (err c) = err c
some_user (ok u) = ok (some u)

abbrev pub first_user : List Row → Result (Option UserInfo)
first_user [] = ok none
first_user (row ∷ rows) = some_user (user_from_row row)

-- `findById`
unfoldable pub find_by_id : Env → ℤ → Exec Database (Option UserInfo)
find_by_id env id = query env "users" (has_id id) >>= λ rows. lift (first_user rows)

-- `findByNickname`
unfoldable pub find_by_nickname : Env → String → Exec Database (Option UserInfo)
find_by_nickname env nickname =
    query env "users" (has_nickname nickname) >>= λ rows. lift (first_user rows)

-- The loop of `create`, which finds the next number.
unfoldable pub next_user_id : ℤ → List Row → Result ℤ
next_user_id max_id [] = ok max_id
next_user_id max_id (row ∷ rows) = elim (at row "id") [
  | err c ↦ err c
  | ok v ↦
      next_user_id
        (if lt_int (to_int32 (as_int v)) max_id then max_id else succ_int (to_int32 (as_int v)))
        rows
]

-- The row of a new account.
unfoldable pub user_row : Env → ℤ → String → String → ℤ → Row
user_row env id password nickname avatar_id = put "is_online" (Value.int (pos 0)) (
    put "last_seen_at" (Value.int (pos 0)) (
      put "created_at" (Value.int env.now) (
        put "avatar_id" (Value.int avatar_id) (
          put "nickname" (Value.str nickname) (
            put "password_version" (Value.int (pos 1)) (
              put "password_hash" (Value.str (Bcrypt.hash_password env password 12))
                (put "id" (Value.int id) Object.end)))))))

abbrev pub create_new : Env → String → String → ℤ → Exec Database ℤ
create_new env password nickname avatar_id = do
  rows ← query env "users" any_row
  id ← lift (next_user_id (pos 1000) rows)
  insert env "users" (user_row env id password nickname avatar_id)
  pure id

abbrev pub unless_taken : {S : Type 0} → Option UserInfo → Exec S ℤ → Exec S ℤ
unless_taken (some u) k = pure (negsuc 0)
unless_taken none k = k

-- `create`
unfoldable pub create : Env → String → String → ℤ → Exec Database ℤ
create env password nickname avatar_id = find_by_nickname env nickname >>= λ existing.
    unless_taken existing (create_new env password nickname avatar_id)

-- The updater of the upgrade from a SHA-256 hash to bcrypt.
unfoldable pub upgrade_row : String → Row → Row
upgrade_row upgraded row =
    put "password_version" (Value.int (pos 1)) (put "password_hash" (Value.str upgraded) row)

abbrev verify_stored : Env → ℤ → String → String → ℤ → Exec Database Bool
verify_stored env id password stored version =
    if not (lt_int version (pos 1))
    then pure (Bcrypt.verify_password env password stored)
    else if not (verify_hash password stored)
    then pure false
    else (update env "users" (has_id id) (upgrade_row (Bcrypt.hash_password env password 12))
        >> pure true)

abbrev verify_row : Env → ℤ → String → List Row → Exec Database Bool
verify_row env id password [] = pure false
verify_row env id password (row ∷ rows) = lift (at row "password_hash") >>= λ stored.
    verify_stored env id password (as_string stored) (password_version row)

-- `verifyPassword`
unfoldable pub verify_password : Env → ℤ → String → Exec Database Bool
verify_password env id password =
    query env "users" (has_id id) >>= λ rows. verify_row env id password rows

-- `updateProfile`
unfoldable pub update_profile : Env → ℤ → String → ℤ → Exec Database Bool
update_profile env id nickname avatar_id =
    update env "users" (has_id id)
      (λ row. put "avatar_id" (Value.int avatar_id) (put "nickname" (Value.str nickname) row))

-- The updater of `setOnlineStatus`.
unfoldable pub online_row : Env → Bool → Row → Row
online_row env online row =
    let marked = put "is_online" (Value.int (if online then pos 1 else pos 0)) row in
    if online then put "last_seen_at" (Value.int env.now) marked else marked

-- `setOnlineStatus`
unfoldable pub set_online_status : Env → ℤ → Bool → Exec Database (Unit {0})
set_online_status env id online = update env "users" (has_id id) (online_row env online) >> skip

-- The loop of `getAllUsers`.
unfoldable pub users_of : List Row → Result (List UserInfo)
users_of [] = ok []
users_of (row ∷ rows) =
    let rest = users_of rows in
    elim (user_from_row row) [
      | err c ↦ err c
      | ok u ↦ elim rest [ err c ↦ err c | ok us ↦ ok (u ∷ us) ]
    ]

-- `getAllUsers`
unfoldable pub get_all_users : Env → Exec Database (List UserInfo)
get_all_users env = query env "users" any_row >>= λ rows. lift (users_of rows)

-- ===== src/Database/Schema.antt =====
-- The schema of src/server/src/db/Database.cpp: the version in the table "schema_version", and
-- the migration.
use lan_chat_next.Prelude.{
  ◌||◌, ◌&&◌, ℕ, zero, suc, String, Bool, true, false, Option, none, some, List, [], ◌∷◌, ℤ, pos,
  lt_int, succ_int, to_int32, to_nat, ◌==◌, string_eq, int_eq, if◌then◌else◌, Exec, Result, ok, err,
  missing_key, ◌>>=◌, ◌>>◌, modify, skip, pure,
}
use lan_chat_next.Json.{Value, Object, get, put, as_int}
use lan_chat_next.Env.{Env}
use lan_chat_next.Database.{Row, Database, set_key, query, insert, update, any_row}

-- `tableExists`
abbrev pub exists_at : {A : Type 0} → Option A → Bool
exists_at none = false
exists_at (some a) = true

unfoldable pub table_exists : String → Database → Bool
table_exists name db =
    exists_at (db.disk name) || (name == "friendships" && exists_at db.friendships)

-- `ensureTable`
unfoldable pub ensure_table : String → Database → Database
unfolding table_exists
ensure_table name db =
    if table_exists name db then db else record db { disk = set_key name (some []) db.disk }

-- `createFriendshipsTable`
unfoldable pub create_friendships_table : Database → Database
create_friendships_table db = elim db.friendships [
  | none ↦ record db { friendships = some [] }
  | some rows ↦ db
]

abbrev pub version_in : Option Value → Result ℤ
version_in none = err missing_key
version_in (some v) = ok (to_int32 (as_int v))

abbrev pub version_of : List Row → Result ℤ
version_of [] = ok (pos 0)
version_of (row ∷ rows) = version_in (get row "version")

-- `schemaVersion`
unfoldable pub schema_version : Env → Exec Database ℤ
schema_version env = query env "schema_version" any_row >>= λ rows db. (version_of rows, db)

abbrev pub set_version : Env → ℤ → List Row → Exec Database (Unit {0})
set_version env version [] =
    insert env "schema_version" (put "version" (Value.int version) Object.end)
set_version env version (row ∷ rows) =
    update env "schema_version" any_row (put "version" (Value.int version)) >> skip

-- `setSchemaVersion`
unfoldable pub set_schema_version : Env → ℤ → Exec Database (Unit {0})
set_schema_version env version =
    query env "schema_version" any_row >>= λ rows. set_version env version rows

-- The tables that the step from version 0 creates; its indexes are left out.
unfoldable pub create_tables : Database → Database
unfolding ensure_table create_friendships_table
create_tables db = create_friendships_table (
    ensure_table "group_members"
      (ensure_table "groups" (ensure_table "messages" (ensure_table "users" db))))

-- The loop of `migrate`, for as many rounds as there are versions to go.
unfoldable pub migrate_loop : Env → ℕ → ℤ → ℤ → Exec Database Bool
migrate_loop env zero current target db = (ok true, db)
migrate_loop env (suc fuel) current target db =
    let first_step =
      (modify create_tables
          >> set_schema_version env (pos 1)
          >> migrate_loop env fuel (pos 1) target)
        db in
    let next_step =
      (set_schema_version env (succ_int current) >> migrate_loop env fuel (succ_int current) target)
        db in
    if lt_int current target
    then (if current == pos 0 then first_step else next_step)
    else (ok true, db)

-- `migrate`: from a version that is not negative, `target` rounds are enough.
unfoldable pub migrate : Env → ℤ → Exec Database Bool
migrate env target = schema_version env >>= λ current.
    if lt_int target current
    then pure false
    else migrate_loop env (suc (to_nat target)) current target

-- `open`, where SQLite opens the file.
unfoldable pub open_database : Env → Exec Database Bool
unfolding table_exists ensure_table
open_database env db =
    ((if table_exists "schema_version" db
          then skip
          else (modify (ensure_table "schema_version")
              >> insert env "schema_version" (put "version" (Value.int (pos 0)) Object.end)))
        >> schema_version env
        >> pure true)
      db

-- `close`: the cache is dropped.
unfoldable pub close_database : Database → Database
close_database db = record db { tables = λ name. none }

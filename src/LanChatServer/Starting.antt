-- ===== src/LanChatServer/Starting.antt =====
-- What the constructor of `LanChatServer` leaves, and the server from its start on.
use lan_chat_next.Prelude.{
  ap, ◌||◌, ◌==◌, nat_eq, ℕ, ◌≤◌, ◌≡◌, refl, ◌∙◌, String, true, false, Option-cases, Result-cases,
  List, ℤ, pos, Result, ok, err, inl, inr, arith, eq_iff, string_eq, ltb,
}
use lan_chat_next.Env.{Env}
use lan_chat_next.Database.{Database, query, any_row, load_table, read_disk, filter_rows}
use lan_chat_next.Database.Schema.{
  exists_at, table_exists, ensure_table, schema_version, migrate, migrate_loop, open_database,
}
use lan_chat_next.Database.Friendships.{
  friendships-ensure_table, friendships-migrate, schema_version-Spares,
}
use lan_chat_next.Database.Migration.{
  AtVersion, schema_version_lem, rows_of-ensure_table, rows_of-schema_version, migrate-AtVersion,
}
use lan_chat_next.TcpServer.{Event}
use lan_chat_next.TcpServer.Keeps.Rules.{IsConsistent}
use lan_chat_next.TcpServer.Keeps.Events.{run-IsConsistent}
use lan_chat_next.LanChatServer.{
  user_repository, message_repository, channel_repository, friend_repository, construct,
  initial_server, run_constructed, run_server,
}

initial_server-IsConsistent : (now : ℕ) (db : Database) → IsConsistent (initial_server now db)
unfolding initial_server
initial_server-IsConsistent now db = record {
  linked = record { linked = λ user id e. ground arith; bounded = omega arith };
  older = tt;
  started = omega arith;
}

run_constructed-IsConsistent :
    (env : Env) (events : List (Env × Event)) (r : Result (Unit {0})) (db : Database)
    → IsConsistent (run_constructed env events r db).1
run_constructed-IsConsistent env events (err c) db = initial_server-IsConsistent env.steady_now db
run_constructed-IsConsistent env events (ok u) db =
    run-IsConsistent env events (initial_server env.steady_now db)
      (initial_server-IsConsistent env.steady_now db)

-- From the start of the program on, whatever the file of the database holds and whatever events are
-- reported: each user is mapped to a session of the pool that is signed in as this user, the pool is
-- within its limit, and each session of it is older than the next one, also where a handler throws.
pub run_server-IsConsistent :
    (env : Env) (events : List (Env × Event)) (db : Database)
    → IsConsistent (run_server env events db).1
unfolding run_server
run_server-IsConsistent env events db =
    run_constructed-IsConsistent env events (construct env db).0 (construct env db).1

-- Making a table makes it exist, and takes none away.
ensure_table-exists :
    (name : String) (db : Database) → table_exists name (ensure_table name db) ≡ true
unfolding ensure_table table_exists
ensure_table-exists name db = ground (arith, eq_iff name name)

ensure_table-keeps :
    (name other : String) (db : Database)
    → table_exists other db ≡ true
    → table_exists other (ensure_table name db) ≡ true
unfolding ensure_table table_exists
ensure_table-keeps name other db h = ground (arith, eq_iff name other)

disk-load_table :
    (env : Env) (name : String) (db : Database) → (load_table env name db).1.disk ≡ db.disk
unfolding load_table
disk-load_table env name db = elim (Option-cases (db.tables name)) [
  | inr (rows, e) ↦ rw (e, load_table) refl
  | inl e ↦ elim (Result-cases (read_disk env (db.disk name))) [
    | inl (rows, r) ↦ rw (e, r, load_table) refl
    | inr (c, r) ↦ rw (e, r, load_table) refl
  ]
]

disk-schema_version : (env : Env) (db : Database) → (schema_version env db).1.disk ≡ db.disk
unfolding schema_version query
disk-schema_version env db = elim (Result-cases (load_table env "schema_version" db).0) [
  | inl (rows, e) ↦ elim (Result-cases (filter_rows any_row rows)) [
    | inl (found, f) ↦ rw (e, f) (disk-load_table env "schema_version" db)
    | inr (c, f) ↦ rw (e, f) (disk-load_table env "schema_version" db)
  ]
  | inr (c, e) ↦ rw e (disk-load_table env "schema_version" db)
]

same_version : (v : ℕ) → ltb v v ≡ false
same_version v = ground arith

-- A migration to the version that is there changes no table of the file.
disk-migrate :
    (env : Env) (v : ℕ) (db : Database)
    → AtVersion env (pos v) db
    → (migrate env (pos v) db).1.disk ≡ db.disk
unfolding migrate migrate_loop
disk-migrate env v db at =
    rw (schema_version_lem env (pos v) db at, same_version v, migrate_loop)
      (disk-schema_version env db)

-- The tables of the repositories are made, and the version stays.
abbrev repositories : Database → Database
repositories db = channel_repository (message_repository (user_repository db))

AtVersion-repositories :
    (env : Env) (v : ℤ) (db : Database) → AtVersion env v db → AtVersion env v (repositories db)
unfolding user_repository message_repository channel_repository
AtVersion-repositories env v db at = (at.0, simp (rows_of-ensure_table, at.1), at.2)

abbrev pub HasTables : Database → Type 0
HasTables db =
    (table_exists "users" db ≡ true)
    × (table_exists "messages" db ≡ true)
    × (table_exists "groups" db ≡ true)
    × (table_exists "group_members" db ≡ true)

repositories-HasTables : (db : Database) → HasTables (repositories db)
unfolding user_repository message_repository channel_repository
repositories-HasTables db =
    let users = ensure_table "users" db in
    let messages = ensure_table "messages" users in
    let groups = ensure_table "groups" messages in
    let kept = λ (name : String) (h : table_exists name messages ≡ true).
      ensure_table-keeps "group_members" name groups
        (ensure_table-keeps "groups" name messages h) in
    (
      kept "users" (ensure_table-keeps "messages" "users" users (ensure_table-exists "users" db)),
      kept "messages" (ensure_table-exists "messages" users),
      ensure_table-keeps "group_members" "groups" groups (ensure_table-exists "groups" messages),
      ensure_table-exists "group_members" groups,
    )

HasTables-disk : (db db' : Database) → db'.disk ≡ db.disk → HasTables db → HasTables db'
unfolding table_exists
HasTables-disk db db' e h = rw e h

friendships-repositories : (db : Database) → (repositories db).friendships ≡ db.friendships
unfolding user_repository message_repository channel_repository
friendships-repositories db =
    let users = ensure_table "users" db in
    let messages = ensure_table "messages" users in
    let groups = ensure_table "groups" messages in
    friendships-ensure_table "group_members" groups
    ∙ friendships-ensure_table "groups" messages
    ∙ friendships-ensure_table "messages" users
    ∙ friendships-ensure_table "users" db

-- A file whose version is 0 or 1 is opened without an exception; the version is then 1, and the tables
-- of users, messages, groups and group members exist in the file. The table of the friendships exists
-- then exactly if the version was 0 or the table existed before.
pub construct_lem :
    (env : Env) (v : ℕ) (db : Database)
    → table_exists "schema_version" db ≡ true
    → AtVersion env (pos v) db
    → v ≤ 1
    → ((construct env db).0 ≡ ok tt)
      × AtVersion env (pos 1) (construct env db).1
      × HasTables (construct env db).1
      × (exists_at (construct env db).1.friendships ≡ (v == 0 || exists_at db.friendships))
unfolding construct open_database friend_repository
construct_lem env v db there at le =
    let opened = (schema_version env db).1 in
    let known : AtVersion env (pos v) opened = (at.0, rows_of-schema_version env db ∙ at.1, at.2) in
    let first = migrate-AtVersion env v 1 opened (omega arith) le known in
    let made = repositories (migrate env (pos 1) opened).1 in
    let ready = AtVersion-repositories env (pos 1) (migrate env (pos 1) opened).1 first.1 in
    let second = migrate-AtVersion env 1 1 made (omega arith) (omega arith) ready in
    let same = disk-migrate env 1 made ready in
    let friends =
      friendships-migrate env 1 made ready (omega arith)
      ∙ ap exists_at (friendships-repositories (migrate env (pos 1) opened).1)
      ∙ friendships-migrate env v opened known le
      ∙ ap (λ f. v == 0 || exists_at f) (schema_version-Spares env db) in
    rw (there, schema_version_lem env (pos v) db at, first.0, second.0)
      (
        refl,
        second.1,
        HasTables-disk made (migrate env (pos 1) made).1 same
            (repositories-HasTables (migrate env (pos 1) opened).1),
        friends,
      )

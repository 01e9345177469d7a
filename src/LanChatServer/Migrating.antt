-- ===== src/LanChatServer/Migrating.antt =====
-- The branch of src/server/src/main.cpp that migrates a dump, from the opening of the database on.
use lan_chat_next.Prelude.{
  ℕ, ◌≡◌, ◌∙◌, String, Bool, true, false, some, List, All, Exec, ok, ◌>>=◌, ◌>>◌, modify, skip,
  pure, Result-cases, inl, inr, arith, pos, string_eq, if◌then◌else◌,
}
use lan_chat_next.Json.{Value, Items, Object, put}
use lan_chat_next.Json.Parser.{parse}
use lan_chat_next.Env.{Env, Bytes}
use lan_chat_next.Database.{
  Row, Database, load_table, save_table, cache_table, query, insert, any_row,
}
use lan_chat_next.Database.Rows.{rows_of}
use lan_chat_next.Database.Schema.{table_exists, ensure_table, schema_version, open_database}
use lan_chat_next.UserRepository.Accounts.{IsAccount}
use lan_chat_next.LegacyMigrator.{no_report}
use lan_chat_next.LegacyMigrator.Counts.{Known, Migrates}
use lan_chat_next.LegacyMigrator.Totals.{object_count, ensure_table-Known, migrate_users-Migrates}
use lan_chat_next.LanChatServer.{run_migration}

-- A computation that leaves the rows of the users, whether it throws or not.
abbrev LeavesUsers : {A : Type 0} → Exec Database A → Type 0
LeavesUsers m = (rows : List Row) (db : Database) → Known rows db → Known rows (m db).1

bind-LeavesUsers :
    {A B : Type 0} (m : Exec Database A) (k : A → Exec Database B)
    → LeavesUsers m
    → ((a : A) → LeavesUsers (k a))
    → LeavesUsers (m >>= k)
bind-LeavesUsers m k h g rows db c = elim (Result-cases (m db).0) [
  | inl (a, e) ↦ rw e (g a rows (m db).1 (h rows db c))
  | inr (x, e) ↦ rw e (h rows db c)
]

load_version :
    (env later : Env) (db : Database)
    → rows_of later "users" (load_table env "schema_version" db).1 ≡ rows_of later "users" db
unfolding load_table rows_of
load_version env later db = ground arith

load-LeavesUsers : (env : Env) → LeavesUsers (load_table env "schema_version")
load-LeavesUsers env rows db c later = load_version env later db ∙ c later

save_version :
    (env later : Env) (saved : List Row) (db : Database)
    → rows_of later "users"
        (save_table env "schema_version" saved (cache_table "schema_version" saved db))
      ≡ rows_of later "users" db
unfolding save_table rows_of
save_version env later saved db = ground arith

insert-LeavesUsers : (env : Env) (row : Row) → LeavesUsers (insert env "schema_version" row)
unfolding insert
insert-LeavesUsers env row =
    bind-LeavesUsers (load_table env "schema_version") _ (load-LeavesUsers env)
      λ found rows db c later. save_version env later _ db ∙ c later

schema_version-LeavesUsers : (env : Env) → LeavesUsers (schema_version env)
unfolding schema_version query
schema_version-LeavesUsers env =
    bind-LeavesUsers (query env "schema_version" any_row) _
      (unfold query in
        bind-LeavesUsers (load_table env "schema_version") _ (load-LeavesUsers env)
          λ found rows db c. c)
      λ found rows db c. c

-- The table of the version is made where there is none.
abbrev versioned : Env → Bool → Exec Database (Unit {0})
versioned env there =
    if there
    then skip
    else (modify (ensure_table "schema_version")
        >> insert env "schema_version" (put "version" (Value.int (pos 0)) Object.end))

versioned-LeavesUsers : (env : Env) (there : Bool) → LeavesUsers (versioned env there)
versioned-LeavesUsers env true rows db c = c
versioned-LeavesUsers env false rows db c =
    insert-LeavesUsers env _ rows (ensure_table "schema_version" db)
      (ensure_table-Known "schema_version" rows db c)

open-LeavesUsers : (env : Env) → LeavesUsers (open_database env)
unfolding open_database
open-LeavesUsers env rows db c =
    let there = table_exists "schema_version" db in
    bind-LeavesUsers (versioned env there >> schema_version env) (λ v. pure true)
      (bind-LeavesUsers (versioned env there) (λ u. schema_version env)
        (versioned-LeavesUsers env there) (λ u. schema_version-LeavesUsers env))
      (λ v rows db c. c) rows db c

-- Where the database opens and all rows of its table of users, wherever they stand, are accounts, the
-- migration of a dump that is a JSON array ends without an exception. It adds one account for each user
-- that the report counts as migrated, behind the rows that were there, and all rows are accounts; and
-- each object of the array is counted once, as migrated or as skipped.
pub run_migration-Migrates :
    (env : Env) (envs : ℕ → Env) (path : String) (text : Bytes) (vs : Items) (rows : List Row)
    (db : Database)
    → (open_database env db).0 ≡ ok true
    → parse (envs 0) text ≡ some (Value.arr vs)
    → Known rows db
    → All IsAccount rows
    → Migrates (object_count vs) no_report rows (run_migration env envs path (some text) db)
unfolding run_migration
run_migration-Migrates env envs path text vs rows db opens e c accounts = rw opens (
    migrate_users-Migrates envs path text vs rows (open_database env db).1 e
      (open-LeavesUsers env rows db c) accounts)

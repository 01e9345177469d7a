-- ===== src/Database/Friendships.antt =====
-- The table "friendships" of the file under the operations of src/server/src/db/Database.cpp.
use lan_chat_next.Prelude.{
  ℕ, zero, suc, ◌≤◌, ◌≡◌, refl, ap, ◌∙◌, String, Bool, true, ◌||◌, List, [], ◌∷◌, ℤ, pos, ◌==◌,
  nat_eq, Option-cases, Result-cases, inl, inr, Exec, Result, ◌>>=◌, arith,
}
use lan_chat_next.Env.{Env}
use lan_chat_next.Database.{
  Row, Database, load_table, read_disk, save_table, cache_table, query, insert, update, update_rows,
  any_row,
}
use lan_chat_next.Database.Schema.{
  exists_at, ensure_table, create_friendships_table, schema_version, set_version,
  set_schema_version, create_tables, migrate_loop, migrate,
}
use lan_chat_next.Database.Migration.{AtVersion, schema_version_lem}

-- A computation that leaves the table as it is, whether it throws or not.
abbrev pub Spares : {A : Type 0} → Exec Database A → Type 0
Spares m = (db : Database) → (m db).1.friendships ≡ db.friendships

bind-Spares :
    {A B : Type 0} (m : Exec Database A) (k : A → Exec Database B)
    → Spares m
    → ((a : A) → Spares (k a))
    → Spares (m >>= k)
bind-Spares m k h g db = elim (Result-cases (m db).0) [
  | inl (a, e) ↦ rw e (g a (m db).1 ∙ h db)
  | inr (c, e) ↦ rw e (h db)
]

load_table-Spares : (env : Env) (name : String) → Spares (load_table env name)
unfolding load_table
load_table-Spares env name db = elim (Option-cases (db.tables name)) [
  | inr (rows, e) ↦ rw (e, load_table) refl
  | inl e ↦ elim (Result-cases (read_disk env (db.disk name))) [
    | inl (rows, r) ↦ rw (e, r, load_table) refl
    | inr (c, r) ↦ rw (e, r, load_table) refl
  ]
]

friendships-save_table :
    (env : Env) (name : String) (rows : List Row) (db : Database)
    → (save_table env name rows db).friendships ≡ db.friendships
unfolding save_table
friendships-save_table env name rows db = elim (Option-cases (db.disk name)) [
  | inl e ↦ rw (e, save_table) refl
  | inr (texts, e) ↦ rw (e, save_table) refl
]

query-Spares : (env : Env) (name : String) (p : Row → Result Bool) → Spares (query env name p)
unfolding query
query-Spares env name p =
    bind-Spares (load_table env name) _ (load_table-Spares env name) λ rows db. refl

insert-Spares : (env : Env) (name : String) (row : Row) → Spares (insert env name row)
unfolding insert
insert-Spares env name row =
    bind-Spares (load_table env name) _ (load_table-Spares env name)
      λ rows db. friendships-save_table env name _ (cache_table name _ db)

update-Spares :
    (env : Env) (name : String) (p : Row → Result Bool) (f : Row → Row)
    → Spares (update env name p f)
unfolding update
update-Spares env name p f =
    bind-Spares (load_table env name) _ (load_table-Spares env name) λ rows db.
      elim (Result-cases (update_rows p f rows).1) [
        | inl (ran, e) ↦ rw e (friendships-save_table env name _ (cache_table name _ db))
        | inr (c, e) ↦ rw e refl
      ]

pub schema_version-Spares : (env : Env) → Spares (schema_version env)
unfolding schema_version
schema_version-Spares env =
    bind-Spares (query env "schema_version" any_row) _ (query-Spares env "schema_version" any_row)
      λ rows db. refl

set_version-Spares : (env : Env) (v : ℤ) (rows : List Row) → Spares (set_version env v rows)
set_version-Spares env v [] = insert-Spares env "schema_version" _
set_version-Spares env v (row ∷ rows) =
    bind-Spares (update env "schema_version" any_row _) _
      (update-Spares env "schema_version" any_row _) λ u db. refl

set_schema_version-Spares : (env : Env) (v : ℤ) → Spares (set_schema_version env v)
unfolding set_schema_version
set_schema_version-Spares env v =
    bind-Spares (query env "schema_version" any_row) _ (query-Spares env "schema_version" any_row)
      λ rows. set_version-Spares env v rows

pub friendships-ensure_table :
    (name : String) (db : Database) → (ensure_table name db).friendships ≡ db.friendships
unfolding ensure_table
friendships-ensure_table name db = ground arith

created : (db : Database) → exists_at (create_tables db).friendships ≡ true
unfolding create_tables create_friendships_table
created db =
    elim (Option-cases
      (ensure_table "group_members"
        (ensure_table "groups" (ensure_table "messages" (ensure_table "users" db)))).friendships) [
          | inl e ↦ rw (e, create_friendships_table) refl
          | inr (rows, e) ↦ rw (e, create_friendships_table) (ap exists_at e)
        ]

-- A migration to version 1 makes the table from version 0 on, and at version 1 leaves it.
pub friendships-migrate :
    (env : Env) (v : ℕ) (db : Database)
    → AtVersion env (pos v) db
    → v ≤ 1
    → exists_at (migrate env (pos 1) db).1.friendships ≡ (v == 0 || exists_at db.friendships)
unfolding migrate migrate_loop
friendships-migrate env zero db at le =
    let step =
      bind-Spares (set_schema_version env (pos 1)) (λ u. migrate_loop env 1 (pos 1) (pos 1))
        (set_schema_version-Spares env (pos 1)) (λ u db. refl)
        (create_tables (schema_version env db).1) in
    rw (schema_version_lem env (pos 0) db at, migrate_loop)
      (ap exists_at step ∙ created (schema_version env db).1)
friendships-migrate env (suc zero) db at le =
    rw (schema_version_lem env (pos 1) db at, migrate_loop)
      (ap exists_at (schema_version-Spares env db))
friendships-migrate env (suc (suc v)) db at le = absurd (omega arith)

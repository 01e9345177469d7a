-- ===== src/Database/Migration.antt =====
-- What `migrate` of src/server/src/db/Database.cpp makes of the version of the schema.
use lan_chat_next.Prelude.{
  ℕ, zero, suc, ◌-◌, ◌≤◌, ◌<◌, ◌^◌, ◌≡◌, subst, refl, ◌∙◌, true, false, List, [], ◌∷◌, map, ℤ, pos,
  lt_int, succ_int, String, string_eq, int_eq, int_beq, eq_iff, if◌then◌else◌, ok, arith,
  Bool-cases, inl, inr, ltb, keep, Option-cases, Result-cases, not,
}
use lan_chat_next.Json.{Value, Object, put}
use lan_chat_next.Json.Fields.{object_laws}
use lan_chat_next.Env.{Env}
use lan_chat_next.RowFields.{to_int32_lem, IsInt}
use lan_chat_next.Database.{Row, Database, query, any_row, read_disk, parse_rows}
use lan_chat_next.Database.Rows.{
  rows_of, query_lem, rows_of-query, insert_lem, update_lem, Writes-rows_of,
}
use lan_chat_next.Database.Schema.{
  ensure_table, create_friendships_table, version_of, schema_version, set_version,
  set_schema_version, create_tables, migrate_loop, migrate,
}

-- The table with the version is in order: it says `v`.
abbrev pub AtVersion : Env → ℤ → Database → Type 0
AtVersion env v db =
    (rows : List Row) × (rows_of env "schema_version" db ≡ ok rows) × (version_of rows ≡ ok v)

-- A table that is made is empty, as it was.
pub rows_of-ensure_table :
    (env : Env) (name other : String) (db : Database)
    → rows_of env other (ensure_table name db) ≡ rows_of env other db
unfolding rows_of ensure_table read_disk parse_rows
rows_of-ensure_table env name other db = ground (arith, eq_iff name other)

rows_of-friendships :
    (env : Env) (other : String) (db : Database)
    → rows_of env other (create_friendships_table db) ≡ rows_of env other db
unfolding rows_of create_friendships_table
rows_of-friendships env other db = elim (Option-cases db.friendships) [
  | inl e ↦ rw (e, create_friendships_table) refl
  | inr (rows, e) ↦ rw (e, create_friendships_table) refl
]

keep_all : (rows : List Row) → keep (λ row. true) rows ≡ rows
keep_all [] = refl
keep_all (row ∷ rows) = rw (keep_all rows)

pub schema_version_lem :
    (env : Env) (v : ℤ) (db : Database) → AtVersion env v db → (schema_version env db).0 ≡ ok v
unfolding schema_version
schema_version_lem env v db h =
    rw (query_lem env "schema_version" (λ row. true) db h.1, keep_all h.0) h.2

version_of-put :
    (v : ℤ) (row : Row) (rows : List Row)
    → IsInt v
    → version_of (put "version" (Value.int v) row ∷ rows) ≡ ok v
version_of-put v row rows h = simp (object_laws, to_int32_lem v h)

set_version_lem :
    (env : Env) (v : ℕ) (rows : List Row) (db : Database)
    → v < 2 ^ 31
    → rows_of env "schema_version" db ≡ ok rows
    → ((set_version env (pos v) rows db).0 ≡ ok tt)
      × AtVersion env (pos v) (set_version env (pos v) rows db).1
set_version_lem env v [] db h k =
    let done =
      insert_lem env "schema_version" (put "version" (Value.int (pos v)) Object.end) db k in
    (
      done.0,
      (
        put "version" (Value.int (pos v)) Object.end ∷ [],
        Writes-rows_of env "schema_version" _ db _ done.1,
        version_of-put (pos v) Object.end [] h,
      ),
    )
set_version_lem env v (row ∷ rows) db h k =
    let done =
      update_lem env "schema_version" (λ r. true) (put "version" (Value.int (pos v))) db k in
    rw done.0 (
      refl,
      (
        map (put "version" (Value.int (pos v))) (row ∷ rows),
        Writes-rows_of env "schema_version" _ db _ done.1,
        version_of-put (pos v) row (map (put "version" (Value.int (pos v))) rows) h,
      ),
    )

set_schema_version_lem :
    (env : Env) (v : ℕ) (w : ℤ) (db : Database)
    → v < 2 ^ 31
    → AtVersion env w db
    → ((set_schema_version env (pos v) db).0 ≡ ok tt)
      × AtVersion env (pos v) (set_schema_version env (pos v) db).1
unfolding set_schema_version
set_schema_version_lem env v w db h at =
    rw (query_lem env "schema_version" (λ row. true) db at.1, keep_all at.0)
      (set_version_lem env v at.0 (query env "schema_version" any_row db).1 h
        (rows_of-query env "schema_version" "schema_version" any_row db ∙ at.1))

rows_of-create_tables :
    (env : Env) (other : String) (db : Database)
    → rows_of env other (create_tables db) ≡ rows_of env other db
unfolding create_tables
rows_of-create_tables env other db = simp (rows_of-friendships, rows_of-ensure_table)

reached : (c t : ℕ) → c ≤ t → lt_int (pos c) (pos t) ≡ false → c ≡ t
reached c t h e = ground arith

below : (c t : ℕ) → lt_int (pos c) (pos t) ≡ true → 1 ≤ t
below c t e = ground arith

one_more : (c t : ℕ) → lt_int (pos c) (pos t) ≡ true → suc c ≤ t
one_more c t e = ground arith

below_bound : (c t : ℕ) → lt_int (pos c) (pos t) ≡ true → t < 2 ^ 31 → suc c < 2 ^ 31
below_bound c t e h = ground arith

left_over :
    (c t fuel : ℕ)
    → int_beq (pos c) (pos 0) ≡ true
    → lt_int (pos c) (pos t) ≡ true
    → t - c < suc fuel
    → t - 1 < fuel
left_over c t fuel z e h = ground arith

-- The loop, from a version on that is not above the target.
migrate_loop_lem :
    (env : Env) (fuel current target : ℕ) (db : Database)
    → target < 2 ^ 31
    → current ≤ target
    → target - current < fuel
    → AtVersion env (pos current) db
    → ((migrate_loop env fuel (pos current) (pos target) db).0 ≡ ok true)
      × AtVersion env (pos target) (migrate_loop env fuel (pos current) (pos target) db).1
unfolding migrate_loop succ_int
migrate_loop_lem env zero current target db small le enough at = absurd (omega arith)
migrate_loop_lem env (suc fuel) current target db small le enough at =
    elim (Bool-cases (lt_int (pos current) (pos target))) [
      | inr e ↦
          rw (e, migrate_loop)
            (refl, subst (λ v. AtVersion env (pos v) db) (reached current target le e) at)
      | inl e ↦ elim (Bool-cases (int_beq (pos current) (pos 0))) [
        | inl z ↦
            rw (e, z, migrate_loop)
              (let made : AtVersion env (pos current) (create_tables db) =
                  (at.0, rows_of-create_tables env "schema_version" db ∙ at.1, at.2) in
                let set =
                  set_schema_version_lem env 1 (pos current) (create_tables db) (omega arith)
                    made in
                rw set.0 (
                  migrate_loop_lem env fuel 1 target
                    (set_schema_version env (pos 1) (create_tables db)).1 small
                    (below current target e) (left_over current target fuel z e enough) set.1))
        | inr z ↦
            rw (e, z, migrate_loop)
              (let set =
                  set_schema_version_lem env (suc current) (pos current) db
                    (below_bound current target e small) at in
                rw set.0 (
                  migrate_loop_lem env fuel (suc current) target
                    (set_schema_version env (pos (suc current)) db).1 small
                    (one_more current target e) (omega (arith, one_more current target e)) set.1))
      ]
    ]

pub rows_of-schema_version :
    (env : Env) (db : Database)
    → rows_of env "schema_version" (schema_version env db).1 ≡ rows_of env "schema_version" db
unfolding schema_version
rows_of-schema_version env db = elim (Result-cases (query env "schema_version" any_row db).0) [
  | inl (rows, e) ↦ rw e (rows_of-query env "schema_version" "schema_version" any_row db)
  | inr (c, e) ↦ rw e (rows_of-query env "schema_version" "schema_version" any_row db)
]

not_below : (c t : ℕ) → c ≤ t → ltb t c ≡ false
not_below c t h = ground arith

not_above : (c t : ℕ) → ltb t c ≡ false → c ≤ t
not_above c t e = ground arith

-- A migration to the version that is there, or to a higher one.
pub migrate-AtVersion :
    (env : Env) (current target : ℕ) (db : Database)
    → target < 2 ^ 31
    → current ≤ target
    → AtVersion env (pos current) db
    → ((migrate env (pos target) db).0 ≡ ok true)
      × AtVersion env (pos target) (migrate env (pos target) db).1
unfolding migrate
migrate-AtVersion env current target db small le at =
    rw (schema_version_lem env (pos current) db at, not_below current target le)
      (migrate_loop_lem env (suc target) current target (schema_version env db).1 small le
        (omega arith) (at.0, rows_of-schema_version env db ∙ at.1, at.2))

-- Where the table of the version says a number, `migrate` to that number or a higher one succeeds and
-- the version is then the target; to a lower one it fails and the version stays.
pub migrate-schema_version :
    (env : Env) (current target : ℕ) (db : Database)
    → target < 2 ^ 31
    → AtVersion env (pos current) db
    → ((migrate env (pos target) db).0 ≡ ok (not (ltb target current)))
      × ((schema_version env (migrate env (pos target) db).1).0
          ≡ ok (pos (if ltb target current then current else target)))
unfolding migrate
migrate-schema_version env current target db small at = elim (Bool-cases (ltb target current)) [
  | inl e ↦
      rw (schema_version_lem env (pos current) db at, e)
        (
          refl,
          schema_version_lem env (pos current) _ (at.0, rows_of-schema_version env db ∙ at.1, at.2),
        )
  | inr e ↦
      let done = migrate-AtVersion env current target db small (not_above current target e) at in
      rw e (
        unfold migrate in done.0,
        schema_version_lem env (pos target) (migrate env (pos target) db).1 done.1,
      )
]

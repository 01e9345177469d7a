-- ===== src/LegacyMigrator/Counts.antt =====
-- What the report of `migrateUsers` counts, and what becomes of the table "users", where all its rows
-- are accounts.
use lan_chat_next.Prelude.{
  ℕ, suc, ◌+◌, ◌≡◌, refl, ap, String, Bool, true, false, none, some, List, [], ◌∷◌, ◌++◌, length, ℤ,
  pos, lt_int, any, All, keep, ok, ◌>>=◌, Result, Bool-cases, Option-cases, negsuc, inl, inr, arith,
  string_eq,
}
use mathlib.Core.List.{append-nil}
use lan_chat_next.Json.{Value}
use lan_chat_next.Json.Fields.{object_laws}
use lan_chat_next.Records.{UserInfo}
use lan_chat_next.Env.{Env}
use lan_chat_next.Bcrypt
use lan_chat_next.Database.{
  Row, Database, query, insert, any_row, load_table, save_table, cache_table,
}
use lan_chat_next.Database.Rows.{rows_of, query_total, load_table_lem}
use lan_chat_next.UserRepository.{has_nickname, find_by_nickname, user_row, create}
use lan_chat_next.UserRepository.Accounts.{
  IsAccount, has_name, nicknames_known, first_user-none, first_user-some, is_nil-keep, rows_taken,
  keep_all, next_user_id_lem, keep-accounts,
}
use lan_chat_next.LegacyMigrator.{Report, skipped, migrated, migrate_found}

-- The table has these rows, in the cache or in the file, whatever the parser makes of doubles.
abbrev pub Known : List Row → Database → Type 0
Known rows db = (env : Env) → rows_of env "users" db ≡ ok rows

load_table-Known :
    (env : Env) (rows : List Row) (db : Database)
    → Known rows db
    → Known rows (load_table env "users" db).1
unfolding load_table rows_of
load_table-Known env rows db c later = ground (arith, c env, c later)

query-Known :
    (env : Env) (p : Row → Result Bool) (rows : List Row) (db : Database)
    → Known rows db
    → Known rows (query env "users" p db).1
unfolding query
query-Known env p rows db c =
    rw (load_table_lem env "users" db (c env)) (load_table-Known env rows db c)

tables-save_table :
    (env : Env) (name : String) (rows : List Row) (db : Database)
    → (save_table env name rows db).tables ≡ db.tables
unfolding save_table
tables-save_table env name rows db = elim (Option-cases (db.disk name)) [
  | inl e ↦ rw (e, save_table) refl
  | inr (texts, e) ↦ rw (e, save_table) refl
]

saved-Known :
    (env : Env) (rows : List Row) (db : Database)
    → Known rows (save_table env "users" rows (cache_table "users" rows db))
unfolding rows_of
saved-Known env rows db later =
    let cached =
      ap (λ t. t "users") (tables-save_table env "users" rows (cache_table "users" rows db)) in
    rw cached refl

insert-Known :
    (env : Env) (row : Row) (rows : List Row) (db : Database)
    → Known rows db
    → ((insert env "users" row db).0 ≡ ok tt)
      × Known (rows ++ row ∷ []) (insert env "users" row db).1
unfolding insert
insert-Known env row rows db c =
    rw (load_table_lem env "users" db (c env))
      (refl, saved-Known env (rows ++ row ∷ []) (load_table env "users" db).1)

user_row-IsAccount :
    (env : Env) (id : ℤ) (password nickname : String) (avatar : ℤ)
    → IsAccount (user_row env id password nickname avatar)
unfolding user_row
user_row-IsAccount env id password nickname avatar = record {
  id = Value.int id;
  password = Value.str (Bcrypt.hash_password env password 12);
  nickname = Value.str nickname;
  avatar = Value.int avatar;
  has_id = simp object_laws;
  has_password = simp object_laws;
  has_name = simp object_laws;
  has_avatar = simp object_laws;
}

above_zero : (i : ℤ) → lt_int i (pos 1000) ≡ false → lt_int i (pos 0) ≡ false
above_zero (pos n) h = ground arith
above_zero (negsuc n) h = cc

-- `create` with a nickname that is free adds an account with it, under a number above zero.
create_free-Known :
    (env : Env) (password nickname : String) (avatar : ℤ) (rows : List Row) (db : Database)
    → Known rows db
    → All IsAccount rows
    → any (has_name nickname) rows ≡ false
    → (id : ℤ) × ((create env password nickname avatar db).0 ≡ ok id)
      × (lt_int id (pos 0) ≡ false)
      × Known
          (rows ++ user_row env id password nickname avatar ∷ [])
          (create env password nickname avatar db).1
unfolding create find_by_nickname
create_free-Known env password nickname avatar rows db c accounts free =
    let next = next_user_id_lem rows (pos 1000) accounts in
    let seen = (query env "users" (has_nickname nickname) db).1 in
    let c' = query-Known env (has_nickname nickname) rows db c in
    let counted = (query env "users" any_row seen).1 in
    let done =
      insert-Known env (user_row env next.0 password nickname avatar) rows counted
        (query-Known env any_row rows seen c') in
    rw
      (
        query_total env "users" (has_nickname nickname) (has_name nickname) db (c env)
            (nicknames_known nickname rows accounts),
        first_user-none (keep (has_name nickname) rows)
            (is_nil-keep (has_name nickname) rows false free),
        query_total env "users" any_row (λ row. true) seen (c' env) (rows_taken rows),
        keep_all rows,
        next.1,
        done.0,
      )
      (next.0, refl, above_zero next.0 next.2, done.1)

find_taken :
    (env : Env) (nickname : String) (rows : List Row) (db : Database)
    → Known rows db
    → All IsAccount rows
    → any (has_name nickname) rows ≡ true
    → (u : UserInfo) × ((find_by_nickname env nickname db).0 ≡ ok (some u))
unfolding find_by_nickname
find_taken env nickname rows db c accounts taken =
    let found =
      first_user-some (keep (has_name nickname) rows)
        (keep-accounts (has_name nickname) rows accounts)
        (is_nil-keep (has_name nickname) rows true taken) in
    rw
      (
        query_total env "users" (has_nickname nickname) (has_name nickname) db (c env)
            (nicknames_known nickname rows accounts),
        found.1,
      )
      (found.0, refl)

find_free :
    (env : Env) (nickname : String) (rows : List Row) (db : Database)
    → Known rows db
    → All IsAccount rows
    → any (has_name nickname) rows ≡ false
    → (find_by_nickname env nickname db).0 ≡ ok none
unfolding find_by_nickname
find_free env nickname rows db c accounts free =
    rw
      (
        query_total env "users" (has_nickname nickname) (has_name nickname) db (c env)
            (nicknames_known nickname rows accounts),
        first_user-none (keep (has_name nickname) rows)
            (is_nil-keep (has_name nickname) rows false free),
      )
      refl

-- Looking a name up leaves the rows.
find-Known :
    (env : Env) (nickname : String) (rows : List Row) (db : Database)
    → Known rows db
    → All IsAccount rows
    → Known rows (find_by_nickname env nickname db).1
unfolding find_by_nickname
find-Known env nickname rows db c accounts =
    rw
      (query_total env "users" (has_nickname nickname) (has_name nickname) db (c env)
        (nicknames_known nickname rows accounts))
      (query-Known env (has_nickname nickname) rows db c)

-- How the migration of `n` objects goes on from a report and the rows of the table: it ends without an
-- exception; the report counts one more migrated for each account that is added behind the rows, and
-- each object is either migrated or skipped; and all rows are accounts.
abbrev pub Migrates : ℕ → Report → List Row → Result Report × Database → Type 0
Migrates n report rows r =
    (next : Report) × (added : List Row) × (r.0 ≡ ok next)
    × Known (rows ++ added) r.1
    × All IsAccount (rows ++ added)
    × (next.users_migrated ≡ report.users_migrated + length added)
    × (next.users_migrated + next.users_skipped ≡ report.users_migrated + report.users_skipped + n)

pub skips :
    (report next : Report) (rows : List Row) (db : Database)
    → Known rows db
    → All IsAccount rows
    → next.users_migrated ≡ report.users_migrated
    → next.users_skipped ≡ suc report.users_skipped
    → Migrates 1 report rows (ok next, db)
skips report next rows db c accounts p q = (
  next,
  [],
  refl,
  rw (append-nil rows) c,
  rw (append-nil rows) accounts,
  omega arith,
  omega arith,
)

All-append_one :
    (rows : List Row) (row : Row)
    → All IsAccount rows
    → IsAccount row
    → All IsAccount (rows ++ row ∷ [])
All-append_one [] row h a = (a, tt)
All-append_one (r ∷ rows) row h a = (h.0, All-append_one rows row h.1 a)

pub found-Migrates :
    (env : Env) (password nickname : String) (avatar : ℤ) (report : Report) (rows : List Row)
    (db : Database)
    → Known rows db
    → All IsAccount rows
    → Migrates 1 report rows (
        (find_by_nickname env nickname >>= λ existing.
        migrate_found env password nickname avatar existing report)
          db)
found-Migrates env password nickname avatar report rows db c accounts =
    let seen = (find_by_nickname env nickname db).1 in
    let c' = find-Known env nickname rows db c accounts in
    elim (Bool-cases (any (has_name nickname) rows)) [
      | inl taken ↦
          let found = find_taken env nickname rows db c accounts taken in
          rw found.1 (skips report (skipped report) rows seen c' accounts refl refl)
      | inr free ↦
          let made = create_free-Known env password nickname avatar rows seen c' accounts free in
          rw (find_free env nickname rows db c accounts free, made.1, made.2)
            (
              migrated report,
              user_row env made.0 password nickname avatar ∷ [],
              refl,
              made.3,
              All-append_one rows (user_row env made.0 password nickname avatar) accounts
                  (user_row-IsAccount env made.0 password nickname avatar),
              omega arith,
              omega arith,
            )
    ]

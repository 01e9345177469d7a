-- ===== src/Database/Rows.antt =====
-- The abstract view of the database: the rows of each table, wherever they stand. The operations
-- of src/server/src/db/Database.cpp are seen on these rows.
use lan_chat_next.Prelude.{
  All, String, ◌≡◌, refl, ap, ◌∙◌, Bool, not, Option, none, some, List, [], ◌∷◌, ◌++◌, map, is_nil,
  keep, any, eq_iff, ◌==◌, string_eq, if◌then◌else◌, Result, ok, arith, Bool-cases, Result-cases,
  inl, inr,
}
use lan_chat_next.Env.{Env, Bytes}
use lan_chat_next.Database.{
  Row, Database, read_disk, load_table, save_table, cache_table, filter_rows, query, where_row,
  insert, update_rows, update, remove,
}

abbrev rows_at : Env → Option (List Row) → Option (List Bytes) → Result (List Row)
rows_at env (some rows) texts = ok rows
rows_at env none texts = read_disk env texts

-- The rows of a table, as the next `loadTable` would find them.
unfoldable pub rows_of : Env → String → Database → Result (List Row)
rows_of env name db = rows_at env (db.tables name) (db.disk name)

pub load_table_lem :
    (env : Env) (name : String) (db : Database) {rows : List Row}
    → rows_of env name db ≡ ok rows
    → (load_table env name db).0 ≡ ok rows
unfolding load_table rows_of
load_table_lem env name db have = ground arith

-- Loading a table changes the rows of none.
rows_of-load_table :
    (env : Env) (name other : String) (db : Database)
    → rows_of env other (load_table env name db).1 ≡ rows_of env other db
unfolding load_table rows_of
rows_of-load_table env name other db = ground (arith, eq_iff name other)

-- Writing rows to the cache and to the file changes those of their table only.
rows_of-save_table :
    (env : Env) (name other : String) (rows : List Row) (db : Database)
    → rows_of env other (save_table env name rows (cache_table name rows db))
      ≡ (if name == other then ok rows else rows_of env other db)
unfolding save_table rows_of
rows_of-save_table env name other rows db = ground (arith, eq_iff name other)

filter_rows_lem :
    (p : Row → Bool) (rows : List Row) → filter_rows (where_row p) rows ≡ ok (keep p rows)
unfolding filter_rows
filter_rows_lem p [] = refl
filter_rows_lem p (row ∷ rows) = rw (filter_rows_lem p rows, filter_rows)

update_rows_lem :
    (p : Row → Bool) (f : Row → Row) (rows : List Row)
    → update_rows (where_row p) f rows
      ≡ (map (λ row. if p row then f row else row) rows, ok (any p rows))
unfolding update_rows
update_rows_lem p f [] = refl
update_rows_lem p f (row ∷ rows) = elim (Bool-cases (p row)) [
  | inl e ↦ rw (e, update_rows_lem p f rows, update_rows)
  | inr e ↦ rw (e, update_rows_lem p f rows, update_rows)
]

pub any-is_nil : (p : Row → Bool) (rows : List Row) → not (is_nil (keep p rows)) ≡ any p rows
any-is_nil p [] = refl
any-is_nil p (row ∷ rows) = ground (arith, any-is_nil p rows)

-- A query with a predicate that does not throw yields the rows that pass, in their order.
pub query_lem :
    (env : Env) (name : String) (p : Row → Bool) (db : Database) {rows : List Row}
    → rows_of env name db ≡ ok rows
    → (query env name (where_row p) db).0 ≡ ok (keep p rows)
unfolding query
query_lem env name p db {rows} have = rw (load_table_lem env name db have) (filter_rows_lem p rows)

-- A query changes the rows of no table, also where it throws.
pub rows_of-query :
    (env : Env) (name other : String) (p : Row → Result Bool) (db : Database)
    → rows_of env other (query env name p db).1 ≡ rows_of env other db
unfolding query
rows_of-query env name other p db = elim (Result-cases (load_table env name db).0) [
  | inl (rows, e) ↦ rw e (rows_of-load_table env name other db)
  | inr (c, e) ↦ rw e (rows_of-load_table env name other db)
]

-- What a write of `rows` to a table leaves: these rows there, and all other tables as they were.
abbrev pub Writes : Env → String → List Row → Database → Database → Type 0
Writes env name rows db db' =
    (other : String)
    → rows_of env other db' ≡ (if name == other then ok rows else rows_of env other db)

written_lem :
    (env : Env) (name : String) (rows : List Row) (db : Database)
    → Writes env name rows db
        (save_table env name rows (cache_table name rows (load_table env name db).1))
written_lem env name rows db other =
    rows_of-save_table env name other rows (load_table env name db).1
    ∙ ap (λ r. if name == other then ok rows else r) (rows_of-load_table env name other db)

-- An insert puts the row behind those of the table.
pub insert_lem :
    (env : Env) (name : String) (row : Row) (db : Database) {rows : List Row}
    → rows_of env name db ≡ ok rows
    → ((insert env name row db).0 ≡ ok tt)
      × Writes env name (rows ++ row ∷ []) db (insert env name row db).1
unfolding insert
insert_lem env name row db {rows} have =
    rw (load_table_lem env name db have) (refl, written_lem env name (rows ++ row ∷ []) db)

-- An update applies the updater to the rows that pass, leaves the others, and tells whether there
-- was one.
pub update_lem :
    (env : Env) (name : String) (p : Row → Bool) (f : Row → Row) (db : Database) {rows : List Row}
    → rows_of env name db ≡ ok rows
    → ((update env name (where_row p) f db).0 ≡ ok (any p rows))
      × Writes env name
          (map (λ row. if p row then f row else row) rows)
          db
          (update env name (where_row p) f db).1
unfolding update
update_lem env name p f db {rows} have =
    rw (load_table_lem env name db have, update_rows_lem p f rows)
      (refl, written_lem env name (map (λ row. if p row then f row else row) rows) db)

-- A removal leaves the rows that do not pass, in their order, and tells whether one passed.
pub remove_lem :
    (env : Env) (name : String) (p : Row → Bool) (db : Database) {rows : List Row}
    → rows_of env name db ≡ ok rows
    → ((remove env name p db).0 ≡ ok (any p rows))
      × Writes env name (keep (λ row. not (p row)) rows) db (remove env name p db).1
unfolding remove
remove_lem env name p db {rows} have =
    rw (load_table_lem env name db have)
      (ap ok (any-is_nil p rows), written_lem env name (keep (λ row. not (p row)) rows) db)

-- What was written is read.
pub Writes-rows_of :
    (env : Env) (name : String) (rows : List Row) (db db' : Database)
    → Writes env name rows db db'
    → rows_of env name db' ≡ ok rows
Writes-rows_of env name rows db db' w = ground (arith, w name, eq_iff name name)

filter_rows_total :
    (p : Row → Result Bool) (q : Row → Bool) (rows : List Row)
    → All (λ row. p row ≡ ok (q row)) rows
    → filter_rows p rows ≡ ok (keep q rows)
unfolding filter_rows
filter_rows_total p q [] h = refl
filter_rows_total p q (row ∷ rows) h = rw (h.0, filter_rows_total p q rows h.1, filter_rows)

-- A query whose predicate throws for no row of the table yields the rows that pass.
pub query_total :
    (env : Env) (name : String) (p : Row → Result Bool) (q : Row → Bool) (db : Database)
    {rows : List Row}
    → rows_of env name db ≡ ok rows
    → All (λ row. p row ≡ ok (q row)) rows
    → (query env name p db).0 ≡ ok (keep q rows)
unfolding query
query_total env name p q db {rows} have h =
    rw (load_table_lem env name db have) (filter_rows_total p q rows h)

update_rows_total :
    (p : Row → Result Bool) (q : Row → Bool) (f : Row → Row) (rows : List Row)
    → All (λ row. p row ≡ ok (q row)) rows
    → update_rows p f rows ≡ update_rows (where_row q) f rows
unfolding update_rows
update_rows_total p q f [] h = refl
update_rows_total p q f (row ∷ rows) h = elim (Bool-cases (q row)) [
  | inl e ↦ rw (h.0, e, update_rows_total p q f rows h.1, update_rows) refl
  | inr e ↦ rw (h.0, e, update_rows_total p q f rows h.1, update_rows) refl
]

-- An update whose predicate throws for no row of the table is that with the Boolean test.
pub update_total :
    (env : Env) (name : String) (p : Row → Result Bool) (q : Row → Bool) (f : Row → Row)
    (db : Database) {rows : List Row}
    → rows_of env name db ≡ ok rows
    → All (λ row. p row ≡ ok (q row)) rows
    → update env name p f db ≡ update env name (where_row q) f db
unfolding update
update_total env name p q f db {rows} have h =
    rw (load_table_lem env name db have, update_rows_total p q f rows h) refl

-- ===== src/Database.antt =====
-- src/server/src/db/Database.cpp: tables of JSON objects, cached in memory and saved whole to
-- SQLite. The statements that the source sends to SQLite are executed as their SQL says, on the
-- texts of each table: `none` is a table that does not exist, on which they fail. The indexes
-- change no result and are left out, and the recursive mutex, since one thread uses the database.
pub mod Schema
pub mod Migration
pub mod Friendships
pub mod Rows
pub mod Reopen
use lan_chat_next.Prelude.{
  ℕ, zero, suc, String, Bool, true, false, not, Option, none, some, List, [], ◌∷◌, ◌++◌, map, ℤ,
  pos, is_nil, keep, ◌==◌, string_eq, if◌then◌else◌, Exec, Result, ok, err, proceed, malformed_json,
  ◌>>=◌, ◌>>◌, modify, skip, pure,
}
use lan_chat_next.Json.{Value, Object}
use lan_chat_next.Env.{Env, Bytes}
use lan_chat_next.Bcrypt.{until_nul}
use lan_chat_next.Json.Printer.{serialize}
use lan_chat_next.Json.Parser.{parse}

abbrev pub Row : Type 0
Row = Object

-- A row of the table `friendships`; its key `id` is never read.
pub record Friendship : Type 0 where
  pub from_uid : ℤ
  pub to_uid : ℤ
  pub status : String
  pub request_msg : String
  pub created_at : ℤ
  pub updated_at : ℤ

pub record Database : Type 0 where
  -- `tables_`
  pub tables : String → Option (List Row)
  -- the tables of the file that hold one text in each row
  pub disk : String → Option (List Bytes)
  -- the table `friendships` of the file
  pub friendships : Option (List Friendship)

-- m[k] = v, for a map that is never walked
abbrev pub set_key : {V : Type 0} → String → V → (String → V) → String → V
set_key k v m j = if k == j then v else m j

abbrev push_object : Value → List Row → List Row
push_object (Value.obj row) rows = row ∷ rows
push_object v rows = rows

-- The loop of `loadTable` over the texts of a table, which are read as C strings: empty ones and those
-- that hold no object are passed over, and one that the parser refuses throws.
unfoldable pub parse_rows : Env → List Bytes → Result (List Row)
unfolding until_nul
parse_rows env [] = ok []
parse_rows env (text ∷ texts) =
    let rest = parse_rows env texts in
    let shown = until_nul text in
    if is_nil shown then rest else elim (parse env shown) [
      | none ↦ err malformed_json
      | some v ↦ elim rest [ err c ↦ err c | ok rows ↦ ok (push_object v rows) ]
    ]

-- What `loadTable` finds for a table that is not cached.
unfoldable pub read_disk : Env → Option (List Bytes) → Result (List Row)
read_disk env none = ok []
read_disk env (some texts) = parse_rows env texts

-- `loadTable`, and the rows of the table that it leaves in the cache.
unfoldable pub load_table : Env → String → Exec Database (List Row)
load_table env name db = elim (db.tables name) [
  | some rows ↦ (ok rows, db)
  | none ↦ elim (read_disk env (db.disk name)) [
    | err c ↦ (err c, db)
    | ok rows ↦ (ok rows, record db { tables = set_key name (some rows) db.tables })
  ]
]

-- `saveTable` with the rows that are cached: the texts of the table are replaced.
unfoldable pub save_table : Env → String → List Row → Database → Database
save_table env name rows db = elim (db.disk name) [
  | none ↦ db
  | some texts ↦ record db {
    disk = set_key name (some (map (λ row. serialize env (Value.obj row)) rows)) db.disk;
  }
]

-- tables_[name] = rows
abbrev pub cache_table : String → List Row → Database → Database
cache_table name rows db = record db { tables = set_key name (some rows) db.tables }

-- The loop of `query`; a predicate may throw.
unfoldable pub filter_rows : (Row → Result Bool) → List Row → Result (List Row)
filter_rows p [] = ok []
filter_rows p (row ∷ rows) =
    let rest = filter_rows p rows in
    elim (p row) [
      | err c ↦ err c
      | ok passes ↦ elim rest [
        | err c ↦ err c
        | ok found ↦ ok (if passes then row ∷ found else found)
      ]
    ]

-- `query`
unfoldable pub query : Env → String → (Row → Result Bool) → Exec Database (List Row)
query env name p = load_table env name >>= λ rows db. (filter_rows p rows, db)

-- A predicate that does not throw, and the missing one.
abbrev pub where_row : (Row → Bool) → Row → Result Bool
where_row p row = ok (p row)

abbrev pub any_row : Row → Result Bool
any_row row = ok true

-- `insert`
unfoldable pub insert : Env → String → Row → Exec Database (Unit {0})
insert env name row = load_table env name >>= λ rows.
    modify λ db. save_table env name (rows ++ row ∷ []) (cache_table name (rows ++ row ∷ []) db)

-- The loop of `update`: the rows as it leaves them, and whether the updater has run. Where the
-- predicate throws, the rows before are updated and those behind are not.
unfoldable pub update_rows : (Row → Result Bool) → (Row → Row) → List Row → List Row × Result Bool
update_rows p f [] = ([], ok false)
update_rows p f (row ∷ rows) =
    let rest = update_rows p f rows in
    elim (p row) [
      | err c ↦ (row ∷ rows, err c)
      | ok false ↦ (row ∷ rest.0, rest.1)
      | ok true ↦ (f row ∷ rest.0, elim rest.1 [ err c ↦ err c | ok ran ↦ ok true ])
    ]

abbrev finish_update : Env → String → List Row → Result Bool → Exec Database Bool
finish_update env name rows (err c) db = (err c, cache_table name rows db)
finish_update env name rows (ok ran) db =
    (ok ran, save_table env name rows (cache_table name rows db))

-- `update`, which yields whether the updater has run: what the flag shows that the callers' updaters
-- set.
unfoldable pub update : Env → String → (Row → Result Bool) → (Row → Row) → Exec Database Bool
update env name p f = load_table env name >>= λ rows.
    finish_update env name (update_rows p f rows).0 (update_rows p f rows).1

-- `remove`, which yields whether a row was removed.
unfoldable pub remove : Env → String → (Row → Bool) → Exec Database Bool
remove env name p = load_table env name >>= λ rows db. (
  ok (not (is_nil (keep p rows))),
  save_table env name (keep (λ row. not (p row)) rows)
      (cache_table name (keep (λ row. not (p row)) rows) db),
)

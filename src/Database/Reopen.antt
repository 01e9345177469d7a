-- ===== src/Database/Reopen.antt =====
-- Saving a table and opening the file again (src/server/src/db/Database.cpp).
use lan_chat_next.Prelude.{
  String, ◌≡◌, refl, false, none, some, List, [], ◌∷◌, map, is_nil, eq_iff, All, string_eq, ok,
  arith,
}
use lan_chat_next.Json.{Value}
use lan_chat_next.Env.{Env, Bytes}
use lan_chat_next.Json.Printer.{serialize}
use lan_chat_next.Json.Reading.{Printable}
use lan_chat_next.Json.RoundTrip.{parse-serialize}
use lan_chat_next.Json.Nul.{NoNul, until_nul-serialize}
use lan_chat_next.Database.{Row, Database, parse_rows, read_disk, save_table, cache_table}
use lan_chat_next.Database.Rows.{rows_of}

-- A row whose text stands for it: no doubles, integers of 64 bits, the keys in order, and no NUL in a
-- text or a key.
abbrev pub IsWritable : Row → Type 0
IsWritable row = Printable (Value.obj row) × NoNul (Value.obj row)

-- The text of an object is not empty.
serialize-obj : (env : Env) (row : Row) → is_nil (serialize env (Value.obj row)) ≡ false
unfolding serialize
serialize-obj env row = refl

-- The process has ended and another has opened the file: the cache is empty.
abbrev pub reopen : Database → Database
reopen db = record db { tables = λ name. none }

parse_rows-map :
    (env : Env) (rows : List Row)
    → All IsWritable rows
    → parse_rows env (map (λ row. serialize env (Value.obj row)) rows) ≡ ok rows
unfolding parse_rows
parse_rows-map env [] h = refl
parse_rows-map env (row ∷ rows) h =
    let whole : IsWritable row = h.0 in
    rw (
      until_nul-serialize env (Value.obj row) whole.1,
      serialize-obj env row,
      parse-serialize env (Value.obj row) whole.0,
      parse_rows-map env rows h.1,
      parse_rows,
    )

-- Rows that hold no double, no NUL, only integers of 64 bits and objects in the order of their keys are found
-- again, in their order, when the file is opened anew after they were saved to a table that exists in
-- the file: each is written as JSON text and parsed again.
pub rows_of-reopen :
    (env : Env) (name : String) (rows : List Row) (db : Database) (texts : List Bytes)
    → db.disk name ≡ some texts
    → All IsWritable rows
    → rows_of env name (reopen (save_table env name rows (cache_table name rows db))) ≡ ok rows
unfolding rows_of save_table read_disk
rows_of-reopen env name rows db texts e h =
    ground (arith, eq_iff name name, parse_rows-map env rows h)

-- Rows of a table that does not exist in the file are lost.
rows_of-reopen_missing :
    (env : Env) (name : String) (rows : List Row) (db : Database)
    → db.disk name ≡ none
    → rows_of env name (reopen (save_table env name rows (cache_table name rows db))) ≡ ok []
unfolding rows_of save_table read_disk
rows_of-reopen_missing env name rows db e = ground arith

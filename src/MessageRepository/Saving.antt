-- ===== src/MessageRepository/Saving.antt =====
-- Saving a message: a new number, and one more row.
use lan_chat_next.Prelude.{
  String, ◌≡◌, refl, ap, ◌∙◌, Bool, true, false, List, [], ◌∷◌, ◌++◌, ℤ, pos, max_int, lt_int,
  succ_int, keep, All, ok, if◌then◌else◌, ◌==◌, string_eq, max_int-ge, ge_trans, lt-succ_int,
  lt_int_irrefl, Result-cases, inl, inr,
}
use lan_chat_next.Records.{StoredMessage, blank_message}
use lan_chat_next.Env.{Env}
use lan_chat_next.RowFields.{row_int64}
use lan_chat_next.Database.{Row, Database, query, any_row}
use lan_chat_next.Database.Rows.{rows_of, query_lem, rows_of-query, insert_lem, Writes}
use lan_chat_next.MessageRepository.{to_row, max_message_id, next_message_id, save_private}

max_message_id-ge :
    (rows : List Row) (start : ℤ)
    → (lt_int (max_message_id start rows) start ≡ false)
      × All (λ row. lt_int (max_message_id start rows) (row_int64 row "msg_id") ≡ false) rows
unfolding max_message_id
max_message_id-ge [] start = (lt_int_irrefl start, tt)
max_message_id-ge (row ∷ rows) start =
    let ih = max_message_id-ge rows (max_int start (row_int64 row "msg_id")) in
    let bound = max_int-ge start (row_int64 row "msg_id") in
    (ge_trans _ _ start ih.0 bound.0, (ge_trans _ _ (row_int64 row "msg_id") ih.0 bound.1, ih.1))

-- No row of the table has this number or a higher one.
abbrev pub IsNew : ℤ → List Row → Type 0
IsNew id rows = All (λ row. lt_int (row_int64 row "msg_id") id ≡ true) rows

IsNew-max :
    (max : ℤ) (rows : List Row)
    → All (λ row. lt_int max (row_int64 row "msg_id") ≡ false) rows
    → IsNew (succ_int max) rows
IsNew-max max [] h = tt
IsNew-max max (row ∷ rows) h = (lt-succ_int _ max h.0, IsNew-max max rows h.1)

keep_all : (rows : List Row) → keep (λ row. true) rows ≡ rows
keep_all [] = refl
keep_all (row ∷ rows) = rw (keep_all rows)

-- The number that `nextMessageId` takes from these rows.
abbrev pub new_id : List Row → ℤ
new_id rows = succ_int (max_message_id (pos 0) rows)

next_message_id_lem :
    (env : Env) (db : Database) {rows : List Row}
    → rows_of env "messages" db ≡ ok rows
    → (next_message_id env db).0 ≡ ok (new_id rows)
unfolding next_message_id
next_message_id_lem env db {rows} have =
    rw (query_lem env "messages" (λ row. true) db have, keep_all rows)

rows_of-next_message_id :
    (env : Env) (db : Database) (other : String)
    → rows_of env other (next_message_id env db).1 ≡ rows_of env other db
unfolding next_message_id
rows_of-next_message_id env db other = elim (Result-cases (query env "messages" any_row db).0) [
  | inl (rows, e) ↦ rw e (rows_of-query env "messages" other any_row db)
  | inr (c, e) ↦ rw e (rows_of-query env "messages" other any_row db)
]

-- The message that `savePrivate` builds.
abbrev pub private_message : Env → ℤ → ℤ → ℤ → String → String → Bool → StoredMessage
private_message env id from_id to_id content content_type delivered = record blank_message {
  msg_id = id;
  from_id = from_id;
  to_id = to_id;
  content = content;
  content_type = if content_type == "" then "text" else content_type;
  timestamp = env.now;
  delivered = delivered;
}

-- `savePrivate` yields a message with these members and a number above that of every row, and puts
-- its row behind those of the table; no other table changes.
pub save_private_lem :
    (env : Env) (from_id to_id : ℤ) (content content_type : String) (delivered : Bool)
    (db : Database) {rows : List Row}
    → rows_of env "messages" db ≡ ok rows
    → let m = private_message env (new_id rows) from_id to_id content content_type delivered in
      ((save_private env from_id to_id content content_type delivered db).0 ≡ ok m)
      × IsNew (new_id rows) rows
      × Writes env "messages"
          (rows ++ to_row m ∷ [])
          db
          (save_private env from_id to_id content content_type delivered db).1
unfolding save_private
save_private_lem env from_id to_id content content_type delivered db {rows} have =
    let m = private_message env (new_id rows) from_id to_id content content_type delivered in
    let between = (next_message_id env db).1 in
    let kept = rows_of-next_message_id env db in
    let done = insert_lem env "messages" (to_row m) between (kept "messages" ∙ have) in
    rw (next_message_id_lem env db have, done.0)
      (
        refl,
        IsNew-max _ rows (max_message_id-ge rows (pos 0)).1,
        λ other.
            done.1 other
            ∙ ap (λ r. if "messages" == other then ok (rows ++ to_row m ∷ []) else r) (kept other),
      )

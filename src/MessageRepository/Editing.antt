-- ===== src/MessageRepository/Editing.antt =====
-- Editing, deleting, reacting and reading, seen on the messages of the table.
use lan_chat_next.Prelude.{
  String, ◌≡◌, refl, ap, sym, ◌∙◌, Bool, true, false, not, ◌&&◌, List, [], ◌∷◌, map, ℤ, any,
  if◌then◌else◌, arith, ◌==◌, string_eq, int_eq, Result, ok, Bool-cases, inl, inr, to_string,
  has_text,
}
use Prim.Native.String.{◌++◌ as str_append}
use lan_chat_next.Json.{Value, put}
use lan_chat_next.Json.Fields.{object_laws}
use lan_chat_next.Records.{StoredMessage}
use lan_chat_next.Env.{Env}
use lan_chat_next.RowFields.{row_int, row_int64, row_string, row_bool}
use lan_chat_next.Database.{Row, Database, update, where_row}
use lan_chat_next.Database.Rows.{rows_of, update_lem, Writes, Writes-rows_of}
use lan_chat_next.MessageRepository.{
  from_row, is_own, edit_row, edit, delete_row, soft_delete, react_row, add_reaction, mark_read,
}
use lan_chat_next.MessageRepository.Codec.{from_row-edit_row, from_row-delete_row}

-- The messages that pass are changed, the others stay.
abbrev pub change_where :
    (StoredMessage → Bool)
    → (StoredMessage → StoredMessage)
    → List StoredMessage
    → List StoredMessage
change_where q g ms = map (λ m. if q m then g m else m) ms

-- What an update of the table "messages" is on the messages: it yields whether one passes `q`, and
-- the table holds the messages changed by `g` where they pass.
abbrev pub Changes :
    Env
    → List Row
    → (StoredMessage → Bool)
    → (StoredMessage → StoredMessage)
    → Database
    → Result Bool × Database
    → Type 0
Changes env rows q g db r =
    (r.0 ≡ ok (any q (map from_row rows)))
    × ((after : List Row) × Writes env "messages" after db r.1
        × (map from_row after ≡ change_where q g (map from_row rows)))

module _ (p : Row → Bool) (q : StoredMessage → Bool) (f : Row → Row)
    (g : StoredMessage → StoredMessage) (same : (row : Row) → p row ≡ q (from_row row))
    (does : (row : Row) → from_row (f row) ≡ g (from_row row)) where
  any-from_row : (rows : List Row) → any p rows ≡ any q (map from_row rows)
  any-from_row [] = refl
  any-from_row (row ∷ rows) = rw (same row, any-from_row rows)

  map-from_row :
      (rows : List Row)
      → map from_row (map (λ row. if p row then f row else row) rows)
        ≡ change_where q g (map from_row rows)
  map-from_row [] = refl
  map-from_row (row ∷ rows) = elim (Bool-cases (p row)) [
    | inl e ↦ rw (e, sym (same row) ∙ e, does row, map-from_row rows)
    | inr e ↦ rw (e, sym (same row) ∙ e, map-from_row rows)
  ]

  update-Changes :
      (env : Env) (db : Database) (rows : List Row)
      → rows_of env "messages" db ≡ ok rows
      → Changes env rows q g db (update env "messages" (where_row p) f db)
  update-Changes env db rows have =
      let done = update_lem env "messages" p f db have in
      (
        done.0 ∙ ap ok (any-from_row rows),
        (map (λ row. if p row then f row else row) rows, done.1, map-from_row rows),
      )

-- The actor's own message of this number, not yet deleted.
abbrev pub is_own_message : ℤ → ℤ → StoredMessage → Bool
is_own_message msg_id actor m = m.msg_id == msg_id && m.from_id == actor && not m.deleted

abbrev pub edited_message : Env → String → StoredMessage → StoredMessage
edited_message env content m = record m { content = content; edited = true; edited_at = env.now }

abbrev pub deleted_message : Env → StoredMessage → StoredMessage
deleted_message env m = record m { content = ""; deleted = true; deleted_at = env.now }

-- `edit` gives new content to exactly the messages of this number that the actor has sent and that
-- are not deleted, where the content is not empty; it yields whether there was one, and changes
-- nothing else.
pub edit-Changes :
    (env : Env) (msg_id actor : ℤ) (content : String) (db : Database) (rows : List Row)
    → rows_of env "messages" db ≡ ok rows
    → Changes env rows
        (λ m. is_own_message msg_id actor m && not (content == ""))
        (edited_message env content)
        db
        (edit env msg_id actor content db)
unfolding edit
edit-Changes env msg_id actor content db rows have =
    update-Changes (λ row. is_own msg_id actor row && not (content == ""))
      (λ m. is_own_message msg_id actor m && not (content == "")) (edit_row env content)
      (edited_message env content) (λ row. unfold is_own from_row in refl)
      (from_row-edit_row env content) env db rows have

-- `softDelete` empties and marks exactly the messages of this number that the actor has sent and
-- that are not deleted; it yields whether there was one, and changes nothing else.
pub soft_delete-Changes :
    (env : Env) (msg_id actor : ℤ) (db : Database) (rows : List Row)
    → rows_of env "messages" db ≡ ok rows
    → Changes env rows
        (is_own_message msg_id actor)
        (deleted_message env)
        db
        (soft_delete env msg_id actor db)
unfolding soft_delete
soft_delete-Changes env msg_id actor db rows have =
    update-Changes (is_own msg_id actor) (is_own_message msg_id actor) (delete_row env)
      (deleted_message env) (λ row. unfold is_own from_row in refl) (from_row-delete_row env) env db
      rows have

none_left :
    (env : Env) (msg_id actor : ℤ) (ms : List StoredMessage)
    → any
        (is_own_message msg_id actor)
        (change_where (is_own_message msg_id actor) (deleted_message env) ms)
      ≡ false
none_left env msg_id actor [] = refl
none_left env msg_id actor (m ∷ ms) = ground (arith, none_left env msg_id actor ms)

any-and :
    (q : StoredMessage → Bool) (b : Bool) (ms : List StoredMessage)
    → any q ms ≡ false
    → any (λ m. q m && b) ms ≡ false
any-and q b [] h = refl
any-and q b (m ∷ ms) h = ground (arith, any-and q b ms)

-- After the actor has deleted a message, the actor can neither edit it nor delete it again: both
-- calls yield false, whatever the content.
pub edit-soft_delete :
    (env : Env) (msg_id actor : ℤ) (content : String) (db : Database) (rows : List Row)
    → rows_of env "messages" db ≡ ok rows
    → let db' = (soft_delete env msg_id actor db).1 in
      ((edit env msg_id actor content db').0 ≡ ok false)
      × ((soft_delete env msg_id actor db').0 ≡ ok false)
edit-soft_delete env msg_id actor content db rows have =
    let (_, after) = soft_delete-Changes env msg_id actor db rows have in
    let db' = (soft_delete env msg_id actor db).1 in
    let have' = Writes-rows_of env "messages" after.0 db db' after.1 in
    let gone : any (is_own_message msg_id actor) (map from_row after.0) ≡ false =
      rw after.2 (none_left env msg_id actor (map from_row rows)) in
    (
      (edit-Changes env msg_id actor content db' after.0 have').0
          ∙ ap ok (
              any-and (is_own_message msg_id actor) (not (content == "")) (map from_row after.0)
                gone),
      (soft_delete-Changes env msg_id actor db' after.0 have').0 ∙ ap ok gone,
    )

abbrev pub encoded_reaction : ℤ → String → String
encoded_reaction actor reaction = str_append (to_string actor) (str_append ":" reaction)

-- The reactions of a message after one more: it is left out where its text stands in them already.
abbrev pub with_reaction : String → String → String
with_reaction encoded current =
    if has_text current encoded
    then current
    else if current == ""
    then encoded
    else str_append current (str_append "," encoded)

from_row-react_row :
    (encoded : String) (row : Row)
    → from_row (react_row encoded row)
      ≡ record (from_row row) { reactions = with_reaction encoded (from_row row).reactions }
unfolding from_row react_row
from_row-react_row encoded row =
    elim (Bool-cases (has_text (row_string row "reactions" "") encoded)) [
      | inl e ↦ rw e
      | inr e ↦ rw e (unfold row_int row_int64 row_string row_bool in simp object_laws)
    ]

-- `addReaction` changes no message but those of this number that are not deleted, and yields whether
-- there was one. To the reactions of such a message the text "actor:reaction" is added, unless this text
-- stands anywhere in them already, be it as a part of the reaction of another user: then they stay. An
-- empty reaction is refused and changes nothing.
pub add_reaction-Changes :
    (env : Env) (msg_id actor : ℤ) (reaction : String) (db : Database) (rows : List Row)
    → rows_of env "messages" db ≡ ok rows
    → ((reaction == "") ≡ true → add_reaction env msg_id actor reaction db ≡ (ok false, db))
      × ((reaction == "") ≡ false
          → Changes env rows
              (λ m. m.msg_id == msg_id && not m.deleted)
              (λ m. record m {
                reactions = with_reaction (encoded_reaction actor reaction) m.reactions;
              })
              db
              (add_reaction env msg_id actor reaction db))
unfolding add_reaction
add_reaction-Changes env msg_id actor reaction db rows have = (
  λ e. rw e,
  λ e. rw e (
      update-Changes (λ row. row_int64 row "msg_id" == msg_id && not (row_bool row "deleted"))
        (λ m. m.msg_id == msg_id && not m.deleted) (react_row (encoded_reaction actor reaction))
        (λ m. record m { reactions = with_reaction (encoded_reaction actor reaction) m.reactions })
        (λ row. unfold from_row in refl) (from_row-react_row (encoded_reaction actor reaction)) env
        db rows have),
)

from_row-read :
    (reader : ℤ) (row : Row)
    → from_row (put "read_by" (Value.int reader) (put "read" (Value.bool true) row))
      ≡ record (from_row row) { read = true }
unfolding from_row row_int row_int64 row_string row_bool
from_row-read reader row = simp object_laws

-- `markRead` marks exactly the messages of this number, whoever the reader is, and yields whether
-- there was one.
pub mark_read-Changes :
    (env : Env) (msg_id reader : ℤ) (db : Database) (rows : List Row)
    → rows_of env "messages" db ≡ ok rows
    → Changes env rows
        (λ m. m.msg_id == msg_id)
        (λ m. record m { read = true })
        db
        (mark_read env msg_id reader db)
unfolding mark_read
mark_read-Changes env msg_id reader db rows have =
    update-Changes (λ row. row_int64 row "msg_id" == msg_id) (λ m. m.msg_id == msg_id)
      (λ row. put "read_by" (Value.int reader) (put "read" (Value.bool true) row))
      (λ m. record m { read = true }) (λ row. unfold from_row in refl) (from_row-read reader) env db
      rows have

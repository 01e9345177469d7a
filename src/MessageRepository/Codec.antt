-- ===== src/MessageRepository/Codec.antt =====
-- `toRow`, `fromRow` and the updaters of src/server/src/db/MessageRepository.cpp together.
use lan_chat_next.Prelude.{String, ◌≡◌, true, string_eq}
use lan_chat_next.Json.Fields.{object_laws}
use lan_chat_next.Records.{StoredMessage}
use lan_chat_next.Env.{Env}
use lan_chat_next.RowFields.{row_int, row_int64, row_string, row_bool, IsInt, to_int32_lem}
use lan_chat_next.Database.{Row}
use lan_chat_next.MessageRepository.{to_row, from_row, edit_row, delete_row}

-- The members that are an `int` in C++ hold the value of an `int`.
pub record IsStored (m : StoredMessage) : Type 0 where
  pub from_id : IsInt m.from_id
  pub to_id : IsInt m.to_id
  pub group_id : IsInt m.group_id

-- A message is read back from its row, every member as it was.
pub from_row-to_row : (m : StoredMessage) → IsStored m → from_row (to_row m) ≡ m
unfolding from_row to_row row_int row_int64 row_string row_bool
from_row-to_row m h = simp (
  object_laws,
  to_int32_lem m.from_id h.from_id,
  to_int32_lem m.to_id h.to_id,
  to_int32_lem m.group_id h.group_id,
)

-- Editing a row changes content, edited and edited_at of its message, and nothing else.
pub from_row-edit_row :
    (env : Env) (content : String) (row : Row)
    → from_row (edit_row env content row)
      ≡ record (from_row row) { content = content; edited = true; edited_at = env.now }
unfolding from_row edit_row row_int row_int64 row_string row_bool
from_row-edit_row env content row = simp object_laws

-- Deleting a row empties the content of its message, sets deleted and deleted_at, and changes
-- nothing else.
pub from_row-delete_row :
    (env : Env) (row : Row)
    → from_row (delete_row env row)
      ≡ record (from_row row) { content = ""; deleted = true; deleted_at = env.now }
unfolding from_row delete_row row_int row_int64 row_string row_bool
from_row-delete_row env row = simp object_laws

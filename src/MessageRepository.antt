-- ===== src/MessageRepository.antt =====
-- src/server/src/db/MessageRepository.cpp: messages as rows of the table "messages". The time of a
-- call is that of `env`.
pub mod Codec
pub mod Durable
pub mod Saving
pub mod Editing
pub mod History
use Prim.Native.String.{◌++◌ as str_append}
use lan_chat_next.Prelude.{
  ℕ, suc, ◌-◌, String, Bool, true, false, not, ◌&&◌, ◌||◌, List, [], ◌∷◌, map, ℤ, pos, positive,
  to_nat, max_int, succ_int, is_nil, length, drop, ltb, ◌==◌, string_eq, int_eq, if◌then◌else◌,
  Exec, ◌>>=◌, ◌>>◌, pure, for_each, to_string, has_text, skip,
}
use lan_chat_next.Json.{Value, Object, put, get}
use lan_chat_next.Records.{StoredMessage, blank_message}
use lan_chat_next.Env.{Env}
use lan_chat_next.RowFields.{row_int, row_int64, row_string, row_bool}
use lan_chat_next.Database.{Row, Database, query, insert, update, where_row, any_row}

-- `toRow`
unfoldable pub to_row : StoredMessage → Row
to_row m = put "reactions" (Value.str m.reactions) (
    put "deleted_at" (Value.int m.deleted_at) (
      put "edited_at" (Value.int m.edited_at) (
        put "deleted" (Value.bool m.deleted) (
          put "edited" (Value.bool m.edited) (
            put "read" (Value.bool m.read) (
              put "delivered" (Value.bool m.delivered) (
                put "timestamp" (Value.int m.timestamp) (
                  put "content_type" (Value.str m.content_type) (
                    put "content" (Value.str m.content) (
                      put "group_id" (Value.int m.group_id) (
                        put "to_id" (Value.int m.to_id) (
                          put "from_id" (Value.int m.from_id)
                            (put "msg_id" (Value.int m.msg_id) Object.end)))))))))))))

-- `fromRow`
unfoldable pub from_row : Row → StoredMessage
from_row row = record {
  msg_id = row_int64 row "msg_id";
  from_id = row_int row "from_id";
  to_id = row_int row "to_id";
  group_id = row_int row "group_id";
  content = row_string row "content" "";
  content_type = row_string row "content_type" "text";
  timestamp = row_int64 row "timestamp";
  delivered = row_bool row "delivered";
  read = row_bool row "read";
  edited = row_bool row "edited";
  deleted = row_bool row "deleted";
  edited_at = row_int64 row "edited_at";
  deleted_at = row_int64 row "deleted_at";
  reactions = row_string row "reactions" "";
}

-- The loop of `nextMessageId`.
unfoldable pub max_message_id : ℤ → List Row → ℤ
max_message_id max_id [] = max_id
max_message_id max_id (row ∷ rows) = max_message_id (max_int max_id (row_int64 row "msg_id")) rows

-- `nextMessageId`
unfoldable pub next_message_id : Env → Exec Database ℤ
next_message_id env =
    query env "messages" any_row >>= λ rows. pure (succ_int (max_message_id (pos 0) rows))

-- `savePrivate`
unfoldable pub save_private : Env → ℤ → ℤ → String → String → Bool → Exec Database StoredMessage
save_private env from_id to_id content content_type delivered = do
  id ← next_message_id env
  let message = record blank_message {
    msg_id = id;
    from_id = from_id;
    to_id = to_id;
    content = content;
    content_type = if content_type == "" then "text" else content_type;
    timestamp = env.now;
    delivered = delivered;
  }
  insert env "messages" (to_row message)
  pure message

-- `saveGroup`
unfoldable pub save_group : Env → ℤ → ℤ → String → String → Exec Database StoredMessage
save_group env from_id group_id content content_type = do
  id ← next_message_id env
  let message = record blank_message {
    msg_id = id;
    from_id = from_id;
    group_id = group_id;
    content = content;
    content_type = if content_type == "" then "text" else content_type;
    timestamp = env.now;
    delivered = true;
  }
  insert env "messages" (to_row message)
  pure message

-- `trimToLimit`: the newest `limit` messages in the order of their timestamps; a limit that is not
-- positive does not limit.
unfoldable pub trim_to_limit : Env → List StoredMessage → ℤ → List StoredMessage
trim_to_limit env messages limit =
    let sorted = env.sort_by_timestamp messages in
    if positive limit && ltb (to_nat limit) (length sorted)
    then drop (length sorted - to_nat limit) sorted
    else sorted

-- `markDelivered`
unfoldable pub mark_delivered : Env → ℤ → Exec Database (Unit {0})
mark_delivered env msg_id = do
  update env "messages" (where_row (λ row. row_int64 row "msg_id" == msg_id))
      (put "delivered" (Value.bool true))
  skip

-- The predicate of `offlineForUser`.
unfoldable pub is_offline_for : ℤ → Row → Bool
is_offline_for user row =
    row_int row "to_id" == user && row_int row "group_id" == pos 0 && not (row_bool row "delivered")

-- `offlineForUser`
unfoldable pub offline_for_user : Env → ℤ → ℤ → Exec Database (List StoredMessage)
offline_for_user env user limit = do
  rows ← query env "messages" (where_row (is_offline_for user))
  let messages = trim_to_limit env (map from_row rows) limit
  for_each messages (λ m. mark_delivered env m.msg_id)
  pure messages

-- The predicate of `privateHistory`.
unfoldable pub is_between : ℤ → ℤ → Row → Bool
is_between user_a user_b row =
    let from = row_int row "from_id" in
    let to = row_int row "to_id" in
    row_int row "group_id" == pos 0
    && ((from == user_a && to == user_b) || (from == user_b && to == user_a))

-- `privateHistory`
unfoldable pub private_history : Env → ℤ → ℤ → ℤ → Exec Database (List StoredMessage)
private_history env user_a user_b limit = do
  rows ← query env "messages" (where_row (is_between user_a user_b))
  pure (trim_to_limit env (map from_row rows) limit)

-- `groupHistory`
unfoldable pub group_history : Env → ℤ → ℤ → Exec Database (List StoredMessage)
group_history env group_id limit = do
  rows ← query env "messages" (where_row (λ row. row_int row "group_id" == group_id))
  pure (trim_to_limit env (map from_row rows) limit)

-- `search`
unfoldable pub search_messages : Env → String → ℤ → Exec Database (List StoredMessage)
search_messages env keyword limit = if keyword == "" then pure [] else (do
  rows ← query env "messages" (where_row (λ row. has_text (row_string row "content" "") keyword))
  pure (trim_to_limit env (map from_row rows) limit))

-- The predicate of `edit` and `softDelete`: the actor's own message, not yet deleted.
unfoldable pub is_own : ℤ → ℤ → Row → Bool
is_own msg_id actor row =
    row_int64 row "msg_id" == msg_id
    && row_int row "from_id" == actor
    && not (row_bool row "deleted")

-- The updater of `edit`.
unfoldable pub edit_row : Env → String → Row → Row
edit_row env content row =
    put "edited_at" (Value.int env.now)
      (put "edited" (Value.bool true) (put "content" (Value.str content) row))

-- `edit`
unfoldable pub edit : Env → ℤ → ℤ → String → Exec Database Bool
edit env msg_id actor content =
    update env "messages" (where_row (λ row. is_own msg_id actor row && not (content == "")))
      (edit_row env content)

-- The updater of `softDelete`.
unfoldable pub delete_row : Env → Row → Row
delete_row env row =
    put "deleted_at" (Value.int env.now)
      (put "deleted" (Value.bool true) (put "content" (Value.str "") row))

-- `softDelete`
unfoldable pub soft_delete : Env → ℤ → ℤ → Exec Database Bool
soft_delete env msg_id actor =
    update env "messages" (where_row (is_own msg_id actor)) (delete_row env)

-- The updater of `addReaction`: an encoded reaction that is in the list already is not added again.
unfoldable pub react_row : String → Row → Row
react_row encoded row =
    let current = row_string row "reactions" "" in
    if has_text current encoded
    then row
    else put "reactions"
        (Value.str (if current == "" then encoded else str_append current (str_append "," encoded)))
        row

-- `addReaction`
unfoldable pub add_reaction : Env → ℤ → ℤ → String → Exec Database Bool
add_reaction env msg_id actor reaction =
    if reaction == ""
    then pure false
    else update env "messages"
        (where_row (λ row. row_int64 row "msg_id" == msg_id && not (row_bool row "deleted")))
        (react_row (str_append (to_string actor) (str_append ":" reaction)))

-- `markRead`
unfoldable pub mark_read : Env → ℤ → ℤ → Exec Database Bool
mark_read env msg_id reader =
    update env "messages" (where_row (λ row. row_int64 row "msg_id" == msg_id))
      (λ row. put "read_by" (Value.int reader) (put "read" (Value.bool true) row))

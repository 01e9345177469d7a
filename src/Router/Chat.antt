-- ===== src/Router/Chat.antt =====
-- Private and group messages, files, and histories.
use lan_chat_next.Prelude.{
  ℕ, Bool, true, false, not, ◌&&◌, ◌||◌, Option, none, some, [], ◌∷◌, pos, positive, max_int, ◌==◌,
  int_eq, string_eq, nat_eq, if◌then◌else◌, ◌>>=◌, ◌>>◌, pure, skip, when,
}
use lan_chat_next.Protocol.{MsgType}
use lan_chat_next.Json.{Value, Object, put, object}
use lan_chat_next.ProtocolJson.{int_field, int64_field, string_field, error_response}
use lan_chat_next.Env.{Env}
use lan_chat_next.Json.Printer.{serialize}
use lan_chat_next.Server.{Handler, on_db, send, deliver_if, session_of, deliver_to_users}
use lan_chat_next.Router.{
  type_value, message_to_json, messages_to_array, authenticated_user_id, deliver_to_conversation,
}
use lan_chat_next.MessageRepository.{
  save_private, save_group, mark_read, group_history, private_history,
}
use lan_chat_next.ChannelRepository.{members}

abbrev is_found : Option ℕ → Bool
is_found none = false
is_found (some id) = true

-- `handlePrivateMessage`
unfoldable pub handle_private_message : Env → ℕ → Object → Handler
handle_private_message env id request =
    let to = int_field request "toId" (pos 0) in
    let content = string_field request "msg" "" in
    let content_type = string_field request "content_type" "text" in
    authenticated_user_id id >>= λ from.
    if not (positive from) || not (positive to) || content == ""
    then send env id (error_response MsgType.system_broadcast 400 "fromId, toId and msg required")
    else (session_of to >>= λ target.
        on_db (save_private env from to content content_type (is_found target)) >>= λ message.
        let payload = serialize env (Value.obj (message_to_json MsgType.receive_msg message)) in
        deliver_if target payload >> deliver_if (some id) payload)

-- `handleGroupMessage`
unfoldable pub handle_group_message : Env → ℕ → Object → Handler
handle_group_message env id request =
    let group = int_field request "groupId" (pos 0) in
    let content = string_field request "msg" "" in
    let content_type = string_field request "content_type" "text" in
    authenticated_user_id id >>= λ from.
    if not (positive from) || not (positive group) || content == ""
    then send env id
        (error_response MsgType.system_broadcast 400 "fromId, groupId and msg required")
    else (on_db (save_group env from group content content_type) >>= λ message.
        on_db (members env group) >>= λ users.
        deliver_to_users
          (serialize env (Value.obj (message_to_json MsgType.receive_group_msg message))) users)

-- `handleFileTransfer`
unfoldable pub handle_file_transfer : Env → ℕ → Object → Handler
handle_file_transfer env id request =
    let to = int_field request "toId" (pos 0) in
    let group = int_field request "groupId" (pos 0) in
    let file_name = string_field request "file_name" "" in
    let file_hash = string_field request "file_hash" "" in
    authenticated_user_id id >>= λ from.
    if not (positive from)
      || file_name == ""
      || file_hash == ""
      || (not (positive to) && not (positive group))
    then send env id
        (error_response MsgType.file_transfer_done 400 "fromId, target and file metadata required")
    else (deliver_to_conversation env
          (serialize env (Value.obj (put "type" (type_value MsgType.receive_file) request))) from to
          group
        >> send env id (
            object (
              ("type", type_value MsgType.file_transfer_done)
              ∷ ("status", Value.str "ok")
              ∷ ("file_hash", Value.str file_hash)
              ∷ ("msg", Value.str "file metadata delivered")
              ∷ [])))

-- `handleHistory`
unfoldable pub handle_history : Env → ℕ → Object → Handler
handle_history env id request =
    let to = int_field request "toId" (pos 0) in
    let group = int_field request "groupId" (pos 0) in
    let limit = max_int (pos 1) (int_field request "limit" (pos 100)) in
    let read_id = int64_field request "msg_id" (pos 0) in
    authenticated_user_id id >>= λ user.
    when (positive read_id) (on_db (mark_read env read_id (pos 0)) >> skip)
    >> (if positive group
        then on_db (group_history env group limit)
        else if positive user && positive to
        then on_db (private_history env user to limit)
        else pure [])
    >>= λ history. send env id (
        object (
          ("type", type_value MsgType.history_response)
          ∷ ("messages", messages_to_array history)
          ∷ ("has_more", Value.bool false)
          ∷ []))

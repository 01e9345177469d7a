-- ===== src/Router/Editing.antt =====
-- Editing, deleting, reacting, and read receipts.
use lan_chat_next.Prelude.{
  ℕ, Bool, false, not, ◌&&◌, [], ◌∷◌, ◌++◌, ℤ, pos, positive, int_eq, string_eq, nat_eq,
  if◌then◌else◌, ◌>>=◌, pure,
}
use lan_chat_next.Protocol.{MsgType}
use lan_chat_next.Json.{Value, Object, object, with_fields}
use lan_chat_next.ProtocolJson.{int_field, int64_field, string_field, error_response}
use lan_chat_next.Env.{Env}
use lan_chat_next.Json.Printer.{serialize}
use lan_chat_next.Server.{Handler, on_db, send}
use lan_chat_next.Router.{type_value, if_positive, authenticated_user_id, deliver_to_conversation}
use lan_chat_next.MessageRepository.{edit, soft_delete, add_reaction, mark_read}

-- The end of the three handlers: a success goes to the conversation, a failure to the sender.
unfoldable pub answer_conversation : Env → ℕ → Bool → Object → ℤ → ℤ → ℤ → Handler
answer_conversation env id done response from to group =
    if done
    then deliver_to_conversation env (serialize env (Value.obj response)) from to group
    else send env id response

-- `handleMessageEdit`
unfoldable pub handle_message_edit : Env → ℕ → Object → Handler
handle_message_edit env id request =
    let msg_id = int64_field request "msg_id" (pos 0) in
    let content = string_field request "msg" "" in
    let to = int_field request "toId" (pos 0) in
    let group = int_field request "groupId" (pos 0) in
    authenticated_user_id id >>= λ from.
    (if positive from && positive msg_id then on_db (edit env msg_id from content) else pure false)
    >>= λ done.
        answer_conversation env id done
          (object (
            ("type", type_value MsgType.message_edit_return)
            ∷ ("status", Value.str (if done then "ok" else "error"))
            ∷ ("msg_id", Value.int msg_id)
            ∷ ("fromId", Value.int from)
            ∷ ("msg", Value.str (if done then content else "message edit failed"))
            ∷ ("edited_at", Value.int env.now)
            ∷ (if_positive "toId" to ++ if_positive "groupId" group)))
          from to group

-- `handleMessageDelete`
unfoldable pub handle_message_delete : Env → ℕ → Object → Handler
handle_message_delete env id request =
    let msg_id = int64_field request "msg_id" (pos 0) in
    let to = int_field request "toId" (pos 0) in
    let group = int_field request "groupId" (pos 0) in
    authenticated_user_id id >>= λ from.
    (if positive from && positive msg_id then on_db (soft_delete env msg_id from) else pure false)
    >>= λ done.
        answer_conversation env id done
          (object (
            ("type", type_value MsgType.message_delete_return)
            ∷ ("status", Value.str (if done then "ok" else "error"))
            ∷ ("msg_id", Value.int msg_id)
            ∷ ("fromId", Value.int from)
            ∷ ("msg", Value.str (if done then "deleted" else "message delete failed"))
            ∷ ("deleted_at", Value.int env.now)
            ∷ (if_positive "toId" to ++ if_positive "groupId" group)))
          from to group

-- `handleMessageReaction`
unfoldable pub handle_message_reaction : Env → ℕ → Object → Handler
handle_message_reaction env id request =
    let msg_id = int64_field request "msg_id" (pos 0) in
    let reaction = string_field request "reaction" "" in
    let to = int_field request "toId" (pos 0) in
    let group = int_field request "groupId" (pos 0) in
    authenticated_user_id id >>= λ from.
    (if positive from && positive msg_id
      then on_db (add_reaction env msg_id from reaction)
      else pure false)
    >>= λ done.
        answer_conversation env id done
          (object (
            ("type", type_value MsgType.message_reaction_return)
            ∷ ("status", Value.str (if done then "ok" else "error"))
            ∷ ("msg_id", Value.int msg_id)
            ∷ ("fromId", Value.int from)
            ∷ ("reaction", Value.str reaction)
            ∷ ("msg", Value.str (if done then "reaction added" else "reaction failed"))
            ∷ (if_positive "toId" to ++ if_positive "groupId" group)))
          from to group

-- `handleReadReceipt`
unfoldable pub handle_read_receipt : Env → ℕ → Object → Handler
handle_read_receipt env id request =
    let msg_id = int64_field request "msg_id" (pos 0) in
    let to = int_field request "toId" (pos 0) in
    let group = int_field request "groupId" (pos 0) in
    authenticated_user_id id >>= λ from.
    (if positive from && positive msg_id then on_db (mark_read env msg_id from) else pure false)
    >>= λ done.
        if not done
        then send env id (error_response MsgType.system_broadcast 400 "read receipt failed")
        else deliver_to_conversation env
            (serialize env (
              Value.obj (
                with_fields request (
                  ("type", type_value MsgType.read_receipt)
                  ∷ ("read_by", Value.int from)
                  ∷ ("read_at", Value.int env.now)
                  ∷ []))))
            from to group

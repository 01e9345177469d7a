-- ===== src/Router/Dispatch.antt =====
-- `route`: the parser, and the handler of each message type.
use lan_chat_next.Prelude.{ℕ, Option, none, some}
use lan_chat_next.Protocol.{MsgType}
use lan_chat_next.Json.{Value, Object}
use lan_chat_next.ProtocolJson.{type_field, ok_response, error_response}
use lan_chat_next.Env.{Env, Bytes}
use lan_chat_next.Json.Parser.{parse}
use lan_chat_next.Server.{Handler, send}
use lan_chat_next.Router.Accounts.{
  handle_register, handle_login, handle_logout, handle_profile_update,
}
use lan_chat_next.Router.Chat.{
  handle_private_message, handle_group_message, handle_file_transfer, handle_history,
}
use lan_chat_next.Router.Groups.{
  handle_create_group, handle_search_group, handle_join_group, handle_leave_group,
}
use lan_chat_next.Router.Editing.{
  handle_message_edit, handle_message_delete, handle_message_reaction, handle_read_receipt,
}
use lan_chat_next.Router.Friends.{
  handle_friend_request, handle_friend_accept, handle_friend_remove, handle_friend_list,
}
use lan_chat_next.Router.Assistant.{
  handle_ai_request, handle_protocol_hello, handle_system_broadcast,
}

abbrev object_of : Value → Option Object
object_of (Value.obj o) = some o
object_of v = none

abbrev parsed : Option Value → Option Object
parsed none = none
parsed (some v) = object_of v

-- `parseObject`; `none` is that `ok` is false
unfoldable pub parse_object : Env → Bytes → Option Object
parse_object env json = parsed (parse env json)

-- The switch of `route`.
unfoldable pub dispatch : Env → ℕ → Object → MsgType → Handler
dispatch env id request MsgType.register_user = handle_register env id request
dispatch env id request MsgType.login = handle_login env id request
dispatch env id request MsgType.logout = handle_logout env id request
dispatch env id request MsgType.send_msg = handle_private_message env id request
dispatch env id request MsgType.send_group_msg = handle_group_message env id request
dispatch env id request MsgType.send_file = handle_file_transfer env id request
dispatch env id request MsgType.create_group = handle_create_group env id request
dispatch env id request MsgType.search_group = handle_search_group env id request
dispatch env id request MsgType.join_group = handle_join_group env id request
dispatch env id request MsgType.leave_group = handle_leave_group env id request
dispatch env id request MsgType.request_history = handle_history env id request
dispatch env id request MsgType.ai_request = handle_ai_request env id request
dispatch env id request MsgType.user_profile_update = handle_profile_update env id request
dispatch env id request MsgType.friend_request = handle_friend_request env id request
dispatch env id request MsgType.friend_accept = handle_friend_accept env id request
dispatch env id request MsgType.friend_remove = handle_friend_remove env id request
dispatch env id request MsgType.friend_list = handle_friend_list env id request
dispatch env id request MsgType.system_broadcast = handle_system_broadcast env id request
dispatch env id request MsgType.message_edit = handle_message_edit env id request
dispatch env id request MsgType.message_delete = handle_message_delete env id request
dispatch env id request MsgType.message_reaction = handle_message_reaction env id request
dispatch env id request MsgType.read_receipt = handle_read_receipt env id request
dispatch env id request MsgType.protocol_hello = handle_protocol_hello env id request
dispatch env id request other =
    send env id (ok_response MsgType.system_broadcast "server-next v1.2.0 routed frame")

abbrev pub route_parsed : Env → ℕ → Option Object → Handler
route_parsed env id none = send env id (error_response MsgType.system_broadcast 400 "invalid json")
route_parsed env id (some request) = dispatch env id request (type_field request)

-- `route`
unfoldable pub route : Env → ℕ → Bytes → Handler
unfolding parse_object
route env id json = route_parsed env id (parse_object env json)

-- ===== src/TcpServer/Keeps/Dispatching.antt =====
-- The handlers of friends and of the assistant and the dispatch of src/server/src/MessageRouter.cpp,
-- and the invariant of the sessions.
use lan_chat_next.Prelude.{ℕ, Bool, true, false, Option, none, some, String, List, ℤ}
use lan_chat_next.Json.{Object}
use lan_chat_next.Protocol.{MsgType}
use lan_chat_next.Records.{StoredMessage}
use lan_chat_next.Env.{Env, Bytes}
use lan_chat_next.TcpServer.Keeps.Actions.{Keeps, Keeps-attempt}
use lan_chat_next.Router.Friends.{
  request_sent, handle_friend_request, handle_friend_accept, reject_or_remove, handle_friend_remove,
  handle_friend_list,
}
use lan_chat_next.Router.Assistant.{
  group_target, direct_target, deliver_summary_chunks, summarize_history, summarize_answer,
  handle_ai_request, handle_protocol_hello, notify_typing, handle_system_broadcast,
}
use lan_chat_next.Router.Dispatch.{dispatch, route_parsed, route}
use lan_chat_next.TcpServer.Keeps.Handlers.{
  handler_rules, Keeps-handle_register, Keeps-handle_login, Keeps-handle_logout,
  Keeps-handle_profile_update, Keeps-handle_private_message, Keeps-handle_group_message,
  Keeps-handle_file_transfer, Keeps-handle_history, Keeps-handle_create_group,
  Keeps-handle_search_group, Keeps-handle_join_group, Keeps-handle_leave_group,
  Keeps-handle_message_edit, Keeps-handle_message_delete, Keeps-handle_message_reaction,
  Keeps-handle_read_receipt,
}

Keeps-request_sent :
    (env : Env) (id : ℕ) (from to : ℤ) (msg : String) (done : Bool)
    → Keeps (request_sent env id from to msg done)
Keeps-request_sent env id from to msg true = search handler_rules depth 24
Keeps-request_sent env id from to msg false = search handler_rules depth 24

Keeps-handle_friend_request :
    (env : Env) (id : ℕ) (request : Object) → Keeps (handle_friend_request env id request)
unfolding handle_friend_request
Keeps-handle_friend_request env id request = search (handler_rules, Keeps-request_sent) depth 24

Keeps-handle_friend_accept :
    (env : Env) (id : ℕ) (request : Object) → Keeps (handle_friend_accept env id request)
unfolding handle_friend_accept
Keeps-handle_friend_accept env id request = search handler_rules depth 24

Keeps-reject_or_remove : (env : Env) (user from to : ℤ) → Keeps (reject_or_remove env user from to)
unfolding reject_or_remove
Keeps-reject_or_remove env user from to = search handler_rules depth 24

Keeps-handle_friend_remove :
    (env : Env) (id : ℕ) (request : Object) → Keeps (handle_friend_remove env id request)
unfolding handle_friend_remove
Keeps-handle_friend_remove env id request = search (handler_rules, Keeps-reject_or_remove) depth 24

Keeps-handle_friend_list :
    (env : Env) (id : ℕ) (request : Object) → Keeps (handle_friend_list env id request)
unfolding handle_friend_list
Keeps-handle_friend_list env id request = search handler_rules depth 24

Keeps-deliver_summary_chunks :
    (env : Env) (id : ℕ) (request_id summary : String)
    → Keeps (deliver_summary_chunks env id request_id summary)
unfolding deliver_summary_chunks
Keeps-deliver_summary_chunks env id request_id summary = search handler_rules depth 24

Keeps-group_target : (env : Env) (group : Option ℤ) → Keeps (group_target env group)
Keeps-group_target env none = search handler_rules depth 24
Keeps-group_target env (some group) = search (handler_rules, Keeps-attempt) depth 24

Keeps-direct_target :
    (env : Env) (user : ℤ) (other : Option ℤ) → Keeps (direct_target env user other)
Keeps-direct_target env user none = search handler_rules depth 24
Keeps-direct_target env user (some other) = search (handler_rules, Keeps-attempt) depth 24

Keeps-summarize_history :
    (env : Env) (user : ℤ) (query : String) → Keeps (summarize_history env user query)
unfolding summarize_history
Keeps-summarize_history env user query =
    search (handler_rules, Keeps-group_target, Keeps-direct_target) depth 24

Keeps-summarize_answer :
    (env : Env) (id : ℕ) (request_id : String) (history : Option (List StoredMessage))
    → Keeps (summarize_answer env id request_id history)
Keeps-summarize_answer env id request_id none = search handler_rules depth 24
Keeps-summarize_answer env id request_id (some history) =
    search (handler_rules, Keeps-deliver_summary_chunks) depth 24

Keeps-handle_ai_request :
    (env : Env) (id : ℕ) (request : Object) → Keeps (handle_ai_request env id request)
unfolding handle_ai_request
Keeps-handle_ai_request env id request =
    search (handler_rules, Keeps-summarize_answer, Keeps-summarize_history) depth 24

Keeps-handle_protocol_hello :
    (env : Env) (id : ℕ) (request : Object) → Keeps (handle_protocol_hello env id request)
unfolding handle_protocol_hello
Keeps-handle_protocol_hello env id request = search handler_rules depth 24

Keeps-notify_typing :
    (env : Env) (from : ℤ) (request : Object) → Keeps (notify_typing env from request)
unfolding notify_typing
Keeps-notify_typing env from request = search handler_rules depth 24

Keeps-handle_system_broadcast :
    (env : Env) (id : ℕ) (request : Object) → Keeps (handle_system_broadcast env id request)
unfolding handle_system_broadcast
Keeps-handle_system_broadcast env id request = search (handler_rules, Keeps-notify_typing) depth 24

Keeps-dispatch :
    (env : Env) (id : ℕ) (request : Object) (type : MsgType) → Keeps (dispatch env id request type)
unfolding dispatch
Keeps-dispatch env id request MsgType.register_user = Keeps-handle_register env id request
Keeps-dispatch env id request MsgType.login = Keeps-handle_login env id request
Keeps-dispatch env id request MsgType.logout = Keeps-handle_logout env id request
Keeps-dispatch env id request MsgType.send_msg = Keeps-handle_private_message env id request
Keeps-dispatch env id request MsgType.send_group_msg = Keeps-handle_group_message env id request
Keeps-dispatch env id request MsgType.send_file = Keeps-handle_file_transfer env id request
Keeps-dispatch env id request MsgType.create_group = Keeps-handle_create_group env id request
Keeps-dispatch env id request MsgType.search_group = Keeps-handle_search_group env id request
Keeps-dispatch env id request MsgType.join_group = Keeps-handle_join_group env id request
Keeps-dispatch env id request MsgType.leave_group = Keeps-handle_leave_group env id request
Keeps-dispatch env id request MsgType.request_history = Keeps-handle_history env id request
Keeps-dispatch env id request MsgType.ai_request = Keeps-handle_ai_request env id request
Keeps-dispatch env id request MsgType.user_profile_update =
    Keeps-handle_profile_update env id request
Keeps-dispatch env id request MsgType.friend_request = Keeps-handle_friend_request env id request
Keeps-dispatch env id request MsgType.friend_accept = Keeps-handle_friend_accept env id request
Keeps-dispatch env id request MsgType.friend_remove = Keeps-handle_friend_remove env id request
Keeps-dispatch env id request MsgType.friend_list = Keeps-handle_friend_list env id request
Keeps-dispatch env id request MsgType.system_broadcast =
    Keeps-handle_system_broadcast env id request
Keeps-dispatch env id request MsgType.message_edit = Keeps-handle_message_edit env id request
Keeps-dispatch env id request MsgType.message_delete = Keeps-handle_message_delete env id request
Keeps-dispatch env id request MsgType.message_reaction =
    Keeps-handle_message_reaction env id request
Keeps-dispatch env id request MsgType.read_receipt = Keeps-handle_read_receipt env id request
Keeps-dispatch env id request MsgType.protocol_hello = Keeps-handle_protocol_hello env id request
Keeps-dispatch env id request other = search handler_rules depth 24

Keeps-route_parsed :
    (env : Env) (id : ℕ) (request : Option Object) → Keeps (route_parsed env id request)
Keeps-route_parsed env id none = search handler_rules depth 24
Keeps-route_parsed env id (some request) = search (handler_rules, Keeps-dispatch) depth 24

pub Keeps-route : (env : Env) (id : ℕ) (json : Bytes) → Keeps (route env id json)
unfolding route
Keeps-route env id json = Keeps-route_parsed env id _

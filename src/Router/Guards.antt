-- ===== src/Router/Guards.antt =====
-- What a session may do that is not signed in.
use lan_chat_next.Prelude.{ℕ, ◌≡◌, refl, Bool, true, false, pos}
use lan_chat_next.Protocol.{MsgType}
use lan_chat_next.Json.{Object}
use lan_chat_next.Env.{Env}
use lan_chat_next.Server.{Server, deliver_to}
use lan_chat_next.Router.{authenticated_user_id}
use lan_chat_next.Router.Accounts.{handle_profile_update}
use lan_chat_next.Router.Chat.{handle_private_message, handle_group_message, handle_file_transfer}
use lan_chat_next.Router.Groups.{handle_create_group}
use lan_chat_next.Router.Editing.{
  answer_conversation, handle_message_edit, handle_message_delete, handle_message_reaction,
  handle_read_receipt,
}
use lan_chat_next.Router.Friends.{handle_friend_request}
use lan_chat_next.Router.Dispatch.{dispatch}

-- The messages whose handlers ask for a user before they touch the database.
abbrev pub needs_user : MsgType → Bool
needs_user MsgType.send_msg = true
needs_user MsgType.send_group_msg = true
needs_user MsgType.send_file = true
needs_user MsgType.create_group = true
needs_user MsgType.user_profile_update = true
needs_user MsgType.friend_request = true
needs_user MsgType.message_edit = true
needs_user MsgType.message_delete = true
needs_user MsgType.message_reaction = true
needs_user MsgType.read_receipt = true
needs_user other = false

-- If a session is not signed in, then what it sends of the types private, group or file message,
-- new group, profile, friend request, edit, deletion, reaction or read receipt changes nothing in the
-- database, whatever the request has in it.
pub dispatch_signed_out :
    (env : Env) (id : ℕ) (request : Object) (type : MsgType) (s : Server)
    → (s.sessions.heap id).user_id ≡ pos 0
    → needs_user type ≡ true
    → (dispatch env id request type s).1.db ≡ s.db
unfolding dispatch authenticated_user_id deliver_to answer_conversation handle_private_message
    handle_group_message handle_file_transfer handle_create_group handle_profile_update
    handle_friend_request handle_message_edit handle_message_delete handle_message_reaction
    handle_read_receipt
dispatch_signed_out env id request MsgType.send_msg s out h = rw out refl
dispatch_signed_out env id request MsgType.send_group_msg s out h = rw out refl
dispatch_signed_out env id request MsgType.send_file s out h = rw out refl
dispatch_signed_out env id request MsgType.create_group s out h = rw out refl
dispatch_signed_out env id request MsgType.user_profile_update s out h = rw out refl
dispatch_signed_out env id request MsgType.friend_request s out h = rw out refl
dispatch_signed_out env id request MsgType.message_edit s out h = rw out refl
dispatch_signed_out env id request MsgType.message_delete s out h = rw out refl
dispatch_signed_out env id request MsgType.message_reaction s out h = rw out refl
dispatch_signed_out env id request MsgType.read_receipt s out h = rw out refl
dispatch_signed_out env id request other s out h = cc

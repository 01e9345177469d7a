-- ===== src/Router.antt =====
-- src/server/src/MessageRouter.cpp: the objects that the handlers answer with, and the functions
-- that several handlers call. The handlers are in the modules below.
pub mod Accounts
pub mod Chat
pub mod Groups
pub mod Editing
pub mod Friends
pub mod Assistant
pub mod Dispatch
pub mod Guards
use Prim.Native.String.{◌++◌ as str_append, slice}
use lan_chat_next.Prelude.{
  ℕ, zero, suc, ◌+◌, String, Bool, true, false, not, ◌&&◌, Option, none, some, List, [], ◌∷◌, ◌++◌,
  map, ℤ, pos, positive, is_nil, length, ◌==◌, int_eq, string_eq, if◌then◌else◌, Exec, ◌>>=◌, ◌>>◌,
  pure, gets, skip, for_each, when, to_string,
}
use lan_chat_next.Protocol.{MsgType, to_int}
use lan_chat_next.Json.{Value, Object, put, items, object, with_fields}
use lan_chat_next.Records.{UserInfo, StoredMessage, ChannelInfo}
use lan_chat_next.Env.{Env, Bytes}
use lan_chat_next.Json.Printer.{serialize}
use lan_chat_next.PresenceManager.{status}
use lan_chat_next.MessageRepository.{offline_for_user}
use lan_chat_next.ChannelRepository.{members}
use lan_chat_next.UserRepository.{find_by_id}
use lan_chat_next.FriendRepository.{get_friends}
use lan_chat_next.Server.{
  Server, Handler, on_db, send, deliver_if, session_of, user_of, deliver_to_users,
}

abbrev pub type_value : MsgType → Value
type_value t = Value.int (to_int t)

-- `userToJson`, and `friendToJson` which calls it
unfoldable pub user_to_json : UserInfo → String → Object
user_to_json user status = object (
    ("id", Value.int user.id)
    ∷ ("nickname", Value.str user.nickname)
    ∷ ("headId", Value.int user.avatar_id)
    ∷ ("status", Value.str status)
    ∷ [])

-- `groupToJson`
unfoldable pub group_to_json : ChannelInfo → Object
group_to_json group = object (
    ("groupId", Value.int group.group_id)
    ∷ ("name", Value.str group.name)
    ∷ ("hostId", Value.int group.host_id)
    ∷ [])

-- An entry that is there only if its number is positive.
abbrev pub if_positive : String → ℤ → List (String × Value)
if_positive k n = if positive n then (k, Value.int n) ∷ [] else []

-- `messageToJson`
unfoldable pub message_to_json : MsgType → StoredMessage → Object
message_to_json type m = object (
    ("type", type_value type)
    ∷ ("msg_id", Value.int m.msg_id)
    ∷ ("fromId", Value.int m.from_id)
    ∷ (if_positive "toId" m.to_id
        ++ if_positive "groupId" m.group_id
        ++ ("msg", Value.str m.content)
          ∷ ("content_type", Value.str m.content_type)
          ∷ ("timestamp", Value.int m.timestamp)
          ∷ ("read", Value.bool m.read)
          ∷ ("edited", Value.bool m.edited)
          ∷ ("deleted", Value.bool m.deleted)
          ∷ ("edited_at", Value.int m.edited_at)
          ∷ ("deleted_at", Value.int m.deleted_at)
          ∷ (if m.reactions == "" then [] else ("reactions", Value.str m.reactions) ∷ [])))

-- `messagesToArray`
unfoldable pub messages_to_array : List StoredMessage → Value
messages_to_array ms = Value.arr (
    items (
      map
        (λ m. Value.obj (
          message_to_json
            (if positive m.group_id then MsgType.receive_group_msg else MsgType.receive_msg) m))
        ms))

-- `authenticatedUserId`: 0 for a session that is not signed in.
unfoldable pub authenticated_user_id : ℕ → Exec Server ℤ
authenticated_user_id id = user_of id

-- `deliverToConversation`
unfoldable pub deliver_to_conversation : Env → Bytes → ℤ → ℤ → ℤ → Handler
deliver_to_conversation env payload sender to group =
    if positive group
    then (on_db (members env group) >>= λ users. deliver_to_users payload users)
    else (session_of sender >>= λ s.
        deliver_if s payload
        >> when (positive to && not (to == sender))
            (session_of to >>= λ target. deliver_if target payload))

-- `deliverOffline`
unfoldable pub deliver_offline : Env → ℕ → ℤ → Handler
deliver_offline env id user = on_db (offline_for_user env user (pos 100)) >>= λ offline.
    when (not (is_nil offline)) (
      send env id (
        object (
          ("type", type_value MsgType.offline_messages)
          ∷ ("messages", messages_to_array offline)
          ∷ [])))

-- The text of `broadcastPresence`.
unfoldable pub presence_payload : ℤ → Bool → UserInfo → Object
presence_payload user online info = object (
    ("type", type_value MsgType.friend_online)
    ∷ ("friendId", Value.int user)
    ∷ ("status", Value.str (if online then "ok" else "failed"))
    ∷ ("nickname", Value.str info.nickname)
    ∷ ("headId", Value.int info.avatar_id)
    ∷ [])

abbrev pub broadcast_found : Env → ℤ → Bool → Option UserInfo → Handler
broadcast_found env user online none = skip
broadcast_found env user online (some info) = on_db (get_friends env user) >>= λ friends.
    deliver_to_users (serialize env (Value.obj (presence_payload user online info)))
      (map (λ f. f.id) friends)

-- `broadcastPresence`: `online` is whether `type` is UserOnline.
unfoldable pub broadcast_presence : Env → Bool → ℤ → Handler
broadcast_presence env online user =
    on_db (find_by_id env user) >>= λ info. broadcast_found env user online info

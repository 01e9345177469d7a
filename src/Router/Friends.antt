-- ===== src/Router/Friends.antt =====
-- Friend requests and friendships.
use Prim.Native.String.{◌++◌ as str_append}
use lan_chat_next.Prelude.{
  ℕ, String, Bool, true, false, ◌&&◌, Option, none, some, List, [], ◌∷◌, ◌++◌, map, ℤ, pos,
  positive, ◌==◌, int_eq, string_eq, nat_eq, if◌then◌else◌, Exec, ◌>>=◌, ◌>>◌, pure, gets,
  to_string,
}
use lan_chat_next.Protocol.{MsgType}
use lan_chat_next.Json.{Value, Object, items, object}
use lan_chat_next.ProtocolJson.{int_field, string_field}
use lan_chat_next.Records.{UserInfo}
use lan_chat_next.Env.{Env}
use lan_chat_next.Json.Printer.{serialize}
use lan_chat_next.Server.{Server, Handler, on_db, send, deliver_if, session_of}
use lan_chat_next.Router.{type_value, user_to_json, authenticated_user_id}
use lan_chat_next.PresenceManager.{status}
use lan_chat_next.UserRepository.{find_by_id}
use lan_chat_next.FriendRepository.{
  send_request, accept_request, reject_request, remove_friendship, get_friends,
}

abbrev request_ack : ℤ → ℤ → List (String × Value) → Object
request_ack from to entries = object (
    ("type", type_value MsgType.friend_request_ack)
    ∷ ("requestId", Value.str (str_append (to_string from) (str_append ":" (to_string to))))
    ∷ entries)

abbrev pub request_sent : Env → ℕ → ℤ → ℤ → String → Bool → Handler
request_sent env id from to msg false = send env id (
    request_ack from to (
      ("status", Value.str "error")
      ∷ ("msg", Value.str "friend request failed")
      ∷ ("code", Value.int (pos 400))
      ∷ []))
request_sent env id from to msg true =
    send env id
      (request_ack from to (("status", Value.str "ok") ∷ ("msg", Value.str "request sent") ∷ []))
    >> session_of to
    >>= λ target. deliver_if target (
        serialize env (
          Value.obj (
            object (
              ("type", type_value MsgType.friend_request)
              ∷ ("fromId", Value.int from)
              ∷ ("toId", Value.int to)
              ∷ ("msg", Value.str msg)
              ∷ []))))

-- `handleFriendRequest`
unfoldable pub handle_friend_request : Env → ℕ → Object → Handler
handle_friend_request env id request =
    let to = int_field request "toId" (pos 0) in
    let msg = string_field request "msg" "" in
    authenticated_user_id id >>= λ from.
    (if positive from && positive to then on_db (send_request env from to msg) else pure false)
    >>= λ done. request_sent env id from to msg done

abbrev user_entries : Option UserInfo → List (String × Value)
user_entries none = []
user_entries (some u) = ("nickname", Value.str u.nickname) ∷ ("headId", Value.int u.avatar_id) ∷ []

-- The object that `deliverAccepted` builds.
unfoldable pub accepted_response : Bool → ℤ → Option UserInfo → Object
accepted_response done friend info = object (
    ("type", type_value MsgType.friend_accept_return)
    ∷ ("status", Value.str (if done then "ok" else "error"))
    ∷ ("friendId", Value.int friend)
    ∷ (user_entries info
        ++ (if done
            then []
            else ("msg", Value.str "accept failed") ∷ ("code", Value.int (pos 400)) ∷ [])))

-- `handleFriendAccept`
unfoldable pub handle_friend_accept : Env → ℕ → Object → Handler
handle_friend_accept env id request =
    let from = int_field request "fromId" (pos 0) in
    authenticated_user_id id >>= λ to.
    (if positive from && positive to then on_db (accept_request env from to) else pure false)
    >>= λ done. on_db (find_by_id env from) >>= λ from_user.
        on_db (find_by_id env to) >>= λ to_user.
        send env id (accepted_response done from from_user) >> session_of from >>= λ target.
        deliver_if target (serialize env (Value.obj (accepted_response done to to_user)))

-- The object that `deliverRemoved` builds; `rejected` is whether both `notifyReject` and
-- `rejectedPending` hold.
unfoldable pub removed_response : Bool → Bool → ℤ → Object
removed_response done rejected friend = object (
    ("type", type_value MsgType.friend_remove_return)
    ∷ ("status", Value.str (if done then "ok" else "error"))
    ∷ ("friendId", Value.int friend)
    ∷ ((if rejected then ("msg", Value.str "request rejected") ∷ [] else [])
        ++ (if done
            then []
            else ("msg", Value.str "remove failed") ∷ ("code", Value.int (pos 400)) ∷ [])))

-- Whether a pending request was rejected, and whether anything was done.
unfoldable pub reject_or_remove : Env → ℤ → ℤ → ℤ → Exec Server (Bool × Bool)
reject_or_remove env user from to =
    if positive user && positive from && positive to
    then ((if user == to then on_db (reject_request env from to) else pure false) >>= λ rejected.
        (if rejected then pure true else on_db (remove_friendship from to)) >>= λ done.
        pure (rejected, done))
    else pure (false, false)

-- `handleFriendRemove`
unfoldable pub handle_friend_remove : Env → ℕ → Object → Handler
handle_friend_remove env id request =
    let from = int_field request "fromId" (pos 0) in
    let to = int_field request "toId" (pos 0) in
    authenticated_user_id id >>= λ user.
    let friend = if user == from then to else from in
    reject_or_remove env user from to >>= λ outcome.
    send env id (removed_response outcome.1 outcome.0 friend) >> session_of friend >>= λ target.
    deliver_if target (serialize env (Value.obj (removed_response outcome.1 outcome.0 user)))

-- `handleFriendList`
unfoldable pub handle_friend_list : Env → ℕ → Object → Handler
handle_friend_list env id request = authenticated_user_id id >>= λ user.
    on_db (get_friends env user) >>= λ friends. gets (λ s. s.presence) >>= λ presence. send env id (
      object (
        ("type", type_value MsgType.friend_list_return)
        ∷ (
          "friends",
          Value.arr (items (map (λ u. Value.obj (user_to_json u (status u.id presence))) friends)),
        )
        ∷ []))

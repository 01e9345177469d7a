-- ===== src/Router/Groups.antt =====
-- Groups.
use lan_chat_next.Prelude.{
  ℕ, String, Bool, true, false, not, ◌||◌, Option, none, some, List, [], ◌∷◌, map, ℤ, pos, positive,
  ◌==◌, int_eq, string_eq, nat_eq, if◌then◌else◌, Exec, ◌>>=◌, ◌>>◌, pure, gets,
}
use lan_chat_next.Protocol.{MsgType}
use lan_chat_next.Json.{Value, Object, items, object, with_fields}
use lan_chat_next.ProtocolJson.{int_field, string_field, ok_response, error_response}
use lan_chat_next.Records.{UserInfo}
use lan_chat_next.Env.{Env}
use lan_chat_next.Server.{Server, Handler, on_db, send}
use lan_chat_next.Router.{type_value, user_to_json, group_to_json, authenticated_user_id}
use lan_chat_next.PresenceManager.{status}
use lan_chat_next.UserRepository.{find_by_id}
use lan_chat_next.ChannelRepository.{create_group, search_groups, join, leave, members}

-- `handleCreateGroup`
unfoldable pub handle_create_group : Env → ℕ → Object → Handler
handle_create_group env id request =
    let name = string_field request "name" "" in
    authenticated_user_id id >>= λ host.
    if not (positive host) || name == ""
    then send env id (error_response MsgType.create_group_return 400 "hostId and name required")
    else (on_db (create_group env host name) >>= λ group. send env id (
        with_fields (group_to_json group)
          (("type", type_value MsgType.create_group_return) ∷ ("status", Value.str "ok") ∷ [])))

-- `handleSearchGroup`
unfoldable pub handle_search_group : Env → ℕ → Object → Handler
handle_search_group env id request =
    on_db (search_groups env (string_field request "name" "") (int_field request "limit" (pos 20)))
    >>= λ groups. send env id (
        object (
          ("type", type_value MsgType.search_group_return)
          ∷ ("status", Value.str "ok")
          ∷ ("groups", Value.arr (items (map (λ g. Value.obj (group_to_json g)) groups)))
          ∷ []))

abbrev pub add_member : String → Option UserInfo → List Value → List Value
add_member status none vs = vs
add_member status (some u) vs = Value.obj (user_to_json u status) ∷ vs

-- The loop over the members in `handleJoinGroup`.
unfoldable pub member_values : Env → List ℤ → Exec Server (List Value)
member_values env [] = pure []
member_values env (user ∷ users) = do
  info ← on_db (find_by_id env user)
  shown ← gets (λ s. status user s.presence)
  rest ← member_values env users
  pure (add_member shown info rest)

abbrev pub joined_answer : Env → ℕ → ℤ → Bool → Handler
joined_answer env id group false =
    send env id (error_response MsgType.join_group_return 404 "group not found")
joined_answer env id group true = do
  users ← on_db (members env group)
  values ← member_values env users
  send env id (
      object (
        ("type", type_value MsgType.join_group_return)
        ∷ ("status", Value.str "ok")
        ∷ ("groupId", Value.int group)
        ∷ ("users", Value.arr (items values))
        ∷ []))

-- `handleJoinGroup`
unfoldable pub handle_join_group : Env → ℕ → Object → Handler
handle_join_group env id request =
    let group = int_field request "groupId" (pos 0) in
    authenticated_user_id id >>= λ user.
    on_db (join env user group) >>= λ found. joined_answer env id group found

-- `handleLeaveGroup`
unfoldable pub handle_leave_group : Env → ℕ → Object → Handler
handle_leave_group env id request = authenticated_user_id id >>= λ user.
    on_db (leave env user (int_field request "groupId" (pos 0)))
    >> send env id (ok_response MsgType.system_broadcast "left group")

-- ===== src/Router/Accounts.antt =====
-- Registering, signing in and out, and profiles.
use lan_chat_next.Prelude.{
  ℕ, Bool, true, false, not, ◌||◌, Option, none, some, List, [], ◌∷◌, map, ℤ, pos, positive, ◌==◌,
  int_eq, string_eq, nat_eq, if◌then◌else◌, ◌>>=◌, ◌>>◌, pure, gets, when,
}
use lan_chat_next.Protocol.{MsgType}
use lan_chat_next.Json.{Value, Object, items, object}
use lan_chat_next.ProtocolJson.{int_field, string_field, ok_response, error_response}
use lan_chat_next.Records.{UserInfo, ChannelInfo}
use lan_chat_next.Env.{Env}
use lan_chat_next.Server.{Handler, on_db, on_sessions, on_presence, send}
use lan_chat_next.Router.{
  type_value, user_to_json, group_to_json, authenticated_user_id, deliver_offline,
  broadcast_presence,
}
use lan_chat_next.PresenceManager.{Presence, status, set_online, set_offline}
use lan_chat_next.SessionPool.{bind_user, unbind_user}
use lan_chat_next.UserRepository.{
  create, verify_password, find_by_id, set_online_status, get_all_users, update_profile,
}
use lan_chat_next.ChannelRepository.{groups_for_user}
use lan_chat_next.FriendRepository.{get_friends}

abbrev pub registered : Env → ℕ → ℤ → Handler
registered env id user =
    if not (positive user)
    then send env id (error_response MsgType.register_user_return 409 "nickname taken or invalid")
    else send env id (
        object (
          ("type", type_value MsgType.register_user_return)
          ∷ ("status", Value.str "ok")
          ∷ ("id", Value.int user)
          ∷ ("msg", Value.str "registered")
          ∷ []))

-- `handleRegister`
unfoldable pub handle_register : Env → ℕ → Object → Handler
handle_register env id request =
    let nickname = string_field request "nickname" (string_field request "name" "") in
    let password = string_field request "password" "" in
    let avatar_id = int_field request "headId" (pos 0) in
    if nickname == "" || password == ""
    then send env id
        (error_response MsgType.register_user_return 400 "nickname and password required")
    else (on_db (create env password nickname avatar_id) >>= λ user. registered env id user)

-- The users with their status, as an array.
abbrev users_array : Presence → List UserInfo → Value
users_array presence users =
    Value.arr (items (map (λ u. Value.obj (user_to_json u (status u.id presence))) users))

-- The answer to a login.
unfoldable pub login_response :
    Presence → ℤ → UserInfo → List UserInfo → List UserInfo → List ChannelInfo → Object
login_response presence user info users friends groups = object (
    ("type", type_value MsgType.login_success_return)
    ∷ ("id", Value.int user)
    ∷ ("nickname", Value.str info.nickname)
    ∷ ("headId", Value.int info.avatar_id)
    ∷ ("friends", users_array presence friends)
    ∷ ("users", users_array presence users)
    ∷ ("groups", Value.arr (items (map (λ g. Value.obj (group_to_json g)) groups)))
    ∷ [])

-- The part of `handleLogin` for a user that is found.
unfoldable pub login_found : Env → ℕ → ℤ → UserInfo → Handler
login_found env id user info = do
  on_sessions (λ p. (bind_user id user p).1)
  on_presence (set_online user "online")
  on_db (set_online_status env user true)
  users ← on_db (get_all_users env)
  friends ← on_db (get_friends env user)
  groups ← on_db (groups_for_user env user)
  presence ← gets (λ s. s.presence)
  send env id (login_response presence user info users friends groups)
  deliver_offline env id user
  broadcast_presence env true user

abbrev pub login_verified : Env → ℕ → ℤ → Option UserInfo → Handler
login_verified env id user none =
    send env id (error_response MsgType.login_failed_return 404 "user not found")
login_verified env id user (some info) = login_found env id user info

abbrev pub login_checked : Env → ℕ → ℤ → Bool → Handler
login_checked env id user false =
    send env id (error_response MsgType.login_failed_return 401 "invalid credentials")
login_checked env id user true =
    on_db (find_by_id env user) >>= λ info. login_verified env id user info

-- `handleLogin`
unfoldable pub handle_login : Env → ℕ → Object → Handler
handle_login env id request =
    let user = int_field request "id" (pos 0) in
    let password = string_field request "password" "" in
    (if positive user then on_db (verify_password env user password) else pure false) >>= λ passes.
    login_checked env id user passes

-- `handleLogout`
unfoldable pub handle_logout : Env → ℕ → Object → Handler
handle_logout env id request = do
  user ← authenticated_user_id id
  when (positive user) (do
    on_presence (set_offline user)
    on_db (set_online_status env user false)
    on_sessions (unbind_user user)
    broadcast_presence env false user)
  send env id (ok_response MsgType.system_broadcast "logged out")

abbrev pub profile_answer : Env → ℕ → Bool → Handler
profile_answer env id false =
    send env id (error_response MsgType.system_broadcast 404 "user not found")
profile_answer env id true = send env id (ok_response MsgType.system_broadcast "profile updated")

-- `handleProfileUpdate`
unfoldable pub handle_profile_update : Env → ℕ → Object → Handler
handle_profile_update env id request =
    let nickname = string_field request "nickname" "" in
    let avatar_id = int_field request "headId" (pos 0) in
    authenticated_user_id id >>= λ user.
    if not (positive user) || nickname == ""
    then send env id (error_response MsgType.system_broadcast 400 "id and nickname required")
    else (on_db (update_profile env user nickname avatar_id) >>= λ found.
        profile_answer env id found)

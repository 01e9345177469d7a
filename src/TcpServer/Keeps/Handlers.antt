-- ===== src/TcpServer/Keeps/Handlers.antt =====
-- The handlers of accounts, messages, groups and edits of src/server/src/MessageRouter.cpp and the
-- invariant of the sessions.
use lan_chat_next.Prelude.{
  ℕ, Bool, true, false, Option, none, some, List, [], ◌∷◌, ℤ, ◌>>=◌, pure, gets, Exec,
}
use lan_chat_next.Json.{Value, Object}
use lan_chat_next.Records.{UserInfo}
use lan_chat_next.Env.{Env, Bytes}
use lan_chat_next.TcpServer.Keeps.Actions.{Keeps, Keeps-attempt, keeps_rules}
use lan_chat_next.Server.{Server, on_db}
use lan_chat_next.UserRepository.{find_by_id}
use lan_chat_next.PresenceManager.{status}
use lan_chat_next.Router.{
  authenticated_user_id, deliver_to_conversation, deliver_offline, broadcast_found,
  broadcast_presence,
}
use lan_chat_next.Router.Accounts.{
  login_found, login_verified, login_checked, profile_answer, handle_register, handle_login,
  handle_logout, handle_profile_update,
}
use lan_chat_next.Router.Chat.{
  handle_private_message, handle_group_message, handle_file_transfer, handle_history,
}
use lan_chat_next.Router.Groups.{
  add_member, member_values, joined_answer, handle_create_group, handle_search_group,
  handle_join_group, handle_leave_group,
}
use lan_chat_next.Router.Editing.{
  answer_conversation, handle_message_edit, handle_message_delete, handle_message_reaction,
  handle_read_receipt,
}

pub Keeps-authenticated_user_id : (id : ℕ) → Keeps (authenticated_user_id id)
unfolding authenticated_user_id
Keeps-authenticated_user_id id = search keeps_rules

pub ruleset handler_rules = (keeps_rules, Keeps-authenticated_user_id)

Keeps-deliver_to_conversation :
    (env : Env) (payload : Bytes) (sender to group : ℤ)
    → Keeps (deliver_to_conversation env payload sender to group)
unfolding deliver_to_conversation
Keeps-deliver_to_conversation env payload sender to group = search handler_rules depth 24

Keeps-deliver_offline : (env : Env) (id : ℕ) (user : ℤ) → Keeps (deliver_offline env id user)
unfolding deliver_offline
Keeps-deliver_offline env id user = search handler_rules depth 24

Keeps-broadcast_found :
    (env : Env) (user : ℤ) (online : Bool) (info : Option UserInfo)
    → Keeps (broadcast_found env user online info)
Keeps-broadcast_found env user online none = search handler_rules depth 24
Keeps-broadcast_found env user online (some info) = search handler_rules depth 24

Keeps-broadcast_presence :
    (env : Env) (online : Bool) (user : ℤ) → Keeps (broadcast_presence env online user)
unfolding broadcast_presence
Keeps-broadcast_presence env online user = search (handler_rules, Keeps-broadcast_found) depth 24

pub Keeps-handle_register :
    (env : Env) (id : ℕ) (request : Object) → Keeps (handle_register env id request)
unfolding handle_register
Keeps-handle_register env id request = search handler_rules depth 24

Keeps-login_found :
    (env : Env) (id : ℕ) (user : ℤ) (info : UserInfo) → Keeps (login_found env id user info)
unfolding login_found
Keeps-login_found env id user info =
    search (handler_rules, Keeps-deliver_offline, Keeps-broadcast_presence) depth 24

Keeps-login_verified :
    (env : Env) (id : ℕ) (user : ℤ) (info : Option UserInfo)
    → Keeps (login_verified env id user info)
Keeps-login_verified env id user none = search handler_rules depth 24
Keeps-login_verified env id user (some info) = search (handler_rules, Keeps-login_found) depth 24

Keeps-login_checked :
    (env : Env) (id : ℕ) (user : ℤ) (passes : Bool) → Keeps (login_checked env id user passes)
Keeps-login_checked env id user true = search (handler_rules, Keeps-login_verified) depth 24
Keeps-login_checked env id user false = search handler_rules depth 24

pub Keeps-handle_login :
    (env : Env) (id : ℕ) (request : Object) → Keeps (handle_login env id request)
unfolding handle_login
Keeps-handle_login env id request = search (handler_rules, Keeps-login_checked) depth 24

pub Keeps-handle_logout :
    (env : Env) (id : ℕ) (request : Object) → Keeps (handle_logout env id request)
unfolding handle_logout
Keeps-handle_logout env id request = search (handler_rules, Keeps-broadcast_presence) depth 24

Keeps-profile_answer : (env : Env) (id : ℕ) (found : Bool) → Keeps (profile_answer env id found)
Keeps-profile_answer env id true = search handler_rules depth 24
Keeps-profile_answer env id false = search handler_rules depth 24

pub Keeps-handle_profile_update :
    (env : Env) (id : ℕ) (request : Object) → Keeps (handle_profile_update env id request)
unfolding handle_profile_update
Keeps-handle_profile_update env id request = search (handler_rules, Keeps-profile_answer) depth 24

pub Keeps-handle_private_message :
    (env : Env) (id : ℕ) (request : Object) → Keeps (handle_private_message env id request)
unfolding handle_private_message
Keeps-handle_private_message env id request = search handler_rules depth 24

pub Keeps-handle_group_message :
    (env : Env) (id : ℕ) (request : Object) → Keeps (handle_group_message env id request)
unfolding handle_group_message
Keeps-handle_group_message env id request = search handler_rules depth 24

pub Keeps-handle_file_transfer :
    (env : Env) (id : ℕ) (request : Object) → Keeps (handle_file_transfer env id request)
unfolding handle_file_transfer
Keeps-handle_file_transfer env id request =
    search (handler_rules, Keeps-deliver_to_conversation) depth 24

pub Keeps-handle_history :
    (env : Env) (id : ℕ) (request : Object) → Keeps (handle_history env id request)
unfolding handle_history
Keeps-handle_history env id request = search handler_rules depth 24

pub Keeps-handle_create_group :
    (env : Env) (id : ℕ) (request : Object) → Keeps (handle_create_group env id request)
unfolding handle_create_group
Keeps-handle_create_group env id request = search handler_rules depth 24

pub Keeps-handle_search_group :
    (env : Env) (id : ℕ) (request : Object) → Keeps (handle_search_group env id request)
unfolding handle_search_group
Keeps-handle_search_group env id request = search handler_rules depth 24

Keeps-add_member :
    (env : Env) (user : ℤ) (rest : Exec Server (List Value))
    → Keeps rest
    → Keeps (
        on_db (find_by_id env user) >>= λ info. gets (λ s. status user s.presence) >>= λ shown.
        rest >>= λ vs. pure (add_member shown info vs))
Keeps-add_member env user rest k = search handler_rules depth 24

Keeps-member_values : (env : Env) (users : List ℤ) → Keeps (member_values env users)
unfolding member_values
Keeps-member_values env [] = search handler_rules
Keeps-member_values env (user ∷ users) =
    Keeps-add_member env user (member_values env users) (Keeps-member_values env users)

Keeps-joined_answer :
    (env : Env) (id : ℕ) (group : ℤ) (found : Bool) → Keeps (joined_answer env id group found)
Keeps-joined_answer env id group true = search (handler_rules, Keeps-member_values) depth 24
Keeps-joined_answer env id group false = search handler_rules depth 24

pub Keeps-handle_join_group :
    (env : Env) (id : ℕ) (request : Object) → Keeps (handle_join_group env id request)
unfolding handle_join_group
Keeps-handle_join_group env id request = search (handler_rules, Keeps-joined_answer) depth 24

pub Keeps-handle_leave_group :
    (env : Env) (id : ℕ) (request : Object) → Keeps (handle_leave_group env id request)
unfolding handle_leave_group
Keeps-handle_leave_group env id request = search handler_rules depth 24

Keeps-answer_conversation :
    (env : Env) (id : ℕ) (done : Bool) (response : Object) (from to group : ℤ)
    → Keeps (answer_conversation env id done response from to group)
unfolding answer_conversation
Keeps-answer_conversation env id done response from to group =
    search (handler_rules, Keeps-deliver_to_conversation) depth 24

pub Keeps-handle_message_edit :
    (env : Env) (id : ℕ) (request : Object) → Keeps (handle_message_edit env id request)
unfolding handle_message_edit
Keeps-handle_message_edit env id request =
    search (handler_rules, Keeps-answer_conversation) depth 24

pub Keeps-handle_message_delete :
    (env : Env) (id : ℕ) (request : Object) → Keeps (handle_message_delete env id request)
unfolding handle_message_delete
Keeps-handle_message_delete env id request =
    search (handler_rules, Keeps-answer_conversation) depth 24

pub Keeps-handle_message_reaction :
    (env : Env) (id : ℕ) (request : Object) → Keeps (handle_message_reaction env id request)
unfolding handle_message_reaction
Keeps-handle_message_reaction env id request =
    search (handler_rules, Keeps-answer_conversation) depth 24

pub Keeps-handle_read_receipt :
    (env : Env) (id : ℕ) (request : Object) → Keeps (handle_read_receipt env id request)
unfolding handle_read_receipt
Keeps-handle_read_receipt env id request =
    search (handler_rules, Keeps-deliver_to_conversation) depth 24

-- ===== src/Server.antt =====
-- The state that the handlers share (the members of `LanChatServer` and `TcpServer`), and how a
-- text reaches a session.
pub mod Delivery
use lan_chat_next.Prelude.{
  ℕ, String, Bool, true, false, Option, none, some, List, [], ◌∷◌, ℤ, pos, ◌==◌, int_eq,
  if◌then◌else◌, Exec, Result, ok, err, ◌>>=◌, ◌>>◌, pure, gets, modify, skip, for_each, when,
}
use lan_chat_next.Json.{Value, Object}
use lan_chat_next.Env.{Env, Bytes}
use lan_chat_next.Json.Printer.{serialize}
use lan_chat_next.Database.{Database}
use lan_chat_next.PresenceManager.{Presence}
use lan_chat_next.AsyncSession.{Session, deliver}
use lan_chat_next.SessionPool.{Sessions, update_session, find_by_user_id}

pub record Server : Type 0 where
  pub db : Database
  pub sessions : Sessions
  pub presence : Presence
  -- `AsyncSession::next_id_`
  pub next_id : ℕ

abbrev pub Handler : Type 0
Handler = Exec Server (Unit {0})

-- A call of a repository.
abbrev pub on_db : {A : Type 0} → Exec Database A → Exec Server A
on_db m s = ((m s.db).0, record s { db = (m s.db).1 })

abbrev pub on_sessions : (Sessions → Sessions) → Handler
on_sessions f = modify λ s. record s { sessions = f s.sessions }

abbrev pub on_presence : (Presence → Presence) → Handler
on_presence f = modify λ s. record s { presence = f s.presence }

-- session->deliver(json)
unfoldable pub deliver_to : ℕ → Bytes → Handler
deliver_to id json s = (
  (deliver json (s.sessions.heap id)).0,
  record s { sessions = update_session id (λ x. (deliver json x).1) s.sessions },
)

-- session->deliver(protocol_json::serialize(object))
abbrev pub send : Env → ℕ → Object → Handler
send env id o = deliver_to id (serialize env (Value.obj o))

-- if (session) session->deliver(json);
abbrev pub deliver_if : Option ℕ → Bytes → Handler
deliver_if none json = skip
deliver_if (some id) json = deliver_to id json

-- sessions_.findByUserId(user)
abbrev pub session_of : ℤ → Exec Server (Option ℕ)
session_of user = gets λ s. find_by_user_id user s.sessions

-- session->userId()
abbrev pub user_of : ℕ → Exec Server ℤ
user_of id = gets λ s. (s.sessions.heap id).user_id

-- Delivers to each of these users that is found.
unfoldable pub deliver_to_users : Bytes → List ℤ → Handler
deliver_to_users json users =
    for_each users λ user. session_of user >>= λ target. deliver_if target json

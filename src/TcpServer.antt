-- ===== src/TcpServer.antt =====
-- src/server/src/TcpServer.cpp, and the handlers of AsyncSession.cpp that call it: what the server
-- does when the network or the timer has something to report. Asio calls them one at a time, since
-- one thread runs the io_context; a socket that is closed and the timer start nothing here but
-- their next event.
pub mod Keeps
pub mod Faults
pub mod Requests
pub mod Pieces
use lan_chat_next.Prelude.{
  ℕ, zero, suc, ◌+◌, ◌-◌, String, Bool, true, false, not, ◌&&◌, ◌||◌, Option, none, some, List, [],
  ◌∷◌, ◌++◌, ℤ, pos, positive, ◌==◌, int_eq, nat_eq, if◌then◌else◌, Exec, Result, ok, err, ◌>>=◌,
  ◌>>◌, pure, gets, skip, modify, for_each, when, keep,
}
use lan_chat_next.Protocol.{MsgType, to_int}
use lan_chat_next.Json.{Value, Object, object}
use lan_chat_next.ProtocolJson.{type_field, ok_response}
use lan_chat_next.Records.{UserInfo}
use lan_chat_next.Env.{Env, Bytes}
use lan_chat_next.Json.Printer.{serialize}
use lan_chat_next.FrameCodec.{drain_all}
use lan_chat_next.AsyncSession.{
  Session, new_session, start, close, consume_rate_limit_token, heartbeat_received, write_done,
  write_failed, cap_accumulator,
}
use lan_chat_next.SessionPool.{
  Sessions, update_session, add, remove, find_session, all_sessions, timed_out, size,
}
use lan_chat_next.PresenceManager.{set_offline}
use lan_chat_next.UserRepository.{set_online_status, find_by_id}
use lan_chat_next.Server.{Server, Handler, on_db, on_sessions, on_presence, deliver_to, send}
use lan_chat_next.Router.{type_value}
use lan_chat_next.Router.Dispatch.{parse_object, route}

-- `broadcast`; session ids begin at 1, so that the default 0 excludes none
unfoldable pub broadcast : Bytes → ℕ → Handler
broadcast json exclude = gets (λ s. all_sessions s.sessions) >>= λ ids.
    for_each ids (λ id. when (not (id == exclude)) (deliver_to id json))

-- The object that `markOfflineAndBroadcast` sends.
unfoldable pub offline_payload : ℤ → UserInfo → Object
offline_payload user info = object (
    ("type", type_value MsgType.user_offline)
    ∷ ("id", Value.int user)
    ∷ ("nickname", Value.str info.nickname)
    ∷ [])

abbrev pub broadcast_offline : Env → ℤ → Option UserInfo → Handler
broadcast_offline env user none = skip
broadcast_offline env user (some info) =
    broadcast (serialize env (Value.obj (offline_payload user info))) 0

-- `markOfflineAndBroadcast`
unfoldable pub mark_offline_and_broadcast : Env → ℤ → Handler
mark_offline_and_broadcast env user =
    on_presence (set_offline user)
    >> on_db (set_online_status env user false)
    >> on_db (find_by_id env user)
    >>= λ info. broadcast_offline env user info

abbrev user_at : Option ℕ → Sessions → ℤ
user_at none p = pos 0
user_at (some id) p = (p.heap id).user_id

-- `removeSession`
unfoldable pub remove_session : Env → ℕ → Handler
remove_session env id = gets (λ s. user_at (find_session id s.sessions) s.sessions) >>= λ user.
    on_sessions (remove id) >> when (positive user) (mark_offline_and_broadcast env user)

-- A change of the session object itself.
abbrev pub on_session : ℕ → (Session → Session) → Handler
on_session id f = on_sessions (update_session id f)

-- `consumeRateLimitToken` of the session, and its answer.
unfoldable pub take_token : Env → ℕ → Exec Server Bool
take_token env id =
    gets (λ s. (consume_rate_limit_token env.steady_now (s.sessions.heap id)).0) >>= λ passes.
    on_session id (λ x. (consume_rate_limit_token env.steady_now x).1) >> pure passes

abbrev is_heartbeat_type : MsgType → Bool
is_heartbeat_type MsgType.heartbeat = true
is_heartbeat_type other = false

abbrev is_heartbeat : Option Object → Bool
is_heartbeat none = false
is_heartbeat (some request) = is_heartbeat_type (type_field request)

-- `AsyncSession::onMessage`
unfoldable pub on_message : Env → ℕ → Bytes → Handler
on_message env id json = take_token env id >>= λ passes.
    if not passes
    then (remove_session env id >> on_session id close)
    else if is_heartbeat (parse_object env json)
    then (on_session id (heartbeat_received env.steady_now)
        >> send env id (ok_response MsgType.heartbeat_ack "ok"))
    else route env id json

abbrev pub append_bytes : Bytes → Session → Session
append_bytes bytes x = record x { read_accumulator = x.read_accumulator ++ bytes }

abbrev pub keep_rest : Session → Session
keep_rest x = record x { read_accumulator = (drain_all x.read_accumulator).1 }

-- The handler of a read of `AsyncSession::doRead` that brought these bytes. The messages are taken
-- from the buffer before they are handled, which no handler can see.
unfoldable pub read_done : Env → ℕ → Bytes → Handler
read_done env id bytes =
    on_session id (append_bytes bytes)
    >> gets (λ s. (drain_all (s.sessions.heap id).read_accumulator).0)
    >>= λ messages.
        on_session id keep_rest
        >> for_each messages (λ json. on_message env id json)
        >> on_session id cap_accumulator

-- `startAccept`: the session that the next connection gets.
unfoldable pub start_accept : Env → Handler
start_accept env = modify λ s. record s {
  next_id = suc s.next_id;
  sessions = update_session s.next_id (λ x. new_session s.next_id env.steady_now) s.sessions;
}

-- The handler of `async_accept` for the session `id`.
unfoldable pub accept_done : Env → ℕ → Bool → Handler
accept_done env id failed =
    when (not failed) (
      gets (λ s. (add id s.sessions).0) >>= λ added.
      on_sessions (λ p. (add id p).1)
      >> (if added then on_session id (start env.steady_now) else on_session id close))
    >> start_accept env

-- `sweepHeartbeatTimeouts`
unfoldable pub sweep : Env → Handler
sweep env = gets (λ s. timed_out env.steady_now s.sessions) >>= λ ids.
    for_each ids (λ id. on_session id close >> remove_session env id)

-- `connectionCount`
abbrev pub connection_count : Server → ℕ
connection_count s = size s.sessions

-- The session that waits for a connection: the last one that `startAccept` has made.
abbrev pub pending_accept : Server → ℕ
pending_accept s = s.next_id - 1

-- What the io_context reports.
pub data Event : Type 0 where
  accepted : Bool → Event
  read : ℕ → Bytes → Event
  read_error : ℕ → Event
  wrote : ℕ → ℕ → Event
  write_error : ℕ → Event
  timer : Event

-- The handler of an event.
unfoldable pub handle : Env → Event → Handler
handle env (accepted failed) = gets pending_accept >>= λ id. accept_done env id failed
handle env (read id bytes) = read_done env id bytes
handle env (read_error id) = remove_session env id
handle env (wrote id bytes) = on_session id (write_done bytes)
handle env (write_error id) = on_session id write_failed
handle env timer = sweep env

-- `ctx_.run()` over the events that are reported, each with the outside world of its time: an
-- exception of a handler ends it.
unfoldable pub run_events : List (Env × Event) → Handler
run_events [] = skip
run_events ((env, event) ∷ rest) = handle env event >> run_events rest

abbrev exit_code : Result (Unit {0}) → ℕ
exit_code (ok u) = 0
exit_code (err c) = 1

-- `run`, from `startAccept` on: the exit code, and the state that is left.
unfoldable pub run : Env → List (Env × Event) → Server → ℕ × Server
run env events s = (
  exit_code ((start_accept env >> run_events events) s).0,
  ((start_accept env >> run_events events) s).1,
)

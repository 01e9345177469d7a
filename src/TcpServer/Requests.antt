-- ===== src/TcpServer/Requests.antt =====
-- A request of a client on its way from the text to its handler: `AsyncSession::onMessage`, `route`
-- and the parser together.
use lan_chat_next.Prelude.{ℕ}
use lan_chat_next.Env.{Env}
use lan_chat_next.AsyncSession.{consume_rate_limit_token}
use lan_chat_next.SessionPool.{update_session}
use lan_chat_next.Server.{Server}

abbrev pub with_token_taken : Env → ℕ → Server → Server
with_token_taken env id s = record s {
  sessions = update_session id (λ x. (consume_rate_limit_token env.steady_now x).1) s.sessions;
}

-- ===== src/AsyncSession.antt =====
-- src/server/src/AsyncSession.cpp: one client's connection. An asynchronous write is started by
-- `do_write` and ends by a call of `write_done`; the socket is whether it is open.
pub mod Writes
pub mod Drains
pub mod RateLimit
use lan_chat_next.Prelude.{
  ℕ, zero, suc, ◌+◌, ◌-◌, ◌*◌, Bool, true, false, not, List, [], ◌∷◌, ◌++◌, ℤ, pos, length, drop,
  is_nil, ltb, leb, ◌==◌, int_eq, if◌then◌else◌, Exec, Result, ok, err, proceed, modify,
}
use lan_chat_next.Env.{Bytes}
use lan_chat_next.FrameCodec.{encode, max_frame_bytes}

pub record Session : Type 0 where
  pub id : ℕ
  pub user_id : ℤ
  pub is_open : Bool
  pub read_accumulator : Bytes
  pub write_queue : List Bytes
  pub write_offset : ℕ
  pub writing : Bool
  pub last_heartbeat : ℕ
  pub rate_window_start : ℕ
  pub missed_heartbeats : ℕ
  pub messages_this_window : ℕ

-- The constructor; `id` is what `next_id_.fetch_add(1)` returned.
unfoldable pub new_session : ℕ → ℕ → Session
new_session id now = record {
  id = id;
  user_id = pos 0;
  is_open = true;
  read_accumulator = [];
  write_queue = [];
  write_offset = 0;
  writing = false;
  last_heartbeat = now;
  rate_window_start = now;
  missed_heartbeats = 0;
  messages_this_window = 0;
}

-- `authenticated`
abbrev pub authenticated : Session → Bool
authenticated s = not (s.user_id == pos 0)

-- `start`
unfoldable pub start : ℕ → Session → Session
start now s = record s { last_heartbeat = now }

-- `close`
unfoldable pub close : Session → Session
close s = record s { is_open = false }

-- `doWrite`: with a text in the queue a write of the rest of its front begins.
unfoldable pub do_write : Session → Session
do_write s = record s { writing = not (is_nil s.write_queue) }

-- `deliver`
unfoldable pub deliver : Bytes → Exec Session (Unit {0})
unfolding do_write
deliver json s = proceed (encode json) s λ frame. modify λ s.
    let queued = record s { write_queue = s.write_queue ++ frame ∷ [] } in
    if not s.writing then do_write queued else queued

-- The end of a write with an error: what was queued is dropped.
unfoldable pub write_failed : Session → Session
write_failed s = record s { write_queue = []; write_offset = 0; writing = false }

abbrev written : List Bytes → ℕ → Session → Session
written [] bytes s = s
written (front ∷ rest) bytes s =
    if ltb (s.write_offset + bytes) (length front)
    then do_write (record s { write_offset = s.write_offset + bytes })
    else do_write (record s { write_queue = rest; write_offset = 0 })

-- The end of a write of `bytes` bytes. (With an empty queue `front` would be undefined.)
unfoldable pub write_done : ℕ → Session → Session
unfolding do_write
write_done bytes s = written s.write_queue bytes s

abbrev pub second : ℕ
second = 1000000000

-- `consumeRateLimitToken`
unfoldable pub consume_rate_limit_token : ℕ → Session → Bool × Session
consume_rate_limit_token now s =
    let fresh =
      if leb second (now - s.rate_window_start)
      then record s { rate_window_start = now; messages_this_window = 0 }
      else s in
    (
      leb (suc fresh.messages_this_window) 20,
      record fresh { messages_this_window = suc fresh.messages_this_window },
    )

-- `heartbeatReceived`
unfoldable pub heartbeat_received : ℕ → Session → Session
heartbeat_received now s = record s { last_heartbeat = now; missed_heartbeats = 0 }

-- `isTimedOut`
unfoldable pub is_timed_out : ℕ → Session → Bool
is_timed_out now s = ltb (90 * second) (now - s.last_heartbeat)

-- The last part of the read handler: a buffer over the limit is cleared.
unfoldable pub cap_accumulator : Session → Session
cap_accumulator s =
    if ltb max_frame_bytes (length s.read_accumulator)
    then record s { read_accumulator = [] }
    else s

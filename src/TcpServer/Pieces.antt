-- ===== src/TcpServer/Pieces.antt =====
-- The buffer of a session over several reads: the read handler of src/server/src/AsyncSession.cpp.
use lan_chat_next.Prelude.{◌+◌, ◌≤◌, ◌<◌, List, [], ◌∷◌, ◌++◌, length}
use lan_chat_next.Env.{Bytes}
use lan_chat_next.FrameCodec.{max_frame_bytes, drain_all}
use lan_chat_next.AsyncSession.{Session, cap_accumulator}
use lan_chat_next.TcpServer.{append_bytes, keep_rest}

-- What the handler of a read does to the session's buffer, and the messages that it hands over. The
-- handlers of the messages leave the buffer alone.
abbrev pub read_piece : Bytes → Session → List Bytes × Session
read_piece bytes x = (
  (drain_all (append_bytes bytes x).read_accumulator).0,
  cap_accumulator (keep_rest (append_bytes bytes x)),
)

abbrev pub read_pieces : List Bytes → Session → List Bytes × Session
read_pieces [] x = ([], x)
read_pieces (bytes ∷ pieces) x = (
  (read_piece bytes x).0 ++ (read_pieces pieces (read_piece bytes x).1).0,
  (read_pieces pieces (read_piece bytes x).1).1,
)

abbrev pub joined : List Bytes → Bytes
joined [] = []
joined (bytes ∷ pieces) = bytes ++ joined pieces

-- A text of 1 to MaxFrameBytes - 3 bytes: a part of its frame is within the limit of the buffer.
abbrev pub Fits : Bytes → Type 0
Fits json = (0 < length json) × (length json + 3 ≤ max_frame_bytes)

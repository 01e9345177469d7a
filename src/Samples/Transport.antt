-- ===== src/Samples/Transport.antt =====
-- Frames and write queues.
use lan_chat_next.Prelude.{
  List, take, ◌≢◌, ℕ, ◌-◌, ◌≤◌, ◌≡◌, refl, true, false, [], ◌∷◌, ◌++◌, length, ok, arith,
}
use lan_chat_next.FrameCodec.{encode, try_decode, drain}
use lan_chat_next.FrameCodec.RoundTrip.{frame, try_decode-encode}
use lan_chat_next.FrameCodec.Stream.{drain_ends}
use lan_chat_next.Env.{Bytes}
use lan_chat_next.LegacyProtocolCodec.{encode_frame, decode_frames}
use lan_chat_next.LegacyProtocolCodec.Stream.{stream, decode_frames-stream}
use lan_chat_next.AsyncSession.{Session, new_session, write_done}
use lan_chat_next.AsyncSession.Writes.{pending, Writable}
use lan_chat_next.AsyncSession.Drains.{after_writes, sent_by, writes-drain}
use lan_chat_next.AsyncSession.RateLimit.{accepted, accepted_within_window}

try_decode-encode_example :
    (encode (65 ∷ []) ≡ ok (frame (65 ∷ [])))
    × (try_decode (frame (65 ∷ []) ++ 9 ∷ []) []
        ≡ record { found = true; buffer = 9 ∷ []; out_json = 65 ∷ [] })
try_decode-encode_example = try_decode-encode (65 ∷ []) (9 ∷ []) [] (omega arith, omega arith)

drain_ends_example : (try_decode (drain 6 (0 ∷ 0 ∷ 0 ∷ 1 ∷ 65 ∷ [])).1 []).found ≡ false
drain_ends_example = drain_ends 6 (0 ∷ 0 ∷ 0 ∷ 1 ∷ 65 ∷ []) (omega arith)

-- The frame of "A" in three pieces, cut in its header and in front of its text.
abbrev frame_pieces : List Bytes
frame_pieces = (0 ∷ 0 ∷ []) ∷ (0 ∷ 1 ∷ []) ∷ (65 ∷ []) ∷ []

-- A session that is writing, with two bytes of its front left.
abbrev busy : Session
busy = record (new_session 1 0) {
  write_queue = (1 ∷ 2 ∷ 3 ∷ []) ∷ [];
  write_offset = 1;
  writing = true;
}

accepted_within_window_example :
    accepted (6 ∷ 7 ∷ []) (new_session 1 5) ≤ 20 - (new_session 1 5).messages_this_window
accepted_within_window_example =
    accepted_within_window (6 ∷ 7 ∷ []) (new_session 1 5)
      (unfold new_session in (omega arith, (omega arith, tt)))

writes-drain_example :
    let later = after_writes (1 ∷ 1 ∷ []) busy in
    (pending busy ≡ sent_by (1 ∷ 1 ∷ []) busy ++ pending later)
    × (length {A = ℕ} (1 ∷ 1 ∷ []) ≤ length (pending busy))
    × (pending later ≢ [] → (later.writing ≡ true) × Writable later 1)
writes-drain_example =
    writes-drain (1 ∷ 1 ∷ []) busy (omega arith, refl, tt)
      (unfold write_done in (omega arith, omega arith, (omega arith, omega arith, tt)))

decode_frames-stream_example :
    decode_frames (stream ((65 ∷ []) ∷ []) ++ take 5 (encode_frame (66 ∷ 67 ∷ [])))
    ≡ ((65 ∷ []) ∷ [], take 5 (encode_frame (66 ∷ 67 ∷ [])))
decode_frames-stream_example =
    decode_frames-stream ((65 ∷ []) ∷ []) (66 ∷ 67 ∷ []) 5 ((omega arith, omega arith), tt)
      (omega arith, omega arith) (omega arith)

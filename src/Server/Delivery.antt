-- ===== src/Server/Delivery.antt =====
-- What `deliver` does to the server.
use lan_chat_next.Prelude.{ℕ, ◌<◌, ◌≡◌, ◌↔◌, err, frame_too_large, length, arith}
use lan_chat_next.Env.{Bytes}
use lan_chat_next.FrameCodec.{max_frame_bytes, encode}
use lan_chat_next.FrameCodec.RoundTrip.{encode_throws_iff}
use lan_chat_next.AsyncSession.{Session, deliver}
use lan_chat_next.Server.{Server, deliver_to}

deliver_result :
    (json : Bytes) (x : Session)
    → ((deliver json x).0 ≡ err frame_too_large) ↔ (encode json ≡ err frame_too_large)
unfolding deliver
deliver_result json x = (λ h. ground arith, λ h. ground arith)

-- Delivering a text throws for one of more than MaxFrameBytes bytes and for no other.
pub deliver_to_throws_iff :
    (id : ℕ) (json : Bytes) (s : Server)
    → ((deliver_to id json s).0 ≡ err frame_too_large) ↔ (max_frame_bytes < length json)
unfolding deliver_to
deliver_to_throws_iff id json s =
    let one = deliver_result json (s.sessions.heap id) in
    let two = encode_throws_iff json in (λ h. two.0 (one.0 h), λ h. one.1 (two.1 h))

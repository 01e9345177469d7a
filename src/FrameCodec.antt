-- ===== src/FrameCodec.antt =====
-- src/server/src/FrameCodec.cpp: a frame is a length of four bytes, big-endian, and the text.
pub mod RoundTrip
pub mod Stream
pub mod Cuts
use lan_chat_next.Prelude.{
  ℕ, zero, suc, ◌+◌, ◌*◌, ◌/◌, ◌%◌, ◌^◌, Bool, true, false, ◌||◌, List, [], ◌∷◌, ◌++◌, length, take,
  drop, ltb, ◌==◌, if◌then◌else◌, Result, ok, err, frame_too_large, nat_eq,
}
use lan_chat_next.Env.{Bytes}

-- `MaxFrameBytes`
abbrev pub max_frame_bytes : ℕ
max_frame_bytes = 256 * 1024

-- static_cast<std::uint8_t>((len >> k) & 0xff)
abbrev pub byte_at : ℕ → ℕ → ℕ
byte_at len k = len / 2 ^ k % 256

abbrev pub header : ℕ → Bytes
header len = byte_at len 24 ∷ byte_at len 16 ∷ byte_at len 8 ∷ byte_at len 0 ∷ []

-- `encode`
unfoldable pub encode : Bytes → Result Bytes
encode json =
    if ltb max_frame_bytes (length json)
    then err frame_too_large
    else let len = length json % 2 ^ 32 in ok (header len ++ json)

-- The result of `tryDecode`, and what it leaves in its two reference arguments.
pub record Decoded : Type 0 where
  pub found : Bool
  pub buffer : Bytes
  pub out_json : Bytes

-- The bytes of the length do not overlap, so that `|` adds them up.
abbrev pub frame_length : ℕ → ℕ → ℕ → ℕ → ℕ
frame_length b0 b1 b2 b3 = b0 * 2 ^ 24 + b1 * 2 ^ 16 + b2 * 2 ^ 8 + b3

-- The part of `tryDecode` that has read the length.
unfoldable pub decode_body : ℕ → Bytes → Bytes → Decoded
decode_body len buffer out_json =
    if len == 0 || ltb max_frame_bytes len
    then record { found = false; buffer = []; out_json = [] }
    else if ltb (length buffer) (4 + len)
    then record { found = false; buffer = buffer; out_json = out_json }
    else record {
      found = true;
      buffer = drop len (drop 4 buffer);
      out_json = take len (drop 4 buffer);
    }

-- `tryDecode`
unfoldable pub try_decode : Bytes → Bytes → Decoded
unfolding decode_body
try_decode (b0 ∷ b1 ∷ b2 ∷ b3 ∷ rest) out_json =
    decode_body (frame_length b0 b1 b2 b3) (b0 ∷ b1 ∷ b2 ∷ b3 ∷ rest) out_json
try_decode buffer out_json = record { found = false; buffer = buffer; out_json = out_json }

-- The loop `while (tryDecode(buffer, message))` of `AsyncSession::doRead`: the messages, and what
-- is left in the buffer. A round that finds a message takes five bytes at least.
unfoldable pub drain : ℕ → Bytes → List Bytes × Bytes
drain zero buffer = ([], buffer)
drain (suc fuel) buffer = elim (try_decode buffer []).found [
  | false ↦ ([], (try_decode buffer []).buffer)
  | true ↦
      let rest = drain fuel (try_decode buffer []).buffer in
      ((try_decode buffer []).out_json ∷ rest.0, rest.1)
]

-- As many rounds as the loop can need.
unfoldable pub drain_all : Bytes → List Bytes × Bytes
drain_all buffer = drain (suc (length buffer)) buffer

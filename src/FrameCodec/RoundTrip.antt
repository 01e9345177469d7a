-- ===== src/FrameCodec/RoundTrip.antt =====
-- `encode` and `tryDecode` of src/server/src/FrameCodec.cpp together.
use lan_chat_next.Prelude.{
  ℕ, ◌+◌, ◌^◌, ◌%◌, ◌≤◌, ◌<◌, ◌≡◌, ◌↔◌, true, ◌∷◌, ◌++◌, length, length-append, take-append,
  drop-append, arith, ok, err, frame_too_large,
}
use lan_chat_next.Env.{Bytes}
use lan_chat_next.FrameCodec.{
  max_frame_bytes, byte_at, header, encode, frame_length, decode_body, try_decode,
}

-- The four bytes of a length give the length back.
pub frame_length-header :
    (len : ℕ)
    → len < 2 ^ 32
    → frame_length (byte_at len 24) (byte_at len 16) (byte_at len 8) (byte_at len 0) ≡ len
frame_length-header len h = omega arith

decode_body_lem :
    (b0 b1 b2 b3 : ℕ) (json rest out : Bytes)
    → 0 < length json
    → length json ≤ max_frame_bytes
    → decode_body (length json) (b0 ∷ b1 ∷ b2 ∷ b3 ∷ (json ++ rest)) out
      ≡ record { found = true; buffer = rest; out_json = json }
unfolding decode_body
decode_body_lem b0 b1 b2 b3 json rest out pos fits =
    ground (arith, length-append json rest, take-append json rest, drop-append json rest)

-- The frame of a text.
unfoldable pub frame : Bytes → Bytes
frame json = header (length json % 2 ^ 32) ++ json

pub length-frame : (json : Bytes) → length (frame json) ≡ length json + 4
unfolding frame
length-frame json = omega arith

-- A text that has a frame which `tryDecode` accepts.
abbrev pub Sendable : Bytes → Type 0
Sendable json = (0 < length json) × (length json ≤ max_frame_bytes)

-- A text of 1 to MaxFrameBytes bytes is encoded as its frame, and from a buffer that begins with
-- that frame `tryDecode` takes exactly the frame and yields the text, whatever follows it.
pub try_decode-encode :
    (json rest out : Bytes)
    → Sendable json
    → (encode json ≡ ok (frame json))
      × (try_decode (frame json ++ rest) out
          ≡ record { found = true; buffer = rest; out_json = json })
unfolding encode try_decode frame
try_decode-encode json rest out (pos, fits) =
    let small : length json % 2 ^ 32 ≡ length json = omega arith in
    (
      ground arith,
      rw (small, frame_length-header (length json) (omega arith))
          (decode_body_lem _ _ _ _ json rest out pos fits),
    )

-- `encode` throws for a text of more than MaxFrameBytes bytes and for no other.
pub encode_throws_iff :
    (json : Bytes) → (encode json ≡ err frame_too_large) ↔ (max_frame_bytes < length json)
unfolding encode
encode_throws_iff json = (λ h. ground arith, λ h. ground arith)

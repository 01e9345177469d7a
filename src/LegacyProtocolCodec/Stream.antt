-- ===== src/LegacyProtocolCodec/Stream.antt =====
-- A stream of frames through `decodeFrames` of legacy/legacy-common/LegacyProtocolCodec.h.
use lan_chat_next.Prelude.{
  ℕ, zero, suc, ◌+◌, ◌%◌, ◌^◌, ◌≤◌, ◌<◌, ◌≡◌, refl, false, List, [], ◌∷◌, ◌++◌, length,
  length-append, take, take-append, drop-append, arith, All, ◌==◌, nat_eq,
}
use mathlib.Core.List.{append_assoc}
use lan_chat_next.Env.{Bytes}
use lan_chat_next.FrameCodec.{byte_at}
use lan_chat_next.FrameCodec.RoundTrip.{frame_length-header}
use lan_chat_next.LegacyProtocolCodec.{
  max_frame_bytes, encode_frame, wait, body, round_body, round, rounds, decode_frames,
}

-- A text that the decoder takes for the body of a frame.
abbrev pub IsBody : Bytes → Type 0
IsBody text = (0 < length text) × (length text ≤ max_frame_bytes)

-- The frames of these texts, one behind the other.
abbrev pub stream : List Bytes → Bytes
stream [] = []
stream (text ∷ texts) = encode_frame text ++ stream texts

round_body_lem :
    (b0 b1 b2 b3 : ℕ) (text rest : Bytes)
    → IsBody text
    → round_body (length text) (b0 ∷ b1 ∷ b2 ∷ b3 ∷ (text ++ rest)) ≡ body text rest
unfolding round_body
round_body_lem b0 b1 b2 b3 text rest (some_bytes, fits) =
    ground (arith, length-append text rest, take-append text rest, drop-append text rest)

-- The first byte of the length is never '{'.
first_byte : (len : ℕ) → len ≤ max_frame_bytes → (byte_at len 24 == b'{') ≡ false
first_byte len h = ground arith

small_length : (text : Bytes) → IsBody text → length text % 2 ^ 32 ≡ length text
small_length text h = omega arith

round-encode_frame :
    (text rest : Bytes) → IsBody text → round (encode_frame text ++ rest) ≡ body text rest
unfolding round encode_frame
round-encode_frame text rest h =
    rw
      (
        small_length text h,
        first_byte (length text) h.1,
        frame_length-header (length text) (omega arith),
      )
      (round_body_lem (byte_at (length text) 24) (byte_at (length text) 16)
        (byte_at (length text) 8) (byte_at (length text) 0) text rest h)

rounds-stream :
    (texts : List Bytes) (rest : Bytes) (fuel : ℕ)
    → All IsBody texts
    → round rest ≡ wait
    → length texts < fuel
    → rounds fuel (stream texts ++ rest) ≡ (texts, rest)
unfolding rounds
rounds-stream texts rest zero h w f = absurd (omega arith)
rounds-stream [] rest (suc fuel) h w f = rw (w, rounds) refl
rounds-stream (text ∷ texts) rest (suc fuel) h w f =
    rw
      (
        append_assoc (encode_frame text) (stream texts) rest,
        round-encode_frame text (stream texts ++ rest) h.0,
        rounds-stream texts rest fuel h.1 w (omega arith),
        rounds,
      )
      refl

length-take_le : (n : ℕ) (xs : Bytes) → length (take n xs) ≤ n
length-take_le zero xs = omega arith
length-take_le (suc n) [] = omega arith
length-take_le (suc n) (x ∷ xs) = omega (arith, length-take_le n xs)

-- A part of a frame, without its end, is waited on.
round_body-part :
    (b0 b1 b2 b3 len n : ℕ) (text : Bytes)
    → 0 < len
    → len ≤ max_frame_bytes
    → n < len
    → round_body len (b0 ∷ b1 ∷ b2 ∷ b3 ∷ take n text) ≡ wait
unfolding round_body
round_body-part b0 b1 b2 b3 len n text pos fits short = ground (arith, length-take_le n text)

round-part :
    (text : Bytes) (n : ℕ)
    → IsBody text
    → n < length text + 4
    → round (take n (encode_frame text)) ≡ wait
unfolding round encode_frame
round-part text zero h k = refl
round-part text (suc zero) h k = rw (small_length text h, first_byte (length text) h.1) refl
round-part text (suc (suc zero)) h k = rw (small_length text h, first_byte (length text) h.1) refl
round-part text (suc (suc (suc zero))) h k =
    rw (small_length text h, first_byte (length text) h.1) refl
round-part text (suc (suc (suc (suc n)))) h k =
    let len = length text in
    rw (small_length text h, first_byte len h.1, frame_length-header len (omega arith))
      (round_body-part (byte_at len 24) (byte_at len 16) (byte_at len 8) (byte_at len 0) len n text
        h.0 h.1 (omega arith))

length-stream : (texts : List Bytes) → length texts ≤ length (stream texts)
unfolding encode_frame
length-stream [] = omega arith
length-stream (text ∷ texts) =
    omega (arith, length-stream texts, length-append {0} (encode_frame text) (stream texts))

-- From frames of texts of 1 to kMaxFrameBytes bytes and the beginning of another such frame,
-- `decodeFrames` takes exactly the texts, in their order, and leaves the beginning in the buffer.
pub decode_frames-stream :
    (texts : List Bytes) (next : Bytes) (n : ℕ)
    → All IsBody texts
    → IsBody next
    → n < length next + 4
    → decode_frames (stream texts ++ take n (encode_frame next))
      ≡ (texts, take n (encode_frame next))
unfolding decode_frames
decode_frames-stream texts next n h k short =
    let part = take n (encode_frame next) in
    rounds-stream texts part (suc (length (stream texts ++ part))) h (round-part next n k short)
      (omega (arith, length-stream texts, length-append {0} (stream texts) part))

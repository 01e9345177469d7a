-- ===== src/FrameCodec/Stream.antt =====
-- The decoding loop over a stream of bytes that arrives in pieces.
use lan_chat_next.Prelude.{
  ℕ, zero, suc, ◌+◌, ◌≤◌, ◌<◌, ◌≡◌, refl, ◌⊎◌, inl, inr, Bool, true, false, [], ◌∷◌, ◌++◌, length,
  length-append, length-drop, take, drop, ltb, ◌||◌, ◌==◌, nat_eq, Bool-cases, arith,
}
use lan_chat_next.Env.{Bytes}
use lan_chat_next.FrameCodec.{max_frame_bytes, frame_length, decode_body, try_decode, drain}

decode_body_progress :
    (len : ℕ) (buffer out : Bytes)
    → (decode_body len buffer out).found ≡ true
    → length (decode_body len buffer out).buffer + 5 ≤ length buffer
unfolding decode_body
decode_body_progress len buffer out h =
    ground (arith, length-drop len (drop 4 buffer), length-drop 4 buffer)

-- A message that is found takes its four bytes of length and one byte of text at least.
pub try_decode_progress :
    (buffer out : Bytes)
    → (try_decode buffer out).found ≡ true
    → length (try_decode buffer out).buffer + 5 ≤ length buffer
unfolding try_decode
try_decode_progress (b0 ∷ b1 ∷ b2 ∷ b3 ∷ rest) out h =
    decode_body_progress (frame_length b0 b1 b2 b3) (b0 ∷ b1 ∷ b2 ∷ b3 ∷ rest) out h
try_decode_progress [] out h = cc
try_decode_progress (b0 ∷ []) out h = cc
try_decode_progress (b0 ∷ b1 ∷ []) out h = cc
try_decode_progress (b0 ∷ b1 ∷ b2 ∷ []) out h = cc

-- Where no message is found, the buffer is kept or cleared.
decode_body_rest :
    (len : ℕ) (buffer out : Bytes)
    → (decode_body len buffer out).found ≡ false
    → ((decode_body len buffer out).buffer ≡ []) ⊎ ((decode_body len buffer out).buffer ≡ buffer)
unfolding decode_body
decode_body_rest len buffer out h = ground arith

try_decode_rest :
    (buffer out : Bytes)
    → (try_decode buffer out).found ≡ false
    → ((try_decode buffer out).buffer ≡ []) ⊎ ((try_decode buffer out).buffer ≡ buffer)
unfolding try_decode
try_decode_rest (b0 ∷ b1 ∷ b2 ∷ b3 ∷ rest) out h =
    decode_body_rest (frame_length b0 b1 b2 b3) (b0 ∷ b1 ∷ b2 ∷ b3 ∷ rest) out h
try_decode_rest [] out h = inl refl
try_decode_rest (b0 ∷ []) out h = inr refl
try_decode_rest (b0 ∷ b1 ∷ []) out h = inr refl
try_decode_rest (b0 ∷ b1 ∷ b2 ∷ []) out h = inr refl

try_decode_stops :
    (buffer : Bytes)
    → (try_decode buffer []).found ≡ false
    → (try_decode (try_decode buffer []).buffer []).found ≡ false
try_decode_stops buffer h = elim (try_decode_rest buffer [] h) [
  | inl e ↦ rw e (unfold try_decode in refl)
  | inr e ↦ rw e h
]

-- With more rounds than bytes the loop ends by its test: no message is left in the buffer.
pub drain_ends :
    (fuel : ℕ) (buffer : Bytes)
    → length buffer < fuel
    → (try_decode (drain fuel buffer).1 []).found ≡ false
unfolding drain
drain_ends zero buffer h = absurd (omega arith)
drain_ends (suc fuel) buffer h = elim (Bool-cases (try_decode buffer []).found) [
  | inl e ↦ rw (e, drain) (drain_ends fuel _ (omega (arith, try_decode_progress buffer [] e)))
  | inr e ↦ rw (e, drain) (try_decode_stops buffer e)
]

-- A round that finds a message, and the last round.
pub drain_found :
    (fuel : ℕ) (buffer : Bytes)
    → (try_decode buffer []).found ≡ true
    → drain (suc fuel) buffer ≡ (
      (try_decode buffer []).out_json ∷ (drain fuel (try_decode buffer []).buffer).0,
      (drain fuel (try_decode buffer []).buffer).1,
    )
unfolding drain
drain_found fuel buffer e = rw (e, drain)

pub drain_stop :
    (fuel : ℕ) (buffer : Bytes)
    → (try_decode buffer []).found ≡ false
    → drain (suc fuel) buffer ≡ ([], (try_decode buffer []).buffer)
unfolding drain
drain_stop fuel buffer e = rw (e, drain)

-- The length that `tryDecode` reads is refused, and the buffer is cleared.
unfoldable pub is_reset : Bytes → Bool
is_reset (b0 ∷ b1 ∷ b2 ∷ b3 ∷ rest) =
    frame_length b0 b1 b2 b3 == 0 || ltb max_frame_bytes (frame_length b0 b1 b2 b3)
is_reset buffer = false

take-append_short : (n : ℕ) (xs ys : Bytes) → n ≤ length xs → take n (xs ++ ys) ≡ take n xs
take-append_short zero xs ys h = refl
take-append_short (suc n) [] ys h = absurd (omega arith)
take-append_short (suc n) (x ∷ xs) ys h = rw (take-append_short n xs ys (omega arith))

drop-append_short : (n : ℕ) (xs ys : Bytes) → n ≤ length xs → drop n (xs ++ ys) ≡ drop n xs ++ ys
drop-append_short zero xs ys h = refl
drop-append_short (suc n) [] ys h = absurd (omega arith)
drop-append_short (suc n) (x ∷ xs) ys h = drop-append_short n xs ys (omega arith)

decode_body-append :
    (len b0 b1 b2 b3 : ℕ) (rest more : Bytes)
    → (decode_body len (b0 ∷ b1 ∷ b2 ∷ b3 ∷ rest) []).found ≡ true
    → decode_body len (b0 ∷ b1 ∷ b2 ∷ b3 ∷ (rest ++ more)) []
      ≡ record (decode_body len (b0 ∷ b1 ∷ b2 ∷ b3 ∷ rest) []) {
        buffer = (decode_body len (b0 ∷ b1 ∷ b2 ∷ b3 ∷ rest) []).buffer ++ more;
      }
unfolding decode_body
decode_body-append len b0 b1 b2 b3 rest more h = ground (
  arith,
  length-append rest more,
  take-append_short len rest more,
  drop-append_short len rest more,
)

-- A message that is found is found too when more bytes have arrived behind it.
pub try_decode-append :
    (buffer more : Bytes)
    → (try_decode buffer []).found ≡ true
    → try_decode (buffer ++ more) []
      ≡ record (try_decode buffer []) { buffer = (try_decode buffer []).buffer ++ more }
unfolding try_decode
try_decode-append (b0 ∷ b1 ∷ b2 ∷ b3 ∷ rest) more h =
    decode_body-append (frame_length b0 b1 b2 b3) b0 b1 b2 b3 rest more h
try_decode-append [] more h = cc
try_decode-append (b0 ∷ []) more h = cc
try_decode-append (b0 ∷ b1 ∷ []) more h = cc
try_decode-append (b0 ∷ b1 ∷ b2 ∷ []) more h = cc

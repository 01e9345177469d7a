-- ===== src/FrameCodec/Cuts.antt =====
-- A stream of frames that has arrived in part (the read loop of src/server/src/AsyncSession.cpp).
use lan_chat_next.Prelude.{
  ℕ, zero, suc, ◌+◌, ◌<◌, ◌≤◌, ◌≡◌, refl, ap, sym, ◌∙◌, inl, inr, true, false, List, [], ◌∷◌, ◌++◌,
  length, length-append, ltb, ◌||◌, ◌==◌, nat_eq, Bool-cases, arith, All, ltb→lt,
}
use lan_chat_next.Env.{Bytes}
use lan_chat_next.FrameCodec.{
  max_frame_bytes, frame_length, decode_body, try_decode, drain, drain_all,
}
use lan_chat_next.FrameCodec.RoundTrip.{frame, length-frame, Sendable, try_decode-encode}
use lan_chat_next.FrameCodec.Stream.{drain_found, drain_stop, is_reset, try_decode-append}

-- Without a message and without a reset the buffer is kept.
decode_body_keeps :
    (len : ℕ) (buffer : Bytes)
    → (decode_body len buffer []).found ≡ false
    → (len == 0 || ltb max_frame_bytes len) ≡ false
    → decode_body len buffer [] ≡ record { found = false; buffer = buffer; out_json = [] }
unfolding decode_body
decode_body_keeps len buffer h r = ground arith

try_decode_keeps :
    (buffer : Bytes)
    → (try_decode buffer []).found ≡ false
    → is_reset buffer ≡ false
    → (try_decode buffer []).buffer ≡ buffer
unfolding try_decode is_reset
try_decode_keeps (b0 ∷ b1 ∷ b2 ∷ b3 ∷ rest) h r =
    ap (λ d. d.buffer) (decode_body_keeps (frame_length b0 b1 b2 b3) (b0 ∷ b1 ∷ b2 ∷ b3 ∷ rest) h r)
try_decode_keeps [] h r = refl
try_decode_keeps (b0 ∷ []) h r = refl
try_decode_keeps (b0 ∷ b1 ∷ []) h r = refl
try_decode_keeps (b0 ∷ b1 ∷ b2 ∷ []) h r = refl

is_reset_stops : (buffer : Bytes) → is_reset buffer ≡ true → (try_decode buffer []).found ≡ false
unfolding is_reset try_decode decode_body
is_reset_stops (b0 ∷ b1 ∷ b2 ∷ b3 ∷ rest) h = rw (h, decode_body)
is_reset_stops [] h = refl
is_reset_stops (b0 ∷ []) h = refl
is_reset_stops (b0 ∷ b1 ∷ []) h = refl
is_reset_stops (b0 ∷ b1 ∷ b2 ∷ []) h = refl

is_reset-append : (buffer more : Bytes) → is_reset buffer ≡ true → is_reset (buffer ++ more) ≡ true
unfolding is_reset
is_reset-append (b0 ∷ b1 ∷ b2 ∷ b3 ∷ rest) more h = h
is_reset-append [] more h = cc
is_reset-append (b0 ∷ []) more h = cc
is_reset-append (b0 ∷ b1 ∷ []) more h = cc
is_reset-append (b0 ∷ b1 ∷ b2 ∷ []) more h = cc

-- The stream that the sender writes: the frame of each text.
abbrev pub stream : List Bytes → Bytes
stream [] = []
stream (json ∷ rest) = frame json ++ stream rest

same_tail : {A : Type 0} (x y : A) (xs ys : List A) → x ∷ xs ≡ y ∷ ys → (x ≡ y) × (xs ≡ ys)
same_tail x y xs ys e = (cc, cc)

-- Where two lists begin alike, the longer beginning has the shorter one in front.
behind :
    (xs ys front more : Bytes)
    → xs ++ ys ≡ front ++ more
    → length xs ≤ length front
    → (rest : Bytes) × (front ≡ xs ++ rest) × (ys ≡ rest ++ more)
behind [] ys front more e h = (front, refl, e)
behind (x ∷ xs) ys [] more e h = absurd (omega arith)
behind (x ∷ xs) ys (c ∷ front) more e h =
    let parts = same_tail x c (xs ++ ys) (front ++ more) e in
    let rest = behind xs ys front more parts.1 (omega arith) in
    (rest.0, rw (parts.0, rest.1) refl, rest.2)

-- A part of a frame holds no message, and the loop keeps it.
part_of_frame :
    (fuel : ℕ) (json rest first more : Bytes)
    → Sendable json
    → frame json ++ rest ≡ first ++ more
    → length first < length json + 4
    → drain (suc fuel) first ≡ ([], first)
part_of_frame fuel json rest first more s e short =
    let whole = (try_decode-encode json rest [] s).1 in
    let found : (try_decode (first ++ more) []).found ≡ true = rw (← e) (ap (λ d. d.found) whole) in
    elim (Bool-cases (try_decode first []).found) [
      | inl f ↦
          let left = (try_decode first []).buffer in
          let same : left ++ more ≡ rest =
            ap (λ d. d.buffer) (sym (try_decode-append first more f))
            ∙ ap (λ b. (try_decode b []).buffer) (sym e)
            ∙ ap (λ d. d.buffer) whole in
          absurd (
            omega (
              arith,
              ap length same,
              ap length e,
              length-append left more,
              length-append first more,
              length-append (frame json) rest,
              length-frame json,
            ))
      | inr f ↦ elim (Bool-cases (is_reset first)) [
        | inl bad ↦
            let none_found = is_reset_stops (first ++ more) (is_reset-append first more bad) in
            absurd (cc (none_found, found))
        | inr good ↦ rw (drain_stop fuel first f, try_decode_keeps first f good) refl
      ]
    ]

-- What is in the buffer is less than the frame that comes next.
abbrev pub Short : Bytes → List Bytes → Type 0
Short left [] = Unit {0}
Short left (json ∷ rest) = length left < length json + 4

-- What the loop makes of the beginning of a stream: the texts of the whole frames, and in the buffer a
-- part of the next one.
abbrev pub Splits : List Bytes → Bytes → List Bytes × Bytes → Type 0
Splits texts more r =
    (left : List Bytes) × (texts ≡ r.0 ++ left)
    × (stream left ≡ r.1 ++ more)
    × Short r.1 left
    × All Sendable left

pub both_nil : (xs ys : Bytes) → [] ≡ xs ++ ys → (xs ≡ []) × (ys ≡ [])
both_nil [] ys e = (refl, sym e)
both_nil (x ∷ xs) ys e = absurd (cc)

drain-Splits :
    (fuel : ℕ) (texts : List Bytes) (first more : Bytes)
    → length first < fuel
    → All Sendable texts
    → stream texts ≡ first ++ more
    → Splits texts more (drain fuel first)
drain-Splits zero texts first more h s e = absurd (omega arith)
drain-Splits (suc fuel) [] first more h s e =
    let parts = both_nil first more e in
    rw (parts.0, parts.1, drain_stop fuel [] (unfold try_decode in refl))
      ([], refl, unfold try_decode in refl, tt, tt)
drain-Splits (suc fuel) (json ∷ rest) first more h s e =
    elim (Bool-cases (ltb (length first) (length json + 4))) [
      | inl l ↦
          rw (part_of_frame fuel json (stream rest) first more s.0 e (ltb→lt _ _ l))
            (json ∷ rest, refl, e, ltb→lt _ _ l, s)
      | inr l ↦
          let cut =
            behind (frame json) (stream rest) first more e
              (omega (arith, length-frame json, not_less _ _ l)) in
          let d = (try_decode-encode json cut.0 [] s.0).1 in
          let ih =
            drain-Splits fuel rest cut.0 more
              (omega (arith, ap length cut.1, length-append (frame json) cut.0, length-frame json))
              s.1 cut.2 in
          rw (cut.1, drain_found fuel (frame json ++ cut.0) (ap (λ x. x.found) d), d)
            (ih.0, ap (λ ts. json ∷ ts) ih.1, ih.2, ih.3, ih.4)
    ]
  where
    not_less : (a b : ℕ) → ltb a b ≡ false → b ≤ a
    not_less a b h = ground arith

-- The loop has as much fuel as it needs.
pub drain_all-Splits :
    (texts : List Bytes) (first more : Bytes)
    → All Sendable texts
    → stream texts ≡ first ++ more
    → Splits texts more (drain_all first)
unfolding drain_all
drain_all-Splits texts first more s e =
    drain-Splits (suc (length first)) texts first more (omega arith) s e

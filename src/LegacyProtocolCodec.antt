-- ===== src/LegacyProtocolCodec.antt =====
-- legacy/legacy-common/LegacyProtocolCodec.h: the frames of the original program. A QString is the
-- bytes of its UTF-8.
pub mod Stream
use lan_chat_next.Prelude.{
  ℕ, zero, suc, ◌+◌, ◌*◌, ◌%◌, ◌^◌, Bool, true, false, ◌||◌, List, [], ◌∷◌, ◌++◌, length, take,
  drop, ltb, ◌==◌, if◌then◌else◌, nat_eq,
}
use lan_chat_next.Env.{Bytes}
use lan_chat_next.FrameCodec.{header, frame_length}

-- `kMaxFrameBytes`
abbrev pub max_frame_bytes : ℕ
max_frame_bytes = 4 * 1024 * 1024

-- `encodeFrame`; the four bytes of the length are those of FrameCodec
unfoldable pub encode_frame : Bytes → Bytes
encode_frame body = header (length body % 2 ^ 32) ++ body

-- What a round of `decodeFrames` does: it waits for more bytes, takes all that is there for one text,
-- or takes one frame and leaves the rest.
pub data Round : Type 0 where
  wait : Round
  everything : Round
  body : Bytes → Bytes → Round

-- The part of a round that has read the length.
unfoldable pub round_body : ℕ → Bytes → Round
round_body len buffer =
    if len == 0 || ltb max_frame_bytes len
    then everything
    else if ltb (length buffer) (4 + len)
    then wait
    else body (take len (drop 4 buffer)) (drop len (drop 4 buffer))

unfoldable pub round : Bytes → Round
unfolding round_body
round [] = wait
round (b0 ∷ b1 ∷ b2 ∷ b3 ∷ rest) =
    if b0 == b'{'
    then everything
    else round_body (frame_length b0 b1 b2 b3) (b0 ∷ b1 ∷ b2 ∷ b3 ∷ rest)
round (b0 ∷ rest) = if b0 == b'{' then everything else wait

-- The loop of `decodeFrames`: the texts, and what is left in the buffer. A round that takes a frame
-- takes five bytes at least.
unfoldable pub rounds : ℕ → Bytes → List Bytes × Bytes
unfolding round
rounds zero buffer = ([], buffer)
rounds (suc fuel) buffer = elim (round buffer) [
  | wait ↦ ([], buffer)
  | everything ↦ (buffer ∷ [], [])
  | body text rest ↦ (text ∷ (rounds fuel rest).0, (rounds fuel rest).1)
]

-- `decodeFrames`
unfoldable pub decode_frames : Bytes → List Bytes × Bytes
unfolding rounds
decode_frames buffer = rounds (suc (length buffer)) buffer

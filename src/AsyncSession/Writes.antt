-- ===== src/AsyncSession/Writes.antt =====
-- The write queue of src/server/src/AsyncSession.cpp and the bytes that it puts on the wire.
use lan_chat_next.Prelude.{
  ℕ, zero, suc, ◌+◌, ◌≤◌, ◌<◌, ◌≡◌, refl, sym, Bool, true, false, List, [], ◌∷◌, ◌++◌, not, is_nil,
  length, take, drop, All, arith, ok, take-append-drop, length-drop, Bool-cases, inl, inr, ltb,
  ltb→lt,
}
use mathlib.Core.List.{append_assoc, append-nil}
use native.Mathlib.Nat.{zero-add}
use lan_chat_next.Env.{Bytes}
use lan_chat_next.FrameCodec.{encode}
use lan_chat_next.FrameCodec.RoundTrip.{frame, Sendable, try_decode-encode, length-frame}
use lan_chat_next.AsyncSession.{Session, deliver, write_done}

abbrev pub joined : List Bytes → Bytes
joined [] = []
joined (x ∷ xs) = x ++ joined xs

abbrev pub pending_at : List Bytes → ℕ → Bytes
pending_at [] offset = []
pending_at (front ∷ rest) offset = drop offset front ++ joined rest

-- What was delivered and is not yet on the wire.
abbrev pub pending : Session → Bytes
pending s = pending_at s.write_queue s.write_offset

abbrev pub IsWritingAt : List Bytes → ℕ → Bool → Type 0
IsWritingAt [] offset writing = (offset ≡ 0) × (writing ≡ false)
IsWritingAt (front ∷ rest) offset writing =
    (offset < length front) × (writing ≡ true) × All (λ frame. 0 < length frame) rest

-- A write is under way exactly while something is queued, and it is within the front of the queue.
abbrev pub IsWriting : Session → Type 0
IsWriting s = IsWritingAt s.write_queue s.write_offset s.writing

joined-append : (xs : List Bytes) (y : Bytes) → joined (xs ++ y ∷ []) ≡ joined xs ++ y
joined-append [] y = append-nil y
joined-append (x ∷ xs) y = rw (joined-append xs y) (sym (append_assoc x (joined xs) y))

All-append :
    (xs : List Bytes) (y : Bytes)
    → All (λ frame. 0 < length frame) xs
    → 0 < length y
    → All (λ frame. 0 < length frame) (xs ++ y ∷ [])
All-append [] y a h = (h, tt)
All-append (x ∷ xs) y a h = (a.0, All-append xs y a.1 h)

drop-append_front : (n : ℕ) (xs ys : Bytes) → n < length xs → drop n xs ++ ys ≡ drop n (xs ++ ys)
drop-append_front zero xs ys h = refl
drop-append_front (suc n) [] ys h = absurd (omega arith)
drop-append_front (suc n) (x ∷ xs) ys h = drop-append_front n xs ys (omega arith)

-- The session `s` with these three fields.
abbrev with_queue : List Bytes → ℕ → Bool → Session → Session
with_queue queue offset writing s = record s {
  write_queue = queue;
  write_offset = offset;
  writing = writing;
}

module _ (json : Bytes) (fits : Sendable json) where
  encoded : encode json ≡ ok (frame json)
  encoded = (try_decode-encode json [] [] fits).0

  deliver_at :
      (queue : List Bytes) (offset : ℕ) (writing : Bool) (s : Session)
      → IsWritingAt queue offset writing
      → ((deliver json (with_queue queue offset writing s)).0 ≡ ok tt)
        × (pending (deliver json (with_queue queue offset writing s)).1
            ≡ pending_at queue offset ++ frame json)
        × IsWriting (deliver json (with_queue queue offset writing s)).1
  unfolding deliver
  deliver_at [] offset writing s w =
      rw (encoded, w.0, w.1)
        (refl, append-nil (frame json), (omega (arith, length-frame json), refl, tt))
  deliver_at (front ∷ rest) offset writing s w =
      rw (encoded, w.1)
        (
          refl,
          rw joined-append (sym (append_assoc (drop offset front) (joined rest) (frame json))),
          (w.0, refl, All-append rest (frame json) w.2 (omega (arith, length-frame json))),
        )

  -- A text with a frame is delivered: its frame goes behind all that is still to be written, and
  -- a write is under way.
  pub pending-deliver :
      (s : Session)
      → IsWriting s
      → ((deliver json s).0 ≡ ok tt)
        × (pending (deliver json s).1 ≡ pending s ++ frame json)
        × IsWriting (deliver json s).1
  pending-deliver s w = deliver_at s.write_queue s.write_offset s.writing s w

-- The part of the front that a write of `bytes` bytes has sent.
abbrev pub sent_at : List Bytes → ℕ → ℕ → Bytes
sent_at [] offset bytes = []
sent_at (front ∷ rest) offset bytes = take bytes (drop offset front)

abbrev pub sent : Session → ℕ → Bytes
sent s bytes = sent_at s.write_queue s.write_offset bytes

-- What `async_write_some` may report: at most what it was given.
abbrev pub WritableAt : List Bytes → ℕ → ℕ → Type 0
WritableAt [] offset bytes = ⊥
WritableAt (front ∷ rest) offset bytes = offset + bytes ≤ length front

abbrev pub Writable : Session → ℕ → Type 0
Writable s bytes = WritableAt s.write_queue s.write_offset bytes

suc-add : (m n : ℕ) → suc m + n ≡ suc (m + n)
suc-add m n = omega arith

drop-nil : (n : ℕ) → drop {A = ℕ} n [] ≡ []
drop-nil zero = refl
drop-nil (suc n) = refl

drop-drop : (m n : ℕ) (xs : Bytes) → drop n (drop m xs) ≡ drop (m + n) xs
drop-drop zero n xs = rw zero-add
drop-drop (suc m) n [] = rw (drop-nil n, drop-nil (suc m + n))
drop-drop (suc m) n (x ∷ xs) = rw (suc-add m n) (drop-drop m n xs)

take_all : (n : ℕ) (xs : Bytes) → length xs ≤ n → take n xs ≡ xs
take_all zero [] h = refl
take_all zero (x ∷ xs) h = absurd (omega arith)
take_all (suc n) [] h = refl
take_all (suc n) (x ∷ xs) h = rw (take_all n xs (omega arith))

pending_at_start : (queue : List Bytes) → pending_at queue 0 ≡ joined queue
pending_at_start [] = refl
pending_at_start (front ∷ rest) = refl

IsWriting_rest :
    (rest : List Bytes)
    → All (λ frame. 0 < length frame) rest
    → IsWritingAt rest 0 (not (is_nil rest))
IsWriting_rest [] h = (refl, refl)
IsWriting_rest (x ∷ xs) h = (h.0, refl, h.1)

write_done_at :
    (queue : List Bytes) (offset bytes : ℕ) (writing : Bool) (s : Session)
    → IsWritingAt queue offset writing
    → WritableAt queue offset bytes
    → (pending_at queue offset
        ≡ sent_at queue offset bytes
          ++ pending (write_done bytes (with_queue queue offset writing s)))
      × IsWriting (write_done bytes (with_queue queue offset writing s))
unfolding write_done
write_done_at [] offset bytes writing s w h = absurd h
write_done_at (front ∷ rest) offset bytes writing s w h =
    elim (Bool-cases (ltb (offset + bytes) (length front))) [
      | inl e ↦ rw e (
        rw
            (
              ← drop-drop offset bytes front,
              ← append_assoc (take bytes (drop offset front)) (drop bytes (drop offset front))
                  (joined rest),
              take-append-drop bytes (drop offset front),
            )
            refl,
        (omega (arith, ltb→lt (offset + bytes) (length front) e), refl, w.2),
      )
      | inr e ↦ rw e (
        rw (
          take_all bytes (drop offset front) (ground (arith, length-drop offset front)),
          pending_at_start rest,
        ),
        IsWriting_rest rest w.2,
      )
    ]

-- When a write of some of the front's bytes ends, those bytes and what is then still to be
-- written are what was to be written before, in this order, and the next write is under way.
pub pending-write_done :
    (s : Session) (bytes : ℕ)
    → IsWriting s
    → Writable s bytes
    → (pending s ≡ sent s bytes ++ pending (write_done bytes s)) × IsWriting (write_done bytes s)
pending-write_done s bytes w h = write_done_at s.write_queue s.write_offset bytes s.writing s w h

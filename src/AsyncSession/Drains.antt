-- ===== src/AsyncSession/Drains.antt =====
-- The write queue of src/server/src/AsyncSession.cpp over a sequence of writes that end.
use lan_chat_next.Prelude.{
  ℕ, zero, suc, ◌≤◌, ◌<◌, ◌≡◌, ◌≢◌, Bool, true, refl, sym, ap, ◌∙◌, List, [], ◌∷◌, ◌++◌, length,
  length-append, take, drop, length-drop, arith,
}
use mathlib.Core.List.{append_assoc}
use lan_chat_next.Env.{Bytes}
use lan_chat_next.AsyncSession.{Session, write_done}
use lan_chat_next.AsyncSession.Writes.{
  pending, sent, IsWriting, Writable, WritableAt, sent_at, pending_at, IsWritingAt,
  pending-write_done,
}

-- The session after writes that have sent so many bytes, one after the other, and what they have sent.
abbrev pub after_writes : List ℕ → Session → Session
after_writes [] s = s
after_writes (bytes ∷ rest) s = after_writes rest (write_done bytes s)

abbrev pub sent_by : List ℕ → Session → Bytes
sent_by [] s = []
sent_by (bytes ∷ rest) s = sent s bytes ++ sent_by rest (write_done bytes s)

-- Each of them has sent a byte at least, and no more than it was given.
abbrev pub Completes : List ℕ → Session → Type 0
Completes [] s = Unit {0}
Completes (bytes ∷ rest) s = (0 < bytes) × Writable s bytes × Completes rest (write_done bytes s)

length-take : (n : ℕ) (xs : Bytes) → n ≤ length xs → length (take n xs) ≡ n
length-take zero xs h = refl
length-take (suc n) [] h = absurd (omega arith)
length-take (suc n) (x ∷ xs) h = ap suc (length-take n xs (omega arith))

length-sent_at :
    (queue : List Bytes) (offset bytes : ℕ)
    → WritableAt queue offset bytes
    → length (sent_at queue offset bytes) ≡ bytes
length-sent_at [] offset bytes h = absurd h
length-sent_at (front ∷ rest) offset bytes h =
    length-take bytes (drop offset front) (omega (arith, length-drop {0} offset front))

-- Where something is to be written, a write can send a byte.
goes_on_at :
    (queue : List Bytes) (offset : ℕ) (writing : Bool)
    → IsWritingAt queue offset writing
    → pending_at queue offset ≢ []
    → WritableAt queue offset 1
goes_on_at [] offset writing w h = absurd (h refl)
goes_on_at (front ∷ rest) offset writing w h = omega (arith, w.0)

writing_at :
    (queue : List Bytes) (offset : ℕ) (writing : Bool)
    → IsWritingAt queue offset writing
    → pending_at queue offset ≢ []
    → writing ≡ true
writing_at [] offset writing w h = absurd (h refl)
writing_at (front ∷ rest) offset writing w h = w.1

-- Over any writes that end, each with a byte at least: what they have sent is the front of what was to
-- be written, and the rest is still to be written; there are at most as many of them as there were
-- bytes; and while bytes are left a write is under way that can send another.
pub writes-drain :
    (writes : List ℕ) (s : Session)
    → IsWriting s
    → Completes writes s
    → let later = after_writes writes s in
      (pending s ≡ sent_by writes s ++ pending later)
      × (length writes ≤ length (pending s))
      × (pending later ≢ [] → (later.writing ≡ true) × Writable later 1)
writes-drain [] s w h = (
  refl,
  omega arith,
  λ left. (
    writing_at s.write_queue s.write_offset s.writing w left,
    goes_on_at s.write_queue s.write_offset s.writing w left,
  ),
)
writes-drain (bytes ∷ rest) s w h =
    let one = pending-write_done s bytes w h.1 in
    let ih = writes-drain rest (write_done bytes s) one.1 h.2 in
    let size = length-sent_at s.write_queue s.write_offset bytes h.1 in
    (
      one.0
          ∙ ap (λ left. sent s bytes ++ left) ih.0
          ∙ sym (append_assoc (sent s bytes) (sent_by rest (write_done bytes s)) _),
      omega (
        arith,
        ap (λ (left : Bytes). length left) one.0,
        length-append {0} (sent s bytes) (pending (write_done bytes s)),
        size,
        ih.1,
        h.0,
      ),
      ih.2,
    )

-- ===== src/Samples/Sorting.antt =====
-- A sort by timestamp that keeps the promise of `std::sort`.
use lan_chat_next.Prelude.{
  ◌≡◌, refl, Bool, false, List, [], ◌∷◌, lt_int, keep, All, length, if◌then◌else◌, arith,
  Bool-cases, inl, inr, ge_trans, lt_int_asym,
}
use lan_chat_next.Records.{StoredMessage}
use lan_chat_next.MessageRepository.History.{Ascending, SameMessages}

unfoldable pub put_in : StoredMessage → List StoredMessage → List StoredMessage
put_in m [] = m ∷ []
put_in m (n ∷ ms) =
    let rest = put_in m ms in if lt_int n.timestamp m.timestamp then n ∷ rest else m ∷ n ∷ ms

unfoldable pub sorted : List StoredMessage → List StoredMessage
sorted [] = []
sorted (m ∷ ms) = put_in m (sorted ms)

same_put_in :
    (q : StoredMessage → Bool) (m : StoredMessage) (ms : List StoredMessage)
    → length (keep q (put_in m ms)) ≡ length (keep q (m ∷ ms))
unfolding put_in
same_put_in q m [] = refl
same_put_in q m (n ∷ ms) = ground (arith, same_put_in q m ms)

sorted-same : (ms : List StoredMessage) → SameMessages (sorted ms) ms
unfolding sorted
sorted-same [] q = refl
sorted-same (m ∷ ms) q = ground (arith, same_put_in q m (sorted ms), sorted-same ms q)

abbrev From : StoredMessage → List StoredMessage → Type 0
From m ms = All (λ n. lt_int n.timestamp m.timestamp ≡ false) ms

From-put_in :
    (k m : StoredMessage) (ms : List StoredMessage)
    → lt_int m.timestamp k.timestamp ≡ false
    → From k ms
    → From k (put_in m ms)
unfolding put_in
From-put_in k m [] h f = (h, tt)
From-put_in k m (n ∷ ms) h f = elim (Bool-cases (lt_int n.timestamp m.timestamp)) [
  | inl e ↦ rw e (f.0, From-put_in k m ms h f.1)
  | inr e ↦ rw e (h, (f.0, f.1))
]

From-weaken :
    (m n : StoredMessage) (ms : List StoredMessage)
    → lt_int n.timestamp m.timestamp ≡ false
    → From n ms
    → From m ms
From-weaken m n [] h f = tt
From-weaken m n (k ∷ ms) h f =
    (ge_trans k.timestamp n.timestamp m.timestamp f.0 h, From-weaken m n ms h f.1)

Ascending-put_in :
    (m : StoredMessage) (ms : List StoredMessage) → Ascending ms → Ascending (put_in m ms)
unfolding put_in
Ascending-put_in m [] a = (tt, tt)
Ascending-put_in m (n ∷ ms) a = elim (Bool-cases (lt_int n.timestamp m.timestamp)) [
  | inl e ↦
      rw e
        (From-put_in n m ms (lt_int_asym n.timestamp m.timestamp e) a.0, Ascending-put_in m ms a.1)
  | inr e ↦ rw e ((e, From-weaken m n ms e a.0), (a.0, a.1))
]

pub sorted-Ascending : (ms : List StoredMessage) → Ascending (sorted ms)
unfolding sorted
sorted-Ascending [] = tt
sorted-Ascending (m ∷ ms) = Ascending-put_in m (sorted ms) (sorted-Ascending ms)

pub sorted-Sorts : (ms : List StoredMessage) → Ascending (sorted ms) × SameMessages (sorted ms) ms
sorted-Sorts ms = (sorted-Ascending ms, sorted-same ms)

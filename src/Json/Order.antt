-- ===== src/Json/Order.antt =====
-- The order of the keys in an object of src/server/vendor/mini_json.hpp: that of
-- `std::map<std::string, Value>`.
use Prim.Native.Nat.{compare as compare_nat, Ordering}
use Prim.Native.Char.{code}
use Prim.Native.String.{compare, then}
use Prim.Native.String.compare
use text.Mathlib.TextPositions.{compare_refl}
use text.Mathlib.Text.{is_lt, is_eq}
use lan_chat_next.Prelude.{
  subst, List, [], ◌∷◌, ℕ, ◌≡◌, refl, String, Bool, true, false, ◌==◌, string_eq, arith, eq_iff,
  Bool-cases, inl, inr,
}
use lan_chat_next.Json.{Value, Object, put, with_fields, object}
use Object.{end, field}

-- a < b
abbrev pub before : String → String → Bool
before a b = is_lt (compare a b)

ruleset clauses = (compare.nil-nil, compare.nil-cons, compare.cons-nil, compare.cons-cons)

-- The order of the first characters, and then that of what follows.
first_of :
    (m n k : ℕ) (p q r : Ordering)
    → (is_lt p ≡ true → is_lt q ≡ true → is_lt r ≡ true)
    → is_lt ((then) (compare_nat m n) p) ≡ true
    → is_lt ((then) (compare_nat n k) q) ≡ true
    → is_lt ((then) (compare_nat m k) r) ≡ true
first_of m n k p q r ih h h' = ground arith

before_trans : (a b c : String) → before a b ≡ true → before b c ≡ true → before a c ≡ true
before_trans a String.[] String.[] h k = h
before_trans String.[] String.[] (String.◌∷◌ z c) h k = k
before_trans (String.◌∷◌ x a) String.[] (String.◌∷◌ z c) h k = cc (compare.cons-nil x a)
before_trans a (String.◌∷◌ y b) String.[] h k = cc (compare.cons-nil y b)
before_trans String.[] (String.◌∷◌ y b) (String.◌∷◌ z c) h k = rw (compare.nil-cons z c) refl
before_trans (String.◌∷◌ x a) (String.◌∷◌ y b) (String.◌∷◌ z c) h k =
    rw (compare.cons-cons x z a c) (
      first_of (code x) (code y) (code z) (compare a b) (compare b c) (compare a c)
        (before_trans a b c) (rw (compare.cons-cons x y a b) at h)
        (rw (compare.cons-cons y z b c) at k))

last_of :
    (m n : ℕ) (p q : Ordering)
    → (is_lt p ≡ false → is_eq q ≡ false → is_lt q ≡ true)
    → is_lt ((then) (compare_nat m n) p) ≡ false
    → is_eq ((then) (compare_nat n m) q) ≡ false
    → is_lt ((then) (compare_nat n m) q) ≡ true
last_of m n p q ih h h' = ground arith

before_total : (a b : String) → before a b ≡ false → (b == a) ≡ false → before b a ≡ true
before_total String.[] String.[] h k = cc
before_total String.[] (String.◌∷◌ y b) h k = cc (compare.nil-cons y b)
before_total (String.◌∷◌ x a) String.[] h k = rw (compare.nil-cons x a) refl
before_total (String.◌∷◌ x a) (String.◌∷◌ y b) h k = rw (compare.cons-cons y x b a) (
    last_of (code x) (code y) (compare a b) (compare b a) (before_total a b)
      (rw (compare.cons-cons x y a b) at h) (rw (compare.cons-cons y x b a) at k))

before_irrefl : (a : String) → before a a ≡ false
before_irrefl a = rw (compare_refl a) refl

-- A key that stands before another is another, and does not stand behind it.
pub before_ne : (a b : String) → before a b ≡ true → (a == b) ≡ false
before_ne a b h = elim (Bool-cases (a == b)) [
  | inl e ↦ cc (before_irrefl a, (eq_iff a b).0 e)
  | inr e ↦ e
]

pub before_asym : (a b : String) → before a b ≡ true → before b a ≡ false
before_asym a b h = elim (Bool-cases (before b a)) [
  | inl e ↦ cc (before_irrefl a, before_trans a b a h e)
  | inr e ↦ e
]

-- Every key of an object stands behind `k`; before `k`.
unfoldable pub KeysAbove : String → Object → Type 0
KeysAbove k end = Unit {0}
KeysAbove k (field j v o) = (before k j ≡ true) × KeysAbove k o

-- The keys of a std::map, each one once and in ascending order.
unfoldable pub IsSorted : Object → Type 0
unfolding KeysAbove
IsSorted end = Unit {0}
IsSorted (field k v o) = KeysAbove k o × IsSorted o

KeysAbove-trans : (j k : String) (o : Object) → before j k ≡ true → KeysAbove k o → KeysAbove j o
unfolding KeysAbove
KeysAbove-trans j k end h a = tt
KeysAbove-trans j k (field i v o) h a = (before_trans j k i h a.0, KeysAbove-trans j k o h a.1)

KeysAbove-put :
    (j k : String) (v : Value) (o : Object)
    → before j k ≡ true
    → KeysAbove j o
    → KeysAbove j (put k v o)
unfolding KeysAbove put
KeysAbove-put j k v end h a = (h, tt)
KeysAbove-put j k v (field i w o) h a = elim (Bool-cases (i == k)) [
  | inl e ↦ rw e (h, a.1)
  | inr e ↦ rw e (elim (Bool-cases (before k i)) [
    | inl b ↦ rw b (h, a)
    | inr b ↦ rw b (a.0, KeysAbove-put j k v o h a.1)
  ])
]

-- `obj[key] = value` keeps the keys of the map in order, and each one once.
pub put-IsSorted : (k : String) (v : Value) (o : Object) → IsSorted o → IsSorted (put k v o)
unfolding IsSorted put
put-IsSorted k v end h = (tt, tt)
put-IsSorted k v (field j w o) h = elim (Bool-cases (j == k)) [
  | inl e ↦ rw e (subst (λ i. KeysAbove i o) ((eq_iff j k).0 e) h.0, h.1)
  | inr e ↦ rw e (elim (Bool-cases (before k j)) [
    | inl b ↦ rw b ((b, KeysAbove-trans k j o b h.0), h)
    | inr b ↦ rw b (KeysAbove-put j k v o (before_total k j b e) h.0, put-IsSorted k v o h.1)
  ])
]

with_fields-IsSorted :
    (o : Object) (entries : List (String × Value)) → IsSorted o → IsSorted (with_fields o entries)
unfolding with_fields
with_fields-IsSorted o [] h = h
with_fields-IsSorted o ((k, v) ∷ rest) h =
    with_fields-IsSorted (put k v o) rest (put-IsSorted k v o h)

-- So is every object that the code fills by assignments.
object-IsSorted : (entries : List (String × Value)) → IsSorted (object entries)
unfolding object IsSorted
object-IsSorted entries = with_fields-IsSorted end entries tt

-- ===== src/Json/Leaves.antt =====
-- How far the parts of the parser of src/server/vendor/mini_json.hpp that call no value move.
use lan_chat_next.Prelude.{
  ℕ, suc, ◌≤◌, ◌≡◌, inl, inr, Bool, true, false, Option, none, some, [], ◌∷◌, ◌++◌, drop, length,
  refl, arith, Bool-cases, length-drop, stoll, nat_eq,
}
use lan_chat_next.Json.{Value}
use lan_chat_next.Env.{Env, Bytes}
use lan_chat_next.Json.Parser.{
  Parsed, and_then, skip_ws, next_is, expect, literal, unescape, Piece, piece_of, add_char,
  parse_chars, parse_string, digits, number_or_refused, parse_digits, parse_number,
}
use Parsed.{got, refused, exhausted}
use Value.{int, float}
use Piece.{quote, backslash, plain}

-- The parser has an answer, and leaves at most `n` characters.
abbrev pub Leaves : {A : Type 0} → ℕ → Parsed A → Type 0
Leaves n (got a rest) = length rest ≤ n
Leaves n refused = Unit {0}
Leaves n exhausted = ⊥

pub Leaves-mono : {A : Type 0} (n m : ℕ) (r : Parsed A) → Leaves n r → n ≤ m → Leaves m r
Leaves-mono n m (got a rest) h k = omega arith
Leaves-mono n m refused h k = tt
Leaves-mono n m exhausted h k = h

pub Leaves-and_then :
    {A B : Type 0} (n m : ℕ) (r : Parsed A) (f : A → Bytes → Parsed B)
    → Leaves n r
    → ((a : A) (rest : Bytes) → length rest ≤ n → Leaves m (f a rest))
    → Leaves m (and_then r f)
Leaves-and_then n m (got a rest) f h k = k a rest h
Leaves-and_then n m refused f h k = tt
Leaves-and_then n m exhausted f h k = h

pub length-skip_ws : (s : Bytes) → length (skip_ws s) ≤ length s
unfolding skip_ws
length-skip_ws [] = omega arith
length-skip_ws (c ∷ s) = ground (arith, length-skip_ws s)

length-drop_next : (c : ℕ) (s : Bytes) → next_is c s ≡ true → suc (length (drop 1 s)) ≡ length s
unfolding next_is
length-drop_next c [] h = cc
length-drop_next c (d ∷ s) h = refl

pub expect-Leaves : (c : ℕ) (s : Bytes) (n : ℕ) → length s ≤ suc n → Leaves n (expect c s)
unfolding expect
expect-Leaves c s n h = elim (Bool-cases (next_is c s)) [
  | inl e ↦ rw e (omega (arith, length-drop_next c s e))
  | inr e ↦ rw e tt
]

pub literal-Leaves : (cs : Bytes) (v : Value) (s : Bytes) → Leaves (length s) (literal cs v s)
unfolding literal
literal-Leaves [] v s = omega arith
literal-Leaves (c ∷ cs) v s = elim (Bool-cases (next_is c s)) [
  | inl e ↦ rw e (
      Leaves-mono _ _ (literal cs v (drop 1 s)) (literal-Leaves cs v (drop 1 s))
        (omega (arith, length-drop {0} 1 s)))
  | inr e ↦ rw e tt
]

add_char-Leaves : (c n : ℕ) (r : Parsed Bytes) → Leaves n r → Leaves n (add_char c r)
add_char-Leaves c n (got cs rest) h = h
add_char-Leaves c n refused h = tt
add_char-Leaves c n exhausted h = h

parse_chars-Leaves : (b : Bool) (s : Bytes) → Leaves (length s) (parse_chars b s)
unfolding parse_chars
parse_chars-Leaves true [] = tt
parse_chars-Leaves false [] = tt
parse_chars-Leaves true (c ∷ s) =
    Leaves-mono _ _ (add_char (unescape c) (parse_chars false s))
      (add_char-Leaves (unescape c) _ (parse_chars false s) (parse_chars-Leaves false s))
      (omega arith)
parse_chars-Leaves false (c ∷ s) =
    elim (piece_of c)
      as (λ p. Leaves (suc (length s)) (elim p [
        | quote ↦ got [] s
        | backslash ↦ parse_chars true s
        | plain ↦ add_char c (parse_chars false s)
      ])) [
        | quote ↦ omega arith
        | backslash ↦ Leaves-mono _ _ (parse_chars true s) (parse_chars-Leaves true s) (omega arith)
        | plain ↦
            Leaves-mono _ _ (add_char c (parse_chars false s))
              (add_char-Leaves c _ (parse_chars false s) (parse_chars-Leaves false s)) (omega arith)
      ]

pub parse_string-Leaves : (s : Bytes) → Leaves (length s) (parse_string s)
unfolding parse_string
parse_string-Leaves s =
    Leaves-and_then _ _ (parse_chars false (drop 1 s)) _ (parse_chars-Leaves false (drop 1 s))
      λ cs rest h. omega (arith, length-drop {0} 1 s)

length-digits : (s : Bytes) → length (digits s).1 ≤ length s
unfolding digits
length-digits [] = omega arith
length-digits (c ∷ s) = ground (arith, length-digits s)

number_or_refused-Leaves :
    {A : Type 0} (f : A → Value) (o : Option A) (n : ℕ) (s : Bytes)
    → length s ≤ n
    → Leaves n (number_or_refused f o s)
number_or_refused-Leaves f none n s h = tt
number_or_refused-Leaves f (some a) n s h = h

parse_digits-Leaves : (env : Env) (sign s : Bytes) → Leaves (length s) (parse_digits env sign s)
unfolding parse_digits
parse_digits-Leaves env sign s = elim (Bool-cases (next_is b'.' (digits s).1)) [
  | inl e ↦ rw e (
      number_or_refused-Leaves float
        (env.stod (sign ++ (digits s).0 ++ b'.' ∷ (digits (drop 1 (digits s).1)).0)) _ _
        (omega (
          arith,
          length-digits s,
          length-digits (drop 1 (digits s).1),
          length-drop {0} 1 (digits s).1,
        )))
  | inr e ↦ rw e (number_or_refused-Leaves int (stoll (sign ++ (digits s).0)) _ _ (length-digits s))
]

pub parse_number-Leaves : (env : Env) (s : Bytes) → Leaves (length s) (parse_number env s)
unfolding parse_number
parse_number-Leaves env s = elim (Bool-cases (next_is b'-' s)) [
  | inl e ↦ rw e (
      Leaves-mono (length (drop 1 s)) _ (parse_digits env (b'-' ∷ []) (drop 1 s))
        (parse_digits-Leaves env (b'-' ∷ []) (drop 1 s)) (omega (arith, length-drop {0} 1 s)))
  | inr e ↦ rw e (parse_digits-Leaves env [] s)
]

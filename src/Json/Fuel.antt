-- ===== src/Json/Fuel.antt =====
-- How far the parser of src/server/vendor/mini_json.hpp moves, and how much fuel it takes.
use lan_chat_next.Prelude.{
  ℕ, zero, suc, ◌+◌, ◌-◌, subst, ◌*◌, ◌≤◌, ◌<◌, ◌≡◌, ◌≢◌, ◌⊎◌, inl, inr, true, false, [], ◌∷◌, drop,
  length, refl, arith, Bool-cases, length-drop, nat_eq, codes,
}
use lan_chat_next.Json.{Value, Items, Object, put}
use lan_chat_next.Env.{Env, Bytes}
use lan_chat_next.Json.Parser.{
  Parsed, skip_ws, next_is, expect, parse_string, Start, start_of, parse_array, parse_object,
  parse_from, after_element, after_key, after_field, parse_value, parse_elements, parse_fields,
  parse_fuel, parse_text, skip_left,
}
use Parsed.{got, refused, exhausted}
use Start.{
  null_start, true_start, false_start, text_start, number_start, array_start, object_start,
  no_start,
}
use lan_chat_next.Json.Leaves.{
  Leaves, Leaves-mono, Leaves-and_then, length-skip_ws, expect-Leaves, literal-Leaves,
  parse_string-Leaves, parse_number-Leaves,
}

-- A text that starts as an array or an object has a first character.
length-drop_start : (s : Bytes) → start_of s ≢ no_start → suc (length (drop 1 s)) ≡ length s
unfolding start_of
length-drop_start [] h = absurd (h refl)
length-drop_start (c ∷ s) h = refl

start-cases : (s : Bytes) → (start_of s ≡ no_start) ⊎ (start_of s ≢ no_start)
start-cases s = elim (start_of s) as (λ st. (st ≡ no_start) ⊎ (st ≢ no_start)) [
  | no_start ↦ inl refl
  | null_start ↦ inr (λ e. cc)
  | true_start ↦ inr (λ e. cc)
  | false_start ↦ inr (λ e. cc)
  | text_start ↦ inr (λ e. cc)
  | number_start ↦ inr (λ e. cc)
  | array_start ↦ inr (λ e. cc)
  | object_start ↦ inr (λ e. cc)
]

-- What the loops of the parser do on texts of at most `n` characters.
abbrev Loops : {A : Type 0} → ℕ → (Bytes → Parsed A) → Type 0
Loops n loop = (s : Bytes) → length s ≤ n → Leaves (length s) (loop s)

array-Leaves :
    (n : ℕ) (elements : Bytes → Parsed Items) (s : Bytes)
    → Loops n elements
    → length s ≤ n
    → Leaves n (parse_array elements s)
unfolding parse_array
array-Leaves n elements s h k = elim (Bool-cases (next_is b']' s)) [
  | inl e ↦ rw e (omega (arith, length-drop {0} 1 s))
  | inr e ↦ rw e (Leaves-and_then _ n (elements s) _ (h s k) λ vs rest q. omega arith)
]

object-Leaves :
    (n : ℕ) (fields : Bytes → Parsed Object) (s : Bytes)
    → Loops n fields
    → length s ≤ n
    → Leaves n (parse_object fields s)
unfolding parse_object
object-Leaves n fields s h k = elim (Bool-cases (next_is b'}' s)) [
  | inl e ↦ rw e (omega (arith, length-drop {0} 1 s))
  | inr e ↦ rw e (Leaves-and_then _ n (fields s) _ (h s k) λ vs rest q. omega arith)
]

parse_from-Leaves :
    (env : Env) (elements : Bytes → Parsed Items) (fields : Bytes → Parsed Object) (st : Start)
    (s : Bytes) (n : ℕ)
    → start_of s ≡ st
    → length s ≤ suc n
    → Loops n elements
    → Loops n fields
    → Leaves (length s) (parse_from env elements fields st s)
unfolding parse_from
parse_from-Leaves env elements fields null_start s n e k h h' =
    literal-Leaves (codes "null") Value.null s
parse_from-Leaves env elements fields true_start s n e k h h' =
    literal-Leaves (codes "true") (Value.bool true) s
parse_from-Leaves env elements fields false_start s n e k h h' =
    literal-Leaves (codes "false") (Value.bool false) s
parse_from-Leaves env elements fields text_start s n e k h h' =
    Leaves-and_then _ _ (parse_string s) _ (parse_string-Leaves s) λ t rest q. q
parse_from-Leaves env elements fields number_start s n e k h h' = parse_number-Leaves env s
parse_from-Leaves env elements fields array_start s n e k h h' =
    let inner = skip_ws (drop 1 s) in
    let shorter : suc (length (drop 1 s)) ≡ length s = length-drop_start s (λ q. cc) in
    Leaves-mono (length (drop 1 s)) _ (parse_array elements inner)
      (array-Leaves (length (drop 1 s)) elements inner (λ t q. h t (omega arith))
        (length-skip_ws (drop 1 s)))
      (omega arith)
parse_from-Leaves env elements fields object_start s n e k h h' =
    let inner = skip_ws (drop 1 s) in
    let shorter : suc (length (drop 1 s)) ≡ length s = length-drop_start s (λ q. cc) in
    Leaves-mono (length (drop 1 s)) _ (parse_object fields inner)
      (object-Leaves (length (drop 1 s)) fields inner (λ t q. h' t (omega arith))
        (length-skip_ws (drop 1 s)))
      (omega arith)
parse_from-Leaves env elements fields no_start s n e k h h' = tt

-- The same of a loop, on the texts that are shorter than `m`.
abbrev Rounds : {A : Type 0} → ℕ → (Bytes → Parsed A) → Type 0
Rounds m loop = (s : Bytes) → length s < m → Leaves (length s) (loop s)

after_element-Leaves :
    (more : Bytes → Parsed Items) (v : Value) (s : Bytes) (m : ℕ)
    → length s ≤ m
    → Rounds m more
    → Leaves m (after_element more v s)
unfolding after_element expect
after_element-Leaves more v [] m k h = tt
after_element-Leaves more v (c ∷ s) m k h = elim (Bool-cases (next_is b']' (c ∷ s))) [
  | inl e ↦ rw e (omega arith)
  | inr e ↦ rw e (
      Leaves-and_then (length s) m (expect b',' (c ∷ s)) _
        (expect-Leaves b',' (c ∷ s) (length s) (omega arith))
        λ u rest q.
          Leaves-and_then (length (skip_ws rest)) m (more (skip_ws rest)) _
            (h (skip_ws rest) (omega (arith, length-skip_ws rest)))
            λ vs left r. omega (arith, length-skip_ws rest))
]

after_field-Leaves :
    (more : Object → Bytes → Parsed Object) (o : Object) (s : Bytes) (m : ℕ)
    → length s ≤ m
    → Rounds m (more o)
    → Leaves m (after_field more o s)
unfolding after_field expect
after_field-Leaves more o [] m k h = tt
after_field-Leaves more o (c ∷ s) m k h = elim (Bool-cases (next_is b'}' (c ∷ s))) [
  | inl e ↦ rw e (omega arith)
  | inr e ↦ rw e (
      Leaves-and_then (length s) m (expect b',' (c ∷ s)) _
        (expect-Leaves b',' (c ∷ s) (length s) (omega arith))
        λ u rest q. Leaves-mono (length rest) m (more o rest) (h rest (omega arith)) (omega arith))
]

after_key-Leaves :
    (value : Bytes → Parsed Value) (s : Bytes) (m : ℕ)
    → length s ≤ m
    → Loops m value
    → Leaves m (after_key value s)
unfolding after_key
after_key-Leaves value s m k h =
    Leaves-and_then m m (expect b':' (skip_ws s)) _
      (expect-Leaves b':' (skip_ws s) m (omega (arith, length-skip_ws s)))
      λ u rest q.
        Leaves-mono (length (skip_ws rest)) m (value (skip_ws rest))
          (h (skip_ws rest) (omega (arith, length-skip_ws rest)))
          (omega (arith, length-skip_ws rest))

mutual
  unfolding parse_value

  value-Leaves :
      (env : Env) (f : ℕ) (s : Bytes) → 2 * length s < f → Leaves (length s) (parse_value env f s)
  value-Leaves env zero s h = absurd (omega arith)
  value-Leaves env (suc f) s h = elim (start-cases s) [
    | inl e ↦ rw e tt
    | inr e ↦
        parse_from-Leaves env (parse_elements env f) (parse_fields env f Object.end) (start_of s) s
          (length s - 1) refl (omega arith)
          (λ t q. elements-Leaves env f t (omega (arith, length-drop_start s e)))
          (λ t q. fields-Leaves env f Object.end t (omega (arith, length-drop_start s e)))
  ]

  elements-Leaves :
      (env : Env) (f : ℕ) (s : Bytes)
      → 2 * length s + 1 < f
      → Leaves (length s) (parse_elements env f s)
  elements-Leaves env zero s h = absurd (omega arith)
  elements-Leaves env (suc f) s h =
      Leaves-and_then (length s) _ (parse_value env f s) _ (value-Leaves env f s (omega arith))
        λ v rest q.
          after_element-Leaves (parse_elements env f) v (skip_ws rest) (length s)
            (omega (arith, length-skip_ws rest)) (λ t r. elements-Leaves env f t (omega arith))

  fields-Leaves :
      (env : Env) (f : ℕ) (o : Object) (s : Bytes)
      → 2 * length s + 1 < f
      → Leaves (length s) (parse_fields env f o s)
  fields-Leaves env zero o s h = absurd (omega arith)
  fields-Leaves env (suc f) o s h =
      Leaves-and_then (length s) _ (parse_string (skip_ws s)) _
        (Leaves-mono (length (skip_ws s)) _ (parse_string (skip_ws s))
          (parse_string-Leaves (skip_ws s)) (length-skip_ws s))
        λ k rest q.
          Leaves-and_then (length s) _ (after_key (parse_value env f) rest) _
            (after_key-Leaves (parse_value env f) rest (length s) q
              (λ t r. value-Leaves env f t (omega arith)))
            λ v left r.
              after_field-Leaves (parse_fields env f) (put k v o) (skip_ws left) (length s)
                (omega (arith, length-skip_ws left))
                (λ t u. fields-Leaves env f (put k v o) t (omega arith))

-- A value is read, or refused, with more fuel than two units for each character.
parse_value_total :
    (env : Env) (f : ℕ) (s : Bytes) → 2 * length s < f → parse_value env f s ≢ exhausted
parse_value_total env f s h e = subst (Leaves (length s)) e (value-Leaves env f s h)

skip_left-Leaves : (n : ℕ) (r : Parsed Value) → Leaves n r → Leaves n (skip_left r)
skip_left-Leaves n (got v s) h = omega (arith, length-skip_ws s)
skip_left-Leaves n refused h = tt
skip_left-Leaves n exhausted h = h

-- On every text the parser has an answer within the fuel that `parse` gives it: a value with the rest
-- of the text, or the refusal that is an exception in the code.
pub parse_text_total : (env : Env) (s : Bytes) → parse_text env s ≢ exhausted
unfolding parse_text
parse_text_total env s e = subst (Leaves (length (skip_ws s))) e (
    skip_left-Leaves (length (skip_ws s)) (parse_value env (parse_fuel s) (skip_ws s))
      (value-Leaves env (parse_fuel s) (skip_ws s) (omega (arith, length-skip_ws s))))

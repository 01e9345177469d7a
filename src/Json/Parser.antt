-- ===== src/Json/Parser.antt =====
-- The parser of src/server/vendor/mini_json.hpp. It reads the rest of the text from `pos` on: behind
-- the end, `peek` and `next` give a NUL, which every caller refuses. A call of a function that calls
-- itself costs a unit of fuel.
use lan_chat_next.Prelude.{
  ℕ, zero, suc, ◌+◌, ◌*◌, String, Bool, true, false, ◌||◌, Option, none, some, [], ◌∷◌, ◌++◌, drop,
  length, ◌==◌, nat_eq, if◌then◌else◌, codes, text_of, stoll, is_digit,
}
use lan_chat_next.Json.{Value, Items, Object, put}
use lan_chat_next.Env.{Env, Bytes}
use Value.{null, bool, int, float, str, arr, obj}
use Items.{nil, cons}
use Object.{end}

-- A value with the rest of the text, an exception, or too little fuel.
pub data Parsed (A : Type 0) : Type 0 where
  got : A → Bytes → Parsed A
  refused : Parsed A
  exhausted : Parsed A

abbrev pub and_then : {A B : Type 0} → Parsed A → (A → Bytes → Parsed B) → Parsed B
and_then (got a rest) f = f a rest
and_then refused f = refused
and_then exhausted f = exhausted

-- `skip_ws`
unfoldable pub skip_ws : Bytes → Bytes
skip_ws [] = []
skip_ws (c ∷ s) =
    let rest = skip_ws s in
    if c == b' ' || c == b'\t' || c == b'\n' || c == b'\r' then rest else c ∷ s

-- peek() == c
unfoldable pub next_is : ℕ → Bytes → Bool
next_is c [] = false
next_is c (d ∷ s) = d == c

-- if (next() != c) throw
unfoldable pub expect : ℕ → Bytes → Parsed (Unit {0})
unfolding next_is
expect c s = if next_is c s then got tt (drop 1 s) else refused

-- `parse_literal`
unfoldable pub literal : Bytes → Value → Bytes → Parsed Value
unfolding next_is
literal [] v s = got v s
literal (c ∷ cs) v s = let rest = literal cs v (drop 1 s) in if next_is c s then rest else refused

-- What the character behind a backslash stands for.
unfoldable pub unescape : ℕ → ℕ
unescape c =
    if c == b'n' then b'\n' else if c == b't' then b'\t' else if c == b'r' then b'\r' else c

pub data Piece : Type 0 where
  quote backslash plain : Piece

unfoldable pub piece_of : ℕ → Piece
piece_of c = if c == b'"' then quote else if c == b'\\' then backslash else plain

abbrev pub add_char : ℕ → Parsed Bytes → Parsed Bytes
add_char c (got cs rest) = got (c ∷ cs) rest
add_char c refused = refused
add_char c exhausted = exhausted

-- The loop of `parse_string`; the flag is whether a backslash was read.
unfoldable pub parse_chars : Bool → Bytes → Parsed Bytes
unfolding unescape piece_of
parse_chars behind_backslash [] = refused
parse_chars true (c ∷ s) = add_char (unescape c) (parse_chars false s)
parse_chars false (c ∷ s) = elim (piece_of c) [
  | quote ↦ got [] s
  | backslash ↦ parse_chars true s
  | plain ↦ add_char c (parse_chars false s)
]

-- `parse_string`: the first character is passed over, whatever it is.
unfoldable pub parse_string : Bytes → Parsed String
unfolding parse_chars
parse_string s = and_then (parse_chars false (drop 1 s)) λ cs rest. got (text_of cs) rest

-- The digits that a text begins with, and the rest of it.
unfoldable pub digits : Bytes → Bytes × Bytes
digits [] = ([], [])
digits (c ∷ s) = let rest = digits s in if is_digit c then (c ∷ rest.0, rest.1) else ([], c ∷ s)

abbrev pub number_or_refused : {A : Type 0} → (A → Value) → Option A → Bytes → Parsed Value
number_or_refused f none s = refused
number_or_refused f (some n) s = got (f n) s

-- `parse_number` behind the minus sign: `sign` is what was read.
unfoldable pub parse_digits : Env → Bytes → Bytes → Parsed Value
unfolding digits next_is
parse_digits env sign s =
    let whole = digits s in
    let part = digits (drop 1 whole.1) in
    if next_is b'.' whole.1
    then number_or_refused float (env.stod (sign ++ whole.0 ++ b'.' ∷ part.0)) part.1
    else number_or_refused int (stoll (sign ++ whole.0)) whole.1

-- `parse_number`
unfoldable pub parse_number : Env → Bytes → Parsed Value
unfolding parse_digits next_is
parse_number env s =
    if next_is b'-' s then parse_digits env (b'-' ∷ []) (drop 1 s) else parse_digits env [] s

-- The branches of `parse_value`.
pub data Start : Type 0 where
  null_start true_start false_start text_start number_start array_start object_start : Start
  no_start : Start

unfoldable pub start_of : Bytes → Start
start_of [] = no_start
start_of (c ∷ s) =
    if c == b'n'
    then null_start
    else if c == b't'
    then true_start
    else if c == b'f'
    then false_start
    else if c == b'"'
    then text_start
    else if c == b'-' || is_digit c
    then number_start
    else if c == b'['
    then array_start
    else if c == b'{'
    then object_start
    else no_start

-- `parse_array`, behind the bracket and the blanks after it; `elements` is its loop.
unfoldable pub parse_array : (Bytes → Parsed Items) → Bytes → Parsed Value
unfolding next_is
parse_array elements s =
    if next_is b']' s
    then got (arr nil) (drop 1 s)
    else and_then (elements s) λ vs rest. got (arr vs) rest

-- `parse_object`, behind the brace and the blanks after it; `fields` is its loop.
unfoldable pub parse_object : (Bytes → Parsed Object) → Bytes → Parsed Value
unfolding next_is
parse_object fields s =
    if next_is b'}' s
    then got (obj end) (drop 1 s)
    else and_then (fields s) λ o rest. got (obj o) rest

-- `parse_value`, where the first character has been looked at.
unfoldable pub parse_from :
    Env → (Bytes → Parsed Items) → (Bytes → Parsed Object) → Start → Bytes → Parsed Value
unfolding literal parse_string parse_number parse_array parse_object skip_ws
parse_from env elements fields null_start s = literal (codes "null") null s
parse_from env elements fields true_start s = literal (codes "true") (bool true) s
parse_from env elements fields false_start s = literal (codes "false") (bool false) s
parse_from env elements fields text_start s = and_then (parse_string s) λ t rest. got (str t) rest
parse_from env elements fields number_start s = parse_number env s
parse_from env elements fields array_start s = parse_array elements (skip_ws (drop 1 s))
parse_from env elements fields object_start s = parse_object fields (skip_ws (drop 1 s))
parse_from env elements fields no_start s = refused

-- The loop of `parse_array` behind an element; `more` is its next round.
unfoldable pub after_element : (Bytes → Parsed Items) → Value → Bytes → Parsed Items
unfolding next_is expect skip_ws
after_element more v s =
    if next_is b']' s
    then got (cons v nil) (drop 1 s)
    else and_then (expect b',' s)
        λ u rest. and_then (more (skip_ws rest)) λ vs left. got (cons v vs) left

-- The loop of `parse_object` behind a key, and behind a value.
unfoldable pub after_key : (Bytes → Parsed Value) → Bytes → Parsed Value
unfolding expect skip_ws
after_key value s = and_then (expect b':' (skip_ws s)) λ u rest. value (skip_ws rest)

unfoldable pub after_field : (Object → Bytes → Parsed Object) → Object → Bytes → Parsed Object
unfolding next_is expect
after_field more o s =
    if next_is b'}' s then got o (drop 1 s) else and_then (expect b',' s) λ u rest. more o rest

-- `parse_value`, and the loops of `parse_array` and of `parse_object`.
unfoldable mutual
  unfolding parse_from start_of after_element after_key after_field parse_string skip_ws

  pub parse_value : Env → ℕ → Bytes → Parsed Value
  parse_value env zero s = exhausted
  parse_value env (suc f) s =
      parse_from env (parse_elements env f) (parse_fields env f end) (start_of s) s

  pub parse_elements : Env → ℕ → Bytes → Parsed Items
  parse_elements env zero s = exhausted
  parse_elements env (suc f) s =
      and_then (parse_value env f s) λ v rest. after_element (parse_elements env f) v (skip_ws rest)

  pub parse_fields : Env → ℕ → Object → Bytes → Parsed Object
  parse_fields env zero o s = exhausted
  parse_fields env (suc f) o s = and_then (parse_string (skip_ws s)) λ k rest.
      and_then (after_key (parse_value env f) rest)
        λ v left. after_field (parse_fields env f) (put k v o) (skip_ws left)

-- The fuel of `parse` for a text.
abbrev pub parse_fuel : Bytes → ℕ
parse_fuel s = 2 * length s + 2

abbrev pub finished : Parsed Value → Option Value
finished (got v []) = some v
finished (got v (c ∷ s)) = none
finished refused = none
finished exhausted = none

abbrev pub skip_left : Parsed Value → Parsed Value
skip_left (got v s) = got v (skip_ws s)
skip_left refused = refused
skip_left exhausted = exhausted

-- `Parser::parse`
unfoldable pub parse_text : Env → Bytes → Parsed Value
unfolding skip_ws parse_value
parse_text env s = skip_left (parse_value env (parse_fuel s) (skip_ws s))

-- `vendor::json::parse`; `none` where it throws
unfoldable pub parse : Env → Bytes → Option Value
unfolding parse_text
parse env s = finished (parse_text env s)

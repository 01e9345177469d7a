-- ===== src/Json/Reading.antt =====
-- What the parser of src/server/vendor/mini_json.hpp meets in a text of the serializer.
use lan_chat_next.Prelude.{
  ◌≢◌, ℕ, ◌≡◌, refl, sym, ◌∙◌, true, false, [], ◌∷◌, ◌++◌, String, arith, nat_eq, nat_beq_iff,
  codes, text_of-codes,
}
use mathlib.Core.List.{append_assoc}
use lan_chat_next.Json.{Value, Items, Object}
use lan_chat_next.Env.{Env, Bytes}
use lan_chat_next.Json.Printer.{escape, escaped, quoted, print, print_items, print_fields}
use lan_chat_next.Json.Parser.{
  Parsed, skip_ws, next_is, add_char, parse_chars, parse_string, Start, start_of,
}
use lan_chat_next.Json.Order.{IsSorted}
use lan_chat_next.Json.Numbers.{InInt64, Ends, start_of-to_string}
use Value.{null, bool, int, float, str, arr, obj}
use Items.{nil, cons}
use Object.{end, field}
use Parsed.{got}
use Start.{
  null_start, true_start, false_start, text_start, number_start, array_start, object_start,
  no_start,
}

-- A character of a text is read back from what stands for it.
parse_chars-escape :
    (c : ℕ) (more : Bytes)
    → parse_chars false (escape c ++ more) ≡ add_char c (parse_chars false more)
unfolding escape parse_chars
parse_chars-escape c more = ground (arith, nat_beq_iff c b'"')

parse_chars-escaped : (cs rest : Bytes) → parse_chars false (escaped cs ++ rest) ≡ got cs rest
unfolding escaped
parse_chars-escaped [] rest = unfold parse_chars in refl
parse_chars-escaped (c ∷ cs) rest =
    rw
      (
        append_assoc (escape c) (escaped cs) rest,
        parse_chars-escape c (escaped cs ++ rest),
        parse_chars-escaped cs rest,
      )
      refl

-- A text is read back from its quotation.
pub parse_string-quoted : (s : String) (rest : Bytes) → parse_string (quoted s ++ rest) ≡ got s rest
unfolding parse_string quoted
parse_string-quoted s rest = rw (parse_chars-escaped (codes s) rest, text_of-codes s) refl

-- A value whose text stands for it: no doubles, integers of 64 bits, objects in the order of their
-- keys.
unfoldable mutual
  unfolding IsSorted

  pub Printable : Value → Type 0
  Printable null = Unit {0}
  Printable (bool b) = Unit {0}
  Printable (int i) = InInt64 i
  Printable (float d) = ⊥
  Printable (str s) = Unit {0}
  Printable (arr vs) = PrintableItems vs
  Printable (obj o) = IsSorted o × PrintableFields o

  pub PrintableItems : Items → Type 0
  PrintableItems nil = Unit {0}
  PrintableItems (cons v vs) = Printable v × PrintableItems vs

  pub PrintableFields : Object → Type 0
  PrintableFields end = Unit {0}
  PrintableFields (field k v o) = Printable v × PrintableFields o

-- The branch of `parse_value` that reads a value back.
abbrev start : Value → Start
start null = null_start
start (bool true) = true_start
start (bool false) = false_start
start (int i) = number_start
start (float d) = no_start
start (str s) = text_start
start (arr vs) = array_start
start (obj o) = object_start

start_of-print :
    (env : Env) (v : Value) (rest : Bytes) → Printable v → start_of (print env v ++ rest) ≡ start v
unfolding start_of print Printable
start_of-print env null rest h = refl
start_of-print env (bool true) rest h = refl
start_of-print env (bool false) rest h = refl
start_of-print env (int i) rest h = start_of-to_string i rest
start_of-print env (float d) rest h = absurd h
start_of-print env (str s) rest h = refl
start_of-print env (arr vs) rest h = refl
start_of-print env (obj o) rest h = refl

start-ne-no_start : (v : Value) → Printable v → start v ≢ no_start
unfolding Printable
start-ne-no_start null h = λ e. cc
start-ne-no_start (bool true) h = λ e. cc
start-ne-no_start (bool false) h = λ e. cc
start-ne-no_start (int i) h = λ e. cc
start-ne-no_start (float d) h = absurd h
start-ne-no_start (str s) h = λ e. cc
start-ne-no_start (arr vs) h = λ e. cc
start-ne-no_start (obj o) h = λ e. cc

-- A text that starts as a value does has no blank in front, and no closing bracket.
skip_ws-start : (s : Bytes) → start_of s ≢ no_start → skip_ws s ≡ s
unfolding skip_ws start_of
skip_ws-start [] h = refl
skip_ws-start (c ∷ s) h = ground arith

next_is-start : (s : Bytes) → start_of s ≢ no_start → next_is b']' s ≡ false
unfolding next_is start_of
next_is-start [] h = refl
next_is-start (c ∷ s) h = ground arith

module _ (env : Env) (v : Value) (rest : Bytes) (h : Printable v) where
  starts : start_of (print env v ++ rest) ≢ no_start
  starts e = start-ne-no_start v h (sym (start_of-print env v rest h) ∙ e)

  pub skip_ws-print : skip_ws (print env v ++ rest) ≡ print env v ++ rest
  skip_ws-print = skip_ws-start (print env v ++ rest) starts

  pub next_is-print : next_is b']' (print env v ++ rest) ≡ false
  next_is-print = next_is-start (print env v ++ rest) starts

-- What stands behind an element or an entry does not belong to a number.
pub Ends-items : (env : Env) (vs : Items) (rest : Bytes) → Ends (print_items env false vs ++ rest)
unfolding print
Ends-items env nil rest = (refl, refl)
Ends-items env (cons v vs) rest = (refl, refl)

pub Ends-fields : (env : Env) (o : Object) (rest : Bytes) → Ends (print_fields env false o ++ rest)
unfolding print
Ends-fields env end rest = (refl, refl)
Ends-fields env (field k v o) rest = (refl, refl)

pub skip_ws-items :
    (env : Env) (vs : Items) (rest : Bytes)
    → skip_ws (print_items env false vs ++ rest) ≡ print_items env false vs ++ rest
unfolding print skip_ws
skip_ws-items env nil rest = refl
skip_ws-items env (cons v vs) rest = refl

pub skip_ws-fields :
    (env : Env) (o : Object) (rest : Bytes)
    → skip_ws (print_fields env false o ++ rest) ≡ print_fields env false o ++ rest
unfolding print skip_ws
skip_ws-fields env end rest = refl
skip_ws-fields env (field k v o) rest = refl

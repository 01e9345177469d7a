-- ===== src/Json/RoundTrip.antt =====
-- The serializer and the parser of src/server/vendor/mini_json.hpp, one after the other.
use lan_chat_next.Prelude.{
  ◌+◌, ◌≡◌, refl, true, false, [], ◌∷◌, ◌++◌, String, length, arith, length-append, nat_eq, some,
}
use mathlib.Core.List.{append_assoc, append-nil}
use lan_chat_next.Json.{Value, Items, Object}
use lan_chat_next.Env.{Env, Bytes}
use lan_chat_next.Json.Printer.{quoted, print, print_items, print_fields, serialize}
use lan_chat_next.Json.Parser.{
  expect, parse_array, parse_object, after_element, after_field, parse_value, parse_fuel,
  parse_text, parse,
}
use lan_chat_next.Json.Assigned.{assigned, assigned_sorted}
use lan_chat_next.Json.Numbers.{parse_number-to_string, start_of-to_string}
use lan_chat_next.Json.Reading.{parse_string-quoted, Printable, skip_ws-print, next_is-print}
use Value.{null, bool, int, float, str, arr, obj}
use Items.{nil, cons}
use Object.{end, field}
use lan_chat_next.Json.Reads.{
  ReadsValue, ReadsItems, ReadsFields, skip_ws-quoted, next_is-quoted, with_unit, elements-Reads,
  fields-Reads, ReadsArray, ReadsObject,
}

array_cons-Reads :
    (env : Env) (v : Value) (vs : Items)
    → ReadsValue env v
    → ReadsItems env vs
    → ReadsArray env (cons v vs)
unfolding parse_array print Printable
array_cons-Reads env v vs h k rest = with_unit _ λ f a p.
    let more = print_items env false vs ++ rest in
    rw
      (
        append_assoc (print env v) (print_items env false vs) rest,
        skip_ws-print env v more p.0,
        next_is-print env v more p.0,
        elements-Reads env v vs h k rest f p.0 p.1
            (omega (arith, length-append {0} (print env v) (print_items env false vs)))
            (omega (arith, length-append {0} (print env v) (print_items env false vs))),
      )
      refl

items_cons-Reads :
    (env : Env) (v : Value) (vs : Items)
    → ReadsValue env v
    → ReadsItems env vs
    → ReadsItems env (cons v vs)
unfolding after_element print expect Printable
items_cons-Reads env v vs h k w rest = with_unit _ λ f a p.
    let more = print_items env false vs ++ rest in
    rw
      (
        append_assoc (print env v) (print_items env false vs) rest,
        skip_ws-print env v more p.0,
        elements-Reads env v vs h k rest f p.0 p.1
            (omega (arith, length-append {0} (print env v) (print_items env false vs)))
            (omega (arith, length-append {0} (print env v) (print_items env false vs))),
      )
      refl

length-field :
    (env : Env) (k : String) (v : Value) (o : Object)
    → length (quoted k ++ b':' ∷ (print env v ++ print_fields env false o))
      ≡ length (quoted k) + 1 + length (print env v) + length (print_fields env false o)
length-field env k v o = omega (
  arith,
  length-append {0} (quoted k) (b':' ∷ (print env v ++ print_fields env false o)),
  length-append {0} (print env v) (print_fields env false o),
)

append-field :
    (env : Env) (k : String) (v : Value) (o : Object) (rest : Bytes)
    → (quoted k ++ b':' ∷ (print env v ++ print_fields env false o)) ++ rest
      ≡ quoted k ++ (b':' ∷ (print env v ++ (print_fields env false o ++ rest)))
append-field env k v o rest =
    rw
      (
        append_assoc (quoted k) (b':' ∷ (print env v ++ print_fields env false o)) rest,
        append_assoc (print env v) (print_fields env false o) rest,
      )
      refl

object_cons-Reads :
    (env : Env) (k : String) (v : Value) (o : Object)
    → ReadsValue env v
    → ReadsFields env o
    → ReadsObject env (field k v o)
unfolding parse_object print Printable assigned
object_cons-Reads env k v o h h' rest = with_unit _ λ f a p.
    rw
      (
        append-field env k v o rest,
        skip_ws-quoted k (b':' ∷ (print env v ++ (print_fields env false o ++ rest))),
        next_is-quoted k (b':' ∷ (print env v ++ (print_fields env false o ++ rest))),
        fields-Reads env k v o h h' end rest f p.0 p.1 (omega (arith, length-field env k v o))
            (omega (arith, length-field env k v o)),
      )
      refl

fields_cons-Reads :
    (env : Env) (k : String) (v : Value) (o : Object)
    → ReadsValue env v
    → ReadsFields env o
    → ReadsFields env (field k v o)
unfolding after_field print expect Printable
fields_cons-Reads env k v o h h' acc rest = with_unit _ λ f a p.
    rw
      (
        append-field env k v o rest,
        fields-Reads env k v o h h' acc rest f p.0 p.1 (omega (arith, length-field env k v o))
            (omega (arith, length-field env k v o)),
      )
      refl

value-Reads : (env : Env) (v : Value) → ReadsValue env v
unfolding parse_value print Printable assigned
value-Reads env v =
    elim v
      as (ReadsValue env) (λ vs. ReadsItems env vs × ReadsArray env vs) (λ o.
        ReadsFields env o × ReadsObject env o) [
          | null ↦ λ rest. with_unit _ λ f h p q. refl
          | bool true ↦ λ rest. with_unit _ λ f h p q. refl
          | bool false ↦ λ rest. with_unit _ λ f h p q. refl
          | int i ↦ λ rest.
              with_unit _
                λ f h p q. rw (start_of-to_string i rest) (parse_number-to_string env i rest p q)
          | float d ↦ λ rest f h p q. absurd p
          | str s ↦ λ rest. with_unit _ λ f h p q. rw (parse_string-quoted s rest) refl
          | arr (vs → ih) ↦ λ rest. with_unit _ λ f h p q. ih.1 rest f (omega arith) p
          | obj (o → ih) ↦ λ rest.
              with_unit _ λ f h p q. rw (ih.1 rest f (omega arith) p.1, assigned_sorted o p.0) refl
          | nil ↦ (λ v rest f a p. refl, λ rest f a p. refl)
          | cons (w → ih) (vs → ihs) ↦
              (items_cons-Reads env w vs ih ihs.0, array_cons-Reads env w vs ih ihs.0)
          | end ↦ (λ acc rest f a p. refl, λ rest f a p. refl)
          | field k (w → ih) (o → ihs) ↦
              (fields_cons-Reads env k w o ih ihs.0, object_cons-Reads env k w o ih ihs.0)
        ]

-- A value that holds no double, only integers of 64 bits and objects whose keys are in ascending order,
-- each once, is parsed back from the text that the serializer makes of it, however deep it is.
pub parse-serialize : (env : Env) (v : Value) → Printable v → parse env (serialize env v) ≡ some v
unfolding parse parse_text serialize
parse-serialize env v h =
    let whole = value-Reads env v [] (parse_fuel (print env v)) (omega arith) h tt in
    let no_blank = skip_ws-print env v [] h in
    rw (rw (append-nil (print env v)) at no_blank, rw (append-nil (print env v)) at whole) refl

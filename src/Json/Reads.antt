-- ===== src/Json/Reads.antt =====
-- The loops of the parser of src/server/vendor/mini_json.hpp on a text that its serializer made.
use lan_chat_next.Prelude.{
  ◌≤◌, ℕ, zero, suc, ◌+◌, ◌*◌, ◌<◌, ◌≡◌, refl, true, false, ◌∷◌, ◌++◌, String, length, arith,
  nat_eq,
}
use lan_chat_next.Json.{Value, Items, Object, put}
use lan_chat_next.Env.{Env, Bytes}
use lan_chat_next.Json.Printer.{quoted, print, print_items, print_fields}
use lan_chat_next.Json.Parser.{
  Parsed, skip_ws, next_is, expect, parse_array, parse_object, after_element, after_key,
  after_field, parse_value, parse_elements, parse_fields,
}
use lan_chat_next.Json.Assigned.{assigned}
use lan_chat_next.Json.Numbers.{Ends}
use lan_chat_next.Json.Reading.{
  parse_string-quoted, Printable, PrintableItems, PrintableFields, skip_ws-print, Ends-items,
  Ends-fields, skip_ws-items, skip_ws-fields,
}
use Value.{arr, obj}
use Items.{cons}
use Object.{end, field}
use Parsed.{got}

-- With this much fuel, the text of a value is read off the front of any input.
abbrev pub ReadsValue : Env → Value → Type 0
ReadsValue env v =
    (rest : Bytes) (f : ℕ)
    → 2 * length (print env v) < f
    → Printable v
    → Ends rest
    → parse_value env f (print env v ++ rest) ≡ got v rest

-- The elements behind the one that `after_element` was called with.
abbrev pub ReadsItems : Env → Items → Type 0
ReadsItems env vs =
    (v : Value) (rest : Bytes) (f : ℕ)
    → 2 * length (print_items env false vs) < f
    → PrintableItems vs
    → after_element (parse_elements env f) v (print_items env false vs ++ rest)
      ≡ got (cons v vs) rest

abbrev pub ReadsFields : Env → Object → Type 0
ReadsFields env o =
    (acc : Object) (rest : Bytes) (f : ℕ)
    → 2 * length (print_fields env false o) < f
    → PrintableFields o
    → after_field (parse_fields env f) acc (print_fields env false o ++ rest)
      ≡ got (assigned acc o) rest

pub skip_ws-quoted : (k : String) (rest : Bytes) → skip_ws (quoted k ++ rest) ≡ quoted k ++ rest
unfolding skip_ws quoted
skip_ws-quoted k rest = refl

pub next_is-quoted : (k : String) (rest : Bytes) → next_is b'}' (quoted k ++ rest) ≡ false
unfolding next_is quoted
next_is-quoted k rest = refl

after_key-colon :
    (value : Bytes → Parsed Value) (s : Bytes) → after_key value (b':' ∷ s) ≡ value (skip_ws s)
unfolding after_key expect skip_ws
after_key-colon value s = refl

-- A call of the parser gives one unit of its fuel to the calls that it makes.
pub with_unit :
    {bound : ℕ} (Reads : ℕ → Type 0)
    → ((left : ℕ) → bound ≤ left → Reads (suc left))
    → (fuel : ℕ) → bound < fuel
    → Reads fuel
with_unit Reads calls (suc left) enough = calls left (omega arith)
with_unit Reads calls zero enough = absurd (omega arith)

-- An element and those behind it.
pub elements-Reads :
    (env : Env) (v : Value) (vs : Items)
    → ReadsValue env v
    → ReadsItems env vs
    → (rest : Bytes) (f : ℕ) → Printable v
    → PrintableItems vs
    → 2 * length (print env v) < f
    → 2 * length (print_items env false vs) < f
    → parse_elements env (suc f) (print env v ++ (print_items env false vs ++ rest))
      ≡ got (cons v vs) rest
unfolding parse_value
elements-Reads env v vs h k rest f p q a b =
    rw
      (
        h (print_items env false vs ++ rest) f a p (Ends-items env vs rest),
        skip_ws-items env vs rest,
      )
      (k v rest f b q)

pub fields-Reads :
    (env : Env) (k : String) (v : Value) (o : Object)
    → ReadsValue env v
    → ReadsFields env o
    → (acc : Object) (rest : Bytes) (f : ℕ) → Printable v
    → PrintableFields o
    → 2 * length (print env v) < f
    → 2 * length (print_fields env false o) < f
    → parse_fields env
        (suc f)
        acc
        (quoted k ++ (b':' ∷ (print env v ++ (print_fields env false o ++ rest))))
      ≡ got (assigned acc (field k v o)) rest
unfolding parse_fields assigned
fields-Reads env k v o h h' acc rest f p q a b =
    let more = print_fields env false o ++ rest in
    rw
      (
        skip_ws-quoted k (b':' ∷ (print env v ++ more)),
        parse_string-quoted k (b':' ∷ (print env v ++ more)),
        after_key-colon (parse_value env f) (print env v ++ more),
        skip_ws-print env v more p,
        h more f a p (Ends-fields env o rest),
        skip_ws-fields env o rest,
      )
      (h' (put k v acc) rest f b q)

-- A whole array, and a whole object.
abbrev pub ReadsArray : Env → Items → Type 0
ReadsArray env vs =
    (rest : Bytes) (f : ℕ)
    → 2 * length (print_items env true vs) + 1 < f
    → PrintableItems vs
    → parse_array (parse_elements env f) (skip_ws (print_items env true vs ++ rest))
      ≡ got (arr vs) rest

abbrev pub ReadsObject : Env → Object → Type 0
ReadsObject env o =
    (rest : Bytes) (f : ℕ)
    → 2 * length (print_fields env true o) + 1 < f
    → PrintableFields o
    → parse_object (parse_fields env f end) (skip_ws (print_fields env true o ++ rest))
      ≡ got (obj (assigned end o)) rest

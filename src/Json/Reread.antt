-- ===== src/Json/Reread.antt =====
-- What the parser of src/server/vendor/mini_json.hpp reads in the text that the serializer made of a
-- value it had read before.
use lan_chat_next.Prelude.{◌≡◌, some}
use lan_chat_next.Json.{Value, Items, Object}
use lan_chat_next.Json.Reading.{Printable, PrintableItems, PrintableFields}
use lan_chat_next.Json.RoundTrip.{parse-serialize}
use lan_chat_next.Json.Formed.{Formed, FormedItems, FormedFields}
use lan_chat_next.Json.Received.{parse-Formed}
use lan_chat_next.Json.Printer.{serialize}
use lan_chat_next.Json.Parser.{parse}
use lan_chat_next.Env.{Env, Bytes}
use Value.{null, bool, int, float, str, arr, obj}
use Items.{nil, cons}
use Object.{end, field}

-- No number in the value has a fraction.
unfoldable mutual
  pub NoDouble : Value → Type 0
  NoDouble (float d) = ⊥
  NoDouble (arr vs) = NoDoubles vs
  NoDouble (obj o) = NoDoubleFields o
  NoDouble null = Unit {0}
  NoDouble (bool b) = Unit {0}
  NoDouble (int i) = Unit {0}
  NoDouble (str s) = Unit {0}

  pub NoDoubles : Items → Type 0
  NoDoubles nil = Unit {0}
  NoDoubles (cons v vs) = NoDouble v × NoDoubles vs

  pub NoDoubleFields : Object → Type 0
  NoDoubleFields end = Unit {0}
  NoDoubleFields (field k v o) = NoDouble v × NoDoubleFields o

Formed-Printable : (v : Value) → Formed v → NoDouble v → Printable v
unfolding Formed NoDouble Printable
Formed-Printable v =
    elim v
      as (λ v. Formed v → NoDouble v → Printable v) (λ vs.
        FormedItems vs → NoDoubles vs → PrintableItems vs) (λ o.
          FormedFields o → NoDoubleFields o → PrintableFields o) [
            | null ↦ λ h d. tt
            | bool b ↦ λ h d. tt
            | int i ↦ λ h d. h
            | float x ↦ λ h d. d
            | str s ↦ λ h d. tt
            | arr (vs → ih) ↦ ih
            | obj (o → ih) ↦ λ h d. (h.0, ih h.1 d)
            | nil ↦ λ h d. tt
            | cons (w → ih) (vs → ihs) ↦ λ h d. (ih h.0 d.0, ihs h.1 d.1)
            | end ↦ λ h d. tt
            | field k (w → ih) (o → ihs) ↦ λ h d. (ih h.0 d.0, ihs h.1 d.1)
          ]

-- A value without doubles that the parser made of any text, however that text was spaced, escaped or
-- ordered, is what it reads again in the text that the serializer makes of the value.
pub parse-serialize_parsed :
    (env : Env) (s : Bytes) (v : Value)
    → parse env s ≡ some v
    → NoDouble v
    → parse env (serialize env v) ≡ some v
parse-serialize_parsed env s v e d =
    parse-serialize env v (Formed-Printable v (parse-Formed env s v e) d)

-- ===== src/Samples/Texts.antt =====
-- JSON texts, requests, and messages in the file of the database.
use lan_chat_next.Prelude.{codes, stoll, text_of, ◌≡◌, ◌≢◌, refl, some, [], ◌∷◌, pos, negsuc, arith}
use lan_chat_next.Env.{Bytes}
use lan_chat_next.Json.{Value, Items, Object, put}
use lan_chat_next.Json.Order.{IsSorted}
use lan_chat_next.Json.Reading.{Printable}
use lan_chat_next.Json.Printer.{serialize}
use lan_chat_next.Json.Parser.{parse, parse_text, exhausted}
use lan_chat_next.Json.Fuel.{parse_text_total}
use lan_chat_next.Json.Reread.{NoDouble, parse-serialize_parsed}
use lan_chat_next.Json.RoundTrip.{parse-serialize}
use lan_chat_next.Samples.{sample_env}
use Object.{end, field}

-- {"items":[-7,null,"a\"b"],"type":5}
abbrev request : Object
request = field "items" (Value.arr parts) (field "type" (Value.int (pos 5)) end)
  where
    parts : Items
    parts =
        Items.cons (Value.int (negsuc 6))
          (Items.cons Value.null (Items.cons (Value.str "a\"b") Items.nil))

request-Printable : Printable (Value.obj request)
unfolding Printable IsSorted
request-Printable = (((refl, tt), (tt, tt)), ((omega arith, (tt, (tt, tt))), (omega arith, tt)))

parse-serialize_example :
    parse sample_env (serialize sample_env (Value.obj request)) ≡ some (Value.obj request)
parse-serialize_example = parse-serialize sample_env (Value.obj request) request-Printable

-- {"b": 1, "a": [-2]} with a blank behind each colon
abbrev received : Bytes
received = codes "{\"b\": 1, \"a\": [-2]} "

abbrev received_value : Value
received_value = Value.obj (
    field "a" (Value.arr (Items.cons (Value.int (negsuc 1)) Items.nil))
      (field "b" (Value.int (pos 1)) end))

parse-received : parse sample_env received ≡ some received_value
unfolding parse stoll put text_of
parse-received = refl

received-NoDouble : NoDouble received_value
unfolding NoDouble
received-NoDouble = ((tt, tt), (tt, tt))

parse-serialize_parsed_example :
    parse sample_env (serialize sample_env received_value) ≡ some received_value
parse-serialize_parsed_example =
    parse-serialize_parsed sample_env received received_value parse-received received-NoDouble

parse_text_total_example : parse_text sample_env (b'[' ∷ b'{' ∷ []) ≢ exhausted
parse_text_total_example = parse_text_total sample_env (b'[' ∷ b'{' ∷ [])

-- {"type":5,"id":1001}, in the order in which a client writes it
abbrev posted : Bytes
posted = codes "{\"type\":5,\"id\":1001}"

abbrev posted_fields : Object
posted_fields = field "id" (Value.int (pos 1001)) (field "type" (Value.int (pos 5)) end)

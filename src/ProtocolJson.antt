-- ===== src/ProtocolJson.antt =====
-- src/server/include/lanchat/server/ProtocolJson.h: typed reads of a request, and the two answers
-- that most handlers give.
use lan_chat_next.Prelude.{
  ℕ, String, Bool, true, false, Option, none, some, ℤ, pos, negsuc, to_int32, if◌then◌else◌,
}
use lan_chat_next.Json.{Value, Object, get, put, is_number, is_string, as_int, as_string}
use lan_chat_next.Protocol.{MsgType, to_int, from_int}
use Object.{end}

-- `has`
unfoldable pub has : Object → String → Bool
has o k = elim (get o k) [ none ↦ false | some v ↦ true ]

abbrev int_or : ℤ → Option Value → ℤ
int_or fallback none = fallback
int_or fallback (some v) = if is_number v then to_int32 (as_int v) else fallback

-- `intField`: the value is cast to `int`.
unfoldable pub int_field : Object → String → ℤ → ℤ
int_field o k fallback = int_or fallback (get o k)

abbrev int64_or : ℤ → Option Value → ℤ
int64_or fallback none = fallback
int64_or fallback (some v) = if is_number v then as_int v else fallback

-- `int64Field`
unfoldable pub int64_field : Object → String → ℤ → ℤ
int64_field o k fallback = int64_or fallback (get o k)

abbrev string_or : String → Option Value → String
string_or fallback none = fallback
string_or fallback (some v) = if is_string v then as_string v else fallback

-- `stringField`
unfoldable pub string_field : Object → String → String → String
string_field o k fallback = string_or fallback (get o k)

-- `typeField`
unfoldable pub type_field : Object → MsgType
unfolding int_field from_int
type_field o = from_int (int_field o "type" (negsuc 0))

-- `ok(type, msg)`, before it is serialized
unfoldable pub ok_response : MsgType → String → Object
unfolding to_int
ok_response type msg =
    put "msg" (Value.str msg)
      (put "status" (Value.str "ok") (put "type" (Value.int (to_int type)) end))

-- `error(type, code, msg)`, before it is serialized
unfoldable pub error_response : MsgType → ℕ → String → Object
unfolding to_int
error_response type code msg = put "msg" (Value.str msg) (
    put "code" (Value.int (pos code))
      (put "status" (Value.str "error") (put "type" (Value.int (to_int type)) end)))

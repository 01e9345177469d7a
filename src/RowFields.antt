-- ===== src/RowFields.antt =====
-- The functions `asInt`, `asInt64`, `asString` and `asBool` of MessageRepository.cpp and
-- ChannelRepository.cpp: typed reads of a row.
use lan_chat_next.Prelude.{
  String, ◌<◌, ◌≡◌, Bool, false, not, Option, none, some, ℤ, pos, negsuc, to_int32, ◌==◌, int_eq,
  ◌^◌, if◌then◌else◌, arith,
}
use lan_chat_next.Json.{Value, Object, get, is_number, is_string, as_int, as_string}

abbrev int_or_zero : Option Value → ℤ
int_or_zero none = pos 0
int_or_zero (some v) = if is_number v then to_int32 (as_int v) else pos 0

-- `asInt`
unfoldable pub row_int : Object → String → ℤ
row_int row k = int_or_zero (get row k)

abbrev int64_or_zero : Option Value → ℤ
int64_or_zero none = pos 0
int64_or_zero (some v) = if is_number v then as_int v else pos 0

-- `asInt64`
unfoldable pub row_int64 : Object → String → ℤ
row_int64 row k = int64_or_zero (get row k)

abbrev string_or : String → Option Value → String
string_or fallback none = fallback
string_or fallback (some v) = if is_string v then as_string v else fallback

-- `asString`
unfoldable pub row_string : Object → String → String → String
row_string row k fallback = string_or fallback (get row k)

-- A number counts as whether it is not 0, and `as_int` of a double is 0.
abbrev bool_or_false : Option Value → Bool
bool_or_false none = false
bool_or_false (some (Value.bool b)) = b
bool_or_false (some (Value.int i)) = not (i == pos 0)
bool_or_false (some v) = false

-- `asBool`
unfoldable pub row_bool : Object → String → Bool
row_bool row k = bool_or_false (get row k)

-- The values of a C++ `int`.
abbrev pub IsInt : ℤ → Type 0
IsInt (pos n) = n < 2 ^ 31
IsInt (negsuc n) = n < 2 ^ 31

pub to_int32_lem : (x : ℤ) → IsInt x → to_int32 x ≡ x
unfolding to_int32
to_int32_lem (pos n) h = ground arith
to_int32_lem (negsuc n) h = ground arith

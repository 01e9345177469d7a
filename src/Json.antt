-- ===== src/Json.antt =====
-- src/server/vendor/mini_json.hpp: the values, and `std::map<std::string, Value>`. The parser and
-- the serializer of that header are in Parser and Printer.
pub mod Fields
pub mod Printer
pub mod Parser
pub mod Leaves
pub mod Fuel
pub mod Numbers
pub mod Order
pub mod Assigned
pub mod Reading
pub mod Reads
pub mod RoundTrip
pub mod Nul
pub mod Formed
pub mod Received
pub mod Reread
use Prim.Native.String.{compare}
use text.Mathlib.Text.{is_lt}
use lan_chat_next.Prelude.{
  ℕ, String, Bool, true, false, Option, none, some, List, [], ◌∷◌, ℤ, pos, ◌==◌, if◌then◌else◌,
  string_eq,
}

-- A `double` is the number that its 64 bits stand for as an integer.
mutual
  pub data Value : Type 0 where
    null : Value
    bool : Bool → Value
    int : ℤ → Value
    float : ℕ → Value
    str : String → Value
    arr : Items → Value
    obj : Object → Value

  -- `Array`
  pub data Items : Type 0 where
    nil : Items
    cons : Value → Items → Items

  -- `Object`: the entries of the map, in the order of the keys.
  pub data Object : Type 0 where
    end : Object
    field : String → Value → Object → Object

-- An `Array` filled by push_back.
abbrev pub items : List Value → Items
items [] = nil
items (v ∷ vs) = cons v (items vs)

abbrev pub is_number : Value → Bool
is_number (int i) = true
is_number (float d) = true
is_number _ = false

abbrev pub is_string : Value → Bool
is_string (str s) = true
is_string _ = false

abbrev pub is_bool : Value → Bool
is_bool (bool b) = true
is_bool _ = false

-- `as_int` returns the member `i`, which is 0 for every kind but Int.
abbrev pub as_int : Value → ℤ
as_int (int i) = i
as_int _ = pos 0

-- `as_string` returns the member `s`, which is empty for every kind but String.
abbrev pub as_string : Value → String
as_string (str s) = s
as_string _ = ""

-- `obj.find(key)`
unfoldable pub get : Object → String → Option Value
get end k = none
get (field j v m) k = if j == k then some v else get m k

-- `obj[key] = value`
unfoldable pub put : String → Value → Object → Object
put k v end = field k v end
put k v (field j w m) =
    let rest = put k v m in
    if j == k
    then field k v m
    else if is_lt (compare k j)
    then field k v (field j w m)
    else field j w rest

-- Assignments obj[key] = value, one after the other.
unfoldable pub with_fields : Object → List (String × Value) → Object
with_fields o [] = o
with_fields o ((k, v) ∷ rest) = with_fields (put k v o) rest

unfoldable pub object : List (String × Value) → Object
unfolding with_fields
object entries = with_fields end entries

-- ===== src/Json/Printer.antt =====
-- The serializer of src/server/vendor/mini_json.hpp, on the bytes of the text that it builds.
use lan_chat_next.Prelude.{
  ℕ, String, Bool, true, false, [], ◌∷◌, ◌++◌, ◌==◌, nat_eq, if◌then◌else◌, codes, to_string,
}
use lan_chat_next.Json.{Value, Items, Object}
use lan_chat_next.Env.{Env, Bytes}
use Value.{null, bool, int, float, str, arr, obj}
use Items.{nil, cons}
use Object.{end, field}

-- What `serialize_string` appends for a character.
unfoldable pub escape : ℕ → Bytes
escape c =
    if c == b'"'
    then b'\\' ∷ b'"' ∷ []
    else if c == b'\\'
    then b'\\' ∷ b'\\' ∷ []
    else if c == b'\n'
    then b'\\' ∷ b'n' ∷ []
    else if c == b'\r'
    then b'\\' ∷ b'r' ∷ []
    else if c == b'\t'
    then b'\\' ∷ b't' ∷ []
    else c ∷ []

-- The loop of `serialize_string`, with the closing quote.
unfoldable pub escaped : Bytes → Bytes
escaped [] = b'"' ∷ []
escaped (c ∷ cs) = escape c ++ escaped cs

-- `serialize_string`
unfoldable pub quoted : String → Bytes
unfolding escaped
quoted s = b'"' ∷ escaped (codes s)

-- if (i > 0) out += ',';
abbrev pub comma : Bool → Bytes → Bytes
comma true text = text
comma false text = b',' ∷ text

-- `detail::serialize`, with the loops over an array and over the entries of an object; `first` is
-- whether the loop is in its first round.
unfoldable mutual
  unfolding quoted

  pub print : Env → Value → Bytes
  print env null = codes "null"
  print env (bool true) = codes "true"
  print env (bool false) = codes "false"
  print env (int i) = codes (to_string i)
  print env (float d) = env.show_double d
  print env (str s) = quoted s
  print env (arr vs) = b'[' ∷ print_items env true vs
  print env (obj o) = b'{' ∷ print_fields env true o

  pub print_items : Env → Bool → Items → Bytes
  print_items env first nil = b']' ∷ []
  print_items env first (cons v vs) = comma first (print env v ++ print_items env false vs)

  pub print_fields : Env → Bool → Object → Bytes
  print_fields env first end = b'}' ∷ []
  print_fields env first (field k v o) =
      comma first (quoted k ++ b':' ∷ (print env v ++ print_fields env false o))

-- `vendor::json::serialize`
unfoldable pub serialize : Env → Value → Bytes
unfolding print
serialize env v = print env v

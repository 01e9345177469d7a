-- ===== src/Bcrypt.antt =====
-- src/server/vendor/lanchat_bcrypt.hpp: passwords and the bcrypt library.
pub mod Laws
use Prim.Native.Char.{code}
use lan_chat_next.Prelude.{
  ℕ, zero, suc, ◌+◌, ◌%◌, String, Bool, true, false, Option, none, some, List, [], ◌∷◌, ◌==◌,
  nat_eq, string_eq, if◌then◌else◌, codes, text_of,
}
use lan_chat_next.Env.{Env, Bytes}

-- The loop of `random_bytes`, from the position `i` on.
unfoldable pub random_from : Env → ℕ → ℕ → Bytes
random_from env i zero = []
random_from env i (suc n) = env.mt19937_64 i % 256 ∷ random_from env (suc i) n

-- `random_bytes`
unfoldable pub random_bytes : Env → ℕ → Bytes
unfolding random_from
random_bytes env n = random_from env 0 n

-- The characters in front of the first NUL.
unfoldable pub until_nul : Bytes → Bytes
until_nul [] = []
until_nul (c ∷ cs) = let rest = until_nul cs in if c == 0 then [] else c ∷ rest

-- What a function of C sees of `c_str()`.
unfoldable pub c_str : String → String
unfolding until_nul
c_str s = text_of (until_nul (codes s))

abbrev pub or_empty : Option String → String
or_empty none = ""
or_empty (some s) = s

abbrev pub with_setting : Env → String → Option String → Option String
with_setting env password none = none
with_setting env password (some setting) = env.crypt_rn (c_str password) setting

-- `hash_password`; it returns the empty text where the library fails
unfoldable pub hash_password : Env → String → ℕ → String
unfolding c_str
hash_password env password cost =
    or_empty (with_setting env password (env.crypt_gensalt_rn "$2b$" cost (random_bytes env 16)))

-- stored.rfind("$2", 0) == 0
unfoldable pub starts_as_bcrypt : Bytes → Bool
starts_as_bcrypt [] = false
starts_as_bcrypt (c ∷ []) = false
starts_as_bcrypt (c ∷ d ∷ cs) = if c == b'$' then d == b'2' else false

abbrev pub same_as : String → Option String → Bool
same_as stored none = false
same_as stored (some output) = stored == output

-- `verify_password`
unfoldable pub verify_password : Env → String → String → Bool
unfolding starts_as_bcrypt c_str
verify_password env password stored =
    if starts_as_bcrypt (codes stored)
    then same_as stored (env.crypt_rn (c_str password) (c_str stored))
    else false

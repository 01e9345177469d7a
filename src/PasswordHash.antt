-- ===== src/PasswordHash.antt =====
-- src/server/vendor/sha256.hpp: the salted hash that accounts have from before bcrypt. Its arithmetic
-- is that of std::uint64_t.
pub mod Laws
use Prim.Native.Nat.{bit_xor, bit_or}
use Prim.Native.String.{◌++◌ as str_append}
use lan_chat_next.Prelude.{
  ℕ, zero, suc, ◌+◌, ◌-◌, ◌*◌, ◌/◌, ◌%◌, ◌^◌, String, Bool, true, false, Option, none, some, List,
  [], ◌∷◌, ◌==◌, nat_eq, string_eq, if◌then◌else◌, ltb, codes, text_of,
}
use lan_chat_next.Env.{Env, Bytes}

-- hex[digit & 15], and the digits that std::hex writes.
unfoldable pub hex_digit : ℕ → ℕ
hex_digit digit = if ltb (digit % 16) 10 then digit % 16 + b'0' else digit % 16 - 10 + b'a'

-- The loop of `generate_salt`, from the position `i` on.
unfoldable pub salt_from : Env → ℕ → ℕ → Bytes
unfolding hex_digit
salt_from env i zero = []
salt_from env i (suc n) = hex_digit (env.mt19937 i) ∷ salt_from env (suc i) n

-- `generate_salt`
unfoldable pub generate_salt : Env → ℕ → String
unfolding salt_from
generate_salt env len = text_of (salt_from env 0 (len * 2))

-- ((h << 5) + h) ^ c
unfoldable pub mix : ℕ → ℕ → ℕ
mix h c = bit_xor ((h * 32 % 2 ^ 64 + h) % 2 ^ 64) c

unfoldable pub mix_all : ℕ → Bytes → ℕ
unfolding mix
mix_all h [] = h
mix_all h (c ∷ cs) = mix_all (mix h c) cs

-- A round of the loop that makes the hash slower, and `n` of them from the counter `i` on.
unfoldable pub stretch : ℕ → ℕ → ℕ
stretch i h =
    let rotated = bit_or (h * 128 % 2 ^ 64) (h / 2 ^ 57) in
    bit_xor (bit_xor rotated (h * 0x9E3779B97F4A7C15 % 2 ^ 64)) i

unfoldable pub stretch_from : ℕ → ℕ → ℕ → ℕ
unfolding stretch
stretch_from i zero h = h
stretch_from i (suc n) h = stretch_from (suc i) n (stretch i h)

-- The last `n` hexadecimal digits of a number, with zeros in front.
unfoldable pub hex : ℕ → ℕ → Bytes → Bytes
unfolding hex_digit
hex zero h later = later
hex (suc n) h later = hex n (h / 16) (hex_digit h ∷ later)

-- `hash_password`
unfoldable pub hash_password : String → String → String
unfolding mix_all stretch_from hex
hash_password password salt =
    let h = mix_all (mix_all 0x1505 (codes salt)) (codes password) in
    text_of (hex 16 (stretch_from 0 10000 h) [])

-- `make_hash`
unfoldable pub make_hash : Env → String → String
unfolding generate_salt
make_hash env password =
    let salt = generate_salt env 16 in
    str_append "sha256:" (str_append salt (str_append ":" (hash_password password salt)))

-- What stands behind `expected`, where the text begins with it.
unfoldable pub behind : Bytes → Bytes → Option Bytes
behind [] s = some s
behind (c ∷ expected) [] = none
behind (c ∷ expected) (d ∷ s) = let rest = behind expected s in if c == d then rest else none

abbrev pub with_front : ℕ → Option (Bytes × Bytes) → Option (Bytes × Bytes)
with_front c none = none
with_front c (some (front, rest)) = some (c ∷ front, rest)

-- The parts in front of the first ':' and behind it.
unfoldable pub at_colon : Bytes → Option (Bytes × Bytes)
at_colon [] = none
at_colon (c ∷ s) = let rest = at_colon s in if c == b':' then some ([], s) else with_front c rest

abbrev pub verify_parts : String → Option (Bytes × Bytes) → Bool
verify_parts password none = false
verify_parts password (some (salt, hash)) = hash_password password (text_of salt) == text_of hash

abbrev pub verify_body : String → String → Option Bytes → Bool
verify_body password stored none = password == stored
verify_body password stored (some body) = verify_parts password (at_colon body)

-- `verify_hash`; a text without the prefix is the password itself
unfoldable pub verify_hash : String → String → Bool
unfolding behind at_colon
verify_hash password stored = verify_body password stored (behind (codes "sha256:") (codes stored))

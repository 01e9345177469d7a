-- ===== src/PasswordHash/Laws.antt =====
-- A password against the hash that was made of it (src/server/vendor/sha256.hpp).
use Prim.Native.String.{◌++◌ as str_append}
use lan_chat_next.Prelude.{
  ℕ, zero, suc, ◌*◌, ◌<◌, ◌↔◌, eq_iff, AreSmall, codes-text_of, ◌≡◌, refl, String, true, false,
  none, some, [], ◌∷◌, ◌++◌, ◌==◌, string_eq, nat_eq, beq_self, codes, codes-append, text_of-codes,
  arith,
}
use lan_chat_next.Env.{Env, Bytes}
use lan_chat_next.PasswordHash.{
  hex_digit, salt_from, generate_salt, hash_password, make_hash, behind, at_colon, verify_hash,
}

-- No ':' in a text.
abbrev NoColon : Bytes → Type 0
NoColon [] = Unit {0}
NoColon (c ∷ cs) = ((c == b':') ≡ false) × NoColon cs

hex_digit-no_colon : (n : ℕ) → (hex_digit n == b':') ≡ false
unfolding hex_digit
hex_digit-no_colon n = ground arith

at_colon-append :
    (front rest : Bytes) → NoColon front → at_colon (front ++ b':' ∷ rest) ≡ some (front, rest)
unfolding at_colon
at_colon-append [] rest h = refl
at_colon-append (c ∷ front) rest h = rw (h.0, at_colon-append front rest h.1) refl

verify_hash-parts :
    (password salt : String)
    → NoColon (codes salt)
    → verify_hash password
        (str_append "sha256:" (str_append salt (str_append ":" (hash_password password salt))))
      ≡ true
unfolding verify_hash
verify_hash-parts password salt h =
    let hash = hash_password password salt in
    rw
      (
        codes-append "sha256:" (str_append salt (str_append ":" hash)),
        codes-append salt (str_append ":" hash),
        codes-append ":" hash,
        at_colon-append (codes salt) (codes hash) h,
        text_of-codes salt,
        text_of-codes hash,
      )
      (beq_self hash)

hex_digit-small : (n : ℕ) → hex_digit n < 55296
unfolding hex_digit
hex_digit-small n = ground arith

salt-small : (env : Env) (i n : ℕ) → AreSmall (salt_from env i n)
unfolding salt_from
salt-small env i zero = tt
salt-small env i (suc n) = (hex_digit-small (env.mt19937 i), salt-small env (suc i) n)

salt-NoColon : (env : Env) (i n : ℕ) → NoColon (salt_from env i n)
unfolding salt_from
salt-NoColon env i zero = tt
salt-NoColon env i (suc n) = (hex_digit-no_colon (env.mt19937 i), salt-NoColon env (suc i) n)

generate_salt-NoColon : (env : Env) (len : ℕ) → NoColon (codes (generate_salt env len))
unfolding generate_salt
generate_salt-NoColon env len =
    rw (codes-text_of (salt_from env 0 (len * 2)) (salt-small env 0 (len * 2)))
      (salt-NoColon env 0 (len * 2))

-- What `make_hash` stores for a password is accepted for it, whatever salt was drawn.
pub verify_hash-make_hash :
    (env : Env) (password : String) → verify_hash password (make_hash env password) ≡ true
unfolding make_hash
verify_hash-make_hash env password =
    verify_hash-parts password (generate_salt env 16) (generate_salt-NoColon env 16)

-- A stored text without the prefix "sha256:" is taken for the password itself.
verify_hash-plain :
    (password stored : String)
    → behind (codes "sha256:") (codes stored) ≡ none
    → (verify_hash password stored ≡ true) ↔ (password ≡ stored)
unfolding verify_hash
verify_hash-plain password stored e = rw e (eq_iff password stored)

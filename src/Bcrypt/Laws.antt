-- ===== src/Bcrypt/Laws.antt =====
-- A password against the hash that was made of it (src/server/vendor/lanchat_bcrypt.hpp).
use lan_chat_next.Prelude.{
  ℕ, String, ◌≡◌, ◌≢◌, refl, true, some, Option-cases, inl, inr, string_eq, beq_self, codes,
}
use lan_chat_next.Env.{Env}
use lan_chat_next.Bcrypt.{random_bytes, c_str, hash_password, starts_as_bcrypt, verify_password}

-- What the manual of crypt(3) says of the library: a setting that crypt_gensalt_rn made for "$2b$"
-- gives hashes with that prefix and without a NUL, and a hash is itself a setting that gives the
-- same hash again.
pub record IsCrypt (env : Env) : Type 0 where
  pub again :
      (key setting hash : String)
      → env.crypt_rn key setting ≡ some hash
      → env.crypt_rn key hash ≡ some hash
  pub prefix :
      (cost : ℕ) (key setting hash : String)
      → env.crypt_gensalt_rn "$2b$" cost (random_bytes env 16) ≡ some setting
      → env.crypt_rn key setting ≡ some hash
      → starts_as_bcrypt (codes hash) ≡ true
  pub no_nul :
      (key setting hash : String) → env.crypt_rn key setting ≡ some hash → c_str hash ≡ hash

verify-crypt :
    (env : Env)
    → IsCrypt env
    → (cost : ℕ) (password setting hash : String)
    → env.crypt_gensalt_rn "$2b$" cost (random_bytes env 16) ≡ some setting
    → env.crypt_rn (c_str password) setting ≡ some hash
    → verify_password env password hash ≡ true
unfolding verify_password
verify-crypt env laws cost password setting hash e h =
    rw
      (
        laws.prefix cost (c_str password) setting hash e h,
        laws.no_nul (c_str password) setting hash h,
        laws.again (c_str password) setting hash h,
      )
      (beq_self hash)

-- A hash that `hash_password` could make, and is not empty, is accepted for its password.
pub verify_password-hash_password :
    (env : Env)
    → IsCrypt env
    → (password : String) (cost : ℕ) → hash_password env password cost ≢ ""
    → verify_password env password (hash_password env password cost) ≡ true
unfolding hash_password
verify_password-hash_password env laws password cost made =
    elim (Option-cases (env.crypt_gensalt_rn "$2b$" cost (random_bytes env 16))) [
      | inl e ↦ absurd (made (rw e refl))
      | inr (setting, e) ↦ elim (Option-cases (env.crypt_rn (c_str password) setting)) [
        | inl h ↦ absurd (made (rw (e, h) refl))
        | inr (hash, h) ↦ rw (e, h) (verify-crypt env laws cost password setting hash e h)
      ]
    ]

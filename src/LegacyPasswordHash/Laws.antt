-- ===== src/LegacyPasswordHash/Laws.antt =====
-- A password against the hash that was made of it (legacy/original-server/PasswordHash.h).
use lan_chat_next.Prelude.{
  ℕ, zero, suc, ◌≡◌, refl, true, false, [], ◌∷◌, ◌++◌, is_nil, ◌==◌, nat_eq, arith, beq_self,
  length, ◌<◌,
}
use lan_chat_next.Env.{Bytes}
use lan_chat_next.LegacyPasswordHash.{
  Qt, salt_from, generate_salt, compute_hash, hash, pieces, parts, same_bytes, verify,
  is_legacy_plaintext,
}

-- No '$' in a text.
abbrev pub NoDollar : Bytes → Type 0
NoDollar [] = Unit {0}
NoDollar (c ∷ cs) = ((c == b'$') ≡ false) × NoDollar cs

-- Numbers that a byte holds.
abbrev pub AreBytes : Bytes → Type 0
AreBytes [] = Unit {0}
AreBytes (c ∷ cs) = (c < 256) × AreBytes cs

-- What Qt's manual says: `fromHex` reads back what `toHex` writes, which is two hexadecimal digits for
-- each byte, and a SHA-256 hash has bytes.
pub record IsQt (qt : Qt) : Type 0 where
  pub hex_back : (bytes : Bytes) → AreBytes bytes → qt.from_hex (qt.to_hex bytes) ≡ bytes
  pub no_dollar : (bytes : Bytes) → NoDollar (qt.to_hex bytes)
  pub has_digits : (c : ℕ) (bytes : Bytes) → is_nil (qt.to_hex (c ∷ bytes)) ≡ false
  pub are_bytes : (bytes : Bytes) → AreBytes (qt.sha256 bytes)
  pub has_bytes : (bytes : Bytes) → 0 < length (qt.sha256 bytes)

same_bytes_self : (x : Bytes) → same_bytes x x ≡ true
same_bytes_self [] = refl
same_bytes_self (a ∷ x) = rw (beq_self a, same_bytes_self x) refl

pieces-plain : (text : Bytes) → NoDollar text → pieces text ≡ text ∷ []
unfolding pieces
pieces-plain [] h = refl
pieces-plain (c ∷ text) h = rw (h.0, pieces-plain text h.1) refl

pieces-append :
    (front rest : Bytes) → NoDollar front → pieces (front ++ b'$' ∷ rest) ≡ front ∷ pieces rest
unfolding pieces
pieces-append [] rest h = refl
pieces-append (c ∷ front) rest h = rw (h.0, pieces-append front rest h.1) refl

-- Two parts behind dollars.
parts_lem :
    (salt code : Bytes)
    → NoDollar salt
    → NoDollar code
    → is_nil salt ≡ false
    → is_nil code ≡ false
    → parts (b'$' ∷ (salt ++ b'$' ∷ code)) ≡ salt ∷ code ∷ []
unfolding parts pieces
parts_lem salt code h k e e' = rw (pieces-append salt code h, pieces-plain code k, e, e') refl

is_nil-to_hex :
    (qt : Qt) → IsQt qt → (bytes : Bytes) → 0 < length bytes → is_nil (qt.to_hex bytes) ≡ false
is_nil-to_hex qt laws [] h = absurd (omega arith)
is_nil-to_hex qt laws (c ∷ bytes) h = laws.has_digits c bytes

salt_from-AreBytes : (qt : Qt) (i n : ℕ) → AreBytes (salt_from qt i n)
unfolding salt_from
salt_from-AreBytes qt i zero = tt
salt_from-AreBytes qt i (suc n) = (omega arith, salt_from-AreBytes qt (suc i) n)

length-salt : (qt : Qt) → 0 < length (generate_salt qt 16)
unfolding generate_salt
length-salt qt = omega arith

-- A hash that `hash` makes is accepted for its password, and is not taken for a plain password.
pub verify-hash :
    (qt : Qt)
    → IsQt qt
    → (password : Bytes)
    → (verify qt password (hash qt password) ≡ true)
      × (is_legacy_plaintext (hash qt password) ≡ false)
unfolding verify hash is_legacy_plaintext compute_hash generate_salt
verify-hash qt laws password =
    let salt = generate_salt qt 16 in
    let code = compute_hash qt password salt in
    (
      rw
          (
            parts_lem (qt.to_hex salt) (qt.to_hex code) (laws.no_dollar salt) (laws.no_dollar code)
                (is_nil-to_hex qt laws salt (length-salt qt))
                (is_nil-to_hex qt laws code (laws.has_bytes (salt ++ password))),
            laws.hex_back salt (salt_from-AreBytes qt 0 16),
            laws.hex_back code (laws.are_bytes (salt ++ password)),
          )
          (same_bytes_self code),
      refl,
    )

-- ===== src/LegacyPasswordHash.antt =====
-- legacy/original-server/PasswordHash.h: the salted hashes of the original program. Its texts are
-- lists of the numbers of their characters.
pub mod Laws
use lan_chat_next.Prelude.{
  ℕ, zero, suc, ◌%◌, Bool, true, false, not, ◌&&◌, List, [], ◌∷◌, ◌++◌, keep, is_nil, ◌==◌, nat_eq,
  if◌then◌else◌,
}
use lan_chat_next.Env.{Bytes}

-- What the class calls of Qt: `QCryptographicHash::hash` with Sha256, `toHex` and `fromHex`; and the
-- bytes that its distribution draws, by their positions.
pub record Qt : Type 0 where
  pub sha256 : Bytes → Bytes
  pub to_hex : Bytes → Bytes
  pub from_hex : Bytes → Bytes
  pub drawn : ℕ → ℕ

unfoldable pub salt_from : Qt → ℕ → ℕ → Bytes
salt_from qt i zero = []
salt_from qt i (suc n) = qt.drawn i % 256 ∷ salt_from qt (suc i) n

-- `generateSalt`
unfoldable pub generate_salt : Qt → ℕ → Bytes
unfolding salt_from
generate_salt qt length = salt_from qt 0 length

-- `computeHash`
unfoldable pub compute_hash : Qt → Bytes → Bytes → Bytes
compute_hash qt password salt = qt.sha256 (salt ++ password)

-- `hash`
unfoldable pub hash : Qt → Bytes → Bytes
hash qt password =
    let salt = generate_salt qt 16 in
    b'$' ∷ (qt.to_hex salt ++ b'$' ∷ qt.to_hex (compute_hash qt password salt))

abbrev pub onto_first : ℕ → List Bytes → List Bytes
onto_first c [] = (c ∷ []) ∷ []
onto_first c (part ∷ parts) = (c ∷ part) ∷ parts

-- split('$'), with the empty parts.
unfoldable pub pieces : Bytes → List Bytes
pieces [] = [] ∷ []
pieces (c ∷ text) = let rest = pieces text in if c == b'$' then [] ∷ rest else onto_first c rest

-- split('$', Qt::SkipEmptyParts)
unfoldable pub parts : Bytes → List Bytes
unfolding pieces
parts text = keep (λ part. not (is_nil part)) (pieces text)

-- operator== of two QByteArrays
abbrev pub same_bytes : Bytes → Bytes → Bool
same_bytes [] [] = true
same_bytes (a ∷ x) (b ∷ y) = a == b && same_bytes x y
same_bytes _ _ = false

abbrev pub verify_parts : Qt → Bytes → List Bytes → Bool
verify_parts qt password (salt ∷ expected ∷ []) =
    same_bytes (compute_hash qt password (qt.from_hex salt)) (qt.from_hex expected)
verify_parts qt password _ = false

-- `verify`
unfoldable pub verify : Qt → Bytes → Bytes → Bool
unfolding compute_hash parts
verify qt password stored = verify_parts qt password (parts stored)

-- `isLegacyPlaintext`
unfoldable pub is_legacy_plaintext : Bytes → Bool
is_legacy_plaintext [] = true
is_legacy_plaintext (c ∷ text) = not (c == b'$')

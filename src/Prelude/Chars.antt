-- ===== src/Prelude/Chars.antt =====
-- The bytes of a text: a std::string is a list of bytes, and a text has one character for each.
use Prim.Native.Char.{Char, char, code, nul, IsScalar}
use Prim.Native.Nat.{ℕ, Ordering, compare, ◌<◌}
use Prim.Native.String.{String, ◌++◌ as str_append}
use mathlib.Core.Path.{◌≡◌, refl}
use mathlib.Core.List.{List, [], ◌∷◌, ◌++◌}
use text.Mathlib.TextEquality.{Char-path}
use text.Mathlib.TextLemmas.{nil-append, cons-append}
use native.Mathlib.Omega.{arith}
use lan_chat_next.Prelude.Text.{codes}

-- The character with this number; there is none in the gap of the surrogates, and none from
-- 1114112 on.
unfoldable pub character :
    (n : ℕ) (a b c : Ordering)
    → compare n 55296 ≡ a
    → compare 57343 n ≡ b
    → compare n 1114112 ≡ c
    → Char
character n Ordering.lt b c p q r = char n (rw p tt)
character n Ordering.gt Ordering.lt Ordering.lt p q r = char n (rw (p, q, r) tt)
character n a b c p q r = nul

unfoldable pub text_of : List ℕ → String
unfolding character
text_of [] = ""
text_of (n ∷ ns) =
    String.◌∷◌ (character n (compare n 55296) (compare 57343 n) (compare n 1114112) refl refl refl)
      (text_of ns)

code-character :
    (n : ℕ) (a b c : Ordering) (p : compare n 55296 ≡ a) (q : compare 57343 n ≡ b)
    (r : compare n 1114112 ≡ c)
    → IsScalar n
    → code (character n a b c p q r) ≡ n
unfolding character
code-character n Ordering.lt b c p q r h = refl
code-character n Ordering.gt Ordering.lt Ordering.lt p q r h = refl
code-character n Ordering.eq Ordering.lt c p q r h = absurd (ground (arith, p, q))
code-character n Ordering.eq Ordering.eq c p q r h = absurd (rw (p, q) at h)
code-character n Ordering.eq Ordering.gt c p q r h = absurd (rw (p, q) at h)
code-character n Ordering.gt Ordering.eq c p q r h = absurd (rw (p, q) at h)
code-character n Ordering.gt Ordering.gt c p q r h = absurd (rw (p, q) at h)
code-character n Ordering.gt Ordering.lt Ordering.eq p q r h = absurd (rw (p, q, r) at h)
code-character n Ordering.gt Ordering.lt Ordering.gt p q r h = absurd (rw (p, q, r) at h)

character-code :
    (c : Char)
    → character
        (code c)
        (compare (code c) 55296)
        (compare 57343 (code c))
        (compare (code c) 1114112)
        refl
        refl
        refl
      ≡ c
character-code (char n h) = Char-path _ (char n h) (code-character n _ _ _ refl refl refl h)

-- A text is found again from its bytes.
pub text_of-codes : (s : String) → text_of (codes s) ≡ s
unfolding text_of
text_of-codes String.[] = refl
text_of-codes (String.◌∷◌ c s) = rw (character-code c, text_of-codes s)

pub codes-append : (s t : String) → codes (str_append s t) ≡ codes s ++ codes t
codes-append String.[] t = rw (nil-append t) refl
codes-append (String.◌∷◌ c s) t = rw (cons-append c s t, codes-append s t) refl

-- The numbers that are below the gap, such as the bytes.
abbrev pub AreSmall : List ℕ → Type 0
AreSmall [] = Unit {0}
AreSmall (n ∷ ns) = (n < 55296) × AreSmall ns

compare-small : (n : ℕ) → n < 55296 → compare n 55296 ≡ Ordering.lt
compare-small n h = ground arith

IsScalar-small : (n : ℕ) → n < 55296 → IsScalar n
IsScalar-small n h = rw (compare-small n h) tt

-- Bytes are found again from their text.
pub codes-text_of : (ns : List ℕ) → AreSmall ns → codes (text_of ns) ≡ ns
unfolding text_of
codes-text_of [] h = refl
codes-text_of (n ∷ ns) h =
    rw (code-character n _ _ _ refl refl refl (IsScalar-small n h.0), codes-text_of ns h.1)

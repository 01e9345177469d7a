-- ===== src/Json/Numbers.antt =====
-- The integers of src/server/vendor/mini_json.hpp: what std::to_string writes, std::stoll and the loop
-- of `parse_number` read back.
use lan_chat_next.Prelude.{
  subst, ap, sym, ◌∙◌, inl, inr, ℕ, zero, suc, ◌+◌, ◌-◌, ◌*◌, ◌/◌, ◌%◌, ◌^◌, ◌<◌, ◌≡◌, refl, true,
  false, some, [], ◌∷◌, ◌++◌, ℤ, pos, negsuc, arith, Bool-cases, ltb, ltb→lt, ◌==◌, nat_eq,
  if◌then◌else◌, codes, codes-append, decimal, digit, to_string, is_digit, is_space, read_digits,
  read_number, negative_within, positive_within, stoll,
}
use lan_chat_next.Json.{Value}
use lan_chat_next.Env.{Env, Bytes}
use lan_chat_next.Json.Parser.{Parsed, Start, start_of, next_is, digits, parse_digits, parse_number}
use Value.{int}
use Parsed.{got}
use Start.{number_start}

abbrev pub Digits : Bytes → Type 0
Digits [] = Unit {0}
Digits (c ∷ cs) = (is_digit c ≡ true) × Digits cs

-- A decimal digit, by its value.
digit-codes : (n : ℕ) → n < 10 → codes (digit n) ≡ (n + 48) ∷ []
digit-codes zero h = refl
digit-codes (suc zero) h = refl
digit-codes (suc (suc zero)) h = refl
digit-codes (suc (suc (suc zero))) h = refl
digit-codes (suc (suc (suc (suc zero)))) h = refl
digit-codes (suc (suc (suc (suc (suc zero))))) h = refl
digit-codes (suc (suc (suc (suc (suc (suc zero)))))) h = refl
digit-codes (suc (suc (suc (suc (suc (suc (suc zero))))))) h = refl
digit-codes (suc (suc (suc (suc (suc (suc (suc (suc zero)))))))) h = refl
digit-codes (suc (suc (suc (suc (suc (suc (suc (suc (suc zero))))))))) h = refl
digit-codes (suc (suc (suc (suc (suc (suc (suc (suc (suc (suc n)))))))))) h = absurd (omega arith)

Digits-append : (xs ys : Bytes) → Digits xs → Digits ys → Digits (xs ++ ys)
Digits-append [] ys h k = k
Digits-append (x ∷ xs) ys h k = (h.0, Digits-append xs ys h.1 k)

read_digits-append :
    (n : ℕ) (xs ys : Bytes)
    → Digits xs
    → read_digits n (xs ++ ys) ≡ read_digits (read_digits n xs) ys
unfolding read_digits
read_digits-append n [] ys h = refl
read_digits-append n (x ∷ xs) ys h = rw (h.0, read_digits-append (n * 10 + (x - 48)) xs ys h.1) refl

-- The digits of a number, the last one apart.
codes-decimal :
    (f n : ℕ)
    → codes (decimal (suc f) n)
      ≡ (if ltb n 10 then (n + 48) ∷ [] else codes (decimal f (n / 10)) ++ (n % 10 + 48) ∷ [])
unfolding decimal
codes-decimal f n = elim (Bool-cases (ltb n 10)) [
  | inl e ↦ rw e (digit-codes n (ltb→lt n 10 e))
  | inr e ↦
      rw (e, codes-append (decimal f (n / 10)) (digit (n % 10)), digit-codes (n % 10) (omega arith))
        refl
]

is_digit_of : (n : ℕ) → n < 10 → is_digit (n + 48) ≡ true
is_digit_of n h = ground arith

pub decimal-Digits : (f n : ℕ) → Digits (codes (decimal f n))
unfolding decimal
decimal-Digits zero n = tt
decimal-Digits (suc f) n = rw (codes-decimal f n) (elim (Bool-cases (ltb n 10)) [
  | inl e ↦ rw e (is_digit_of n (ltb→lt n 10 e), tt)
  | inr e ↦ rw e (
      Digits-append (codes (decimal f (n / 10))) _ (decimal-Digits f (n / 10))
        (is_digit_of (n % 10) (omega arith), tt))
])

read_digits-decimal : (f n : ℕ) → n < 10 ^ f → read_digits 0 (codes (decimal f n)) ≡ n
unfolding read_digits
read_digits-decimal zero n h = unfold decimal in omega arith
read_digits-decimal (suc f) n h = rw (codes-decimal f n) (elim (Bool-cases (ltb n 10)) [
  | inl e ↦ rw e (unfold read_digits in rw (is_digit_of n (ltb→lt n 10 e)) (omega arith))
  | inr e ↦
      rw
        (
          e,
          read_digits-append 0 (codes (decimal f (n / 10))) ((n % 10 + 48) ∷ [])
              (decimal-Digits f (n / 10)),
          read_digits-decimal f (n / 10) (omega arith),
          is_digit_of (n % 10) (omega arith),
        )
        (omega arith)
])

-- The first digit.
first_of_snoc : (xs : Bytes) (y : ℕ) → (c : ℕ) × (cs : Bytes) × (xs ++ y ∷ [] ≡ c ∷ cs)
first_of_snoc [] y = (y, [], refl)
first_of_snoc (x ∷ xs) y = (x, xs ++ y ∷ [], refl)

decimal_first : (f n : ℕ) → (c : ℕ) × (cs : Bytes) × (codes (decimal (suc f) n) ≡ c ∷ cs)
decimal_first f n = rw (codes-decimal f n) (elim (Bool-cases (ltb n 10)) [
  | inl e ↦ rw e (n + 48, [], refl)
  | inr e ↦ rw e (first_of_snoc (codes (decimal f (n / 10))) (n % 10 + 48))
])

digit-not_space : (c : ℕ) → is_digit c ≡ true → is_space c ≡ false
digit-not_space c h = ground arith

digit-not_sign : (c : ℕ) → is_digit c ≡ true → ((c == 45) ≡ false) × ((c == 43) ≡ false)
digit-not_sign c h = ground arith

read_number-Digits :
    (c : ℕ) (cs : Bytes) → Digits (c ∷ cs) → read_number (c ∷ cs) ≡ some (read_digits 0 (c ∷ cs))
unfolding read_number
read_number-Digits c cs h = rw h.0 refl

stoll-Digits :
    (c : ℕ) (cs : Bytes)
    → Digits (c ∷ cs)
    → stoll (c ∷ cs) ≡ positive_within (2 ^ 63) (some (read_digits 0 (c ∷ cs)))
unfolding stoll
stoll-Digits c cs h =
    rw
      (
        digit-not_space c h.0,
        (digit-not_sign c h.0).0,
        (digit-not_sign c h.0).1,
        read_number-Digits c cs h,
      )
      refl

stoll-minus :
    (c : ℕ) (cs : Bytes)
    → Digits (c ∷ cs)
    → stoll (45 ∷ c ∷ cs) ≡ negative_within (2 ^ 63) (some (read_digits 0 (c ∷ cs)))
unfolding stoll
stoll-minus c cs h = rw (read_number-Digits c cs h) refl

-- The integers of 64 bits.
abbrev pub InInt64 : ℤ → Type 0
InInt64 (pos n) = n < 2 ^ 63
InInt64 (negsuc n) = n < 2 ^ 63

stoll-positive : (n : ℕ) → n < 2 ^ 63 → stoll (codes (decimal 20 n)) ≡ some (pos n)
stoll-positive n h =
    let first = decimal_first 19 n in
    let ds : Digits (first.0 ∷ first.1) = subst Digits first.2 (decimal-Digits 20 n) in
    let value : read_digits 0 (first.0 ∷ first.1) ≡ n =
      ap (read_digits 0) (sym first.2) ∙ read_digits-decimal 20 n (omega arith) in
    rw (first.2, stoll-Digits first.0 first.1 ds, value) (unfold positive_within in ground arith)

stoll-negative : (n : ℕ) → n < 2 ^ 63 → stoll (45 ∷ codes (decimal 20 (suc n))) ≡ some (negsuc n)
stoll-negative n h =
    let first = decimal_first 19 (suc n) in
    let ds : Digits (first.0 ∷ first.1) = subst Digits first.2 (decimal-Digits 20 (suc n)) in
    let value : read_digits 0 (first.0 ∷ first.1) ≡ suc n =
      ap (read_digits 0) (sym first.2) ∙ read_digits-decimal 20 (suc n) (omega arith) in
    rw (first.2, stoll-minus first.0 first.1 ds, value) (unfold negative_within in ground arith)

-- The text goes on with something that does not belong to a number.
abbrev pub Ends : Bytes → Type 0
Ends [] = Unit {0}
Ends (c ∷ cs) = (is_digit c ≡ false) × ((c == b'.') ≡ false)

digits_all : (xs rest : Bytes) → Digits xs → Ends rest → digits (xs ++ rest) ≡ (xs, rest)
unfolding digits
digits_all [] [] h k = refl
digits_all [] (c ∷ rest) h k = rw k.0 refl
digits_all (x ∷ xs) rest h k = rw (h.0, digits_all xs rest h.1 k) refl

next_is-Ends : (rest : Bytes) → Ends rest → next_is b'.' rest ≡ false
unfolding next_is
next_is-Ends [] k = refl
next_is-Ends (c ∷ cs) k = k.1

parse_digits-print :
    (env : Env) (sign xs rest : Bytes) (i : ℤ)
    → Digits xs
    → Ends rest
    → stoll (sign ++ xs) ≡ some i
    → parse_digits env sign (xs ++ rest) ≡ got (int i) rest
unfolding parse_digits
parse_digits-print env sign xs rest i h k e =
    rw (digits_all xs rest h k, next_is-Ends rest k, e) refl

pub to_string-pos : (n : ℕ) → codes (to_string (pos n)) ≡ codes (decimal 20 n)
unfolding to_string
to_string-pos n = refl

pub to_string-negsuc : (n : ℕ) → codes (to_string (negsuc n)) ≡ 45 ∷ codes (decimal 20 (suc n))
unfolding to_string
to_string-negsuc n = codes-append "-" (decimal 20 (suc n))

next_is-Digits :
    (xs rest : Bytes) (c : ℕ) (cs : Bytes)
    → xs ≡ c ∷ cs
    → Digits xs
    → next_is b'-' (xs ++ rest) ≡ false
unfolding next_is
next_is-Digits xs rest c cs e h = rw e (digit-not_sign c (subst Digits e h).0).0

-- A number that std::to_string wrote is read back.
pub parse_number-to_string :
    (env : Env) (i : ℤ) (rest : Bytes)
    → InInt64 i
    → Ends rest
    → parse_number env (codes (to_string i) ++ rest) ≡ got (int i) rest
unfolding parse_number next_is
parse_number-to_string env (pos n) rest h k =
    let first = decimal_first 19 n in
    let ds = decimal-Digits 20 n in
    rw (to_string-pos n, next_is-Digits (codes (decimal 20 n)) rest first.0 first.1 first.2 ds)
      (parse_digits-print env [] (codes (decimal 20 n)) rest (pos n) ds k (stoll-positive n h))
parse_number-to_string env (negsuc n) rest h k = rw (to_string-negsuc n) (
    parse_digits-print env (45 ∷ []) (codes (decimal 20 (suc n))) rest (negsuc n)
      (decimal-Digits 20 (suc n)) k (stoll-negative n h))

start_of-digit : (c : ℕ) (cs : Bytes) → is_digit c ≡ true → start_of (c ∷ cs) ≡ number_start
unfolding start_of
start_of-digit c cs h = ground arith

-- The text of a number is taken for a number.
pub start_of-to_string :
    (i : ℤ) (rest : Bytes) → start_of (codes (to_string i) ++ rest) ≡ number_start
start_of-to_string (pos n) rest =
    let first = decimal_first 19 n in
    let ds : Digits (first.0 ∷ first.1) = subst Digits first.2 (decimal-Digits 20 n) in
    rw (to_string-pos n, first.2) (start_of-digit first.0 (first.1 ++ rest) ds.0)
start_of-to_string (negsuc n) rest = rw (to_string-negsuc n) (unfold start_of in refl)

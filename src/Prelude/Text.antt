-- ===== src/Prelude/Text.antt =====
-- What the server does with std::string beyond comparing: std::to_string, `find`, and the parts of
-- a text.
use Prim.Native.String.{String, ◌++◌}
use Prim.Native.Char.{code}
use Prim.Native.Nat.{ℕ, zero, suc, ◌/◌, ◌%◌, ◌+◌, ◌*◌, ◌-◌, ◌^◌}
use mathlib.Core.List.{List, [], ◌∷◌}
use mathlib.Core.Bool.{Bool, true, false, ◌&&◌, ◌||◌}
use mathlib.Core.Option.{Option, none, some}
use text.Mathlib.Text.{find?}
use lan_chat_next.Prelude.Tests.{ltb, leb, ◌==◌, nat_eq, if◌then◌else◌}
use lan_chat_next.Prelude.Int.{ℤ, pos, negsuc}

abbrev pub digit : ℕ → String
digit zero = "0"
digit (suc zero) = "1"
digit (suc (suc zero)) = "2"
digit (suc (suc (suc zero))) = "3"
digit (suc (suc (suc (suc zero)))) = "4"
digit (suc (suc (suc (suc (suc zero))))) = "5"
digit (suc (suc (suc (suc (suc (suc zero)))))) = "6"
digit (suc (suc (suc (suc (suc (suc (suc zero))))))) = "7"
digit (suc (suc (suc (suc (suc (suc (suc (suc zero)))))))) = "8"
digit _ = "9"

-- The decimal digits of a number; a number has at most as many digits as its value and one more.
unfoldable pub decimal : ℕ → ℕ → String
decimal zero n = ""
decimal (suc fuel) n =
    let front = decimal fuel (n / 10) in if ltb n 10 then digit n else front ++ digit (n % 10)

-- std::to_string
unfoldable pub to_string : ℤ → String
unfolding decimal
to_string (pos n) = decimal 20 n
to_string (negsuc n) = "-" ++ decimal 20 (suc n)

-- s.find(t) != std::string::npos
unfoldable pub has_text : String → String → Bool
has_text s t = elim (find? s t) [ none ↦ false | some i ↦ true ]

-- The characters of a text, from its front.
abbrev pub codes : String → List ℕ
codes (String.◌∷◌ letter text) = code letter ∷ codes text
codes String.[] = []

abbrev pub is_space : ℕ → Bool
is_space c = c == 32 || (leb 9 c && leb c 13)

abbrev pub is_digit : ℕ → Bool
is_digit c = leb 48 c && leb c 57

unfoldable pub skip_spaces : List ℕ → List ℕ
skip_spaces [] = []
skip_spaces (c ∷ cs) = let rest = skip_spaces cs in if is_space c then rest else c ∷ cs

unfoldable pub read_digits : ℕ → List ℕ → ℕ
read_digits n [] = n
read_digits n (c ∷ cs) =
    let rest = read_digits (n * 10 + (c - 48)) cs in if is_digit c then rest else n

unfoldable pub read_number : List ℕ → Option ℕ
read_number [] = none
read_number (c ∷ cs) = if is_digit c then some (read_digits 0 (c ∷ cs)) else none

-- A magnitude with its sign, within the numbers that have `bound` below and above zero.
unfoldable pub negative_within : ℕ → Option ℕ → Option ℤ
negative_within bound none = none
negative_within bound (some zero) = some (pos 0)
negative_within bound (some (suc n)) = if ltb n bound then some (negsuc n) else none

unfoldable pub positive_within : ℕ → Option ℕ → Option ℤ
positive_within bound none = none
positive_within bound (some n) = if ltb n bound then some (pos n) else none

unfoldable pub signed_within : ℕ → List ℕ → Option ℤ
signed_within bound [] = none
signed_within bound (c ∷ cs) =
    if c == 45
    then negative_within bound (read_number cs)
    else if c == 43
    then positive_within bound (read_number cs)
    else positive_within bound (read_number (c ∷ cs))

-- std::stoi; `none` where it throws
unfoldable pub stoi : List ℕ → Option ℤ
unfolding skip_spaces read_digits read_number negative_within positive_within signed_within
stoi cs = signed_within (2 ^ 31) (skip_spaces cs)

-- std::stoll; `none` where it throws
unfoldable pub stoll : List ℕ → Option ℤ
unfolding skip_spaces read_digits read_number negative_within positive_within signed_within
stoll cs = signed_within (2 ^ 63) (skip_spaces cs)

abbrev pub or_zero : Option ℤ → ℤ
or_zero none = pos 0
or_zero (some i) = i

-- std::atoi; 0 also for a number that no `int` holds, which C leaves open
unfoldable pub atoi : List ℕ → ℤ
unfolding skip_spaces read_digits read_number negative_within positive_within signed_within
atoi cs = or_zero (signed_within (2 ^ 31) (skip_spaces cs))

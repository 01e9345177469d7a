-- ===== src/Prelude/Int.antt =====
-- Signed integers over the native numbers: C++'s `int` and `std::int64_t`.
use Prim.Native.Nat.{ℕ, zero, suc, ◌+◌, ◌-◌, ◌%◌, ◌^◌}
use mathlib.Core.Path.{◌≡◌, refl}
use mathlib.Core.Logic.{◌↔◌}
use mathlib.Core.Bool.{Bool, true, false}
use native.Mathlib.Omega.{arith}
use lan_chat_next.Prelude.Tests.{ltb, nat_beq, Comparable, if◌then◌else◌}

-- `negsuc n` is -(n + 1).
pub data ℤ : Type 0 where
  pos : ℕ → ℤ
  negsuc : ℕ → ℤ

abbrev pub int_beq : ℤ → ℤ → Bool
int_beq (pos a) (pos b) = nat_beq a b
int_beq (negsuc a) (negsuc b) = nat_beq a b
int_beq _ _ = false

pub int_beq_iff : (a b : ℤ) → (int_beq a b ≡ true) ↔ (a ≡ b)
int_beq_iff (pos a) (pos b) = ground arith
int_beq_iff (negsuc a) (negsuc b) = ground arith
int_beq_iff (pos a) (negsuc b) = ground arith
int_beq_iff (negsuc a) (pos b) = ground arith

instance abbrev pub int_eq : Comparable ℤ
int_eq = record { same = int_beq; decides = int_beq_iff }

-- x > 0
abbrev pub positive : ℤ → Bool
positive (pos n) = ltb 0 n
positive (negsuc n) = false

-- The truncation to a natural number that a positive test guards: 0 for what is negative.
abbrev pub to_nat : ℤ → ℕ
to_nat (pos n) = n
to_nat (negsuc n) = 0

-- a < b
abbrev pub lt_int : ℤ → ℤ → Bool
lt_int (pos a) (pos b) = ltb a b
lt_int (pos a) (negsuc b) = false
lt_int (negsuc a) (pos b) = true
lt_int (negsuc a) (negsuc b) = ltb b a

-- std::max(a, b)
abbrev pub max_int : ℤ → ℤ → ℤ
max_int a b = if lt_int a b then b else a

-- The reading of w bits, 2 ^ w above the sign bit, as a signed number.
abbrev signed : ℕ → ℕ → ℤ
signed half r = if ltb r half then pos r else negsuc (half + half - suc r)

abbrev wrap : ℕ → ℤ → ℤ
wrap half (pos n) = signed half (n % (half + half))
wrap half (negsuc n) = signed half (half + half - suc (n % (half + half)))

-- static_cast<int> of a 64-bit value.
unfoldable pub to_int32 : ℤ → ℤ
to_int32 x = wrap (2 ^ 31) x

-- x + 1 as an `int` or as an `int64_t`: signed overflow is undefined in C++, and here the
-- number is unbounded.
unfoldable pub succ_int : ℤ → ℤ
succ_int (pos n) = pos (suc n)
succ_int (negsuc zero) = pos 0
succ_int (negsuc (suc n)) = negsuc n

pub max_int-ge : (a b : ℤ) → (lt_int (max_int a b) a ≡ false) × (lt_int (max_int a b) b ≡ false)
max_int-ge (pos a) (pos b) = ground arith
max_int-ge (pos a) (negsuc b) = ground arith
max_int-ge (negsuc a) (pos b) = ground arith
max_int-ge (negsuc a) (negsuc b) = ground arith

pub ge_trans : (a b c : ℤ) → lt_int a b ≡ false → lt_int b c ≡ false → lt_int a c ≡ false
ge_trans (pos a) (pos b) (pos c) h k = ground arith
ge_trans a b c h k = ground arith

pub lt-succ_int : (x y : ℤ) → lt_int y x ≡ false → lt_int x (succ_int y) ≡ true
unfolding succ_int
lt-succ_int (pos a) (pos b) h = ground arith
lt-succ_int (pos a) (negsuc zero) h = cc
lt-succ_int (pos a) (negsuc (suc b)) h = cc
lt-succ_int (negsuc a) (pos b) h = refl
lt-succ_int (negsuc a) (negsuc zero) h = refl
lt-succ_int (negsuc a) (negsuc (suc b)) h = ground arith

pub lt_int_irrefl : (a : ℤ) → lt_int a a ≡ false
lt_int_irrefl (pos a) = ground arith
lt_int_irrefl (negsuc a) = ground arith

pub lt-ge_trans : (a b c : ℤ) → lt_int a b ≡ true → lt_int c b ≡ false → lt_int a c ≡ true
lt-ge_trans (pos a) (pos b) (pos c) h k = ground arith
lt-ge_trans a b c h k = ground arith

pub lt_int_asym : (a b : ℤ) → lt_int a b ≡ true → lt_int b a ≡ false
lt_int_asym (pos a) (pos b) h = ground arith
lt_int_asym a b h = ground arith

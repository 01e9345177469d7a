-- ===== src/Json/Formed.antt =====
-- The values that the parser of src/server/vendor/mini_json.hpp makes.
use lan_chat_next.Prelude.{
  ℕ, zero, suc, ◌^◌, Bool, true, false, Bool-cases, inl, string_eq, inl, inr, Option, none, some,
  [], ◌∷◌, ◌++◌, ℤ, arith, ltb, ltb→lt, ◌==◌, nat_eq, if◌then◌else◌, stoll, signed_within,
  positive_within, negative_within, read_number, skip_spaces, drop,
}
use lan_chat_next.Json.{Value, Items, Object}
use lan_chat_next.Json.Numbers.{InInt64}
use lan_chat_next.Json.Order.{IsSorted}
use lan_chat_next.Env.{Env, Bytes}
use lan_chat_next.Json.Parser.{
  Parsed, and_then, next_is, literal, digits, number_or_refused, parse_digits, parse_number,
}
use Parsed.{got, refused, exhausted}
use Value.{null, bool, int, float, str, arr, obj}
use Items.{nil, cons}
use Object.{end, field}

-- Integers of 64 bits, and objects with each key once and in order.
unfoldable mutual
  unfolding IsSorted

  pub Formed : Value → Type 0
  Formed (int i) = InInt64 i
  Formed (arr vs) = FormedItems vs
  Formed (obj o) = IsSorted o × FormedFields o
  Formed null = Unit {0}
  Formed (bool b) = Unit {0}
  Formed (float d) = Unit {0}
  Formed (str s) = Unit {0}

  pub FormedItems : Items → Type 0
  FormedItems nil = Unit {0}
  FormedItems (cons v vs) = Formed v × FormedItems vs

  pub FormedFields : Object → Type 0
  FormedFields end = Unit {0}
  FormedFields (field k v o) = Formed v × FormedFields o

-- A result, if there is one, is such a value.
abbrev pub Yields : {A : Type 0} → (A → Type 0) → Parsed A → Type 0
Yields P (got a rest) = P a
Yields P refused = Unit {0}
Yields P exhausted = Unit {0}

pub Yields-and_then :
    {A B : Type 0} (P : A → Type 0) (Q : B → Type 0) (r : Parsed A) (f : A → Bytes → Parsed B)
    → Yields P r
    → ((a : A) (rest : Bytes) → P a → Yields Q (f a rest))
    → Yields Q (and_then r f)
Yields-and_then P Q (got a rest) f h k = k a rest h
Yields-and_then P Q refused f h k = tt
Yields-and_then P Q exhausted f h k = tt

abbrev pub Any : {A : Type 0} → A → Type 0
Any a = Unit {0}

pub Any-Yields : {A : Type 0} (r : Parsed A) → Yields Any r
Any-Yields (got a rest) = tt
Any-Yields refused = tt
Any-Yields exhausted = tt

pub Yields-if :
    {A : Type 0} (P : A → Type 0) (b : Bool) (x y : Parsed A)
    → Yields P x
    → Yields P y
    → Yields P (if b then x else y)
Yields-if P true x y h k = h
Yields-if P false x y h k = k

pub literal-Yields :
    (cs : Bytes) (v : Value) (s : Bytes) → Formed v → Yields Formed (literal cs v s)
unfolding literal
literal-Yields [] v s h = h
literal-Yields (c ∷ cs) v s h =
    Yields-if Formed (next_is c s) (literal cs v (drop 1 s)) refused
      (literal-Yields cs v (drop 1 s) h) tt

-- What std::stoll reads has 64 bits.
abbrev Fits : Option ℤ → Type 0
Fits none = Unit {0}
Fits (some i) = InInt64 i

positive_within-Fits : (o : Option ℕ) → Fits (positive_within (2 ^ 63) o)
unfolding positive_within
positive_within-Fits none = tt
positive_within-Fits (some n) = elim (Bool-cases (ltb n (2 ^ 63))) [
  | inl e ↦ rw e (ltb→lt n (2 ^ 63) e)
  | inr e ↦ rw e tt
]

negative_within-Fits : (o : Option ℕ) → Fits (negative_within (2 ^ 63) o)
unfolding negative_within
negative_within-Fits none = tt
negative_within-Fits (some zero) = omega arith
negative_within-Fits (some (suc n)) = elim (Bool-cases (ltb n (2 ^ 63))) [
  | inl e ↦ rw e (ltb→lt n (2 ^ 63) e)
  | inr e ↦ rw e tt
]

Fits-if : (b : Bool) (x y : Option ℤ) → Fits x → Fits y → Fits (if b then x else y)
Fits-if true x y h k = h
Fits-if false x y h k = k

signed_within-Fits : (cs : Bytes) → Fits (signed_within (2 ^ 63) cs)
unfolding signed_within
signed_within-Fits [] = tt
signed_within-Fits (c ∷ cs) = Fits-if (c == 45) _ _ (negative_within-Fits (read_number cs)) (
    Fits-if (c == 43) _ _ (positive_within-Fits (read_number cs))
      (positive_within-Fits (read_number (c ∷ cs))))

stoll-Fits : (cs : Bytes) → Fits (stoll cs)
unfolding stoll
stoll-Fits cs = signed_within-Fits (skip_spaces cs)

int-Yields : (o : Option ℤ) (s : Bytes) → Fits o → Yields Formed (number_or_refused int o s)
unfolding Formed
int-Yields none s h = tt
int-Yields (some i) s h = h

float-Yields : (o : Option ℕ) (s : Bytes) → Yields Formed (number_or_refused float o s)
unfolding Formed
float-Yields none s = tt
float-Yields (some d) s = tt

parse_digits-Yields : (env : Env) (sign s : Bytes) → Yields Formed (parse_digits env sign s)
unfolding parse_digits
parse_digits-Yields env sign s =
    Yields-if Formed (next_is b'.' (digits s).1) _ _
      (float-Yields (env.stod (sign ++ (digits s).0 ++ b'.' ∷ (digits (drop 1 (digits s).1)).0))
        (digits (drop 1 (digits s).1)).1)
      (int-Yields (stoll (sign ++ (digits s).0)) (digits s).1 (stoll-Fits (sign ++ (digits s).0)))

pub parse_number-Yields : (env : Env) (s : Bytes) → Yields Formed (parse_number env s)
unfolding parse_number
parse_number-Yields env s =
    Yields-if Formed (next_is b'-' s) _ _ (parse_digits-Yields env (b'-' ∷ []) (drop 1 s))
      (parse_digits-Yields env [] s)

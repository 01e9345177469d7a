-- ===== src/Json/Nul.antt =====
-- Texts of the serializer of src/server/vendor/mini_json.hpp that hold no NUL, so that a C string holds
-- the whole of them.
use text.Mathlib.Text.{is_lt}
use Prim.Native.String.{compare}
use lan_chat_next.Prelude.{
  ℕ, suc, ◌≡◌, refl, String, Bool, true, false, ◌||◌, [], ◌∷◌, ◌++◌, ℤ, pos, negsuc, ◌==◌, nat_eq,
  string_eq, codes, decimal, to_string, any, is_digit, arith, Bool-cases, inl, inr,
}
use lan_chat_next.Json.{Value, Items, Object, put}
use lan_chat_next.Json.Numbers.{Digits, decimal-Digits, to_string-pos, to_string-negsuc}
use lan_chat_next.Json.Printer.{
  escape, escaped, quoted, comma, print, print_items, print_fields, serialize,
}
use lan_chat_next.Env.{Env, Bytes}
use lan_chat_next.Bcrypt.{until_nul}
use Value.{null, bool, int, float, str, arr, obj}
use Items.{nil, cons}
use Object.{end, field}

abbrev pub has_nul : Bytes → Bool
has_nul cs = any (λ c. c == 0) cs

-- No text and no key in the value holds a NUL, and no number has a fraction.
unfoldable mutual
  pub NoNul : Value → Type 0
  NoNul (str s) = has_nul (codes s) ≡ false
  NoNul (float d) = ⊥
  NoNul (arr vs) = NoNulItems vs
  NoNul (obj o) = NoNulFields o
  NoNul null = Unit {0}
  NoNul (bool b) = Unit {0}
  NoNul (int i) = Unit {0}

  pub NoNulItems : Items → Type 0
  NoNulItems nil = Unit {0}
  NoNulItems (cons v vs) = NoNul v × NoNulItems vs

  pub NoNulFields : Object → Type 0
  NoNulFields end = Unit {0}
  NoNulFields (field k v o) = (has_nul (codes k) ≡ false) × NoNul v × NoNulFields o

pub until_nul_lem : (cs : Bytes) → has_nul cs ≡ false → until_nul cs ≡ cs
unfolding until_nul
until_nul_lem [] h = refl
until_nul_lem (c ∷ cs) h = ground (arith, until_nul_lem cs)

has_nul-append :
    (xs ys : Bytes) → has_nul xs ≡ false → has_nul ys ≡ false → has_nul (xs ++ ys) ≡ false
has_nul-append [] ys h k = k
has_nul-append (x ∷ xs) ys h k = ground (arith, has_nul-append xs ys)

escape-no_nul : (c : ℕ) → (c == 0) ≡ false → has_nul (escape c) ≡ false
unfolding escape
escape-no_nul c h = ground arith

first_false : (a b : Bool) → (a || b) ≡ false → (a ≡ false) × (b ≡ false)
first_false a b h = (ground arith, ground arith)

escaped-no_nul : (cs : Bytes) → has_nul cs ≡ false → has_nul (escaped cs) ≡ false
unfolding escaped
escaped-no_nul [] h = refl
escaped-no_nul (c ∷ cs) h =
    let parts = first_false (c == 0) (has_nul cs) h in
    has_nul-append (escape c) (escaped cs) (escape-no_nul c parts.0) (escaped-no_nul cs parts.1)

quoted-no_nul : (s : String) → has_nul (codes s) ≡ false → has_nul (quoted s) ≡ false
unfolding quoted
quoted-no_nul s h = escaped-no_nul (codes s) h

digit-no_nul : (c : ℕ) → is_digit c ≡ true → (c == 0) ≡ false
digit-no_nul c h = ground arith

Digits-no_nul : (cs : Bytes) → Digits cs → has_nul cs ≡ false
Digits-no_nul [] h = refl
Digits-no_nul (c ∷ cs) h = rw (digit-no_nul c h.0) (Digits-no_nul cs h.1)

to_string-no_nul : (i : ℤ) → has_nul (codes (to_string i)) ≡ false
to_string-no_nul (pos n) =
    rw (to_string-pos n) (Digits-no_nul (codes (decimal 20 n)) (decimal-Digits 20 n))
to_string-no_nul (negsuc n) =
    rw (to_string-negsuc n) (Digits-no_nul (codes (decimal 20 (suc n))) (decimal-Digits 20 (suc n)))

comma-no_nul : (b : Bool) (cs : Bytes) → has_nul cs ≡ false → has_nul (comma b cs) ≡ false
comma-no_nul true cs h = h
comma-no_nul false cs h = h

print-NoNul : (env : Env) (v : Value) → NoNul v → has_nul (print env v) ≡ false
unfolding print NoNul
print-NoNul env v =
    elim v
      as (λ v. NoNul v → has_nul (print env v) ≡ false) (λ vs.
        (b : Bool) → NoNulItems vs → has_nul (print_items env b vs) ≡ false) (λ o.
          (b : Bool) → NoNulFields o → has_nul (print_fields env b o) ≡ false) [
            | null ↦ λ h. refl
            | bool true ↦ λ h. refl
            | bool false ↦ λ h. refl
            | int i ↦ λ h. to_string-no_nul i
            | float x ↦ λ h. absurd h
            | str s ↦ λ h. quoted-no_nul s h
            | arr (vs → ih) ↦ λ h. ih true h
            | obj (o → ih) ↦ λ h. ih true h
            | nil ↦ λ b h. refl
            | cons (w → ih) (vs → ihs) ↦
                λ b h. comma-no_nul b _ (has_nul-append (print env w) _ (ih h.0) (ihs false h.1))
            | end ↦ λ b h. refl
            | field k (w → ih) (o → ihs) ↦ λ b h. comma-no_nul b _ (
                has_nul-append (quoted k) _ (quoted-no_nul k h.0)
                  (has_nul-append (print env w) _ (ih h.1) (ihs false h.2)))
          ]

-- As a C string, the text of such a value is whole.
pub until_nul-serialize :
    (env : Env) (v : Value) → NoNul v → until_nul (serialize env v) ≡ serialize env v
unfolding serialize
until_nul-serialize env v h = until_nul_lem (print env v) (print-NoNul env v h)

pub NoNulFields-put :
    (k : String) (v : Value) (o : Object)
    → has_nul (codes k) ≡ false
    → NoNul v
    → NoNulFields o
    → NoNulFields (put k v o)
unfolding put NoNul
NoNulFields-put k v end c h p = (c, h, tt)
NoNulFields-put k v (field j w o) c h p = elim (Bool-cases (j == k)) [
  | inl e ↦ rw e (c, h, p.2)
  | inr e ↦ rw e (elim (Bool-cases (is_lt (compare k j))) [
    | inl b ↦ rw b (c, h, p)
    | inr b ↦ rw b (p.0, p.1, NoNulFields-put k v o c h p.2)
  ])
]

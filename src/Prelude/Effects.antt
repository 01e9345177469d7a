-- ===== src/Prelude/Effects.antt =====
-- Code that changes a state and may throw. What was written before a throw stays written, so the
-- state comes back beside the error too.
use mathlib.Core.Path.{◌≡◌, refl}
use mathlib.Core.Logic.{◌⊎◌, inl, inr}
use mathlib.Core.Bool.{Bool}
use mathlib.Core.Option.{Option, none, some}
use mathlib.Core.List.{List, [], ◌∷◌}
use lan_chat_next.Prelude.Tests.{if◌then◌else◌}

-- The exceptions of the server: `std::runtime_error("frame too large")`, `std::out_of_range` of
-- `std::map::at`, and the JSON parser's `std::runtime_error`.
pub data Fault : Type 0 where
  frame_too_large missing_key malformed_json : Fault

pub data Result {ℓ} (A : Type ℓ) : Type ℓ where
  ok : A → Result A
  err : Fault → Result A

pub Result-cases {ℓ} :
    {A : Type ℓ} (r : Result A) → ((a : A) × (r ≡ ok a)) ⊎ ((c : Fault) × (r ≡ err c))
Result-cases (ok a) = inl (a, refl)
Result-cases (err c) = inr (c, refl)

abbrev pub Exec : Type 0 → Type 0 → Type 0
Exec State A = State → Result A × State

module _ {State A : Type 0} where
  abbrev pub gets : (State → A) → Exec State A
  gets read now = (ok (read now), now)

  abbrev pub throw : Fault → Exec State A
  throw fault now = (err fault, now)

  abbrev pub pure : A → Exec State A
  pure value now = (ok value, now)

abbrev pub modify : {S : Type 0} → (S → S) → Exec S (Unit {0})
modify f s = (ok tt, f s)

abbrev pub skip : {S : Type 0} → Exec S (Unit {0})
skip s = (ok tt, s)

abbrev pub proceed : {S A B : Type 0} → Result A → S → (A → Exec S B) → Result B × S
proceed (ok a) s f = f a s
proceed (err c) s f = (err c, s)

infixl 5 ◌>>=◌ ◌>>◌
abbrev pub ◌>>=◌ : {S A B : Type 0} → Exec S A → (A → Exec S B) → Exec S B
◌>>=◌ m f s = proceed (m s).0 (m s).1 f

abbrev pub ◌>>◌ : {S A B : Type 0} → Exec S A → Exec S B → Exec S B
m >> k = m >>= λ _. k

abbrev pub caught : {S A : Type 0} → Result A → S → Result (Option A) × S
caught (ok a) s = (ok (some a), s)
caught (err c) s = (ok none, s)

-- `try` with `catch (...)`; `none` is that something was thrown
abbrev pub attempt : {S A : Type 0} → Exec S A → Exec S (Option A)
attempt m s = caught (m s).0 (m s).1

-- A range-based `for`.
abbrev pub for_each : {S A : Type 0} → List A → (A → Exec S (Unit {0})) → Exec S (Unit {0})
for_each [] f s = (ok tt, s)
for_each (x ∷ xs) f s = (f x >> for_each xs f) s

-- An `if` with no `else`.
abbrev pub when : {S : Type 0} → Bool → Exec S (Unit {0}) → Exec S (Unit {0})
when b m = if b then m else skip

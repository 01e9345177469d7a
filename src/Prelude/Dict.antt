-- ===== src/Prelude/Dict.antt =====
-- `std::unordered_map` as an association list: one entry for each key, new keys at the end.
use lan_chat_next.Prelude.Tests.{Comparable, ◌==◌, if◌then◌else◌}
use mathlib.Core.Path.{◌≡◌, refl}
use mathlib.Core.Option.{Option, none, some}
use mathlib.Core.List.{List, [], ◌∷◌}
use native.Mathlib.Omega.{arith}

module _ {ℓ κ} {Key : Type ℓ} {Entry : Type κ} ⦃cmp : Comparable Key⦄ where
  -- m.find(key)
  unfoldable pub find : Key → List (Key × Entry) → Option Entry
  find key ((here, entry) ∷ rest) = if here == key then some entry else find key rest
  find key [] = none

  -- m[key] = entry
  unfoldable pub insert : Key → Entry → List (Key × Entry) → List (Key × Entry)
  insert key new ((here, old) ∷ rest) =
      let changed = insert key new rest in
      if here == key then (key, new) ∷ rest else (here, old) ∷ changed
  insert key new [] = (key, new) ∷ []

  -- m.erase(key)
  unfoldable pub erase : Key → List (Key × Entry) → List (Key × Entry)
  erase key ((here, entry) ∷ rest) =
      let left = erase key rest in if here == key then left else (here, entry) ∷ left
  erase key [] = []

  pub find-erase :
      (gone other : Key) (m : List (Key × Entry))
      → find other (erase gone m) ≡ (if gone == other then none else find other m)
  unfolding find erase
  find-erase gone other ((here, entry) ∷ rest) = ground (
    arith,
    cmp.decides here gone,
    cmp.decides here other,
    cmp.decides gone other,
    find-erase gone other rest,
  )
  find-erase gone other [] = ground arith

  pub find-insert :
      (key other : Key) (new : Entry) (m : List (Key × Entry))
      → find other (insert key new m) ≡ (if key == other then some new else find other m)
  unfolding find insert
  find-insert key other new ((here, old) ∷ rest) = ground (
    arith,
    cmp.decides here key,
    cmp.decides here other,
    cmp.decides key other,
    find-insert key other new rest,
  )
  find-insert key other new [] = refl

-- ===== src/BTreeMap.antt =====
-- `alloc::collections::BTreeMap` over keys that are machine words, as the kernel uses it: the
-- entries in ascending order of their keys, with `get`, `insert`, `remove`, the first entry of
-- `range(k..)` and of `range(..k)`, and `keys().max()`.
pub mod Laws
use vanadinite.Prelude.{
  ℕ, ◌≡◌, ◌<◌, Bool, true, false, Option, none, some, List, [], ◌∷◌, ltb, leb, ◌==◌, if◌then◌else◌,
}

abbrev pub BTreeMap {ℓ} : Type ℓ → Type ℓ
BTreeMap V = List (ℕ × V)

module _ {ℓ} {V : Type ℓ} where
  unfoldable pub get : ℕ → BTreeMap V → Option V
  get k [] = none
  get k ((j, v) ∷ m) = if j == k then some v else get k m

  -- An equal key has its value replaced; a new one stands before the first greater key.
  unfoldable pub insert : ℕ → V → BTreeMap V → BTreeMap V
  insert k v [] = (k, v) ∷ []
  insert k v ((j, w) ∷ m) =
      if j == k then (k, v) ∷ m else if ltb k j then (k, v) ∷ (j, w) ∷ m else (j, w) ∷ insert k v m

  unfoldable pub remove : ℕ → BTreeMap V → BTreeMap V
  remove k [] = []
  remove k ((j, v) ∷ m) = if j == k then m else (j, v) ∷ remove k m

  -- `range(k..).next()`
  unfoldable pub first_from : ℕ → BTreeMap V → Option (ℕ × V)
  first_from k [] = none
  first_from k ((j, v) ∷ m) = if leb k j then some (j, v) else first_from k m

  -- `range(..k).next()`: the smallest key of the map, if it lies below `k`
  unfoldable pub first_below : ℕ → BTreeMap V → Option (ℕ × V)
  first_below k [] = none
  first_below k ((j, v) ∷ m) = if ltb j k then some (j, v) else none

  -- `keys().max()`
  unfoldable pub max_key : BTreeMap V → Option ℕ
  max_key [] = none
  max_key ((j, v) ∷ []) = some j
  max_key ((j, v) ∷ e ∷ m) = max_key (e ∷ m)

  -- Every key lies above `k`, and the keys ascend.
  abbrev pub SortedAbove : ℕ → BTreeMap V → Type 0
  SortedAbove k [] = Unit
  SortedAbove k ((j, v) ∷ m) = (k < j) × SortedAbove j m

  -- The keys ascend.
  abbrev pub IsSorted : BTreeMap V → Type 0
  IsSorted [] = Unit
  IsSorted ((j, v) ∷ m) = SortedAbove j m

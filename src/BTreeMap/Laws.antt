-- ===== src/BTreeMap/Laws.antt =====
-- What the map operations do to a lookup, and that they keep the order of the keys.
use vanadinite.Prelude.{ℕ, ◌≡◌, refl, ◌<◌, ◌≤◌, none, some, [], ◌∷◌, ◌==◌, if◌then◌else◌, arith}
use vanadinite.BTreeMap.{BTreeMap, get, insert, remove, max_key, SortedAbove, IsSorted}

module _ {ℓ} {V : Type ℓ} where
  pub get-insert :
      (j k : ℕ) (v : V) (m : BTreeMap V)
      → get j (insert k v m) ≡ (if k == j then some v else get j m)
  unfolding get insert
  get-insert j k v [] = refl
  get-insert j k v ((i, w) ∷ m) = ground (arith, get-insert j k v m)

  pub get_of_above : (j k : ℕ) (m : BTreeMap V) → SortedAbove k m → j ≤ k → get j m ≡ none
  unfolding get
  get_of_above j k [] s h = refl
  get_of_above j k ((i, w) ∷ m) s h = ground (arith, get_of_above j i m s.1)

  pub get-remove_above :
      (j k i : ℕ) (m : BTreeMap V)
      → SortedAbove i m
      → get j (remove k m) ≡ (if k == j then none else get j m)
  unfolding get remove
  get-remove_above j k i [] s = ground arith
  get-remove_above j k i ((i', w) ∷ m) s =
      ground (arith, get-remove_above j k i' m s.1, get_of_above j i' m s.1)

  pub get-remove :
      (j k : ℕ) (m : BTreeMap V)
      → IsSorted m
      → get j (remove k m) ≡ (if k == j then none else get j m)
  unfolding get remove
  get-remove j k [] s = ground arith
  get-remove j k ((i, w) ∷ m) s = ground (arith, get-remove_above j k i m s, get_of_above j i m s)

  pub insert-SortedAbove :
      (i k : ℕ) (v : V) (m : BTreeMap V) → SortedAbove i m → i < k → SortedAbove i (insert k v m)
  unfolding insert
  insert-SortedAbove i k v [] s h = (h, tt)
  insert-SortedAbove i k v ((j, w) ∷ m) s h = ground (arith, insert-SortedAbove j k v m s.1)

  pub insert-IsSorted : (k : ℕ) (v : V) (m : BTreeMap V) → IsSorted m → IsSorted (insert k v m)
  unfolding insert
  insert-IsSorted k v [] s = tt
  insert-IsSorted k v ((j, w) ∷ m) s = ground (arith, insert-SortedAbove j k v m s)

  pub SortedAbove-weaken : (i j : ℕ) (m : BTreeMap V) → SortedAbove j m → i ≤ j → SortedAbove i m
  SortedAbove-weaken i j [] s h = tt
  SortedAbove-weaken i j ((k, w) ∷ m) s h = (omega arith, s.1)

  pub IsSorted-of_above : (i : ℕ) (m : BTreeMap V) → SortedAbove i m → IsSorted m
  IsSorted-of_above i [] s = tt
  IsSorted-of_above i ((k, w) ∷ m) s = s.1

  pub remove-SortedAbove : (i k : ℕ) (m : BTreeMap V) → SortedAbove i m → SortedAbove i (remove k m)
  unfolding remove
  remove-SortedAbove i k [] s = tt
  remove-SortedAbove i k ((j, w) ∷ m) s =
      ground (arith, remove-SortedAbove j k m s.1, SortedAbove-weaken i j m s.1)

  pub remove-IsSorted : (k : ℕ) (m : BTreeMap V) → IsSorted m → IsSorted (remove k m)
  unfolding remove
  remove-IsSorted k [] s = tt
  remove-IsSorted k ((j, w) ∷ m) s =
      ground (arith, remove-SortedAbove j k m s, IsSorted-of_above j m s)

  max_key_above :
      (i : ℕ) (m : BTreeMap V)
      → SortedAbove i m
      → (k : ℕ) → max_key m ≡ some k
      → (i < k) × ((j : ℕ) → k < j → get j m ≡ none)
  unfolding max_key get
  max_key_above i [] s k h = absurd (ground arith)
  max_key_above i ((j, w) ∷ []) s k h = (ground arith, λ j' lt. ground arith)
  max_key_above i ((j, w) ∷ e ∷ m) s k h =
      let (above, rest) = max_key_above j (e ∷ m) s.1 k h in
      (omega arith, λ j' lt. ground (arith, rest j' lt))

  -- No key lies above the maximum.
  pub get_of_max_key_lt :
      (k j : ℕ) (m : BTreeMap V) → IsSorted m → max_key m ≡ some k → k < j → get j m ≡ none
  unfolding max_key get
  get_of_max_key_lt k j [] s h lt = refl
  get_of_max_key_lt k j ((i, w) ∷ []) s h lt = ground arith
  get_of_max_key_lt k j ((i, w) ∷ e ∷ m) s h lt =
      let (above, rest) = max_key_above i (e ∷ m) s k h in ground (arith, rest j lt)

  pub max_key-none : (j : ℕ) (m : BTreeMap V) → max_key m ≡ none → get j m ≡ none
  unfolding max_key get
  max_key-none j [] h = refl
  max_key-none j ((i, w) ∷ []) h = absurd (ground arith)
  max_key-none j ((i, w) ∷ e ∷ m) h = absurd (none_case i w e m h)
    where
      none_case : (i : ℕ) (w : V) (e : ℕ × V) (m : BTreeMap V) → max_key ((i, w) ∷ e ∷ m) ≡ none → ⊥
      none_case i w e [] h = cc
      none_case i w e (e' ∷ m) h = none_case e.0 e.1 e' m h

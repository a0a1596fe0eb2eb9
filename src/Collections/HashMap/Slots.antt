-- ===== src/Collections/HashMap/Slots.antt =====
-- The bucket of the hash map (src/shared/collections/src/hash_map/mod.rs), a slice of slots, and the
-- probe sequence over it.
use vanadinite.Prelude.Powers.{next_power_of_two}
use vanadinite.Prelude.{
  ℕ, zero, suc, ◌+◌, ◌*◌, ◌/◌, ◌%◌, ◌^◌, ◌≡◌, Bool, true, false, List, [], ◌∷◌, if◌then◌else◌, leb,
  length,
}

-- What `HashMap` calls of its keys and its `BuildHasher`, with the laws that `Eq` and `Hash` ask for:
-- `eq` is an equivalence, and equal keys have equal hashes. A hash is a
-- `u64`, which `usize` holds.
pub record Key (K : Type 0) : Type 0 where
  pub eq : K → K → Bool
  pub hash : K → ℕ
  pub eq_refl : (k : K) → eq k k ≡ true
  pub eq_sym : (j k : K) → eq j k ≡ eq k j
  pub eq_trans : (j k l : K) → eq j k ≡ true → eq j l ≡ eq k l
  pub hash-eq : (j k : K) → eq j k ≡ true → hash j ≡ hash k

-- `discriminant` is the constructor.
pub data Slot (K V : Type 0) : Type 0 where
  vacant : Slot K V
  occupied : K → V → Slot K V

-- The index of a probe, as a word.
unfoldable pub h : ℕ → ℕ → ℕ → ℕ
unfolding next_power_of_two
h hash attempt capacity =
    (hash + (attempt * attempt % 2 ^ 64 + attempt) % 2 ^ 64 / 2)
    % 2 ^ 64
    % next_power_of_two capacity

-- `RawBucketSlot`; `endless` says that the rounds ran out.
pub data RawBucketSlot : Type 0 where
  vacant_at : ℕ → RawBucketSlot
  occupied_at : ℕ → RawBucketSlot
  endless : RawBucketSlot

module _ {K V : Type 0} where
  -- `get_unchecked_mut`, at an index in bounds.
  abbrev pub read : List (Slot K V) → ℕ → Slot K V
  read [] i = vacant
  read (s ∷ slots) zero = s
  read (s ∷ slots) (suc i) = read slots i

  -- The loop of `slot_for_hash`, and with an `eq` that is always false that of `resize`. An index
  -- past the slots leaves the pointer where it is.
  unfoldable pub probe : ℕ → List (Slot K V) → ℕ → (K → V → Bool) → ℕ → ℕ → RawBucketSlot
  unfolding h
  probe zero slots hash eq ptr attempt = endless
  probe (suc rounds) slots hash eq ptr attempt = elim (read slots ptr) [
    | vacant ↦ vacant_at ptr
    | occupied k v ↦ elim (eq k v) [
      | true ↦ occupied_at ptr
      | false ↦
          let index = h hash attempt (length slots) in
          probe rounds slots hash eq (if leb (length slots) index then ptr else index) (suc attempt)
    ]
  ]

  -- Two rounds for each slot of the rounded capacity are enough.
  unfoldable pub slot_for_hash : List (Slot K V) → ℕ → (K → V → Bool) → RawBucketSlot
  unfolding probe next_power_of_two
  slot_for_hash slots hash eq =
      probe (2 * next_power_of_two (length slots)) slots hash eq (hash % length slots) 1

  abbrev pub occupied_count : List (Slot K V) → ℕ
  occupied_count [] = 0
  occupied_count (vacant ∷ slots) = occupied_count slots
  occupied_count (occupied k v ∷ slots) = suc (occupied_count slots)

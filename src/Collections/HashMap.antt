-- ===== src/Collections/HashMap.antt =====
-- `HashMap`: src/shared/collections/src/hash_map/mod.rs, over a slice of slots. What the keys and
-- the hasher do is a parameter, and so is the allocator: its answers to the requests to come, each a
-- test on the number of slots asked for. A reference to a slot is its index.
mod Slots
mod Tests
pub mod Triangles
pub mod Indices
pub mod Searches
pub mod Paths
pub mod Contents
pub mod Updates
pub mod Rehash
pub mod Growth
pub mod Lookups
pub mod Room
pub mod Inserts
pub mod Removal
pub mod Crowded
pub mod Entry
pub mod RawEntry
use vanadinite.Prelude.Powers.{next_power_of_two}
use vanadinite.Prelude.{
  ℕ, zero, suc, ◌+◌, ◌-◌, ◌*◌, ◌/◌, ◌%◌, ◌^◌, ◌≡◌, refl, Bool, true, false, Option, none, some,
  List, [], ◌∷◌, ◌==◌, if◌then◌else◌, ltb, leb, arith, length, set, replicate,
}
use vanadinite.Collections.HashMap.Slots.{
  Key, Slot, vacant, occupied, RawBucketSlot, vacant_at, occupied_at, endless, read, probe,
  slot_for_hash,
}

pub record HashMap (K V : Type 0) : Type 0 where
  pub allocator : List (ℕ → Bool)
  pub bucket : List (Slot K V)
  pub len : ℕ

pub data Outcome (A : Type 0) : Type 0 where
  ok : A → Outcome A
  alloc_error : Outcome A
  never_ends : Outcome A

abbrev pub load_factor_limit : ℕ
load_factor_limit = 70

abbrev pub isize_max : ℕ
isize_max = 2 ^ 63 - 1

abbrev pub saturate : ℕ → ℕ
saturate n = if ltb n (2 ^ 64) then n else 2 ^ 64 - 1

-- An operation: the map after it, and its result.
abbrev pub M : Type 0 → Type 0 → Type 0 → Type 0
M K V A = HashMap K V → HashMap K V × Outcome A

module _ {K V : Type 0} where
  abbrev pub pure : {A : Type 0} → A → M K V A
  pure a self = (self, ok a)

  abbrev pub and_then :
      {A B : Type 0} → HashMap K V × Outcome A → (A → M K V B) → HashMap K V × Outcome B
  and_then (self, ok a) k = k a self
  and_then (self, alloc_error) k = (self, alloc_error)
  and_then (self, never_ends) k = (self, never_ends)

  infixl 5 ◌>>=◌ ◌>>◌
  abbrev pub ◌>>=◌ : {A B : Type 0} → M K V A → (A → M K V B) → M K V B
  m >>= k = λ self. and_then (m self) k

  abbrev pub ◌>>◌ : {A B : Type 0} → M K V A → M K V B → M K V B
  m >> k = m >>= λ _. k

  abbrev pub capacity : HashMap K V → ℕ
  capacity self = length self.bucket

  -- `new` and `with_hasher`
  abbrev pub new : List (ℕ → Bool) → HashMap K V
  new allocator = record { allocator = allocator; bucket = []; len = 0 }

  -- `Layout::array` and `allocate_zeroed`
  unfoldable pub allocate_zeroed : ℕ → M K V (List (Slot K V))
  allocate_zeroed n self = answer self.allocator
    where
      answer : List (ℕ → Bool) → HashMap K V × Outcome (List (Slot K V))
      answer [] = (self, alloc_error)
      answer (grants ∷ rest) =
          let self' = record self { allocator = rest } in
          if grants n then (self', ok (replicate n vacant)) else (self', alloc_error)

  abbrev pub set_bucket : List (Slot K V) → M K V (Unit {0})
  set_bucket bucket self = (record self { bucket = bucket }, ok tt)

  unfoldable pub with_capacity : List (ℕ → Bool) → ℕ → HashMap K V × Outcome (Unit {0})
  unfolding allocate_zeroed
  with_capacity allocator n =
      if leb isize_max n
      then (new allocator, alloc_error)
      else (do bucket ← allocate_zeroed n; set_bucket bucket) (new allocator)

  unfoldable pub init : ℕ → M K V (Unit {0})
  unfolding allocate_zeroed next_power_of_two
  init requested = do bucket ← allocate_zeroed (next_power_of_two requested); set_bucket bucket

  abbrev pub load_factor : HashMap K V → ℕ
  load_factor self = saturate (self.len * 100) / capacity self

  abbrev pub value_at : List (Slot K V) → ℕ → Option V
  value_at slots i = elim (read slots i) [ vacant ↦ none | occupied k v ↦ some v ]

  abbrev pub entry_at : List (Slot K V) → ℕ → Option (K × V)
  entry_at slots i = elim (read slots i) [ vacant ↦ none | occupied k v ↦ some (k, v) ]

-- `self.capacity().saturating_mul(2).max(to)`
abbrev pub new_capacity : ℕ → ℕ → ℕ
new_capacity old to = let doubled = saturate (old * 2) in if ltb doubled to then to else doubled

module _ {K V : Type 0} (keys : Key K) where
  -- The loop of `resize` over the old slots. `none` is a search for a vacant slot that never ends.
  unfoldable pub rehash : List (Slot K V) → List (Slot K V) → Option (List (Slot K V))
  unfolding slot_for_hash
  rehash new_bucket [] = some new_bucket
  rehash new_bucket (vacant ∷ rest) = rehash new_bucket rest
  rehash new_bucket (occupied k v ∷ rest) =
      elim (slot_for_hash new_bucket (keys.hash k) (λ _ _. false)) [
        | vacant_at i ↦ rehash (set new_bucket i (occupied k v)) rest
        | occupied_at i ↦ none
        | endless ↦ none
      ]

  abbrev pub replace_bucket : List (Slot K V) → M K V (Unit {0})
  replace_bucket new_bucket self = elim (rehash new_bucket self.bucket) [
    | none ↦ (self, never_ends)
    | some bucket ↦ set_bucket bucket self
  ]

  unfoldable pub resize : ℕ → M K V (Unit {0})
  resize to self =
      if capacity self == 0
      then init to self
      else if leb isize_max (new_capacity (capacity self) to)
      then (self, alloc_error)
      else (do
        new_bucket ← allocate_zeroed (new_capacity (capacity self) to)
        replace_bucket new_bucket)
          self

  unfoldable pub reserve : ℕ → M K V (Unit {0})
  reserve additional self =
      if leb (saturate (self.len + additional)) (capacity self)
      then (self, ok tt)
      else resize (saturate (self.len + additional)) self

  unfoldable pub slot_for_key : List (Slot K V) → K → RawBucketSlot
  unfolding slot_for_hash
  slot_for_key slots key = slot_for_hash slots (keys.hash key) (λ k _. keys.eq k key)

  abbrev pub init_if_empty : M K V (Unit {0})
  init_if_empty self = if capacity self == 0 then init 4 self else (self, ok tt)

  abbrev pub grow_if_loaded : M K V (Unit {0})
  grow_if_loaded self =
      if ltb load_factor_limit (load_factor self)
      then resize (saturate (capacity self * 2)) self
      else (self, ok tt)

  -- The part of `insert` from `slot_for_key` on.
  unfoldable pub write : K → V → M K V (Option V)
  write key v self = elim (slot_for_key self.bucket key) [
    | occupied_at i ↦
        (record self { bucket = set self.bucket i (occupied key v) }, ok (value_at self.bucket i))
    | vacant_at i ↦
        (record self { bucket = set self.bucket i (occupied key v); len = self.len + 1 }, ok none)
    | endless ↦ (self, never_ends)
  ]

  unfoldable pub insert : K → V → M K V (Option V)
  insert key v = do init_if_empty; grow_if_loaded; write key v

  -- `get`, and `get_mut` before the caller writes
  unfoldable pub get : HashMap K V → K → Outcome (Option V)
  get self key = if capacity self == 0 then ok none else elim (slot_for_key self.bucket key) [
    | occupied_at i ↦ ok (value_at self.bucket i)
    | vacant_at i ↦ ok none
    | endless ↦ never_ends
  ]

  unfoldable pub remove : K → M K V (Option V)
  remove key self =
      if capacity self == 0 then (self, ok none) else elim (slot_for_key self.bucket key) [
        | occupied_at i ↦ (
          record self { bucket = set self.bucket i vacant; len = self.len - 1 },
          ok (value_at self.bucket i),
        )
        | vacant_at i ↦ (self, ok none)
        | endless ↦ (self, never_ends)
      ]

module _ {K V : Type 0} where
  -- The loop of `drop`: the entries that it frees.
  unfoldable pub drop_loop : List (Slot K V) → List (K × V)
  drop_loop [] = []
  drop_loop (vacant ∷ slots) = drop_loop slots
  drop_loop (occupied k v ∷ slots) = (k, v) ∷ drop_loop slots

  -- The entries freed, and whether a bucket is given back.
  unfoldable pub drop : HashMap K V → List (K × V) × Bool
  unfolding drop_loop
  drop self = (drop_loop self.bucket, ltb 0 (capacity self))

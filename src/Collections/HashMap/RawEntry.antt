-- ===== src/Collections/HashMap/RawEntry.antt =====
-- The raw entries of the hash map (src/shared/collections/src/hash_map/mod.rs), which are looked up
-- by a hash and a test. A reference to a key and value is the index of their slot.
pub mod ByHash
use vanadinite.Prelude.{
  ℕ, ◌+◌, ◌-◌, ◌==◌, Bool, true, false, Option, none, some, List, if◌then◌else◌, length, set,
}
use vanadinite.Collections.HashMap.Slots.{
  Key, Slot, vacant, occupied, RawBucketSlot, vacant_at, occupied_at, endless, read, slot_for_hash,
}
use vanadinite.Collections.HashMap.{
  HashMap, Outcome, ok, never_ends, M, pure, ◌>>=◌, ◌>>◌, entry_at, reserve, slot_for_key, capacity,
}
use vanadinite.Collections.HashMap.Entry.{fill}

-- `RawOccupiedEntryMut` and `RawVacantEntryMut`
pub data RawEntryMut : Type 0 where
  raw_occupied : ℕ → RawEntryMut
  raw_vacant : ℕ → RawEntryMut

abbrev by_slot_mut : RawBucketSlot → Outcome RawEntryMut
by_slot_mut (occupied_at i) = ok (raw_occupied i)
by_slot_mut (vacant_at i) = ok (raw_vacant i)
by_slot_mut endless = never_ends

module _ {K V : Type 0} where
  abbrev by_slot : HashMap K V → RawBucketSlot → Outcome (Option (K × V))
  by_slot self (occupied_at i) = ok (entry_at self.bucket i)
  by_slot self (vacant_at i) = ok none
  by_slot self endless = never_ends

  -- `RawEntryBuilder::from_hash_and_value`
  unfoldable pub from_hash_and_value : HashMap K V → ℕ → (K → V → Bool) → Outcome (Option (K × V))
  from_hash_and_value self hash is_match =
      if capacity self == 0 then ok none else by_slot self (slot_for_hash self.bucket hash is_match)

  -- `RawEntryBuilder::from_hash`
  unfoldable pub from_hash : HashMap K V → ℕ → (K → Bool) → Outcome (Option (K × V))
  from_hash self hash is_match =
      if capacity self == 0
      then ok none
      else by_slot self (slot_for_hash self.bucket hash (λ k _. is_match k))

  -- `RawEntryBuilderMut::from_hash_and_value`
  unfoldable pub from_hash_and_value_mut : HashMap K V → ℕ → (K → V → Bool) → Outcome RawEntryMut
  from_hash_and_value_mut self hash is_match = by_slot_mut (slot_for_hash self.bucket hash is_match)

  -- `RawEntryBuilderMut::from_hash`
  unfoldable pub from_hash_mut : HashMap K V → ℕ → (K → Bool) → Outcome RawEntryMut
  from_hash_mut self hash is_match =
      by_slot_mut (slot_for_hash self.bucket hash (λ k _. is_match k))

  -- `RawEntryMut::and_modify`
  unfoldable pub and_modify : RawEntryMut → (K → V → K × V) → M K V RawEntryMut
  and_modify (raw_vacant i) f self = (self, ok (raw_vacant i))
  and_modify (raw_occupied i) f self = elim (read self.bucket i) [
    | vacant ↦ (self, ok (raw_occupied i))
    | occupied k v ↦ (
      record self { bucket = set self.bucket i (occupied (f k v).0 (f k v).1) },
      ok (raw_occupied i),
    )
  ]

  -- `RawEntryMut::or_insert`
  unfoldable pub or_insert : RawEntryMut → K → V → M K V ℕ
  or_insert (raw_occupied i) k v = pure i
  or_insert (raw_vacant i) k v = fill i k v

  -- `RawEntryMut::or_insert_with`
  unfoldable pub or_insert_with : RawEntryMut → (Unit {0} → K × V) → M K V ℕ
  or_insert_with (raw_occupied i) f = pure i
  or_insert_with (raw_vacant i) f = fill i (f tt).0 (f tt).1

  -- `RawEntryMut::remove`
  unfoldable pub remove : RawEntryMut → M K V (Option (K × V))
  remove (raw_vacant i) self = (self, ok none)
  remove (raw_occupied i) self = (
    record self { bucket = set self.bucket i vacant; len = self.len - 1 },
    ok (entry_at self.bucket i),
  )

module _ {K V : Type 0} (keys : Key K) where
  -- `RawEntryBuilder::from_key`
  unfoldable pub from_key : HashMap K V → K → Outcome (Option (K × V))
  from_key self key =
      if capacity self == 0 then ok none else by_slot self (slot_for_key keys self.bucket key)

  -- `RawEntryBuilder::from_prehashed_key`
  unfoldable pub from_prehashed_key : HashMap K V → ℕ → K → Outcome (Option (K × V))
  from_prehashed_key self hash key =
      if capacity self == 0
      then ok none
      else by_slot self (slot_for_hash self.bucket hash (λ k _. keys.eq k key))

  -- `HashMap::raw_entry_mut`
  unfoldable pub raw_entry_mut : M K V (Unit {0})
  raw_entry_mut = reserve keys 1

  -- `RawEntryBuilderMut::from_key`
  unfoldable pub from_key_mut : HashMap K V → K → Outcome RawEntryMut
  from_key_mut self key = by_slot_mut (slot_for_key keys self.bucket key)

  -- `RawEntryBuilderMut::from_prehashed_key`
  unfoldable pub from_prehashed_key_mut : HashMap K V → ℕ → K → Outcome RawEntryMut
  from_prehashed_key_mut self hash key =
      by_slot_mut (slot_for_hash self.bucket hash (λ k _. keys.eq k key))

-- ===== src/Collections/HashMap/Entry.antt =====
-- `Entry` of the hash map (src/shared/collections/src/hash_map/mod.rs). A reference to a value is the
-- index of its slot.
pub mod OrInsert
use vanadinite.Prelude.{
  ℕ, ◌+◌, ◌==◌, Bool, true, false, Option, none, some, List, if◌then◌else◌, length, set,
}
use vanadinite.Collections.HashMap.Slots.{
  Key, Slot, vacant, occupied, RawBucketSlot, vacant_at, occupied_at, endless, read,
}
use vanadinite.Collections.HashMap.{
  HashMap, Outcome, ok, never_ends, M, pure, ◌>>=◌, ◌>>◌, and_then, entry_at, reserve, slot_for_key,
  init_if_empty,
}

-- `OccupiedEntry` and `VacantEntry`
pub data Entry (K : Type 0) : Type 0 where
  occupied_entry : ℕ → Entry K
  vacant_entry : ℕ → K → Entry K

module _ {K V : Type 0} where
  -- `Slot::value_mut`, with what the caller writes
  abbrev modify_value : ℕ → (V → V) → M K V (Unit {0})
  modify_value i f self = elim (read self.bucket i) [
    | vacant ↦ (self, ok tt)
    | occupied k v ↦ (record self { bucket = set self.bucket i (occupied k (f v)) }, ok tt)
  ]

  -- `Slot::allocate`, and the length with it
  abbrev pub fill : ℕ → K → V → M K V ℕ
  fill i k v self =
      (record self { bucket = set self.bucket i (occupied k v); len = self.len + 1 }, ok i)

  unfoldable pub key : HashMap K V → Entry K → Option K
  key self (occupied_entry i) = elim (read self.bucket i) [ vacant ↦ none | occupied k v ↦ some k ]
  key self (vacant_entry i k) = some k

  unfoldable pub and_modify : Entry K → (V → V) → M K V (Entry K)
  and_modify (occupied_entry i) f = do modify_value i f; pure (occupied_entry i)
  and_modify (vacant_entry i k) f = pure (vacant_entry i k)

  -- `or_insert`, and `or_default` with the default value
  unfoldable pub or_insert : Entry K → V → M K V ℕ
  or_insert (occupied_entry i) v = pure i
  or_insert (vacant_entry i k) v = fill i k v

  unfoldable pub or_insert_with : Entry K → (Unit {0} → V) → M K V ℕ
  or_insert_with (occupied_entry i) f = pure i
  or_insert_with (vacant_entry i k) f = fill i k (f tt)

  unfoldable pub or_insert_with_key : Entry K → (K → V) → M K V ℕ
  or_insert_with_key (occupied_entry i) f = pure i
  or_insert_with_key (vacant_entry i k) f = fill i k (f k)

module _ {K V : Type 0} (keys : Key K) where
  unfoldable pub find_entry : K → M K V (Entry K)
  find_entry k self = elim (slot_for_key keys self.bucket k) [
    | occupied_at i ↦ (self, ok (occupied_entry i))
    | vacant_at i ↦ (self, ok (vacant_entry i k))
    | endless ↦ (self, never_ends)
  ]

  -- `HashMap::entry`
  unfoldable pub entry : K → M K V (Entry K)
  entry k = do init_if_empty keys; reserve keys 1; find_entry k

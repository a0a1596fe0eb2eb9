-- ===== src/Collections/HashMap/RawEntry/ByHash.antt =====
-- Looking up a raw entry by its hash and a test on its value
-- (src/shared/collections/src/hash_map/mod.rs), as the LRU cache does.
use vanadinite.Prelude.{
  ℕ, ◌≡◌, refl, sym, ap, ◌∙◌, Bool-cases, Bool, true, false, some, ◌==◌, inl, inr, arith,
}
use vanadinite.Collections.HashMap.Slots.{Key, occupied, occupied_at, read, slot_for_hash}
use vanadinite.Collections.HashMap.Searches.{occupied-lt, slot_of}
use vanadinite.Collections.HashMap.Paths.{search-match}
use vanadinite.Collections.HashMap.Growth.{IsTable}
use vanadinite.Collections.HashMap.{HashMap, ok, capacity, slot_for_key, remove, entry_at}
use vanadinite.Collections.HashMap.RawEntry
use vanadinite.Collections.HashMap.RawEntry.{
  from_hash_and_value, from_hash_and_value_mut, raw_occupied,
}

module _ {K V : Type 0} (keys : Key K) (self : HashMap K V) (t : IsTable keys self) (i : ℕ) (k : K)
    (v : V) (is_match : K → V → Bool) (at : read self.bucket i ≡ occupied k v)
    (matches : is_match k v ≡ true)
    (alone : (p : ℕ) (l : K) (w : V)
      → read self.bucket p ≡ occupied l w
      → is_match l w ≡ true
      → p ≡ i) where
  key_inj : (k l : K) (w u : V) → occupied k w ≡ occupied l u → k ≡ l
  key_inj k l w u e = ground arith

  pub search_alone : slot_for_hash self.bucket (keys.hash k) is_match ≡ occupied_at i
  unfolding slot_for_key
  search_alone =
      search-match self.bucket self.bucket (keys.hash k) (λ l _. keys.eq l k) is_match refl passes i
        k v (ap slot_of (t.reachable i k v at)) at matches
    where
      passes :
          (p : ℕ) (l : K) (w : V)
          → read self.bucket p ≡ occupied l w
          → keys.eq l k ≡ false
          → (l' : K) × (w' : V) × (read self.bucket p ≡ occupied l' w') × (is_match l' w' ≡ false)
      passes p l w there other = elim (Bool-cases (is_match l w)) [
        | inr no_match ↦ (l, w, there, no_match)
        | inl a_match ↦
            let one = ap (λ (n : ℕ). read self.bucket n) (alone p l w there a_match) in
            let same : l ≡ k = key_inj l k w v (sym there ∙ one ∙ at) in
            let clash : false ≡ true = sym other ∙ ap (λ x. keys.eq x k) same ∙ keys.eq_refl k in
            absurd (ground arith)
      ]

  -- If a test holds for one entry of a table only, then looking it up by the hash of its key and the
  -- test gives the entry, and its slot for a change; removing it there does what `remove` of the key
  -- does.
  pub from_hash_and_value_lem :
      (from_hash_and_value self (keys.hash k) is_match ≡ ok (some (k, v)))
      × (from_hash_and_value_mut self (keys.hash k) is_match ≡ ok (raw_occupied i))
      × (RawEntry.remove (raw_occupied i) self ≡ ((remove keys k self).0, ok (some (k, v))))
  unfolding from_hash_and_value from_hash_and_value_mut RawEntry.remove remove
  from_hash_and_value_lem =
      let small = occupied-lt self.bucket i k v at in
      let slots : (capacity self == 0) ≡ false = ground arith in
      (
        rw (from_hash_and_value, slots, search_alone, entry_at, at) refl,
        rw (from_hash_and_value_mut, search_alone) refl,
        rw (remove, slots, t.reachable i k v at, entry_at, at) refl,
      )

-- ===== src/Collections/HashMap/Crowded.antt =====
-- A hash map with no vacant slot (src/shared/collections/src/hash_map/mod.rs).
use native.Mathlib.Nat.{mod-lt}
use vanadinite.Prelude.Powers.{next_power_of_two}
use vanadinite.Prelude.{
  ℕ, zero, suc, ◌*◌, ◌%◌, ◌<◌, ◌≡◌, ◌≢◌, refl, sym, ◌∙◌, true, false, none, List, [], ◌∷◌, ◌==◌,
  arith, length,
}
use vanadinite.Collections.HashMap.Slots.{
  Key, Slot, vacant, occupied, occupied_count, endless, read, probe, slot_for_hash,
}
use vanadinite.Collections.HashMap.Searches.{
  move, move-lt, Probed, at_vacant, at_match, passing, probed, probe-pass,
}
use vanadinite.Collections.HashMap.Rehash.{count-le}
use vanadinite.Collections.HashMap.Contents.{contents, contents-Lacks}
use vanadinite.Collections.HashMap.{HashMap, never_ends, capacity, slot_for_key, get}

module _ {K V : Type 0} where
  full-read :
      (slots : List (Slot K V)) (i : ℕ)
      → occupied_count slots ≡ length slots
      → i < length slots
      → read slots i ≢ vacant
  full-read [] i full small = absurd (omega arith)
  full-read (vacant ∷ slots) i full small = absurd (omega (arith, count-le slots))
  full-read (occupied k v ∷ slots) zero full small = λ e. absurd (ground arith)
  full-read (occupied k v ∷ slots) (suc i) full small =
      full-read slots i (omega arith) (omega arith)

module _ {K V : Type 0} (keys : Key K) (slots : List (Slot K V)) (j : K)
    (full : occupied_count slots ≡ length slots) (missing : contents keys slots j ≡ none) where
  -- A search for a missing key goes on for any number of rounds.
  pub probe-endless :
      (rounds ptr attempt : ℕ)
      → ptr < length slots
      → probe rounds slots (keys.hash j) (λ k _. keys.eq k j) ptr attempt ≡ endless
  unfolding probe
  probe-endless zero ptr attempt small = refl
  probe-endless (suc rounds) ptr attempt small =
      by_slot (probed slots (keys.hash j) (λ k _. keys.eq k j) rounds ptr attempt) (
        probe-endless rounds (move slots (keys.hash j) ptr attempt) (suc attempt)
          (move-lt slots (keys.hash j) (λ k _. keys.eq k j) ptr attempt small))
    where
      by_slot :
          Probed slots (keys.hash j) (λ k _. keys.eq k j) rounds ptr attempt
          → probe rounds slots
              (keys.hash j)
              (λ k _. keys.eq k j)
              (move slots (keys.hash j) ptr attempt)
              (suc attempt)
            ≡ endless
          → probe (suc rounds) slots (keys.hash j) (λ k _. keys.eq k j) ptr attempt ≡ endless
      by_slot (at_vacant e) later = absurd (full-read slots ptr full small e)
      by_slot (at_match k v e same) later =
          let clash : true ≡ false = sym same ∙ contents-Lacks keys slots j missing ptr k v e in
          absurd (ground arith)
      by_slot (passing k v e other) later =
          probe-pass slots (keys.hash j) (λ l _. keys.eq l j) rounds ptr attempt k v e other ∙ later

module _ {K V : Type 0} (keys : Key K) (self : HashMap K V) (j : K) where
  -- In a bucket whose slots are all occupied, `get` of a key that is not stored never ends: its
  -- search finds nothing in any number of rounds.
  pub get-endless :
      0 < capacity self
      → occupied_count self.bucket ≡ capacity self
      → contents keys self.bucket j ≡ none
      → (get keys self j ≡ never_ends)
        × ((rounds : ℕ)
            → probe rounds self.bucket
                (keys.hash j)
                (λ k _. keys.eq k j)
                (keys.hash j % capacity self)
                1
              ≡ endless)
  unfolding get slot_for_key slot_for_hash
  get-endless some_slots full missing =
      let slots : (capacity self == 0) ≡ false = ground arith in
      let goes_on = λ (rounds : ℕ).
        probe-endless keys self.bucket j full missing rounds (keys.hash j % capacity self) 1
          (mod-lt (keys.hash j) some_slots) in
      (rw (get, slots, goes_on (2 * next_power_of_two (capacity self))) refl, goes_on)

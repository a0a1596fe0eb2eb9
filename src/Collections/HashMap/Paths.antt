-- ===== src/Collections/HashMap/Paths.antt =====
-- The path of a search through the slots of the hash map
-- (src/shared/collections/src/hash_map/mod.rs), before and after a change to the slot where it ends.
use vanadinite.Prelude.Powers.{next_power_of_two}
use vanadinite.Prelude.{
  ℕ, zero, suc, ◌*◌, ◌%◌, ◌≡◌, sym, ap, ◌∙◌, Bool, true, false, some, List, if◌then◌else◌, leb,
  arith, length,
}
use vanadinite.Collections.HashMap.Slots.{
  Slot, vacant, occupied, h, RawBucketSlot, vacant_at, occupied_at, read, probe, slot_for_hash,
}
use vanadinite.Collections.HashMap.Searches.{
  slot_of, move, probe-vacant, probe-match, probe-pass, Probed, at_vacant, at_match, passing,
  probed,
}

-- Two buckets of one length, where a search that passes a slot of the first passes it in the second.
some_inj : {i j : ℕ} → some i ≡ some j → i ≡ j
some_inj e = ground arith

module _ {K V : Type 0} (slots slots' : List (Slot K V)) (hash : ℕ) (eq eq' : K → V → Bool)
    (same_length : length slots' ≡ length slots)
    (passes : (p : ℕ) (k : K) (v : V)
      → read slots p ≡ occupied k v
      → eq k v ≡ false
      → (k' : K) × (v' : V) × (read slots' p ≡ occupied k' v') × (eq' k' v' ≡ false)) where
  -- The search of the second comes to the slot where that of the first ends.
  abbrev Arrives : RawBucketSlot → ℕ → Type 0
  Arrives result i =
      (rounds : ℕ) × (attempt : ℕ) × (result ≡ probe (suc rounds) slots' hash eq' i attempt)

  follow :
      (rounds ptr attempt i : ℕ)
      → slot_of (probe rounds slots hash eq ptr attempt) ≡ some i
      → Arrives (probe rounds slots' hash eq' ptr attempt) i
  unfolding probe
  follow zero ptr attempt i e = absurd (ground arith)
  follow (suc rounds) ptr attempt i e =
      by_slot (probed slots hash eq rounds ptr attempt)
        (follow rounds (move slots hash ptr attempt) (suc attempt) i)
    where
      here : ptr ≡ i → Arrives (probe (suc rounds) slots' hash eq' ptr attempt) i
      here same =
          (rounds, attempt, ap (λ (p : ℕ). probe (suc rounds) slots' hash eq' p attempt) same)

      onward :
          (k' : K) (v' : V)
          → read slots' ptr ≡ occupied k' v'
          → eq' k' v' ≡ false
          → Arrives (probe rounds slots' hash eq' (move slots hash ptr attempt) (suc attempt)) i
          → Arrives (probe (suc rounds) slots' hash eq' ptr attempt) i
      onward k' v' at other (r, a, f) =
          let there : move slots' hash ptr attempt ≡ move slots hash ptr attempt =
            ap (λ (n : ℕ). if leb n (h hash attempt n) then ptr else h hash attempt n)
              same_length in
          (
            r,
            a,
            probe-pass slots' hash eq' rounds ptr attempt k' v' at other
                ∙ ap (λ (p : ℕ). probe rounds slots' hash eq' p (suc attempt)) there
                ∙ f,
          )

      by_slot :
          Probed slots hash eq rounds ptr attempt
          → (slot_of (probe rounds slots hash eq (move slots hash ptr attempt) (suc attempt))
                ≡ some i
              → Arrives
                  (probe rounds slots' hash eq' (move slots hash ptr attempt) (suc attempt))
                  i)
          → Arrives (probe (suc rounds) slots' hash eq' ptr attempt) i
      by_slot (at_vacant f) later =
          here (some_inj (sym (ap slot_of (probe-vacant slots hash eq rounds ptr attempt f)) ∙ e))
      by_slot (at_match k v f same) later = here (
          some_inj (sym (ap slot_of (probe-match slots hash eq rounds ptr attempt k v f same)) ∙ e))
      by_slot (passing k v f other) later =
          let (k', v', f', other') = passes ptr k v f other in
          onward k' v' f' other'
            (later (sym (ap slot_of (probe-pass slots hash eq rounds ptr attempt k v f other)) ∙ e))

  arrives :
      (i : ℕ)
      → slot_of (slot_for_hash slots hash eq) ≡ some i
      → Arrives (slot_for_hash slots' hash eq') i
  unfolding slot_for_hash
  arrives i e =
      by_length (follow (2 * next_power_of_two (length slots)) (hash % length slots) 1 i e)
    where
      by_length :
          Arrives
            (probe (2 * next_power_of_two (length slots)) slots' hash eq' (hash % length slots) 1)
            i
          → Arrives (slot_for_hash slots' hash eq') i
      by_length (r, a, f) = (
        r,
        a,
        ap (λ (n : ℕ). probe (2 * next_power_of_two n) slots' hash eq' (hash % n) 1) same_length
            ∙ f,
      )

  pub search-vacant :
      (i : ℕ)
      → slot_of (slot_for_hash slots hash eq) ≡ some i
      → read slots' i ≡ vacant
      → slot_for_hash slots' hash eq' ≡ vacant_at i
  search-vacant i e free =
      let (r, a, f) = arrives i e in f ∙ probe-vacant slots' hash eq' r i a free

  pub search-match :
      (i : ℕ) (k : K) (v : V)
      → slot_of (slot_for_hash slots hash eq) ≡ some i
      → read slots' i ≡ occupied k v
      → eq' k v ≡ true
      → slot_for_hash slots' hash eq' ≡ occupied_at i
  search-match i k v e at same =
      let (r, a, f) = arrives i e in f ∙ probe-match slots' hash eq' r i a k v at same

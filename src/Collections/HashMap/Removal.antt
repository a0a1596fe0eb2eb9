-- ===== src/Collections/HashMap/Removal.antt =====
-- Removal from the hash map (src/shared/collections/src/hash_map/mod.rs): the slot becomes vacant, so
-- that a search for another key can end there before it comes to its entry.
use vanadinite.Prelude.Powers.{Rounded}
use vanadinite.Prelude.Powers.{next_power_of_two}
use vanadinite.Prelude.{
  ℕ, zero, suc, ◌-◌, ◌*◌, ◌%◌, ◌^◌, ◌≤◌, ◌<◌, ◌≡◌, ◌≢◌, ◌⊎◌, inl, inr, refl, sym, ap, ◌∙◌,
  Bool-cases, Bool, true, false, Option, none, some, List, [], ◌∷◌, ◌==◌, if◌then◌else◌, arith,
  length, set, length-set,
}
use vanadinite.Collections.HashMap.Slots.{
  Key, Slot, vacant, occupied, vacant_at, occupied_at, RawBucketSlot, read, probe, slot_for_hash,
}
use vanadinite.Collections.HashMap.Indices.{next_power_of_two_lem}
use vanadinite.Collections.HashMap.Searches.{
  occupied-lt, probe-vacant, Found, found_vacant, found_match, not_found,
}
use vanadinite.Collections.HashMap.Contents.{
  contents, Lookup, absent, present, contents-Lacks, contents-same, matches, Stores, Lacks,
  contents-cases, slot_for_hash-Found,
}
use vanadinite.Collections.HashMap.Rehash.{Distinct, Reachable-Distinct}
use vanadinite.Collections.HashMap.Updates.{read-set_self}
use vanadinite.Collections.HashMap.Growth.{IsTable}
use vanadinite.Collections.HashMap.Lookups.{table-Lookup}
use vanadinite.Collections.HashMap.{
  HashMap, Outcome, ok, capacity, slot_for_key, get, remove, value_at,
}

module _ {K V : Type 0} (keys : Key K) where
  stored :
      (slots : List (Slot K V)) (i : ℕ) (k : K) (v : V)
      → read slots i ≡ occupied k v
      → contents keys slots k ≢ none
  stored slots i k v at nothing =
      let clash : true ≡ false =
        sym (keys.eq_refl k) ∙ contents-Lacks keys slots k nothing i k v at in
      ground arith

  contents-clear :
      (slots : List (Slot K V)) (i : ℕ) (k : K) (v : V) (j : K)
      → Distinct keys slots
      → read slots i ≡ occupied k v
      → contents keys (set slots i vacant) j ≡ (if keys.eq k j then none else contents keys slots j)
  unfolding contents
  contents-clear [] i k v j d at = absurd (ground arith)
  contents-clear (vacant ∷ slots) zero k v j d at = absurd (ground arith)
  contents-clear (vacant ∷ slots) (suc i) k v j d at = contents-clear slots i k v j d at
  contents-clear (occupied l w ∷ slots) zero k v j (once, d) at =
      here (Bool-cases (keys.eq l j))
      ∙ ap (λ x. if keys.eq x j then none else contents keys (occupied l w ∷ slots) j) (key_inj at)
    where
      key_inj : occupied l w ≡ occupied k v → l ≡ k
      key_inj e = ground arith

      here :
          (keys.eq l j ≡ true) ⊎ (keys.eq l j ≡ false)
          → contents keys slots j
            ≡ (if keys.eq l j then none else contents keys (occupied l w ∷ slots) j)
      here (inl same) = sym (contents-same keys slots l j same) ∙ once ∙ rw same refl
      here (inr other) = rw other refl
  contents-clear (occupied l w ∷ slots) (suc i) k v j (once, d) at =
      elim (Bool-cases (keys.eq l j)) [
        | inr other ↦ rw other (contents-clear slots i k v j d at)
        | inl same ↦ rw (same, apart same) refl
      ]
    where
      apart : keys.eq l j ≡ true → keys.eq k j ≡ false
      apart same = elim (Bool-cases (keys.eq k j)) [
        | inr other ↦ other
        | inl also ↦ absurd (
            stored slots i k v at
              (contents-same keys slots k l (matches keys j k l also same) ∙ once))
      ]

module _ {K V : Type 0} (keys : Key K) (self : HashMap K V) (key : K) where
  pub record Removed (r : HashMap K V × Outcome (Option V)) : Type 0 where
    pub returns : r.1 ≡ ok (contents keys self.bucket key)
    pub entries :
        (j : K)
        → contents keys r.0.bucket j ≡ (if keys.eq key j then none else contents keys self.bucket j)
    pub same_capacity : capacity r.0 ≡ capacity self

  -- In a table of at most 2 ^ 31 slots, not all of them occupied, `remove` returns the value of the
  -- key, and takes the key and no other from the entries in the slots.
  pub remove-Removed :
      IsTable keys self
      → capacity self ≤ 2 ^ 31
      → self.len < capacity self
      → Removed (remove keys key self)
  unfolding remove
  remove-Removed t bound room =
      by_lookup (slot_for_key keys self.bucket key) refl (table-Lookup keys self t key bound room)
    where
      slots : (capacity self == 0) ≡ false
      slots = ground arith

      missing :
          contents keys self.bucket key ≡ none
          → (j : K) → (keys.eq key j ≡ true) ⊎ (keys.eq key j ≡ false)
          → contents keys self.bucket j
            ≡ (if keys.eq key j then none else contents keys self.bucket j)
      missing found j (inl same) =
          sym (contents-same keys self.bucket key j same) ∙ found ∙ rw same refl
      missing found j (inr other) = rw other refl

      by_lookup :
          (result : RawBucketSlot)
          → slot_for_key keys self.bucket key ≡ result
          → Lookup keys self.bucket key result
          → Removed (remove keys key self)
      by_lookup _ e (absent i small at found) =
          rw (remove, slots, e)
            (record {
              returns = ap ok (sym found);
              entries = λ j. missing found j (Bool-cases (keys.eq key j));
              same_capacity = refl;
            })
      by_lookup _ e (present i k v small at same found) =
          rw (remove, slots, e)
            (record {
              returns = rw (value_at, at) (ap ok (sym found));
              entries = λ j.
                  contents-clear keys self.bucket i k v j
                    (Reachable-Distinct keys self.bucket t.reachable) at
                  ∙ ap (λ b. if b then none else contents keys self.bucket j)
                      (keys.eq_trans k key j same);
              same_capacity = length-set self.bucket i vacant;
            })

module _ {K V : Type 0} (slots : List (Slot K V)) (hash : ℕ) (eq : K → V → Bool) where
  -- A search ends at once at a vacant slot.
  search_start :
      length slots ≤ 2 ^ 31
      → 0 < length slots
      → read slots (hash % length slots) ≡ vacant
      → slot_for_hash slots hash eq ≡ vacant_at (hash % length slots)
  unfolding slot_for_hash
  search_start bound some_slots free =
      by_rounds (next_power_of_two (length slots)) (next_power_of_two_lem (length slots) bound)
    where
      by_rounds :
          (p : ℕ)
          → Rounded 31 (length slots) p
          → probe (2 * p) slots hash eq (hash % length slots) 1 ≡ vacant_at (hash % length slots)
      by_rounds p r =
          let one_more : 2 * p ≡ suc (2 * p - 1) = omega (arith, r.above) in
          rw one_more (probe-vacant slots hash eq (2 * p - 1) (hash % length slots) 1 free)

module _ {K V : Type 0} (keys : Key K) (self : HashMap K V) (key : K) (i : ℕ) where
  abbrev without : HashMap K V
  without = record {
    allocator = self.allocator;
    bucket = set self.bucket i vacant;
    len = self.len - 1;
  }

  remove_at :
      0 < capacity self
      → slot_for_key keys self.bucket key ≡ occupied_at i
      → remove keys key self ≡ (without, ok (value_at self.bucket i))
  unfolding remove
  remove_at some_slots e =
      let slots : (capacity self == 0) ≡ false = ground arith in rw (remove, slots, e) refl

  get_at_vacant :
      (j : K)
      → 0 < capacity self
      → slot_for_key keys self.bucket j ≡ vacant_at i
      → get keys self j ≡ ok none
  unfolding get
  get_at_vacant j some_slots e =
      let slots : (capacity self == 0) ≡ false = ground arith in rw (get, slots, e) refl

module _ {K V : Type 0} (keys : Key K) (self : HashMap K V) (key : K) where
  -- A search that starts at a slot that became vacant
  get_vacated :
      (j : K)
      → capacity self ≤ 2 ^ 31
      → keys.hash j % capacity self < capacity self
      → get keys (without keys self key (keys.hash j % capacity self)) j ≡ ok none
  unfolding slot_for_key
  get_vacated j bound small =
      get_at_vacant keys after key (keys.hash j % capacity after) j some_slots (
        search_start after.bucket (keys.hash j) (λ k _. keys.eq k j) (omega (arith, same_length))
          some_slots
          (ap (λ (n : ℕ). read after.bucket (keys.hash j % n)) same_length
            ∙ read-set_self self.bucket _ vacant small))
    where
      after : HashMap K V
      after = without keys self key (keys.hash j % capacity self)

      same_length : capacity after ≡ capacity self
      same_length = length-set self.bucket (keys.hash j % capacity self) vacant

      some_slots : 0 < capacity after
      some_slots = omega (arith, same_length)

  matched :
      (i : ℕ)
      → 0 < capacity self
      → slot_for_key keys self.bucket key ≡ occupied_at i
      → (i < capacity self)
        × (k : K) × (v : V) × (read self.bucket i ≡ occupied k v)
        × (keys.eq k key ≡ true)
  unfolding slot_for_key
  matched i some_slots e =
      by_found (slot_for_key keys self.bucket key) e
        (slot_for_hash-Found keys self.bucket (keys.hash key) (λ k _. keys.eq k key) some_slots)
    where
      at : (p : ℕ) → occupied_at p ≡ occupied_at i → p ≡ i
      at p same = cc

      by_found :
          (result : RawBucketSlot)
          → result ≡ occupied_at i
          → Found self.bucket (keys.hash key) (λ k _. keys.eq k key) result
          → (i < capacity self)
            × (k : K) × (v : V) × (read self.bucket i ≡ occupied k v)
            × (keys.eq k key ≡ true)
      by_found _ e (found_vacant p small free) = absurd (ground arith)
      by_found _ e (found_match p k v small there same) =
          let one = at p e in
          (omega arith, k, v, ap (λ (n : ℕ). read self.bucket n) (sym one) ∙ there, same)
      by_found _ e not_found = absurd (ground arith)

  -- In a table of at most 2 ^ 31 slots, if the search for a stored key starts at the slot of
  -- another one, then after `remove` of that other one `get` does not find the stored key any more,
  -- although its entry is still in its slot.
  pub remove-loses :
      (j : K) (w : V)
      → IsTable keys self
      → capacity self ≤ 2 ^ 31
      → slot_for_key keys self.bucket key ≡ occupied_at (keys.hash j % capacity self)
      → keys.eq key j ≡ false
      → contents keys self.bucket j ≡ some w
      → (get keys (remove keys key self).0 j ≡ ok none)
        × (contents keys (remove keys key self).0.bucket j ≡ some w)
  remove-loses j w t bound e other there = by_cases (contents-cases keys self.bucket j)
    where
      first : ℕ
      first = keys.hash j % capacity self

      by_match :
          0 < capacity self
          → (first < capacity self)
            × (k : K) × (v : V) × (read self.bucket first ≡ occupied k v)
            × (keys.eq k key ≡ true)
          → (get keys (remove keys key self).0 j ≡ ok none)
            × (contents keys (remove keys key self).0.bucket j ≡ some w)
      by_match some_slots (small, k, v, at, same) =
          let kept : (if keys.eq k j then none else contents keys self.bucket j) ≡ some w =
            rw (keys.eq_trans k key j same, other) there in
          rw (remove_at keys self key first some_slots e) (
            get_vacated j bound small,
            contents-clear keys self.bucket first k v j
                  (Reachable-Distinct keys self.bucket t.reachable) at
                ∙ kept,
          )

      by_cases :
          ((contents keys self.bucket j ≡ none) × Lacks keys self.bucket j)
            ⊎ Stores keys self.bucket j
          → (get keys (remove keys key self).0 j ≡ ok none)
            × (contents keys (remove keys key self).0.bucket j ≡ some w)
      by_cases (inl (nothing, _)) =
          let clash : none ≡ some w = sym nothing ∙ there in absurd (ground arith)
      by_cases (inr s) =
          let some_slots : 0 < capacity self =
            omega (arith, occupied-lt self.bucket s.index s.key s.value s.at) in
          by_match some_slots (matched first some_slots e)

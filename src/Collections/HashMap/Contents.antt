-- ===== src/Collections/HashMap/Contents.antt =====
-- What a bucket of the hash map stores (src/shared/collections/src/hash_map/mod.rs): the entries
-- found by a scan of all slots, against which the searches are proved.
use mathlib.Core.Path.{subst}
use native.Mathlib.Nat.{mod-lt}
use vanadinite.Prelude.{
  ℕ, zero, suc, ◌%◌, ◌^◌, ◌≤◌, ◌<◌, ◌≡◌, ◌⊎◌, inl, inr, refl, sym, ap, ◌∙◌, Bool-cases, Bool, true,
  false, Option, none, some, List, [], ◌∷◌, if◌then◌else◌, arith, length,
}
use vanadinite.Collections.HashMap.Slots.{
  Key, Slot, vacant, occupied, RawBucketSlot, vacant_at, occupied_at, read, slot_for_hash,
}
use vanadinite.Collections.HashMap.Searches.{
  Found, found_vacant, found_match, not_found, probe-Found, slot_for_hash-ends,
}
use vanadinite.Collections.HashMap.{slot_for_key}

occupied_inj : (i p : ℕ) → occupied_at i ≡ occupied_at p → i ≡ p
occupied_inj i p e = cc

module _ {K : Type 0} (keys : Key K) where
  pub matches : (j k l : K) → keys.eq k j ≡ true → keys.eq l j ≡ true → keys.eq k l ≡ true
  matches j k l hk hl = keys.eq_trans k j l hk ∙ keys.eq_sym j l ∙ hl

module _ {K V : Type 0} (keys : Key K) where
  unfoldable pub contents : List (Slot K V) → K → Option V
  contents [] j = none
  contents (vacant ∷ slots) j = contents slots j
  contents (occupied k v ∷ slots) j = if keys.eq k j then some v else contents slots j

  -- Each entry is where the search for its key ends.
  abbrev pub Reachable : List (Slot K V) → Type 0
  Reachable slots =
      (i : ℕ) (k : K) (v : V)
      → read slots i ≡ occupied k v
      → slot_for_key keys slots k ≡ occupied_at i

  pub same_search :
      (slots : List (Slot K V)) (j k : K)
      → keys.eq j k ≡ true
      → slot_for_key keys slots j ≡ slot_for_key keys slots k
  unfolding slot_for_key
  same_search slots j k e =
      λ t. slot_for_hash slots (keys.hash-eq j k e t) (λ (l : K) _. verdict l t)
    where
      verdict : (l : K) → keys.eq l j ≡ keys.eq l k
      verdict l = keys.eq_sym l j ∙ keys.eq_trans j k l e ∙ keys.eq_sym k l

  pub unique :
      (slots : List (Slot K V))
      → Reachable slots
      → (i p : ℕ) (k l : K) (v w : V) → read slots i ≡ occupied k v
      → read slots p ≡ occupied l w
      → keys.eq k l ≡ true
      → i ≡ p
  unique slots r i p k l v w at there same =
      occupied_inj i p (sym (r i k v at) ∙ same_search slots k l same ∙ r p l w there)

  -- No entry of the bucket has the key.
  abbrev pub Lacks : List (Slot K V) → K → Type 0
  Lacks slots j = (i : ℕ) (k : K) (v : V) → read slots i ≡ occupied k v → keys.eq k j ≡ false

  pub record Stores (slots : List (Slot K V)) (j : K) : Type 0 where
    pub index : ℕ
    pub key : K
    pub value : V
    pub at : read slots index ≡ occupied key value
    pub same : keys.eq key j ≡ true
    pub found : contents slots j ≡ some value

  pub contents-cases :
      (slots : List (Slot K V)) (j : K)
      → ((contents slots j ≡ none) × Lacks slots j) ⊎ Stores slots j
  unfolding contents
  contents-cases [] j = inl (refl, λ i k v e. absurd (ground arith))
  contents-cases (vacant ∷ slots) j = after (contents-cases slots j)
    where
      lacks : Lacks slots j → Lacks (vacant ∷ slots) j
      lacks l zero k v e = absurd (ground arith)
      lacks l (suc i) k v e = l i k v e

      after :
          ((contents slots j ≡ none) × Lacks slots j) ⊎ Stores slots j
          → ((contents slots j ≡ none) × Lacks (vacant ∷ slots) j) ⊎ Stores (vacant ∷ slots) j
      after (inl (e, l)) = inl (e, lacks l)
      after (inr s) = inr (record {
        index = suc s.index;
        key = s.key;
        value = s.value;
        at = s.at;
        same = s.same;
        found = s.found;
      })
  contents-cases (occupied k0 v0 ∷ slots) j =
      after (Bool-cases (keys.eq k0 j)) (contents-cases slots j)
    where
      lacks : keys.eq k0 j ≡ false → Lacks slots j → Lacks (occupied k0 v0 ∷ slots) j
      lacks other l zero k v e =
          let same : k0 ≡ k = ground arith in subst (λ x. keys.eq x j ≡ false) same other
      lacks other l (suc i) k v e = l i k v e

      after :
          (keys.eq k0 j ≡ true) ⊎ (keys.eq k0 j ≡ false)
          → ((contents slots j ≡ none) × Lacks slots j) ⊎ Stores slots j
          → ((contents (occupied k0 v0 ∷ slots) j ≡ none) × Lacks (occupied k0 v0 ∷ slots) j)
            ⊎ Stores (occupied k0 v0 ∷ slots) j
      after (inl same) rest =
          inr (record {
            index = 0;
            key = k0;
            value = v0;
            at = refl;
            same = same;
            found = rw same refl;
          })
      after (inr other) (inl (e, l)) = inl (rw other e, lacks other l)
      after (inr other) (inr s) = inr (record {
        index = suc s.index;
        key = s.key;
        value = s.value;
        at = s.at;
        same = s.same;
        found = rw other s.found;
      })

  pub Lacks-contents : (slots : List (Slot K V)) (j : K) → Lacks slots j → contents slots j ≡ none
  Lacks-contents slots j l = by_cases (contents-cases slots j)
    where
      by_cases :
          ((contents slots j ≡ none) × Lacks slots j) ⊎ Stores slots j → contents slots j ≡ none
      by_cases (inl (e, _)) = e
      by_cases (inr s) =
          let clash : true ≡ false = sym s.same ∙ l s.index s.key s.value s.at in
          absurd (ground arith)

  pub contents-Lacks : (slots : List (Slot K V)) (j : K) → contents slots j ≡ none → Lacks slots j
  contents-Lacks slots j e = by_cases (contents-cases slots j)
    where
      by_cases : ((contents slots j ≡ none) × Lacks slots j) ⊎ Stores slots j → Lacks slots j
      by_cases (inl (_, l)) = l
      by_cases (inr s) = let clash : none ≡ some s.value = sym e ∙ s.found in absurd (ground arith)

  value_inj : (k l : K) (v w : V) → occupied k v ≡ occupied l w → v ≡ w
  value_inj k l v w e = ground arith

  -- An entry that a search finds is the one that the scan finds.
  pub contents-at :
      (slots : List (Slot K V)) (j : K)
      → Reachable slots
      → (i : ℕ) (k : K) (v : V) → read slots i ≡ occupied k v
      → keys.eq k j ≡ true
      → contents slots j ≡ some v
  contents-at slots j r i k v at same = by_cases (contents-cases slots j)
    where
      by_cases :
          ((contents slots j ≡ none) × Lacks slots j) ⊎ Stores slots j → contents slots j ≡ some v
      by_cases (inl (_, l)) =
          let clash : true ≡ false = sym same ∙ l i k v at in absurd (ground arith)
      by_cases (inr s) =
          let one =
            unique slots r s.index i s.key k s.value v s.at at
              (matches keys j s.key k s.same same) in
          let there = sym s.at ∙ ap (λ (n : ℕ). read slots n) one ∙ at in
          s.found ∙ ap some (value_inj s.key k s.value v there)

  pub contents-same :
      (slots : List (Slot K V)) (j k : K) → keys.eq j k ≡ true → contents slots j ≡ contents slots k
  unfolding contents
  contents-same [] j k e = refl
  contents-same (vacant ∷ slots) j k e = contents-same slots j k e
  contents-same (occupied l v ∷ slots) j k e =
      let verdict = keys.eq_sym l j ∙ keys.eq_trans j k l e ∙ keys.eq_sym k l in
      rw (verdict, contents-same slots j k e) refl

  -- What the search for a key gives, in a bucket with a vacant slot.
  pub data Lookup (slots : List (Slot K V)) (j : K) : RawBucketSlot → Type 0 where
    absent :
        (i : ℕ)
        → i < length slots
        → read slots i ≡ vacant
        → contents slots j ≡ none
        → Lookup slots j (vacant_at i)
    present :
        (i : ℕ) (k : K) (v : V)
        → i < length slots
        → read slots i ≡ occupied k v
        → keys.eq k j ≡ true
        → contents slots j ≡ some v
        → Lookup slots j (occupied_at i)

  pub slot_for_hash-Found :
      (slots : List (Slot K V)) (hash : ℕ) (eq : K → V → Bool)
      → 0 < length slots
      → Found slots hash eq (slot_for_hash slots hash eq)
  unfolding slot_for_hash
  slot_for_hash-Found slots hash eq some_slots =
      probe-Found slots hash eq _ (hash % length slots) 1 (mod-lt hash some_slots)

  pub slot_for_key-Lookup :
      (slots : List (Slot K V)) (j : K) (q : ℕ)
      → Reachable slots
      → length slots ≤ 2 ^ 31
      → q < length slots
      → read slots q ≡ vacant
      → Lookup slots j (slot_for_key keys slots j)
  unfolding slot_for_key
  slot_for_key-Lookup slots j q r bound small free =
      by_found (slot_for_key keys slots j) refl
        (slot_for_hash-Found slots (keys.hash j) (λ k _. keys.eq k j) (omega arith))
    where
      lacks : (i : ℕ) → slot_for_key keys slots j ≡ vacant_at i → Lacks slots j
      lacks i e p k v at = elim (Bool-cases (keys.eq k j)) [
        | inr other ↦ other
        | inl same ↦
            let clash : occupied_at p ≡ vacant_at i =
              sym (r p k v at) ∙ same_search slots k j same ∙ e in
            absurd (ground arith)
      ]

      by_found :
          (result : RawBucketSlot)
          → slot_for_key keys slots j ≡ result
          → Found slots (keys.hash j) (λ k _. keys.eq k j) result
          → Lookup slots j result
      by_found _ e (found_vacant i small at) =
          absent i small at (Lacks-contents slots j (lacks i e))
      by_found _ e (found_match i k v small at same) =
          present i k v small at same (contents-at slots j r i k v at same)
      by_found _ e not_found =
          absurd (slot_for_hash-ends slots (keys.hash j) (λ k _. keys.eq k j) q bound small free e)

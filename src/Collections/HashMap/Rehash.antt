-- ===== src/Collections/HashMap/Rehash.antt =====
-- The loop of `resize` that moves the entries to the new bucket
-- (src/shared/collections/src/hash_map/mod.rs).
use vanadinite.Prelude.{
  ℕ, zero, suc, ◌+◌, ◌^◌, ◌≤◌, ◌<◌, ◌≡◌, ◌≢◌, ◌⊎◌, inl, inr, refl, sym, ap, ◌∙◌, Bool-cases, Bool,
  true, false, Option, none, some, List, [], ◌∷◌, if◌then◌else◌, arith, length, set, length-set,
  replicate,
}
use vanadinite.Collections.HashMap.Slots.{
  Key, Slot, vacant, occupied, RawBucketSlot, vacant_at, endless, read, occupied_count,
  slot_for_hash,
}
use vanadinite.Collections.HashMap.Searches.{
  slot_of, some_vacant, slot_for_hash-ends, Found, found_vacant, found_match, not_found,
}
use vanadinite.Collections.HashMap.Paths.{search-vacant}
use vanadinite.Collections.HashMap.Contents.{
  contents, Reachable, Lacks, Lacks-contents, contents-Lacks, contents-same, unique,
  slot_for_hash-Found,
}
use vanadinite.Collections.HashMap.Updates.{count-set-vacant, set-Reachable, contents-set}
use vanadinite.Collections.HashMap.{slot_for_key, rehash}

module _ {K V : Type 0} where
  pub count-le : (slots : List (Slot K V)) → occupied_count slots ≤ length slots
  count-le [] = omega arith
  count-le (vacant ∷ slots) = omega (arith, count-le slots)
  count-le (occupied k v ∷ slots) = omega (arith, count-le slots)

  pub length-replicate : (n : ℕ) (s : Slot K V) → length (replicate n s) ≡ n
  length-replicate zero s = refl
  length-replicate (suc n) s = ap suc (length-replicate n s)

module _ (K V : Type 0) where
  pub count-replicate : (n : ℕ) → occupied_count {K = K} {V = V} (replicate n vacant) ≡ 0
  count-replicate zero = refl
  count-replicate (suc n) = count-replicate n

  pub read-replicate : (n i : ℕ) → read {K = K} {V = V} (replicate n vacant) i ≡ vacant
  read-replicate zero i = refl
  read-replicate (suc n) zero = refl
  read-replicate (suc n) (suc i) = read-replicate n i

module _ {K : Type 0} (V : Type 0) (keys : Key K) where
  pub contents-replicate : (n : ℕ) (j : K) → contents {V = V} keys (replicate n vacant) j ≡ none
  unfolding contents
  contents-replicate zero j = refl
  contents-replicate (suc n) j = contents-replicate n j

  pub replicate-Reachable : (n : ℕ) → Reachable {V = V} keys (replicate n vacant)
  replicate-Reachable n i k v at =
      let clash : vacant ≡ occupied k v = sym (read-replicate K V n i) ∙ at in absurd (ground arith)

-- The first of two answers.
abbrev pub or_else {ℓ} : {A : Type ℓ} → Option A → Option A → Option A
or_else none b = b
or_else (some a) b = some a

module _ {K V : Type 0} (keys : Key K) where
  -- Each key once.
  abbrev pub Distinct : List (Slot K V) → Type 0
  Distinct [] = Unit
  Distinct (vacant ∷ slots) = Distinct slots
  Distinct (occupied k v ∷ slots) = (contents keys slots k ≡ none) × Distinct slots

  abbrev Single : List (Slot K V) → Type 0
  Single slots =
      (i p : ℕ) (k l : K) (v w : V)
      → read slots i ≡ occupied k v
      → read slots p ≡ occupied l w
      → keys.eq k l ≡ true
      → i ≡ p

  Single-Distinct : (slots : List (Slot K V)) → Single slots → Distinct slots
  Single-Distinct [] one = tt
  Single-Distinct (vacant ∷ slots) one =
      Single-Distinct slots (λ i p k l v w a b e. suc_inj (one (suc i) (suc p) k l v w a b e))
    where
      suc_inj : {i p : ℕ} → suc i ≡ suc p → i ≡ p
      suc_inj e = omega arith
  Single-Distinct (occupied k v ∷ slots) one = (
    Lacks-contents keys slots k lacks,
    Single-Distinct slots (λ i p k l v w a b e. suc_inj (one (suc i) (suc p) k l v w a b e)),
  )
    where
      suc_inj : {i p : ℕ} → suc i ≡ suc p → i ≡ p
      suc_inj e = omega arith

      lacks : Lacks keys slots k
      lacks p l w at = elim (Bool-cases (keys.eq l k)) [
        | inr other ↦ other
        | inl same ↦
            let clash = one 0 (suc p) k l v w refl at (keys.eq_sym k l ∙ same) in
            absurd (omega arith)
      ]

  pub Reachable-Distinct : (slots : List (Slot K V)) → Reachable keys slots → Distinct slots
  Reachable-Distinct slots r = Single-Distinct slots (unique keys slots r)

  -- No key stands in both.
  abbrev pub Apart : List (Slot K V) → List (Slot K V) → Type 0
  Apart slots rest = (j : K) → (contents keys rest j ≡ none) ⊎ (contents keys slots j ≡ none)

  -- Where the loop puts an entry with a new key.
  place :
      (slots : List (Slot K V)) (k : K)
      → length slots ≤ 2 ^ 31
      → occupied_count slots < length slots
      → contents keys slots k ≡ none
      → (i : ℕ) × (slot_for_hash slots (keys.hash k) (λ _ _. false) ≡ vacant_at i)
        × (i < length slots)
        × (read slots i ≡ vacant)
        × (slot_of (slot_for_key keys slots k) ≡ some i)
  unfolding slot_for_key
  place slots k bound room fresh =
      by_found (slot_for_hash slots (keys.hash k) (λ _ _. false)) refl
        (slot_for_hash-Found keys slots (keys.hash k) (λ _ _. false) (omega arith))
    where
      blind : K → V → Bool
      blind _ _ = false

      ends : slot_for_hash slots (keys.hash k) (λ _ _. false) ≢ endless
      ends =
          let (q, small, free) = some_vacant slots room in
          slot_for_hash-ends slots (keys.hash k) (λ _ _. false) q bound small free

      by_key :
          (i : ℕ)
          → slot_for_hash slots (keys.hash k) (λ _ _. false) ≡ vacant_at i
          → read slots i ≡ vacant
          → slot_for_key keys slots k ≡ vacant_at i
      by_key i e at =
          search-vacant slots slots (keys.hash k) (λ _ _. false) (λ l _. keys.eq l k) refl
            (λ p l w there _. (l, w, there, contents-Lacks keys slots k fresh p l w there)) i
            (ap slot_of e) at

      by_found :
          (result : RawBucketSlot)
          → slot_for_hash slots (keys.hash k) (λ _ _. false) ≡ result
          → Found slots (keys.hash k) (λ _ _. false) result
          → (i : ℕ) × (slot_for_hash slots (keys.hash k) (λ _ _. false) ≡ vacant_at i)
            × (i < length slots)
            × (read slots i ≡ vacant)
            × (slot_of (slot_for_key keys slots k) ≡ some i)
      by_found _ e (found_vacant i small at) = (i, e, small, at, ap slot_of (by_key i e at))
      by_found _ e (found_match i l w small at same) = absurd (ground arith)
      by_found _ e not_found = absurd (ends e)

  pub record Rehashed (slots rest out : List (Slot K V)) : Type 0 where
    pub reachable : Reachable keys out
    pub same_length : length out ≡ length slots
    pub counted : occupied_count out ≡ occupied_count slots + occupied_count rest
    pub entries :
        (j : K) → contents keys out j ≡ or_else (contents keys rest j) (contents keys slots j)

  abbrev pub Placed : List (Slot K V) → List (Slot K V) → Type 0
  Placed slots rest =
      (out : List (Slot K V)) × (rehash keys slots rest ≡ some out) × Rehashed slots rest out

  skip_vacant : (slots rest : List (Slot K V)) → Placed slots rest → Placed slots (vacant ∷ rest)
  unfolding rehash contents
  skip_vacant slots rest (out, e, r) = (
    out,
    e,
    record {
      reachable = r.reachable;
      same_length = r.same_length;
      counted = r.counted;
      entries = r.entries;
    },
  )

  module _ (slots rest : List (Slot K V)) (k : K) (v : V) (i : ℕ) (bound : length slots ≤ 2 ^ 31)
      (reachable : Reachable keys slots) (fresh : contents keys slots k ≡ none)
      (later : contents keys rest k ≡ none)
      (found : slot_for_hash slots (keys.hash k) (λ _ _. false) ≡ vacant_at i)
      (small : i < length slots) (free : read slots i ≡ vacant)
      (ends : slot_of (slot_for_key keys slots k) ≡ some i) where
    fits : (l : K) (w : V) → read slots i ≡ occupied l w → keys.eq l k ≡ true
    fits l w at = let clash : vacant ≡ occupied l w = sym free ∙ at in absurd (ground arith)

    abbrev moved : List (Slot K V)
    moved = set slots i (occupied k v)

    moved-Reachable : Reachable keys moved
    moved-Reachable = set-Reachable keys slots i k v reachable small ends fits

    moved-contents :
        (j : K) → contents keys moved j ≡ (if keys.eq k j then some v else contents keys slots j)
    moved-contents = contents-set keys slots i k v reachable small ends fits

    later_same : (j : K) → keys.eq k j ≡ true → contents keys rest j ≡ none
    later_same j same = sym (contents-same keys rest k j same) ∙ later

    moved-Apart : Apart slots (occupied k v ∷ rest) → Apart moved rest
    unfolding contents
    moved-Apart a j = elim (Bool-cases (keys.eq k j)) [
      | inl same ↦ inl (later_same j same)
      | inr other ↦ by_side other (a j)
    ]
      where
        by_side :
            keys.eq k j ≡ false
            → (contents keys (occupied k v ∷ rest) j ≡ none) ⊎ (contents keys slots j ≡ none)
            → (contents keys rest j ≡ none) ⊎ (contents keys moved j ≡ none)
        by_side other (inl e) = inl (rw other at e)
        by_side other (inr e) = inr (moved-contents j ∙ rw other e)

    after_place : Placed moved rest → Placed slots (occupied k v ∷ rest)
    unfolding rehash contents
    after_place (out, e, r) = (
      out,
      rw (rehash, found) e,
      record {
        reachable = r.reachable;
        same_length = r.same_length ∙ length-set slots i _;
        counted = omega (arith, r.counted, count-set-vacant slots i k v small free);
        entries = λ j. r.entries j ∙ by_key j (Bool-cases (keys.eq k j));
      },
    )
      where
        by_key :
            (j : K)
            → (keys.eq k j ≡ true) ⊎ (keys.eq k j ≡ false)
            → or_else (contents keys rest j) (contents keys moved j)
              ≡ or_else (contents keys (occupied k v ∷ rest) j) (contents keys slots j)
        by_key j (inl same) = rw (later_same j same, moved-contents j, same) refl
        by_key j (inr other) = rw (moved-contents j, other) refl

  pub rehash_lem :
      (slots rest : List (Slot K V))
      → length slots ≤ 2 ^ 31
      → occupied_count slots + occupied_count rest < length slots
      → Reachable keys slots
      → Distinct rest
      → Apart slots rest
      → Placed slots rest
  unfolding rehash contents
  rehash_lem slots [] bound room r d a = (
    slots,
    refl,
    record { reachable = r; same_length = refl; counted = omega arith; entries = λ j. refl },
  )
  rehash_lem slots (vacant ∷ rest) bound room r d a =
      skip_vacant slots rest (rehash_lem slots rest bound room r d a)
  rehash_lem slots (occupied k v ∷ rest) bound room r (later, d) a =
      by_place (place slots k bound (omega arith) fresh)
        (λ i b c e f. rehash_lem (set slots i (occupied k v)) rest b c e d f)
    where
      fresh : contents keys slots k ≡ none
      fresh = elim (a k) [ inr e ↦ e | inl e ↦ let same = keys.eq_refl k in absurd (ground arith) ]

      by_place :
          (i : ℕ) × (slot_for_hash slots (keys.hash k) (λ _ _. false) ≡ vacant_at i)
            × (i < length slots)
            × (read slots i ≡ vacant)
            × (slot_of (slot_for_key keys slots k) ≡ some i)
          → ((i : ℕ)
              → length (set slots i (occupied k v)) ≤ 2 ^ 31
              → occupied_count (set slots i (occupied k v)) + occupied_count rest
                < length (set slots i (occupied k v))
              → Reachable keys (set slots i (occupied k v))
              → Apart (set slots i (occupied k v)) rest
              → Placed (set slots i (occupied k v)) rest)
          → Placed slots (occupied k v ∷ rest)
      by_place (i, e, small, free, ends) go =
          after_place slots rest k v i bound r fresh later e small free ends (
            go i (omega (arith, length-set slots i (occupied k v)))
              (omega
                (arith, length-set slots i (occupied k v), count-set-vacant slots i k v small free))
              (moved-Reachable slots rest k v i bound r fresh later e small free ends)
              (moved-Apart slots rest k v i bound r fresh later e small free ends a))

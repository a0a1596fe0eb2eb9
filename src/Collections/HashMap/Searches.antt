-- ===== src/Collections/HashMap/Searches.antt =====
-- What `slot_for_hash` finds (src/shared/collections/src/hash_map/mod.rs): that the search ends, and
-- that its path depends on the slots that it passes only.
use mathlib.Core.Path.{subst}
use vanadinite.Prelude.Powers.{Rounded}
use vanadinite.Prelude.Powers.{next_power_of_two}
use vanadinite.Prelude.{
  ℕ, zero, suc, ◌+◌, ◌*◌, ◌%◌, ◌^◌, ◌≤◌, ◌<◌, ◌≡◌, ◌≢◌, ◌⊎◌, inl, inr, refl, sym, ◌∙◌, Bool-cases,
  Bool, true, false, Option, none, some, List, [], ◌∷◌, ◌==◌, if◌then◌else◌, ltb, leb, arith,
  ltb→lt, length, set,
}
use vanadinite.Collections.HashMap.Slots.{
  Slot, vacant, occupied, h, RawBucketSlot, vacant_at, occupied_at, endless, read, probe,
  slot_for_hash, occupied_count,
}
use vanadinite.Collections.HashMap.Indices.{next_power_of_two_lem, Hits, h-Hits}

abbrev pub slot_of : RawBucketSlot → Option ℕ
slot_of (vacant_at i) = some i
slot_of (occupied_at i) = some i
slot_of endless = none

module _ {K V : Type 0} where
  pub Slot-cases : (s : Slot K V) → (s ≡ vacant) ⊎ ((k : K) × (v : V) × (s ≡ occupied k v))
  Slot-cases vacant = inl refl
  Slot-cases (occupied k v) = inr (k, v, refl)

  pub read-set :
      (slots : List (Slot K V)) (i j : ℕ) (s : Slot K V)
      → i < length slots
      → read (set slots i s) j ≡ (if i == j then s else read slots j)
  read-set [] i j s small = absurd (omega arith)
  read-set (x ∷ slots) zero zero s small = refl
  read-set (x ∷ slots) zero (suc j) s small = ground arith
  read-set (x ∷ slots) (suc i) zero s small = ground arith
  read-set (x ∷ slots) (suc i) (suc j) s small = ground (arith, read-set slots i j s)

  pub occupied-lt :
      (slots : List (Slot K V)) (i : ℕ) (k : K) (v : V)
      → read slots i ≡ occupied k v
      → i < length slots
  occupied-lt [] i k v e = absurd (ground arith)
  occupied-lt (x ∷ slots) zero k v e = omega arith
  occupied-lt (x ∷ slots) (suc i) k v e = omega (arith, occupied-lt slots i k v e)

  -- Fewer entries than slots leave a slot vacant.
  pub some_vacant :
      (slots : List (Slot K V))
      → occupied_count slots < length slots
      → (q : ℕ) × (q < length slots) × (read slots q ≡ vacant)
  some_vacant [] few = absurd (omega arith)
  some_vacant (vacant ∷ slots) few = (0, omega arith, refl)
  some_vacant (occupied k v ∷ slots) few =
      let (q, small, e) = some_vacant slots (omega arith) in (suc q, omega arith, e)

  -- The pointer after a probe that is no match.
  abbrev pub move : List (Slot K V) → ℕ → ℕ → ℕ → ℕ
  move slots hash ptr attempt =
      if leb (length slots) (h hash attempt (length slots))
      then ptr
      else h hash attempt (length slots)

  module _ (slots : List (Slot K V)) (hash : ℕ) (eq : K → V → Bool) (rounds ptr attempt : ℕ) where
    pub probe-vacant :
        read slots ptr ≡ vacant → probe (suc rounds) slots hash eq ptr attempt ≡ vacant_at ptr
    unfolding probe
    probe-vacant e = rw (probe, e) refl

    pub probe-match :
        (k : K) (v : V)
        → read slots ptr ≡ occupied k v
        → eq k v ≡ true
        → probe (suc rounds) slots hash eq ptr attempt ≡ occupied_at ptr
    unfolding probe
    probe-match k v e same = rw (probe, e, same) refl

    pub probe-pass :
        (k : K) (v : V)
        → read slots ptr ≡ occupied k v
        → eq k v ≡ false
        → probe (suc rounds) slots hash eq ptr attempt
          ≡ probe rounds slots hash eq (move slots hash ptr attempt) (suc attempt)
    unfolding probe
    probe-pass k v e other = rw (probe, e, other) refl

    pub data Probed : Type 0 where
      at_vacant : read slots ptr ≡ vacant → Probed
      at_match : (k : K) (v : V) → read slots ptr ≡ occupied k v → eq k v ≡ true → Probed
      passing : (k : K) (v : V) → read slots ptr ≡ occupied k v → eq k v ≡ false → Probed

    pub probed : Probed
    probed = by_slot (Slot-cases (read slots ptr))
      where
        by_slot :
            (read slots ptr ≡ vacant) ⊎ ((k : K) × (v : V) × (read slots ptr ≡ occupied k v))
            → Probed
        by_slot (inl e) = at_vacant e
        by_slot (inr (k, v, e)) = elim (Bool-cases (eq k v)) [
          | inl same ↦ at_match k v e same
          | inr other ↦ passing k v e other
        ]

module _ {K V : Type 0} (slots : List (Slot K V)) (hash : ℕ) (eq : K → V → Bool) where
  pub move-lt : (ptr attempt : ℕ) → ptr < length slots → move slots hash ptr attempt < length slots
  move-lt ptr attempt small = ground arith

  -- What a search can end with: a vacant slot, or a match.
  pub data Found : RawBucketSlot → Type 0 where
    found_vacant : (i : ℕ) → i < length slots → read slots i ≡ vacant → Found (vacant_at i)
    found_match :
        (i : ℕ) (k : K) (v : V)
        → i < length slots
        → read slots i ≡ occupied k v
        → eq k v ≡ true
        → Found (occupied_at i)
    not_found : Found endless

  pub probe-Found :
      (rounds ptr attempt : ℕ) → ptr < length slots → Found (probe rounds slots hash eq ptr attempt)
  unfolding probe
  probe-Found zero ptr attempt small = not_found
  probe-Found (suc rounds) ptr attempt small =
      by_slot (probed slots hash eq rounds ptr attempt)
        (probe-Found rounds (move slots hash ptr attempt) (suc attempt) (move-lt ptr attempt small))
    where
      by_slot :
          Probed slots hash eq rounds ptr attempt
          → Found (probe rounds slots hash eq (move slots hash ptr attempt) (suc attempt))
          → Found (probe (suc rounds) slots hash eq ptr attempt)
      by_slot (at_vacant e) later =
          subst Found (sym (probe-vacant slots hash eq rounds ptr attempt e))
            (found_vacant ptr small e)
      by_slot (at_match k v e same) later =
          subst Found (sym (probe-match slots hash eq rounds ptr attempt k v e same))
            (found_match ptr k v small e same)
      by_slot (passing k v e other) later =
          subst Found (sym (probe-pass slots hash eq rounds ptr attempt k v e other)) later

  -- A search that does not end has seen no vacant slot.
  endless-first :
      (rounds ptr attempt : ℕ)
      → probe (suc rounds) slots hash eq ptr attempt ≡ endless
      → read slots ptr ≢ vacant
  endless-first rounds ptr attempt e free =
      cc (e, probe-vacant slots hash eq rounds ptr attempt free)

  endless-rest :
      (rounds ptr attempt : ℕ)
      → probe (suc rounds) slots hash eq ptr attempt ≡ endless
      → probe rounds slots hash eq (move slots hash ptr attempt) (suc attempt) ≡ endless
  endless-rest rounds ptr attempt e = by_slot (probed slots hash eq rounds ptr attempt)
    where
      by_slot :
          Probed slots hash eq rounds ptr attempt
          → probe rounds slots hash eq (move slots hash ptr attempt) (suc attempt) ≡ endless
      by_slot (at_vacant f) = absurd (endless-first rounds ptr attempt e f)
      by_slot (at_match k v f same) =
          cc (e, probe-match slots hash eq rounds ptr attempt k v f same)
      by_slot (passing k v f other) =
          sym (probe-pass slots hash eq rounds ptr attempt k v f other) ∙ e

  visits :
      (rounds ptr attempt b q : ℕ)
      → probe rounds slots hash eq ptr attempt ≡ endless
      → attempt ≤ b
      → suc b < attempt + rounds
      → h hash b (length slots) ≡ q
      → q < length slots
      → read slots q ≢ vacant
  visits zero ptr attempt b q e from until at small = absurd (omega arith)
  visits (suc rounds) ptr attempt b q e from until at small =
      by_attempt rounds (endless-rest rounds ptr attempt e) until (λ g.
        visits rounds (move slots hash ptr attempt) (suc attempt) b q
          (endless-rest rounds ptr attempt e) g (omega arith) at small)
    where
      now : attempt ≡ b → move slots hash ptr attempt ≡ q
      now same = let there : h hash attempt (length slots) ≡ q = rw same at in ground arith

      by_attempt :
          (rounds : ℕ)
          → probe rounds slots hash eq (move slots hash ptr attempt) (suc attempt) ≡ endless
          → suc b < attempt + suc rounds
          → (suc attempt ≤ b → read slots q ≢ vacant)
          → read slots q ≢ vacant
      by_attempt zero rest until later = later (omega arith)
      by_attempt (suc rounds) rest until later = elim (Bool-cases (ltb attempt b)) [
        | inl before ↦ later (ltb→lt _ _ before)
        | inr here ↦
            let there = now (ground arith) in
            subst (λ p. read slots p ≢ vacant) there
              (endless-first rounds (move slots hash ptr attempt) (suc attempt) rest)
      ]

  -- In a bucket with a vacant slot, of any length up to 2 ^ 31, also one that is no power of two,
  -- every search ends within twice as many probes as the rounded length.
  pub slot_for_hash-ends :
      (q : ℕ)
      → length slots ≤ 2 ^ 31
      → q < length slots
      → read slots q ≡ vacant
      → slot_for_hash slots hash eq ≢ endless
  unfolding slot_for_hash
  slot_for_hash-ends q bound small free e = by_power (next_power_of_two_lem (length slots) bound)
    where
      by_hit : (p : ℕ) → p ≡ next_power_of_two (length slots) → Hits hash (length slots) p q → ⊥
      by_hit p same hit =
          visits (2 * next_power_of_two (length slots)) (hash % length slots) 1 hit.attempt q e
            hit.positive (omega (arith, hit.small)) hit.index small free

      by_power : Rounded 31 (length slots) (next_power_of_two (length slots)) → ⊥
      by_power r = by_hit (2 ^ r.exponent) (sym r.power) (
          h-Hits hash (length slots) r.exponent q r.bounded r.power
            (omega (arith, r.above, r.power)))

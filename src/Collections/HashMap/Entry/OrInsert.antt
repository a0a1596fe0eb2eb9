-- ===== src/Collections/HashMap/Entry/OrInsert.antt =====
-- `entry` and `or_insert` of the hash map (src/shared/collections/src/hash_map/mod.rs).
use mathlib.Core.Path.{subst}
use mathlib.Core.Path.{subst}
use vanadinite.Prelude.{
  ℕ, ◌+◌, ◌^◌, ◌≤◌, ◌≡◌, ◌⊎◌, inl, inr, refl, sym, ap, ◌∙◌, Bool-cases, true, Option, none, some,
  if◌then◌else◌, leb, arith,
}
use vanadinite.Collections.HashMap.Slots.{Key, Slot, vacant, occupied, RawBucketSlot}
use vanadinite.Collections.HashMap.Contents.{contents, Lookup, absent, present}
use vanadinite.Collections.HashMap.Rehash.{count-le}
use vanadinite.Collections.HashMap.Updates.{read-set_self}
use vanadinite.Collections.HashMap.Growth.{IsTable}
use vanadinite.Collections.HashMap.{
  HashMap, Outcome, ok, alloc_error, never_ends, capacity, M, and_then, slot_for_key, init_if_empty,
  saturate, value_at,
}
use vanadinite.Collections.HashMap.Lookups.{table-Lookup, filled-Wrote}
use vanadinite.Collections.HashMap.Room.{
  Roomy, failed, roomy, Initialized, Vacancy, from_Grows, init_if_empty-Roomy,
}
use vanadinite.Collections.HashMap.Contents.{contents-same}
use vanadinite.Collections.HashMap.Growth.{reserve-Grows}
use vanadinite.Collections.HashMap.{reserve, ◌>>=◌}
use vanadinite.Collections.HashMap.Entry.{entry, find_entry, or_insert}

-- `self.entry(key)?.or_insert(value)`
abbrev pub entry_or_insert : {K V : Type 0} → Key K → K → V → M K V ℕ
entry_or_insert keys key v = entry keys key >>= λ e. or_insert e v

abbrev pub unwrap_or : {V : Type 0} → Option V → V → V
unwrap_or none v = v
unwrap_or (some w) v = w

-- An error without an effect on the entries, or the slot of the value for the key.
pub data Ensured {K V : Type 0} (keys : Key K) (self : HashMap K V) (key : K) (v : V)
    : HashMap K V × Outcome ℕ → Type 0 where
  unchanged :
      (self' : HashMap K V)
      → IsTable keys self'
      → ((j : K) → contents keys self'.bucket j ≡ contents keys self.bucket j)
      → Ensured keys self key v (self', alloc_error)
  ensured :
      (self' : HashMap K V) (i : ℕ) (w : V)
      → IsTable keys self'
      → value_at self'.bucket i ≡ some w
      → w ≡ unwrap_or (contents keys self.bucket key) v
      → ((j : K)
          → contents keys self'.bucket j
            ≡ (if keys.eq key j then some w else contents keys self.bucket j))
      → Ensured keys self key v (self', ok i)

module _ {K V : Type 0} where
  slot_value : Slot K V → Option V
  slot_value s = elim s [ vacant ↦ none | occupied k v ↦ some v ]

  and_then_assoc :
      {A B C : Type 0} (r : HashMap K V × Outcome A) (f : A → M K V B) (g : B → M K V C)
      → and_then (and_then r f) g ≡ and_then r (λ a self. and_then (f a self) g)
  and_then_assoc (self, ok a) f g = refl
  and_then_assoc (self, alloc_error) f g = refl
  and_then_assoc (self, never_ends) f g = refl

module _ {K V : Type 0} (keys : Key K) where
  reserve-Roomy :
      (self : HashMap K V)
      → IsTable keys self
      → Initialized 0 self
      → Roomy keys self (Vacancy 0) (reserve keys 1 self)
  unfolding reserve
  reserve-Roomy self t (some_slots, bound, growing, _) = by_growing growing
    where
      by_growing :
          (capacity self ≤ 2 ^ 30) ⊎ (self.len ≡ 0)
          → Roomy keys self (Vacancy 0) (reserve keys 1 self)
      by_growing (inl small) =
          from_Grows keys self (self.len + 1) (Vacancy 0) t
            (λ a b above below. (omega arith, below))
            (reserve-Grows keys self 1 t small (omega (arith, t.counted, count-le self.bucket)))
      by_growing (inr no_entry) =
          let enough : leb (saturate (self.len + 1)) (capacity self) ≡ true = ground arith in
          rw (reserve, enough) (roomy self t (omega arith, bound) (λ j. refl))

module _ {K V : Type 0} (keys : Key K) (self : HashMap K V) (key : K) (v : V) where
  carry :
      (self1 : HashMap K V) {r : HashMap K V × Outcome ℕ}
      → ((j : K) → contents keys self1.bucket j ≡ contents keys self.bucket j)
      → Ensured keys self1 key v r
      → Ensured keys self key v r
  carry self1 same (unchanged self' t same') = unchanged self' t (λ j. same' j ∙ same j)
  carry self1 same (ensured self' i w t at e entries) =
      ensured self' i w t at (e ∙ ap (λ o. unwrap_or o v) (same key))
        (λ j. entries j ∙ ap (λ o. if keys.eq key j then some w else o) (same j))

  chain :
      (A : HashMap K V → Type 0) (k : HashMap K V → HashMap K V × Outcome ℕ)
      {r : HashMap K V × Outcome (Unit {0})}
      → ((self1 : HashMap K V) → IsTable keys self1 → A self1 → Ensured keys self1 key v (k self1))
      → Roomy keys self A r
      → Ensured keys self key v (and_then r (λ _. k))
  chain A k next (failed self' t same) = unchanged self' t same
  chain A k next (roomy self' t a same) = carry self' same (next self' t a)

  find-Ensured :
      IsTable keys self
      → Vacancy 0 self
      → Ensured keys self key v (and_then (find_entry keys key self) (λ e. or_insert e v))
  unfolding find_entry or_insert slot_value
  find-Ensured t (room, bound) =
      by_lookup (slot_for_key keys self.bucket key) refl
        (table-Lookup keys self t key bound (omega arith))
    where
      held :
          (w : V)
          → contents keys self.bucket key ≡ some w
          → (j : K)
          → contents keys self.bucket j
            ≡ (if keys.eq key j then some w else contents keys self.bucket j)
      held w found j = elim (Bool-cases (keys.eq key j)) [
        | inl same ↦ sym (contents-same keys self.bucket key j same) ∙ found ∙ rw same refl
        | inr other ↦ rw other refl
      ]

      by_lookup :
          (result : RawBucketSlot)
          → slot_for_key keys self.bucket key ≡ result
          → Lookup keys self.bucket key result
          → Ensured keys self key v (and_then (find_entry keys key self) (λ e. or_insert e v))
      by_lookup _ e (absent i small at found) =
          let w = filled-Wrote keys self t key v i e small at in
          rw (find_entry, e)
            (ensured _ i v w.table
              (ap slot_value (read-set_self self.bucket i (occupied key v) small)) (rw found refl)
              w.entries)
      by_lookup _ e (present i k w small at same found) =
          rw (find_entry, e)
            (ensured self i w t (rw (value_at, at) refl) (rw found refl) (held w found))

module _ {K V : Type 0} (keys : Key K) (self : HashMap K V) (key : K) (v : V) where
  -- In a table of at most 2 ^ 30 slots, `entry` and then `or_insert` end. Either they fail with
  -- `AllocError` and leave every entry, or they give the slot of the value that the key had before,
  -- or of the given value if it had none; the key has that value and every other key the one of
  -- before, in a table again.
  pub entry_or_insert_lem :
      IsTable keys self
      → capacity self ≤ 2 ^ 30
      → Ensured keys self key v (entry_or_insert keys key v self)
  unfolding entry
  entry_or_insert_lem t bound =
      subst (Ensured keys self key v)
        (sym (
          and_then_assoc (init_if_empty keys self)
            (λ _ self1. and_then (reserve keys 1 self1) (λ _. find_entry keys key))
            (λ e. or_insert e v)))
        (chain keys self key v (Initialized 0) after_init by_init
          (init_if_empty-Roomy keys 0 self (inl refl) (inr (inl refl)) t bound))
    where
      after_init : HashMap K V → HashMap K V × Outcome ℕ
      after_init self1 =
          and_then (and_then (reserve keys 1 self1) (λ _. find_entry keys key)) (λ e. or_insert e v)

      by_init :
          (self1 : HashMap K V)
          → IsTable keys self1
          → Initialized 0 self1
          → Ensured keys self1 key v (after_init self1)
      by_init self1 t1 ready =
          subst (Ensured keys self1 key v)
            (sym (
              and_then_assoc (reserve keys 1 self1) (λ _. find_entry keys key)
                (λ e. or_insert e v)))
            (chain keys self1 key v (Vacancy 0)
              (λ self2. and_then (find_entry keys key self2) (λ e. or_insert e v))
              (λ self2 t2 room. find-Ensured keys self2 key v t2 room)
              (reserve-Roomy keys self1 t1 ready))

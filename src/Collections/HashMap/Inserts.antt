-- ===== src/Collections/HashMap/Inserts.antt =====
-- Insertion into the hash map (src/shared/collections/src/hash_map/mod.rs).
use mathlib.Core.Path.{subst}
use vanadinite.Prelude.{
  ℕ, ◌*◌, ◌/◌, ◌^◌, ◌≤◌, ◌<◌, ◌≡◌, ◌⊎◌, inl, inr, refl, sym, ap, ◌∙◌, false, Option, some, ◌==◌,
  if◌then◌else◌, ltb, arith,
}
use vanadinite.Collections.HashMap.Slots.{Key}
use vanadinite.Collections.HashMap.Contents.{contents}
use vanadinite.Collections.HashMap.Rehash.{count-le}
use vanadinite.Collections.HashMap.Growth.{IsTable}
use vanadinite.Collections.HashMap.{
  HashMap, Outcome, ok, alloc_error, capacity, and_then, write, insert, get, grow_if_loaded,
  load_factor, load_factor_limit, saturate,
}
use vanadinite.Collections.HashMap.Lookups.{get-contents, Written, write-Written}
use vanadinite.Collections.HashMap.Room.{
  Spare, few_entries, Roomy, failed, roomy, Initialized, Vacancy, Kept, init_if_empty-Roomy,
  grow_if_loaded-Roomy,
}

-- An error without an effect on the entries, or an entry written to a map of which `A` holds.
pub data Inserted {K V : Type 0} (keys : Key K) (A : HashMap K V → Type 0) (self : HashMap K V)
    (key : K) (v : V) : HashMap K V × Outcome (Option V) → Type 0 where
  unchanged :
      (self' : HashMap K V)
      → IsTable keys self'
      → ((j : K) → contents keys self'.bucket j ≡ contents keys self.bucket j)
      → Inserted keys A self key v (self', alloc_error)
  inserted :
      (self' : HashMap K V)
      → IsTable keys self'
      → A self'
      → ((j : K)
          → contents keys self'.bucket j
            ≡ (if keys.eq key j then some v else contents keys self.bucket j))
      → Inserted keys A self key v (self', ok (contents keys self.bucket key))

module _ {K V : Type 0} (keys : Key K) (spare : ℕ) (self : HashMap K V) (key : K) (v : V) where
  from_Written :
      (t : IsTable keys self) {r : HashMap K V × Outcome (Option V)}
      → Vacancy spare self
      → Written keys self t key v r
      → Inserted keys (Kept spare) self key v r
  from_Written t (room, bound) (self', e, same, w) =
      rw e
        (inserted self' w.table (omega (arith, same, w.most), omega (arith, same, bound)) w.entries)

module _ {K V : Type 0} (keys : Key K) (P : HashMap K V → Type 0) (self : HashMap K V) (key : K)
    (v : V) where
  carry :
      (self1 : HashMap K V) {r : HashMap K V × Outcome (Option V)}
      → ((j : K) → contents keys self1.bucket j ≡ contents keys self.bucket j)
      → Inserted keys P self1 key v r
      → Inserted keys P self key v r
  carry self1 same (unchanged self' t same') = unchanged self' t (λ j. same' j ∙ same j)
  carry self1 same (inserted self' t kept entries) =
      subst (λ o. Inserted keys P self key v (self', ok o)) (sym (same key))
        (inserted self' t kept
          (λ j. entries j ∙ ap (λ o. if keys.eq key j then some v else o) (same j)))

  chain :
      (A : HashMap K V → Type 0) (k : HashMap K V → HashMap K V × Outcome (Option V))
      {r : HashMap K V × Outcome (Unit {0})}
      → ((self1 : HashMap K V)
          → IsTable keys self1
          → A self1
          → Inserted keys P self1 key v (k self1))
      → Roomy keys self A r
      → Inserted keys P self key v (and_then r (λ _. k))
  chain A k next (failed self' t same) = unchanged self' t same
  chain A k next (roomy self' t a same) = carry self' same (next self' t a)

module _ {K V : Type 0} (keys : Key K) (spare : ℕ) (self : HashMap K V) (key : K) (v : V) where
  insert-Kept :
      (spare ≡ 0) ⊎ (spare ≡ 1)
      → (capacity self ≡ 0) ⊎ Spare spare (capacity self)
      → IsTable keys self
      → capacity self ≤ 2 ^ 30
      → Inserted keys (Kept spare) self key v (insert keys key v self)
  unfolding insert
  insert-Kept two fits t bound =
      chain keys P self key v (Initialized spare)
        (λ self1. and_then (grow_if_loaded keys self1) (λ _. write keys key v))
        (λ self1 t1 ready.
          chain keys P self1 key v (Vacancy spare) (write keys key v)
            (λ self2 t2 (room, small).
              from_Written keys spare self2 key v t2 (room, small)
                (write-Written keys self2 t2 key v small (omega arith)))
            (grow_if_loaded-Roomy keys spare self1 t1 ready))
        (init_if_empty-Roomy keys spare self two fits t bound)
    where
      P : HashMap K V → Type 0
      P = Kept spare

module _ {K V : Type 0} (keys : Key K) (self : HashMap K V) (key : K) (v : V) where
  -- In a table of at most 2 ^ 30 slots, `insert` ends. Either it fails with `AllocError` and leaves
  -- every entry, or it returns the value that the key had before, and the key then has the new value
  -- and every other key the one of before. The result is a table again, also after a rehash.
  pub insert-Inserted :
      IsTable keys self
      → capacity self ≤ 2 ^ 30
      → Inserted keys (Kept 0) self key v (insert keys key v self)
  insert-Inserted t bound = insert-Kept keys 0 self key v (inl refl) (inr (inl refl)) t bound

  get_after :
      (j : K) {r : HashMap K V × Outcome (Option V)} (self' : HashMap K V) (o : Option V)
      → Inserted keys (Kept 1) self key v r
      → r ≡ (self', ok o)
      → get keys self' j ≡ ok (if keys.eq key j then some v else contents keys self.bucket j)
  get_after j self' o (unchanged self2 t same) e =
      let clash = ap (λ r. r.1) e in absurd (ground arith)
  get_after j self' o (inserted self2 t (room, bound) entries) e =
      let there : self2 ≡ self' = ap (λ r. r.0) e in
      subst (λ m. get keys m j ≡ ok (if keys.eq key j then some v else contents keys self.bucket j))
        there (get-contents keys self2 t j bound (omega arith) ∙ ap ok (entries j))

  -- In a table that has no slots yet, or 4 to 2 ^ 30 of them: after an `insert` that succeeds, `get`
  -- ends for every key. It gives the new value for the inserted key, and for every other one what
  -- the slots held for it before.
  pub get-insert :
      (j : K) (self' : HashMap K V) (o : Option V)
      → IsTable keys self
      → (capacity self ≡ 0) ⊎ (4 ≤ capacity self)
      → capacity self ≤ 2 ^ 30
      → insert keys key v self ≡ (self', ok o)
      → get keys self' j ≡ ok (if keys.eq key j then some v else contents keys self.bucket j)
  get-insert j self' o t wide bound e =
      get_after j self' o (insert-Kept keys 1 self key v (inr refl) (enough wide) t bound) e
    where
      enough :
          (capacity self ≡ 0) ⊎ (4 ≤ capacity self) → (capacity self ≡ 0) ⊎ Spare 1 (capacity self)
      enough (inl none_yet) = inl none_yet
      enough (inr many) = inr (inr (refl, many))

  -- In a table of 1 to 2 ^ 31 slots and a load factor of at most the limit, `insert` does not fail:
  -- it returns the value that the key had before.
  pub insert-room :
      IsTable keys self
      → capacity self ≤ 2 ^ 31
      → 0 < capacity self
      → load_factor self ≤ load_factor_limit
      → (insert keys key v self).1 ≡ ok (contents keys self.bucket key)
  unfolding insert
  insert-room t bound some_slots low =
      let slots : (capacity self == 0) ≡ false = ground arith in
      let light : ltb load_factor_limit (load_factor self) ≡ false = ground arith in
      let filled : self.len ≤ capacity self = omega (arith, t.counted, count-le self.bucket) in
      let exact : saturate (self.len * 100) ≡ self.len * 100 = ground arith in
      let loads : load_factor self ≡ self.len * 100 / capacity self =
        ap (λ (n : ℕ). n / capacity self) exact in
      let few : self.len * 100 / capacity self ≤ 70 = omega (arith, low, loads) in
      let (self', e, same, w) =
        write-Written keys self t key v bound
          (omega (arith, few_entries 0 self.len (capacity self) (inl refl) some_slots few)) in
      rw (slots, light) (ap (λ (r : HashMap K V × Outcome (Option V)). r.1) e)

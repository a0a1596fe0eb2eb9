-- ===== src/Collections/HashMap/Lookups.antt =====
-- Lookup in the hash map, and writing an entry, against the entries that its bucket stores
-- (src/shared/collections/src/hash_map/mod.rs).
use mathlib.Core.Path.{subst}
use vanadinite.Prelude.{
  ℕ, ◌+◌, ◌^◌, ◌≤◌, ◌<◌, ◌≡◌, refl, sym, ap, ◌∙◌, true, false, Option, some, ◌==◌, if◌then◌else◌,
  arith, length, set, length-set,
}
use vanadinite.Collections.HashMap.Slots.{Key, vacant, occupied, vacant_at, RawBucketSlot, read}
use vanadinite.Collections.HashMap.Searches.{slot_of, some_vacant}
use vanadinite.Collections.HashMap.Contents.{contents, Lookup, absent, present, slot_for_key-Lookup}
use vanadinite.Collections.HashMap.Updates.{
  count-set-vacant, count-set_occupied, set-Reachable, contents-set,
}
use vanadinite.Collections.HashMap.Growth.{IsTable}
use vanadinite.Collections.HashMap.{
  HashMap, Outcome, ok, capacity, slot_for_key, write, get, value_at,
}

module _ {K V : Type 0} (keys : Key K) (self : HashMap K V) (t : IsTable keys self) where
  pub table-Lookup :
      (j : K)
      → capacity self ≤ 2 ^ 31
      → self.len < capacity self
      → Lookup keys self.bucket j (slot_for_key keys self.bucket j)
  table-Lookup j bound room =
      let (q, small, free) = some_vacant self.bucket (omega (arith, t.counted)) in
      slot_for_key-Lookup keys self.bucket j q t.reachable bound small free

  -- In a table of at most 2 ^ 31 slots, not all of them occupied, `get` ends and gives what a scan
  -- of all slots finds.
  pub get-contents :
      (j : K)
      → capacity self ≤ 2 ^ 31
      → self.len < capacity self
      → get keys self j ≡ ok (contents keys self.bucket j)
  unfolding get
  get-contents j bound room =
      let some_slots : (capacity self == 0) ≡ false = ground arith in
      by_lookup some_slots (slot_for_key keys self.bucket j) refl (table-Lookup j bound room)
    where
      by_lookup :
          (capacity self == 0) ≡ false
          → (result : RawBucketSlot) → slot_for_key keys self.bucket j ≡ result
          → Lookup keys self.bucket j result
          → get keys self j ≡ ok (contents keys self.bucket j)
      by_lookup s _ e (absent i small at found) = rw (get, s, e, found) refl
      by_lookup s _ e (present i k v small at same found) = rw (get, s, e, value_at, at, found) refl

  -- The map after an entry is written.
  pub record Wrote (self' : HashMap K V) (key : K) (v : V) : Type 0 where
    pub table : IsTable keys self'
    pub most : self'.len ≤ self.len + 1
    pub entries :
        (j : K)
        → contents keys self'.bucket j
          ≡ (if keys.eq key j then some v else contents keys self.bucket j)

  -- A new entry in the vacant slot where the search for its key ends.
  pub filled-Wrote :
      (key : K) (v : V) (i : ℕ)
      → slot_for_key keys self.bucket key ≡ vacant_at i
      → i < length self.bucket
      → read self.bucket i ≡ vacant
      → Wrote
          (record {
            allocator = self.allocator;
            bucket = set self.bucket i (occupied key v);
            len = self.len + 1;
          })
          key
          v
  filled-Wrote key v i e small at = record {
    table = record {
      reachable = set-Reachable keys self.bucket i key v t.reachable small (ap slot_of e) fits;
      counted = omega (arith, count-set-vacant self.bucket i key v small at, t.counted);
    };
    most = omega arith;
    entries = contents-set keys self.bucket i key v t.reachable small (ap slot_of e) fits;
  }
    where
      fits : (k : K) (w : V) → read self.bucket i ≡ occupied k w → keys.eq k key ≡ true
      fits k w there = let clash : vacant ≡ occupied k w = sym at ∙ there in absurd (ground arith)

  abbrev pub Written : K → V → HashMap K V × Outcome (Option V) → Type 0
  Written key v r =
      (self' : HashMap K V) × (r ≡ (self', ok (contents keys self.bucket key)))
      × (capacity self' ≡ capacity self)
      × Wrote self' key v

  pub write-Written :
      (key : K) (v : V)
      → capacity self ≤ 2 ^ 31
      → self.len < capacity self
      → Written key v (write keys key v self)
  unfolding write
  write-Written key v bound room =
      by_lookup (slot_for_key keys self.bucket key) refl (table-Lookup key bound room)
    where
      key_inj : (k l : K) (w u : V) → occupied k w ≡ occupied l u → k ≡ l
      key_inj k l w u e = ground arith

      by_lookup :
          (result : RawBucketSlot)
          → slot_for_key keys self.bucket key ≡ result
          → Lookup keys self.bucket key result
          → Written key v (write keys key v self)
      by_lookup _ e (absent i small at found) = (
        record {
          allocator = self.allocator;
          bucket = set self.bucket i (occupied key v);
          len = self.len + 1;
        },
        rw (write, e, found) refl,
        length-set self.bucket i _,
        filled-Wrote key v i e small at,
      )
      by_lookup _ e (present i k v0 small at same found) =
          let fits = λ (l : K) (w : V) (there : read self.bucket i ≡ occupied l w).
            subst (λ x. keys.eq x key ≡ true) (key_inj k l v0 w (sym at ∙ there)) same in
          (
            record {
              allocator = self.allocator;
              bucket = set self.bucket i (occupied key v);
              len = self.len;
            },
            rw (write, e, value_at, at, found) refl,
            length-set self.bucket i _,
            record {
              table = record {
                reachable =
                    set-Reachable keys self.bucket i key v t.reachable small (ap slot_of e) fits;
                counted = count-set_occupied self.bucket i key k v v0 at ∙ t.counted;
              };
              most = omega arith;
              entries = contents-set keys self.bucket i key v t.reachable small (ap slot_of e) fits;
            },
          )

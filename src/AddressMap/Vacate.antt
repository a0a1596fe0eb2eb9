-- ===== src/AddressMap/Vacate.antt =====
-- The end of `AddressMap::free`: the loops and the insertion
-- (src/kernel/vanadinite/src/mem/manager/address_map.rs).
use vanadinite.Prelude.{
  ℕ, ◌+◌, ◌-◌, ◌<◌, ◌≤◌, ◌^◌, ◌≡◌, refl, ap, ◌∙◌, none, some, ◌∷◌, ◌++◌, arith, length,
  length-append,
}
use vanadinite.BTreeMap.{insert}
use vanadinite.Paging.Virtual.{unchecked_before}
use vanadinite.Region.{MemoryRegion}
use vanadinite.AddressMap.{AddressMap, AddressRegion, done, vacate, coalesce_below, coalesce_above}
use vanadinite.AddressMap.Partition.{
  Tiles, owner, KeysBelow, Tiles-le, KeysFrom-of_Tiles, KeysBelow-weaken, KeysFrom-weaken,
  insert-append,
}
use vanadinite.AddressMap.Splits.{before_lem}
use vanadinite.AddressMap.Coalesce.{
  with_start, with_end, FirstOccupied, AllVacant, coalesce_above_lem,
}

-- `vacate`, step by step.
vacate_steps :
    (m m1 m2 : AddressMap) (r r1 r2 : AddressRegion) (ret : MemoryRegion)
    → coalesce_below (length m) m r ≡ (m1, r1)
    → coalesce_above (length m1) m1 r1 ≡ (m2, r2)
    → r2.region ≡ some ret
    → vacate m r
      ≡ done (insert (unchecked_before r2.span.end) (record r2 { region = none }) m2, ret)
unfolding vacate
vacate_steps m m1 m2 r r1 r2 ret lowered raised owned = rw (lowered, raised, owned) refl

module _ (top hi : ℕ) (word : hi < 2 ^ 64) (r : AddressRegion) (ret : MemoryRegion)
    (owned : r.region ≡ some ret) (proper : r.span.start < r.span.end) (pre post : AddressMap)
    (above : Tiles top r.span.end hi post) where
  abbrev pub freed : ℕ → ℕ → AddressRegion
  freed s e = record r { region = none; span = record { start = s; end = e } }

  -- What `free` leaves, given what its lower loop leaves.
  pub record Vacated (rest : AddressMap) (s : ℕ) : Type 0 where
    pub taken : AddressMap
    pub kept : AddressMap
    pub limit : ℕ
    pub returns : vacate (pre ++ post) r ≡ done (rest ++ (limit - 1, freed s limit) ∷ kept, ret)
    pub kept_tiles : Tiles top limit hi kept
    pub grows : r.span.end ≤ limit
    pub stops : FirstOccupied kept
    pub owners : (a : ℕ) → owner a kept ≡ owner a post
    pub parts : post ≡ taken ++ kept
    pub taken_vacant : AllVacant taken
    pub taken_tiles : Tiles top r.span.end limit taken

  pub vacate_lem :
      (rest : AddressMap) (s : ℕ)
      → coalesce_below (length (pre ++ post)) (pre ++ post) r ≡ (rest ++ post, with_start r s)
      → KeysBelow r.span.start rest
      → Vacated rest s
  vacate_lem rest s lowered below =
      let raised =
        coalesce_above_lem top hi (length (rest ++ post)) (with_start r s) rest post
          (KeysBelow-weaken r.span.start r.span.end rest (omega arith) below) above
          (omega (arith, length-append rest post)) in
      let last = Tiles-le top raised.limit hi raised.rest raised.rest_tiles in
      let g = raised.grows in
      record {
        kept = raised.rest;
        limit = raised.limit;
        returns =
            vacate_steps (pre ++ post) (rest ++ post) (rest ++ raised.rest) r (with_start r s)
              (with_end (with_start r s) raised.limit) ret lowered raised.returns owned
            ∙ ap (λ m. done (m, ret))
                (rw (before_lem raised.limit (omega arith) (omega arith)) (
                  insert-append (raised.limit - 1) (freed s raised.limit) rest raised.rest
                    (KeysBelow-weaken r.span.start (raised.limit - 1) rest (omega arith) below)
                    (KeysFrom-weaken (raised.limit - 1 + 1) raised.limit raised.rest (omega arith)
                      (KeysFrom-of_Tiles top raised.limit hi raised.rest raised.rest_tiles))));
        kept_tiles = raised.rest_tiles;
        grows = raised.grows;
        stops = raised.stops;
        owners = raised.owners;
        taken = raised.taken;
        parts = raised.parts;
        taken_vacant = raised.taken_vacant;
        taken_tiles = raised.taken_tiles;
      }

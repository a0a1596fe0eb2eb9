-- ===== src/AddressMap/Free.antt =====
-- What `AddressMap::free` does where its lower loop is right
-- (src/kernel/vanadinite/src/mem/manager/address_map.rs).
use vanadinite.Prelude.{
  ℕ, ◌<◌, ◌≤◌, ◌≡◌, ◌⊎◌, inl, inr, refl, sym, ◌∙◌, true, false, none, some, ◌∷◌, ◌++◌, arith,
  length, Bool-cases, Option-cases,
}
use mathlib.Core.Path.{subst₂}
use vanadinite.BTreeMap.{first_from}
use vanadinite.Paging.Virtual.{Range}
use vanadinite.Region.{MemoryRegion}
use vanadinite.AddressMap.{
  AddressMap, AddressRegion, AddressSpace, address_range, done, failed, nonexistent, free, find,
}
use vanadinite.AddressMap.Partition.{IsPartition, KeysBelow}
use vanadinite.AddressMap.Splits.{Split, Split-first_from, first_from-none}
use vanadinite.AddressMap.Lower.{LowestIsNear, lower}
use vanadinite.AddressMap.Release.{
  matches, free-nonexistent, free-vacate, Freed, vacate-Freed, after, space_word,
}

module _ (space : AddressSpace) (m : AddressMap) (range : Range) where
  abbrev lo : ℕ
  lo = (address_range space).start

  abbrev hi : ℕ
  hi = (address_range space).end

  -- In a partition of an address space, for a range that starts inside it, and where the lowest
  -- region of the map is occupied or reaches up to the range: `free` looks at the region that `find`
  -- returns for the start. If that region is occupied and its span is the range, the call succeeds
  -- without a panic and returns its backing; the map is again a partition of the space, nothing owns
  -- the addresses of the range, and every other address keeps its owner. Otherwise it fails with
  -- `Nonexistent`.
  pub free_lem :
      IsPartition lo hi m
      → LowestIsNear range.start m
      → lo ≤ range.start
      → range.start < hi
      → (curr : AddressRegion) × (find m range.start ≡ some curr)
        × (((matches range curr ≡ true)
              × ((m' : AddressMap) × (ret : MemoryRegion) × (free m range ≡ done (m', ret))
                  × Freed lo hi m range curr ret m'))
            ⊎ ((matches range curr ≡ false) × (free m range ≡ failed nonexistent)))
  free_lem partition near above inside = elim (Option-cases (first_from range.start m)) [
    | inl missing ↦ absurd (first_from-none hi lo hi range.start m partition above inside missing)
    | inr ((key, curr), found) ↦ (
      curr,
      unfold find in rw (found, find) refl,
      by_match key curr found (Bool-cases (matches range curr)),
    )
  ]
    where
      by_region :
          (key : ℕ) (curr : AddressRegion)
          → first_from range.start m ≡ some (key, curr)
          → matches range curr ≡ true
          → Split hi lo hi range.start key curr m
          → curr.span.start ≡ range.start
          → curr.span.end ≡ range.end
          → (curr.region ≡ none) ⊎ ((r : MemoryRegion) × (curr.region ≡ some r))
          → ((matches range curr ≡ true)
              × ((m' : AddressMap) × (ret : MemoryRegion) × (free m range ≡ done (m', ret))
                  × Freed lo hi m range curr ret m'))
            ⊎ ((matches range curr ≡ false) × (free m range ≡ failed nonexistent))
      by_region key curr found match sp start_eq end_eq (inl vacant) = absurd (ground arith)
      by_region key curr found match sp start_eq end_eq (inr (ret, owned)) =
          let below : KeysBelow curr.span.start sp.pre = rw start_eq sp.below in
          let whole = sp.pre ++ (key, curr) ∷ sp.post in
          let near' : LowestIsNear curr.span.start whole =
            subst₂ LowestIsNear (sym start_eq) sp.parts near in
          let low =
            lower hi lo hi (length (sp.pre ++ sp.post)) key curr sp.pre sp.post sp.pre_tiles below
              sp.proper sp.post_tiles near' (omega arith) in
          let (returns, freed) =
            vacate-Freed lo hi m (space_word space) range key curr ret sp start_eq end_eq owned
              low in
          inl (
            match,
            (
              after lo hi m (space_word space) range key curr ret sp start_eq end_eq owned low,
              ret,
              free-vacate space m range key curr sp found match ∙ returns,
              freed,
            ),
          )

      by_match :
          (key : ℕ) (curr : AddressRegion)
          → first_from range.start m ≡ some (key, curr)
          → (matches range curr ≡ true) ⊎ (matches range curr ≡ false)
          → ((matches range curr ≡ true)
              × ((m' : AddressMap) × (ret : MemoryRegion) × (free m range ≡ done (m', ret))
                  × Freed lo hi m range curr ret m'))
            ⊎ ((matches range curr ≡ false) × (free m range ≡ failed nonexistent))
      by_match key curr found (inr no_match) =
          inr (no_match, free-nonexistent m range key curr found no_match)
      by_match key curr found (inl match) =
          let sp = Split-first_from hi lo hi range.start key curr m partition found in
          let start_eq : curr.span.start ≡ range.start = ground arith in
          let end_eq : curr.span.end ≡ range.end = ground arith in
          by_region key curr found match sp start_eq end_eq (Option-cases curr.region)

-- ===== src/AddressMap/Swallow.antt =====
-- Where the lower loop of `AddressMap::free` is wrong: `range(..start).next()` is the lowest region
-- of the map, not the one below the span (src/kernel/vanadinite/src/mem/manager/address_map.rs).
use vanadinite.Prelude.{
  ℕ, ◌+◌, ◌-◌, ◌<◌, ◌≤◌, ◌≡◌, ◌≢◌, inl, inr, refl, ap, sym, ◌∙◌, true, none, some, [], ◌∷◌, ◌++◌,
  arith, length, Option-cases, is_none,
}
use mathlib.Core.Path.{subst}
use vanadinite.BTreeMap.{first_from}
use vanadinite.Paging.Virtual.{Range}
use vanadinite.Region.{MemoryRegion}
use vanadinite.AddressMap.{
  AddressMap, AddressRegion, AddressSpace, address_range, done, free, find, vacate,
}
use vanadinite.AddressMap.Partition.{
  Tiles-le, Tiles, IsPartition, KeysBelow, KeysFrom, KeysFrom-append, KeysFrom-weaken,
  KeysFrom-of_Tiles,
}
use vanadinite.AddressMap.Splits.{Split-first_from}
use vanadinite.AddressMap.Coalesce.{FirstOccupied, AllVacant, coalesce_below_absorbs}
use vanadinite.AddressMap.Vacate.{freed, vacate_lem}
use vanadinite.AddressMap.Release.{matches, free-vacate, space_word}

-- The map `m` before, and `m'` after: the lowest region is gone, the regions `below` between it and
-- the freed region `curr` stay, the unoccupied regions `taken` right above `curr` are gone too, and
-- the regions `above` them stay. In place of `curr` stands the unoccupied region `mid`, from the
-- bottom of the space to where `taken` ends, over all of `below`.
pub record Swallowed (lo hi : ℕ) (lowest : ℕ × AddressRegion) (m : AddressMap) (range : Range)
    (curr : AddressRegion) (m' : AddressMap) : Type 0 where
  pub below : AddressMap
  pub key : ℕ
  pub taken : AddressMap
  pub above : AddressMap
  pub new_key : ℕ
  pub mid : AddressRegion
  pub before : m ≡ lowest ∷ below ++ (key, curr) ∷ (taken ++ above)
  pub after : m' ≡ below ++ (new_key, mid) ∷ above
  pub between : below ≢ []
  pub below_tiles : Tiles hi lowest.1.span.end range.start below
  pub taken_vacant : AllVacant taken
  pub taken_tiles : Tiles hi range.end mid.span.end taken
  pub above_occupied : FirstOccupied above
  pub above_tiles : Tiles hi mid.span.end hi above
  pub region : mid.region ≡ none
  pub start : mid.span.start ≡ lo
  pub reaches : range.end ≤ mid.span.end
  pub fits : new_key + 1 ≡ mid.span.end
  pub kind : mid.kind ≡ curr.kind
  pub permissions : mid.permissions ≡ curr.permissions
  pub no_partition : ¬ IsPartition lo hi m'

find_first :
    (m : AddressMap) (x : ℕ) (curr : AddressRegion)
    → find m x ≡ some curr
    → (key : ℕ) × (first_from x m ≡ some (key, curr))
unfolding find
find_first m x curr found = elim (Option-cases (first_from x m)) [
  | inl e ↦ absurd (ground arith)
  | inr ((key, r), e) ↦ (key, ground arith)
]

region_of_match :
    (range : Range) (curr : AddressRegion)
    → matches range curr ≡ true
    → (ret : MemoryRegion) × (curr.region ≡ some ret)
region_of_match range curr match = elim (Option-cases curr.region) [
  | inl e ↦ absurd (ground arith)
  | inr (ret, e) ↦ (ret, e)
]

module _ (space : AddressSpace) (k0 : ℕ) (e : AddressRegion) (m : AddressMap) (range : Range) where
  abbrev lo : ℕ
  lo = (address_range space).start

  abbrev hi : ℕ
  hi = (address_range space).end

  -- The lowest region `f` of the map, and the regions `pre` between it and the range.
  from_parts :
      (key : ℕ) (curr : AddressRegion) (ret : MemoryRegion) (j : ℕ) (f : AddressRegion)
      (pre post : AddressMap)
      → is_none f.region ≡ true
      → f.span.end < range.start
      → curr.region ≡ some ret
      → curr.span.start ≡ range.start
      → curr.span.end ≡ range.end
      → curr.span.start < curr.span.end
      → Tiles hi lo curr.span.start ((j, f) ∷ pre)
      → KeysBelow curr.span.start ((j, f) ∷ pre)
      → Tiles hi curr.span.end hi post
      → (m' : AddressMap) × (vacate ((j, f) ∷ pre ++ post) curr ≡ done (m', ret))
        × Swallowed lo hi (j, f) ((j, f) ∷ pre ++ (key, curr) ∷ post) range curr m'
  from_parts key curr ret j f [] post vac far owned start_eq end_eq proper (s, p, k, t) below u =
      absurd (omega arith)
  from_parts key curr ret j f ((j1, f1) ∷ pre) post vac far owned start_eq end_eq proper
        (s, p, k, t) below u =
      let keys : KeysFrom lo ((j1, f1) ∷ pre ++ post) =
        KeysFrom-append lo ((j1, f1) ∷ pre) post
          (KeysFrom-weaken lo f.span.end ((j1, f1) ∷ pre) (omega arith)
            (KeysFrom-of_Tiles hi f.span.end curr.span.start ((j1, f1) ∷ pre) t))
          (KeysFrom-weaken lo curr.span.end post
            (omega (arith, Tiles-le hi f1.span.end curr.span.start pre t.3))
            (KeysFrom-of_Tiles hi curr.span.end hi post u)) in
      let lowered =
        coalesce_below_absorbs lo (length ((j1, f1) ∷ pre ++ post)) j f curr
          ((j1, f1) ∷ pre ++ post) s keys vac below.0 in
      let v =
        vacate_lem hi hi (space_word space) curr ret owned proper ((j, f) ∷ (j1, f1) ∷ pre) post u
          ((j1, f1) ∷ pre) lo lowered below.1 in
      let mid =
        freed hi hi (space_word space) curr ret owned proper ((j, f) ∷ (j1, f1) ∷ pre) post u lo
          v.limit in
      (
        (j1, f1) ∷ pre ++ (v.limit - 1, mid) ∷ v.kept,
        v.returns,
        record {
          below = (j1, f1) ∷ pre;
          key = key;
          taken = v.taken;
          above = v.kept;
          new_key = v.limit - 1;
          mid = mid;
          before = ap (λ x. (j, f) ∷ (j1, f1) ∷ pre ++ (key, curr) ∷ x) v.parts;
          after = refl;
          between = λ empty. ground arith;
          below_tiles = subst (λ x. Tiles hi f.span.end x ((j1, f1) ∷ pre)) start_eq t;
          taken_vacant = v.taken_vacant;
          taken_tiles = subst (λ x. Tiles hi x v.limit v.taken) end_eq v.taken_tiles;
          above_occupied = v.stops;
          above_tiles = v.kept_tiles;
          region = refl;
          start = refl;
          reaches = let g = v.grows in omega arith;
          fits = let g = v.grows in omega arith;
          kind = refl;
          permissions = refl;
          no_partition = λ bad. omega arith;
        },
      )

  -- In a partition of an address space whose lowest region is unoccupied and ends below an occupied
  -- region: freeing that occupied region succeeds with its backing, and leaves the map without the lowest region, with
  -- all regions in between as they were, and without the unoccupied regions right above the freed
  -- one; the regions further up stay as they were. In place of the freed region stands an unoccupied
  -- one, from the bottom of the space to the end of the regions taken from above, and so over all the
  -- regions in between, of which there is at least one. The result is no partition.
  pub free_swallows :
      IsPartition lo hi ((k0, e) ∷ m)
      → is_none e.region ≡ true
      → e.span.end < range.start
      → (curr : AddressRegion) → find ((k0, e) ∷ m) range.start ≡ some curr
      → matches range curr ≡ true
      → (m' : AddressMap) × (ret : MemoryRegion) × (free ((k0, e) ∷ m) range ≡ done (m', ret))
        × (curr.region ≡ some ret)
        × Swallowed lo hi (k0, e) ((k0, e) ∷ m) range curr m'
  free_swallows partition vacant far curr found match =
      let (key, first) = find_first ((k0, e) ∷ m) range.start curr found in
      let (ret, owned) = region_of_match range curr match in
      let sp = Split-first_from hi lo hi range.start key curr ((k0, e) ∷ m) partition first in
      let start_eq : curr.span.start ≡ range.start = ground arith in
      let below : KeysBelow curr.span.start sp.pre =
        subst (λ x. KeysBelow x sp.pre) (sym start_eq) sp.below in
      let (m', vacated, swallowed) =
        by_pre key ret sp.pre sp.post owned sp.parts sp.pre_tiles below sp.proper sp.post_tiles in
      let run = free-vacate space ((k0, e) ∷ m) range key curr sp first match ∙ vacated in
      (m', ret, run, owned, swallowed)
    where
      by_pre :
          (key : ℕ) (ret : MemoryRegion) (pre post : AddressMap)
          → curr.region ≡ some ret
          → ◌≡◌ {A = AddressMap} ((k0, e) ∷ m) (pre ++ (key, curr) ∷ post)
          → Tiles hi lo curr.span.start pre
          → KeysBelow curr.span.start pre
          → curr.span.start < curr.span.end
          → Tiles hi curr.span.end hi post
          → (m' : AddressMap) × (vacate (pre ++ post) curr ≡ done (m', ret))
            × Swallowed lo hi (k0, e) ((k0, e) ∷ m) range curr m'
      by_pre key ret [] post owned parts t below proper u = absurd (ground arith)
      by_pre key ret ((j, f) ∷ pre) post owned parts t below proper u =
          let f_eq : f ≡ e = ground arith in
          let same : ◌≡◌ {A = ℕ × AddressRegion} (j, f) (k0, e) = ground arith in
          let start_eq : curr.span.start ≡ range.start = ground arith in
          let end_eq : curr.span.end ≡ range.end = ground arith in
          subst
            (λ x.
              (m' : AddressMap) × (vacate ((j, f) ∷ pre ++ post) curr ≡ done (m', ret))
              × Swallowed lo hi x ((k0, e) ∷ m) range curr m')
            same
            (subst
              (λ x.
                (m' : AddressMap) × (vacate ((j, f) ∷ pre ++ post) curr ≡ done (m', ret))
                × Swallowed lo hi (j, f) x range curr m')
              (sym parts)
              (from_parts key curr ret j f pre post (ground arith) (ground arith) owned start_eq
                end_eq proper t below u))

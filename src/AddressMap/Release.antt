-- ===== src/AddressMap/Release.antt =====
-- The steps of `AddressMap::free`, given what its lower loop leaves
-- (src/kernel/vanadinite/src/mem/manager/address_map.rs).
use vanadinite.Prelude.{
  ℕ, ◌+◌, ◌-◌, ◌<◌, ◌≤◌, ◌^◌, ◌≡◌, inl, inr, refl, sym, ap, ◌∙◌, Bool, true, false, not, ◌&&◌, ◌||◌,
  none, some, ◌∷◌, ◌++◌, leb, ltb, ◌==◌, is_some, is_none, if◌then◌else◌, arith, length,
}
use vanadinite.Prelude.Int.{negsuc}
use vanadinite.BTreeMap.{remove, get, first_from}
use vanadinite.Paging.Virtual.{Range, checked_offset}
use vanadinite.Paging.Virtual.Ranges.{checked_offset-before}
use vanadinite.Region.{MemoryRegion}
use vanadinite.AddressMap.{
  AddressMap, AddressRegion, AddressSpace, address_range, userspace, kernelspace, done, failed,
  nonexistent, vacate, free,
}
use vanadinite.AddressMap.Partition.{
  KeyFits, IsPartition, owner, KeysBelow, Tiles-le, Tiles-append, KeysBelow-of_Tiles,
  KeysBelow-weaken, owner-append, owner_outside, remove-append, get-append,
}
use vanadinite.AddressMap.Splits.{Split}
use vanadinite.AddressMap.Lower.{Lowered}
use vanadinite.AddressMap.Vacate.{Vacated, vacate_lem}

-- The ends of both address spaces lie in the half of the space.
one_before :
    (space : AddressSpace) (e : ℕ)
    → (address_range space).start < e
    → e ≤ (address_range space).end
    → (checked_offset e (negsuc 0) ≡ some (e - 1)) × (e < 2 ^ 64)
unfolding address_range
one_before userspace e p q = ((checked_offset-before e (inl (p, q))).0, omega arith)
one_before kernelspace e p q = ((checked_offset-before e (inr (p, q))).0, omega arith)

pub space_word : (space : AddressSpace) → (address_range space).end < 2 ^ 64
unfolding address_range
space_word userspace = omega arith
space_word kernelspace = omega arith

-- The guard of `free` on the region that it found.
abbrev pub matches : Range → AddressRegion → Bool
matches range curr =
    (curr.span.start == range.start) && (curr.span.end == range.end) && is_some curr.region

pub free-nonexistent :
    (m : AddressMap) (range : Range) (key : ℕ) (curr : AddressRegion)
    → first_from range.start m ≡ some (key, curr)
    → matches range curr ≡ false
    → free m range ≡ failed nonexistent
unfolding free
free-nonexistent m range key curr found no_match = rw (found, free) (ground arith)

-- If the guard passes, `free` does not panic: it takes the region out of the map.
pub free-vacate :
    (space : AddressSpace) (m : AddressMap) (range : Range) (key : ℕ) (curr : AddressRegion)
    → (sp : Split
        (address_range space).end
        (address_range space).start
        (address_range space).end
        range.start
        key
        curr
        m)
    → first_from range.start m ≡ some (key, curr)
    → matches range curr ≡ true
    → free m range ≡ vacate (sp.pre ++ sp.post) curr
unfolding free
free-vacate space m range key curr sp found match =
    let lo = (address_range space).start in
    let hi = (address_range space).end in
    let low = Tiles-le hi lo curr.span.start sp.pre sp.pre_tiles in
    let high = Tiles-le hi curr.span.end hi sp.post sp.post_tiles in
    let fit : KeyFits hi key curr = sp.fits in
    let proper : curr.span.start < curr.span.end = sp.proper in
    let last : range.end ≡ key + 1 = ground arith in
    let same : curr.span.end ≡ range.end = ground arith in
    let back : checked_offset range.end (negsuc 0) ≡ some (range.end - 1) =
      (one_before space range.end (omega arith) (omega arith)).0 in
    let back_to_key : checked_offset range.end (negsuc 0) ≡ some key =
      back ∙ ap some (let e : range.end - 1 ≡ key = omega arith in e) in
    let below : KeysBelow key sp.pre =
      KeysBelow-weaken range.start key sp.pre (omega arith) sp.below in
    let got : get key m ≡ some curr =
      ap (get key) sp.parts ∙ get-append key curr sp.pre sp.post below in
    let rest : remove key m ≡ sp.pre ++ sp.post =
      ap (remove key) sp.parts ∙ remove-append key curr sp.pre sp.post below in
    let guard : (not (curr.span.start == range.start)
          || not (curr.span.end == range.end)
          || is_none curr.region)
        ≡ false =
      ground arith in
    rw (found, free) (rw (guard, back_to_key, got, rest) refl)

-- The new map is a partition in which the addresses of the range are owned by nothing, and every
-- other address has the owner that it had; the backing of the freed region is returned.
abbrev pub Freed : ℕ → ℕ → AddressMap → Range → AddressRegion → MemoryRegion → AddressMap → Type 0
Freed lo hi m range curr ret m' =
    (curr.region ≡ some ret)
    × IsPartition lo hi m'
    × ((a : ℕ) → owner a m' ≡ (if leb range.start a && ltb a range.end then none else owner a m))

module _ (lo hi : ℕ) (m : AddressMap) (word : hi < 2 ^ 64) (range : Range) (key : ℕ)
    (curr : AddressRegion) (ret : MemoryRegion) (sp : Split hi lo hi range.start key curr m)
    (start_eq : curr.span.start ≡ range.start) (end_eq : curr.span.end ≡ range.end)
    (owned : curr.region ≡ some ret)
    (low : Lowered hi lo (length (sp.pre ++ sp.post)) curr sp.pre sp.post) where
  low_below : KeysBelow curr.span.start low.rest
  low_below = KeysBelow-weaken low.limit curr.span.start low.rest low.shrinks (
      KeysBelow-of_Tiles hi lo low.limit low.rest low.rest_tiles (
        let h = Tiles-le hi curr.span.end hi sp.post sp.post_tiles in
        let p = sp.proper in let s = low.shrinks in omega arith))

  pub vac :
      Vacated hi hi word curr ret owned sp.proper sp.pre sp.post sp.post_tiles low.rest low.limit
  vac =
      vacate_lem hi hi word curr ret owned sp.proper sp.pre sp.post sp.post_tiles low.rest low.limit
        low.returns low_below

  abbrev pub mid : AddressRegion
  mid = record curr { region = none; span = record { start = low.limit; end = vac.limit } }

  abbrev pub after : AddressMap
  after = low.rest ++ (vac.limit - 1, mid) ∷ vac.kept

  owner-before :
      (a : ℕ)
      → owner a m ≡ (
          if leb lo a && ltb a curr.span.start
          then owner a sp.pre
          else if leb curr.span.start a && ltb a curr.span.end
          then some curr
          else owner a sp.post)
  owner-before a =
      ap (owner a) sp.parts
      ∙ owner-append hi lo curr.span.start a sp.pre ((key, curr) ∷ sp.post) sp.pre_tiles
      ∙ ground arith

  owner-after :
      (a : ℕ)
      → owner a after ≡ (
          if leb lo a && ltb a low.limit
          then owner a low.rest
          else if leb low.limit a && ltb a vac.limit
          then none
          else owner a vac.kept)
  owner-after a =
      owner-append hi lo low.limit a low.rest ((vac.limit - 1, mid) ∷ vac.kept) low.rest_tiles
      ∙ ground arith

  after-owner :
      (a : ℕ) → owner a after ≡ (if leb range.start a && ltb a range.end then none else owner a m)
  after-owner a =
      let s = low.shrinks in
      let g = vac.grows in
      let gap : (low.limit ≤ a → owner a sp.pre ≡ none) =
        λ h. sym (low.owners a) ∙ owner_outside hi lo low.limit a low.rest low.rest_tiles (inr h) in
      let gap' : (a < vac.limit → owner a sp.post ≡ none) =
        λ h. sym (vac.owners a) ∙ owner_outside hi vac.limit hi a vac.kept vac.kept_tiles (inl h) in
      ground (arith, owner-after a, owner-before a, low.owners a, vac.owners a, gap, gap')

  pub vacate-Freed :
      (vacate (sp.pre ++ sp.post) curr ≡ done (after, ret)) × Freed lo hi m range curr ret after
  vacate-Freed = (
    vac.returns,
    (
      owned,
      Tiles-append hi lo low.limit hi low.rest ((vac.limit - 1, mid) ∷ vac.kept) low.rest_tiles (
        refl,
        (let s = low.shrinks in let p = sp.proper in let g = vac.grows in omega arith),
        inl (let p = sp.proper in let g = vac.grows in omega arith),
        vac.kept_tiles,
      ),
      after-owner,
    ),
  )

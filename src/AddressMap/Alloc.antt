-- ===== src/AddressMap/Alloc.antt =====
-- What `AddressMap::alloc` does (src/kernel/vanadinite/src/mem/manager/address_map.rs).
use vanadinite.Prelude.{
  ℕ, ◌<◌, ◌≤◌, ◌^◌, ◌≡◌, ◌⊎◌, inl, inr, refl, ap, ◌∙◌, Bool, true, false, not, ◌&&◌, none, some,
  ◌∷◌, ◌++◌, leb, ltb, ◌==◌, is_some, if◌then◌else◌, arith, Bool-cases, Option-cases,
}
use vanadinite.BTreeMap.{remove, first_from}
use vanadinite.Paging.Virtual.{Range}
use vanadinite.Paging.Flags.{Flags}
use vanadinite.Region.{MemoryRegion}
use vanadinite.AddressMap.{
  AddressMap, AddressRegion, AddressRegionKind, done, failed, occupied, splice, alloc, find,
}
use vanadinite.AddressMap.Partition.{
  Tiles, IsPartition, owner, KeysBelow, Tiles-le, Tiles-append, KeysFrom-of_Tiles,
  KeysBelow-of_Tiles, KeysBelow-weaken, owner-append, remove-append,
}
use vanadinite.AddressMap.Splits.{Split, Split-first_from, first_from-none}
use vanadinite.AddressMap.Splice.{replacement, splice_lem, replacement-Tiles, owner-replacement}

module _ (lo hi : ℕ) (m : AddressMap) (partition : IsPartition lo hi m) (word : hi < 2 ^ 64)
    (sub : Range) (backing : MemoryRegion) (kind : AddressRegionKind) (permissions : Flags)
    (proper : sub.start < sub.end) where
  abbrev pub active : AddressRegion
  active = record { region = some backing; span = sub; kind = kind; permissions = permissions }

  -- The new map is a partition in which the new region owns its span, which nothing owned, and
  -- every other address has the owner that it had.
  abbrev pub Allocated : AddressMap → Type 0
  Allocated m' =
      IsPartition lo hi m'
      × ((a : ℕ)
          → (owner a m' ≡ (if leb sub.start a && ltb a sub.end then some active else owner a m))
            × ((if leb sub.start a && ltb a sub.end then owner a m else none) ≡ none))

  module _ (key : ℕ) (old : AddressRegion) (sp : Split hi lo hi sub.start key old m)
      (free : old.region ≡ none) (first : old.span.start ≤ sub.start)
      (last : sub.end ≤ old.span.end) where
    open sp use {pre, post}

    abbrev b : Bool
    b = old.span.start == sub.start

    abbrev c : Bool
    c = old.span.end == sub.end

    abbrev result : AddressMap
    result = pre ++ (replacement b c old active ++ post)

    post_top : old.span.end ≤ hi
    post_top = Tiles-le hi old.span.end hi post sp.post_tiles

    low : KeysBelow old.span.start pre
    low =
        KeysBelow-of_Tiles hi lo old.span.start pre sp.pre_tiles
          (let p = sp.proper in omega (arith, post_top))

    splice-result : splice b c (remove key m) old active ≡ result
    splice-result =
        rw
          (
            sp.parts,
            remove-append key old pre post (
                KeysBelow-weaken old.span.start key pre
                  (let f = sp.fits in let p = sp.proper in omega arith) low),
          )
          (splice_lem old active free refl proper first last (omega (arith, post_top)) pre post low
            (KeysFrom-of_Tiles hi old.span.end hi post sp.post_tiles) b c refl refl)

    mid-Tiles : Tiles hi old.span.start old.span.end (replacement b c old active)
    mid-Tiles = replacement-Tiles old active free refl proper first last hi b c refl refl

    -- The owner of an address before and after the call.
    owner-before :
        (a : ℕ)
        → owner a m ≡ (
            if leb lo a && ltb a old.span.start
            then owner a pre
            else if leb old.span.start a && ltb a old.span.end
            then none
            else owner a post)
    owner-before a =
        ap (owner a) sp.parts
        ∙ owner-append hi lo old.span.start a pre ((key, old) ∷ post) sp.pre_tiles
        ∙ ground arith

    owner-after :
        (a : ℕ)
        → owner a result ≡ (
            if leb lo a && ltb a old.span.start
            then owner a pre
            else if leb old.span.start a && ltb a old.span.end
            then (if leb sub.start a && ltb a sub.end then some active else none)
            else owner a post)
    owner-after a =
        owner-append hi lo old.span.start a pre (replacement b c old active ++ post) sp.pre_tiles
        ∙ rw
            (
              owner-append hi old.span.start old.span.end a (replacement b c old active) post
                  mid-Tiles,
              owner-replacement old active free refl proper first last a b c refl refl,
            )
            refl

    result-Allocated : Allocated result
    result-Allocated = (
      Tiles-append hi lo old.span.start hi pre (replacement b c old active ++ post) sp.pre_tiles (
          Tiles-append hi old.span.start old.span.end hi (replacement b c old active) post mid-Tiles
            sp.post_tiles),
      λ a. (owner-after a ∙ ground (arith, owner-before a), ground (arith, owner-before a)),
    )

  -- The guard of `alloc` on the region that it found.
  abbrev pub fits : AddressRegion → Bool
  fits old = leb old.span.start sub.start && leb sub.end old.span.end && not (is_some old.region)

  alloc_cases :
      (key : ℕ) (old : AddressRegion)
      → first_from sub.start m ≡ some (key, old)
      → alloc m sub backing kind permissions ≡ (
          if fits old
          then done (
              splice
                (old.span.start == sub.start)
                (old.span.end == sub.end)
                (remove key m)
                old
                active)
          else failed occupied)
  unfolding alloc
  alloc_cases key old e = rw (e, alloc) (ground arith)

  -- In a partition of `lo..hi`, for a span that is not empty and starts inside: `alloc` looks at the
  -- region that `find` returns for the start of the span. If that region is unoccupied and holds the
  -- whole span, the call succeeds: the map is still a partition of `lo..hi`, the new region owns
  -- exactly its span, which nothing owned before, and all other addresses keep their owner.
  -- Otherwise the call fails with `Occupied`.
  pub alloc_lem :
      lo ≤ sub.start
      → sub.start < hi
      → (old : AddressRegion) × (find m sub.start ≡ some old)
        × (((fits old ≡ true)
              × ((m' : AddressMap) × (alloc m sub backing kind permissions ≡ done m')
                  × Allocated m'))
            ⊎ ((fits old ≡ false) × (alloc m sub backing kind permissions ≡ failed occupied)))
  unfolding find
  alloc_lem above inside = elim (Option-cases (first_from sub.start m)) [
    | inl missing ↦ absurd (first_from-none hi lo hi sub.start m partition above inside missing)
    | inr ((key, old), found) ↦
        (old, rw (found, find) refl, by_fit key old found (Bool-cases (fits old)))
  ]
    where
      by_fit :
          (key : ℕ) (old : AddressRegion)
          → first_from sub.start m ≡ some (key, old)
          → (fits old ≡ true) ⊎ (fits old ≡ false)
          → ((fits old ≡ true)
              × ((m' : AddressMap) × (alloc m sub backing kind permissions ≡ done m')
                  × Allocated m'))
            ⊎ ((fits old ≡ false) × (alloc m sub backing kind permissions ≡ failed occupied))
      by_fit key old found (inr no_fit) = inr (no_fit, alloc_cases key old found ∙ rw no_fit refl)
      by_fit key old found (inl fit) =
          let sp = Split-first_from hi lo hi sub.start key old m partition found in
          let free : old.region ≡ none = ground arith in
          let first : old.span.start ≤ sub.start = ground arith in
          let last : sub.end ≤ old.span.end = ground arith in
          inl (
            fit,
            (
              result key old sp free first last,
              alloc_cases key old found
                  ∙ rw fit (ap done (splice-result key old sp free first last)),
              result-Allocated key old sp free first last,
            ),
          )

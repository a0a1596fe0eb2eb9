-- ===== src/AddressMap/Tests.antt =====
-- Runs of the address map, on the maps of the tests in
-- src/kernel/vanadinite/src/mem/manager/address_map.rs.
use vanadinite.Prelude.{
  ℕ, ◌<◌, ◌≤◌, ◌^◌, ◌≡◌, ◌⊎◌, inl, inr, refl, true, false, some, none, [], ◌∷◌, is_some,
  if◌then◌else◌, ◌-◌, arith,
}
use vanadinite.BTreeMap.{insert, remove, get, first_from, first_below}
use vanadinite.Paging.Virtual.{Range, checked_offset, unchecked_before}
use vanadinite.Paging.Flags
use vanadinite.Region.{MemoryRegion, guard_page}
use vanadinite.AddressMap.{
  AddressMap, AddressRegion, userspace, address_range, new, alloc, free, find, done, failed,
  occupied, nonexistent, vacant, unoccupied, unoccupied_regions, occupied_regions,
}
use vanadinite.AddressMap.Partition.{IsPartition, owner}
use vanadinite.AddressMap.Alloc.{Allocated, fits, alloc_lem}
use vanadinite.AddressMap.Lookup.{find_lem}
use vanadinite.AddressMap.Release.{Freed, matches}
use vanadinite.AddressMap.Free.{free_lem}
use vanadinite.AddressMap.Swallow.{Swallowed, free_swallows}

abbrev top : ℕ
top = 2 ^ 38 - 1

abbrev empty_map : AddressMap
empty_map = (top, vacant 0 top) ∷ []

abbrev subrange : Range
subrange = record { start = 0x1_0000; end = 0x5_0000 }

abbrev guarded : Range → AddressRegion
guarded span = record {
  region = some guard_page;
  span = span;
  kind = unoccupied;
  permissions = Flags.read;
}

abbrev split_map : AddressMap
split_map =
    (0xFFFF, vacant 0 0x1_0000) ∷ (0x4_FFFF, guarded subrange) ∷ (top - 1, vacant 0x5_0000 top) ∷ []

abbrev low_range : Range
low_range = record { start = 0x1000; end = 0x2000 }

abbrev high_range : Range
high_range = record { start = 0x2000; end = 0x3000 }

abbrev upper_map : AddressMap
upper_map =
    (0x1FFF, guarded low_range) ∷ (0x2FFF, guarded high_range) ∷ (top - 1, vacant 0x3000 top) ∷ []

empty_map-IsPartition : IsPartition 0 top empty_map
empty_map-IsPartition = (refl, omega arith, inr (refl, refl, refl), refl)

split_map-IsPartition : IsPartition 0 top split_map
split_map-IsPartition = (
  refl,
  omega arith,
  inl refl,
  (refl, omega arith, inl refl, (refl, omega arith, inl refl, refl)),
)

lowest_vacant-IsPartition : IsPartition 0 top ((0xFFF, vacant 0 0x1000) ∷ upper_map)
lowest_vacant-IsPartition = (
  refl,
  omega arith,
  inl refl,
  (refl, omega arith, inl refl, (refl, omega arith, inl refl, (refl, omega arith, inl refl, refl))),
)

new_run : new userspace ≡ empty_map
unfolding new insert address_range
new_run = refl

split_works : alloc empty_map subrange guard_page unoccupied Flags.read ≡ done split_map
unfolding alloc first_from insert remove unchecked_before
split_works = refl

coalesce_works :
    free split_map subrange
    ≡ done ((top - 1, record (vacant 0 top) { permissions = Flags.read }) ∷ [], guard_page)
unfolding free first_from first_below insert remove get checked_offset unchecked_before
coalesce_works = refl

doesnt_grab_existing_region :
    alloc split_map (record { start = 0x4_0000; end = 0x5_0000 }) guard_page unoccupied Flags.user
    ≡ failed occupied
unfolding alloc first_from
doesnt_grab_existing_region = refl

iterators :
    (occupied_regions split_map ≡ guarded subrange ∷ [])
    × (unoccupied_regions split_map ≡ vacant 0 0x1_0000 ∷ vacant 0x5_0000 top ∷ [])
unfolding occupied_regions unoccupied_regions
iterators = (refl, refl)

free_keeps_above :
    free ((0xFFF, vacant 0 0x1000) ∷ upper_map) high_range
    ≡ done (
      (0x1FFF, guarded low_range)
          ∷ (top - 1, record (vacant 0 top) { permissions = Flags.read })
          ∷ [],
      guard_page,
    )
unfolding free first_from first_below insert remove get checked_offset unchecked_before
free_keeps_above = refl

alloc_lem_example :
    (old : AddressRegion) × (find empty_map 0x1_0000 ≡ some old)
    × (((fits 0 top empty_map empty_map-IsPartition
              (omega arith)
              subrange
              guard_page
              unoccupied
              Flags.read
              (omega arith)
              old
            ≡ true)
          × ((m' : AddressMap) × (alloc empty_map subrange guard_page unoccupied Flags.read
                ≡ done m')
              × Allocated 0 top empty_map empty_map-IsPartition
                  (omega arith)
                  subrange
                  guard_page
                  unoccupied
                  Flags.read
                  (omega arith)
                  m'))
        ⊎ ((fits 0 top empty_map empty_map-IsPartition
                (omega arith)
                subrange
                guard_page
                unoccupied
                Flags.read
                (omega arith)
                old
              ≡ false)
            × (alloc empty_map subrange guard_page unoccupied Flags.read ≡ failed occupied)))
alloc_lem_example =
    alloc_lem 0 top empty_map empty_map-IsPartition (omega arith) subrange guard_page unoccupied
      Flags.read (omega arith) (omega arith) (omega arith)

free_lem_example :
    (curr : AddressRegion) × (find split_map 0x1_0000 ≡ some curr)
    × (((matches subrange curr ≡ true)
          × ((m' : AddressMap) × (ret : MemoryRegion) × (free split_map subrange ≡ done (m', ret))
              × Freed 0 top split_map subrange curr ret m'))
        ⊎ ((matches subrange curr ≡ false) × (free split_map subrange ≡ failed nonexistent)))
unfolding address_range
free_lem_example =
    free_lem userspace split_map subrange split_map-IsPartition (inr (omega arith)) (omega arith)
      (omega arith)

free_swallows_example :
    (m' : AddressMap) × (ret : MemoryRegion) × (free
        ((0xFFF, vacant 0 0x1000) ∷ upper_map)
        high_range
      ≡ done (m', ret))
    × ((guarded high_range).region ≡ some ret)
    × Swallowed 0 top
        (0xFFF, vacant 0 0x1000)
        ((0xFFF, vacant 0 0x1000) ∷ upper_map)
        high_range
        (guarded high_range)
        m'
unfolding address_range find first_from
free_swallows_example =
    free_swallows userspace 0xFFF (vacant 0 0x1000) upper_map high_range lowest_vacant-IsPartition
      refl (omega arith) (guarded high_range) refl refl

find_lem_example :
    (r : AddressRegion) × (find split_map 0x2_0000 ≡ some r)
    × (r.span.start ≤ 0x2_0000)
    × (0x2_0000 < r.span.end)
    × (owner 0x2_0000 split_map ≡ (if is_some r.region then some r else none))
find_lem_example =
    find_lem 0 top split_map 0x2_0000 split_map-IsPartition (omega arith) (omega arith)

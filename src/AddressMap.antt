-- ===== src/AddressMap.antt =====
-- Address maps: src/kernel/vanadinite/src/mem/manager/address_map.rs, lines 13 to 224. A map keeps
-- each region of an address space under a key, one less than the end of the region's span, except
-- for the first region of a new map, whose key is its end.
mod Tests
pub mod Partition
pub mod Splits
pub mod Splice
pub mod Alloc
pub mod Lookup
pub mod Coalesce
pub mod Lower
pub mod Vacate
pub mod Release
pub mod Free
pub mod Swallow
use vanadinite.Prelude.{
  ℕ, zero, suc, Bool, true, false, not, ◌&&◌, ◌||◌, Option, none, some, List, [], ◌∷◌, ltb, ◌==◌,
  is_some, is_none, if◌then◌else◌, length,
}
use vanadinite.Prelude.Int.{negsuc}
use vanadinite.BTreeMap.{BTreeMap, get, insert, remove, first_from, first_below}
use vanadinite.Paging.Virtual.{
  VirtualAddress, Range, userspace_range, kernelspace_range, checked_offset, unchecked_before,
}
use vanadinite.Paging.Flags
use vanadinite.Paging.Flags.{Flags}
use vanadinite.Region.{MemoryRegion}

pub data AddressRegionKind : Type 0 where
  channel data_kind guard read_only stack text tls unoccupied : AddressRegionKind
  user_allocated dma mmio user_shared_memory : AddressRegionKind

-- `None` for the region means that it is unoccupied.
pub record AddressRegion : Type 0 where
  pub region : Option MemoryRegion
  pub span : Range
  pub kind : AddressRegionKind
  pub permissions : Flags

unfoldable pub is_unoccupied : AddressRegion → Bool
is_unoccupied self = is_none self.region

-- `Userspace` and `Kernelspace`, the implementors of `AddressSpace`
pub data AddressSpace : Type 0 where
  userspace kernelspace : AddressSpace

unfoldable pub address_range : AddressSpace → Range
unfolding userspace_range kernelspace_range
address_range userspace = userspace_range
address_range kernelspace = kernelspace_range

abbrev pub AddressMap : Type 0
AddressMap = BTreeMap AddressRegion

pub data AddressMappingError : Type 0 where
  occupied nonexistent out_of_bounds : AddressMappingError

-- The result of a call that may also panic.
pub data Outcome (A : Type 0) : Type 0 where
  done : A → Outcome A
  failed : AddressMappingError → Outcome A
  panicked : Outcome A

-- An unoccupied region over a span, `Flags::NONE`
abbrev pub vacant : ℕ → ℕ → AddressRegion
vacant start end = record {
  region = none;
  span = record { start = start; end = end };
  kind = unoccupied;
  permissions = 0;
}

unfoldable pub new : AddressSpace → AddressMap
unfolding address_range insert
new space =
    let complete = address_range space in
    insert complete.end (vacant complete.start complete.end) []

-- The four cases of `alloc`, by whether the new span shares its start and its end with the old one.
unfoldable pub splice : Bool → Bool → AddressMap → AddressRegion → AddressRegion → AddressMap
splice true false m old active =
    let left = record old { span = record { start = active.span.end; end = old.span.end } } in
    insert (unchecked_before active.span.end) active (insert (unchecked_before old.span.end) left m)
splice false true m old active =
    let left = record old { span = record { start = old.span.start; end = active.span.start } } in
    insert (unchecked_before active.span.end) active
      (insert (unchecked_before active.span.start) left m)
splice true true m old active = insert (unchecked_before active.span.end) active m
splice false false m old active =
    insert (unchecked_before old.span.end) (vacant active.span.end old.span.end) (
      insert (unchecked_before active.span.end) active
        (insert (unchecked_before active.span.start) (vacant old.span.start active.span.start) m))

unfoldable pub alloc :
    AddressMap → Range → MemoryRegion → AddressRegionKind → Flags → Outcome AddressMap
unfolding splice
alloc m subrange backing kind permissions = elim (first_from subrange.start m) [
  | none ↦ failed out_of_bounds
  | some (key, range) ↦
      if ltb subrange.start range.span.start
        || ltb range.span.end subrange.end
        || is_some range.region
      then failed occupied
      else done (
          splice (range.span.start == subrange.start) (range.span.end == subrange.end)
            (remove key m) range
            (record {
              region = some backing;
              span = subrange;
              kind = kind;
              permissions = permissions;
            }))
]

-- The first loop of `free`: while the first entry of `range(..start)` is unoccupied, it is removed and
-- the span begins where that entry's did. The fuel bounds the rounds; each removes an entry.
unfoldable pub coalesce_below : ℕ → AddressMap → AddressRegion → AddressMap × AddressRegion
coalesce_below zero m range = (m, range)
coalesce_below (suc fuel) m range = elim (first_below range.span.start m) [
  | none ↦ (m, range)
  | some (key, e) ↦ elim (is_none e.region) [
    | false ↦ (m, range)
    | true ↦
        coalesce_below fuel (remove key m)
          (record range { span = record { start = e.span.start; end = range.span.end } })
  ]
]

-- The second loop: while the first entry of `range(end..)` is unoccupied, the span takes its end.
unfoldable pub coalesce_above : ℕ → AddressMap → AddressRegion → AddressMap × AddressRegion
coalesce_above zero m range = (m, range)
coalesce_above (suc fuel) m range = elim (first_from range.span.end m) [
  | none ↦ (m, range)
  | some (key, e) ↦ elim (is_none e.region) [
    | false ↦ (m, range)
    | true ↦
        coalesce_above fuel (remove key m)
          (record range { span = record { start = range.span.start; end = e.span.end } })
  ]
]

-- `region.take()`, and the insertion of the span without it.
unfoldable pub reinsert : AddressMap × AddressRegion → Outcome (AddressMap × MemoryRegion)
reinsert (m, range) = elim range.region [
  | none ↦ panicked
  | some ret ↦
      done (insert (unchecked_before range.span.end) (record range { region = none }) m, ret)
]

-- What `free` does with the entry that it removed; the fuel of a loop is the number of entries.
unfoldable pub vacate : AddressMap → AddressRegion → Outcome (AddressMap × MemoryRegion)
unfolding coalesce_below coalesce_above reinsert
vacate m range = reinsert (raise (coalesce_below (length m) m range))
  where
    raise : AddressMap × AddressRegion → AddressMap × AddressRegion
    raise (m', range') = coalesce_above (length m') m' range'

unfoldable pub free : AddressMap → Range → Outcome (AddressMap × MemoryRegion)
unfolding vacate
free m range = elim (first_from range.start m) [
  | none ↦ failed out_of_bounds
  | some (_, curr) ↦
      if not (curr.span.start == range.start)
        || not (curr.span.end == range.end)
        || is_none curr.region
      then failed nonexistent
      else elim (checked_offset range.end (negsuc 0)) [
        | none ↦ panicked
        | some key ↦ elim (get key m) [ none ↦ panicked | some r ↦ vacate (remove key m) r ]
      ]
]

unfoldable pub find : AddressMap → VirtualAddress → Option AddressRegion
find m address = elim (first_from address m) [ none ↦ none | some (_, r) ↦ some r ]

unfoldable pub unoccupied_regions : AddressMap → List AddressRegion
unoccupied_regions [] = []
unoccupied_regions ((_, v) ∷ m) =
    if is_none v.region then v ∷ unoccupied_regions m else unoccupied_regions m

unfoldable pub occupied_regions : AddressMap → List AddressRegion
occupied_regions [] = []
occupied_regions ((_, v) ∷ m) =
    if is_some v.region then v ∷ occupied_regions m else occupied_regions m

-- ===== src/Region.antt =====
-- Memory regions: src/kernel/vanadinite/src/mem/region.rs. A `PhysicalPage` is the address of its
-- first byte, and an `Arc` is the region that it shares.
mod Tests
pub mod Addresses
use vanadinite.Prelude.{
  ℕ, zero, suc, ◌+◌, ◌*◌, ◌^◌, Option, none, some, List, [], ◌∷◌, ltb, if◌then◌else◌,
}
use vanadinite.Paging.Size.{PageSize, kilopage, to_byte_size}
use vanadinite.Paging.Physical.{PhysicalAddress, offset}

pub data PhysicalRegionKind : Type 0 where
  contiguous : PhysicalAddress → PhysicalRegionKind
  mmio : PhysicalAddress → PhysicalRegionKind
  sparse : List PhysicalAddress → PhysicalRegionKind

pub record UniquePhysicalRegion : Type 0 where
  pub kind : PhysicalRegionKind
  pub size : PageSize
  pub n_pages : ℕ

pub data PhysicalRegion : Type 0 where
  shared : UniquePhysicalRegion → PhysicalRegion
  unique : UniquePhysicalRegion → PhysicalRegion

pub data MemoryRegion : Type 0 where
  backed : PhysicalRegion → MemoryRegion
  lazy : PageSize → ℕ → MemoryRegion
  guard_page : MemoryRegion

unfoldable pub physical_page_size : PhysicalRegion → PageSize
physical_page_size (shared r) = r.size
physical_page_size (unique r) = r.size

unfoldable pub physical_page_count : PhysicalRegion → ℕ
physical_page_count (shared r) = r.n_pages
physical_page_count (unique r) = r.n_pages

-- `MemoryRegion::page_size`
unfoldable pub page_size : MemoryRegion → PageSize
unfolding physical_page_size
page_size guard_page = kilopage
page_size (lazy size n_pages) = size
page_size (backed backing) = physical_page_size backing

-- `MemoryRegion::page_count`
unfoldable pub page_count : MemoryRegion → ℕ
unfolding physical_page_count
page_count guard_page = 1
page_count (lazy size n_pages) = n_pages
page_count (backed backing) = physical_page_count backing

-- `(0..n_pages).map(|i| start.offset(i * size))` from the index `i`; `none` is the panic of `offset`.
unfoldable pub contiguous_from : PhysicalAddress → ℕ → ℕ → ℕ → Option (List PhysicalAddress)
unfolding offset
contiguous_from start size i zero = some []
contiguous_from start size i (suc n) = elim (offset start (i * size)) [
  | none ↦ none
  | some a ↦ elim (contiguous_from start size (i + 1) n) [ none ↦ none | some as' ↦ some (a ∷ as') ]
]

unfoldable pub physical_addresses : UniquePhysicalRegion → Option (List PhysicalAddress)
unfolding contiguous_from
physical_addresses r = by_kind r.kind (to_byte_size r.size) r.n_pages
  where
    by_kind : PhysicalRegionKind → ℕ → ℕ → Option (List PhysicalAddress)
    by_kind (contiguous start) size n = contiguous_from start size 0 n
    by_kind (mmio start) size n = contiguous_from start size 0 n
    by_kind (sparse pages) size n = some pages

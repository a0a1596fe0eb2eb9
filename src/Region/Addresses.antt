-- ===== src/Region/Addresses.antt =====
-- The addresses of a region's pages (src/kernel/vanadinite/src/mem/region.rs).
use mathlib.Core.Path.{subst}
use vanadinite.Prelude.{
  ℕ, zero, suc, ◌+◌, ◌*◌, ◌^◌, ◌<◌, ◌≡◌, refl, sym, ap, ◌∙◌, true, none, some, List, [], ◌∷◌, ltb,
  if◌then◌else◌, arith, length, get_elem?,
}
use vanadinite.Paging.Size.{PageSize, to_byte_size}
use vanadinite.Paging.Physical.{PhysicalAddress, offset}
use vanadinite.Region.{
  contiguous_from, physical_addresses, UniquePhysicalRegion, contiguous, backed, unique, page_count,
}

contiguous_from_lem :
    (start size i n : ℕ)
    → ((j : ℕ) → j < n → start + (i + j) * size < 2 ^ 64)
    → (pages : List PhysicalAddress) × (contiguous_from start size i n ≡ some pages)
      × (length pages ≡ n)
      × ((j : ℕ) → get_elem? pages j ≡ (if ltb j n then some (start + (i + j) * size) else none))
unfolding contiguous_from offset
contiguous_from_lem start size i zero small = ([], refl, refl, λ j. ground arith)
contiguous_from_lem start size i (suc n) small =
    let first : i + 0 ≡ i = omega arith in
    let here : start + i * size < 2 ^ 64 =
      subst (λ k. start + k * size < 2 ^ 64) first (small 0 (omega arith)) in
    let next : (j : ℕ) → i + suc j ≡ i + 1 + j = λ j. omega arith in
    let (pages, rest, count, at) =
      contiguous_from_lem start size (i + 1) n
        λ j lt. subst (λ k. start + k * size < 2 ^ 64) (next j) (small (suc j) (omega arith)) in
    let fits : ltb (start + i * size) (2 ^ 64) ≡ true = ground arith in
    (
      (start + i * size) ∷ pages,
      rw (contiguous_from, offset, fits, rest) refl,
      ap suc count,
      λ j. by_index pages at j,
    )
  where
    by_index :
        (pages : List PhysicalAddress)
        → ((j : ℕ)
            → get_elem? pages j ≡ (if ltb j n then some (start + (i + 1 + j) * size) else none))
        → (j : ℕ)
        → get_elem? ((start + i * size) ∷ pages) j
          ≡ (if ltb j (suc n) then some (start + (i + j) * size) else none)
    by_index pages at zero =
        let first : i ≡ i + 0 = omega arith in
        let within : ltb 0 (suc n) ≡ true = ground arith in
        rw within (ap (λ k. some (start + k * size)) first)
    by_index pages at (suc j) =
        let next : i + 1 + j ≡ i + suc j = omega arith in
        let same : ltb (suc j) (suc n) ≡ ltb j n = ground arith in
        rw same (at j ∙ ap (λ k. if ltb j n then some (start + k * size) else none) next)

-- A contiguous region whose pages lie in 64 bits has as many addresses as it has pages, and the one
-- with index `j` is `j` page sizes above its start; listing them does not panic.
pub physical_addresses-contiguous :
    (start : PhysicalAddress) (size : PageSize) (n_pages : ℕ)
    → ((j : ℕ) → j < n_pages → start + j * to_byte_size size < 2 ^ 64)
    → let r : UniquePhysicalRegion = record {
      kind = contiguous start;
      size = size;
      n_pages = n_pages;
    } in
      (pages : List PhysicalAddress) × (physical_addresses r ≡ some pages)
      × (length pages ≡ page_count (backed (unique r)))
      × ((j : ℕ)
          → get_elem? pages j
            ≡ (if ltb j n_pages then some (start + j * to_byte_size size) else none))
unfolding physical_addresses page_count
physical_addresses-contiguous start size n_pages small =
    let none_before : (j : ℕ) → 0 + j ≡ j = λ j. omega arith in
    let (pages, listed, count, at) = contiguous_from_lem start (to_byte_size size) 0 n_pages λ j lt.
      subst (λ k. start + k * to_byte_size size < 2 ^ 64) (sym (none_before j)) (small j lt) in
    (
      pages,
      listed,
      count,
      λ j.
          at j
          ∙ ap (λ k. if ltb j n_pages then some (start + k * to_byte_size size) else none)
              (none_before j),
    )

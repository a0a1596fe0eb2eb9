-- ===== src/Bitmap/Large.antt =====
-- The allocations of more than one entry, and the frees of more than one page
-- (src/kernel/vanadinite/src/mem/phys/bitmap.rs): definitions.
use Prim.Native.Nat.{bit_or}
use vanadinite.Prelude.{
  ℕ, zero, suc, ◌+◌, ◌*◌, ◌/◌, ◌%◌, ◌^◌, Bool, true, false, ◌&&◌, Option, none, some, List, [], ◌∷◌,
  ltb, ◌==◌, if◌then◌else◌, get_elem?, set, length,
}
use vanadinite.Bitmap.{BitmapAllocator, max_word, single_entry_size, low_ones, page_index}

-- `slice.get(start..start + n)`
unfoldable pub get_range : List ℕ → ℕ → ℕ → Option (List ℕ)
get_range es zero zero = some []
get_range [] zero (suc n) = none
get_range (e ∷ es) zero (suc n) = elim (get_range es zero n) [ none ↦ none | some l ↦ some (e ∷ l) ]
get_range [] (suc i) n = none
get_range (e ∷ es) (suc i) n = get_range es i n

unfoldable pub all_zero : List ℕ → Bool
all_zero [] = true
all_zero (e ∷ es) = (e == 0) && all_zero es

-- Writes `v` to `n` entries from `i` on; out of range nothing is written.
unfoldable pub fill : List ℕ → ℕ → ℕ → ℕ → List ℕ
fill es i zero v = es
fill es i (suc n) v = fill (set es i v) (i + 1) n v

-- `u64::leading_zeros`, from the top digit of `k`
unfoldable pub leading_zeros : ℕ → ℕ → ℕ
leading_zeros zero e = 0
leading_zeros (suc k) e = if e / 2 ^ k % 2 == 0 then suc (leading_zeros k e) else 0

-- The loop of `alloc_contig_4k_inter_pages`: the entry at which the run begins, `none` if the slice
-- ends first. Each round moves the start up, so the number of entries is fuel enough.
unfoldable pub inter_search : ℕ → List ℕ → ℕ → ℕ → ℕ → Option ℕ
unfolding get_range all_zero leading_zeros
inter_search zero es whole last start = none
inter_search (suc fuel) es whole last start = elim (get_range es start whole) [
  | none ↦ none
  | some entries ↦ elim (all_zero entries) [
    | false ↦ inter_search fuel es whole last (start + whole)
    | true ↦ elim (last == 0) [
      | true ↦ some start
      | false ↦ elim (get_elem? es (start + whole)) [
        | none ↦ none
        | some e ↦ elim (ltb (leading_zeros 64 e) last) [
          | true ↦ inter_search fuel es whole last (start + whole + 1)
          | false ↦ some start
        ]
      ]
    ]
  ]
]

-- `*bitmap[range.end] |= !(u64::MAX << last)`
unfoldable pub mark_last : List ℕ → ℕ → ℕ → List ℕ
mark_last es i last = elim (get_elem? es i) [
  | none ↦ es
  | some e ↦ set es i (bit_or e (low_ones last))
]

-- `alloc_contig_4k_inter_pages`, for `n` above 64
unfoldable pub alloc_contig_inter : BitmapAllocator → ℕ → BitmapAllocator × Option ℕ
unfolding inter_search mark_last fill
alloc_contig_inter a n =
    let whole = n / 64 in
    let last = n % 64 in
    elim (inter_search (length a.entries + 1) a.entries whole last 0) [
      | none ↦ (a, none)
      | some start ↦
          let page_ptr = a.mem_start + start * single_entry_size in
          let filled = fill a.entries start whole max_word in
          if ltb page_ptr a.mem_end
          then (
            record a {
              entries = if ltb 0 last then mark_last filled (start + whole) last else filled;
            },
            some page_ptr,
          )
          else (a, none)
    ]

-- The loop over the entries of a free, which panics (`none`) at one that is not full.
unfoldable pub clear_full : List ℕ → ℕ → ℕ → Option (List ℕ)
clear_full es i zero = some es
clear_full es i (suc n) = elim (get_elem? es i) [
  | none ↦ none
  | some e ↦ elim (e == max_word) [ false ↦ none | true ↦ clear_full (set es i 0) (i + 1) n ]
]

-- `dealloc` of a megapage: the slice `[index..][..512]`.
unfoldable pub dealloc_megapage : BitmapAllocator → ℕ → Option BitmapAllocator
dealloc_megapage a page = elim (get_range a.entries (page_index a page) 512) [
  | none ↦ none
  | some _ ↦ elim (clear_full a.entries (page_index a page) 512) [
    | none ↦ none
    | some es ↦ some (record a { entries = es })
  ]
]

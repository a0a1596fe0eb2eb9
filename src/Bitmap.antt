-- ===== src/Bitmap.antt =====
-- The bitmap allocator of physical pages: src/kernel/vanadinite/src/mem/phys/bitmap.rs. A bit of a
-- 64-bit entry stands for a page of 4 KiB, counted from `mem_start`. Addresses are physical and far
-- below 2 ^ 64, so that the sums of the source do not wrap.
mod Tests
pub mod Words
pub mod Pages
pub mod Single
pub mod Freeing
pub mod Inter
pub mod Large
use Prim.Native.Nat.{bit_or, bit_and, max}
use vanadinite.Prelude.{
  ℕ, zero, suc, ◌+◌, ◌-◌, ◌*◌, ◌/◌, ◌%◌, ◌^◌, Bool, true, false, not, ◌&&◌, ◌||◌, Option, none,
  some, List, [], ◌∷◌, ltb, leb, ◌==◌, if◌then◌else◌, get_elem?, set, replicate, length,
}
use vanadinite.Paging.Size.{PageSize, kilopage, megapage, gigapage, to_byte_size}

abbrev pub max_word : ℕ
max_word = 2 ^ 64 - 1

-- `SINGLE_ENTRY_SIZE_BYTES`
abbrev pub single_entry_size : ℕ
single_entry_size = 64 * 4096

-- `bitmap` and `size` together are the list of entries.
pub record BitmapAllocator : Type 0 where
  pub entries : List ℕ
  pub mem_start : ℕ
  pub mem_end : ℕ

-- `u64::trailing_ones`, from the digits that are left
unfoldable pub trailing_ones : ℕ → ℕ → ℕ
trailing_ones zero e = 0
trailing_ones (suc k) e = if e % 2 == 1 then suc (trailing_ones k (e / 2)) else 0

unfoldable pub count_zeros : ℕ → ℕ → ℕ
count_zeros zero e = 0
count_zeros (suc k) e = (1 - e % 2) + count_zeros k (e / 2)

-- `!mask` where `mask` is `u64::MAX << n` and `n` is at most 63
abbrev pub low_ones : ℕ → ℕ
low_ones n = 2 ^ n - 1

-- `rotate_left` in 64 bits
unfoldable pub rotate_left : ℕ → ℕ → ℕ
rotate_left x k = x * 2 ^ k % 2 ^ 64 + x * 2 ^ k / 2 ^ 64

abbrev pub page_index : BitmapAllocator → ℕ → ℕ
page_index a page = (page - a.mem_start) / single_entry_size

abbrev pub page_bit : BitmapAllocator → ℕ → ℕ
page_bit a page = (page - a.mem_start) / 4096 % 64

-- The search of `alloc` for a single page: the first entry with a clear bit, and the entry's number.
unfoldable pub find_not_full : ℕ → List ℕ → Option (ℕ × ℕ)
find_not_full index [] = none
find_not_full index (e ∷ es) =
    if not (e == max_word) then some (index, e) else find_not_full (index + 1) es

unfoldable pub alloc_kilopage : BitmapAllocator → BitmapAllocator × Option ℕ
unfolding find_not_full trailing_ones
alloc_kilopage a = elim (find_not_full 0 a.entries) [
  | none ↦ (a, none)
  | some (index, entry) ↦
      let bit_index = trailing_ones 64 entry in
      let page_ptr = a.mem_start + index * single_entry_size + bit_index * 4096 in
      if leb page_ptr a.mem_end
      then (
        record a { entries = set a.entries index (bit_or entry (2 ^ bit_index)) },
        some page_ptr,
      )
      else (a, none)
]

-- `none` is a panic, here that of an index out of bounds.
unfoldable pub set_used : BitmapAllocator → ℕ → Option BitmapAllocator
set_used a page = elim (get_elem? a.entries (page_index a page)) [
  | none ↦ none
  | some entry ↦ some (record a {
    entries = set a.entries (page_index a page) (bit_or entry (2 ^ page_bit a page));
  })
]

unfoldable pub set_unused : BitmapAllocator → ℕ → Option BitmapAllocator
set_unused a page = elim (get_elem? a.entries (page_index a page)) [
  | none ↦ none
  | some entry ↦ some (record a {
    entries = set a.entries (page_index a page) (bit_and entry (max_word - 2 ^ page_bit a page));
  })
]

-- The panics are the index out of bounds and the double free.
unfoldable pub dealloc_kilopage : BitmapAllocator → ℕ → Option BitmapAllocator
dealloc_kilopage a page = elim (get_elem? a.entries (page_index a page)) [
  | none ↦ none
  | some entry ↦
      if not (entry / 2 ^ page_bit a page % 2 == 1)
      then none
      else some (record a {
        entries =
            set a.entries (page_index a page) (bit_and entry (max_word - 2 ^ page_bit a page));
      })
]

-- The first of the indices from `i`, `k` of them, at which the `n` low bits of `entry >> i` are clear:
-- `e | mask == mask` compares what is outside the mask with 0.
unfoldable pub find_run : ℕ → ℕ → ℕ → ℕ → Option ℕ
find_run n entry i zero = none
find_run n entry i (suc k) =
    if entry / 2 ^ i % 2 ^ n == 0 then some i else find_run n entry (i + 1) k

-- The loop of `alloc_contig_4k_intra_pages` over the entries from `index` on, for `n` below 64. A run
-- that lies past the end of memory is marked too, and the search goes on.
unfoldable pub intra_loop : ℕ → ℕ → ℕ → ℕ → List ℕ → List ℕ × Option ℕ
unfolding count_zeros find_run rotate_left
intra_loop mem_start mem_end n index [] = ([], none)
intra_loop mem_start mem_end n index (entry ∷ es) =
    let (es', found) = intra_loop mem_start mem_end n (index + 1) es in
    if leb n (count_zeros 64 entry)
    then elim (find_run n entry 0 (64 - n)) [
      | none ↦ (entry ∷ es', found)
      | some bit_index ↦
          let marked = bit_or entry (rotate_left (low_ones n) bit_index) in
          let page_ptr = mem_start + index * single_entry_size + bit_index * 4096 in
          if ltb page_ptr mem_end then (marked ∷ es, some page_ptr) else (marked ∷ es', found)
    ]
    else (entry ∷ es', found)

unfoldable pub find_empty : ℕ → List ℕ → Option ℕ
find_empty index [] = none
find_empty index (e ∷ es) = if e == 0 then some index else find_empty (index + 1) es

-- `alloc_contig_4k_intra_pages`, for `n` of at most 64
unfoldable pub alloc_contig_intra : BitmapAllocator → ℕ → BitmapAllocator × Option ℕ
unfolding intra_loop find_empty
alloc_contig_intra a n =
    if n == 64
    then elim (find_empty 0 a.entries) [
      | none ↦ (a, none)
      | some index ↦
          let page_ptr = a.mem_start + index * single_entry_size in
          (
            record a { entries = set a.entries index max_word },
            (if ltb page_ptr a.mem_end then some page_ptr else none),
          )
    ]
    else by_loop (intra_loop a.mem_start a.mem_end n 0 a.entries)
  where
    by_loop : List ℕ × Option ℕ → BitmapAllocator × Option ℕ
    by_loop (es, page) = (record a { entries = es }, page)

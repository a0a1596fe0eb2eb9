-- ===== src/Bitmap/Tests.antt =====
-- Runs of the bitmap allocator (src/kernel/vanadinite/src/mem/phys/bitmap.rs) over one or two entries.
use vanadinite.Prelude.{
  ℕ, ◌+◌, ◌-◌, ◌*◌, ◌/◌, ◌<◌, ◌≤◌, ◌^◌, ◌≡◌, ◌⊎◌, refl, none, some, [], ◌∷◌, arith, get_elem?,
  replicate,
}
use vanadinite.Bitmap.{
  BitmapAllocator, max_word, alloc_kilopage, dealloc_kilopage, alloc_contig_intra, find_not_full,
  trailing_ones,
}
use vanadinite.Bitmap.Large.{
  alloc_contig_inter, dealloc_megapage, clear_full, get_range, leading_zeros,
}
use vanadinite.Bitmap.Pages.{page_used, IsWords}
use vanadinite.Bitmap.Single.{Taken, alloc_kilopage_lem}
use vanadinite.Bitmap.Freeing.{Released, dealloc_kilopage_lem}
use vanadinite.Bitmap.Inter.{
  dealloc_megapage_lem, alloc_contig_inter_overlaps, alloc_contig_intra_misses,
}

abbrev base : ℕ
base = 0x8000_0000

-- Page 0 is in use.
abbrev small : BitmapAllocator
small = record { entries = 1 ∷ 0 ∷ []; mem_start = base; mem_end = base + 128 * 4096 }

-- Page 64 is in use.
abbrev second_used : BitmapAllocator
second_used = record small { entries = 0 ∷ 1 ∷ [] }

abbrev top_free : BitmapAllocator
top_free = record small { entries = (2 ^ 63 - 1) ∷ [] }

abbrev full_entries : BitmapAllocator
full_entries = record small { entries = replicate 512 max_word }

abbrev empty_entries : BitmapAllocator
empty_entries = record small { entries = replicate 512 0 }

small-IsWords : IsWords small.entries
small-IsWords = (omega arith, (omega arith, tt))

single_pages :
    (alloc_kilopage small ≡ (record small { entries = 3 ∷ 0 ∷ [] }, some (base + 4096)))
    × (dealloc_kilopage small base ≡ some (record small { entries = 0 ∷ 0 ∷ [] }))
    × (dealloc_kilopage small (base + 4096) ≡ none)
unfolding alloc_kilopage dealloc_kilopage find_not_full trailing_ones
single_pages = (refl, refl, refl)

alloc_kilopage_lem_example :
    ((n : ℕ) × (a' : BitmapAllocator) × (alloc_kilopage small ≡ (a', some (base + n * 4096)))
      × (base + n * 4096 ≤ base + 128 * 4096)
      × Taken small a' n)
    ⊎ ((alloc_kilopage small ≡ (small, none))
        × (((n : ℕ) → page_used small n ≡ 1)
            ⊎ ((n : ℕ) × (page_used small n ≡ 0) × (base + 128 * 4096 < base + n * 4096))))
alloc_kilopage_lem_example = alloc_kilopage_lem small small-IsWords

dealloc_kilopage_lem_example :
    ((dealloc_kilopage small (base + 0 * 4096) ≡ none)
      × ((get_elem? small.entries (0 / 64) ≡ none) ⊎ (page_used small 0 ≡ 0)))
    ⊎ ((a' : BitmapAllocator) × (dealloc_kilopage small (base + 0 * 4096) ≡ some a')
        × (page_used small 0 ≡ 1)
        × Released small a' 0)
dealloc_kilopage_lem_example = dealloc_kilopage_lem small 0 small-IsWords

full_entries_run : dealloc_megapage full_entries base ≡ some empty_entries
unfolding dealloc_megapage clear_full get_range
full_entries_run = refl

dealloc_megapage_lem_example :
    (get_elem? full_entries.entries 511 ≡ some max_word)
    × (get_elem? empty_entries.entries 511 ≡ some 0)
dealloc_megapage_lem_example =
    dealloc_megapage_lem full_entries empty_entries base full_entries_run 511 (omega arith)
      (omega arith)

alloc_contig_inter_overlaps_example :
    ((alloc_contig_inter second_used (64 + 2)).1 ≡ some base) × (page_used second_used 64 ≡ 1)
unfolding leading_zeros
alloc_contig_inter_overlaps_example =
    alloc_contig_inter_overlaps second_used 1 [] 2 refl (omega arith) (omega arith) (omega arith)
      refl (omega arith)

alloc_contig_intra_misses_example :
    (alloc_contig_intra top_free 1 ≡ (top_free, none)) × (page_used top_free 63 ≡ 0)
alloc_contig_intra_misses_example =
    alloc_contig_intra_misses top_free 1 (omega arith) (omega arith) refl

-- ===== src/Bitmap/Inter.antt =====
-- Where the allocations of the bitmap allocator, and its free of a megapage, are wrong
-- (src/kernel/vanadinite/src/mem/phys/bitmap.rs).
use mathlib.Core.Path.{subst}
use vanadinite.Prelude.{
  ℕ, zero, suc, ◌+◌, ◌-◌, ◌*◌, ◌/◌, ◌%◌, ◌^◌, ◌<◌, ◌≤◌, ◌≡◌, ◌⊎◌, inl, inr, refl, sym, ap, ◌∙◌,
  true, false, ◌||◌, Option, none, some, List, [], ◌∷◌, leb, ltb, ◌==◌, if◌then◌else◌, arith,
  length, get_elem?, set, get_elem?-set, Bool-cases, Option-cases, is_none,
}
use vanadinite.Prelude.Bits.{bit, every_below, every_below_at}
use vanadinite.Bitmap.{
  BitmapAllocator, max_word, page_index, find_run, intra_loop, alloc_contig_intra, count_zeros,
  single_entry_size,
}
use vanadinite.Bitmap.Large.{
  get_range, all_zero, leading_zeros, inter_search, alloc_contig_inter, clear_full,
  dealloc_megapage,
}
use vanadinite.Bitmap.Pages.{used_in, page_used}

get_elem?-lt : (es : List ℕ) (i : ℕ) {x : ℕ} → get_elem? es i ≡ some x → i < length es
get_elem?-lt [] i h = absurd (ground arith)
get_elem?-lt (e ∷ es) zero h = omega arith
get_elem?-lt (e ∷ es) (suc i) h = omega (arith, get_elem?-lt es i h)

-- The free of a megapage that does not panic found 512 full entries from the page's on, and leaves
-- them all empty: a megapage has 8 entries, so the pages of 504 more are freed with it.
clear_full_lem :
    (es : List ℕ) (i n : ℕ) {es' : List ℕ}
    → clear_full es i n ≡ some es'
    → ((j : ℕ) → i ≤ j → j < i + n → (get_elem? es j ≡ some max_word) × (get_elem? es' j ≡ some 0))
      × ((j : ℕ) → (j < i) ⊎ (i + n ≤ j) → get_elem? es' j ≡ get_elem? es j)
unfolding clear_full
clear_full_lem es i zero {es'} h =
    ((λ j p q. absurd (omega arith)), λ j p. ap (λ l. get_elem? l j) (ground arith))
clear_full_lem es i (suc n) {es'} h = elim (Option-cases (get_elem? es i)) [
  | inl e ↦ absurd (ground arith)
  | inr (x, e) ↦ elim (Bool-cases (x == max_word)) [
    | inr no_full ↦ absurd (ground arith)
    | inl full ↦
        let (inside, outside) = clear_full_lem (set es i 0) (i + 1) n {es' = es'} (ground arith) in
        let written : (j : ℕ)
            → get_elem? (set es i 0) j ≡ (if i == j then some 0 else get_elem? es j) =
          λ j. get_elem?-set es i j 0 (get_elem?-lt es i e) in
        (
          λ j p q.
              by_index j p q (e ∙ ap some (let f : x ≡ max_word = ground arith in f)) (written j)
                (inside j) (outside j) (Bool-cases (i == j)),
          λ j away. outside j (elsewhere j away) ∙ written j ∙ ground arith,
        )
  ]
]
  where
    elsewhere : (j : ℕ) → (j < i) ⊎ (i + suc n ≤ j) → (j < i + 1) ⊎ (i + 1 + n ≤ j)
    elsewhere j (inl p) = inl (omega arith)
    elsewhere j (inr p) = inr (omega arith)

    by_index :
        (j : ℕ)
        → i ≤ j
        → j < i + suc n
        → get_elem? es i ≡ some max_word
        → get_elem? (set es i 0) j ≡ (if i == j then some 0 else get_elem? es j)
        → (i + 1 ≤ j
            → j < i + 1 + n
            → (get_elem? (set es i 0) j ≡ some max_word) × (get_elem? es' j ≡ some 0))
        → ((j < i + 1) ⊎ (i + 1 + n ≤ j) → get_elem? es' j ≡ get_elem? (set es i 0) j)
        → ((i == j) ≡ true) ⊎ ((i == j) ≡ false)
        → (get_elem? es j ≡ some max_word) × (get_elem? es' j ≡ some 0)
    by_index j p q at written inside outside (inl here) =
        let same : i ≡ j = ground arith in
        (
          subst (λ k. get_elem? es k ≡ some max_word) same at,
          outside (inl (omega arith)) ∙ written ∙ rw here refl,
        )
    by_index j p q at written inside outside (inr away) =
        let later : i + 1 ≤ j = ground arith in
        let (was, is) = inside later (omega arith) in (sym (written ∙ rw away refl) ∙ was, is)

-- A free of a megapage that does not panic has found 512 entries full, from the page's on, and has
-- cleared them all: the pages of the 504 entries after the megapage's own 8 are freed with it.
pub dealloc_megapage_lem :
    (a a' : BitmapAllocator) (page : ℕ)
    → dealloc_megapage a page ≡ some a'
    → (j : ℕ) → page_index a page ≤ j
    → j < page_index a page + 512
    → (get_elem? a.entries j ≡ some max_word) × (get_elem? a'.entries j ≡ some 0)
unfolding dealloc_megapage
dealloc_megapage_lem a a' page h j p q =
    let cleared : clear_full a.entries (page_index a page) 512 ≡ some a'.entries = ground arith in
    (clear_full_lem a.entries (page_index a page) 512 cleared).0 j p q

not_zero : (x : ℕ) → 0 < x → (x == 0) ≡ false
not_zero x p = ground arith

not_ltb : (x y : ℕ) → y ≤ x → ltb x y ≡ false
not_ltb x y p = ground arith

is_ltb : (x y : ℕ) → x < y → ltb x y ≡ true
is_ltb x y p = ground arith

first_empty :
    (fuel e last : ℕ) (es : List ℕ)
    → 0 < last
    → last ≤ leading_zeros 64 e
    → inter_search (suc fuel) (0 ∷ e ∷ es) 1 last 0 ≡ some 0
unfolding inter_search get_range all_zero
first_empty fuel e last es positive zeros =
    rw
      (
        inter_search,
        get_range,
        all_zero,
        not_zero last positive,
        not_ltb (leading_zeros 64 e) last zeros,
      )
      refl

-- If the first entry is empty, and the second has its highest `last` pages free and its lowest page
-- in use, then an allocation of `64 + last` pages returns the first page of memory: the pages that it
-- hands out include page 64, which is in use.
pub alloc_contig_inter_overlaps :
    (a : BitmapAllocator) (e : ℕ) (es : List ℕ) (last : ℕ)
    → a.entries ≡ 0 ∷ e ∷ es
    → 0 < last
    → last < 64
    → last ≤ leading_zeros 64 e
    → e % 2 ≡ 1
    → a.mem_start < a.mem_end
    → ((alloc_contig_inter a (64 + last)).1 ≡ some a.mem_start) × (page_used a 64 ≡ 1)
unfolding alloc_contig_inter
alloc_contig_inter_overlaps a e es last entries some_last small zeros used room =
    let whole : (64 + last) / 64 ≡ 1 = omega arith in
    let rest : (64 + last) % 64 ≡ last = omega arith in
    let count : length (0 ∷ e ∷ es) + 1 ≡ suc (suc (suc (length es))) = omega arith in
    let start : a.mem_start + 0 * single_entry_size ≡ a.mem_start = omega arith in
    (
      rw
          (
            alloc_contig_inter,
            entries,
            whole,
            rest,
            count,
            first_empty (suc (suc (length es))) e last es some_last zeros,
            start,
            is_ltb a.mem_start a.mem_end room,
          )
          refl,
      rw (entries, used_in) used,
    )

top_run : (n : ℕ) → n < 64 → ((n == 0) || is_none (find_run n (2 ^ (64 - n) - 1) 0 (64 - n))) ≡ true
unfolding find_run every_below
top_run n h =
    every_below_at 64 n (λ n. (n == 0) || is_none (find_run n (2 ^ (64 - n) - 1) 0 (64 - n))) h refl

top_free : (n : ℕ) → n < 64 → ((n == 0) || (bit 63 (2 ^ (64 - n) - 1) == 0)) ≡ true
unfolding every_below
top_free n h = every_below_at 64 n (λ n. (n == 0) || (bit 63 (2 ^ (64 - n) - 1) == 0)) h refl

none_of : {A : Type 0} → (n : ℕ) (o : Option A) → 0 < n → ((n == 0) || is_none o) ≡ true → o ≡ none
none_of n none p h = refl
none_of n (some x) p h = absurd (ground arith)

loop_misses :
    (mem_start mem_end n index entry : ℕ)
    → find_run n entry 0 (64 - n) ≡ none
    → intra_loop mem_start mem_end n index (entry ∷ []) ≡ (entry ∷ [], none)
unfolding intra_loop
loop_misses mem_start mem_end n index entry h = elim (Bool-cases (leb n (count_zeros 64 entry))) [
  | inl enough ↦ rw (intra_loop, enough, h) refl
  | inr few ↦ rw (intra_loop, few) refl
]

-- A run of `n` free pages at the top of an entry is not found: with the other pages of the only entry
-- in use, an allocation of `n` pages, for `n` from 1 to 63, returns nothing.
pub alloc_contig_intra_misses :
    (a : BitmapAllocator) (n : ℕ)
    → 0 < n
    → n < 64
    → a.entries ≡ (2 ^ (64 - n) - 1) ∷ []
    → (alloc_contig_intra a n ≡ (a, none)) × (page_used a 63 ≡ 0)
unfolding alloc_contig_intra
alloc_contig_intra_misses a n positive small entries =
    let single : (n == 64) ≡ false = ground arith in
    let missed =
      loop_misses a.mem_start a.mem_end n 0 (2 ^ (64 - n) - 1)
        (none_of n (find_run n (2 ^ (64 - n) - 1) 0 (64 - n)) positive (top_run n small)) in
    (
      rw (alloc_contig_intra, single, entries, missed) refl,
      rw (entries, used_in) (zero_of (bit 63 (2 ^ (64 - n) - 1)) (top_free n small)),
    )
  where
    zero_of : (x : ℕ) → ((n == 0) || (x == 0)) ≡ true → x ≡ 0
    zero_of x h = ground arith

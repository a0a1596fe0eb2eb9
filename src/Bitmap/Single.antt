-- ===== src/Bitmap/Single.antt =====
-- Allocating and freeing one page (src/kernel/vanadinite/src/mem/phys/bitmap.rs).
use Prim.Native.Nat.{bit_or}
use vanadinite.Prelude.{
  ℕ, zero, suc, ◌+◌, ◌-◌, ◌*◌, ◌/◌, ◌%◌, ◌^◌, ◌<◌, ◌≤◌, ◌≡◌, ◌≢◌, ◌⊎◌, inl, inr, refl, ap, ◌∙◌,
  none, some, List, [], ◌∷◌, leb, ◌==◌, if◌then◌else◌, arith, get_elem?, set, Bool-cases,
  Option-cases,
}
use vanadinite.Prelude.Bits.{bit, bit_or-lt, bit-zero, bit-complement}
use vanadinite.Bitmap.{
  BitmapAllocator, max_word, single_entry_size, find_not_full, trailing_ones, alloc_kilopage,
}
use vanadinite.Bitmap.Words.{bit-set_bit, trailing_ones_lem, pow-lt}
use vanadinite.Bitmap.Pages.{used_in, page_used, IsWords, IsWords-set, IsWords-get, used-set}

find_not_full_lem :
    (k index e : ℕ) (es : List ℕ)
    → find_not_full k es ≡ some (index, e)
    → (k ≤ index) × (get_elem? es (index - k) ≡ some e) × (e ≢ max_word)
unfolding find_not_full
find_not_full_lem k index e [] h = absurd (ground arith)
find_not_full_lem k index e (x ∷ es) h = elim (Bool-cases (x == max_word)) [
  | inr free ↦
      let here : k ≡ index = ground arith in
      let same : x ≡ e = ground arith in
      let first : index - k ≡ 0 = omega arith in
      (omega arith, rw first (ap some same), λ full. ground arith)
  | inl full ↦
      let (le, found, free) = find_not_full_lem (k + 1) index e es (ground arith) in
      let later : index - k ≡ suc (index - (k + 1)) = omega arith in
      (omega arith, rw later found, free)
]

full_lem :
    (k page : ℕ) (es : List ℕ)
    → find_not_full k es ≡ none
    → (i : ℕ) (e : ℕ) → get_elem? es i ≡ some e
    → e ≡ max_word
unfolding find_not_full
full_lem k page [] h i e g = absurd (ground arith)
full_lem k page (x ∷ es) h zero e g = ground arith
full_lem k page (x ∷ es) h (suc i) e g = full_lem (k + 1) page es (ground arith) i e g

-- What a call that hands out the page with number `n` has done: that page was free and is used, and
-- every other page is as it was.
abbrev pub Taken : BitmapAllocator → BitmapAllocator → ℕ → Type 0
Taken a a' n =
    (page_used a n ≡ 0)
    × ((q : ℕ) → page_used a' q ≡ (if q == n then 1 else page_used a q))
    × IsWords a'.entries
    × (a'.mem_start ≡ a.mem_start)
    × (a'.mem_end ≡ a.mem_end)

take_bit :
    (a : BitmapAllocator) (index entry b : ℕ)
    → IsWords a.entries
    → get_elem? a.entries index ≡ some entry
    → b < 64
    → bit b entry ≡ 0
    → Taken a (record a { entries = set a.entries index (bit_or entry (2 ^ b)) }) (index * 64 + b)
take_bit a index entry b words found small clear =
    let (word, inside) = IsWords-get a.entries index entry words found in
    let quotient : (index * 64 + b) / 64 ≡ index = omega arith in
    let remainder : (index * 64 + b) % 64 ≡ b = omega arith in
    (
      rw (quotient, found, remainder, used_in) clear,
      used-set a.entries index b entry (bit_or entry (2 ^ b)) 1 found inside small
          (λ j lt. bit-set_bit j b entry),
      IsWords-set a.entries index (bit_or entry (2 ^ b)) words
          (bit_or-lt 64 entry (2 ^ b) word (pow-lt b small)),
      refl,
      refl,
    )

full_pages : (a : BitmapAllocator) → find_not_full 0 a.entries ≡ none → (n : ℕ) → page_used a n ≡ 1
full_pages a h n = elim (Option-cases (get_elem? a.entries (n / 64))) [
  | inl e ↦ rw (e, used_in) refl
  | inr (word, e) ↦
      let full = full_lem 0 n a.entries h (n / 64) word e in
      let all_set : bit (n % 64) (2 ^ 64 - 1 - 0) ≡ 1 - bit (n % 64) 0 =
        bit-complement 64 (n % 64) 0 (omega arith) (omega arith) in
      rw (e, used_in) (ap (bit (n % 64)) full ∙ all_set ∙ omega (arith, bit-zero (n % 64)))
]

-- Over 64-bit entries, `alloc` for one page of 4 KiB either hands out a page that was free, which is
-- in use afterwards while all others are as before, and whose address is at most `mem_end`; or it
-- changes nothing, and then every page of the bitmap is in use or one that is free lies above
-- `mem_end`.
pub alloc_kilopage_lem :
    (a : BitmapAllocator)
    → IsWords a.entries
    → ((n : ℕ) × (a' : BitmapAllocator) × (alloc_kilopage a ≡ (a', some (a.mem_start + n * 4096)))
        × (a.mem_start + n * 4096 ≤ a.mem_end)
        × Taken a a' n)
      ⊎ ((alloc_kilopage a ≡ (a, none))
          × (((n : ℕ) → page_used a n ≡ 1)
              ⊎ ((n : ℕ) × (page_used a n ≡ 0) × (a.mem_end < a.mem_start + n * 4096))))
unfolding alloc_kilopage
alloc_kilopage_lem a words = elim (Option-cases (find_not_full 0 a.entries)) [
  | inl e ↦ inr (rw (e, alloc_kilopage) refl, inl (full_pages a e))
  | inr ((index, entry), e) ↦
      let (_, found, free) = find_not_full_lem 0 index entry a.entries e in
      let zeroth : index ≡ index - 0 = omega arith in
      let at : get_elem? a.entries index ≡ some entry = rw zeroth found in
      let (word, inside) = IsWords-get a.entries index entry words at in
      let (small, clear) = trailing_ones_lem 64 entry word free in
      let b = trailing_ones 64 entry in
      let n = index * 64 + b in
      let taken = take_bit a index entry b words at small clear in
      let address : a.mem_start + index * single_entry_size + b * 4096 ≡ a.mem_start + n * 4096 =
        omega arith in
      elim (Bool-cases (leb (a.mem_start + index * single_entry_size + b * 4096) a.mem_end)) [
        | inl within ↦ inl (
          n,
          record a { entries = set a.entries index (bit_or entry (2 ^ b)) },
          rw (e, alloc_kilopage)
              (rw within (
                ap
                  (λ (p : ℕ).
                    (record a { entries = set a.entries index (bit_or entry (2 ^ b)) }, some p))
                  address)),
          ground arith,
          taken,
        )
        | inr beyond ↦ inr (rw (e, alloc_kilopage) (rw beyond refl), inr (n, taken.0, ground arith))
      ]
]

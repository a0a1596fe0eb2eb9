-- ===== src/Bitmap/Freeing.antt =====
-- Freeing and marking one page (src/kernel/vanadinite/src/mem/phys/bitmap.rs).
use Prim.Native.Nat.{bit_or, bit_and}
use mathlib.Core.Path.{subst}
use vanadinite.Prelude.{
  ℕ, ◌+◌, ◌-◌, ◌*◌, ◌/◌, ◌%◌, ◌^◌, ◌≡◌, ◌⊎◌, inl, inr, refl, ap, ◌∙◌, none, some, ◌==◌,
  if◌then◌else◌, arith, get_elem?, set, Bool-cases, Option-cases,
}
use vanadinite.Prelude.Bits.{bit, bit_shift, bit_and-le}
use vanadinite.Bitmap.{
  BitmapAllocator, max_word, page_index, page_bit, set_used, set_unused, dealloc_kilopage,
}
use vanadinite.Bitmap.Words.{bit-set_bit, bit-clear_bit}
use vanadinite.Bitmap.Pages.{used_in, page_used, IsWords, IsWords-set, IsWords-get, used-set}

-- The page with number `n` is free afterwards, and every other page is as it was.
abbrev pub Released : BitmapAllocator → BitmapAllocator → ℕ → Type 0
Released a a' n =
    ((q : ℕ) → page_used a' q ≡ (if q == n then 0 else page_used a q)) × IsWords a'.entries

module _ (a : BitmapAllocator) (n : ℕ) where
  abbrev page : ℕ
  page = a.mem_start + n * 4096

  abbrev i : ℕ
  i = page_index a page

  abbrev b : ℕ
  b = page_bit a page

  number : i * 64 + b ≡ n
  number = omega arith

  at_index :
      (entry : ℕ) → get_elem? a.entries (n / 64) ≡ some entry → get_elem? a.entries i ≡ some entry
  at_index entry e =
      let same : n / 64 ≡ i = omega arith in subst (λ k. get_elem? a.entries k ≡ some entry) same e

  none_at : get_elem? a.entries (n / 64) ≡ none → get_elem? a.entries i ≡ none
  none_at e =
      let same : n / 64 ≡ i = omega arith in subst (λ k. get_elem? a.entries k ≡ none) same e

  state : (entry : ℕ) → get_elem? a.entries (n / 64) ≡ some entry → page_used a n ≡ bit b entry
  state entry e =
      let same : n % 64 ≡ b = omega arith in rw (e, used_in) (ap (λ k. bit k entry) same)

  cleared :
      (entry : ℕ)
      → IsWords a.entries
      → get_elem? a.entries (n / 64) ≡ some entry
      → Released a (record a { entries = set a.entries i (bit_and entry (max_word - 2 ^ b)) }) n
  cleared entry words e =
      let (word, inside) = IsWords-get a.entries i entry words (at_index entry e) in
      let change =
        used-set a.entries i b entry (bit_and entry (max_word - 2 ^ b)) 0 (at_index entry e) inside
          (omega arith) (λ j lt. bit-clear_bit j b entry lt (omega arith)) in
      (
        λ q. change q ∙ ap (λ k. if q == k then 0 else page_used a q) number,
        IsWords-set a.entries i (bit_and entry (max_word - 2 ^ b)) words
            (bit_and-le 64 entry (max_word - 2 ^ b) word),
      )

  -- Over 64-bit entries, freeing the page with number `n` panics exactly if the bitmap does not cover
  -- the page or the page is not in use; otherwise the page is free afterwards and all others are as
  -- before.
  pub dealloc_kilopage_lem :
      IsWords a.entries
      → ((dealloc_kilopage a page ≡ none)
          × ((get_elem? a.entries (n / 64) ≡ none) ⊎ (page_used a n ≡ 0)))
        ⊎ ((a' : BitmapAllocator) × (dealloc_kilopage a page ≡ some a')
            × (page_used a n ≡ 1)
            × Released a a' n)
  unfolding dealloc_kilopage
  dealloc_kilopage_lem words = elim (Option-cases (get_elem? a.entries (n / 64))) [
    | inl e ↦ inl (rw (none_at e, dealloc_kilopage) refl, inl e)
    | inr (entry, e) ↦ elim (Bool-cases (entry / 2 ^ b % 2 == 1)) [
      | inl taken ↦ inr (
        record a { entries = set a.entries i (bit_and entry (max_word - 2 ^ b)) },
        rw (at_index entry e, dealloc_kilopage) (rw taken refl),
        state entry e ∙ bit_shift b entry ∙ ground arith,
        cleared entry words e,
      )
      | inr free ↦ inl (
        rw (at_index entry e, dealloc_kilopage) (rw free refl),
        inr (state entry e ∙ bit_shift b entry ∙ ground arith),
      )
    ]
  ]

  -- Over 64-bit entries that cover the page with number `n`, `set_used` and `set_unused` do not panic;
  -- they make that page used and free, and leave every other page.
  pub set_used_lem :
      (entry : ℕ)
      → IsWords a.entries
      → get_elem? a.entries (n / 64) ≡ some entry
      → ((a' : BitmapAllocator) × (set_used a page ≡ some a')
          × ((q : ℕ) → page_used a' q ≡ (if q == n then 1 else page_used a q)))
        × ((a' : BitmapAllocator) × (set_unused a page ≡ some a') × Released a a' n)
  unfolding set_used set_unused
  set_used_lem entry words e =
      let (word, inside) = IsWords-get a.entries i entry words (at_index entry e) in
      let change =
        used-set a.entries i b entry (bit_or entry (2 ^ b)) 1 (at_index entry e) inside
          (omega arith) (λ j lt. bit-set_bit j b entry) in
      (
        (
          record a { entries = set a.entries i (bit_or entry (2 ^ b)) },
          rw (at_index entry e, set_used) refl,
          λ q. change q ∙ ap (λ k. if q == k then 1 else page_used a q) number,
        ),
        (
          record a { entries = set a.entries i (bit_and entry (max_word - 2 ^ b)) },
          rw (at_index entry e, set_unused) refl,
          cleared entry words e,
        ),
      )

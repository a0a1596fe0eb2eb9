-- ===== src/Bitmap/Pages.antt =====
-- The view of the bitmap as a set of page numbers, counted from `mem_start`.
use mathlib.Core.Path.{subst}
use vanadinite.Prelude.{
  ℕ, zero, suc, ◌+◌, ◌*◌, ◌/◌, ◌%◌, ◌^◌, ◌<◌, ◌≡◌, inl, inr, refl, ◌∙◌, false, none, some, List, [],
  ◌∷◌, ◌==◌, if◌then◌else◌, arith, length, get_elem?, set, get_elem?-set, Bool-cases,
}
use vanadinite.Prelude.Bits.{bit}
use vanadinite.Bitmap.{BitmapAllocator}

-- 1 for a page that is in use, or that the bitmap does not cover.
abbrev pub used_in : List ℕ → ℕ → ℕ
used_in es page = elim (get_elem? es (page / 64)) [ none ↦ 1 | some e ↦ bit (page % 64) e ]

abbrev pub page_used : BitmapAllocator → ℕ → ℕ
page_used a page = used_in a.entries page

abbrev pub IsWords : List ℕ → Type 0
IsWords [] = Unit
IsWords (e ∷ es) = (e < 2 ^ 64) × IsWords es

pub IsWords-set : (es : List ℕ) (i v : ℕ) → IsWords es → v < 2 ^ 64 → IsWords (set es i v)
IsWords-set [] i v w h = tt
IsWords-set (e ∷ es) zero v w h = (h, w.1)
IsWords-set (e ∷ es) (suc i) v w h = (w.0, IsWords-set es i v w.1 h)

pub IsWords-get :
    (es : List ℕ) (i e : ℕ) → IsWords es → get_elem? es i ≡ some e → (e < 2 ^ 64) × (i < length es)
IsWords-get [] i e w h = absurd (ground arith)
IsWords-get (x ∷ es) zero e w h = (ground arith, omega arith)
IsWords-get (x ∷ es) (suc i) e w h =
    let (small, inside) = IsWords-get es i e w.1 h in (small, omega arith)

-- Writing an entry that differs in one bit changes the state of one page.
pub used-set :
    (es : List ℕ) (i b e e' v : ℕ)
    → get_elem? es i ≡ some e
    → i < length es
    → b < 64
    → ((j : ℕ) → j < 64 → bit j e' ≡ (if j == b then v else bit j e))
    → (page : ℕ) → used_in (set es i e') page ≡ (if page == i * 64 + b then v else used_in es page)
used-set es i b e e' v found inside small bits page = elim (Bool-cases (i == page / 64)) [
  | inl here ↦
      let at : i ≡ page / 64 = ground arith in
      let new : get_elem? (set es i e') (page / 64) ≡ some e' =
        get_elem?-set es i (page / 64) e' inside ∙ rw here refl in
      let old : get_elem? es (page / 64) ≡ some e = subst (λ k. get_elem? es k ≡ some e) at found in
      let test : (page == i * 64 + b) ≡ (page % 64 == b) = ground arith in
      rw (new, old, test, used_in) (bits (page % 64) (omega arith))
  | inr away ↦
      let new : get_elem? (set es i e') (page / 64) ≡ get_elem? es (page / 64) =
        get_elem?-set es i (page / 64) e' inside ∙ rw away refl in
      let test : (page == i * 64 + b) ≡ false = ground arith in rw (new, test, used_in) refl
]

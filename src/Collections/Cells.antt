-- ===== src/Collections/Cells.antt =====
-- Lists of nodes, each with its address and its value, in the order of a container.
use mathlib.Core.Path.{subst}
use vanadinite.Prelude.{
  ◌≡◌, ◌⊎◌, inl, inr, refl, sym, ap, Bool, true, false, ◌||◌, Option, some, List, [], ◌∷◌, ◌++◌,
  ◌==◌, arith, Bool-cases,
}
use vanadinite.Collections.Store.{Ptr}

module _ {T : Type 0} where
  abbrev pub has : Ptr → List (Ptr × T) → Bool
  has a [] = false
  has a ((p, _) ∷ xs) = (a == p) || has a xs

  abbrev pub first : List (Ptr × T) → Option Ptr → Option Ptr
  first [] after = after
  first ((p, _) ∷ xs) after = some p

  abbrev pub last_of : List (Ptr × T) → Option Ptr → Option Ptr
  last_of [] before = before
  last_of ((p, _) ∷ xs) before = last_of xs (some p)

  abbrev pub Apart : List (Ptr × T) → List (Ptr × T) → Type 0
  Apart [] ys = Unit
  Apart ((p, _) ∷ xs) ys = (has p ys ≡ false) × Apart xs ys

  pub first-append :
      (xs ys : List (Ptr × T)) (after : Option Ptr)
      → first (xs ++ ys) after ≡ first xs (first ys after)
  first-append [] ys after = refl
  first-append (x ∷ xs) ys after = refl

  pub has-append : (a : Ptr) (xs ys : List (Ptr × T)) → has a (xs ++ ys) ≡ (has a xs || has a ys)
  has-append a [] ys = refl
  has-append a (x ∷ xs) ys = ground (arith, has-append a xs ys)

  pub last_of-append :
      (xs : List (Ptr × T)) (q : Ptr) (w : T) (before : Option Ptr)
      → last_of (xs ++ (q, w) ∷ []) before ≡ some q
  last_of-append [] q w before = refl
  last_of-append ((p, v) ∷ xs) q w before = last_of-append xs q w (some p)

  pub Apart-has :
      (xs ys : List (Ptr × T)) (q : Ptr) → Apart xs ys → has q xs ≡ true → has q ys ≡ false
  Apart-has [] ys q h m = absurd (ground arith)
  Apart-has ((p, v) ∷ xs) ys q (away, rest) m = elim (Bool-cases (q == p)) [
    | inl here ↦ let e : q ≡ p = ground arith in subst (λ k. has k ys ≡ false) (sym e) away
    | inr other ↦ Apart-has xs ys q rest (ground arith)
  ]

  pub Apart-cons :
      (xs ys : List (Ptr × T)) (q : Ptr) (w : T)
      → has q xs ≡ false
      → Apart xs ys
      → Apart xs ((q, w) ∷ ys)
  Apart-cons [] ys q w out h = tt
  Apart-cons ((p, v) ∷ xs) ys q w out (away, rest) =
      (ground arith, Apart-cons xs ys q w (ground arith) rest)

  pub Apart-tail :
      (xs ys : List (Ptr × T)) (y : Ptr × T)
      → Apart xs (y ∷ ys)
      → Apart xs ys × (has y.0 xs ≡ false)
  Apart-tail [] ys y h = (tt, refl)
  Apart-tail ((p, v) ∷ xs) ys y (away, rest) =
      let (r, o) = Apart-tail xs ys y rest in ((ground arith, r), ground arith)

  pub snoc_cases :
      (xs : List (Ptr × T))
      → (xs ≡ []) ⊎ ((ys : List (Ptr × T)) × (q : Ptr) × (w : T) × (xs ≡ ys ++ (q, w) ∷ []))
  snoc_cases [] = inl refl
  snoc_cases ((p, v) ∷ xs) = elim (snoc_cases xs) [
    | inl empty ↦ inr ([], p, v, ap (λ (l : List (Ptr × T)). (p, v) ∷ l) empty)
    | inr (ys, q, w, e) ↦ inr ((p, v) ∷ ys, q, w, ap (λ (l : List (Ptr × T)). (p, v) ∷ l) e)
  ]

  abbrev pub values : List (Ptr × T) → List T
  values [] = []
  values ((_, v) ∷ xs) = v ∷ values xs

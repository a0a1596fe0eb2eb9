-- ===== src/Collections/Doubly/Chains.antt =====
-- Chains of nodes that are linked both ways, and what stays of them under writes.
use mathlib.Core.Path.{subst}
use vanadinite.Prelude.{
  ◌≡◌, inl, inr, refl, sym, ◌∙◌, true, false, Option, none, some, List, [], ◌∷◌, ◌++◌, ◌==◌,
  if◌then◌else◌, arith, length, Bool-cases,
}
use vanadinite.Collections.Store.{Ptr, Store, Run, done, put, IsPool, Grown}
use vanadinite.Collections.Cells.{has, first, last_of, Apart, first-append, has-append, Apart-tail}
use vanadinite.Collections.Doubly.{Node, DoublyLinkedList}

module _ {T : Type 0} where
  abbrev pub node : T → Option Ptr → Option Ptr → Node T
  node v p q = record { value = v; prev = p; next = q }

  -- The `next` pointers lead through the distinct nodes `xs` to `after`, and the `prev` pointers back
  -- to `before`.
  abbrev pub Chain : (Ptr → Option (Node T)) → Option Ptr → List (Ptr × T) → Option Ptr → Type 0
  Chain c before [] after = Unit
  Chain c before ((p, v) ∷ xs) after =
      (c p ≡ some (node v before (first xs after))) × (has p xs ≡ false) × Chain c (some p) xs after

  -- The list stands for the nodes `xs`, and the allocator is ready.
  abbrev pub IsList : Store (Node T) → DoublyLinkedList → List (Ptr × T) → Type 0
  IsList s l xs =
      (l.head ≡ first xs none)
      × (l.tail ≡ last_of xs none)
      × (l.len ≡ length xs)
      × Chain s.cell none xs none
      × IsPool s.cell s.pool

  -- The call returns `r`, and its list then stands for `xs`.
  abbrev pub Gives :
      {A : Type 0} → Run (Node T) (DoublyLinkedList × A) → A → List (Ptr × T) → Type 0
  Gives run r xs =
      (l : DoublyLinkedList) × (s : Store (Node T)) × (run ≡ done (l, r) s) × IsList s l xs

  pub Chain-frame :
      (c d : Ptr → Option (Node T)) (before : Option Ptr) (xs : List (Ptr × T)) (after : Option Ptr)
      → ((a : Ptr) → has a xs ≡ true → d a ≡ c a)
      → Chain c before xs after
      → Chain d before xs after
  Chain-frame c d before [] after same h = tt
  Chain-frame c d before ((p, v) ∷ xs) after same (at, out, rest) = (
    same p (ground arith) ∙ at,
    out,
    Chain-frame c d (some p) xs after (λ a m. same a (ground (arith, m))) rest,
  )

  pub Chain-put :
      (s : Store (Node T)) (q : Ptr) (n : Option (Node T)) (before : Option Ptr)
      (xs : List (Ptr × T)) (after : Option Ptr)
      → has q xs ≡ false
      → Chain s.cell before xs after
      → Chain (put s q n).cell before xs after
  Chain-put s q n before xs after out h = Chain-frame s.cell (put s q n).cell before xs after same h
    where
      same : (a : Ptr) → has a xs ≡ true → (put s q n).cell a ≡ s.cell a
      same a m = elim (Bool-cases (a == q)) [
        | inr other ↦ rw other refl
        | inl here ↦
            let e : a ≡ q = ground arith in
            let bad : has q xs ≡ true = subst (λ k. has k xs ≡ true) e m in absurd (ground arith)
      ]

  pub Chain-append :
      (c : Ptr → Option (Node T)) (before : Option Ptr) (xs ys : List (Ptr × T))
      (after : Option Ptr)
      → Chain c before (xs ++ ys) after
      → Chain c before xs (first ys after) × Chain c (last_of xs before) ys after × Apart xs ys
  Chain-append c before [] ys after h = (tt, h, tt)
  Chain-append c before ((p, v) ∷ xs) ys after (at, out, rest) =
      let (left, right, apart) = Chain-append c (some p) xs ys after rest in
      (
        (rw (sym (first-append xs ys after)) at, ground (arith, has-append p xs ys), left),
        right,
        (ground (arith, has-append p xs ys), apart),
      )

  pub append-Chain :
      (c : Ptr → Option (Node T)) (before : Option Ptr) (xs ys : List (Ptr × T))
      (after : Option Ptr)
      → Chain c before xs (first ys after)
      → Chain c (last_of xs before) ys after
      → Apart xs ys
      → Chain c before (xs ++ ys) after
  append-Chain c before [] ys after left right apart = right
  append-Chain c before ((p, v) ∷ xs) ys after (at, out, left) right (away, apart) = (
    rw (first-append xs ys after) at,
    ground (arith, has-append p xs ys),
    append-Chain c (some p) xs ys after left right apart,
  )

  pub has-none :
      (c : Ptr → Option (Node T)) (before : Option Ptr) (xs : List (Ptr × T)) (after : Option Ptr)
      (a : Ptr)
      → Chain c before xs after
      → c a ≡ none
      → has a xs ≡ false
  has-none c before [] after a h free = refl
  has-none c before ((p, v) ∷ xs) after a (at, out, rest) free = elim (Bool-cases (a == p)) [
    | inl here ↦
        let e : a ≡ p = ground arith in
        let clash : none ≡ some (node v before (first xs after)) =
          sym (subst (λ k. c k ≡ none) e free) ∙ at in
        absurd (ground arith)
    | inr other ↦ ground (arith, has-none c (some p) xs after a rest free)
  ]

  -- The last node of a chain can be pointed elsewhere.
  pub retarget :
      (s : Store (Node T)) (before : Option Ptr) (xs : List (Ptr × T)) (after : Option Ptr)
      (q : Ptr) (w : T)
      → Chain s.cell before (xs ++ (q, w) ∷ []) after
      → (s.cell q ≡ some (node w (last_of xs before) after))
        × ((to : Option Ptr)
            → Chain
                (put s q (some (node w (last_of xs before) to))).cell
                before
                (xs ++ (q, w) ∷ [])
                to)
  retarget s before xs after q w h =
      let (left, (at, out, _), apart) = Chain-append s.cell before xs ((q, w) ∷ []) after h in
      let (_, away) = Apart-tail xs [] (q, w) apart in
      (
        at,
        λ to.
            append-Chain (put s q (some (node w (last_of xs before) to))).cell before xs
              ((q, w) ∷ []) to
              (Chain-put s q (some (node w (last_of xs before) to)) before xs (some q) away left)
              (ground arith, refl, tt) apart,
      )

  pub Grown-Chain :
      (s s' : Store (Node T)) (n : Node T) (p : Ptr) (before : Option Ptr) (xs : List (Ptr × T))
      (after : Option Ptr)
      → Grown s n p s'
      → Chain s.cell before xs after
      → Chain s'.cell before xs after × (has p xs ≡ false)
  Grown-Chain s s' n p before xs after g h =
      let out = has-none s.cell before xs after p h g.free in
      (Chain-frame s.cell s'.cell before xs after (λ a m. g.cells a ∙ same a m out) h, out)
    where
      same :
          (a : Ptr)
          → has a xs ≡ true
          → has p xs ≡ false
          → (if a == p then some n else s.cell a) ≡ s.cell a
      same a m out = elim (Bool-cases (a == p)) [
        | inr other ↦ rw other refl
        | inl here ↦
            let e : a ≡ p = ground arith in
            let bad : has p xs ≡ true = subst (λ k. has k xs ≡ true) e m in absurd (ground arith)
      ]

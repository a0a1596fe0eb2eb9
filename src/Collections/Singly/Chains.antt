-- ===== src/Collections/Singly/Chains.antt =====
-- Chains of nodes, and what stays of them under writes.
use mathlib.Core.Path.{subst}
use vanadinite.Prelude.{
  ◌≡◌, inl, inr, refl, sym, ◌∙◌, true, false, Option, none, some, List, [], ◌∷◌, ◌++◌, ◌==◌, arith,
  length, Bool-cases,
}
use vanadinite.Collections.Store.{Ptr, Store, put, IsPool}
use vanadinite.Collections.Cells.{has, first, Apart, first-append, has-append, Apart-tail}
use vanadinite.Collections.Singly.{Node, SinglyLinkedList}

module _ {T : Type 0} where
  abbrev pub node : T → Option Ptr → Node T
  node v q = record { value = v; next = q }

  -- The `next` pointers lead through the distinct nodes `xs` to `after`.
  abbrev pub Chain : (Ptr → Option (Node T)) → List (Ptr × T) → Option Ptr → Type 0
  Chain c [] after = Unit
  Chain c ((p, v) ∷ xs) after =
      (c p ≡ some (node v (first xs after))) × (has p xs ≡ false) × Chain c xs after

  pub Chain-frame :
      (c d : Ptr → Option (Node T)) (xs : List (Ptr × T)) (after : Option Ptr)
      → ((a : Ptr) → has a xs ≡ true → d a ≡ c a)
      → Chain c xs after
      → Chain d xs after
  Chain-frame c d [] after same h = tt
  Chain-frame c d ((p, v) ∷ xs) after same (at, out, rest) = (
    same p (ground arith) ∙ at,
    out,
    Chain-frame c d xs after (λ a m. same a (ground (arith, m))) rest,
  )

  pub Chain-put :
      (s : Store (Node T)) (q : Ptr) (n : Option (Node T)) (xs : List (Ptr × T))
      (after : Option Ptr)
      → has q xs ≡ false
      → Chain s.cell xs after
      → Chain (put s q n).cell xs after
  Chain-put s q n xs after out h = Chain-frame s.cell (put s q n).cell xs after same h
    where
      same : (a : Ptr) → has a xs ≡ true → (put s q n).cell a ≡ s.cell a
      same a m = elim (Bool-cases (a == q)) [
        | inr other ↦ rw other refl
        | inl here ↦
            let e : a ≡ q = ground arith in
            let bad : has q xs ≡ true = subst (λ k. has k xs ≡ true) e m in absurd (ground arith)
      ]

  pub Chain-append :
      (c : Ptr → Option (Node T)) (xs ys : List (Ptr × T)) (after : Option Ptr)
      → Chain c (xs ++ ys) after
      → Chain c xs (first ys after) × Chain c ys after × Apart xs ys
  Chain-append c [] ys after h = (tt, h, tt)
  Chain-append c ((p, v) ∷ xs) ys after (at, out, rest) =
      let (left, right, apart) = Chain-append c xs ys after rest in
      (
        (rw (sym (first-append xs ys after)) at, ground (arith, has-append p xs ys), left),
        right,
        (ground (arith, has-append p xs ys), apart),
      )

  pub append-Chain :
      (c : Ptr → Option (Node T)) (xs ys : List (Ptr × T)) (after : Option Ptr)
      → Chain c xs (first ys after)
      → Chain c ys after
      → Apart xs ys
      → Chain c (xs ++ ys) after
  append-Chain c [] ys after left right apart = right
  append-Chain c ((p, v) ∷ xs) ys after (at, out, left) right (away, apart) = (
    rw (first-append xs ys after) at,
    ground (arith, has-append p xs ys),
    append-Chain c xs ys after left right apart,
  )

  -- A node that is not allocated is in no chain.
  pub has-none :
      (c : Ptr → Option (Node T)) (xs : List (Ptr × T)) (after : Option Ptr) (a : Ptr)
      → Chain c xs after
      → c a ≡ none
      → has a xs ≡ false
  has-none c [] after a h free = refl
  has-none c ((p, v) ∷ xs) after a (at, out, rest) free = elim (Bool-cases (a == p)) [
    | inl here ↦
        let e : a ≡ p = ground arith in
        let clash : none ≡ some (node v (first xs after)) =
          sym (subst (λ k. c k ≡ none) e free) ∙ at in
        absurd (ground arith)
    | inr other ↦ ground (arith, has-none c xs after a rest free)
  ]

  -- The last node of a chain can be pointed elsewhere.
  pub retarget :
      (s : Store (Node T)) (xs : List (Ptr × T)) (after : Option Ptr) (q : Ptr) (w : T)
      → Chain s.cell (xs ++ (q, w) ∷ []) after
      → (s.cell q ≡ some (node w after))
        × ((to : Option Ptr) → Chain (put s q (some (node w to))).cell (xs ++ (q, w) ∷ []) to)
  retarget s xs after q w h =
      let (left, (at, out, _), apart) = Chain-append s.cell xs ((q, w) ∷ []) after h in
      let (_, away) = Apart-tail xs [] (q, w) apart in
      (
        at,
        λ to.
            append-Chain (put s q (some (node w to))).cell xs ((q, w) ∷ []) to
              (Chain-put s q (some (node w to)) xs (some q) away left) (ground arith, refl, tt)
              apart,
      )

  -- The list stands for the nodes `xs`, and the allocator is ready.
  abbrev pub IsList : Store (Node T) → SinglyLinkedList → List (Ptr × T) → Type 0
  IsList s l xs =
      (l.head ≡ first xs none) × (l.len ≡ length xs) × Chain s.cell xs none × IsPool s.cell s.pool

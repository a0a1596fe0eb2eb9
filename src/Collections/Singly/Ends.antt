-- ===== src/Collections/Singly/Ends.antt =====
-- The operations at the two ends of a `SinglyLinkedList`
-- (src/shared/collections/src/linked_list/singly.rs).
use mathlib.Core.Path.{subst}
use vanadinite.Prelude.{
  ℕ, zero, suc, ◌+◌, ◌<◌, ◌≡◌, ◌⊎◌, inl, inr, refl, sym, ap, ◌∙◌, true, false, Option, none, some,
  List, [], ◌∷◌, ◌++◌, ◌==◌, if◌then◌else◌, arith, length, length-append, Bool-cases,
}
use vanadinite.Collections.Store.{
  Ptr, Store, put, IsPool-put, done, allocated, alloc_error, load_lem, modify_lem, allocate_lem,
  Grown,
}
use vanadinite.Collections.Singly.{Node, SinglyLinkedList, push_front, last_loop, last_node}
use vanadinite.Collections.Cells.{has, first}
use vanadinite.Collections.Singly.Chains.{node, Chain, IsList, Chain-frame, Chain-put, has-none}

abbrev pub longer : SinglyLinkedList → Option Ptr → SinglyLinkedList
longer l head = record { head = head; len = l.len + 1 }

module _ {T : Type 0} where
  -- A chain stays over an allocation, and does not hold the new node.
  pub Grown-Chain :
      (s s' : Store (Node T)) (n : Node T) (p : Ptr) (xs : List (Ptr × T)) (after : Option Ptr)
      → Grown s n p s'
      → Chain s.cell xs after
      → Chain s'.cell xs after × (has p xs ≡ false)
  Grown-Chain s s' n p xs after g h =
      let out = has-none s.cell xs after p h g.free in
      (Chain-frame s.cell s'.cell xs after (λ a m. g.cells a ∙ same a m out) h, out)
    where
      same :
          (a : Ptr)
          → has a xs ≡ true
          → has p xs ≡ false
          → (if a == p then some n else s.cell a) ≡ s.cell a
      same a m out = elim (Bool-cases (a == p)) [
        | inr other ↦ rw other refl
        | inl here ↦
            let e : a ≡ p = ground arith in
            let bad : has p xs ≡ true = subst (λ k. has k xs ≡ true) e m in absurd (ground arith)
      ]

  -- `push_front` fails without an effect, or puts a new node before the list.
  pub push_front_lem :
      (s : Store (Node T)) (l : SinglyLinkedList) (xs : List (Ptr × T)) (v : T)
      → IsList s l xs
      → ((s.pool ≡ []) × (push_front l v s ≡ done (l, alloc_error) s))
        ⊎ ((p : Ptr) × (s' : Store (Node T)) × (push_front l v s
              ≡ done (longer l (some p), allocated) s')
            × IsList s' (longer l (some p)) ((p, v) ∷ xs))
  unfolding push_front
  push_front_lem s l xs v (head, len, chain, pool) = elim (allocate_lem s (node v none) pool) [
    | inl (empty, e) ↦ inl (empty, rw (push_front, e) refl)
    | inr (p, s', g) ↦ inr (by_cells p s' g xs head len chain)
  ]
    where
      by_cells :
          (p : Ptr) (s' : Store (Node T))
          → Grown s (node v none) p s'
          → (xs : List (Ptr × T)) → l.head ≡ first xs none
          → l.len ≡ length xs
          → Chain s.cell xs none
          → (p : Ptr) × (s' : Store (Node T)) × (push_front l v s
              ≡ done (longer l (some p), allocated) s')
            × IsList s' (longer l (some p)) ((p, v) ∷ xs)
      by_cells p s' g [] head len chain = (
        p,
        s',
        rw (push_front, g.returns, head) refl,
        (refl, omega (arith, len), (g.cells p ∙ ground arith, refl, tt), g.ready),
      )
      by_cells p s' g ((q, w) ∷ xs) head len chain =
          let (grown, out) = Grown-Chain s s' (node v none) p ((q, w) ∷ xs) none g chain in
          let made : s'.cell p ≡ some (node v none) = g.cells p ∙ ground arith in
          (
            p,
            put s' p (some (node v (some q))),
            rw
                (
                  push_front,
                  g.returns,
                  head,
                  modify_lem s' p (node v none) (λ n. record n { next = some q }) made,
                )
                refl,
            (
              refl,
              omega (arith, len),
              (
                ground arith,
                out,
                Chain-put s' p (some (node v (some q))) ((q, w) ∷ xs) none out grown,
              ),
              IsPool-put s' p (node v none) (some (node v (some q))) made g.ready,
            ),
          )

  last_loop_lem :
      (fuel : ℕ) (s : Store (Node T)) (xs : List (Ptr × T)) (q : Ptr) (w : T) (p : Ptr)
      → Chain s.cell (xs ++ (q, w) ∷ []) none
      → first (xs ++ (q, w) ∷ []) none ≡ some p
      → length xs < fuel
      → last_loop fuel p s ≡ done q s
  unfolding last_loop
  last_loop_lem zero s xs q w p h at few = absurd (omega arith)
  last_loop_lem (suc fuel) s [] q w p (here, out, rest) at few =
      let same : q ≡ p = ground arith in
      rw (last_loop, sym same, load_lem s q (node w none) here)
        (ap (λ (k : Ptr). done k s) (sym same))
  last_loop_lem (suc fuel) s ((q', w') ∷ []) q w p (here, out, rest) at few =
      let same : q' ≡ p = ground arith in
      rw (last_loop, sym same, load_lem s q' (node w' (some q)) here)
        (last_loop_lem fuel s [] q w q rest refl (omega arith))
  last_loop_lem (suc fuel) s ((q', w') ∷ (q1, w1) ∷ xs) q w p (here, out, rest) at few =
      let same : q' ≡ p = ground arith in
      rw (last_loop, sym same, load_lem s q' (node w' (some q1)) here)
        (last_loop_lem fuel s ((q1, w1) ∷ xs) q w q1 rest refl (omega arith))

  pub first-snoc :
      (xs : List (Ptr × T)) (q : Ptr) (w : T)
      → (p : Ptr) × ((after : Option Ptr) → first (xs ++ (q, w) ∷ []) after ≡ some p)
  first-snoc [] q w = (q, λ after. refl)
  first-snoc ((p, v) ∷ xs) q w = (p, λ after. refl)

  -- The loop of `last_node` ends at the last node.
  pub last_node_lem :
      (s : Store (Node T)) (l : SinglyLinkedList) (xs : List (Ptr × T)) (q : Ptr) (w : T)
      → l.head ≡ first (xs ++ (q, w) ∷ []) none
      → l.len ≡ length (xs ++ (q, w) ∷ [])
      → Chain s.cell (xs ++ (q, w) ∷ []) none
      → last_node l s ≡ done (some q) s
  unfolding last_node
  last_node_lem s l xs q w head len chain =
      let (p, at) = first-snoc xs q w in
      rw
        (
          last_node,
          head ∙ at none,
          last_loop_lem l.len s xs q w p chain (at none)
              (omega (arith, len, length-append xs ((q, w) ∷ []))),
        )
        refl

-- ===== src/Collections/Doubly/Ends.antt =====
-- The operations at the two ends of a `DoublyLinkedList`
-- (src/shared/collections/src/linked_list/doubly.rs).
use mathlib.Core.Path.{subst}
use vanadinite.Prelude.{
  ℕ, ◌+◌, ◌-◌, ◌≡◌, ◌⊎◌, inl, inr, refl, sym, ap, ◌∙◌, false, Option, none, some, List, [], ◌∷◌,
  ◌++◌, ◌==◌, arith, length, length-append,
}
use vanadinite.Collections.Store.{
  Ptr, Store, put, IsPool-put, Run, done, Allocated, allocated, alloc_error, load_lem, modify_lem,
  deallocate_lem, allocate_lem,
}
use vanadinite.Collections.Cells.{
  has, first, last_of, Apart, first-append, has-append, last_of-append, Apart-tail, snoc_cases,
}
use vanadinite.Collections.Doubly.{
  Node, DoublyLinkedList, new_node, push_front, push_back, pop_back,
}
use vanadinite.Collections.Doubly.Chains.{
  node, Chain, IsList, Gives, Chain-put, Chain-append, append-Chain, retarget, Grown-Chain,
}

-- A list can be replaced by one whose fields are written out.
pub written_out :
    (P : DoublyLinkedList → Type 0) (l : DoublyLinkedList) (h t : Option Ptr) (n : ℕ)
    → l.head ≡ h
    → l.tail ≡ t
    → l.len ≡ n
    → P (record { head = h; tail = t; len = n })
    → P l
written_out P l h t n head tail len known =
    subst (λ h. P (record { head = h; tail = l.tail; len = l.len })) (sym head)
      (subst (λ t. P (record { head = h; tail = t; len = l.len })) (sym tail)
        (subst (λ n. P (record { head = h; tail = t; len = n })) (sym len) known))

module _ {T : Type 0} where
  pub Apart-new :
      (xs : List (Ptr × T)) (p : Ptr) (v : T) → has p xs ≡ false → Apart xs ((p, v) ∷ [])
  Apart-new [] p v out = tt
  Apart-new ((k, _) ∷ xs) p v out = (ground arith, Apart-new xs p v (ground arith))

  pub first_of_snoc :
      (ys : List (Ptr × T)) (q : Ptr) (w : T)
      → (p : Ptr) × ((after : Option Ptr) → first (ys ++ (q, w) ∷ []) after ≡ some p)
  first_of_snoc [] q w = (q, λ after. refl)
  first_of_snoc ((p, v) ∷ ys) q w = (p, λ after. refl)

  abbrev pub Pushes :
      (DoublyLinkedList → Run (Node T) (DoublyLinkedList × Allocated))
      → Store (Node T)
      → (Ptr → List (Ptr × T))
      → DoublyLinkedList
      → Type 0
  Pushes run s to l =
      ((s.pool ≡ []) × (run l ≡ done (l, alloc_error) s))
      ⊎ ((p : Ptr) × Gives (run l) allocated (to p))

  -- `push_front` fails without an effect when there is no memory, or puts a new node before the list.
  pub push_front-Gives :
      (s : Store (Node T)) (l : DoublyLinkedList) (xs : List (Ptr × T)) (v : T)
      → IsList s l xs
      → Pushes (λ l. push_front l v s) s (λ p. (p, v) ∷ xs) l
  unfolding push_front new_node
  push_front-Gives s l xs v (head, tail, len, chain, pool) =
      written_out (Pushes (λ l. push_front l v s) s (λ p. (p, v) ∷ xs)) l (first xs none)
        (last_of xs none) (length xs) head tail len (by_cells xs chain)
    where
      by_cells :
          (xs : List (Ptr × T))
          → Chain s.cell none xs none
          → Pushes
              (λ l. push_front l v s)
              s
              (λ p. (p, v) ∷ xs)
              (record { head = first xs none; tail = last_of xs none; len = length xs })
      by_cells [] chain = elim (allocate_lem s (node v none none) pool) [
        | inl (empty, e) ↦ inl (empty, rw (push_front, new_node, e) refl)
        | inr (p, s', g) ↦ inr (
          p,
          (
            record { head = some p; tail = some p; len = 1 },
            s',
            rw (push_front, new_node, g.returns) refl,
            (refl, refl, refl, (g.cells p ∙ ground arith, refl, tt), g.ready),
          ),
        )
      ]
      by_cells ((q, w) ∷ xs) chain = elim (allocate_lem s (node v none (some q)) pool) [
        | inl (empty, e) ↦ inl (empty, rw (push_front, new_node, e) refl)
        | inr (p, s', g) ↦
            let ((at, out_q, rest), out) =
              Grown-Chain s s' (node v none (some q)) p none ((q, w) ∷ xs) none g chain in
            let n = node w none (first xs none) in
            let n' = node w (some p) (first xs none) in
            let made : s'.cell p ≡ some (node v none (some q)) = g.cells p ∙ ground arith in
            let apart : (p == q) ≡ false = ground arith in
            inr (
              p,
              (
                record {
                  head = some p;
                  tail = last_of xs (some q);
                  len = length ((q, w) ∷ xs) + 1;
                },
                put s' q (some n'),
                rw
                    (
                      push_front,
                      new_node,
                      g.returns,
                      modify_lem s' q n (λ n. record n { prev = some p }) at,
                    )
                    refl,
                (
                  refl,
                  refl,
                  omega arith,
                  (
                    rw apart made,
                    out,
                    (ground arith, out_q, Chain-put s' q (some n') (some q) xs none out_q rest),
                  ),
                  IsPool-put s' q n (some n') at g.ready,
                ),
              ),
            )
      ]

  -- `push_back` fails without an effect when there is no memory, or puts a new node behind the list.
  pub push_back-Gives :
      (s : Store (Node T)) (l : DoublyLinkedList) (xs : List (Ptr × T)) (v : T)
      → IsList s l xs
      → Pushes (λ l. push_back l v s) s (λ p. xs ++ (p, v) ∷ []) l
  unfolding push_back new_node
  push_back-Gives s l xs v (head, tail, len, chain, pool) = elim (snoc_cases xs) [
    | inl e ↦
        subst (λ k. Pushes (λ l. push_back l v s) s (λ p. k ++ (p, v) ∷ []) l) (sym e)
          (written_out (Pushes (λ l. push_back l v s) s (λ p. (p, v) ∷ [])) l none none 0
            (head ∙ ap (λ k. first k none) e) (tail ∙ ap (λ k. last_of k none) e)
            (len ∙ ap length e) on_empty)
    | inr (ys, q, w, e) ↦
        let (h, start) = first_of_snoc ys q w in
        subst (λ k. Pushes (λ l. push_back l v s) s (λ p. k ++ (p, v) ∷ []) l) (sym e)
          (written_out (Pushes (λ l. push_back l v s) s (λ p. (ys ++ (q, w) ∷ []) ++ (p, v) ∷ [])) l
            (some h) (some q) (length (ys ++ (q, w) ∷ []))
            (head ∙ ap (λ k. first k none) e ∙ start none)
            (tail ∙ ap (λ k. last_of k none) e ∙ last_of-append ys q w none) (len ∙ ap length e)
            (on_snoc ys q w h start (subst (λ k. Chain s.cell none k none) e chain)))
  ]
    where
      on_empty :
          Pushes
            (λ l. push_back l v s)
            s
            (λ p. (p, v) ∷ [])
            (record { head = none; tail = none; len = 0 })
      on_empty = elim (allocate_lem s (node v none none) pool) [
        | inl (empty, e) ↦ inl (empty, rw (push_back, new_node, e) refl)
        | inr (p, s', g) ↦ inr (
          p,
          (
            record { head = some p; tail = some p; len = 1 },
            s',
            rw (push_back, new_node, g.returns) refl,
            (refl, refl, refl, (g.cells p ∙ ground arith, refl, tt), g.ready),
          ),
        )
      ]

      on_snoc :
          (ys : List (Ptr × T)) (q : Ptr) (w : T) (h : Ptr)
          → ((after : Option Ptr) → first (ys ++ (q, w) ∷ []) after ≡ some h)
          → Chain s.cell none (ys ++ (q, w) ∷ []) none
          → Pushes
              (λ l. push_back l v s)
              s
              (λ p. (ys ++ (q, w) ∷ []) ++ (p, v) ∷ [])
              (record { head = some h; tail = some q; len = length (ys ++ (q, w) ∷ []) })
      on_snoc ys q w h start chain = elim (allocate_lem s (node v (some q) none) pool) [
        | inl (empty, e) ↦ inl (empty, rw (push_back, new_node, e) refl)
        | inr (p, s', g) ↦
            let xs' = ys ++ (q, w) ∷ [] in
            let (grown, out) = Grown-Chain s s' (node v (some q) none) p none xs' none g chain in
            let (at, moved) = retarget s' none ys none q w grown in
            let made : s'.cell p ≡ some (node v (some q) none) = g.cells p ∙ ground arith in
            let apart : (p == q) ≡ false = ground (arith, has-append p ys ((q, w) ∷ [])) in
            let n = node w (last_of ys none) none in
            let n' = node w (last_of ys none) (some p) in
            inr (
              p,
              (
                record { head = some h; tail = some p; len = length xs' + 1 },
                put s' q (some n'),
                rw
                    (
                      push_back,
                      new_node,
                      g.returns,
                      modify_lem s' q n (λ n. record n { next = some p }) at,
                    )
                    refl,
                (
                  sym (first-append xs' ((p, v) ∷ []) none ∙ start (some p)),
                  sym (last_of-append xs' p v none),
                  omega (arith, length-append xs' ((p, v) ∷ [])),
                  append-Chain (put s' q (some n')).cell none xs' ((p, v) ∷ []) none
                      (moved (some p))
                      (subst (λ b. Chain (put s' q (some n')).cell b ((p, v) ∷ []) none)
                        (sym (last_of-append ys q w none)) (rw apart made, refl, tt))
                      (Apart-new xs' p v out),
                  IsPool-put s' q n (some n') at g.ready,
                ),
              ),
            )
      ]

  -- `pop_back` returns nothing from an empty list, and else the last value, and takes its node
  -- from the list.
  pub pop_back-Gives :
      (s : Store (Node T)) (l : DoublyLinkedList) (xs : List (Ptr × T))
      → IsList s l xs
      → ((xs ≡ []) × (pop_back l s ≡ done (l, none) s))
        ⊎ ((q : Ptr) × (w : T) × (ys : List (Ptr × T)) × (xs ≡ ys ++ (q, w) ∷ [])
            × Gives (pop_back l s) (some w) ys)
  unfolding pop_back
  pop_back-Gives s l xs (head, tail, len, chain, pool) = elim (snoc_cases xs) [
    | inl e ↦ inl (e, on_none (tail ∙ ap (λ k. last_of k none) e))
    | inr (ys, q, w, e) ↦
        let (h, start) = first_of_snoc ys q w in
        inr (
          q,
          w,
          ys,
          e,
          written_out (λ l. Gives (pop_back l s) (some w) ys) l (some h) (some q)
              (length (ys ++ (q, w) ∷ [])) (head ∙ ap (λ k. first k none) e ∙ start none)
              (tail ∙ ap (λ k. last_of k none) e ∙ last_of-append ys q w none) (len ∙ ap length e)
              (from_end ys q w h start
                (Chain-append s.cell none ys ((q, w) ∷ []) none
                  (subst (λ k. Chain s.cell none k none) e chain))
                (snoc_cases ys)),
        )
  ]
    where
      on_none : l.tail ≡ none → pop_back l s ≡ done (l, none) s
      on_none h = ground arith

      from_end :
          (ys : List (Ptr × T)) (q : Ptr) (w : T) (h : Ptr)
          → ((after : Option Ptr) → first (ys ++ (q, w) ∷ []) after ≡ some h)
          → Chain s.cell none ys (some q)
            × Chain s.cell (last_of ys none) ((q, w) ∷ []) none
            × Apart ys ((q, w) ∷ [])
          → (ys ≡ []) ⊎ ((zs : List (Ptr × T)) × (r : Ptr) × (u : T) × (ys ≡ zs ++ (r, u) ∷ []))
          → Gives
              (pop_back
                (record { head = some h; tail = some q; len = length (ys ++ (q, w) ∷ []) })
                s)
              (some w)
              ys
      from_end ys q w h start (left, (at, _, _), apart) (inl e) =
          let n = node w none none in
          let at' : s.cell q ≡ some n = at ∙ ap (λ k. some (node w (last_of k none) none)) e in
          let one : length (ys ++ (q, w) ∷ []) ≡ 1 = ap (λ k. length (k ++ (q, w) ∷ [])) e in
          rw one (
            subst
              (λ k.
                Gives (pop_back (record { head = some h; tail = some q; len = 1 }) s) (some w) k)
              (sym e)
              (
                record { head = none; tail = none; len = 0 },
                put s q none,
                rw
                    (
                      pop_back,
                      load_lem s q (node w none none) at',
                      load_lem s q (node w none none) at',
                      deallocate_lem s q (node w none none) at',
                    )
                    refl,
                (refl, refl, refl, tt, IsPool-put s q n none at' pool),
              ))
      from_end ys q w h start (left, (at, _, _), apart) (inr (zs, r, u, e)) =
          let ys' = zs ++ (r, u) ∷ [] in
          let (_, out) = Apart-tail ys' [] (q, w) (subst (λ k. Apart k ((q, w) ∷ [])) e apart) in
          let (at_r, moved) =
            retarget s none zs (some q) r u (subst (λ k. Chain s.cell none k (some q)) e left) in
          let before : last_of ys none ≡ some r =
            ap (λ k. last_of k none) e ∙ last_of-append zs r u none in
          let n = node w (some r) none in
          let m = node u (last_of zs none) (some q) in
          let m' = node u (last_of zs none) none in
          let at' : s.cell q ≡ some n = at ∙ ap (λ k. some (node w k none)) before in
          let s1 = put s r (some m') in
          let differ : (q == r) ≡ false = ground (arith, has-append q zs ((r, u) ∷ [])) in
          let at1 : s1.cell q ≡ some n = rw differ at' in
          let (h', begin) = first_of_snoc zs r u in
          let same : first ys' none ≡ some h =
            begin none
            ∙ sym (begin (some q))
            ∙ sym (first-append ys' ((q, w) ∷ []) none)
            ∙ sym (ap (λ k. first (k ++ (q, w) ∷ []) none) e)
            ∙ start none in
          subst
            (λ k.
              Gives
                (pop_back
                  (record { head = some h; tail = some q; len = length (ys ++ (q, w) ∷ []) }) s)
                (some w) k)
            (sym e)
            (
              record { head = some h; tail = some r; len = length (ys ++ (q, w) ∷ []) - 1 },
              put s1 q none,
              rw
                  (
                    pop_back,
                    load_lem s q (node w (some r) none) at',
                    modify_lem s r m (λ n. record n { next = none }) at_r,
                    load_lem s1 q (node w (some r) none) at1,
                    deallocate_lem s1 q n at1,
                  )
                  refl,
              (
                sym same,
                sym (last_of-append zs r u none),
                omega (arith, ap length e, length-append ys ((q, w) ∷ [])),
                Chain-put s1 q none none ys' none out (moved none),
                IsPool-put s1 q n none at1 (IsPool-put s r m (some m') at_r pool),
              ),
            )

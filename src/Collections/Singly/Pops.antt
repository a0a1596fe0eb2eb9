-- ===== src/Collections/Singly/Pops.antt =====
-- Appending to a `SinglyLinkedList`, and taking from its ends
-- (src/shared/collections/src/linked_list/singly.rs).
use mathlib.Core.Path.{subst}
use vanadinite.Prelude.{
  ℕ, zero, suc, ◌+◌, ◌-◌, ◌<◌, ◌≡◌, ◌⊎◌, inl, inr, refl, sym, ap, ◌∙◌, false, Option, none, some,
  List, [], ◌∷◌, ◌++◌, ◌==◌, arith, length, length-append,
}
use vanadinite.Collections.Store.{
  Ptr, Store, put, IsPool-put, Run, done, allocated, alloc_error, modify, load_lem, modify_lem,
  deallocate_lem, allocate_lem, Grown,
}
use vanadinite.Collections.Singly.{
  Node, SinglyLinkedList, push_back, pop_front, pop_back, last_node, pop_back_loop, drop_loop,
}
use vanadinite.Collections.Cells.{
  has, first, last_of, Apart, Apart-tail, snoc_cases, first-append, has-append, last_of-append,
}
use vanadinite.Collections.Singly.Chains.{
  node, Chain, IsList, Chain-put, Chain-append, append-Chain, retarget,
}
use vanadinite.Collections.Singly.Ends.{Grown-Chain, last_node_lem, first-snoc}

module _ {T : Type 0} where
  -- The call returns `r`, and its list then stands for `xs`.
  abbrev pub Gives :
      {A : Type 0} → Run (Node T) (SinglyLinkedList × A) → A → List (Ptr × T) → Type 0
  Gives run r xs =
      (l : SinglyLinkedList) × (s : Store (Node T)) × (run ≡ done (l, r) s) × IsList s l xs

  head_of_snoc :
      (ys : List (Ptr × T)) (q : Ptr) (w : T) (xs : List (Ptr × T))
      → first (ys ++ (q, w) ∷ []) none ≡ first ((ys ++ (q, w) ∷ []) ++ xs) none
  head_of_snoc [] q w xs = refl
  head_of_snoc (y ∷ ys) q w xs = refl

  -- `push_back` fails without an effect when there is no memory, or puts a new node behind the list.
  pub push_back_lem :
      (s : Store (Node T)) (l : SinglyLinkedList) (xs : List (Ptr × T)) (v : T)
      → IsList s l xs
      → ((s.pool ≡ []) × (push_back l v s ≡ done (l, alloc_error) s))
        ⊎ ((p : Ptr) × Gives (push_back l v s) allocated (xs ++ (p, v) ∷ []))
  unfolding push_back
  push_back_lem s l xs v (head, len, chain, pool) = elim (allocate_lem s (node v none) pool) [
    | inl (empty, e) ↦ inl (empty, rw (push_back, e) refl)
    | inr (p, s', g) ↦ inr (
      p,
      elim (snoc_cases xs) [
        | inl e ↦
            subst (λ l'. Gives (push_back l v s) allocated (l' ++ (p, v) ∷ [])) (sym e)
              (on_empty p s' g (head ∙ ap (λ l'. first l' none) e) (len ∙ ap length e))
        | inr (ys, q, w, e) ↦
            subst (λ l'. Gives (push_back l v s) allocated (l' ++ (p, v) ∷ [])) (sym e)
              (on_snoc p s' g ys q w (head ∙ ap (λ l'. first l' none) e) (len ∙ ap length e)
                (subst (λ l'. Chain s.cell l' none) e chain))
      ],
    )
  ]
    where
      on_empty :
          (p : Ptr) (s' : Store (Node T))
          → Grown s (node v none) p s'
          → l.head ≡ none
          → l.len ≡ 0
          → Gives (push_back l v s) allocated ((p, v) ∷ [])
      on_empty p s' g head len = (
        record { head = some p; len = l.len + 1 },
        s',
        rw (push_back, g.returns, last_node, head) refl,
        (refl, omega (arith, len), (g.cells p ∙ ground arith, refl, tt), g.ready),
      )

      on_snoc :
          (p : Ptr) (s' : Store (Node T))
          → Grown s (node v none) p s'
          → (ys : List (Ptr × T)) (q : Ptr) (w : T) → l.head ≡ first (ys ++ (q, w) ∷ []) none
          → l.len ≡ length (ys ++ (q, w) ∷ [])
          → Chain s.cell (ys ++ (q, w) ∷ []) none
          → Gives (push_back l v s) allocated ((ys ++ (q, w) ∷ []) ++ (p, v) ∷ [])
      on_snoc p s' g ys q w head len chain =
          let xs' = ys ++ (q, w) ∷ [] in
          let (grown, out) = Grown-Chain s s' (node v none) p xs' none g chain in
          let (at, moved) = retarget s' ys none q w grown in
          let made : s'.cell p ≡ some (node v none) = g.cells p ∙ ground arith in
          let apart : (p == q) ≡ false = ground (arith, has-append p ys ((q, w) ∷ [])) in
          (
            record l { len = l.len + 1 },
            put s' q (some (node w (some p))),
            rw
                (
                  push_back,
                  g.returns,
                  last_node_lem s' l ys q w head len grown,
                  modify_lem s' q (node w none) (λ n. record n { next = some p }) at,
                )
                refl,
            (
              head ∙ head_of_snoc ys q w ((p, v) ∷ []),
              omega (arith, len, length-append xs' ((p, v) ∷ [])),
              append-Chain (put s' q (some (node w (some p)))).cell xs' ((p, v) ∷ []) none
                  (moved (some p)) (rw apart made, refl, tt) (apart_new xs' out),
              IsPool-put s' q (node w none) (some (node w (some p))) at g.ready,
            ),
          )
        where
          apart_new : (zs : List (Ptr × T)) → has p zs ≡ false → Apart zs ((p, v) ∷ [])
          apart_new [] out = tt
          apart_new ((k, _) ∷ zs) out = (ground arith, apart_new zs (ground arith))

  -- `pop_front` returns nothing from an empty list, and else the first value, whose node it frees.
  pub pop_front_lem :
      (s : Store (Node T)) (l : SinglyLinkedList) (xs : List (Ptr × T))
      → IsList s l xs
      → ((xs ≡ []) × (pop_front l s ≡ done (l, none) s))
        ⊎ ((p : Ptr) × (v : T) × (ys : List (Ptr × T)) × (xs ≡ (p, v) ∷ ys)
            × Gives (pop_front l s) (some v) ys)
  unfolding pop_front
  pop_front_lem s l [] (head, len, chain, pool) = inl (refl, ground arith)
  pop_front_lem s l ((p, v) ∷ xs) (head, len, (at, out, rest), pool) =
      let n = node v (first xs none) in
      inr (
        p,
        v,
        xs,
        refl,
        (
          record { head = first xs none; len = l.len - 1 },
          put s p none,
          rw (pop_front, head, load_lem s p n at, deallocate_lem s p n at) refl,
          (
            refl,
            omega (arith, len),
            Chain-put s p none xs none out rest,
            IsPool-put s p n none at pool,
          ),
        ),
      )

  -- `drop` ends within one round more than the list has nodes.
  pub drop_loop_lem :
      (fuel : ℕ) (s : Store (Node T)) (l : SinglyLinkedList) (xs : List (Ptr × T))
      → IsList s l xs
      → length xs < fuel
      → (s' : Store (Node T)) × (drop_loop fuel l s ≡ done tt s')
  unfolding drop_loop
  drop_loop_lem zero s l xs h few = absurd (omega arith)
  drop_loop_lem (suc fuel) s l xs h few = elim (pop_front_lem s l xs h) [
    | inl (empty, run) ↦ (s, rw (drop_loop, run) refl)
    | inr (p, v, ys, e, (l', s1, run, ok)) ↦
        let (s', later) = drop_loop_lem fuel s1 l' ys ok (omega (arith, ap length e)) in
        (s', rw (drop_loop, run) later)
  ]

  pop_back_loop_lem :
      (fuel : ℕ) (s : Store (Node T)) (xs : List (Ptr × T)) (q : Ptr) (w : T) (before : Option Ptr)
      (p : Ptr)
      → Chain s.cell (xs ++ (q, w) ∷ []) none
      → first (xs ++ (q, w) ∷ []) none ≡ some p
      → length xs < fuel
      → pop_back_loop fuel before p s ≡ done (last_of xs before, q) s
  unfolding pop_back_loop
  pop_back_loop_lem zero s xs q w before p h at few = absurd (omega arith)
  pop_back_loop_lem (suc fuel) s [] q w before p (here, out, rest) at few =
      let same : q ≡ p = ground arith in
      subst (λ k. pop_back_loop (suc fuel) before k s ≡ done (before, q) s) same
        (rw (pop_back_loop, load_lem s q (node w none) here) refl)
  pop_back_loop_lem (suc fuel) s ((q', w') ∷ []) q w before p (here, out, rest) at few =
      let same : q' ≡ p = ground arith in
      subst (λ k. pop_back_loop (suc fuel) before k s ≡ done (some q', q) s) same
        (rw (pop_back_loop, load_lem s q' (node w' (some q)) here)
          (pop_back_loop_lem fuel s [] q w (some q') q rest refl (omega arith)))
  pop_back_loop_lem (suc fuel) s ((q', w') ∷ (q1, w1) ∷ xs) q w before p (here, out, rest) at few =
      let same : q' ≡ p = ground arith in
      subst (λ k. pop_back_loop (suc fuel) before k s ≡ done (last_of xs (some q1), q) s) same
        (rw (pop_back_loop, load_lem s q' (node w' (some q1)) here)
          (pop_back_loop_lem fuel s ((q1, w1) ∷ xs) q w (some q') q1 rest refl (omega arith)))

  -- `pop_back` returns nothing from an empty list, and else the last value, and takes its node
  -- from the list.
  pub pop_back_lem :
      (s : Store (Node T)) (l : SinglyLinkedList) (xs : List (Ptr × T))
      → IsList s l xs
      → ((xs ≡ []) × (pop_back l s ≡ done (l, none) s))
        ⊎ ((q : Ptr) × (w : T) × (ys : List (Ptr × T)) × (xs ≡ ys ++ (q, w) ∷ [])
            × Gives (pop_back l s) (some w) ys)
  unfolding pop_back
  pop_back_lem s l xs (head, len, chain, pool) = elim (snoc_cases xs) [
    | inl e ↦ inl (e, on_none (head ∙ ap (λ l'. first l' none) e))
    | inr (ys, q, w, e) ↦ inr (
      q,
      w,
      ys,
      e,
      from_end ys q w (head ∙ ap (λ l'. first l' none) e) (len ∙ ap length e)
          (subst (λ l'. Chain s.cell l' none) e chain) (snoc_cases ys),
    )
  ]
    where
      on_none : l.head ≡ none → pop_back l s ≡ done (l, none) s
      on_none h = ground arith

      end_run :
          (ys : List (Ptr × T)) (r p : Ptr) (s1 : Store (Node T)) (q : Ptr) (w : T)
          → l.head ≡ some p
          → pop_back_loop l.len none p s ≡ done (last_of ys none, q) s
          → last_of ys none ≡ some r
          → modify r (λ n. record n { next = none }) s ≡ done tt s1
          → s1.cell q ≡ some (node w none)
          → pop_back l s ≡ done (record { head = l.head; len = l.len - 1 }, some w) (put s1 q none)
      end_run ys r p s1 q w head loop before set at =
          rw
            (
              pop_back,
              head,
              loop,
              before,
              set,
              load_lem s1 q (node w none) at,
              deallocate_lem s1 q (node w none) at,
            )
            (ap
              (λ (h : Option Ptr).
                done (record { head = h; len = l.len - 1 }, some w) (put s1 q none))
              head)

      from_end :
          (ys : List (Ptr × T)) (q : Ptr) (w : T)
          → l.head ≡ first (ys ++ (q, w) ∷ []) none
          → l.len ≡ length (ys ++ (q, w) ∷ [])
          → Chain s.cell (ys ++ (q, w) ∷ []) none
          → (ys ≡ []) ⊎ ((zs : List (Ptr × T)) × (r : Ptr) × (u : T) × (ys ≡ zs ++ (r, u) ∷ []))
          → Gives (pop_back l s) (some w) ys
      from_end ys q w head len chain (inl e) =
          subst (λ l'. Gives (pop_back l s) (some w) l') (sym e)
            (single q w (head ∙ ap (λ l'. first (l' ++ (q, w) ∷ []) none) e)
              (len ∙ ap (λ l'. length (l' ++ (q, w) ∷ [])) e)
              (subst (λ l'. Chain s.cell (l' ++ (q, w) ∷ []) none) e chain))
        where
          single :
              (q : Ptr) (w : T)
              → l.head ≡ some q
              → l.len ≡ 1
              → Chain s.cell ((q, w) ∷ []) none
              → Gives (pop_back l s) (some w) []
          single q w head len (at, out, rest) = (
            record { head = none; len = l.len - 1 },
            put s q none,
            rw
                (
                  pop_back,
                  head,
                  pop_back_loop_lem l.len s [] q w none q (at, out, rest) refl (omega (arith, len)),
                  load_lem s q (node w none) at,
                  deallocate_lem s q (node w none) at,
                )
                refl,
            (refl, omega (arith, len), tt, IsPool-put s q (node w none) none at pool),
          )
      from_end ys q w head len chain (inr (zs, r, u, e)) =
          subst (λ l'. Gives (pop_back l s) (some w) l') (sym e)
            (many zs r u q w (head ∙ ap (λ l'. first (l' ++ (q, w) ∷ []) none) e)
              (len ∙ ap (λ l'. length (l' ++ (q, w) ∷ [])) e)
              (subst (λ l'. Chain s.cell (l' ++ (q, w) ∷ []) none) e chain))
        where
          many :
              (zs : List (Ptr × T)) (r : Ptr) (u : T) (q : Ptr) (w : T)
              → l.head ≡ first ((zs ++ (r, u) ∷ []) ++ (q, w) ∷ []) none
              → l.len ≡ length ((zs ++ (r, u) ∷ []) ++ (q, w) ∷ [])
              → Chain s.cell ((zs ++ (r, u) ∷ []) ++ (q, w) ∷ []) none
              → Gives (pop_back l s) (some w) (zs ++ (r, u) ∷ [])
          many zs r u q w head len chain =
              let ys' = zs ++ (r, u) ∷ [] in
              let (left, (at, _, _), apart) = Chain-append s.cell ys' ((q, w) ∷ []) none chain in
              let (_, out) = Apart-tail ys' [] (q, w) apart in
              let (at_r, moved) = retarget s zs (some q) r u left in
              let s1 = put s r (some (node u none)) in
              let differ : (q == r) ≡ false = ground (arith, has-append q zs ((r, u) ∷ [])) in
              let at' : s1.cell q ≡ some (node w none) = rw differ at in
              let (p, start) = first-snoc zs r u in
              let begins : first (ys' ++ (q, w) ∷ []) none ≡ some p =
                first-append ys' ((q, w) ∷ []) none ∙ start (some q) in
              (
                record { head = l.head; len = l.len - 1 },
                put s1 q none,
                end_run ys' r p s1 q w (head ∙ begins)
                    (pop_back_loop_lem l.len s ys' q w none p chain begins
                      (omega (arith, len, length-append ys' ((q, w) ∷ []))))
                    (last_of-append zs r u none)
                    (modify_lem s r (node u (some q)) (λ n. record n { next = none }) at_r) at',
                (
                  head ∙ begins ∙ sym (start none),
                  omega (arith, len, length-append ys' ((q, w) ∷ [])),
                  Chain-put s1 q none ys' none out (moved none),
                  IsPool-put s1 q (node w none) none at'
                      (IsPool-put s r (node u (some q)) (some (node u none)) at_r pool),
                ),
              )

-- ===== src/Collections/Singly/Cursors/Inserts.antt =====
-- `insert` of a `SinglyLinkedList` and of its cursor
-- (src/shared/collections/src/linked_list/singly.rs).
use mathlib.Core.Path.{subst}
use vanadinite.Prelude.{
  ℕ, ◌+◌, ◌<◌, ◌≡◌, ◌⊎◌, inl, inr, refl, sym, ap, ◌∙◌, true, false, Option, none, some, List, [],
  ◌∷◌, ◌++◌, ◌==◌, arith, length, Bool-cases, ltb,
}
use vanadinite.Collections.Store.{
  Ptr, Store, put, IsPool, IsPool-put, done, allocated, alloc_error, modify_lem, allocate_lem,
  Grown,
}
use vanadinite.Collections.Singly.{Node, SinglyLinkedList}
use vanadinite.Collections.Singly.Cursors.{
  CursorMut, cursor_mut, advance_many, insert_here, insert, inserted, invalid_position, no_memory,
}
use vanadinite.Collections.Cells.{
  has, first, last_of, Apart, Apart-has, Apart-cons, snoc_cases, first-append, has-append,
  last_of-append,
}
use vanadinite.Collections.Singly.Chains.{
  node, Chain, IsList, Chain-put, Chain-append, append-Chain, retarget,
}
use vanadinite.Collections.Singly.Ends.{Grown-Chain, first-snoc, longer, push_front_lem}
use vanadinite.Collections.Singly.Pops.{Gives}
use vanadinite.Collections.Singly.Cursors.Zippers.{
  IsZipper, CursorGives, many-IsZipper, IsZipper-IsList,
}

-- A cursor with its two pointers written out.
abbrev facing : CursorMut → Option Ptr → Option Ptr → CursorMut
facing c previous position = record {
  list = c.list;
  index = c.index;
  previous = previous;
  position = position;
}

faced :
    (P : CursorMut → Type 0) (c : CursorMut) (previous position : Option Ptr)
    → c.previous ≡ previous
    → c.position ≡ position
    → P (facing c previous position)
    → P c
faced P c previous position e e' known =
    subst (λ k. P (facing c k c.position)) (sym e)
      (subst (λ k. P (facing c previous k)) (sym e') known)

module _ {T : Type 0} where
  abbrev pub Inserts : Store (Node T) → CursorMut → T → List (Ptr × T) → List (Ptr × T) → Type 0
  Inserts s c v xs ys =
      ((s.pool ≡ []) × (insert_here c v s ≡ done (c, alloc_error) s))
      ⊎ ((p : Ptr) × CursorGives (insert_here c v s) allocated xs ((p, v) ∷ ys))

  insert-at_front :
      (s : Store (Node T)) (c : CursorMut) (ys : List (Ptr × T)) (v : T) (position : Option Ptr)
      → IsZipper s (facing c none position) [] ys
      → Inserts s (facing c none position) v [] ys
  unfolding insert_here
  insert-at_front s c ys v position z =
      elim (push_front_lem s c.list ys v (IsZipper-IsList s (facing c none position) [] ys z)) [
        | inl (empty, e) ↦ inl (empty, rw (insert_here, e) refl)
        | inr (p, s', run, (head, len, chain, pool)) ↦ inr (
          p,
          (
            record {
              list = longer c.list (some p);
              index = c.index;
              previous = none;
              position = some p;
            },
            s',
            rw (insert_here, run) refl,
            record {
              head = head;
              len = omega (arith, len);
              previous = refl;
              position = head;
              index = z.index;
              chain = chain;
              pool = pool;
            },
          ),
        )
      ]

  insert-behind :
      (s : Store (Node T)) (c : CursorMut) (zs ys : List (Ptr × T)) (r : Ptr) (u v : T)
      → IsZipper s (facing c (some r) (first ys none)) (zs ++ (r, u) ∷ []) ys
      → Inserts s (facing c (some r) (first ys none)) v (zs ++ (r, u) ∷ []) ys
  unfolding insert_here
  insert-behind s c zs ys r u v z = elim (allocate_lem s (node v none) z.pool) [
    | inl (empty, e) ↦ inl (empty, rw (insert_here, e) refl)
    | inr (p, s', g) ↦ inr (p, on_grown p s' g ys z)
  ]
    where
      xs' : List (Ptr × T)
      xs' = zs ++ (r, u) ∷ []

      on_grown :
          (p : Ptr) (s' : Store (Node T))
          → Grown s (node v none) p s'
          → (ys : List (Ptr × T)) → IsZipper s (facing c (some r) (first ys none)) xs' ys
          → CursorGives
              (insert_here (facing c (some r) (first ys none)) v s)
              allocated
              xs'
              ((p, v) ∷ ys)
      on_grown p s' g ys z =
          let (chain, out) = Grown-Chain s s' (node v none) p (xs' ++ ys) none g z.chain in
          let (left, right, apart) = Chain-append s'.cell xs' ys none chain in
          let (at_r, moved) = retarget s' zs (first ys none) r u left in
          let out_xs : has p xs' ≡ false = ground (arith, has-append p xs' ys) in
          let out_ys : has p ys ≡ false = ground (arith, has-append p xs' ys) in
          let differ : (p == r) ≡ false = ground (arith, has-append p zs ((r, u) ∷ [])) in
          let r_in : has r xs' ≡ true = ground (arith, has-append r zs ((r, u) ∷ [])) in
          let right1 =
            Chain-put s' r (some (node u (some p))) ys none (Apart-has xs' ys r apart r_in) right in
          let made : s'.cell p ≡ some (node v none) = g.cells p ∙ ground arith in
          by_next ys p s' g z at_r (rw differ made) (moved (some p)) right1 out_xs out_ys
            (Apart-cons xs' ys p v out_xs apart)
            (IsPool-put s' r (node u (first ys none)) (some (node u (some p))) at_r g.ready)
        where
          after_front : (ks ls : List (Ptr × T)) → first (xs' ++ ks) none ≡ first (xs' ++ ls) none
          after_front ks ls =
              let (h, start) = first-snoc zs r u in
              first-append xs' ks none
              ∙ start (first ks none)
              ∙ sym (first-append xs' ls none ∙ start (first ls none))

          by_next :
              (ys : List (Ptr × T)) (p : Ptr) (s' : Store (Node T))
              → Grown s (node v none) p s'
              → IsZipper s (facing c (some r) (first ys none)) xs' ys
              → s'.cell r ≡ some (node u (first ys none))
              → (put s' r (some (node u (some p)))).cell p ≡ some (node v none)
              → Chain (put s' r (some (node u (some p)))).cell xs' (some p)
              → Chain (put s' r (some (node u (some p)))).cell ys none
              → has p xs' ≡ false
              → has p ys ≡ false
              → Apart xs' ((p, v) ∷ ys)
              → IsPool (put s' r (some (node u (some p)))).cell s'.pool
              → CursorGives
                  (insert_here (facing c (some r) (first ys none)) v s)
                  allocated
                  xs'
                  ((p, v) ∷ ys)
          by_next [] p s' g z at_r made left right out_xs out_ys apart pool =
              let s1 = put s' r (some (node u (some p))) in
              (
                record {
                  list = record { head = c.list.head; len = c.list.len + 1 };
                  index = c.index;
                  previous = some r;
                  position = some p;
                },
                s1,
                rw
                    (
                      insert_here,
                      g.returns,
                      modify_lem s' r (node u none) (λ n. record n { next = some p }) at_r,
                    )
                    refl,
                record {
                  head = z.head ∙ after_front [] ((p, v) ∷ []);
                  len = omega (arith, z.len);
                  previous = z.previous;
                  position = refl;
                  index = z.index;
                  chain = append-Chain s1.cell xs' ((p, v) ∷ []) none left (made, refl, tt) apart;
                  pool = pool;
                },
              )
          by_next ((k, w) ∷ ys) p s' g z at_r made left right out_xs out_ys apart pool =
              let s1 = put s' r (some (node u (some p))) in
              let n = some (node v (some k)) in
              let s2 = put s1 p n in
              (
                record {
                  list = record { head = c.list.head; len = c.list.len + 1 };
                  index = c.index;
                  previous = some r;
                  position = some p;
                },
                s2,
                rw
                    (
                      insert_here,
                      g.returns,
                      modify_lem s' r (node u (some k)) (λ n. record n { next = some p }) at_r,
                      modify_lem s1 p (node v none) (λ n. record n { next = some k }) made,
                    )
                    refl,
                record {
                  head = z.head ∙ after_front ((k, w) ∷ ys) ((p, v) ∷ (k, w) ∷ ys);
                  len = omega (arith, z.len);
                  previous = z.previous;
                  position = refl;
                  index = z.index;
                  chain =
                      append-Chain s2.cell xs' ((p, v) ∷ (k, w) ∷ ys) none
                        (Chain-put s1 p n xs' (some p) out_xs left)
                        (ground arith, out_ys, Chain-put s1 p n ((k, w) ∷ ys) none out_ys right)
                        apart;
                  pool = IsPool-put s1 p (node v none) n made pool;
                },
              )

  insert_here-IsZipper :
      (s : Store (Node T)) (c : CursorMut) (xs ys : List (Ptr × T)) (v : T)
      → IsZipper s c xs ys
      → Inserts s c v xs ys
  insert_here-IsZipper s c xs ys v z = elim (snoc_cases xs) [
    | inl e ↦
        subst (λ l. Inserts s c v l ys) (sym e)
          (faced (λ c. IsZipper s c [] ys → Inserts s c v [] ys) c none c.position
            (z.previous ∙ ap (λ l. last_of l none) e) refl (insert-at_front s c ys v c.position)
            (subst (λ l. IsZipper s c l ys) e z))
    | inr (zs, r, u, e) ↦
        let xs' = zs ++ (r, u) ∷ [] in
        subst (λ l. Inserts s c v l ys) (sym e)
          (faced (λ c. IsZipper s c xs' ys → Inserts s c v xs' ys) c (some r) (first ys none)
            (z.previous ∙ ap (λ l. last_of l none) e ∙ last_of-append zs r u none) z.position
            (insert-behind s c zs ys r u v) (subst (λ l. IsZipper s c l ys) e z))
  ]

  pub at_end-invalid :
      (s : Store (Node T)) (l : SinglyLinkedList) (at : ℕ) (v : T)
      → l.len < at
      → insert l at v s ≡ done (l, invalid_position v) s
  unfolding insert
  at_end-invalid s l at v past =
      let out : ltb l.len at ≡ true = ground arith in rw (insert, out) refl

  -- `insert` refuses a position past the end, fails without an effect, or puts a new node behind the
  -- first `at` ones.
  pub insert_lem :
      (s : Store (Node T)) (l : SinglyLinkedList) (xs : List (Ptr × T)) (at : ℕ) (v : T)
      → IsList s l xs
      → ((length xs < at) × (insert l at v s ≡ done (l, invalid_position v) s))
        ⊎ ((s.pool ≡ []) × (insert l at v s ≡ done (l, no_memory) s))
        ⊎ ((p : Ptr) × (us : List (Ptr × T)) × (vs : List (Ptr × T)) × (us ++ vs ≡ xs)
            × (length us ≡ at)
            × Gives (insert l at v s) inserted (us ++ (p, v) ∷ vs))
  unfolding insert advance_many
  insert_lem s l xs at v h = elim (Bool-cases (ltb l.len at)) [
    | inl past ↦
        let (_, len, _, _) = h in inl (ground (arith, len), at_end-invalid s l at v (ground arith))
    | inr within ↦ inr (by_cursor within (many-IsZipper s l xs at h (ground (arith, h.1))))
  ]
    where
      Moved : Type 0
      Moved =
          (c : CursorMut) × (us : List (Ptr × T)) × (vs : List (Ptr × T)) × (advance_many
              (cursor_mut l) at s
            ≡ done c s)
          × (c.list ≡ l)
          × (us ++ vs ≡ xs)
          × (length us ≡ at)
          × IsZipper s c us vs

      Done : Type 0
      Done =
          ((s.pool ≡ []) × (insert l at v s ≡ done (l, no_memory) s))
          ⊎ ((p : Ptr) × (us : List (Ptr × T)) × (vs : List (Ptr × T)) × (us ++ vs ≡ xs)
              × (length us ≡ at)
              × Gives (insert l at v s) inserted (us ++ (p, v) ∷ vs))

      by_cursor : ltb l.len at ≡ false → Moved → Done
      by_cursor within (c, us, vs, run, keeps, same, count, z) =
          by_insert c us vs run keeps same count (insert_here-IsZipper s c us vs v z)
        where
          by_insert :
              (c : CursorMut) (us vs : List (Ptr × T))
              → advance_many (cursor_mut l) at s ≡ done c s
              → c.list ≡ l
              → us ++ vs ≡ xs
              → length us ≡ at
              → Inserts s c v us vs
              → Done
          by_insert c us vs run keeps same count (inl (empty, e)) =
              inl (empty, rw (insert, within, run, e) (ap (λ k. done (k, no_memory) s) keeps))
          by_insert c us vs run keeps same count (inr (p, (c', s', ran, z))) = inr (
            p,
            us,
            vs,
            same,
            count,
            (
              c'.list,
              s',
              rw (insert, within, run, ran) refl,
              IsZipper-IsList s' c' us ((p, v) ∷ vs) z,
            ),
          )

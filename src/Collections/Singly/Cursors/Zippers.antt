-- ===== src/Collections/Singly/Cursors/Zippers.antt =====
-- A `CursorMut` stands between two parts of the list: the nodes passed, and those ahead
-- (src/shared/collections/src/linked_list/singly.rs).
use mathlib.Core.Path.{subst}
use Prim.Native.Nat.{min}
use vanadinite.Prelude.{
  ℕ, zero, suc, ◌+◌, ◌-◌, ◌≤◌, ◌≡◌, inl, inr, refl, sym, ap, ◌∙◌, true, false, Option, none, some,
  List, [], ◌∷◌, ◌++◌, ◌==◌, arith, length, length-append,
}
use vanadinite.Collections.Store.{
  Ptr, Store, put, IsPool, IsPool-put, Run, done, load_lem, modify_lem, deallocate_lem,
}
use vanadinite.Collections.Singly.{Node, SinglyLinkedList}
use vanadinite.Collections.Singly.Cursors.{
  CursorMut, cursor_mut, advance, advance_rounds, advance_many, remove_here,
}
use vanadinite.Collections.Cells.{
  has, first, last_of, Apart-has, Apart-tail, snoc_cases, first-append, has-append, last_of-append,
}
use vanadinite.Collections.Singly.Chains.{
  node, Chain, IsList, Chain-put, Chain-append, append-Chain, retarget,
}
use vanadinite.Collections.Singly.Ends.{first-snoc}

module _ {T : Type 0} where
  -- The cursor has passed `xs` and stands before `ys`.
  pub record IsZipper (s : Store (Node T)) (c : CursorMut) (xs ys : List (Ptr × T)) : Type 0 where
    pub head : c.list.head ≡ first (xs ++ ys) none
    pub len : c.list.len ≡ length xs + length ys
    pub previous : c.previous ≡ last_of xs none
    pub position : c.position ≡ first ys none
    pub index : c.index ≡ length xs
    pub chain : Chain s.cell (xs ++ ys) none
    pub pool : IsPool s.cell s.pool

  pub last_of_snoc :
      (xs : List (Ptr × T)) (x : Ptr × T) (before : Option Ptr)
      → last_of (xs ++ x ∷ []) before ≡ some x.0
  last_of_snoc [] x before = refl
  last_of_snoc ((p, v) ∷ xs) x before = last_of_snoc xs x (some p)

  pub snoc_append : (xs ys : List (Ptr × T)) (x : Ptr × T) → (xs ++ x ∷ []) ++ ys ≡ xs ++ x ∷ ys
  snoc_append [] ys x = refl
  snoc_append (y ∷ xs) ys x = ap (λ l. y ∷ l) (snoc_append xs ys x)

  pub new-IsZipper :
      (s : Store (Node T)) (l : SinglyLinkedList) (xs : List (Ptr × T))
      → IsList s l xs
      → IsZipper s (cursor_mut l) [] xs
  new-IsZipper s l xs (head, len, chain, pool) = record {
    head = head;
    len = omega (arith, len);
    previous = refl;
    position = head;
    index = refl;
    chain = chain;
    pool = pool;
  }

  pub IsZipper-IsList :
      (s : Store (Node T)) (c : CursorMut) (xs ys : List (Ptr × T))
      → IsZipper s c xs ys
      → IsList s c.list (xs ++ ys)
  IsZipper-IsList s c xs ys z = (z.head, z.len ∙ sym (length-append xs ys), z.chain, z.pool)

  pub advance-IsZipper :
      (s : Store (Node T)) (c : CursorMut) (xs ys : List (Ptr × T)) (p : Ptr) (v : T)
      → IsZipper s c xs ((p, v) ∷ ys)
      → (c' : CursorMut) × (advance c s ≡ done c' s)
        × (c'.list ≡ c.list)
        × IsZipper s c' (xs ++ (p, v) ∷ []) ys
  unfolding advance
  advance-IsZipper s c xs ys p v z =
      let (_, (at, _, _), _) = Chain-append s.cell xs ((p, v) ∷ ys) none z.chain in
      let moved = snoc_append xs ys (p, v) in
      (
        record { list = c.list; index = c.index + 1; previous = some p; position = first ys none },
        rw (advance, z.position, load_lem s p (node v (first ys none)) at) refl,
        refl,
        record {
          head = z.head ∙ sym (ap (λ l. first l none) moved);
          len = omega (arith, z.len, length-append xs ((p, v) ∷ []));
          previous = sym (last_of_snoc xs (p, v) none);
          position = refl;
          index = omega (arith, z.index, length-append xs ((p, v) ∷ []));
          chain = subst (λ l. Chain s.cell l none) (sym moved) z.chain;
          pool = z.pool;
        },
      )

  -- `n` rounds pass `n` nodes.
  pub rounds-IsZipper :
      (n : ℕ) (s : Store (Node T)) (c : CursorMut) (xs ys : List (Ptr × T))
      → n ≤ length ys
      → IsZipper s c xs ys
      → (c' : CursorMut) × (us : List (Ptr × T)) × (vs : List (Ptr × T)) × (advance_rounds n c s
          ≡ done c' s)
        × (c'.list ≡ c.list)
        × (us ++ vs ≡ xs ++ ys)
        × (length us ≡ length xs + n)
        × IsZipper s c' us vs
  unfolding advance_rounds
  rounds-IsZipper zero s c xs ys few z = (c, xs, ys, refl, refl, refl, omega arith, z)
  rounds-IsZipper (suc n) s c xs [] few z = absurd (omega arith)
  rounds-IsZipper (suc n) s c xs ((p, v) ∷ ys) few z =
      let (c1, run, keeps, z1) = advance-IsZipper s c xs ys p v z in
      let (c', us, vs, runs, keeps', same, len, z') =
        rounds-IsZipper n s c1 (xs ++ (p, v) ∷ []) ys (omega arith) z1 in
      (
        c',
        us,
        vs,
        rw (advance_rounds, run) runs,
        keeps' ∙ keeps,
        same ∙ snoc_append xs ys (p, v),
        omega (arith, len, length-append xs ((p, v) ∷ [])),
        z',
      )

  -- The cursor of a list advances to any position in it.
  pub many-IsZipper :
      (s : Store (Node T)) (l : SinglyLinkedList) (xs : List (Ptr × T)) (n : ℕ)
      → IsList s l xs
      → n ≤ length xs
      → (c : CursorMut) × (us : List (Ptr × T)) × (vs : List (Ptr × T)) × (advance_many
            (cursor_mut l)
            n
            s
          ≡ done c s)
        × (c.list ≡ l)
        × (us ++ vs ≡ xs)
        × (length us ≡ n)
        × IsZipper s c us vs
  unfolding advance_many
  many-IsZipper s l xs n h few =
      let rounds : min n l.len ≡ n = ground (arith, h.1) in
      let (c, us, vs, run, keeps, same, count, z) =
        rounds-IsZipper n s (cursor_mut l) [] xs few (new-IsZipper s l xs h) in
      (
        c,
        us,
        vs,
        subst (λ k. advance_rounds k (cursor_mut l) s ≡ done c s) (sym rounds) run,
        keeps,
        same,
        omega (arith, count),
        z,
      )

  abbrev pub CursorGives :
      {A : Type 0} → Run (Node T) (CursorMut × A) → A → List (Ptr × T) → List (Ptr × T) → Type 0
  CursorGives run r xs ys =
      (c : CursorMut) × (s : Store (Node T)) × (run ≡ done (c, r) s) × IsZipper s c xs ys

  -- `remove` takes the node ahead and frees it.
  pub remove_here-IsZipper :
      (s : Store (Node T)) (c : CursorMut) (xs ys : List (Ptr × T)) (p : Ptr) (v : T)
      → IsZipper s c xs ((p, v) ∷ ys)
      → CursorGives (remove_here c s) (some v) xs ys
  unfolding remove_here
  remove_here-IsZipper s c xs ys p v z = elim (snoc_cases xs) [
    | inl e ↦
        subst (λ l. CursorGives (remove_here c s) (some v) l ys) (sym e)
          (at_front (subst (λ l. IsZipper s c l ((p, v) ∷ ys)) e z))
    | inr (zs, r, u, e) ↦
        subst (λ l. CursorGives (remove_here c s) (some v) l ys) (sym e)
          (behind zs r u (subst (λ l. IsZipper s c l ((p, v) ∷ ys)) e z))
  ]
    where
      n : Node T
      n = node v (first ys none)

      at_front : IsZipper s c [] ((p, v) ∷ ys) → CursorGives (remove_here c s) (some v) [] ys
      at_front z =
          let (at, out, rest) = z.chain in
          (
            record {
              list = record { head = first ys none; len = c.list.len - 1 };
              index = c.index;
              previous = c.previous;
              position = first ys none;
            },
            put s p none,
            rw
                (
                  remove_here,
                  z.position,
                  z.previous,
                  load_lem s p (node v (first ys none)) at,
                  load_lem s p (node v (first ys none)) at,
                  deallocate_lem s p (node v (first ys none)) at,
                )
                refl,
            record {
              head = refl;
              len = omega (arith, z.len);
              previous = z.previous;
              position = refl;
              index = z.index;
              chain = Chain-put s p none ys none out rest;
              pool = IsPool-put s p (node v (first ys none)) none at z.pool;
            },
          )

      behind :
          (zs : List (Ptr × T)) (r : Ptr) (u : T)
          → IsZipper s c (zs ++ (r, u) ∷ []) ((p, v) ∷ ys)
          → CursorGives (remove_here c s) (some v) (zs ++ (r, u) ∷ []) ys
      behind zs r u z =
          let xs' = zs ++ (r, u) ∷ [] in
          let (left, (at, out, rest), apart) = Chain-append s.cell xs' ((p, v) ∷ ys) none z.chain in
          let (at_r, moved) = retarget s zs (some p) r u left in
          let (apart', p_out) = Apart-tail xs' ys (p, v) apart in
          let m' = node u (first ys none) in
          let s1 = put s r (some m') in
          let r_in : has r xs' ≡ true = ground (arith, has-append r zs ((r, u) ∷ [])) in
          let r_out : has r ys ≡ false = Apart-has xs' ys r apart' r_in in
          let differ : (p == r) ≡ false = ground (arith, has-append p zs ((r, u) ∷ [])) in
          let at1 : s1.cell p ≡ some (node v (first ys none)) = rw differ at in
          let (h, start) = first-snoc zs r u in
          let front : (l : List (Ptr × T)) → first (xs' ++ l) none ≡ some h =
            λ l. first-append xs' l none ∙ start (first l none) in
          (
            record {
              list = record { head = c.list.head; len = c.list.len - 1 };
              index = c.index;
              previous = c.previous;
              position = first ys none;
            },
            put s1 p none,
            rw
                (
                  remove_here,
                  z.position,
                  load_lem s p (node v (first ys none)) at,
                  z.previous,
                  last_of-append zs r u none,
                  modify_lem s r (node u (some p)) (λ n. record n { next = first ys none }) at_r,
                  load_lem s1 p (node v (first ys none)) at1,
                  deallocate_lem s1 p (node v (first ys none)) at1,
                )
                refl,
            record {
              head = z.head ∙ front ((p, v) ∷ ys) ∙ sym (front ys);
              len = omega (arith, z.len);
              previous = z.previous;
              position = refl;
              index = z.index;
              chain =
                  append-Chain (put s1 p none).cell xs' ys none
                    (Chain-put s1 p none xs' (first ys none) p_out (moved (first ys none)))
                    (Chain-put s1 p none ys none out (Chain-put s r (some m') ys none r_out rest))
                    apart';
              pool =
                  IsPool-put s1 p (node v (first ys none)) none at1
                    (IsPool-put s r (node u (some p)) (some m') at_r z.pool);
            },
          )

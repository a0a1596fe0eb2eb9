-- ===== src/Collections/Doubly/Removal.antt =====
-- `remove` of a `DoublyLinkedList` (src/shared/collections/src/linked_list/doubly.rs). It takes the
-- node out of the chain and corrects the head, but leaves the list's tail as it was.
use mathlib.Core.Path.{subst}
use Prim.Native.Nat.{min}
use vanadinite.Prelude.{
  ℕ, zero, suc, ◌+◌, ◌-◌, ◌<◌, ◌≤◌, ◌≡◌, ◌⊎◌, inl, inr, refl, sym, ap, ◌∙◌, true, false, ◌||◌,
  Option, none, some, List, [], ◌∷◌, ◌++◌, ◌==◌, leb, arith, length, length-append, Bool-cases,
}
use vanadinite.Collections.Store.{
  Ptr, Store, put, IsPool, IsPool-put, done, load_lem, modify_lem, deallocate_lem,
}
use vanadinite.Collections.Cells.{
  has, first, last_of, Apart, Apart-has, Apart-tail, has-append, last_of-append, snoc_cases,
}
use vanadinite.Collections.Doubly.{Node, DoublyLinkedList, if_some, set_next, set_prev, is_empty}
use vanadinite.Collections.Doubly.Cursors.{
  CursorMut, cursor_mut, advance_forward, advance_rounds, advance_forward_many, remove_here, remove,
}
use vanadinite.Collections.Doubly.Chains.{
  node, Chain, IsList, Chain-put, Chain-append, append-Chain, retarget,
}

module _ {T : Type 0} where
  -- `n` rounds pass `n` nodes of the chain ahead.
  rounds_lem :
      (n : ℕ) (s : Store (Node T)) (c : CursorMut) (before : Option Ptr) (ys : List (Ptr × T))
      → n ≤ length ys
      → c.current ≡ first ys none
      → Chain s.cell before ys none
      → (c' : CursorMut) × (us : List (Ptr × T)) × (vs : List (Ptr × T)) × (advance_rounds n c s
          ≡ done c' s)
        × (c'.list ≡ c.list)
        × (us ++ vs ≡ ys)
        × (length us ≡ n)
        × (c'.current ≡ first vs none)
  unfolding advance_rounds advance_forward
  rounds_lem zero s c before ys few here chain = (c, [], ys, refl, refl, refl, refl, here)
  rounds_lem (suc n) s c before [] few here chain = absurd (omega arith)
  rounds_lem (suc n) s c before ((p, v) ∷ ys) few here (at, out, rest) =
      let c1 : CursorMut = record { list = c.list; current = first ys none; index = c.index + 1 } in
      let (c', us, vs, run, keeps, same, count, there) =
        rounds_lem n s c1 (some p) ys (omega arith) refl rest in
      (
        c',
        (p, v) ∷ us,
        vs,
        rw (advance_rounds, advance_forward, here, load_lem s p (node v before (first ys none)) at)
            run,
        keeps,
        ap (λ (l : List (Ptr × T)). (p, v) ∷ l) same,
        omega (arith, count),
        there,
      )

  -- The two sides of a node that is being taken out.
  pub record Sides (s : Store (Node T)) (us vs : List (Ptr × T)) (p : Ptr) (v : T)
      (behind ahead : Option Ptr) : Type 0 where
    pub left : Chain s.cell none us ahead
    pub here : s.cell p ≡ some (node v (last_of us none) (first vs none))
    pub right : Chain s.cell behind vs none
    pub ready : IsPool s.cell s.pool

  pub record Split (us vs : List (Ptr × T)) (p : Ptr) : Type 0 where
    pub apart : Apart us vs
    pub left_out : has p us ≡ false
    pub right_out : has p vs ≡ false

  -- `(*next).prev = node.prev`
  pub skip_back :
      (s : Store (Node T)) (us vs : List (Ptr × T)) (p : Ptr) (v : T) (ahead : Option Ptr)
      → Split us vs p
      → Sides s us vs p v (some p) ahead
      → (s1 : Store (Node T)) × (if_some (first vs none) (λ q. set_prev q (last_of us none)) s
          ≡ done tt s1)
        × Sides s1 us vs p v (last_of us none) ahead
  skip_back s us [] p v ahead split h =
      (s, refl, record { left = h.left; here = h.here; right = tt; ready = h.ready })
  skip_back s us ((q, w) ∷ vs) p v ahead split h =
      let (at, out, rest) = h.right in
      let n = node w (some p) (first vs none) in
      let n' = node w (last_of us none) (first vs none) in
      let (_, away) = Apart-tail us vs (q, w) split.apart in
      let differ : (p == q) ≡ false = ground (arith, split.right_out) in
      (
        put s q (some n'),
        modify_lem s q n (λ n. record n { prev = last_of us none }) at,
        record {
          left = Chain-put s q (some n') none us ahead away h.left;
          here = rw differ h.here;
          right = (ground arith, out, Chain-put s q (some n') (some q) vs none out rest);
          ready = IsPool-put s q n (some n') at h.ready;
        },
      )

  -- `(*prev).next = node.next`
  pub skip_ahead :
      (s : Store (Node T)) (us vs : List (Ptr × T)) (p : Ptr) (v : T) (behind : Option Ptr)
      → Split us vs p
      → Sides s us vs p v behind (some p)
      → (us ≡ []) ⊎ ((ys : List (Ptr × T)) × (r : Ptr) × (u : T) × (us ≡ ys ++ (r, u) ∷ []))
      → (s1 : Store (Node T)) × (if_some (last_of us none) (λ r. set_next r (first vs none)) s
          ≡ done tt s1)
        × Sides s1 us vs p v behind (first vs none)
  skip_ahead s us vs p v behind split h (inl e) = (
    s,
    rw e refl,
    record {
      left = subst (λ k. Chain s.cell none k (first vs none)) (sym e) tt;
      here = h.here;
      right = h.right;
      ready = h.ready;
    },
  )
  skip_ahead s us vs p v behind split h (inr (ys, r, u, e)) =
      let (at, moved) =
        retarget s none ys (some p) r u (subst (λ k. Chain s.cell none k (some p)) e h.left) in
      let n = node u (last_of ys none) (some p) in
      let n' = node u (last_of ys none) (first vs none) in
      let last : last_of us none ≡ some r =
        ap (λ k. last_of k none) e ∙ last_of-append ys r u none in
      let inside : has r us ≡ true = ap (has r) e ∙ ground (arith, has-append r ys ((r, u) ∷ [])) in
      let outside : has p (ys ++ (r, u) ∷ []) ≡ false = sym (ap (has p) e) ∙ split.left_out in
      let differ : (p == r) ≡ false = ground (arith, has-append p ys ((r, u) ∷ [])) in
      (
        put s r (some n'),
        rw (last, modify_lem s r n (λ n. record n { next = first vs none }) at) refl,
        record {
          left =
              subst (λ k. Chain (put s r (some n')).cell none k (first vs none)) (sym e)
                (moved (first vs none));
          here = rw differ h.here;
          right =
              Chain-put s r (some n') behind vs none (Apart-has us vs r split.apart inside) h.right;
          ready = IsPool-put s r n (some n') at h.ready;
        },
      )

  last_some : (us : List (Ptr × T)) (k : Ptr) → (q : Ptr) × (last_of us (some k) ≡ some q)
  last_some [] k = (k, refl)
  last_some ((q, _) ∷ us) k = last_some us q

  -- The head that `remove` writes.
  head_after :
      (us vs : List (Ptr × T)) (x : Ptr × T) (h : Option Ptr)
      → h ≡ first (us ++ x ∷ vs) none
      → elim (last_of us none) [ none ↦ first vs none | some _ ↦ h ] ≡ first (us ++ vs) none
  head_after [] vs x h e = refl
  head_after ((p, v) ∷ us) vs x h e = let (q, last) = last_some us p in rw last e

  -- What `remove` leaves: all but the tail is that of a list.
  abbrev pub Without :
      Option Ptr → Ptr → Store (Node T) → DoublyLinkedList → List (Ptr × T) → Type 0
  Without tail p s l xs =
      (l.head ≡ first xs none)
      × (l.tail ≡ tail)
      × (l.len ≡ length xs)
      × Chain s.cell none xs none
      × IsPool s.cell s.pool
      × (s.cell p ≡ none)

  at_node :
      (s : Store (Node T)) (c : CursorMut) (us vs : List (Ptr × T)) (p : Ptr) (v : T)
      → IsList s c.list (us ++ (p, v) ∷ vs)
      → c.current ≡ some p
      → (c' : CursorMut) × (s' : Store (Node T)) × (remove_here c s ≡ done (c', some v) s')
        × Without c.list.tail p s' c'.list (us ++ vs)
  unfolding remove_here
  at_node s c us vs p v (head, tail, len, chain, pool) here =
      let (left, (at, out, right), apart) = Chain-append s.cell none us ((p, v) ∷ vs) none chain in
      let (away, p_out) = Apart-tail us vs (p, v) apart in
      let split : Split us vs p = record { apart = away; left_out = p_out; right_out = out } in
      by_next at split (
        skip_back s us vs p v (some p) split
          (record { left = left; here = at; right = right; ready = pool }))
    where
      Removed : Type 0
      Removed =
          (c' : CursorMut) × (s' : Store (Node T)) × (remove_here c s ≡ done (c', some v) s')
          × Without c.list.tail p s' c'.list (us ++ vs)

      by_prev :
          (s1 : Store (Node T))
          → s.cell p ≡ some (node v (last_of us none) (first vs none))
          → Split us vs p
          → if_some (first vs none) (λ q. set_prev q (last_of us none)) s ≡ done tt s1
          → (s2 : Store (Node T)) × (if_some (last_of us none) (λ r. set_next r (first vs none)) s1
              ≡ done tt s2)
            × Sides s2 us vs p v (last_of us none) (first vs none)
          → Removed
      by_prev s1 at split run (s2, runs, h) =
          let l' : DoublyLinkedList = record {
            head = elim (last_of us none) [ none ↦ first vs none | some _ ↦ c.list.head ];
            tail = c.list.tail;
            len = c.list.len - 1;
          } in
          (
            record { list = l'; current = first vs none; index = c.index },
            put s2 p none,
            rw
                (
                  remove_here,
                  here,
                  load_lem s p (node v (last_of us none) (first vs none)) at,
                  run,
                  runs,
                  deallocate_lem s2 p (node v (last_of us none) (first vs none)) h.here,
                )
                refl,
            (
              head_after us vs (p, v) c.list.head head,
              refl,
              omega (arith, len, length-append us ((p, v) ∷ vs), length-append us vs),
              append-Chain (put s2 p none).cell none us vs none
                  (Chain-put s2 p none none us (first vs none) split.left_out h.left)
                  (Chain-put s2 p none (last_of us none) vs none split.right_out h.right)
                  split.apart,
              IsPool-put s2 p (node v (last_of us none) (first vs none)) none h.here h.ready,
              ground arith,
            ),
          )

      by_next :
          s.cell p ≡ some (node v (last_of us none) (first vs none))
          → Split us vs p
          → (s1 : Store (Node T)) × (if_some (first vs none) (λ q. set_prev q (last_of us none)) s
              ≡ done tt s1)
            × Sides s1 us vs p v (last_of us none) (some p)
          → Removed
      by_next at split (s1, run, h) =
          by_prev s1 at split run
            (skip_ahead s1 us vs p v (last_of us none) split h (snoc_cases us))

  -- `remove` returns nothing at an index past the list, and else the value there. It frees the node,
  -- chains the others in their order, and sets the head and the length to theirs. The tail of the list
  -- stays what it was, the freed node if that was the last.
  pub remove_lem :
      (s : Store (Node T)) (l : DoublyLinkedList) (xs : List (Ptr × T)) (i : ℕ)
      → IsList s l xs
      → ((length xs ≤ i) × (remove l i s ≡ done (l, none) s))
        ⊎ ((us : List (Ptr × T)) × (p : Ptr) × (v : T) × (vs : List (Ptr × T)) × (us ++ (p, v) ∷ vs
              ≡ xs)
            × (length us ≡ i)
            × ((l' : DoublyLinkedList) × (s' : Store (Node T)) × (remove l i s
                  ≡ done (l', some v) s')
                × Without l.tail p s' l' (us ++ vs)))
  unfolding remove advance_forward_many is_empty
  remove_lem s l xs i h = elim (Bool-cases (is_empty l || leb l.len i)) [
    | inl past ↦ inl (ground (arith, h.1), rw (remove, past) refl)
    | inr within ↦
        let few : i < length xs = ground (arith, h.1) in
        inr (by_cursor few within (rounds_lem i s (cursor_mut l) none xs (omega arith) h.0 h.3))
  ]
    where
      Taken : Type 0
      Taken =
          (us : List (Ptr × T)) × (p : Ptr) × (v : T) × (vs : List (Ptr × T)) × (us ++ (p, v) ∷ vs
            ≡ xs)
          × (length us ≡ i)
          × ((l' : DoublyLinkedList) × (s' : Store (Node T)) × (remove l i s ≡ done (l', some v) s')
              × Without l.tail p s' l' (us ++ vs))

      by_node :
          (c : CursorMut) (us : List (Ptr × T)) (p : Ptr) (v : T) (vs : List (Ptr × T))
          → (is_empty l || leb l.len i) ≡ false
          → advance_forward_many (cursor_mut l) i s ≡ done c s
          → c.list ≡ l
          → us ++ (p, v) ∷ vs ≡ xs
          → length us ≡ i
          → (c' : CursorMut) × (s' : Store (Node T)) × (remove_here c s ≡ done (c', some v) s')
            × Without c.list.tail p s' c'.list (us ++ vs)
          → Taken
      by_node c us p v vs within run keeps same count (c', s', runs, left) = (
        us,
        p,
        v,
        vs,
        same,
        count,
        (
          c'.list,
          s',
          rw (remove, within, run, runs) refl,
          subst (λ k. Without k.tail p s' c'.list (us ++ vs)) keeps left,
        ),
      )

      by_cursor :
          i < length xs
          → (is_empty l || leb l.len i) ≡ false
          → (c : CursorMut) × (us : List (Ptr × T)) × (vs : List (Ptr × T)) × (advance_rounds i
                (cursor_mut l)
                s
              ≡ done c s)
            × (c.list ≡ l)
            × (us ++ vs ≡ xs)
            × (length us ≡ i)
            × (c.current ≡ first vs none)
          → Taken
      by_cursor few within (c, us, [], run, keeps, same, count, here) =
          absurd (omega (arith, sym (length-append us []) ∙ ap length same, count, few))
      by_cursor few within (c, us, (p, v) ∷ vs, run, keeps, same, count, here) =
          let rounds : min i l.len ≡ i = ground (arith, h.2) in
          by_node c us p v vs within
            (subst (λ k. advance_rounds k (cursor_mut l) s ≡ done c s) (sym rounds) run) keeps same
            count
            (at_node s c us vs p v
              (subst (λ k. IsList s k (us ++ (p, v) ∷ vs)) (sym keeps)
                (subst (IsList s l) (sym same) h))
              here)

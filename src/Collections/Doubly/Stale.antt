-- ===== src/Collections/Doubly/Stale.antt =====
-- `pop_front` of a `DoublyLinkedList` frees the first node, and leaves the address of it in the next
-- one (src/shared/collections/src/linked_list/doubly.rs).
use Prim.Native.Nat.{min}
use vanadinite.Prelude.{◌-◌, ◌≡◌, refl, false, ◌||◌, none, some, List, [], ◌∷◌, ◌==◌, leb, arith}
use vanadinite.Collections.Store.{
  Ptr, Store, put, done, fault, load_lem, modify_lem, deallocate_lem, dangling_modify, ◌>>=◌,
}
use vanadinite.Collections.Cells.{has, first}
use vanadinite.Collections.Doubly.{Node, DoublyLinkedList, pop_front, is_empty}
use vanadinite.Collections.Doubly.Cursors.{
  CursorMut, cursor_mut, advance_forward_many, advance_rounds, remove_here, remove,
}
use vanadinite.Collections.Doubly.Chains.{node, Chain, IsList, Chain-put}

module _ {T : Type 0} where
  pop_front_run :
      (s : Store (Node T)) (l : DoublyLinkedList) (p q : Ptr) (v : T)
      → l.head ≡ some p
      → s.cell p ≡ some (node v none (some q))
      → pop_front l s
        ≡ done (record { head = some q; tail = l.tail; len = l.len - 1 }, some v) (put s p none)
  unfolding pop_front
  pop_front_run s l p q v head at =
      rw
        (
          pop_front,
          head,
          load_lem s p (node v none (some q)) at,
          deallocate_lem s p (node v none (some q)) at,
        )
        refl

  remove-fault :
      (s : Store (Node T)) (c : CursorMut) (p q : Ptr) (w : T) (xs : List (Ptr × T))
      → c.current ≡ some q
      → s.cell q ≡ some (node w (some p) (first xs none))
      → Chain s.cell (some q) xs none
      → has p xs ≡ false
      → s.cell p ≡ none
      → remove_here c s ≡ fault
  unfolding remove_here
  remove-fault s c p q w [] here at rest out gone =
      rw
        (
          remove_here,
          here,
          load_lem s q (node w (some p) none) at,
          dangling_modify s p (λ n. record n { next = none }) gone,
        )
        refl
  remove-fault s c p q w ((r, u) ∷ xs) here at (at_r, out_r, rest) out gone =
      let n = node u (some q) (first xs none) in
      let s1 = put s r (some (node u (some p) (first xs none))) in
      let gone1 : s1.cell p ≡ none = ground arith in
      rw
        (
          remove_here,
          here,
          load_lem s q (node w (some p) (some r)) at,
          modify_lem s r n (λ n. record n { prev = some p }) at_r,
          dangling_modify s1 p (λ n. record n { next = some r }) gone1,
        )
        refl

  -- After `pop_front` on a list of two or more nodes, `remove(0)` writes to the freed node, a fault.
  pub pop_front-stale :
      (s : Store (Node T)) (l : DoublyLinkedList) (p q : Ptr) (v w : T) (xs : List (Ptr × T))
      → IsList s l ((p, v) ∷ (q, w) ∷ xs)
      → (pop_front l >>= λ r. remove r.0 0) s ≡ fault
  unfolding remove advance_forward_many advance_rounds is_empty
  pop_front-stale s l p q v w xs (head, tail, len, (at, out, (at_q, out_q, rest)), pool) =
      let n = node w (some p) (first xs none) in
      let l1 : DoublyLinkedList = record { head = some q; tail = l.tail; len = l.len - 1 } in
      let s1 = put s p none in
      let nonempty : (l.len - 1 == 0 || leb (l.len - 1) 0) ≡ false = ground (arith, len) in
      let apart : (q == p) ≡ false = ground arith in
      let at1 : s1.cell q ≡ some n = rw apart at_q in
      let gone : s1.cell p ≡ none = ground arith in
      let rounds : min 0 (l.len - 1) ≡ 0 = ground arith in
      rw
        (
          pop_front_run s l p q v head at,
          remove,
          nonempty,
          rounds,
          remove-fault s1 (cursor_mut l1) p q w xs refl at1
              (Chain-put s p none (some q) xs none (ground arith) rest) (ground arith) gone,
        )
        refl

-- ===== src/Collections/Doubly/Cursors.antt =====
-- `CursorMut`, `remove`, `drain` and `split`
-- (src/shared/collections/src/linked_list/doubly.rs).
use Prim.Native.Nat.{min}
use vanadinite.Prelude.{
  ℕ, zero, suc, ◌+◌, ◌-◌, ◌||◌, Option, none, some, List, [], ◌∷◌, leb, ◌==◌, if◌then◌else◌,
}
use vanadinite.Collections.Store.{
  Ptr, Allocated, allocated, alloc_error, M, pure, ◌>>=◌, ◌>>◌, load, modify, deallocate,
}
use vanadinite.Collections.Ranges.{Bound, drain_range}
use vanadinite.Collections.Doubly.{
  Node, DoublyLinkedList, new, is_empty, set_next, set_prev, if_some, new_node, push_front,
  push_back,
}

pub record CursorMut : Type 0 where
  pub list : DoublyLinkedList
  pub current : Option Ptr
  pub index : ℕ

abbrev pub cursor_mut : DoublyLinkedList → CursorMut
cursor_mut l = record { list = l; current = l.head; index = 0 }

abbrev pub cursor_back_mut : DoublyLinkedList → CursorMut
cursor_back_mut l = record { list = l; current = l.tail; index = l.len - 1 }

at_front : CursorMut → DoublyLinkedList × Allocated → CursorMut × Allocated
at_front self (l, allocated) = (record self { list = l; current = l.head }, allocated)
at_front self (l, alloc_error) = (record self { list = l }, alloc_error)

at_back : CursorMut → DoublyLinkedList × Allocated → CursorMut × Allocated
at_back self (l, allocated) = (record self { list = l; current = l.tail }, allocated)
at_back self (l, alloc_error) = (record self { list = l }, alloc_error)

module _ {T : Type 0} where
  unfoldable pub advance_forward : CursorMut → M (Node T) CursorMut
  unfolding load
  advance_forward self = elim self.current [
    | none ↦ pure self
    | some p ↦ do n ← load p; pure (record self { current = n.next; index = self.index + 1 })
  ]

  unfoldable pub advance_rounds : ℕ → CursorMut → M (Node T) CursorMut
  unfolding advance_forward
  advance_rounds zero self = pure self
  advance_rounds (suc n) self = do c ← advance_forward self; advance_rounds n c

  unfoldable pub advance_forward_many : CursorMut → ℕ → M (Node T) CursorMut
  unfolding advance_rounds
  advance_forward_many self n = advance_rounds (min n self.list.len) self

  unfoldable pub advance_backward : CursorMut → M (Node T) CursorMut
  unfolding load
  advance_backward self =
      if self.index == self.list.len
      then pure (record self { index = self.index - 1; current = self.list.tail })
      else elim self.current [
        | none ↦ pure self
        | some p ↦ do
          n ← load p
          elim n.prev [
            | none ↦ pure self
            | some q ↦ pure (record self { current = some q; index = self.index - 1 })
          ]
      ]

  unfoldable pub backward_rounds : ℕ → CursorMut → M (Node T) CursorMut
  unfolding advance_backward
  backward_rounds zero self = pure self
  backward_rounds (suc n) self = do c ← advance_backward self; backward_rounds n c

  unfoldable pub advance_backward_many : CursorMut → ℕ → M (Node T) CursorMut
  unfolding backward_rounds
  advance_backward_many self n = backward_rounds (min n self.list.len) self

  value_at : Option Ptr → M (Node T) (Option T)
  unfolding load
  value_at none = pure none
  value_at (some p) = do n ← load p; pure (some n.value)

  -- `current`
  unfoldable pub current_value : CursorMut → M (Node T) (Option T)
  unfolding value_at
  current_value self = value_at self.current

  unfoldable pub previous : CursorMut → M (Node T) (Option T)
  unfolding value_at load
  previous self = elim self.current [
    | none ↦ value_at self.list.tail
    | some p ↦ do n ← load p; value_at n.prev
  ]

  -- `next`
  unfoldable pub next_value : CursorMut → M (Node T) (Option T)
  unfolding value_at load
  next_value self = elim self.current [ none ↦ pure none | some p ↦ do n ← load p; value_at n.next ]

  unfoldable pub insert_here : CursorMut → T → M (Node T) (CursorMut × Allocated)
  unfolding push_front push_back at_front at_back load new_node
  insert_here self v =
      if self.index == 0
      then (do r ← push_front self.list v; pure (at_front self r))
      else elim self.current [
        | none ↦ do r ← push_back self.list v; pure (at_back self r)
        | some p ↦ do
          n ← load p
          made ← new_node v n.prev (some p)
          elim made [
            | none ↦ pure (self, alloc_error)
            | some q ↦ pure (
              record self { list = record self.list { len = self.list.len + 1 }; current = some q },
              allocated,
            )
          ]
      ]

  -- `CursorMut::remove`. The list's tail is not written.
  unfoldable pub remove_here : CursorMut → M (Node T) (CursorMut × Option T)
  unfolding load modify deallocate
  remove_here self = elim self.current [
    | none ↦ pure (self, none)
    | some p ↦ do
      n ← load p
      if_some n.next (λ q. set_prev q n.prev)
      if_some n.prev (λ q. set_next q n.next)
      deallocate p
      pure (
        record self {
          list = record self.list {
            head = elim n.prev [ none ↦ n.next | some _ ↦ self.list.head ];
            len = self.list.len - 1;
          };
          current = n.next;
        },
        some n.value,
      )
  ]

  -- `DoublyLinkedList::remove`
  unfoldable pub remove : DoublyLinkedList → ℕ → M (Node T) (DoublyLinkedList × Option T)
  unfolding advance_forward_many remove_here
  remove self at = if is_empty self || leb self.len at then pure (self, none) else (do
    c ← advance_forward_many (cursor_mut self) at
    (c', v) ← remove_here c
    pure (c'.list, v))

  -- A `Drain` that is run to its end or dropped: `n` calls of `next`.
  unfoldable pub drain_rounds : ℕ → CursorMut → M (Node T) (CursorMut × List T)
  unfolding remove_here
  drain_rounds zero self = pure (self, [])
  drain_rounds (suc n) self = do
    (c, v) ← remove_here self
    elim v [ none ↦ pure (c, []) | some x ↦ do (c', xs) ← drain_rounds n c; pure (c', x ∷ xs) ]

  -- `none` is `DrainRangeError`.
  unfoldable pub drain :
      DoublyLinkedList → Bound → Bound → M (Node T) (DoublyLinkedList × Option (List T))
  unfolding advance_forward_many drain_rounds
  drain self from to = elim (drain_range self.len from to) [
    | none ↦ pure (self, none)
    | some (s, e) ↦ do
      c ← advance_forward_many (cursor_mut self) s
      (c', xs) ← drain_rounds (e - s) c
      pure (c'.list, some xs)
  ]

  -- The cursor, whose list is the first part, and the second part.
  unfoldable pub split : CursorMut → M (Node T) (CursorMut × DoublyLinkedList)
  unfolding load modify
  split self =
      if self.index == 0
      then pure (record self { list = new; current = none }, self.list)
      else elim self.current [
        | none ↦ pure (self, new)
        | some p ↦ do
          n ← load p
          if_some n.prev (λ q. set_next q none)
          set_prev p none
          pure (
            record self {
              list = record self.list {
                tail = n.prev;
                len = self.list.len - (self.list.len - self.index);
              };
              current = none;
            },
            record { head = some p; tail = self.list.tail; len = self.list.len - self.index },
          )
      ]

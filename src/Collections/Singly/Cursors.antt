-- ===== src/Collections/Singly/Cursors.antt =====
-- `CursorMut`, and the operations that use one: `insert`, `drain`, `append`
-- (src/shared/collections/src/linked_list/singly.rs).
pub mod Inserts
pub mod Removals
pub mod Zippers
use Prim.Native.Nat.{min}
use vanadinite.Prelude.{
  ℕ, zero, suc, ◌+◌, ◌-◌, Bool, true, false, Option, none, some, List, [], ◌∷◌, ltb, if◌then◌else◌,
}
use vanadinite.Collections.Store.{
  Ptr, Store, Run, done, fault, Allocated, allocated, alloc_error, M, pure, ◌>>=◌, ◌>>◌, load,
  modify, allocate, deallocate,
}
use vanadinite.Collections.Ranges.{Bound, drain_range}
use vanadinite.Collections.Singly.{
  Node, SinglyLinkedList, set_next, new_node, push_front, last_node, extend_from,
}

pub record CursorMut : Type 0 where
  pub list : SinglyLinkedList
  pub index : ℕ
  pub previous : Option Ptr
  pub position : Option Ptr

-- `InsertError` and `Ok(())`
pub data Inserted (T : Type 0) : Type 0 where
  inserted : Inserted T
  invalid_position : T → Inserted T
  no_memory : Inserted T

abbrev pub cursor_mut : SinglyLinkedList → CursorMut
cursor_mut l = record { list = l; index = 0; previous = none; position = l.head }

at_head : CursorMut → SinglyLinkedList × Allocated → CursorMut × Allocated
at_head self (l, allocated) = (record self { list = l; position = l.head }, allocated)
at_head self (l, alloc_error) = (record self { list = l }, alloc_error)

module _ {T : Type 0} where
  unfoldable pub advance : CursorMut → M (Node T) CursorMut
  unfolding load
  advance self = elim self.position [
    | none ↦ pure self
    | some p ↦ do
      n ← load p
      pure (record self { index = self.index + 1; previous = some p; position = n.next })
  ]

  unfoldable pub advance_rounds : ℕ → CursorMut → M (Node T) CursorMut
  unfolding advance
  advance_rounds zero self = pure self
  advance_rounds (suc n) self = do c ← advance self; advance_rounds n c

  unfoldable pub advance_many : CursorMut → ℕ → M (Node T) CursorMut
  unfolding advance_rounds
  advance_many self n = advance_rounds (min n self.list.len) self

  -- `CursorMut::current`
  unfoldable pub current_value : CursorMut → M (Node T) (Option T)
  unfolding load
  current_value self = elim self.position [
    | none ↦ pure none
    | some p ↦ do n ← load p; pure (some n.value)
  ]

  -- `CursorMut::next`
  unfoldable pub next_value : CursorMut → M (Node T) (Option T)
  unfolding load
  next_value self = elim self.position [
    | none ↦ pure none
    | some p ↦ do
      n ← load p
      elim n.next [ none ↦ pure none | some q ↦ do m ← load q; pure (some m.value) ]
  ]

  -- `CursorMut::remove`
  unfoldable pub remove_here : CursorMut → M (Node T) (CursorMut × Option T)
  unfolding load modify deallocate
  remove_here self = elim self.position [
    | none ↦ pure (self, none)
    | some current ↦ do
      n ← load current
      head ← elim self.previous [
        | none ↦ pure n.next
        | some prev ↦ do set_next prev n.next; pure self.list.head
      ]
      m ← load current
      deallocate current
      pure (
        record self { list = record { head = head; len = self.list.len - 1 }; position = n.next },
        some m.value,
      )
  ]

  -- `CursorMut::insert`
  unfoldable pub insert_here : CursorMut → T → M (Node T) (CursorMut × Allocated)
  unfolding push_front at_head modify allocate
  insert_here self v = elim self.previous [
    | none ↦ do r ← push_front self.list v; pure (at_head self r)
    | some prev ↦ do
      made ← new_node v
      elim made [
        | none ↦ pure (self, alloc_error)
        | some p ↦ do
          set_next prev (some p)
          elim self.position [ none ↦ pure tt | some current ↦ set_next p (some current) ]
          pure (
            record self { list = record self.list { len = self.list.len + 1 }; position = some p },
            allocated,
          )
      ]
  ]

  -- The cursor, whose list is the first part, and the second part.
  unfoldable pub split : CursorMut → M (Node T) (CursorMut × SinglyLinkedList)
  unfolding modify
  split self = elim self.previous [
    | none ↦ pure (
      record self { list = record { head = none; len = 0 }; position = none },
      record { head = self.list.head; len = self.list.len },
    )
    | some prev ↦ do
      set_next prev none
      pure (
        record self {
          list = record self.list { len = self.list.len - (self.list.len - self.index) };
          position = some prev;
        },
        record { head = self.position; len = self.list.len - self.index },
      )
  ]

  -- The cursor and the other list after the call.
  unfoldable pub insert_list :
      CursorMut → SinglyLinkedList → M (Node T) (CursorMut × SinglyLinkedList)
  unfolding last_node modify
  insert_list self other = do
    last ← last_node other
    elim last [
      | none ↦ pure (self, other)
      | some other_last ↦ elim other.head [
        | none ↦ (λ _. fault)
        | some head ↦ do
          list_head ← elim self.previous [
            | some prev ↦ do
              set_next prev (some head)
              set_next other_last self.position
              pure self.list.head
            | none ↦ do set_next other_last self.list.head; pure (some head)
          ]
          pure (
            record self {
              list = record { head = list_head; len = self.list.len + other.len };
              position = some head;
            },
            record { head = none; len = 0 },
          )
      ]
    ]

  to_inserted : CursorMut × Allocated → SinglyLinkedList × Inserted T
  to_inserted (c, allocated) = (c.list, inserted)
  to_inserted (c, alloc_error) = (c.list, no_memory)

  -- `SinglyLinkedList::insert`
  unfoldable pub insert : SinglyLinkedList → ℕ → T → M (Node T) (SinglyLinkedList × Inserted T)
  unfolding advance_many insert_here to_inserted
  insert self at v =
      if ltb self.len at
      then pure (self, invalid_position v)
      else (do c ← advance_many (cursor_mut self) at; r ← insert_here c v; pure (to_inserted r))

  -- A `Drain` that is run to its end or dropped: `n` calls of `next`.
  unfoldable pub drain_rounds : ℕ → CursorMut → M (Node T) (CursorMut × List T)
  unfolding remove_here
  drain_rounds zero self = pure (self, [])
  drain_rounds (suc n) self = do
    (c, v) ← remove_here self
    elim v [ none ↦ pure (c, []) | some x ↦ do (c', xs) ← drain_rounds n c; pure (c', x ∷ xs) ]

  -- `none` is `DrainRangeError`.
  unfoldable pub drain :
      SinglyLinkedList → Bound → Bound → M (Node T) (SinglyLinkedList × Option (List T))
  unfolding advance_many drain_rounds
  drain self from to = elim (drain_range self.len from to) [
    | none ↦ pure (self, none)
    | some (s, e) ↦ do
      c ← advance_many (cursor_mut self) s
      (c', xs) ← drain_rounds (e - s) c
      pure (c'.list, some xs)
  ]

  unfoldable pub from_iter : List T → M (Node T) (SinglyLinkedList × Allocated)
  unfolding extend_from
  from_iter vs = extend_from (record { head = none; len = 0 }) vs

  -- `append`: the two lists after the call.
  unfoldable pub append :
      SinglyLinkedList → SinglyLinkedList → M (Node T) (SinglyLinkedList × SinglyLinkedList)
  unfolding last_node modify
  append self other = elim self.head [
    | none ↦ pure (record { head = other.head; len = other.len }, record { head = none; len = 0 })
    | some _ ↦ elim other.head [
      | none ↦ pure (self, other)
      | some other_head ↦ do
        last ← last_node (record self { len = self.len + other.len })
        elim last [
          | none ↦ (λ _. fault)
          | some q ↦ do
            set_next q (some other_head)
            pure (record self { len = self.len + other.len }, record { head = none; len = 0 })
        ]
    ]
  ]

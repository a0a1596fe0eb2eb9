-- ===== src/Collections/Doubly.antt =====
-- `DoublyLinkedList`: src/shared/collections/src/linked_list/doubly.rs. A loop of the source has as
-- many rounds as it counts, so that none needs fuel.
pub mod Chains
pub mod Cursors
pub mod Ends
pub mod Removal
pub mod Stale
mod Tests
use Prim.Native.Nat.{min}
use vanadinite.Prelude.{
  ℕ, zero, suc, ◌+◌, ◌-◌, ◌^◌, Bool, true, false, ◌&&◌, ◌||◌, Option, none, some, List, [], ◌∷◌,
  ltb, leb, ◌==◌, if◌then◌else◌,
}
use vanadinite.Collections.Store.{
  Ptr, Store, Run, done, fault, out_of_fuel, Allocated, allocated, alloc_error, M, pure, ◌>>=◌,
  ◌>>◌, load, modify, allocate, deallocate,
}

pub record Node (T : Type 0) : Type 0 where
  pub value : T
  pub prev : Option Ptr
  pub next : Option Ptr

pub record DoublyLinkedList : Type 0 where
  pub head : Option Ptr
  pub tail : Option Ptr
  pub len : ℕ

pub data Inserted (T : Type 0) : Type 0 where
  inserted : Inserted T
  alloc_failed : Inserted T
  invalid_index : T → Inserted T

abbrev pub new : DoublyLinkedList
new = record { head = none; tail = none; len = 0 }

unfoldable pub is_empty : DoublyLinkedList → Bool
is_empty self = self.len == 0

module _ {T : Type 0} where
  abbrev pub set_next : Ptr → Option Ptr → M (Node T) (Unit {0})
  set_next p to = modify p (λ n. record n { next = to })

  abbrev pub set_prev : Ptr → Option Ptr → M (Node T) (Unit {0})
  set_prev p to = modify p (λ n. record n { prev = to })

  abbrev pub if_some : Option Ptr → (Ptr → M (Node T) (Unit {0})) → M (Node T) (Unit {0})
  if_some none f = pure tt
  if_some (some p) f = f p

  -- `Node::new`
  unfoldable pub new_node : T → Option Ptr → Option Ptr → M (Node T) (Option Ptr)
  unfolding allocate modify
  new_node v prev next = do
    made ← allocate (record { value = v; prev = prev; next = next })
    elim made [
      | none ↦ pure none
      | some me ↦ do
        if_some prev (λ p. set_next p (some me))
        if_some next (λ n. set_prev n (some me))
        pure (some me)
    ]

  unfoldable pub push_front : DoublyLinkedList → T → M (Node T) (DoublyLinkedList × Allocated)
  unfolding new_node
  push_front self v = do
    made ← new_node v none self.head
    elim made [
      | none ↦ pure (self, alloc_error)
      | some p ↦ pure (
        record {
          head = some p;
          tail = elim self.head [ none ↦ some p | some _ ↦ self.tail ];
          len = self.len + 1;
        },
        allocated,
      )
    ]

  unfoldable pub push_back : DoublyLinkedList → T → M (Node T) (DoublyLinkedList × Allocated)
  unfolding new_node
  push_back self v = do
    made ← new_node v self.tail none
    elim made [
      | none ↦ pure (self, alloc_error)
      | some p ↦ pure (
        record {
          head = elim self.head [ none ↦ some p | some head ↦ some head ];
          tail = some p;
          len = self.len + 1;
        },
        allocated,
      )
    ]

  -- The loop of `node_at`
  unfoldable pub node_loop : ℕ → Ptr → M (Node T) (Option Ptr)
  unfolding load
  node_loop zero p = pure (some p)
  node_loop (suc left) p = do
    n ← load p
    elim n.next [ none ↦ pure none | some q ↦ node_loop left q ]

  unfoldable pub node_at : DoublyLinkedList → ℕ → M (Node T) (Option Ptr)
  unfolding node_loop
  node_at self index = elim self.head [ none ↦ pure none | some p ↦ node_loop index p ]

  abbrev pub to_inserted : DoublyLinkedList × Allocated → DoublyLinkedList × Inserted T
  to_inserted (l, allocated) = (l, inserted)
  to_inserted (l, alloc_error) = (l, alloc_failed)

  -- `self.len += 1` comes before the allocation, and stays if that fails.
  unfoldable pub insert : DoublyLinkedList → ℕ → T → M (Node T) (DoublyLinkedList × Inserted T)
  unfolding push_front push_back node_at load new_node
  insert self at v =
      if at == 0
      then (do r ← push_front self v; pure (to_inserted r))
      else if at == self.len
      then (do r ← push_back self v; pure (to_inserted r))
      else if ltb self.len at
      then pure (self, invalid_index v)
      else (do
        found ← node_at self at
        elim found [
          | none ↦ (λ _. fault)
          | some node ↦ do
            n ← load node
            made ← new_node v n.prev (some node)
            pure (
              record self { len = self.len + 1 },
              elim made [ none ↦ alloc_failed | some _ ↦ inserted ],
            )
        ])

  -- The nodes behind `last` are appended, and the tail is written only at the end.
  unfoldable pub extend_loop :
      DoublyLinkedList → Ptr → List T → M (Node T) (DoublyLinkedList × Allocated)
  unfolding new_node
  extend_loop self last [] = pure (record self { tail = some last }, allocated)
  extend_loop self last (v ∷ vs) = do
    made ← new_node v (some last) none
    elim made [
      | none ↦ pure (self, alloc_error)
      | some p ↦ extend_loop (record self { len = self.len + 1 }) p vs
    ]

  unfoldable pub extend_from : DoublyLinkedList → List T → M (Node T) (DoublyLinkedList × Allocated)
  unfolding push_back extend_loop
  extend_from self vs = by_tail self.tail vs
    where
      after_push : DoublyLinkedList × Allocated → List T → M (Node T) (DoublyLinkedList × Allocated)
      after_push (l, alloc_error) rest = pure (l, alloc_error)
      after_push (l, allocated) rest = elim l.tail [
        | none ↦ (λ _. fault)
        | some p ↦ extend_loop l p rest
      ]

      by_tail : Option Ptr → List T → M (Node T) (DoublyLinkedList × Allocated)
      by_tail (some node) rest = extend_loop self node rest
      by_tail none [] = pure (self, allocated)
      by_tail none (v ∷ rest) = do pushed ← push_back self v; after_push pushed rest

  unfoldable pub pop_front : DoublyLinkedList → M (Node T) (DoublyLinkedList × Option T)
  unfolding load deallocate
  pop_front self = elim self.head [
    | none ↦ pure (self, none)
    | some p ↦ do
      n ← load p
      deallocate p
      pure (
        record {
          head = n.next;
          tail = elim n.next [ none ↦ none | some _ ↦ self.tail ];
          len = self.len - 1;
        },
        some n.value,
      )
  ]

  -- The loop of `drop`, for a list of fewer than `fuel` nodes.
  unfoldable pub drop_loop : ℕ → DoublyLinkedList → M (Node T) (Unit {0})
  unfolding pop_front
  drop_loop zero self = λ _. out_of_fuel
  drop_loop (suc fuel) self = do
    (l, v) ← pop_front self
    elim v [ none ↦ pure tt | some _ ↦ drop_loop fuel l ]

  unfoldable pub pop_back : DoublyLinkedList → M (Node T) (DoublyLinkedList × Option T)
  unfolding load modify deallocate
  pop_back self = elim self.tail [
    | none ↦ pure (self, none)
    | some p ↦ do
      n ← load p
      if_some n.prev (λ q. set_next q none)
      m ← load p
      deallocate p
      pure (
        record {
          head = elim n.prev [ none ↦ none | some _ ↦ self.head ];
          tail = n.prev;
          len = self.len - 1;
        },
        some m.value,
      )
  ]

  unfoldable pub front : DoublyLinkedList → M (Node T) (Option T)
  unfolding load
  front self = elim self.head [ none ↦ pure none | some p ↦ do n ← load p; pure (some n.value) ]

  unfoldable pub back : DoublyLinkedList → M (Node T) (Option T)
  unfolding load
  back self = elim self.tail [ none ↦ pure none | some p ↦ do n ← load p; pure (some n.value) ]

  unfoldable pub at : DoublyLinkedList → ℕ → M (Node T) (Option T)
  unfolding node_at load
  at self index = do
    found ← node_at self index
    elim found [ none ↦ pure none | some p ↦ do n ← load p; pure (some n.value) ]

  -- `append`: the two lists after the call. The other list's first node keeps its `prev`.
  unfoldable pub append :
      DoublyLinkedList → DoublyLinkedList → M (Node T) (DoublyLinkedList × DoublyLinkedList)
  unfolding modify
  append self other = elim self.head [
    | none ↦ pure (other, self)
    | some _ ↦ elim other.head [
      | none ↦ pure (self, other)
      | some other_head ↦ elim other.tail [
        | none ↦ (λ _. fault)
        | some other_tail ↦ elim self.tail [
          | none ↦ (λ _. fault)
          | some tail ↦ do
            set_next tail (some other_head)
            pure (
              record self { tail = some other_tail; len = self.len + other.len },
              record { head = none; tail = none; len = 0 },
            )
        ]
      ]
    ]
  ]

-- ===== src/Collections/Singly.antt =====
-- `SinglyLinkedList`: src/shared/collections/src/linked_list/singly.rs. The list itself lies outside
-- the store, so that an operation returns the new one. A loop that follows the `next` pointers has
-- `len` rounds, the number of nodes.

pub mod Chains
pub mod Cursors
pub mod Ends
pub mod Pops
mod Tests
use vanadinite.Prelude.{
  ℕ, zero, suc, ◌+◌, ◌-◌, ◌^◌, Bool, true, false, ◌||◌, Option, none, some, List, [], ◌∷◌, ltb, leb,
  ◌==◌, if◌then◌else◌,
}
use vanadinite.Collections.Store.{
  Ptr, Store, Run, done, fault, out_of_fuel, Allocated, allocated, alloc_error, M, pure, ◌>>=◌,
  ◌>>◌, load, modify, allocate, deallocate,
}

pub record Node (T : Type 0) : Type 0 where
  pub value : T
  pub next : Option Ptr

pub record SinglyLinkedList : Type 0 where
  pub head : Option Ptr
  pub len : ℕ

abbrev pub new : SinglyLinkedList
new = record { head = none; len = 0 }

unfoldable pub is_empty : SinglyLinkedList → Bool
is_empty self = self.len == 0

module _ {T : Type 0} where
  -- `(*p).next = to`
  abbrev pub set_next : Ptr → Option Ptr → M (Node T) (Unit {0})
  set_next p to = modify p (λ n. record n { next = to })

  -- `Node::new`
  abbrev pub new_node : T → M (Node T) (Option Ptr)
  new_node v = allocate (record { value = v; next = none })

  unfoldable pub push_front : SinglyLinkedList → T → M (Node T) (SinglyLinkedList × Allocated)
  unfolding modify allocate
  push_front self v = do
    made ← new_node v
    elim made [
      | none ↦ pure (self, alloc_error)
      | some p ↦ elim self.head [
        | none ↦ pure (record { head = some p; len = self.len + 1 }, allocated)
        | some head ↦ do
          set_next p (some head)
          pure (record { head = some p; len = self.len + 1 }, allocated)
      ]
    ]

  unfoldable pub last_loop : ℕ → Ptr → M (Node T) Ptr
  unfolding load
  last_loop zero p = λ _. out_of_fuel
  last_loop (suc k) p = do n ← load p; elim n.next [ none ↦ pure p | some q ↦ last_loop k q ]

  unfoldable pub last_node : SinglyLinkedList → M (Node T) (Option Ptr)
  unfolding last_loop
  last_node self = elim self.head [
    | none ↦ pure none
    | some p ↦ do q ← last_loop self.len p; pure (some q)
  ]

  unfoldable pub push_back : SinglyLinkedList → T → M (Node T) (SinglyLinkedList × Allocated)
  unfolding modify allocate last_node
  push_back self v = do
    made ← new_node v
    elim made [
      | none ↦ pure (self, alloc_error)
      | some p ↦ do
        last ← last_node self
        elim last [
          | none ↦ pure (record { head = some p; len = self.len + 1 }, allocated)
          | some q ↦ do set_next q (some p); pure (record self { len = self.len + 1 }, allocated)
        ]
    ]

  unfoldable pub pop_front : SinglyLinkedList → M (Node T) (SinglyLinkedList × Option T)
  unfolding load deallocate
  pop_front self = elim self.head [
    | none ↦ pure (self, none)
    | some p ↦ do
      head ← load p
      deallocate p
      pure (record { head = head.next; len = self.len - 1 }, some head.value)
  ]

  -- The loop of `drop`, for a list of fewer than `fuel` nodes.
  unfoldable pub drop_loop : ℕ → SinglyLinkedList → M (Node T) (Unit {0})
  unfolding pop_front
  drop_loop zero self = λ _. out_of_fuel
  drop_loop (suc fuel) self = do
    (l, v) ← pop_front self
    elim v [ none ↦ pure tt | some _ ↦ drop_loop fuel l ]

  -- The loop of `pop_back`: the last node, and the one before it.
  unfoldable pub pop_back_loop : ℕ → Option Ptr → Ptr → M (Node T) (Option Ptr × Ptr)
  unfolding load
  pop_back_loop zero previous p = λ _. out_of_fuel
  pop_back_loop (suc k) previous p = do
    n ← load p
    elim n.next [ none ↦ pure (previous, p) | some q ↦ pop_back_loop k (some p) q ]

  unfoldable pub pop_back : SinglyLinkedList → M (Node T) (SinglyLinkedList × Option T)
  unfolding load modify deallocate pop_back_loop
  pop_back self = elim self.head [
    | none ↦ pure (self, none)
    | some p ↦ do
      (previous, last) ← pop_back_loop self.len none p
      head ← elim previous [ none ↦ pure none | some prev ↦ do set_next prev none; pure self.head ]
      n ← load last
      deallocate last
      pure (record { head = head; len = self.len - 1 }, some n.value)
  ]

  -- The nodes from `last` on are appended one by one; an allocation that fails ends the loop.
  unfoldable pub extend_loop :
      SinglyLinkedList → Ptr → List T → M (Node T) (SinglyLinkedList × Allocated)
  unfolding modify allocate
  extend_loop self last [] = pure (self, allocated)
  extend_loop self last (v ∷ vs) = do
    made ← new_node v
    elim made [
      | none ↦ pure (self, alloc_error)
      | some p ↦ do set_next last (some p); extend_loop (record self { len = self.len + 1 }) p vs
    ]

  unfoldable pub extend_from : SinglyLinkedList → List T → M (Node T) (SinglyLinkedList × Allocated)
  unfolding last_node push_back extend_loop
  extend_from self vs = do last ← last_node self; by_last last vs
    where
      by_head : SinglyLinkedList × Allocated → List T → M (Node T) (SinglyLinkedList × Allocated)
      by_head (l, alloc_error) rest = pure (l, alloc_error)
      by_head (l, allocated) rest = elim l.head [
        | none ↦ (λ _. fault)
        | some p ↦ extend_loop l p rest
      ]

      by_last : Option Ptr → List T → M (Node T) (SinglyLinkedList × Allocated)
      by_last (some node) rest = extend_loop self node rest
      by_last none [] = pure (self, allocated)
      by_last none (v ∷ rest) = do pushed ← push_back self v; by_head pushed rest

  -- `while position < at`
  unfoldable pub get_loop : ℕ → Ptr → M (Node T) (Option T)
  unfolding load
  get_loop zero p = do n ← load p; pure (some n.value)
  get_loop (suc left) p = do n ← load p; elim n.next [ none ↦ pure none | some q ↦ get_loop left q ]

  unfoldable pub get : SinglyLinkedList → ℕ → M (Node T) (Option T)
  unfolding get_loop
  get self at = elim self.head [ none ↦ pure none | some p ↦ get_loop at p ]

  unfoldable pub front : SinglyLinkedList → M (Node T) (Option T)
  unfolding load
  front self = elim self.head [ none ↦ pure none | some p ↦ do n ← load p; pure (some n.value) ]

  unfoldable pub back : SinglyLinkedList → M (Node T) (Option T)
  unfolding load last_node
  back self = do
    last ← last_node self
    elim last [ none ↦ pure none | some p ↦ do n ← load p; pure (some n.value) ]

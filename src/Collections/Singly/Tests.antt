-- ===== src/Collections/Singly/Tests.antt =====
-- Runs of a `SinglyLinkedList` (src/shared/collections/src/linked_list/singly.rs).
use vanadinite.Prelude.{
  ℕ, ◌<◌, ◌≡◌, ◌⊎◌, refl, none, some, List, [], ◌∷◌, ◌++◌, ◌==◌, if◌then◌else◌, length,
}
use vanadinite.Collections.Store.{Ptr, Store, done}
use vanadinite.Collections.Singly.{Node, SinglyLinkedList, pop_back}
use vanadinite.Collections.Singly.Chains.{IsList}
use vanadinite.Collections.Singly.Pops.{Gives, pop_back_lem}
use vanadinite.Collections.Singly.Cursors.{insert, inserted, invalid_position, no_memory}
use vanadinite.Collections.Singly.Cursors.Inserts.{insert_lem}

abbrev two : List (Ptr × ℕ)
two = (1, 10) ∷ (2, 20) ∷ []

abbrev nodes : Store (Node ℕ)
nodes = record {
  cell = λ a.
      if a == 1
      then some (record { value = 10; next = some 2 })
      else if a == 2
      then some (record { value = 20; next = none })
      else none;
  pool = 3 ∷ 4 ∷ [];
}

abbrev list : SinglyLinkedList
list = record { head = some 1; len = 2 }

list-IsList : IsList nodes list two
list-IsList = (refl, refl, (refl, refl, (refl, refl, tt)), (refl, refl, (refl, refl, tt)))

pop_back_lem_example :
    ((two ≡ []) × (pop_back list nodes ≡ done (list, none) nodes))
    ⊎ ((q : Ptr) × (w : ℕ) × (ys : List (Ptr × ℕ)) × (two ≡ ys ++ (q, w) ∷ [])
        × Gives (pop_back list nodes) (some w) ys)
pop_back_lem_example = pop_back_lem nodes list two list-IsList

insert_lem_example :
    ((length two < 1) × (insert list 1 30 nodes ≡ done (list, invalid_position 30) nodes))
    ⊎ ((nodes.pool ≡ []) × (insert list 1 30 nodes ≡ done (list, no_memory) nodes))
    ⊎ ((p : Ptr) × (us : List (Ptr × ℕ)) × (vs : List (Ptr × ℕ)) × (us ++ vs ≡ two)
        × (length us ≡ 1)
        × Gives (insert list 1 30 nodes) inserted (us ++ (p, 30) ∷ vs))
insert_lem_example = insert_lem nodes list two 1 30 list-IsList

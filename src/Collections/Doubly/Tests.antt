-- ===== src/Collections/Doubly/Tests.antt =====
-- Runs of a `DoublyLinkedList` (src/shared/collections/src/linked_list/doubly.rs).
use vanadinite.Prelude.{
  ℕ, ◌≤◌, ◌≡◌, ◌⊎◌, refl, none, some, List, [], ◌∷◌, ◌++◌, ◌==◌, if◌then◌else◌, length,
}
use vanadinite.Collections.Store.{Ptr, Store, done, fault, ◌>>=◌}
use vanadinite.Collections.Doubly.{Node, DoublyLinkedList, pop_front}
use vanadinite.Collections.Doubly.Chains.{IsList}
use vanadinite.Collections.Doubly.Cursors.{remove}
use vanadinite.Collections.Doubly.Removal.{Without, remove_lem}
use vanadinite.Collections.Doubly.Stale.{pop_front-stale}

abbrev two : List (Ptr × ℕ)
two = (1, 10) ∷ (2, 20) ∷ []

abbrev nodes : Store (Node ℕ)
nodes = record {
  cell = λ a.
      if a == 1
      then some (record { value = 10; prev = none; next = some 2 })
      else if a == 2
      then some (record { value = 20; prev = some 1; next = none })
      else none;
  pool = 3 ∷ 4 ∷ [];
}

abbrev list : DoublyLinkedList
list = record { head = some 1; tail = some 2; len = 2 }

list-IsList : IsList nodes list two
list-IsList = (refl, refl, refl, (refl, refl, (refl, refl, tt)), (refl, refl, (refl, refl, tt)))

remove_lem_example :
    ((length two ≤ 1) × (remove list 1 nodes ≡ done (list, none) nodes))
    ⊎ ((us : List (Ptr × ℕ)) × (p : Ptr) × (v : ℕ) × (vs : List (Ptr × ℕ)) × (us ++ (p, v) ∷ vs
          ≡ two)
        × (length us ≡ 1)
        × ((l : DoublyLinkedList) × (s : Store (Node ℕ)) × (remove list 1 nodes
              ≡ done (l, some v) s)
            × Without list.tail p s l (us ++ vs)))
remove_lem_example = remove_lem nodes list two 1 list-IsList

pop_front-stale_example : (pop_front list >>= λ r. remove r.0 0) nodes ≡ fault
pop_front-stale_example = pop_front-stale nodes list 1 2 10 20 [] list-IsList

-- ===== src/Virtqueue/Descriptors.antt =====
-- The free list of descriptors (src/userspace/libs/virtio/src/splitqueue.rs).
use vanadinite.Prelude.{
  ℕ, zero, suc, ◌+◌, ◌<◌, ◌≤◌, ◌≡◌, ◌⊎◌, inl, inr, refl, sym, ap, ◌∙◌, true, ◌&&◌, none, some, List,
  [], ◌∷◌, ◌++◌, leb, ltb, ◌==◌, if◌then◌else◌, arith, Bool-cases,
}
use vanadinite.Virtqueue.{
  SplitVirtqueue, SplitqueueIndex, new, ok, alloc_descriptor, free_descriptor, pop_back,
  collect_from, is_power_up_to,
}

-- How often an index stands in the free list.
abbrev pub count : ℕ → List ℕ → ℕ
count i [] = 0
count i (x ∷ xs) = if x == i then suc (count i xs) else count i xs

count-append : (i : ℕ) (xs ys : List ℕ) → count i (xs ++ ys) ≡ count i xs + count i ys
count-append i [] ys = omega arith
count-append i (x ∷ xs) ys = ground (arith, count-append i xs ys)

pop_back_lem :
    (xs : List ℕ)
    → ((xs ≡ []) × (pop_back xs ≡ none))
      ⊎ ((ys : List ℕ) × (y : ℕ) × (pop_back xs ≡ some (ys, y)) × (xs ≡ ys ++ (y ∷ [])))
unfolding pop_back
pop_back_lem [] = inl (refl, refl)
pop_back_lem (x ∷ xs) = elim (pop_back_lem xs) [
  | inl (empty, e) ↦ inr ([], x, rw e refl, ap (λ (t : List ℕ). x ∷ t) empty)
  | inr (ys, y, e, parts) ↦ inr (x ∷ ys, y, rw e refl, ap (λ (t : List ℕ). x ∷ t) parts)
]

-- The descriptors that are free, each once, are among those of the queue.
abbrev pub IsFreelist : SplitVirtqueue → Type 0
IsFreelist q = (i : ℕ) → count i q.freelist ≤ (if ltb i q.queue_size then 1 else 0)

collect_lem :
    (start n i : ℕ)
    → count i (collect_from start n) ≡ (if leb start i && ltb i (start + n) then 1 else 0)
unfolding collect_from
collect_lem start zero i = ground arith
collect_lem start (suc n) i = ground (arith, collect_lem (start + 1) n i)

-- A new queue has every descriptor below its size on the free list exactly once, and no other.
pub new-count :
    (n : ℕ) (q : SplitVirtqueue)
    → new n ≡ ok q
    → (q.queue_size ≡ n) × (n ≤ 32768) × ((i : ℕ) → count i q.freelist ≡ (if ltb i n then 1 else 0))
unfolding new
new-count n q h = elim (Bool-cases (is_power_up_to 63 n)) [
  | inr no_power ↦ absurd (ground arith)
  | inl power ↦ elim (Bool-cases (leb n 32768)) [
    | inr large ↦ absurd (ground arith)
    | inl fits ↦
        let same : q.queue_size ≡ n = ground arith in
        let free : q.freelist ≡ collect_from 0 n = ground arith in
        (same, ground arith, λ i. ap (count i) free ∙ collect_lem 0 n i ∙ ground arith)
  ]
]

-- With each free descriptor once on the free list: an allocation fails exactly when the list is
-- empty, and changes nothing then; otherwise it hands out a descriptor of the queue that was free and
-- is free no more, every other one stays as it was, and giving it back restores the queue.
pub alloc_descriptor_lem :
    (q : SplitVirtqueue)
    → IsFreelist q
    → ((q.freelist ≡ []) × (alloc_descriptor q ≡ (q, none)))
      ⊎ ((q' : SplitVirtqueue) × (i : SplitqueueIndex) × (alloc_descriptor q ≡ (q', some i))
          × (i < q.queue_size)
          × (count i q'.freelist ≡ 0)
          × ((j : ℕ) → count j q.freelist ≡ (if j == i then 1 else count j q'.freelist))
          × IsFreelist q'
          × (free_descriptor q' i ≡ q))
unfolding alloc_descriptor free_descriptor
alloc_descriptor_lem q free = elim (pop_back_lem q.freelist) [
  | inl (empty, e) ↦ inl (empty, rw (alloc_descriptor, e) refl)
  | inr (ys, i, e, parts) ↦
      let at : (j : ℕ) → count j q.freelist ≡ count j ys + (if i == j then 1 else 0) =
        λ j. ap (count j) parts ∙ count-append j ys (i ∷ []) ∙ ground arith in
      let own : (i == i) ≡ true = ground arith in
      inr (
        record q { freelist = ys },
        i,
        rw (alloc_descriptor, e) refl,
        ground (arith, at i, free i),
        ground (arith, at i, free i),
        λ j. ground (arith, at j, at i, free i),
        λ j. ground (arith, at j, free j),
        ap (λ (l : List ℕ). record q { freelist = l }) (sym parts),
      )
]

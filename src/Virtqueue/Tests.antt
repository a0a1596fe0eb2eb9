-- ===== src/Virtqueue/Tests.antt =====
-- Runs of a split virtqueue (src/userspace/libs/virtio/src/splitqueue.rs).
use vanadinite.Prelude.{
  ℕ, suc, ◌+◌, ◌-◌, ◌%◌, ◌<◌, ◌^◌, ◌≡◌, ◌⊎◌, refl, some, none, List, [], ◌∷◌, ltb, ◌==◌,
  if◌then◌else◌, arith, length, get_elem?, replicate,
}
use vanadinite.Virtqueue.{
  SplitVirtqueue, SplitqueueIndex, VirtqueueAvailable, VirtqueueUsedElement, UsedQueue, new, ok,
  err, not_power_of_two, too_large, default_descriptor, alloc_descriptor, free_descriptor, drain,
  is_power_up_to, collect_from, pop_back, pop,
}
use vanadinite.Virtqueue.Descriptors.{count, IsFreelist, alloc_descriptor_lem}
use vanadinite.Virtqueue.Rings.{pending, drain_lem}

abbrev used_element : ℕ → VirtqueueUsedElement
used_element i = record { start_index = i; length = 4 }

abbrev available_ring : VirtqueueAvailable
available_ring = record { flags = 0; index = 2 ^ 16 - 1; ring = 0 ∷ 0 ∷ [] }

-- One element before the index wraps and one after are pending.
abbrev used_ring : UsedQueue
used_ring = record {
  queue = record { flags = 0; index = 1; ring = used_element 0 ∷ used_element 1 ∷ [] };
  last_seen = 2 ^ 16 - 1;
}

abbrev two_descriptors : SplitVirtqueue
two_descriptors = record {
  queue_size = 2;
  freelist = 0 ∷ 1 ∷ [];
  descriptors = replicate 2 default_descriptor;
  available = record { flags = 0; index = 0; ring = replicate 2 0 };
  used = record {
    queue = record {
      flags = 0;
      index = 0;
      ring = replicate 2 (record { start_index = 0; length = 0 });
    };
    last_seen = 0;
  };
}

creating :
    (new 2 ≡ ok two_descriptors) × (new 3 ≡ err not_power_of_two) × (new 65536 ≡ err too_large)
unfolding new is_power_up_to collect_from
creating = (refl, refl, refl)

allocating :
    alloc_descriptor two_descriptors ≡ (record two_descriptors { freelist = 0 ∷ [] }, some 1)
unfolding alloc_descriptor pop_back
allocating = refl

draining :
    drain 3 used_ring
    ≡ some (record used_ring { last_seen = 1 }, used_element 1 ∷ used_element 0 ∷ [])
unfolding drain pop
draining = refl

two_descriptors-IsFreelist : IsFreelist two_descriptors
two_descriptors-IsFreelist i = ground arith

alloc_descriptor_lem_example :
    ((two_descriptors.freelist ≡ []) × (alloc_descriptor two_descriptors ≡ (two_descriptors, none)))
    ⊎ ((q' : SplitVirtqueue) × (i : SplitqueueIndex) × (alloc_descriptor two_descriptors
          ≡ (q', some i))
        × (i < two_descriptors.queue_size)
        × (count i q'.freelist ≡ 0)
        × ((j : ℕ) → count j two_descriptors.freelist ≡ (if j == i then 1 else count j q'.freelist))
        × IsFreelist q'
        × (free_descriptor q' i ≡ two_descriptors))
alloc_descriptor_lem_example = alloc_descriptor_lem two_descriptors two_descriptors-IsFreelist

drain_lem_example :
    (es : List VirtqueueUsedElement) × (drain (suc (pending used_ring)) used_ring
      ≡ some (record used_ring { last_seen = used_ring.queue.index }, es))
    × (length es ≡ pending used_ring)
    × ((j : ℕ)
        → get_elem? es j ≡ (
            if ltb j (pending used_ring)
            then get_elem? used_ring.queue.ring
                ((used_ring.last_seen + j) % 2 ^ 16 % length used_ring.queue.ring)
            else none))
drain_lem_example = drain_lem used_ring (omega arith) (omega arith) (omega arith)

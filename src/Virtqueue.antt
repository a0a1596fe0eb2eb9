-- ===== src/Virtqueue.antt =====
-- Split virtqueues: src/userspace/libs/virtio/src/splitqueue.rs. The regions of DMA memory are lists,
-- zeroed when the kernel hands them out; the failure of that is a panic and is left out. A volatile
-- access reads or writes its location.
mod Tests
pub mod Descriptors
pub mod Rings
use Prim.Native.Nat.{bit_or}
use vanadinite.Prelude.{
  ℕ, zero, suc, ◌+◌, ◌-◌, ◌*◌, ◌/◌, ◌%◌, ◌^◌, Bool, true, false, not, Option, none, some, List, [],
  ◌∷◌, ◌++◌, ltb, leb, ◌==◌, if◌then◌else◌, get_elem?, set, replicate, length,
}

-- `SplitqueueIndex<VirtqueueDescriptor>(u16)`
abbrev pub SplitqueueIndex : Type 0
SplitqueueIndex = ℕ

-- `DescriptorFlags(u16)`
abbrev pub DescriptorFlags : Type 0
DescriptorFlags = ℕ

abbrev pub no_flags : DescriptorFlags
no_flags = 0

abbrev pub next_flag : DescriptorFlags
next_flag = 1

abbrev pub write_flag : DescriptorFlags
write_flag = 2

abbrev pub indirect_flag : DescriptorFlags
indirect_flag = 4

-- `impl BitOr for DescriptorFlags`
unfoldable pub bitor : DescriptorFlags → DescriptorFlags → DescriptorFlags
bitor self rhs = bit_or self rhs

pub record VirtqueueDescriptor : Type 0 where
  pub address : ℕ
  pub length : ℕ
  pub flags : DescriptorFlags
  pub next : SplitqueueIndex

-- `impl Default for VirtqueueDescriptor`
abbrev pub default_descriptor : VirtqueueDescriptor
default_descriptor = record { address = 0; length = 0; flags = no_flags; next = 0 }

pub record VirtqueueAvailable : Type 0 where
  pub flags : ℕ
  pub index : ℕ
  pub ring : List ℕ

pub record VirtqueueUsedElement : Type 0 where
  pub start_index : ℕ
  pub length : ℕ

pub record VirtqueueUsed : Type 0 where
  pub flags : ℕ
  pub index : ℕ
  pub ring : List VirtqueueUsedElement

pub record UsedQueue : Type 0 where
  pub queue : VirtqueueUsed
  pub last_seen : ℕ

-- The front of the free list is the front of the deque.
pub record SplitVirtqueue : Type 0 where
  pub queue_size : ℕ
  pub freelist : List SplitqueueIndex
  pub descriptors : List VirtqueueDescriptor
  pub available : VirtqueueAvailable
  pub used : UsedQueue

pub data SplitVirtqueueError : Type 0 where
  memory_allocation_error not_power_of_two too_large : SplitVirtqueueError

pub data Created : Type 0 where
  ok : SplitVirtqueue → Created
  err : SplitVirtqueueError → Created

-- `usize::is_power_of_two` for the powers from 2 ^ 0 to 2 ^ k
unfoldable pub is_power_up_to : ℕ → ℕ → Bool
is_power_up_to zero n = n == 1
is_power_up_to (suc k) n = if n == 2 ^ suc k then true else is_power_up_to k n

-- `(start..start + n).collect()`
unfoldable pub collect_from : ℕ → ℕ → List ℕ
collect_from start zero = []
collect_from start (suc n) = start ∷ collect_from (start + 1) n

unfoldable pub new : ℕ → Created
unfolding is_power_up_to collect_from
new queue_size =
    if not (is_power_up_to 63 queue_size)
    then err not_power_of_two
    else if leb queue_size 32768
    then ok (record {
      queue_size = queue_size;
      freelist = collect_from 0 queue_size;
      descriptors = replicate queue_size default_descriptor;
      available = record { flags = 0; index = 0; ring = replicate queue_size 0 };
      used = record {
        queue = record {
          flags = 0;
          index = 0;
          ring = replicate queue_size (record { start_index = 0; length = 0 });
        };
        last_seen = 0;
      };
    })
    else err too_large

-- `VecDeque::pop_back`: what is left, and the last element.
unfoldable pub pop_back : List ℕ → Option (List ℕ × ℕ)
pop_back [] = none
pop_back (x ∷ xs) = elim (pop_back xs) [ none ↦ some ([], x) | some (ys, y) ↦ some (x ∷ ys, y) ]

unfoldable pub alloc_descriptor : SplitVirtqueue → SplitVirtqueue × Option SplitqueueIndex
unfolding pop_back
alloc_descriptor self = elim (pop_back self.freelist) [
  | none ↦ (self, none)
  | some (rest, index) ↦ (record self { freelist = rest }, some index)
]

unfoldable pub free_descriptor : SplitVirtqueue → SplitqueueIndex → SplitVirtqueue
free_descriptor self index = record self { freelist = self.freelist ++ (index ∷ []) }

-- `DescriptorQueue::write`; `none` is the panic of an index out of bounds.
unfoldable pub write_descriptor :
    SplitVirtqueue → SplitqueueIndex → VirtqueueDescriptor → Option SplitVirtqueue
write_descriptor self index descriptor =
    if ltb index (length self.descriptors)
    then some (record self { descriptors = set self.descriptors index descriptor })
    else none

-- `DescriptorQueue::read`
unfoldable pub read_descriptor : SplitVirtqueue → SplitqueueIndex → Option VirtqueueDescriptor
read_descriptor self index = get_elem? self.descriptors index

-- `AvailableQueue::push`; the remainder by an empty ring panics.
unfoldable pub push : VirtqueueAvailable → SplitqueueIndex → Option VirtqueueAvailable
push self index =
    if length self.ring == 0
    then none
    else some (record self {
      ring = set self.ring (self.index % length self.ring) index;
      index = (self.index + 1) % 2 ^ 16;
    })

pub data Popped : Type 0 where
  no_element : Popped
  element : UsedQueue → VirtqueueUsedElement → Popped
  panicked : Popped

-- `UsedQueue::pop`
unfoldable pub pop : UsedQueue → Popped
pop self =
    if self.last_seen == self.queue.index
    then no_element
    else elim (get_elem? self.queue.ring (self.last_seen % length self.queue.ring)) [
      | none ↦ panicked
      | some used ↦ element (record self { last_seen = (self.last_seen + 1) % 2 ^ 16 }) used
    ]

-- `UsedQueue::drain`, collected while the device adds nothing: the elements in order, and the queue
-- after the last of them. `none` is a panic, or the end of the fuel.
unfoldable pub drain : ℕ → UsedQueue → Option (UsedQueue × List VirtqueueUsedElement)
unfolding pop
drain zero self = none
drain (suc fuel) self = elim (pop self) [
  | no_element ↦ some (self, [])
  | panicked ↦ none
  | element rest used ↦ elim (drain fuel rest) [
    | none ↦ none
    | some (last, others) ↦ some (last, used ∷ others)
  ]
]

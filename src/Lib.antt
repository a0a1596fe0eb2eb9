-- ===== src/Lib.antt =====
-- The memory management core of vanadinite, a RISC-V microkernel written in Rust: capability spaces,
-- the page table representation, memory regions, address maps and the bitmap allocator of physical
-- pages; the scheduler; the split virtqueue of its drivers; the linked lists, the hash map and the
-- cache that its parts share; and the buffer of the messages between tasks.
--
-- How the parts meet in the kernel: a task has an address map, which records what each part of its
-- address space is for, and a page table, whose entries the hardware walks. The memory manager of the
-- task keeps the two in step, and takes the pages behind both from the page allocator. A capability
-- space maps the pointers that a task names to the resources that the kernel shares with it. A driver
-- in userspace shares a virtqueue with its device through memory that it gets from the kernel.
--
-- Files, and the source that each is about:
--   Prelude, Prelude/Lists, Prelude/Tests, Prelude/Int, Prelude/Powers, Prelude/Bits: lists, Boolean
--     tests, integers, powers of two and bitwise operations on machine words, shared by all.
--   BTreeMap: the ordered map of the standard library of Rust, as far as the kernel uses it, as a list
--     of entries in ascending order of keys. It stands for code outside the repository: get, insert,
--     remove, range(k..).next(), range(..k).next() and keys().max() with their documented meaning.
--   Capability: CapabilitySpace of src/kernel/vanadinite/src/capabilities.rs, and the pointers and
--     rights of src/shared/librust/src/capabilities.rs. mint, mint_with, mint_with_id, resolve and
--     remove (remove_cptr here) keep their names.
--   Paging: Flags of src/kernel/vanadinite/src/mem/paging/table/flags.rs, and PageSize,
--     VirtualAddress, PhysicalAddress and PageTableEntry of table/repr.rs there, for Sv39.
--   PageTable: the walk of src/kernel/vanadinite/src/mem/paging/table.rs, over a store of tables that
--     are named by their physical addresses.
--   Region: src/kernel/vanadinite/src/mem/region.rs.
--   AddressMap: src/kernel/vanadinite/src/mem/manager/address_map.rs. The view of a map is the function
--     `owner` that gives the occupied region at an address; `IsPartition` is the invariant.
--   Virtqueue: the split virtqueue of src/userspace/libs/virtio/src/splitqueue.rs, which a driver and a
--     device share.
--   Bitmap: src/kernel/vanadinite/src/mem/phys/bitmap.rs. The view is the set of pages in use.
--   Scheduler: src/kernel/vanadinite/src/scheduler, mod.rs, round_robin.rs (RoundRobin) and waitqueue.rs
--     (WaitQueue), for one hart. A task is its Tid, and the states of all tasks are a function. A call
--     of schedule gives the task that runs next.
--   Channel: the message queues of src/kernel/vanadinite/src/syscall/channel.rs, and the kernel messages
--     of src/shared/librust/src/syscalls/channel.rs. A call of send that notifies another task sends in
--     turn; it has fuel for these calls, and 2 is enough where kernel channels notify no one, as the
--     kernel makes them. recv is one round of its loop.
--   Materialize: AlignedHeapBuffer of src/userspace/libs/materialize/src/buffer.rs, and ReservationToken
--     and the reservation of space by Serializer of serialize.rs there. The allocator is a parameter,
--     its answers to the requests to come.
--   Collections: the linked lists of src/shared/collections/src/linked_list, singly.rs (Singly) and
--     doubly.rs (Doubly). Raw pointers are addresses in a store of nodes (Collections/Store), where an
--     access to an address without a node is a fault. The allocator is a parameter: the addresses
--     that it will hand out, and no more memory after them. The view of a list is the sequence of its
--     nodes, each with its address and value (Collections/Cells). A cursor owns its list, and its
--     remove, insert, current and next are remove_here, insert_here, current_value and next_value.
--   Collections/Lru: LruCache of src/shared/collections/src/lru.rs, over the same store. The hash map of
--     the cache is a parameter, a record of its operations (MapOps).
--   Collections/HashMap: HashMap of src/shared/collections/src/hash_map/mod.rs: the slice of slots and
--     its probe sequence (Slots), the map, its entries (Entry) and raw entries (RawEntry). The allocator
--     is a parameter: its answers to the requests to come. The keys are a record of `==` and the hash
--     with the laws of Eq and Hash. The view of a bucket is `contents`, a scan of all slots; `IsTable`
--     says that the search for each entry ends at it and that `len` counts the entries. Deallocation
--     of the old bucket has no effect in the model.
--
-- State is passed explicitly: an operation takes the state and returns the new one with its result. An
-- error of the source is a value of its error type, and a panic is `none` or `panicked`. Machine words
-- are natural numbers below 2 ^ 64, with the wrap-around of a release build written out where the
-- source can reach it.
--
-- Loops: the two loops of `AddressMap::free` run on fuel, the number of entries of the map. Each round
-- removes an entry, so that this many rounds are enough. The search of `alloc_contig_4k_inter_pages`
-- runs on the number of bitmap entries and one more, and each round moves up by at least one entry.
-- Draining the used ring of a virtqueue runs on one round more than there are elements pending.
-- A loop of the singly linked list that runs to the last node has as many rounds as `len` says, and the
-- theorems show that it ends within them.
-- A search of the hash map has two probes for each slot of the rounded capacity, which are enough when
-- a slot is vacant; with none, no number of them is.
-- All other loops are recursions on a list or a number.
--
-- Not modelled: printing, logging, locks, volatile memory access and assembly; the queues of several
-- harts; the system calls themselves, the drivers, the other userspace libraries and the servers.
pub mod Prelude
pub mod BTreeMap
pub mod Capability
pub mod Paging
pub mod Region
pub mod AddressMap
pub mod Bitmap
pub mod Virtqueue
pub mod PageTable
pub mod Collections
pub mod Scheduler
pub mod Channel
pub mod Materialize

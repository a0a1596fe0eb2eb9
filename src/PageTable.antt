-- ===== src/PageTable.antt =====
-- The walk of the page table: src/kernel/vanadinite/src/mem/paging/table.rs. The tables lie in memory
-- at physical addresses, which the kernel reaches through its linear map of physical memory: `phys2virt`
-- and `virt2phys` are inverse there, so that a table is named by its physical address. The page
-- allocator is a parameter of the state, the pages that it will hand out, zeroed, in order.
mod Tests
pub mod Walk
pub mod Updates
use vanadinite.Prelude.{
  ℕ, Bool, true, false, not, ◌&&◌, ◌||◌, Option, none, some, List, [], ◌∷◌, ◌==◌, if◌then◌else◌,
}
use vanadinite.Paging.Size.{
  PageSize, kilopage, megapage, gigapage, next, top_level, assert_addr_aligned,
}
use vanadinite.Paging.Virtual.{VirtualAddress, vpns}
use vanadinite.Paging.Physical.{PhysicalAddress}
use vanadinite.Paging.Flags
use vanadinite.Paging.Flags.{Flags}
use vanadinite.Paging.Entry
use vanadinite.Paging.Entry.{
  PageTableEntry, EntryKind, not_valid, leaf, branch, Rsw, is_valid, flags, set_flags, rsw, set_rsw,
  entry_ppn, set_ppn, kind,
}

pub record Memory : Type 0 where
  pub tables : PhysicalAddress → ℕ → PageTableEntry
  pub fresh : List PhysicalAddress

-- `table.entries[vpn] = entry`
unfoldable pub write : Memory → PhysicalAddress → ℕ → PageTableEntry → Memory
write m table vpn entry = record m {
  tables = λ t v. if (t == table) && (v == vpn) then entry else m.tables t v;
}

-- `none` is the failure of the allocation.
unfoldable pub new_table : Memory → Option (Memory × PhysicalAddress)
new_table m = by_fresh m.fresh
  where
    by_fresh : List PhysicalAddress → Option (Memory × PhysicalAddress)
    by_fresh [] = none
    by_fresh (page ∷ pages) = some (
      record { tables = λ t v. if t == page then Entry.new else m.tables t v; fresh = pages },
      page,
    )

-- `vpns().into_iter().rev()`
unfoldable pub walk_vpns : VirtualAddress → List ℕ
unfolding vpns
walk_vpns address = let (v0, v1, v2) = vpns address in v2 ∷ v1 ∷ v0 ∷ []

-- What the loop of `with_entry` and `with_entry_mut` ends with: the table, the index and the size of
-- the leaf that the closure is given, no leaf, or the panic "next level page size".
pub data Located : Type 0 where
  found : PhysicalAddress → ℕ → PageSize → Located
  missing : Located
  unreachable : Located

unfoldable pub locate : Memory → List ℕ → PhysicalAddress → PageSize → Located
unfolding next
locate m [] table current = missing
locate m (vpn ∷ rest) table current = elim (kind (m.tables table vpn)) [
  | leaf ↦ found table vpn current
  | not_valid ↦ missing
  | branch paddr ↦ elim (next current) [
    | none ↦ unreachable
    | some below ↦ locate m rest paddr below
  ]
]

-- A result, or a panic.
pub data Walked (A : Type 0) : Type 0 where
  done : A → Walked A
  panicked : Walked A

unfoldable pub with_entry :
    {A : Type 0}
    → Memory
    → PhysicalAddress
    → VirtualAddress
    → (PageTableEntry → A)
    → Walked (Option A)
unfolding locate walk_vpns
with_entry m root address f = elim (locate m (walk_vpns address) root top_level) [
  | found table vpn _ ↦ done (some (f (m.tables table vpn)))
  | missing ↦ done none
  | unreachable ↦ panicked
]

-- The memory after the closure has changed the entry, and whether there was one.
unfoldable pub with_entry_mut :
    Memory
    → PhysicalAddress
    → VirtualAddress
    → (PageTableEntry → PageTableEntry)
    → Walked (Memory × Bool)
unfolding locate walk_vpns
with_entry_mut m root address f = elim (locate m (walk_vpns address) root top_level) [
  | found table vpn _ ↦ done (write m table vpn (f (m.tables table vpn)), true)
  | missing ↦ done (m, false)
  | unreachable ↦ panicked
]

-- A leaf is valid, so that of the two cases that panic only the missing entry can occur.
unfoldable pub unmap : Memory → PhysicalAddress → VirtualAddress → Walked Memory
unfolding with_entry_mut
unmap m root address = elim (with_entry_mut m root address (λ _. Entry.new)) [
  | panicked ↦ panicked
  | done (m', some_entry) ↦ if some_entry then done m' else panicked
]

unfoldable pub modify_page_flags :
    Memory → PhysicalAddress → VirtualAddress → (Flags → Flags) → Walked (Memory × Bool)
unfolding with_entry_mut
modify_page_flags m root address f = with_entry_mut m root address (λ e. set_flags e (f (flags e)))

unfoldable pub modify_page_rsw :
    Memory → PhysicalAddress → VirtualAddress → (Rsw → Rsw) → Walked (Memory × Bool)
unfolding with_entry_mut
modify_page_rsw m root address f = with_entry_mut m root address (λ e. set_rsw e (f (rsw e)))

unfoldable pub page_rsw : Memory → PhysicalAddress → VirtualAddress → Walked (Option Rsw)
unfolding with_entry
page_rsw m root address = with_entry m root address rsw

unfoldable pub page_flags : Memory → PhysicalAddress → VirtualAddress → Walked (Option Flags)
unfolding with_entry
page_flags m root address = with_entry m root address flags

flatten : {A : Type 0} → Option (Option A) → Option A
flatten none = none
flatten (some a) = a

unfoldable pub resolve : Memory → PhysicalAddress → VirtualAddress → Walked (Option PhysicalAddress)
unfolding with_entry flatten
resolve m root address = elim (with_entry m root address entry_ppn) [
  | panicked ↦ panicked
  | done ppn ↦ done (flatten ppn)
]

-- The loop of `map`: a table is made for each level that has none.
unfoldable pub map_loop :
    Memory
    → List ℕ
    → PhysicalAddress
    → PageSize
    → PageSize
    → (PageTableEntry → PageTableEntry)
    → Walked Memory
unfolding new_table next
map_loop m [] table current size fill = done m
map_loop m (vpn ∷ rest) table current size fill = elim (same_size current size) [
  | true ↦
      if is_valid (m.tables table vpn)
      then panicked
      else done (write m table vpn (fill (m.tables table vpn)))
  | false ↦ elim (kind (m.tables table vpn)) [
    | leaf ↦ panicked
    | branch paddr ↦ elim (next current) [
      | none ↦ panicked
      | some below ↦ map_loop m rest paddr below size fill
    ]
    | not_valid ↦ elim (new_table m) [
      | none ↦ panicked
      | some (m', page) ↦ elim (next current) [
        | none ↦ panicked
        | some below ↦
            map_loop
              (write m' table vpn (set_ppn (set_flags (m.tables table vpn) Flags.valid) page)) rest
              page below size fill
      ]
    ]
  ]
]
  where
    same_size : PageSize → PageSize → Bool
    same_size kilopage kilopage = true
    same_size megapage megapage = true
    same_size gigapage gigapage = true
    same_size a b = false

unfoldable pub map :
    Memory
    → PhysicalAddress
    → PhysicalAddress
    → VirtualAddress
    → Flags
    → PageSize
    → Rsw
    → Walked Memory
unfolding map_loop walk_vpns
map m root from to f size r =
    if not (assert_addr_aligned size from) || not (assert_addr_aligned size to)
    then panicked
    else map_loop m (walk_vpns to) root top_level size
        (λ e. set_rsw (set_ppn (set_flags e f) from) r)

-- `static_map` writes no `Rsw`.
unfoldable pub static_map :
    Memory → PhysicalAddress → PhysicalAddress → VirtualAddress → Flags → PageSize → Walked Memory
unfolding map_loop walk_vpns
static_map m root from to f size =
    if not (assert_addr_aligned size from) || not (assert_addr_aligned size to)
    then panicked
    else map_loop m (walk_vpns to) root top_level size (λ e. set_ppn (set_flags e f) from)

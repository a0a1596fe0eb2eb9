-- ===== src/PageTable/Updates.antt =====
-- What a change of a mapped page does to later walks
-- (src/kernel/vanadinite/src/mem/paging/table.rs).
use vanadinite.Prelude.{ℕ, ◌≡◌, refl, none}
use vanadinite.Paging.Size.{PageSize, top_level}
use vanadinite.Paging.Virtual.{VirtualAddress}
use vanadinite.Paging.Physical.{PhysicalAddress}
use vanadinite.Paging.Flags.{has}
use vanadinite.Paging.Entry
use vanadinite.Paging.Entry.{not_valid, kind, flags}
use vanadinite.PageTable.{
  Memory, write, found, locate, walk_vpns, done, with_entry, with_entry_mut, unmap, resolve,
}
use vanadinite.PageTable.Walk.{locate_lem}

empty_kind : kind Entry.new ≡ not_valid
unfolding kind flags has
empty_kind = refl

-- If the walk of an address finds a leaf, `unmap` does not panic: it clears that entry, and then the
-- address resolves to nothing.
pub unmap-resolve :
    (m : Memory) (root : PhysicalAddress) (address : VirtualAddress) (t v : ℕ) (size : PageSize)
    → locate m (walk_vpns address) root top_level ≡ found t v size
    → (unmap m root address ≡ done (write m t v Entry.new))
      × (resolve (write m t v Entry.new) root address ≡ done none)
unfolding unmap with_entry_mut resolve with_entry
unmap-resolve m root address t v size h =
    let (_, _, gone) = locate_lem m (walk_vpns address) root top_level t v size h in
    (rw (unmap, with_entry_mut, h) refl, rw (resolve, with_entry, gone Entry.new empty_kind) refl)

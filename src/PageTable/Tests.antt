-- ===== src/PageTable/Tests.antt =====
-- Runs of the page table walk (src/kernel/vanadinite/src/mem/paging/table.rs).
use vanadinite.Prelude.{◌≡◌, refl, none, ◌&&◌, ◌==◌, if◌then◌else◌, []}
use vanadinite.Paging.Size.{gigapage, top_level}
use vanadinite.Paging.Virtual.{vpns}
use vanadinite.Paging.Flags.{has}
use vanadinite.Paging.Entry
use vanadinite.Paging.Entry.{kind, flags}
use vanadinite.PageTable.{Memory, write, found, locate, walk_vpns, done, unmap, resolve}
use vanadinite.PageTable.Updates.{unmap-resolve}

-- One page of 1 GiB, readable, at address 0.
abbrev one_page : Memory
one_page = record {
  tables = λ t v. if (t == 0x1000) && (v == 0) then 0x2000_0003 else 0;
  fresh = [];
}

one_page-found : locate one_page (walk_vpns 0) 0x1000 top_level ≡ found 0x1000 0 gigapage
unfolding locate walk_vpns vpns kind flags has
one_page-found = refl

unmap-resolve_example :
    (unmap one_page 0x1000 0 ≡ done (write one_page 0x1000 0 Entry.new))
    × (resolve (write one_page 0x1000 0 Entry.new) 0x1000 0 ≡ done none)
unmap-resolve_example = unmap-resolve one_page 0x1000 0 0x1000 0 gigapage one_page-found

-- ===== src/Paging/Tests.antt =====
-- Runs of the addresses and the page table entries
-- (src/kernel/vanadinite/src/mem/paging/table/repr.rs).
use Prim.Native.Nat.{bit_or}
use vanadinite.Prelude.{
  ℕ, ◌+◌, ◌-◌, ◌/◌, ◌%◌, ◌^◌, ◌≡◌, inr, refl, none, some, leb, ltb, if◌then◌else◌, arith,
}
use vanadinite.Paging.Virtual.{
  new, vpns, checked_add, checked_sub, userspace_range, range_contains, is_kernel_region,
}
use vanadinite.Paging.Virtual.Ranges.{checked_add-kernelspace, checked_sub-userspace}
use vanadinite.Paging.Virtual.Pages.{IsCanonical}
use vanadinite.Paging.Entry.{flags, rsw, rsw_none, rsw_shared_memory, set_rsw}
use vanadinite.Paging.Entry.Fields.{set_rsw_lem}

-- `VALID | READ | USER`
abbrev page_flags : ℕ
page_flags = 0x13

abbrev page : ℕ
page = 0x8020_0000

abbrev kernel_page : ℕ
kernel_page = 2 ^ 64 - 2 ^ 38 + 0x3000

addresses :
    (vpns kernel_page ≡ (3, 0, 256))
    × (new (2 ^ 38) ≡ 2 ^ 64 - 2 ^ 38)
    × (checked_add 0 4096 ≡ some 4096)
unfolding vpns new checked_add
addresses = (refl, refl, refl)

kernel_page-IsCanonical : IsCanonical kernel_page
kernel_page-IsCanonical = (omega arith, inr refl)

checked_add-kernelspace_example :
    checked_add kernel_page 4096
    ≡ (if ltb (kernel_page + 4096) (2 ^ 64) then some (kernel_page + 4096) else none)
unfolding is_kernel_region
checked_add-kernelspace_example = checked_add-kernelspace kernel_page 4096 refl

checked_sub-userspace_example : checked_sub 4096 1 ≡ (if leb 1 4096 then some (4096 - 1) else none)
unfolding range_contains userspace_range
checked_sub-userspace_example = checked_sub-userspace 4096 1 refl

set_rsw_lem_example :
    (rsw (set_rsw 0x313 rsw_shared_memory) ≡ rsw_none)
    × (flags (set_rsw 0x313 rsw_shared_memory) ≡ bit_or (flags 0x313) (rsw_shared_memory % 2 ^ 2))
    × (set_rsw 0x313 rsw_shared_memory / 2 ^ 10 ≡ 0x313 / 2 ^ 10)
set_rsw_lem_example = set_rsw_lem 0x313 rsw_shared_memory

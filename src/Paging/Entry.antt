-- ===== src/Paging/Entry.antt =====
-- `PageTableEntry` (src/kernel/vanadinite/src/mem/paging/table/repr.rs): a
-- 64-bit word whose low byte holds the flags, bits 8 and 9 the supervisor's `Rsw`, and the bits from
-- 10 up the number of a physical page. Clearing a mask is written as a subtraction of those bits.
pub mod Fields
pub mod Kinds
use Prim.Native.Nat.{bit_or}
use vanadinite.Prelude.{
  ℕ, ◌+◌, ◌-◌, ◌*◌, ◌/◌, ◌%◌, ◌^◌, Bool, true, false, ◌||◌, Option, none, some, ◌==◌, if◌then◌else◌,
}
use vanadinite.Paging.Flags
use vanadinite.Paging.Flags.{Flags}
use vanadinite.Paging.Physical.{PhysicalAddress, ppn}

abbrev pub PageTableEntry : Type 0
PageTableEntry = ℕ

abbrev pub new : PageTableEntry
new = 0

-- `EntryKind`
pub data EntryKind : Type 0 where
  not_valid : EntryKind
  leaf : EntryKind
  branch : PhysicalAddress → EntryKind

unfoldable pub is_valid : PageTableEntry → Bool
is_valid self = self % 2 == 1

unfoldable pub flags : PageTableEntry → Flags
flags self = self % 2 ^ 8

unfoldable pub set_flags : PageTableEntry → Flags → PageTableEntry
set_flags self f = let this = self - self % 2 ^ 8 in bit_or this f

-- `Rsw(u8)`
abbrev pub Rsw : Type 0
Rsw = ℕ

-- `Rsw::NONE`
abbrev pub rsw_none : Rsw
rsw_none = 0

-- `Rsw::SHARED_MEMORY`
abbrev pub rsw_shared_memory : Rsw
rsw_shared_memory = 1

-- `Rsw::DIRECT`
abbrev pub rsw_direct : Rsw
rsw_direct = 2

unfoldable pub rsw : PageTableEntry → Rsw
rsw self = self / 2 ^ 8 % 2 ^ 2

-- The two bits are cleared at 8 and 9, and the new value is joined in at 0 and 1.
unfoldable pub set_rsw : PageTableEntry → Rsw → PageTableEntry
set_rsw self r = let this = self - self / 2 ^ 8 % 2 ^ 2 * 2 ^ 8 in bit_or this (r % 2 ^ 2)

-- `((self.0 >> 10) << 12)`, in 64 bits
unfoldable pub entry_ppn : PageTableEntry → Option PhysicalAddress
unfolding is_valid
entry_ppn self = if is_valid self then some (self / 2 ^ 10 * 2 ^ 12 % 2 ^ 64) else none

unfoldable pub set_ppn : PageTableEntry → PhysicalAddress → PageTableEntry
unfolding ppn
set_ppn self address =
    let shifted = ppn address * 2 ^ 10 % 2 ^ 64 in let this = self % 2 ^ 10 in bit_or this shifted

-- `self.ppn().unwrap()` cannot fail where the valid flag is set; the model writes its value.
unfoldable pub kind : PageTableEntry → EntryKind
unfolding flags Flags.has
kind self =
    if Flags.has (flags self) Flags.valid
    then if Flags.has (flags self) Flags.read || Flags.has (flags self) Flags.execute
      then leaf
      else branch (self / 2 ^ 10 * 2 ^ 12 % 2 ^ 64)
    else not_valid

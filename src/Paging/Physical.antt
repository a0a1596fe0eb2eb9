-- ===== src/Paging/Physical.antt =====
-- `PhysicalAddress` (src/kernel/vanadinite/src/mem/paging/table/repr.rs), a 64-bit word.
use vanadinite.Prelude.{
  ℕ, ◌+◌, ◌*◌, ◌/◌, ◌%◌, ◌^◌, ◌<◌, ◌≡◌, Option, none, some, ltb, if◌then◌else◌, arith,
}
use vanadinite.Paging.Size.{PageSize, to_byte_size}

abbrev pub PhysicalAddress : Type 0
PhysicalAddress = ℕ

-- `none` is the panic "physical address wrapped overflow".
unfoldable pub offset : PhysicalAddress → ℕ → Option PhysicalAddress
offset self bytes = if ltb (self + bytes) (2 ^ 64) then some (self + bytes) else none

unfoldable pub ppns : PhysicalAddress → ℕ × ℕ × ℕ
ppns self = (self / 2 ^ 12 % 2 ^ 9, self / 2 ^ 21 % 2 ^ 9, self / 2 ^ 30 % 2 ^ 26)

-- `(self.0 >> 12) & PPN_MASK`, a mask of 56 ones
unfoldable pub ppn : PhysicalAddress → ℕ
ppn self = self / 2 ^ 12 % 2 ^ 56

unfoldable pub offset_into_page : PhysicalAddress → PageSize → ℕ
offset_into_page self size = self % to_byte_size size

-- The page number of an address and its offset into a 4 KiB page make up the address, and so do its
-- three parts, up to the 56 bits that the architecture gives a physical address.
pub ppns-ppn :
    (a : PhysicalAddress)
    → a < 2 ^ 56
    → (ppn a * 2 ^ 12 + offset_into_page a PageSize.kilopage ≡ a)
      × ((ppns a).0 + (ppns a).1 * 2 ^ 9 + (ppns a).2 * 2 ^ 18 ≡ ppn a)
unfolding ppn ppns offset_into_page
ppns-ppn a h = (omega arith, omega arith)

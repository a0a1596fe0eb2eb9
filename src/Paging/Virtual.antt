-- ===== src/Paging/Virtual.antt =====
-- `VirtualAddress` (src/kernel/vanadinite/src/mem/paging/table/repr.rs), a 64-bit word. A mask is
-- written as a remainder or a multiple; `&`, `|` of two values that may share bits is `bit_or`.
pub mod Ranges
pub mod Pages
use Prim.Native.Nat.{bit_or}
use vanadinite.Prelude.{
  ℕ, ◌+◌, ◌-◌, ◌*◌, ◌/◌, ◌%◌, ◌^◌, zero, Bool, true, false, not, ◌&&◌, ◌||◌, Option, none, some,
  ltb, leb, ◌==◌, if◌then◌else◌,
}
use vanadinite.Prelude.Int.{ℤ, pos, negsuc}
use vanadinite.Paging.Size.{PageSize, to_byte_size}

abbrev pub VirtualAddress : Type 0
VirtualAddress = ℕ

abbrev pub n_vpn : ℕ
n_vpn = 3

-- `core::ops::Range`
pub record Range : Type 0 where
  pub start : ℕ
  pub end : ℕ

unfoldable pub range_contains : Range → ℕ → Bool
range_contains r a = leb r.start a && ltb a r.end

-- `1 << (12 + N_VPN * 9 - 1)`, the lowest of the bits that must all be equal
abbrev pub top_most_bit : ℕ
top_most_bit = 2 ^ 38

-- `addr |= usize::MAX << 38` sets bits 38 to 63.
unfoldable pub new : ℕ → VirtualAddress
new addr =
    if addr / top_most_bit % 2 == 1 then addr % top_most_bit + (2 ^ 64 - top_most_bit) else addr

-- The sign of the word read as an `isize`.
unfoldable pub is_kernel_region : VirtualAddress → Bool
is_kernel_region self = leb (2 ^ 63) self

unfoldable pub userspace_range : Range
unfolding new
userspace_range = record { start = new 0; end = new (2 ^ 38 - 1) }

-- `vpns[i] << shift`, in 64 bits
abbrev pub shl : ℕ → ℕ → ℕ
shl x shift = x * 2 ^ shift % 2 ^ 64

-- The loop of `from_vpns` over its three numbers, then the sign extension.
unfoldable pub from_vpns : ℕ × ℕ × ℕ → VirtualAddress
unfolding new
from_vpns (v0, v1, v2) = new (bit_or (bit_or (bit_or 0 (shl v0 12)) (shl v1 21)) (shl v2 30))

unfoldable pub kernelspace_range : Range
unfolding from_vpns new
kernelspace_range = record { start = from_vpns (0, 0, 256); end = new (2 ^ 64 - 1) }

same_bool : Bool → Bool → Bool
same_bool true b = b
same_bool false b = not b

unfoldable pub checked_add : VirtualAddress → ℕ → Option VirtualAddress
unfolding is_kernel_region userspace_range range_contains same_bool
checked_add self bytes =
    let sum = self + bytes in
    let same_region = same_bool (is_kernel_region sum) (is_kernel_region self) in
    let not_hole = is_kernel_region sum || range_contains userspace_range sum in
    if leb (2 ^ 64) sum then none else if not same_region || not not_hole then none else some sum

-- The branch of `checked_offset` for an offset that is not positive, `self.0 - offset`.
unfoldable pub checked_sub : VirtualAddress → ℕ → Option VirtualAddress
unfolding is_kernel_region userspace_range kernelspace_range range_contains same_bool
checked_sub self offset =
    let difference = self - offset in
    let same_region = same_bool (is_kernel_region difference) (is_kernel_region self) in
    let not_hole =
      range_contains kernelspace_range difference || range_contains userspace_range difference in
    if ltb self offset
    then none
    else if not same_region || not not_hole
    then none
    else some difference

-- `offset.is_positive()` fails at 0.
unfoldable pub checked_offset : VirtualAddress → ℤ → Option VirtualAddress
unfolding checked_add checked_sub
checked_offset self (pos zero) = checked_sub self 0
checked_offset self (pos offset) = checked_add self offset
checked_offset self (negsuc n) = checked_sub self (n + 1)

-- `unchecked_offset(-1)`, the one use; the subtraction wraps in a release build.
unfoldable pub unchecked_before : VirtualAddress → VirtualAddress
unchecked_before self = (self + 2 ^ 64 - 1) % 2 ^ 64

-- `self.0 & !(size - 1)`: every page size is a power of two.
unfoldable pub align_down_to : VirtualAddress → PageSize → VirtualAddress
align_down_to self size = self / to_byte_size size * to_byte_size size

unfoldable pub align_to_next : VirtualAddress → PageSize → VirtualAddress
unfolding align_down_to
align_to_next self size = (align_down_to self size + to_byte_size size) % 2 ^ 64

-- `(self.0 >> shift) & 0x1FF` at the shifts 12, 21 and 30
unfoldable pub vpns : VirtualAddress → ℕ × ℕ × ℕ
vpns self = (self / 2 ^ 12 % 2 ^ 9, self / 2 ^ 21 % 2 ^ 9, self / 2 ^ 30 % 2 ^ 9)

unfoldable pub offset_into_page : VirtualAddress → PageSize → ℕ
offset_into_page self size = self % to_byte_size size

unfoldable pub is_aligned : VirtualAddress → PageSize → Bool
unfolding offset_into_page
is_aligned self size = offset_into_page self size == 0

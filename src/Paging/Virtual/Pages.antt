-- ===== src/Paging/Virtual/Pages.antt =====
-- Addresses and their page numbers (src/kernel/vanadinite/src/mem/paging/table/repr.rs).
use Prim.Native.Nat.{bit_or}
use native.Mathlib.Nat.{mod-eq_of_lt}
use vanadinite.Prelude.{ℕ, ◌+◌, ◌-◌, ◌*◌, ◌/◌, ◌%◌, ◌^◌, ◌<◌, ◌≡◌, ◌⊎◌, ap, ◌∙◌, true, arith}
use vanadinite.Prelude.Bits.{zero-bit_or, bit_or_disjoint}
use vanadinite.Paging.Size.{PageSize, kilopage, megapage, gigapage, to_byte_size}
use vanadinite.Paging.Virtual.{
  VirtualAddress, new, from_vpns, vpns, align_down_to, align_to_next, offset_into_page, is_aligned,
  shl,
}

-- The bits that the hardware wants equal are.
abbrev pub IsCanonical : VirtualAddress → Type 0
IsCanonical a = (a < 2 ^ 64) × ((a / 2 ^ 38 ≡ 0) ⊎ (a / 2 ^ 38 ≡ 2 ^ 26 - 1))

-- `VirtualAddress::new` of a word of at most 39 bits is a canonical address with the same 39 bits, and
-- making an address of that again changes nothing.
pub new-IsCanonical :
    (a : ℕ) → a < 2 ^ 39 → IsCanonical (new a) × (new a % 2 ^ 39 ≡ a) × (new (new a) ≡ new a)
unfolding new
new-IsCanonical a h = (ground arith, ground arith, ground arith)

from_vpns_lem :
    (v0 v1 v2 : ℕ)
    → v0 < 2 ^ 9
    → v1 < 2 ^ 9
    → v2 < 2 ^ 9
    → from_vpns (v0, v1, v2) ≡ new (v0 * 2 ^ 12 + v1 * 2 ^ 21 + v2 * 2 ^ 30)
unfolding from_vpns
from_vpns_lem v0 v1 v2 h0 h1 h2 = ap new joined
  where
    word : (k v : ℕ) → v * 2 ^ k < 2 ^ 64 → shl v k ≡ v * 2 ^ k
    word k v h = mod-eq_of_lt h

    joined :
        bit_or (bit_or (bit_or 0 (shl v0 12)) (shl v1 21)) (shl v2 30)
        ≡ v0 * 2 ^ 12 + v1 * 2 ^ 21 + v2 * 2 ^ 30
    joined =
        rw
          (
            word 12 v0 (omega arith),
            word 21 v1 (omega arith),
            word 30 v2 (omega arith),
            zero-bit_or,
            bit_or_disjoint 21 (v0 * 2 ^ 12) v1 (omega arith),
          )
          (bit_or_disjoint 30 (v0 * 2 ^ 12 + v1 * 2 ^ 21) v2 (omega arith))

-- The three page numbers of a canonical address give back the address of its 4 KiB page.
pub from_vpns-vpns : (a : ℕ) → IsCanonical a → from_vpns (vpns a) ≡ align_down_to a kilopage
unfolding vpns align_down_to
from_vpns-vpns a h =
    from_vpns_lem _ _ _ (omega arith) (omega arith) (omega arith) ∙ unfold new in ground arith

-- Any three page numbers of 9 bits come back from the address made of them, whose page offset is 0.
pub vpns-from_vpns :
    (v0 v1 v2 : ℕ)
    → v0 < 2 ^ 9
    → v1 < 2 ^ 9
    → v2 < 2 ^ 9
    → (vpns (from_vpns (v0, v1, v2)) ≡ (v0, v1, v2))
      × (is_aligned (from_vpns (v0, v1, v2)) kilopage ≡ true)
      × IsCanonical (from_vpns (v0, v1, v2))
unfolding vpns is_aligned
vpns-from_vpns v0 v1 v2 h0 h1 h2 =
    rw (from_vpns_lem v0 v1 v2 h0 h1 h2) (unfold new in (ground arith, ground arith, ground arith))

-- `align_down_to` gives the last aligned address that is not above, and `align_to_next`, which never
-- stays, the first one above, if that is a word.
pub align_lem :
    (a : ℕ) (size : PageSize)
    → a + to_byte_size size < 2 ^ 64
    → (is_aligned (align_down_to a size) size ≡ true)
      × (align_down_to a size + offset_into_page a size ≡ a)
      × (offset_into_page a size < to_byte_size size)
      × (align_to_next a size ≡ align_down_to a size + to_byte_size size)
unfolding is_aligned align_down_to align_to_next
align_lem a kilopage h = (ground arith, omega arith, omega arith, omega arith)
align_lem a megapage h = (ground arith, omega arith, omega arith, omega arith)
align_lem a gigapage h = (ground arith, omega arith, omega arith, omega arith)

-- ===== src/Paging/Virtual/Ranges.antt =====
-- The two halves of the address space, and moving by an offset
-- (src/kernel/vanadinite/src/mem/paging/table/repr.rs).
use vanadinite.Prelude.{
  ℕ, ◌+◌, ◌-◌, ◌^◌, ◌<◌, ◌≤◌, ◌≡◌, ◌⊎◌, refl, true, none, some, leb, ltb, if◌then◌else◌, arith,
}
use vanadinite.Prelude.Int.{negsuc}
use vanadinite.Paging.Virtual.{
  is_kernel_region, userspace_range, kernelspace_range, checked_add, checked_sub, checked_offset,
  unchecked_before, range_contains,
}

pub userspace_range_lem : userspace_range ≡ record { start = 0; end = 2 ^ 38 - 1 }
unfolding userspace_range
userspace_range_lem = refl

pub kernelspace_range_lem : kernelspace_range ≡ record { start = 2 ^ 64 - 2 ^ 38; end = 2 ^ 64 - 1 }
unfolding kernelspace_range
kernelspace_range_lem = refl

-- Moving up by `n` bytes from an address of the user range gives the sum exactly when that lies in
-- the user range.
pub checked_add-userspace :
    (a n : ℕ)
    → range_contains userspace_range a ≡ true
    → checked_add a n ≡ (if range_contains userspace_range (a + n) then some (a + n) else none)
unfolding checked_add range_contains userspace_range
checked_add-userspace a n h = ground arith

-- Moving up by `n` bytes from an address of the upper half gives the sum exactly when that is a
-- 64-bit word.
pub checked_add-kernelspace :
    (a n : ℕ)
    → is_kernel_region a ≡ true
    → checked_add a n ≡ (if ltb (a + n) (2 ^ 64) then some (a + n) else none)
unfolding checked_add is_kernel_region
checked_add-kernelspace a n h = ground arith

-- Moving down by `n` bytes from an address of the user range fails exactly below 0.
pub checked_sub-userspace :
    (a n : ℕ)
    → range_contains userspace_range a ≡ true
    → checked_sub a n ≡ (if leb n a then some (a - n) else none)
unfolding checked_sub range_contains userspace_range
checked_sub-userspace a n h = ground arith

-- Moving down by `n` bytes from an address of the kernel range fails exactly below the start of that
-- range.
pub checked_sub-kernelspace :
    (a n : ℕ)
    → range_contains kernelspace_range a ≡ true
    → checked_sub a n ≡ (if leb (kernelspace_range.start + n) a then some (a - n) else none)
unfolding checked_sub range_contains kernelspace_range
checked_sub-kernelspace a n h = ground arith

-- From the end of a range inside either half, one byte back is in the half: `offset(-1)` does not
-- panic, and `unchecked_offset(-1)` does not wrap.
pub checked_offset-before :
    (e : ℕ)
    → ((0 < e) × (e ≤ 2 ^ 38 - 1)) ⊎ ((2 ^ 64 - 2 ^ 38 < e) × (e ≤ 2 ^ 64 - 1))
    → (checked_offset e (negsuc 0) ≡ some (e - 1)) × (unchecked_before e ≡ e - 1)
unfolding checked_offset unchecked_before
checked_offset-before e h = (ground arith, omega arith)

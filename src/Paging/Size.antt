-- ===== src/Paging/Size.antt =====
-- `PageSize` (src/kernel/vanadinite/src/mem/paging/table/repr.rs) and `round_up_to_next`
-- (src/kernel/vanadinite/src/utils.rs).
use vanadinite.Prelude.{ℕ, ◌+◌, ◌*◌, ◌/◌, ◌%◌, Bool, Option, none, some, ◌==◌, if◌then◌else◌}

pub data PageSize : Type 0 where
  kilopage megapage gigapage : PageSize

-- 4.kib(), 2.mib(), 1.gib()
abbrev pub to_byte_size : PageSize → ℕ
to_byte_size kilopage = 4 * 1024
to_byte_size megapage = 2 * 1024 * 1024
to_byte_size gigapage = 1024 * 1024 * 1024

unfoldable pub next : PageSize → Option PageSize
next kilopage = none
next megapage = some kilopage
next gigapage = some megapage

abbrev pub top_level : PageSize
top_level = gigapage

-- Whether `assert_addr_aligned` returns.
unfoldable pub assert_addr_aligned : PageSize → ℕ → Bool
assert_addr_aligned self addr = addr % to_byte_size self == 0

-- `n & !(size - 1)` for a power of two `size`, which the source asserts.
unfoldable pub round_up_to_next : ℕ → ℕ → ℕ
round_up_to_next n size = if n % size == 0 then n else n / size * size + size

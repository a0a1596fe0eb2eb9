-- ===== src/Region/Tests.antt =====
-- Runs of the regions (src/kernel/vanadinite/src/mem/region.rs).
use vanadinite.Prelude.{ℕ, ◌+◌, ◌*◌, ◌<◌, ◌^◌, ◌≡◌, refl, some, [], ◌∷◌, arith}
use vanadinite.Paging.Size.{megapage, to_byte_size}
use vanadinite.Paging.Physical.{offset}
use vanadinite.Region.{UniquePhysicalRegion, contiguous, physical_addresses, contiguous_from}

abbrev two_pages : UniquePhysicalRegion
two_pages = record { kind = contiguous 0x8020_0000; size = megapage; n_pages = 2 }

listing : physical_addresses two_pages ≡ some (0x8020_0000 ∷ 0x8040_0000 ∷ [])
unfolding physical_addresses contiguous_from offset
listing = refl

in_word : (j : ℕ) → j < 2 → 0x8020_0000 + j * to_byte_size megapage < 2 ^ 64
in_word j h = omega arith

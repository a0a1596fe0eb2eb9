-- ===== src/Paging/Flags.antt =====
-- `Flags(u8)` (src/kernel/vanadinite/src/mem/paging/table/flags.rs).
use Prim.Native.Nat.{bit_or, bit_and}
use vanadinite.Prelude.{ℕ, Bool, ◌==◌}

abbrev pub Flags : Type 0
Flags = ℕ

abbrev pub valid : Flags
valid = 0b0000_0001

abbrev pub read : Flags
read = 0b0000_0010

abbrev pub write : Flags
write = 0b0000_0100

abbrev pub execute : Flags
execute = 0b0000_1000

abbrev pub user : Flags
user = 0b0001_0000

abbrev pub global : Flags
global = 0b0010_0000

abbrev pub accessed : Flags
accessed = 0b0100_0000

abbrev pub dirty : Flags
dirty = 0b1000_0000

-- `impl BitAnd for Flags`
unfoldable pub has : Flags → Flags → Bool
has self rhs = bit_and self rhs == rhs

-- `impl BitOr for Flags`
unfoldable pub join : Flags → Flags → Flags
join self rhs = bit_or self rhs

pub record FlagsStruct : Type 0 where
  pub is_valid : Bool
  pub is_read : Bool
  pub is_write : Bool
  pub is_execute : Bool
  pub is_user : Bool
  pub is_global : Bool
  pub is_accessed : Bool
  pub is_dirty : Bool

unfoldable pub matchable : Flags → FlagsStruct
unfolding has
matchable self = record {
  is_valid = has self valid;
  is_read = has self read;
  is_write = has self write;
  is_execute = has self execute;
  is_user = has self user;
  is_global = has self global;
  is_accessed = has self accessed;
  is_dirty = has self dirty;
}

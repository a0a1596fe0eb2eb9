-- ===== src/Capability.antt =====
-- Capability spaces: src/kernel/vanadinite/src/capabilities.rs, and the capability pointers and
-- rights of src/shared/librust/src/capabilities.rs. The capability itself (a channel, shared
-- memory or MMIO, with its rights) is only stored and returned, so it is any type `C`.
mod Tests
pub mod Mint
pub mod Rights
use Prim.Native.Nat.{bit_and, bit_or}
use vanadinite.Prelude.{
  ℕ, ◌+◌, ◌-◌, ◌%◌, ◌^◌, Bool, true, false, Option, none, some, ◌==◌, is_some, if◌then◌else◌,
}
use vanadinite.BTreeMap.{BTreeMap, get, insert, remove, max_key}

-- `CapabilityPtr(usize)`
abbrev pub CapabilityPtr : Type 0
CapabilityPtr = ℕ

abbrev pub CapabilitySpace : Type 0 → Type 0
CapabilitySpace C = BTreeMap C

-- `CapabilityRights(usize)`
abbrev pub CapabilityRights : Type 0
CapabilityRights = ℕ

-- `CapabilityRights::new`
unfoldable pub rights_new : ℕ → CapabilityRights
rights_new value = bit_and value 0xF

-- `!other.0` is the complement in 64 bits.
unfoldable pub is_superset : CapabilityRights → CapabilityRights → Bool
is_superset self other = bit_or self (2 ^ 64 - 1 - other) == 2 ^ 64 - 1

-- `impl BitAnd for CapabilityRights`
unfoldable pub contains_rights : CapabilityRights → CapabilityRights → Bool
contains_rights self rhs = bit_and self rhs == rhs

-- `Result<(), Occupied>`, with the space after the call
pub data Minted (C : Type 0) : Type 0 where
  minted : CapabilitySpace C → Minted C
  occupied : Minted C

module _ {C : Type 0} where
  unfoldable pub mint_with_id : CapabilitySpace C → CapabilityPtr → C → Minted C
  mint_with_id inner cptr capability =
      if is_some (get cptr inner) then occupied else minted (insert cptr capability inner)

  -- `keys().max().map(|c| c.value() + 1).unwrap_or(0)`; the addition wraps in a release build.
  unfoldable pub next_cptr : CapabilitySpace C → CapabilityPtr
  next_cptr inner = elim (max_key inner) [ none ↦ 0 | some c ↦ (c + 1) % 2 ^ 64 ]

  unfoldable pub mint_with :
      CapabilitySpace C → (CapabilityPtr → C) → CapabilitySpace C × CapabilityPtr
  mint_with inner f = let cptr = next_cptr inner in (insert cptr (f cptr) inner, cptr)

  -- `none` is the panic of the assertion that the insertion replaced nothing.
  unfoldable pub mint : CapabilitySpace C → C → Option (CapabilitySpace C × CapabilityPtr)
  mint inner capability =
      let cptr = next_cptr inner in
      if is_some (get cptr inner) then none else some (insert cptr capability inner, cptr)

  unfoldable pub resolve : CapabilitySpace C → CapabilityPtr → Option C
  resolve inner cptr = get cptr inner

  -- The space after the call, and what was removed.
  unfoldable pub remove_cptr : CapabilitySpace C → CapabilityPtr → CapabilitySpace C × Option C
  remove_cptr inner cptr = (remove cptr inner, get cptr inner)

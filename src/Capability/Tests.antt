-- ===== src/Capability/Tests.antt =====
-- Runs of a capability space of numbers (src/kernel/vanadinite/src/capabilities.rs).
use vanadinite.Prelude.{
  ℕ, ◌+◌, ◌-◌, ◌<◌, ◌^◌, ◌≡◌, refl, none, some, [], ◌∷◌, ◌==◌, if◌then◌else◌, arith,
}
use vanadinite.BTreeMap.{IsSorted, max_key, get, insert, remove}
use vanadinite.Capability.{
  CapabilitySpace, CapabilityPtr, minted, occupied, mint_with_id, next_cptr, mint_with, mint,
  resolve, remove_cptr,
}
use vanadinite.Capability.Mint.{mint_lem, mint_wraps}

abbrev space : CapabilitySpace ℕ
space = (0, 70) ∷ (3, 71) ∷ []

abbrev full_space : CapabilitySpace ℕ
full_space = (0, 70) ∷ (2 ^ 64 - 1, 71) ∷ []

space-IsSorted : IsSorted space
space-IsSorted = (omega arith, tt)

minting :
    (mint space 72 ≡ some ((0, 70) ∷ (3, 71) ∷ (4, 72) ∷ [], 4))
    × (mint_with_id space 3 72 ≡ occupied)
    × (mint_with_id space 1 72 ≡ minted ((0, 70) ∷ (1, 72) ∷ (3, 71) ∷ []))
    × (remove_cptr space 0 ≡ ((3, 71) ∷ [], some 70))
unfolding mint mint_with_id remove_cptr next_cptr max_key get insert remove
minting = (refl, refl, refl, refl)

room : (k : ℕ) → max_key space ≡ some k → k + 1 < 2 ^ 64
unfolding max_key
room k h = ground arith

mint_lem_example :
    (cptr : CapabilityPtr) × (t : CapabilitySpace ℕ) × (u : CapabilitySpace ℕ) × (next_cptr space
      ≡ cptr)
    × (mint space 72 ≡ some (t, cptr))
    × (mint_with space (λ p. p + 70) ≡ (u, cptr))
    × (resolve space cptr ≡ none)
    × ((q : CapabilityPtr) → resolve t q ≡ (if cptr == q then some 72 else resolve space q))
    × ((q : CapabilityPtr)
        → resolve u q ≡ (if cptr == q then some (cptr + 70) else resolve space q))
    × IsSorted t
    × IsSorted u
    × (mint space (cptr + 70) ≡ some (mint_with space (λ p. p + 70)))
mint_lem_example = mint_lem space space-IsSorted 72 (λ p. p + 70) room

mint_wraps_example :
    (mint full_space 72 ≡ none) × (resolve (mint_with full_space (λ _. 72)).0 0 ≡ some 72)
unfolding max_key resolve get
mint_wraps_example = mint_wraps full_space 72 70 refl refl

-- ===== src/Capability/Mint.antt =====
-- What minting and removing do to the capabilities that a task can resolve
-- (src/kernel/vanadinite/src/capabilities.rs).
use vanadinite.Prelude.{
  ℕ, ◌+◌, ◌%◌, ◌<◌, ◌^◌, ◌≡◌, ◌≢◌, ◌⊎◌, ◌-◌, refl, none, some, ◌==◌, if◌then◌else◌, arith,
  Option-cases, inl, inr,
}
use vanadinite.BTreeMap.{get, insert, max_key, IsSorted}
use vanadinite.BTreeMap.Laws.{
  get-insert, get-remove, insert-IsSorted, remove-IsSorted, get_of_max_key_lt, max_key-none,
}
use vanadinite.Capability.{
  CapabilitySpace, CapabilityPtr, minted, occupied, mint_with_id, next_cptr, mint_with, mint,
  resolve, remove_cptr,
}

module _ {C : Type 0} (s : CapabilitySpace C) (sorted : IsSorted s) where
  -- Below the last pointer of the word, the pointer that the next mint chooses is unused.
  pub resolve-next_cptr :
      ((k : ℕ) → max_key s ≡ some k → k + 1 < 2 ^ 64) → resolve s (next_cptr s) ≡ none
  unfolding resolve next_cptr
  resolve-next_cptr room = elim (Option-cases (max_key s)) [
    | inl e ↦ rw (e, next_cptr) (max_key-none 0 s e)
    | inr (k, e) ↦
        rw (e, next_cptr)
          (get_of_max_key_lt k ((k + 1) % 2 ^ 64) s sorted e (omega (arith, room k e)))
  ]

  -- In a space with its keys in order, whose largest pointer in use is below the last one of the
  -- word, `mint` and `mint_with` hand out one pointer, which resolved to nothing, and `mint` does
  -- not panic. After `mint` that pointer resolves to the capability `c`, and after `mint_with` to
  -- what the closure `f` makes of that pointer; every other pointer resolves as before, and the
  -- keys stay in order. `mint` of what the closure makes of the pointer leaves the same space as
  -- `mint_with`.
  pub mint_lem :
      (c : C) (f : CapabilityPtr → C)
      → ((k : ℕ) → max_key s ≡ some k → k + 1 < 2 ^ 64)
      → (cptr : CapabilityPtr) × (t : CapabilitySpace C) × (u : CapabilitySpace C) × (next_cptr s
          ≡ cptr)
        × (mint s c ≡ some (t, cptr))
        × (mint_with s f ≡ (u, cptr))
        × (resolve s cptr ≡ none)
        × ((q : CapabilityPtr) → resolve t q ≡ (if cptr == q then some c else resolve s q))
        × ((q : CapabilityPtr) → resolve u q ≡ (if cptr == q then some (f cptr) else resolve s q))
        × IsSorted t
        × IsSorted u
        × (mint s (f cptr) ≡ some (mint_with s f))
  unfolding mint mint_with resolve
  mint_lem c f room =
      let cptr = next_cptr s in
      let fresh = resolve-next_cptr room in
      (
        cptr,
        insert cptr c s,
        insert cptr (f cptr) s,
        refl,
        rw fresh refl,
        refl,
        fresh,
        (λ q. get-insert q cptr c s),
        (λ q. get-insert q cptr (f cptr) s),
        insert-IsSorted cptr c s sorted,
        insert-IsSorted cptr (f cptr) s sorted,
        rw fresh refl,
      )

  -- `mint_with_id` refuses exactly the pointers that resolve; otherwise the pointer resolves to the
  -- new capability, every other one as before, and the keys stay in order.
  pub mint_with_id_lem :
      (p : CapabilityPtr) (c : C)
      → ((mint_with_id s p c ≡ occupied) × (resolve s p ≢ none))
        ⊎ ((t : CapabilitySpace C) × (mint_with_id s p c ≡ minted t)
            × (resolve s p ≡ none)
            × ((q : CapabilityPtr) → resolve t q ≡ (if p == q then some c else resolve s q))
            × IsSorted t)
  unfolding mint_with_id resolve
  mint_with_id_lem p c = elim (Option-cases (get p s)) [
    | inl e ↦
        inr (insert p c s, rw e refl, e, λ q. get-insert q p c s, insert-IsSorted p c s sorted)
    | inr (v, e) ↦ inl (rw e refl, λ n. ground arith)
  ]

  -- `remove` returns what the pointer resolved to; afterwards that pointer resolves to nothing, every
  -- other one as before, and the keys stay in order.
  pub remove_cptr_lem :
      (p : CapabilityPtr)
      → ((remove_cptr s p).1 ≡ resolve s p)
        × ((q : CapabilityPtr)
            → resolve (remove_cptr s p).0 q ≡ (if p == q then none else resolve s q))
        × IsSorted (remove_cptr s p).0
  unfolding remove_cptr resolve
  remove_cptr_lem p = (refl, λ q. get-remove q p s sorted, remove-IsSorted p s sorted)

next_cptr-wraps :
    {C : Type 0} (s : CapabilitySpace C) → max_key s ≡ some (2 ^ 64 - 1) → next_cptr s ≡ 0
unfolding next_cptr
next_cptr-wraps s top = rw (top, next_cptr) refl

-- With the last pointer of the word in use the next pointer wraps to 0: `mint` panics if 0 is in use,
-- and `mint_with` replaces the capability that 0 resolved to.
pub mint_wraps :
    {C : Type 0} (s : CapabilitySpace C) (c old : C)
    → max_key s ≡ some (2 ^ 64 - 1)
    → resolve s 0 ≡ some old
    → (mint s c ≡ none) × (resolve (mint_with s (λ _. c)).0 0 ≡ some c)
unfolding mint mint_with resolve
mint_wraps s c old top used =
    let zero_next = next_cptr-wraps s top in
    (rw (zero_next, used) refl, rw zero_next (get-insert 0 0 c s))

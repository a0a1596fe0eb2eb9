-- ===== src/Capability/Rights.antt =====
-- Rights as sets of bits (src/shared/librust/src/capabilities.rs).
use vanadinite.Prelude.{ℕ, ◌<◌, ◌≡◌, refl, Bool, true, false, ◌&&◌, leb, arith}
use vanadinite.Prelude.Bits.{bit, every_below, every_below_at, bit_and_fifteen}
use vanadinite.Capability.{is_superset, contains_rights, rights_new}

-- Each of the four rights that is in the second set is in the first.
abbrev pub includes : ℕ → ℕ → Bool
includes a b =
    leb (bit 0 b) (bit 0 a)
    && leb (bit 1 b) (bit 1 a)
    && leb (bit 2 b) (bit 2 a)
    && leb (bit 3 b) (bit 3 a)

same : Bool → Bool → Bool
same true b = b
same false true = false
same false false = true

same→≡ : (a b : Bool) → same a b ≡ true → a ≡ b
unfolding same
same→≡ a b h = ground arith

agree : ℕ → ℕ → Bool
agree a b = same (is_superset a b) (includes a b) && same (contains_rights a b) (includes a b)

agree_table : every_below 16 (λ a. every_below 16 (λ b. agree a b)) ≡ true
unfolding every_below agree same is_superset contains_rights
agree_table = refl

rights_new-lt : (a : ℕ) → rights_new a < 16
unfolding rights_new
rights_new-lt a = omega (arith, bit_and_fifteen a)

and_parts : (a b : Bool) → (a && b) ≡ true → (a ≡ true) × (b ≡ true)
and_parts a b h = ground arith

-- For rights made by `CapabilityRights::new`, `is_superset` and `&` both decide the inclusion of the
-- four rights.
pub rights_lem :
    (a b : ℕ)
    → (is_superset (rights_new a) (rights_new b) ≡ includes (rights_new a) (rights_new b))
      × (contains_rights (rights_new a) (rights_new b) ≡ includes (rights_new a) (rights_new b))
unfolding agree
rights_lem a b =
    let at : agree (rights_new a) (rights_new b) ≡ true =
      every_below_at 16 (rights_new b) _ (rights_new-lt b)
        (every_below_at 16 (rights_new a) _ (rights_new-lt a) agree_table) in
    (same→≡ _ _ (and_parts _ _ at).0, same→≡ _ _ (and_parts _ _ at).1)

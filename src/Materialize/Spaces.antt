-- ===== src/Materialize/Spaces.antt =====
-- Reserving space in the message buffer (`Serializer` of
-- src/userspace/libs/materialize/src/serialize.rs).
use native.Mathlib.Nat.{mod-lt, mod-add-div, mul-mod_right}
use vanadinite.Prelude.{
  ℕ, ◌+◌, ◌-◌, ◌*◌, ◌/◌, ◌%◌, ◌^◌, ◌≤◌, ◌<◌, ◌≡◌, inl, inr, refl, sym, ap, ◌∙◌, true, false,
  Bool-cases, ◌==◌, if◌then◌else◌, ltb, arith, ltb→lt,
}
use vanadinite.Materialize.{
  AlignedHeapBuffer, Outcome, ok, allocation_error, resize, align_to, reserve_space, ◌>>=◌, Layout,
  ReservationToken,
}
use vanadinite.Materialize.Buffers.{IsBuffer, Resized, failed, resized, resize-Resized}

pub next_multiple : (n a : ℕ) → 0 < a → (n + (a - n % a)) % a ≡ 0
next_multiple n a some_align =
    let below : n % a < a = mod-lt n some_align in
    let whole : a * (n / a + 1) ≡ a * (n / a) + a = grind arith in
    let up : n + (a - n % a) ≡ a * (n / a + 1) = omega (arith, mod-add-div n a, whole, below) in
    ap (λ (m : ℕ). m % a) up ∙ mul-mod_right a (n / a + 1)

-- The bytes of before, and zeros behind them.
pub record Extends (self self' : AlignedHeapBuffer) : Type 0 where
  pub valid : IsBuffer self'
  pub longer : self.len ≤ self'.len
  pub kept : (i : ℕ) → i < self.len → self'.bytes i ≡ self.bytes i
  pub zeros : (i : ℕ) → self.len ≤ i → i < self'.len → self'.bytes i ≡ 0

data Aligned (self : AlignedHeapBuffer) (alignment : ℕ) : Outcome AlignedHeapBuffer → Type 0 where
  refused : Aligned self alignment allocation_error
  aligned :
      (self' : AlignedHeapBuffer)
      → Extends self self'
      → self'.len % alignment ≡ 0
      → self'.len ≤ self.len + alignment
      → Aligned self alignment (ok self')

extended :
    (self self' : AlignedHeapBuffer)
    → IsBuffer self'
    → self.len ≤ self'.len
    → ((i : ℕ) → i < self'.len → self'.bytes i ≡ (if ltb i self.len then self.bytes i else 0))
    → Extends self self'
extended self self' valid longer bytes = record {
  valid = valid;
  longer = longer;
  kept =
      λ i h. let old : ltb i self.len ≡ true = ground arith in bytes i (omega arith) ∙ rw old refl;
  zeros = λ i h k. let new : ltb i self.len ≡ false = ground arith in bytes i k ∙ rw new refl;
}

align_to-Aligned :
    (self : AlignedHeapBuffer) (alignment : ℕ)
    → IsBuffer self
    → 0 < alignment
    → self.len + alignment ≤ 2 ^ 62
    → Aligned self alignment (align_to alignment self)
unfolding align_to
align_to-Aligned self alignment valid some_align small =
    elim (Bool-cases (self.len % alignment == 0)) [
      | inl at ↦ rw at (aligned self there (ground arith) (omega arith))
      | inr off ↦ rw off (
          by_resized (
            resize-Resized self (self.len + (alignment - self.len % alignment)) 0 valid
              (omega arith)))
    ]
  where
    there : Extends self self
    there = record {
      valid = valid;
      longer = omega arith;
      kept = λ i h. refl;
      zeros = λ i h k. absurd (omega arith);
    }

    by_resized :
        {r : Outcome AlignedHeapBuffer}
        → Resized self (self.len + (alignment - self.len % alignment)) 0 r
        → Aligned self alignment r
    by_resized failed = refused
    by_resized (resized self' v e bytes) =
        aligned self' (extended self self' v (omega arith) (λ i h. bytes i (omega arith)))
          (ap (λ (n : ℕ). n % alignment) e ∙ next_multiple self.len alignment some_align)
          (omega arith)

-- What `reserve_space` gives.
pub data Reserved (self : AlignedHeapBuffer) (layout : Layout)
    : Outcome (AlignedHeapBuffer × ReservationToken) → Type 0 where
  unreserved : Reserved self layout allocation_error
  reserved :
      (self' : AlignedHeapBuffer) (token : ReservationToken)
      → Extends self self'
      → token.length ≡ layout.size
      → token.position % layout.align ≡ 0
      → self.len ≤ token.position
      → token.position + token.length ≡ self'.len
      → Reserved self layout (ok (self', token))

-- For a nonzero alignment, while the message stays within 2 ^ 62 bytes, `reserve_space` fails for
-- want of memory, or gives a token of the size asked for at an aligned position, behind all that
-- was reserved before and up to the end of the message. The bytes of before stay, and all others
-- are zero.
pub reserve_space-Reserved :
    (self : AlignedHeapBuffer) (layout : Layout)
    → IsBuffer self
    → 0 < layout.align
    → self.len + layout.align + layout.size ≤ 2 ^ 62
    → Reserved self layout (reserve_space layout self)
unfolding reserve_space
reserve_space-Reserved self layout valid some_align small =
    by_aligned (align_to-Aligned self layout.align valid some_align (omega arith))
  where
    space : AlignedHeapBuffer → Outcome (AlignedHeapBuffer × ReservationToken)
    space a = resize (a.len + layout.size) 0 a >>= λ grown.
        ok (grown, record { position = a.len; length = layout.size })

    both : (a b : AlignedHeapBuffer) → Extends self a → Extends a b → Extends self b
    both a b x y = record {
      valid = y.valid;
      longer = omega (arith, x.longer, y.longer);
      kept = λ i h. y.kept i (omega (arith, x.longer)) ∙ x.kept i h;
      zeros = λ i h k. elim (Bool-cases (ltb i a.len)) [
        | inl old ↦ y.kept i (ltb→lt _ _ old) ∙ x.zeros i h (ltb→lt _ _ old)
        | inr new ↦ y.zeros i (ground arith) k
      ];
    }

    by_resized :
        (a : AlignedHeapBuffer)
        → Extends self a
        → a.len % layout.align ≡ 0
        → {r : Outcome AlignedHeapBuffer} → Resized a (a.len + layout.size) 0 r
        → Reserved self layout
            (r >>= λ grown. ok (grown, record { position = a.len; length = layout.size }))
    by_resized a x at failed = unreserved
    by_resized a x at (resized b v e bytes) =
        reserved b (record { position = a.len; length = layout.size })
          (both a b x (extended a b v (omega arith) (λ i h. bytes i (omega arith)))) refl at
          x.longer (sym e)

    by_aligned :
        {r : Outcome AlignedHeapBuffer}
        → Aligned self layout.align r
        → Reserved self layout (r >>= space)
    by_aligned refused = unreserved
    by_aligned (aligned a x at near) =
        by_resized a x at (resize-Resized a (a.len + layout.size) 0 x.valid (omega arith))

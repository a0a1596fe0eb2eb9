-- ===== src/Materialize/Tokens.antt =====
-- Splitting reserved space (`ReservationToken` of
-- src/userspace/libs/materialize/src/serialize.rs).
use native.Mathlib.Nat.{mod-eq_of_lt, add-mod_right}
use vanadinite.Prelude.{
  ℕ, ap, sym, ◌∙◌, ◌+◌, ◌-◌, ◌%◌, ◌^◌, ◌≤◌, ◌<◌, ◌≡◌, inl, inr, refl, true, false, Bool-cases, ◌==◌,
  if◌then◌else◌, ltb, arith,
}
use vanadinite.Materialize.Spaces.{next_multiple}
use vanadinite.Materialize.{ok, Layout, ReservationToken, align, split}

-- A token that is aligned is split with no test of its length: for a layout larger than the token,
-- of a size of at most 2 ^ 64, the first part reaches past the end of the reserved space, and the
-- length of the second wraps.
pub split-past_end :
    (layout : Layout) (self : ReservationToken)
    → self.position % layout.align ≡ 0
    → self.length < layout.size
    → layout.size ≤ 2 ^ 64
    → (first : ReservationToken) × (second : ReservationToken) × (split layout self
        ≡ ok (first, second))
      × (self.position + self.length < first.position + first.length)
      × (second.length ≡ self.length + 2 ^ 64 - layout.size)
unfolding split align
split-past_end layout self at short word =
    let aligned : (self.position % layout.align == 0) ≡ true = ground arith in
    (
      record { position = self.position; length = layout.size },
      record {
        position = self.position + layout.size;
        length = (self.length + 2 ^ 64 - layout.size) % 2 ^ 64;
      },
      rw (split, align, aligned) refl,
      omega arith,
      mod-eq_of_lt (omega arith),
    )

-- The bytes up to the next aligned position.
abbrev pub padding : ℕ → ℕ → ℕ
padding alignment position =
    if position % alignment == 0 then 0 else alignment - position % alignment

wrapped_difference : (a b : ℕ) → b ≤ a → a < 2 ^ 64 → (a + 2 ^ 64 - b) % 2 ^ 64 ≡ a - b
wrapped_difference a b le word =
    let split : a + 2 ^ 64 - b ≡ a - b + 2 ^ 64 = omega arith in
    ap (λ (n : ℕ). n % 2 ^ 64) split ∙ add-mod_right (a - b) (2 ^ 64) ∙ mod-eq_of_lt (omega arith)

-- Two parts that lie next to one another in the space of a token.
pub record Splits (layout : Layout) (self first second : ReservationToken) : Type 0 where
  pub aligned : first.position % layout.align ≡ 0
  pub behind : self.position ≤ first.position
  pub fits : first.length ≡ layout.size
  pub next : second.position ≡ first.position + first.length
  pub ends : second.position + second.length ≡ self.position + self.length

-- A token whose length is a word, with room for the layout and the bytes that align it to a nonzero
-- alignment, is split into an aligned part of the size of the layout and the rest, which lie next
-- to one another and end where the token ends.
pub split-Splits :
    (layout : Layout) (self : ReservationToken)
    → 0 < layout.align
    → padding layout.align self.position + layout.size ≤ self.length
    → self.length < 2 ^ 64
    → (first : ReservationToken) × (second : ReservationToken) × (split layout self
        ≡ ok (first, second))
      × Splits layout self first second
unfolding split align
split-Splits layout self some_align room word =
    elim (Bool-cases (self.position % layout.align == 0)) [
      | inl at ↦
          let none_needed : padding layout.align self.position ≡ 0 = rw at refl in
          let fits : layout.size ≤ self.length = omega (arith, room, none_needed) in
          (
            record { position = self.position; length = layout.size },
            record {
              position = self.position + layout.size;
              length = (self.length + 2 ^ 64 - layout.size) % 2 ^ 64;
            },
            rw (split, align, at) refl,
            record {
              aligned = ground arith;
              behind = omega arith;
              fits = refl;
              next = refl;
              ends = omega (arith, wrapped_difference self.length layout.size fits word);
            },
          )
      | inr off ↦
          let needed : padding layout.align self.position
              ≡ layout.align - self.position % layout.align =
            rw off refl in
          padded off (layout.align - self.position % layout.align) refl
            (omega (arith, room, needed))
    ]
  where
    padded :
        (self.position % layout.align == 0) ≡ false
        → (p : ℕ) → layout.align - self.position % layout.align ≡ p
        → p + layout.size ≤ self.length
        → (first : ReservationToken) × (second : ReservationToken) × (split layout self
            ≡ ok (first, second))
          × Splits layout self first second
    padded off p e enough =
        let left = wrapped_difference self.length p (omega arith) word in
        let rest = wrapped_difference (self.length - p) layout.size (omega arith) (omega arith) in
        let large : ltb (self.length - p) layout.size ≡ false = ground arith in
        (
          record { position = self.position + p; length = layout.size },
          record {
            position = self.position + p + layout.size;
            length = (self.length - p + 2 ^ 64 - layout.size) % 2 ^ 64;
          },
          rw (split, align, off, e, left, large) refl,
          record {
            aligned =
                ap (λ (n : ℕ). (self.position + n) % layout.align) (sym e)
                ∙ next_multiple self.position layout.align some_align;
            behind = omega arith;
            fits = refl;
            next = refl;
            ends = omega (arith, rest);
          },
        )

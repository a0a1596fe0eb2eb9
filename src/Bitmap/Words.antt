-- ===== src/Bitmap/Words.antt =====
-- Setting, clearing and finding bits of an entry of the bitmap.
use Prim.Native.Nat.{bit_or, bit_and}
use native.Mathlib.Nat.{pow-le-pow_right, pow-suc}
use vanadinite.Prelude.{
  ℕ, zero, suc, ◌-◌, ◌/◌, ◌%◌, ◌^◌, ◌<◌, ◌≤◌, ◌≡◌, ◌≢◌, refl, sym, ◌∙◌, ◌==◌, if◌then◌else◌, arith,
  inl, inr, Bool-cases,
}
use vanadinite.Prelude.Bits.{
  bit, bit-lt-two, bit-bit_or, bit-bit_and, bit-pow, bit-complement, bits_ext, bit_or-lt,
  bit_and-le,
}
use vanadinite.Bitmap.{max_word, trailing_ones}

-- `entry |= 1 << b`
pub bit-set_bit : (i b e : ℕ) → bit i (bit_or e (2 ^ b)) ≡ (if i == b then 1 else bit i e)
bit-set_bit i b e = bit-bit_or i e (2 ^ b) ∙ ground (arith, bit-pow i b, bit-lt-two i e)

pub pow-lt : (b : ℕ) → b < 64 → 2 ^ b < 2 ^ 64
pow-lt b h =
    let positive : 0 < 2 = omega arith in
    let low : b ≤ 63 = omega arith in
    let le : 2 ^ b ≤ 2 ^ 63 = pow-le-pow_right positive low in omega (arith, le)

-- `entry &= !(1 << b)`
pub bit-clear_bit :
    (i b e : ℕ)
    → i < 64
    → b < 64
    → bit i (bit_and e (max_word - 2 ^ b)) ≡ (if i == b then 0 else bit i e)
bit-clear_bit i b e hi hb =
    bit-bit_and i e (max_word - 2 ^ b)
    ∙ ground (arith, bit-complement 64 i (2 ^ b) (pow-lt b hb) hi, bit-pow i b, bit-lt-two i e)

-- The bit after the trailing ones is clear, if the word has a clear bit.
pub trailing_ones_lem :
    (k e : ℕ)
    → e < 2 ^ k
    → e ≢ 2 ^ k - 1
    → (trailing_ones k e < k) × (bit (trailing_ones k e) e ≡ 0)
unfolding trailing_ones
trailing_ones_lem zero e h n = absurd (n (omega arith))
trailing_ones_lem (suc k) e h n = elim (Bool-cases (e % 2 == 1)) [
  | inl odd ↦
      let rest =
        trailing_ones_lem k (e / 2) (omega (arith, pow-suc 2 k))
          (λ full. n (ground (arith, pow-suc 2 k))) in
      rw odd (omega (arith, rest.0), rest.1)
  | inr even ↦ rw even (omega arith, ground arith)
]

-- Clearing a bit that is set after it was clear gives the entry back.
pub clear-set :
    (b e : ℕ)
    → e < 2 ^ 64
    → b < 64
    → bit b e ≡ 0
    → bit_and (bit_or e (2 ^ b)) (max_word - 2 ^ b) ≡ e
clear-set b e h hb clear =
    bits_ext 64 (bit_and (bit_or e (2 ^ b)) (max_word - 2 ^ b)) e
      (bit_and-le 64 (bit_or e (2 ^ b)) (max_word - 2 ^ b) (bit_or-lt 64 e (2 ^ b) h (pow-lt b hb)))
      h λ i lt. bit-clear_bit i b (bit_or e (2 ^ b)) lt hb ∙ same i
  where
    same : (i : ℕ) → (if i == b then 0 else bit i (bit_or e (2 ^ b))) ≡ bit i e
    same i = elim (Bool-cases (i == b)) [
      | inl here ↦ let at : i ≡ b = ground arith in rw here (sym (rw at clear))
      | inr away ↦ rw away (bit-set_bit i b e ∙ rw away refl)
    ]

-- ===== src/Prelude/Bits.antt =====
-- Bits of machine words: the laws of the native `bit_and` and `bit_or`, digit by digit.
use Prim.Native.Nat.{
  ℕ, zero, suc, ◌+◌, ◌-◌, ◌*◌, ◌^◌, ◌/◌, ◌%◌, ◌≤◌, ◌<◌, min, max, bit_and, bit_or, digits,
  bit_and-bitwise, bit_or-bitwise,
}
use mathlib.Core.Path.{◌≡◌, refl, sym, ◌∙◌, ap}
use native.Mathlib.Nat.{pow-suc, div-div-eq-div-mul}
use mathlib.Core.Bool.{Bool, true, ◌&&◌}
use native.Mathlib.Omega.{arith}
use vanadinite.Prelude.Tests.{◌==◌, if◌then◌else◌}

-- The native operations are recursions on binary digits with a number of rounds to spare: a round
-- beyond the first operand changes nothing, and the law for the lowest digit follows.
module _ (rest : ℕ → ℕ) (join : ℕ → ℕ → ℕ) where
  spare_round : (n a b : ℕ) → a ≤ n → digits rest join (suc n) a b ≡ digits rest join n a b
  spare_round zero a b h = let none_left : a ≡ 0 = omega arith in rw none_left refl
  spare_round (suc n) zero b h = refl
  spare_round (suc n) (suc a) b h = rw (spare_round n (suc a / 2) (b / 2) (omega arith)) refl

  spare_rounds : (k n a b : ℕ) → a ≤ n → digits rest join (k + n) a b ≡ digits rest join n a b
  spare_rounds zero n a b h = let none_more : 0 + n ≡ n = omega arith in rw none_more refl
  spare_rounds (suc k) n a b h =
      let one_more : suc k + n ≡ suc (k + n) = omega arith in
      rw one_more (spare_round (k + n) a b (omega arith) ∙ spare_rounds k n a b h)

  lowest_digit :
      (a b : ℕ)
      → digits rest join (suc a) (suc a) b
        ≡ digits rest join (suc a / 2) (suc a / 2) (b / 2) * 2 + join (suc a % 2) (b % 2)
  lowest_digit a b =
      let spare : a ≡ a - suc a / 2 + suc a / 2 = omega arith in
      let fewer =
        ap (λ (n : ℕ). digits rest join n (suc a / 2) (b / 2)) spare
        ∙ spare_rounds (a - suc a / 2) (suc a / 2) (suc a / 2) (b / 2) (omega arith) in
      ap (λ (d : ℕ). d * 2 + join (suc a % 2) (b % 2)) fewer

pub bit_or_step : (a b : ℕ) → bit_or a b ≡ max (a % 2) (b % 2) + 2 * bit_or (a / 2) (b / 2)
bit_or_step zero b = omega (arith, bit_or-bitwise 0 (b / 2), bit_or-bitwise 0 b)
bit_or_step (suc a) b =
    let high = bit_or-bitwise (suc a / 2) (b / 2) in
    omega (arith, lowest_digit (λ d. d) max a b, high, bit_or-bitwise (suc a) b)

pub bit_and_step : (a b : ℕ) → bit_and a b ≡ min (a % 2) (b % 2) + 2 * bit_and (a / 2) (b / 2)
bit_and_step zero b = omega (arith, bit_and-bitwise 0 (b / 2), bit_and-bitwise 0 b)
bit_and_step (suc a) b =
    let high = bit_and-bitwise (suc a / 2) (b / 2) in
    omega (arith, lowest_digit (λ _. 0) min a b, high, bit_and-bitwise (suc a) b)

-- Below a bound that is halved in each round, joining with 0 gives a number back, and meeting 0 gives 0.
zero_bounded : (n a : ℕ) → a ≤ n → (bit_or a 0 ≡ a) × (bit_and a 0 ≡ 0)
zero_bounded zero a h =
    let none_left : a ≡ 0 = omega arith in rw none_left (bit_or-bitwise 0 0, bit_and-bitwise 0 0)
zero_bounded (suc n) a h =
    let (joined, met) = zero_bounded n (a / 2) (omega arith) in
    (omega (arith, bit_or_step a 0, joined), omega (arith, bit_and_step a 0, met))

pub bit_or-zero : (a : ℕ) → bit_or a 0 ≡ a
bit_or-zero a = (zero_bounded a a (omega arith)).0

pub bit_and-zero : (a : ℕ) → bit_and a 0 ≡ 0
bit_and-zero a = (zero_bounded a a (omega arith)).1

-- Bit `i` of a word, 0 or 1.
abbrev pub bit : ℕ → ℕ → ℕ
bit zero x = x % 2
bit (suc i) x = bit i (x / 2)

pub bit-lt-two : (i x : ℕ) → bit i x < 2
bit-lt-two zero x = omega arith
bit-lt-two (suc i) x = bit-lt-two i (x / 2)

pub bit-bit_or : (i a b : ℕ) → bit i (bit_or a b) ≡ max (bit i a) (bit i b)
bit-bit_or zero a b = omega (arith, bit_or_step a b)
bit-bit_or (suc i) a b =
    let half : bit_or a b / 2 ≡ bit_or (a / 2) (b / 2) = omega (arith, bit_or_step a b) in
    (λ j. bit i (half j)) ∙ bit-bit_or i (a / 2) (b / 2)

pub bit-bit_and : (i a b : ℕ) → bit i (bit_and a b) ≡ min (bit i a) (bit i b)
bit-bit_and zero a b = omega (arith, bit_and_step a b)
bit-bit_and (suc i) a b =
    let half : bit_and a b / 2 ≡ bit_and (a / 2) (b / 2) = omega (arith, bit_and_step a b) in
    (λ j. bit i (half j)) ∙ bit-bit_and i (a / 2) (b / 2)

pub bit-zero : (i : ℕ) → bit i 0 ≡ 0
bit-zero zero = refl
bit-zero (suc i) = bit-zero i

pub bit_and_fifteen : (a : ℕ) → bit_and a 15 ≡ a % 16
bit_and_fifteen a = omega (
  arith,
  bit_and_step a 15,
  bit_and_step (a / 2) 7,
  bit_and_step (a / 2 / 2) 3,
  bit_and_step (a / 2 / 2 / 2) 1,
  bit_and-zero (a / 2 / 2 / 2 / 2),
)

-- A test that holds at every number below a bound, decided by running it.
unfoldable pub every_below : ℕ → (ℕ → Bool) → Bool
every_below zero test = true
every_below (suc bound) test = every_below bound test && test bound

pub every_below_at :
    (bound x : ℕ) (test : ℕ → Bool) → x < bound → every_below bound test ≡ true → test x ≡ true
unfolding every_below
every_below_at zero x test small all = absurd (omega arith)
every_below_at (suc bound) x test small all = ground (arith, every_below_at bound x test)

pub zero-bit_or : (b : ℕ) → bit_or 0 b ≡ b
zero-bit_or b = bit_or-bitwise 0 b

double-pow : (k b : ℕ) → (b * 2 ^ suc k) ≡ b * 2 ^ k * 2
double-pow k b = omega (arith, pow-suc 2 k, ap (λ (t : ℕ). b * t) (pow-suc 2 k))

-- Words that share no bit are added.
pub bit_or_disjoint : (k a b : ℕ) → a < 2 ^ k → bit_or a (b * 2 ^ k) ≡ a + b * 2 ^ k
bit_or_disjoint zero a b h =
    let e : a ≡ 0 = omega arith in rw e (omega (arith, zero-bit_or (b * 2 ^ 0)))
bit_or_disjoint (suc k) a b h =
    let half : b * 2 ^ suc k / 2 ≡ b * 2 ^ k = omega (arith, double-pow k b) in
    let step : bit_or (a / 2) (b * 2 ^ suc k / 2) ≡ a / 2 + b * 2 ^ k =
      rw half (bit_or_disjoint k (a / 2) b (omega (arith, pow-suc 2 k))) in
    omega (arith, bit_or_step a (b * 2 ^ suc k), step, double-pow k b)

or_comm_fuel : (n a b : ℕ) → a ≤ n → bit_or a b ≡ bit_or b a
or_comm_fuel n zero b h = zero-bit_or b ∙ sym (bit_or-zero b)
or_comm_fuel zero (suc a) b h = absurd (omega arith)
or_comm_fuel (suc n) (suc a) b h = omega (
  arith,
  bit_or_step (suc a) b,
  bit_or_step b (suc a),
  or_comm_fuel n (suc a / 2) (b / 2) (omega arith),
)

pub bit_or_comm : (a b : ℕ) → bit_or a b ≡ bit_or b a
bit_or_comm a b = or_comm_fuel a a b (omega arith)

pub bit-pow : (i b : ℕ) → bit i (2 ^ b) ≡ (if i == b then 1 else 0)
bit-pow zero zero = refl
bit-pow zero (suc b) = ground (arith, pow-suc 2 b)
bit-pow (suc i) zero = ground (arith, bit-zero i)
bit-pow (suc i) (suc b) =
    let half : 2 ^ suc b / 2 ≡ 2 ^ b = omega (arith, pow-suc 2 b) in
    (λ j. bit i (half j)) ∙ bit-pow i b ∙ ground arith

pub bit-complement : (k i x : ℕ) → x < 2 ^ k → i < k → bit i (2 ^ k - 1 - x) ≡ 1 - bit i x
bit-complement zero i x h lt = absurd (omega arith)
bit-complement (suc k) zero x h lt = omega (arith, pow-suc 2 k)
bit-complement (suc k) (suc i) x h lt =
    let half : (2 ^ suc k - 1 - x) / 2 ≡ 2 ^ k - 1 - x / 2 = omega (arith, pow-suc 2 k) in
    (λ j. bit i (half j)) ∙ bit-complement k i (x / 2) (omega (arith, pow-suc 2 k)) (omega arith)

-- Words with the same bits are equal.
pub bits_ext : (k a b : ℕ) → a < 2 ^ k → b < 2 ^ k → ((i : ℕ) → i < k → bit i a ≡ bit i b) → a ≡ b
bits_ext zero a b ha hb same = omega arith
bits_ext (suc k) a b ha hb same =
    let high =
      bits_ext k (a / 2) (b / 2) (omega (arith, pow-suc 2 k)) (omega (arith, pow-suc 2 k))
        (λ i lt. same (suc i) (omega arith)) in
    omega (arith, high, same 0 (omega arith))

-- The source's way to read a bit.
pub bit_shift : (i x : ℕ) → bit i x ≡ x / 2 ^ i % 2
bit_shift zero x = omega arith
bit_shift (suc i) x =
    let power : 2 ^ suc i ≡ 2 * 2 ^ i = omega (arith, pow-suc 2 i) in
    bit_shift i (x / 2)
    ∙ ap (λ (t : ℕ). t % 2) (div-div-eq-div-mul x 2 (2 ^ i) ∙ ap (λ (t : ℕ). x / t) (sym power))

pub bit_or-lt : (k a b : ℕ) → a < 2 ^ k → b < 2 ^ k → bit_or a b < 2 ^ k
bit_or-lt zero a b ha hb = let za : a ≡ 0 = omega arith in rw za (omega (arith, zero-bit_or b))
bit_or-lt (suc k) a b ha hb = omega (
  arith,
  pow-suc 2 k,
  bit_or_step a b,
  bit_or-lt k (a / 2) (b / 2) (omega (arith, pow-suc 2 k)) (omega (arith, pow-suc 2 k)),
)

pub bit_and-le : (k a b : ℕ) → a < 2 ^ k → bit_and a b < 2 ^ k
bit_and-le zero a b ha = let za : a ≡ 0 = omega arith in rw za (omega (arith, bit_and-bitwise 0 b))
bit_and-le (suc k) a b ha = omega (
  arith,
  pow-suc 2 k,
  bit_and_step a b,
  bit_and-le k (a / 2) (b / 2) (omega (arith, pow-suc 2 k)),
)

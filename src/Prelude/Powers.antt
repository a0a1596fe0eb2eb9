-- ===== src/Prelude/Powers.antt =====
-- `usize::next_power_of_two` of the standard library of Rust, 0 where the power is no word, as in a
-- release build.
use Prim.Native.Nat.{ℕ, zero, suc, ◌+◌, ◌*◌, ◌^◌, ◌≤◌, ◌<◌}
use mathlib.Core.Path.{◌≡◌, refl, ap}
use mathlib.Core.Logic.{inl, inr}
use mathlib.Core.Bool.{true, false}
use native.Mathlib.Nat.{pow-suc}
use native.Mathlib.Omega.{arith}
use vanadinite.Prelude.Tests.{ltb, ltb→lt, Bool-cases}

unfoldable pub power_from : ℕ → ℕ → ℕ → ℕ
power_from zero p n = 0
power_from (suc rounds) p n = elim (ltb p n) [ true ↦ power_from rounds (2 * p) n | false ↦ p ]

unfoldable pub next_power_of_two : ℕ → ℕ
unfolding power_from
next_power_of_two n = power_from 64 1 n

-- A power of two from `n` on, with an exponent of at most `most`.
pub record Rounded (most n p : ℕ) : Type 0 where
  pub exponent : ℕ
  pub bounded : exponent ≤ most
  pub power : p ≡ 2 ^ exponent
  pub above : n ≤ p

in_range : (most j n : ℕ) → j ≤ most → n ≤ 2 ^ most → 2 ^ j < n → suc j ≤ most
in_range most j n bound small below = elim (Bool-cases (ltb j most)) [
  | inl less ↦ ground arith
  | inr full ↦
      let last : j ≡ most = ground arith in
      let top : 2 ^ j ≡ 2 ^ most = ap (λ (n : ℕ). 2 ^ n) last in absurd (omega arith)
]

power_from-Rounded :
    (most rounds j n : ℕ)
    → n ≤ 2 ^ most
    → j ≤ most
    → most < j + rounds
    → Rounded most n (power_from rounds (2 ^ j) n)
unfolding power_from
power_from-Rounded most zero j n small bound enough = absurd (omega arith)
power_from-Rounded most (suc rounds) j n small bound enough = elim (Bool-cases (ltb (2 ^ j) n)) [
  | inl below ↦
      let double : 2 * 2 ^ j ≡ 2 ^ suc j = omega (arith, pow-suc 2 j) in
      rw (below, power_from, double)
        (power_from-Rounded most rounds (suc j) n small
          (in_range most j n bound small (ltb→lt _ _ below)) (omega arith))
  | inr done ↦
      rw (done, power_from)
        (record { exponent = j; bounded = bound; power = refl; above = ground arith })
]

pub next_power_of_two-Rounded :
    (most n : ℕ) → most < 64 → n ≤ 2 ^ most → Rounded most n (next_power_of_two n)
unfolding next_power_of_two
next_power_of_two-Rounded most n word small =
    power_from-Rounded most 64 0 n small (omega arith) (omega arith)

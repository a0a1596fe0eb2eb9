-- ===== src/Collections/HashMap/Indices.antt =====
-- The indices that the hash map probes (src/shared/collections/src/hash_map/mod.rs): the rounded
-- capacity, and that the probes reach every index below it.
use native.Mathlib.Nat.{
  pow-suc, mod-mod_of_dvd, add-mul-mod_self_left, mod-eq_of_lt, mod-lt, mod-add-div, mul-le-mul,
  pow-le-pow_right,
}
use vanadinite.Prelude.Powers.{next_power_of_two, Rounded, next_power_of_two-Rounded}
use vanadinite.Prelude.{
  ℕ, zero, suc, ◌+◌, ◌-◌, ◌*◌, ◌/◌, ◌%◌, ◌^◌, ◌≤◌, ◌<◌, ◌≡◌, inl, inr, sym, ap, ◌∙◌, Bool-cases,
  leb, arith, leb→le,
}
use vanadinite.Collections.HashMap.Slots.{h}
use vanadinite.Collections.HashMap.Triangles.{Late, reached-Late}

pub next_power_of_two_lem : (n : ℕ) → n ≤ 2 ^ 31 → Rounded 31 n (next_power_of_two n)
next_power_of_two_lem n small = next_power_of_two-Rounded 31 n (omega arith) small

power_split : (d k : ℕ) → 2 ^ (d + k) ≡ 2 ^ k * 2 ^ d
power_split zero k = let same : 0 + k ≡ k = omega arith in rw same (omega arith)
power_split (suc d) k =
    let same : suc d + k ≡ suc (d + k) = omega arith in
    let wide : 2 ^ k * 2 ^ suc d ≡ 2 * (2 ^ k * 2 ^ d) = rw (pow-suc 2 d) (grind arith) in
    rw same (omega (arith, pow-suc 2 (d + k), power_split d k, wide))

wrapped : (x k : ℕ) → k ≤ 64 → x % 2 ^ 64 % 2 ^ k ≡ x % 2 ^ k
wrapped x k small =
    let whole : 64 - k + k ≡ 64 = omega arith in
    let split : 2 ^ 64 ≡ 2 ^ k * 2 ^ (64 - k) =
      ap (λ (n : ℕ). 2 ^ n) (sym whole) ∙ power_split (64 - k) k in
    mod-mod_of_dvd (2 ^ k) x ∣ (2 ^ (64 - k), split) ∣₁

pub power_bound : (k : ℕ) → k ≤ 31 → 2 ^ k ≤ 2 ^ 31
power_bound k small = pow-le-pow_right (omega arith) small

-- A square of an attempt is a word.
square_bound : (b : ℕ) → b < 2 ^ 32 → b * b + b < 2 ^ 64
square_bound b small =
    let product : b * (b + 1) ≤ (2 ^ 32 - 1) * 2 ^ 32 =
      mul-le-mul {n₂ = 2 ^ 32 - 1} {m₂ = 2 ^ 32} (omega arith) (omega arith) in
    let out : b * (b + 1) ≡ b * b + b = grind arith in omega (arith, product, out)

-- What has to be added to the hash.
missing : (hash k q : ℕ) → q < 2 ^ k → (t : ℕ) × (c : ℕ) × (t < 2 ^ k) × (hash + t ≡ q + 2 ^ k * c)
missing hash k q small =
    let below : hash % 2 ^ k < 2 ^ k = mod-lt hash (omega arith) in
    elim (Bool-cases (leb (hash % 2 ^ k) q)) [
      | inl le ↦ (
        q - hash % 2 ^ k,
        hash / 2 ^ k,
        omega arith,
        omega (arith, leb→le _ _ le, mod-add-div hash (2 ^ k)),
      )
      | inr gt ↦
          let less : q < hash % 2 ^ k = ground arith in
          let more : 2 ^ k * (hash / 2 ^ k + 1) ≡ 2 ^ k * (hash / 2 ^ k) + 2 ^ k = grind arith in
          (
            q + 2 ^ k - hash % 2 ^ k,
            hash / 2 ^ k + 1,
            omega arith,
            omega (arith, more, mod-add-div hash (2 ^ k)),
          )
    ]

-- Some attempt probes the index `q`.
pub record Hits (hash capacity p q : ℕ) : Type 0 where
  pub attempt : ℕ
  pub positive : 0 < attempt
  pub small : attempt < 2 * p
  pub index : h hash attempt capacity ≡ q

pub h-Hits :
    (hash capacity k q : ℕ)
    → k ≤ 31
    → next_power_of_two capacity ≡ 2 ^ k
    → q < 2 ^ k
    → Hits hash capacity (2 ^ k) q
unfolding h
h-Hits hash capacity k q bound power small = by_missing (missing hash k q small)
  where
    at : (t c : ℕ) → hash + t ≡ q + 2 ^ k * c → Late k t → Hits hash capacity (2 ^ k) q
    at t c e r = record {
      attempt = r.index;
      positive = r.positive;
      small = r.small;
      index =
          let b = r.index in
          let word : b * b + b < 2 ^ 64 =
            square_bound b (omega (arith, r.small, power_bound k bound)) in
          let square : b * b % 2 ^ 64 ≡ b * b = mod-eq_of_lt (omega arith) in
          let sum : (b * b + b) % 2 ^ 64 ≡ b * b + b = mod-eq_of_lt word in
          let both : 2 ^ k * (c + r.rounds) ≡ 2 ^ k * c + 2 ^ k * r.rounds = grind arith in
          let total : hash + (b * b + b) / 2 ≡ q + 2 ^ k * (c + r.rounds) =
            omega (arith, r.meets, both, e) in
          rw
            (
              power,
              square,
              sum,
              wrapped (hash + (b * b + b) / 2) k (omega arith),
              total,
              add-mul-mod_self_left q (2 ^ k) (c + r.rounds),
            )
            (mod-eq_of_lt small);
    }

    by_missing :
        (t : ℕ) × (c : ℕ) × (t < 2 ^ k) × (hash + t ≡ q + 2 ^ k * c) → Hits hash capacity (2 ^ k) q
    by_missing (t, c, below, e) = at t c e (reached-Late k t below)

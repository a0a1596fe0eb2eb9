-- ===== src/Collections/HashMap/Triangles.antt =====
-- The arithmetic of the hash map's probe sequence (src/shared/collections/src/hash_map/mod.rs): the
-- triangular numbers reach every residue of a power of two.
use native.Mathlib.Nat.{pow-suc}
use vanadinite.Prelude.{
  ℕ, zero, suc, ◌+◌, ◌-◌, ◌*◌, ◌/◌, ◌^◌, ◌<◌, ◌≡◌, ◌⊎◌, inl, inr, refl, ap, ◌∙◌, Bool-cases, ltb,
  arith, ltb→lt,
}

tri : ℕ → ℕ
tri zero = 0
tri (suc n) = suc n + tri n

square-tri : (n : ℕ) → n * n + n ≡ 2 * tri n
unfolding tri
square-tri zero = refl
square-tri (suc n) = grind (arith, square-tri n)

square_split :
    (j n : ℕ) → j * j + j + (j + n + 1) * (2 * n + 1) ≡ n * n + n + (j + n + 1) * (j + n + 1)
square_split j n = grind arith

-- The numbers at `n` and at its mirror image.
mirror : (p j n : ℕ) → 2 * p ≡ j + n + 1 → tri j + p * (2 * n + 1) ≡ tri n + 2 * (p * p)
mirror p j n e =
    let left : 2 * (p * (2 * n + 1)) ≡ (j + n + 1) * (2 * n + 1) = rw (← e) (grind arith) in
    let right : 4 * (p * p) ≡ (j + n + 1) * (j + n + 1) = rw (← e) (grind arith) in
    omega (arith, square_split j n, square-tri j, square-tri n, left, right)

parity : (n : ℕ) → (m : ℕ) × ((n ≡ 2 * m) ⊎ (n ≡ 2 * m + 1))
parity n = (n / 2, ground arith)

-- Every number below `2 ^ k` is the residue of a triangular number with a smaller index.
record Reached (k t : ℕ) : Type 0 where
  index : ℕ
  rounds : ℕ
  small : index < 2 ^ k
  meets : tri index ≡ t + 2 ^ k * rounds

scaled : (p a b c d : ℕ) → a + b ≡ c + d → p * a + p * b ≡ p * c + p * d
scaled p a b c d e = let f = ap (λ (n : ℕ). p * n) e in grind (arith, f)

module _ (k t i m : ℕ) (small : i < 2 ^ k) where
  double : 2 ^ suc k ≡ 2 * 2 ^ k
  double = omega (arith, pow-suc 2 k)

  even : tri i ≡ t + 2 ^ k * (2 * m) → Reached (suc k) t
  even e = record {
    index = i;
    rounds = m;
    small = omega (arith, double);
    meets = e ∙ rw double (grind arith);
  }

  odd : tri i ≡ t + 2 ^ k * (2 * m + 1) → Reached (suc k) (t + 2 ^ k)
  odd e = record {
    index = i;
    rounds = m;
    small = omega (arith, double);
    meets = e ∙ rw double (grind arith);
  }

  reflected : tri (2 * 2 ^ k - 1 - i) + 2 ^ k * (2 * i + 1) ≡ tri i + 2 * (2 ^ k * 2 ^ k)
  reflected = mirror (2 ^ k) (2 * 2 ^ k - 1 - i) i (omega arith)

  mirror_even : tri i ≡ t + 2 ^ k * (2 * m) → Reached (suc k) (t + 2 ^ k)
  mirror_even e = record {
    index = 2 * 2 ^ k - 1 - i;
    rounds = m + 2 ^ k - i - 1;
    small = omega (arith, double);
    meets =
        let q = m + 2 ^ k - i - 1 in
        let shared = scaled (2 ^ k) q (i + 1) m (2 ^ k) (omega arith) in
        let goal : tri (2 * 2 ^ k - 1 - i) ≡ t + 2 ^ k + 2 * (2 ^ k * q) =
          grind (arith, reflected, shared, e) in
        goal ∙ rw double (grind arith);
  }

  mirror_odd : tri i ≡ t + 2 ^ k * (2 * m + 1) → Reached (suc k) t
  mirror_odd e = record {
    index = 2 * 2 ^ k - 1 - i;
    rounds = m + 2 ^ k - i;
    small = omega (arith, double);
    meets =
        let q = m + 2 ^ k - i in
        let shared = scaled (2 ^ k) q i m (2 ^ k) (omega arith) in
        let goal : tri (2 * 2 ^ k - 1 - i) ≡ t + 2 * (2 ^ k * q) =
          grind (arith, reflected, shared, e) in
        goal ∙ rw double (grind arith);
  }

-- An index that reaches a residue, and its mirror image, reach both residues of the next power.
Reached-next : (k t : ℕ) → Reached k t → Reached (suc k) t × Reached (suc k) (t + 2 ^ k)
Reached-next k t r = by_parity (parity r.rounds)
  where
    by_parity :
        (m : ℕ) × ((r.rounds ≡ 2 * m) ⊎ (r.rounds ≡ 2 * m + 1))
        → Reached (suc k) t × Reached (suc k) (t + 2 ^ k)
    by_parity (m, inl e) =
        let at = r.meets ∙ ap (λ (n : ℕ). t + 2 ^ k * n) e in
        (even k t r.index m r.small at, mirror_even k t r.index m r.small at)
    by_parity (m, inr e) =
        let at = r.meets ∙ ap (λ (n : ℕ). t + 2 ^ k * n) e in
        (mirror_odd k t r.index m r.small at, odd k t r.index m r.small at)

reached : (k t : ℕ) → t < 2 ^ k → Reached k t
unfolding tri
reached zero t small = record { index = 0; rounds = 0; small = omega arith; meets = omega arith }
reached (suc k) t small = elim (Bool-cases (ltb t (2 ^ k))) [
  | inl low ↦ (Reached-next k t (reached k t (ltb→lt _ _ low))).0
  | inr high ↦
      let back : t - 2 ^ k + 2 ^ k ≡ t = ground arith in
      rw (← back)
        (Reached-next k (t - 2 ^ k) (reached k (t - 2 ^ k) (omega (arith, pow-suc 2 k, back)))).1
]

-- An index from 1 on, before the sequence comes back to its start.
pub record Late (k t : ℕ) : Type 0 where
  pub index : ℕ
  pub rounds : ℕ
  pub positive : 0 < index
  pub small : index < 2 * 2 ^ k
  pub meets : index * index + index ≡ 2 * (t + 2 ^ k * rounds)

pub reached-Late : (k t : ℕ) → t < 2 ^ k → Late k t
reached-Late k t small = by_mirror (reached k t small)
  where
    by_mirror : Reached k t → Late k t
    by_mirror r = late r.index r.rounds r.small r.meets
      where
        late : (i m : ℕ) → i < 2 ^ k → tri i ≡ t + 2 ^ k * m → Late k t
        late i m small e = record {
          index = 2 * 2 ^ k - 1 - i;
          rounds = m + 2 * 2 ^ k - (2 * i + 1);
          positive = omega arith;
          small = omega arith;
          meets =
              let j = 2 * 2 ^ k - 1 - i in
              let q = m + 2 * 2 ^ k - (2 * i + 1) in
              let shared = scaled (2 ^ k) q (2 * i + 1) m (2 * 2 ^ k) (omega arith) in
              let twice : 2 ^ k * (2 * 2 ^ k) ≡ 2 * (2 ^ k * 2 ^ k) = grind arith in
              omega (arith, reflected k t i m small, shared, twice, e, square-tri j);
        }

-- ===== src/Collections/HashMap/Room.antt =====
-- Making room before an insertion into the hash map (src/shared/collections/src/hash_map/mod.rs).
use vanadinite.Prelude.{
  ℕ, ◌+◌, ◌*◌, ◌/◌, ◌%◌, ◌^◌, ◌≤◌, ◌<◌, ◌≡◌, ◌⊎◌, inl, inr, refl, ap, Bool, false, Bool-cases, List,
  ◌==◌, ltb, arith, ltb→lt, length,
}
use vanadinite.Collections.HashMap.Slots.{Key, Slot}
use vanadinite.Collections.HashMap.Contents.{contents}
use native.Mathlib.Nat.{mod-lt, mod-add-div, mul-le-mul, zero-div}
use vanadinite.Collections.HashMap.Rehash.{count-le}
use vanadinite.Collections.HashMap.Growth.{IsTable, Grows, refused, grown, init-Grows, resize-Grows}
use vanadinite.Collections.HashMap.{
  HashMap, Outcome, ok, alloc_error, capacity, resize, init_if_empty, grow_if_loaded, load_factor,
  load_factor_limit, saturate,
}

-- A second slot stays vacant only where there are four.
abbrev pub Spare : ℕ → ℕ → Type 0
Spare spare n = (spare ≡ 0) ⊎ ((spare ≡ 1) × (4 ≤ n))

pub few_entries : (spare n m : ℕ) → Spare spare m → 0 < m → n * 100 / m ≤ 70 → spare + n < m
few_entries spare n m either some_slots few =
    let whole = mod-add-div (n * 100) m in
    let rest : n * 100 % m < m = mod-lt (n * 100) some_slots in
    let most : m * (n * 100 / m) ≤ m * 70 = mul-le-mul {n₂ = m} {m₂ = 70} (omega arith) few in
    elim either [ inl e ↦ omega arith | inr both ↦ omega arith ]

room_doubled : (spare n m b : ℕ) → Spare spare m → 0 < m → n ≤ m → m * 2 ≤ b → spare + n < b
room_doubled spare n m b (inl e) some_slots filled wide = omega arith
room_doubled spare n m b (inr both) some_slots filled wide = omega arith

wide-Spare : (spare n : ℕ) → (spare ≡ 0) ⊎ (spare ≡ 1) → 4 ≤ n → Spare spare n
wide-Spare spare n (inl e) wide = inl e
wide-Spare spare n (inr e) wide = inr (e, wide)

module _ {K V : Type 0} where
  -- There is a bucket, and it can grow if it has entries.
  abbrev pub Initialized : ℕ → HashMap K V → Type 0
  Initialized spare self =
      (0 < capacity self)
      × (capacity self ≤ 2 ^ 31)
      × ((capacity self ≤ 2 ^ 30) ⊎ (self.len ≡ 0))
      × Spare spare (capacity self)

  abbrev pub Vacancy : ℕ → HashMap K V → Type 0
  Vacancy spare self = (spare + self.len < capacity self) × (capacity self ≤ 2 ^ 31)

  -- What an insertion leaves, when `spare` more slots were vacant before.
  abbrev pub Kept : ℕ → HashMap K V → Type 0
  Kept spare self = (spare + self.len ≤ capacity self) × (capacity self ≤ 2 ^ 31)

module _ {K V : Type 0} (keys : Key K) where
  -- What an operation leaves that only makes room.
  pub data Roomy (self : HashMap K V) (A : HashMap K V → Type 0)
      : HashMap K V × Outcome (Unit {0}) → Type 0 where
    failed :
        (self' : HashMap K V)
        → IsTable keys self'
        → ((j : K) → contents keys self'.bucket j ≡ contents keys self.bucket j)
        → Roomy self A (self', alloc_error)
    roomy :
        (self' : HashMap K V)
        → IsTable keys self'
        → A self'
        → ((j : K) → contents keys self'.bucket j ≡ contents keys self.bucket j)
        → Roomy self A (self', ok tt)

  pub from_Grows :
      (self : HashMap K V) (least : ℕ) (A : HashMap K V → Type 0)
      {r : HashMap K V × Outcome (Unit {0})}
      → IsTable keys self
      → ((allocator : List (ℕ → Bool)) (bucket : List (Slot K V))
          → least ≤ length bucket
          → length bucket ≤ 2 ^ 31
          → A (record { allocator = allocator; bucket = bucket; len = self.len }))
      → Grows keys self least r
      → Roomy self A r
  from_Grows self least A t a (refused pool) =
      failed (record { allocator = pool; bucket = self.bucket; len = self.len })
        (record { reachable = t.reachable; counted = t.counted }) (λ j. refl)
  from_Grows self least A t a (grown pool bucket r c above below same) =
      roomy (record { allocator = pool; bucket = bucket; len = self.len })
        (record { reachable = r; counted = c }) (a pool bucket above below) same

  pub init_if_empty-Roomy :
      (spare : ℕ) (self : HashMap K V)
      → (spare ≡ 0) ⊎ (spare ≡ 1)
      → (capacity self ≡ 0) ⊎ Spare spare (capacity self)
      → IsTable keys self
      → capacity self ≤ 2 ^ 30
      → Roomy self (Initialized spare) (init_if_empty keys self)
  init_if_empty-Roomy spare self two fits t bound = elim (Bool-cases (capacity self == 0)) [
    | inr slots ↦
        rw slots (roomy self t (ground arith, omega arith, inl bound, used fits slots) (λ j. refl))
    | inl none_yet ↦
        let no_entry : self.len ≡ 0 = ground (arith, t.counted, count-le self.bucket) in
        rw none_yet (
          from_Grows self 4 (Initialized spare) t
            (λ a b above below.
              (omega arith, below, inr no_entry, wide-Spare spare (length b) two above))
            (init-Grows keys self 4 t (ground arith) (omega arith)))
  ]
    where
      used :
          (capacity self ≡ 0) ⊎ Spare spare (capacity self)
          → (capacity self == 0) ≡ false
          → Spare spare (capacity self)
      used (inl none_yet) slots = absurd (ground arith)
      used (inr e) slots = e

  pub grow_if_loaded-Roomy :
      (spare : ℕ) (self : HashMap K V)
      → IsTable keys self
      → Initialized spare self
      → Roomy self (Vacancy spare) (grow_if_loaded keys self)
  grow_if_loaded-Roomy spare self t (some_slots, bound, growing, fits) =
      let filled : self.len ≤ capacity self = omega (arith, t.counted, count-le self.bucket) in
      let exact : saturate (self.len * 100) ≡ self.len * 100 = ground arith in
      let loads : load_factor self ≡ self.len * 100 / capacity self =
        ap (λ (n : ℕ). n / capacity self) exact in
      elim (Bool-cases (ltb load_factor_limit (load_factor self))) [
        | inr light ↦
            let low : load_factor self ≤ 70 = ground arith in
            let few : self.len * 100 / capacity self ≤ 70 = omega (arith, low, loads) in
            rw light (
              roomy self t (few_entries spare self.len (capacity self) fits some_slots few, bound)
                (λ j. refl))
        | inl heavy ↦ rw heavy (by_growing filled (ltb→lt _ _ heavy) loads growing)
      ]
    where
      by_growing :
          self.len ≤ capacity self
          → 70 < load_factor self
          → load_factor self ≡ self.len * 100 / capacity self
          → (capacity self ≤ 2 ^ 30) ⊎ (self.len ≡ 0)
          → Roomy self (Vacancy spare) (resize keys (saturate (capacity self * 2)) self)
      by_growing filled heavy loads (inl small) =
          let exact : saturate (capacity self * 2) ≡ capacity self * 2 = ground arith in
          rw exact (
            from_Grows self (capacity self * 2) (Vacancy spare) t
              (λ a b above below. (
                room_doubled spare self.len (capacity self) (length b) fits some_slots filled above,
                below,
              ))
              (resize-Grows keys self (capacity self * 2) t small (omega arith)))
      by_growing filled heavy loads (inr no_entry) =
          let nothing : self.len * 100 / capacity self ≡ 0 / capacity self =
            ap (λ (n : ℕ). n * 100 / capacity self) no_entry in
          absurd (omega (arith, heavy, loads, nothing, zero-div (capacity self)))

-- ===== src/Materialize/Buffers.antt =====
-- Growing and shrinking the message buffer (src/userspace/libs/materialize/src/buffer.rs).
use vanadinite.Prelude.Powers.{next_power_of_two, Rounded, next_power_of_two-Rounded}
use native.Mathlib.Nat.{pow-le-pow_right}
use vanadinite.Prelude.{
  ℕ, ◌^◌, ◌≤◌, ◌<◌, ◌≡◌, ◌⊎◌, inl, inr, refl, Bool, true, false, ◌&&◌, Bool-cases, List, [], ◌∷◌,
  ◌==◌, if◌then◌else◌, ltb, leb, arith, ltb→lt, leb→le,
}
use vanadinite.Materialize.{
  AlignedHeapBuffer, Outcome, ok, allocation_error, max_capacity, allocate_zeroed, init,
  grown_capacity, realloc, fill_to, resize, ◌>>=◌,
}

-- The length lies within the capacity.
abbrev pub IsBuffer : AlignedHeapBuffer → Type 0
IsBuffer self = self.len ≤ self.cap

-- `realloc` fails or gives room for the new length, and keeps the bytes below the length.
data Grown (self : AlignedHeapBuffer) (new_len : ℕ) : Outcome AlignedHeapBuffer → Type 0 where
  no_memory : Grown self new_len allocation_error
  grown :
      (self' : AlignedHeapBuffer)
      → new_len ≤ self'.cap
      → self'.len ≡ self.len
      → ((i : ℕ) → i < self.len → self'.bytes i ≡ self.bytes i)
      → Grown self new_len (ok self')

-- A power of two up to 2 ^ 62 is below the largest capacity.
rounded_capacity :
    (n : ℕ)
    → n ≤ 2 ^ 62
    → (n ≤ next_power_of_two n) × (ltb max_capacity (next_power_of_two n) ≡ false)
rounded_capacity n small = by_power (next_power_of_two-Rounded 62 n (omega arith) small)
  where
    by_power :
        Rounded 62 n (next_power_of_two n)
        → (n ≤ next_power_of_two n) × (ltb max_capacity (next_power_of_two n) ≡ false)
    by_power r =
        let limit : 2 ^ r.exponent ≤ 2 ^ 62 = pow-le-pow_right (omega arith) r.bounded in
        let low : next_power_of_two n ≤ 2 ^ 62 = omega (arith, limit, r.power) in
        (r.above, ground arith)

allocate_cases :
    (n : ℕ) (pool : List (ℕ → Bool))
    → (allocate_zeroed n pool ≡ allocation_error)
      ⊎ ((rest : List (ℕ → Bool)) × (allocate_zeroed n pool ≡ ok rest))
unfolding allocate_zeroed
allocate_cases n [] = inl refl
allocate_cases n (grants ∷ rest) = elim (Bool-cases (grants n)) [
  | inl granted ↦ inr (rest, rw granted refl)
  | inr refusal ↦ inl (rw refusal refl)
]

realloc-Grown :
    (self : AlignedHeapBuffer) (new_len : ℕ)
    → IsBuffer self
    → new_len ≤ 2 ^ 62
    → Grown self new_len (realloc new_len self)
unfolding realloc init
realloc-Grown self new_len valid small = elim (Bool-cases (leb new_len self.cap)) [
  | inl room ↦ rw (realloc, room) (grown self (leb→le _ _ room) refl (λ i h. refl))
  | inr full ↦ by_capacity full (rounded_capacity new_len small) (Bool-cases (self.cap == 0))
]
  where
    fresh : ℕ → List (ℕ → Bool) → AlignedHeapBuffer
    fresh cap rest = record { allocator = rest; bytes = λ _. 0; len = self.len; cap = cap }

    copied : List (ℕ → Bool) → AlignedHeapBuffer
    copied rest = record {
      allocator = rest;
      bytes = λ i. if ltb i self.len then self.bytes i else 0;
      len = self.len;
      cap = grown_capacity new_len;
    }

    kept : (i : ℕ) → i < self.len → (if ltb i self.len then self.bytes i else 0) ≡ self.bytes i
    kept i h = let below : ltb i self.len ≡ true = ground arith in rw below refl

    by_capacity :
        leb new_len self.cap ≡ false
        → (new_len ≤ next_power_of_two new_len)
          × (ltb max_capacity (next_power_of_two new_len) ≡ false)
        → ((self.cap == 0) ≡ true) ⊎ ((self.cap == 0) ≡ false)
        → Grown self new_len (realloc new_len self)
    by_capacity full (above, fits) (inl first) =
        let nothing : (i : ℕ) → i < self.len → 0 ≡ self.bytes i = λ i h. absurd (ground arith) in
        elim (allocate_cases (next_power_of_two new_len) self.allocator) [
          | inl e ↦ rw (realloc, full, first, fits, e) no_memory
          | inr (rest, e) ↦
              rw (realloc, full, first, fits, e)
                (grown (fresh (next_power_of_two new_len) rest) above refl nothing)
        ]
    by_capacity full (above, fits) (inr more) =
        let enough : new_len ≤ grown_capacity new_len = rw fits above in
        elim (allocate_cases (grown_capacity new_len) self.allocator) [
          | inl e ↦ rw (realloc, full, more, e) no_memory
          | inr (rest, e) ↦ rw (realloc, full, more, e) (grown (copied rest) enough refl kept)
        ]

-- What `resize` gives.
pub data Resized (self : AlignedHeapBuffer) (new_len value : ℕ)
    : Outcome AlignedHeapBuffer → Type 0 where
  failed : Resized self new_len value allocation_error
  resized :
      (self' : AlignedHeapBuffer)
      → IsBuffer self'
      → self'.len ≡ new_len
      → ((i : ℕ) → i < new_len → self'.bytes i ≡ (if ltb i self.len then self.bytes i else value))
      → Resized self new_len value (ok self')

-- For a length of at most 2 ^ 62, `resize` fails for want of memory, or the buffer has that length:
-- the bytes below the old length are the ones of before and the others have the given value. It
-- does not write outside its memory.
pub resize-Resized :
    (self : AlignedHeapBuffer) (new_len value : ℕ)
    → IsBuffer self
    → new_len ≤ 2 ^ 62
    → Resized self new_len value (resize new_len value self)
unfolding resize fill_to
resize-Resized self new_len value valid small = elim (Bool-cases (leb new_len self.len)) [
  | inl shorter ↦
      rw (resize, shorter)
        (resized (record self { len = new_len }) (ground arith) refl
          (λ i h. let below : ltb i self.len ≡ true = ground arith in rw below refl))
  | inr longer ↦
      rw (resize, longer) (by_grown (ground arith) (realloc-Grown self new_len valid small))
]
  where
    filled : (self' : AlignedHeapBuffer) → AlignedHeapBuffer
    filled self' = record self' {
      bytes = λ i. if leb self'.len i && ltb i new_len then value else self'.bytes i;
      len = new_len;
    }

    written :
        (self' : AlignedHeapBuffer)
        → self'.len ≡ self.len
        → ((i : ℕ) → i < self.len → self'.bytes i ≡ self.bytes i)
        → (i : ℕ) → i < new_len
        → (if leb self'.len i && ltb i new_len then value else self'.bytes i)
          ≡ (if ltb i self.len then self.bytes i else value)
    written self' same bytes i h = elim (Bool-cases (ltb i self.len)) [
      | inl old ↦
          let out : (leb self'.len i && ltb i new_len) ≡ false = ground arith in
          rw (old, out) (bytes i (ltb→lt _ _ old))
      | inr new ↦
          let inside : (leb self'.len i && ltb i new_len) ≡ true = ground arith in
          rw (new, inside) refl
    ]

    by_grown :
        self.len < new_len
        → {r : Outcome AlignedHeapBuffer} → Grown self new_len r
        → Resized self new_len value (r >>= fill_to new_len value)
    by_grown longer no_memory = failed
    by_grown longer (grown self' room same bytes) =
        let fits : leb new_len self'.cap ≡ true = ground arith in
        rw (fill_to, fits) (resized (filled self') room refl (written self' same bytes))

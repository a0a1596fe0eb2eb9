-- ===== src/Collections/HashMap/Growth.antt =====
-- Reserving room in the hash map: `init`, `resize` and `reserve`
-- (src/shared/collections/src/hash_map/mod.rs).
use vanadinite.Prelude.Powers.{Rounded}
use vanadinite.Prelude.Powers.{next_power_of_two}
use vanadinite.Prelude.{
  ℕ, ◌+◌, ◌^◌, ◌≤◌, ◌<◌, ◌≡◌, inl, inr, refl, sym, ap, ◌∙◌, Bool-cases, Bool, false, Option, none,
  some, List, [], ◌∷◌, ◌==◌, leb, arith, length, replicate,
}
use vanadinite.Collections.HashMap.Slots.{Key, Slot, vacant, occupied_count}
use vanadinite.Collections.HashMap.Indices.{next_power_of_two_lem, power_bound}
use vanadinite.Collections.HashMap.Contents.{contents, Reachable}
use vanadinite.Collections.HashMap.Rehash.{
  count-le, length-replicate, count-replicate, contents-replicate, replicate-Reachable,
  Reachable-Distinct, Placed, rehash_lem, or_else,
}
use vanadinite.Collections.HashMap.{
  HashMap, Outcome, ok, alloc_error, and_then, set_bucket, new_capacity, capacity, allocate_zeroed,
  init, resize, reserve, isize_max, saturate, replace_bucket,
}

new_capacity-bounds :
    (old to : ℕ)
    → 0 < old
    → old ≤ 2 ^ 30
    → to ≤ 2 ^ 31
    → (old < new_capacity old to)
      × (to ≤ new_capacity old to)
      × (new_capacity old to ≤ 2 ^ 31)
      × (leb isize_max (new_capacity old to) ≡ false)
new_capacity-bounds old to some_slots bound small = ground arith

module _ {K V : Type 0} (keys : Key K) where
  -- Each entry can be found, and `len` counts the entries.
  pub record IsTable (self : HashMap K V) : Type 0 where
    pub reachable : Reachable keys self.bucket
    pub counted : occupied_count self.bucket ≡ self.len

  -- The map as it was, but for the allocator, and an error; or a bucket with the same entries.
  pub data Grows (self : HashMap K V) (least : ℕ) : HashMap K V × Outcome (Unit {0}) → Type 0 where
    refused :
        (allocator : List (ℕ → Bool))
        → Grows self least
            (record { allocator = allocator; bucket = self.bucket; len = self.len }, alloc_error)
    grown :
        (allocator : List (ℕ → Bool)) (bucket : List (Slot K V))
        → Reachable keys bucket
        → occupied_count bucket ≡ self.len
        → least ≤ length bucket
        → length bucket ≤ 2 ^ 31
        → ((j : K) → contents keys bucket j ≡ contents keys self.bucket j)
        → Grows self least
            (record { allocator = allocator; bucket = bucket; len = self.len }, ok tt)

  data Answers (self : HashMap K V) (n : ℕ) : HashMap K V × Outcome (List (Slot K V)) → Type 0 where
    refuses :
        (allocator : List (ℕ → Bool))
        → Answers self n
            (record { allocator = allocator; bucket = self.bucket; len = self.len }, alloc_error)
    grants :
        (allocator : List (ℕ → Bool))
        → Answers self n (
          record { allocator = allocator; bucket = self.bucket; len = self.len },
          ok (replicate n vacant),
        )

  allocate_zeroed-Answers : (self : HashMap K V) (n : ℕ) → Answers self n (allocate_zeroed n self)
  unfolding allocate_zeroed
  allocate_zeroed-Answers self n = by_pool self.allocator refl
    where
      by_pool :
          (pool : List (ℕ → Bool)) → self.allocator ≡ pool → Answers self n (allocate_zeroed n self)
      by_pool [] e = rw e (refuses [])
      by_pool (f ∷ rest) e = elim (Bool-cases (f n)) [
        | inl granted ↦ rw (allocate_zeroed, e, granted) (grants rest)
        | inr refusal ↦ rw (allocate_zeroed, e, refusal) (refuses rest)
      ]

  empty_slots : (slots : List (Slot K V)) (j : K) → length slots ≡ 0 → contents keys slots j ≡ none
  unfolding contents
  empty_slots [] j e = refl
  empty_slots (s ∷ slots) j e = absurd (omega arith)

  pub init-Grows :
      (self : HashMap K V) (to : ℕ)
      → IsTable self
      → capacity self ≡ 0
      → to ≤ 2 ^ 31
      → Grows self to (init to self)
  unfolding init
  init-Grows self to t none_yet small =
      by_power (next_power_of_two to) (next_power_of_two_lem to small)
        (allocate_zeroed-Answers self (next_power_of_two to))
    where
      by_power :
          (p : ℕ) {r : HashMap K V × Outcome (List (Slot K V))}
          → Rounded 31 to p
          → Answers self p r
          → Grows self to (and_then r set_bucket)
      by_power p rounded (refuses a) = refused a
      by_power p rounded (grants a) =
          grown a (replicate p vacant) (replicate-Reachable V keys p)
            (omega (arith, count-replicate K V p, t.counted, count-le self.bucket))
            (omega (arith, rounded.above, length-replicate {K = K} {V = V} p vacant))
            (omega (
              arith,
              rounded.power,
              power_bound rounded.exponent rounded.bounded,
              length-replicate {K = K} {V = V} p vacant,
            ))
            (λ j. contents-replicate V keys p j ∙ sym (empty_slots self.bucket j none_yet))

  -- The new bucket of `resize`, filled.
  rehash-Grows :
      (self : HashMap K V) (n to : ℕ) {r : HashMap K V × Outcome (List (Slot K V))}
      → IsTable self
      → self.len < n
      → to ≤ n
      → n ≤ 2 ^ 31
      → Answers self n r
      → Grows self to (and_then r (replace_bucket keys))
  rehash-Grows self n to t room above small (refuses a) = refused a
  rehash-Grows self n to t room above small (grants a) = by_placed (
      rehash_lem keys (replicate n vacant) self.bucket
        (omega (arith, length-replicate {K = K} {V = V} n vacant))
        (omega (arith, length-replicate {K = K} {V = V} n vacant, count-replicate K V n, t.counted))
        (replicate-Reachable V keys n) (Reachable-Distinct keys self.bucket t.reachable)
        (λ j. inr (contents-replicate V keys n j)))
    where
      old : HashMap K V
      old = record { allocator = a; bucket = self.bucket; len = self.len }

      none_else : (o : Option V) → or_else o none ≡ o
      none_else none = refl
      none_else (some v) = refl

      by_placed :
          Placed keys (replicate n vacant) self.bucket
          → Grows self to (replace_bucket keys (replicate n vacant) old)
      by_placed (out, e, r) =
          rw (replace_bucket, e)
            (grown a out r.reachable (omega (arith, r.counted, count-replicate K V n, t.counted))
              (omega (arith, r.same_length, length-replicate {K = K} {V = V} n vacant))
              (omega (arith, r.same_length, length-replicate {K = K} {V = V} n vacant))
              (λ j.
                r.entries j
                ∙ ap (or_else (contents keys self.bucket j)) (contents-replicate V keys n j)
                ∙ none_else (contents keys self.bucket j)))

  -- In a table of at most 2 ^ 30 slots, `resize` to at most 2 ^ 31 ends: it fails and leaves the
  -- bucket, or the new bucket has at least as many slots as asked for, every search in it for a
  -- stored key finds it, and each key has the value of before.
  pub resize-Grows :
      (self : HashMap K V) (to : ℕ)
      → IsTable self
      → capacity self ≤ 2 ^ 30
      → to ≤ 2 ^ 31
      → Grows self to (resize keys to self)
  unfolding resize
  resize-Grows self to t bound small = elim (Bool-cases (capacity self == 0)) [
    | inl zero_slots ↦ rw zero_slots (init-Grows self to t (ground arith) small)
    | inr slots ↦
        let (room, above, fits, allowed) =
          new_capacity-bounds (capacity self) to (ground arith) bound small in
        rw (slots, allowed)
          (rehash-Grows self (new_capacity (capacity self) to) to t
            (omega (arith, t.counted, count-le self.bucket, room)) above fits
            (allocate_zeroed-Answers self (new_capacity (capacity self) to)))
  ]

  pub reserve-Grows :
      (self : HashMap K V) (additional : ℕ)
      → IsTable self
      → capacity self ≤ 2 ^ 30
      → self.len + additional ≤ 2 ^ 31
      → Grows self (self.len + additional) (reserve keys additional self)
  unfolding reserve
  reserve-Grows self additional t bound small =
      let exact : saturate (self.len + additional) ≡ self.len + additional = ground arith in
      elim (Bool-cases (leb (self.len + additional) (capacity self))) [
        | inl enough ↦
            rw (exact, enough)
              (grown self.allocator self.bucket t.reachable t.counted (ground arith) (omega arith)
                (λ j. refl))
        | inr few ↦ rw (exact, few) (resize-Grows self (self.len + additional) t bound small)
      ]

-- ===== src/Collections/Ranges.antt =====
-- The ranges that `drain` of the two linked lists takes
-- (src/shared/collections/src/linked_list/doubly.rs and singly.rs).
use vanadinite.Prelude.{
  ℕ, ◌+◌, ◌^◌, ◌≡◌, ◌≤◌, ◌<◌, ◌||◌, Option, none, some, ltb, leb, if◌then◌else◌, arith,
}

-- `Bound<usize>`
pub data Bound : Type 0 where
  included excluded : ℕ → Bound
  unbounded : Bound

checked_succ : ℕ → Option ℕ
checked_succ n = if ltb (n + 1) (2 ^ 64) then some (n + 1) else none

-- The range of indices of `drain`; `none` is `DrainRangeError`.
unfoldable pub drain_range : ℕ → Bound → Bound → Option (ℕ × ℕ)
unfolding checked_succ
drain_range len from to = elim (start from) [
  | none ↦ none
  | some s ↦ elim (end to) [
    | none ↦ none
    | some e ↦ if ltb e s || ltb len e || leb len s then none else some (s, e)
  ]
]
  where
    start : Bound → Option ℕ
    start (included n) = some n
    start (excluded n) = checked_succ n
    start unbounded = some 0

    end : Bound → Option ℕ
    end (included n) = checked_succ n
    end (excluded n) = some n
    end unbounded = some len

-- A range that is taken lies in the list and starts at an element.
pub drain_range-bounds :
    (len a e : ℕ) (from to : Bound)
    → drain_range len from to ≡ some (a, e)
    → (a ≤ e) × (e ≤ len) × (a < len)
unfolding drain_range
drain_range-bounds len a e from to h = ground arith

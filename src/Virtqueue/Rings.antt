-- ===== src/Virtqueue/Rings.antt =====
-- The available and the used ring (src/userspace/libs/virtio/src/splitqueue.rs).
use native.Mathlib.Nat.{mod-lt}
use vanadinite.Prelude.{
  ℕ, zero, suc, ◌+◌, ◌-◌, ◌%◌, ◌<◌, ◌^◌, ◌≡◌, refl, sym, ap, ◌∙◌, true, false, none, some, List, [],
  ◌∷◌, ltb, ◌==◌, if◌then◌else◌, arith, length, get_elem?, set, get_elem?-set, length-set,
}
use vanadinite.Virtqueue.{VirtqueueAvailable, VirtqueueUsedElement, UsedQueue, push, pop, drain}

get_elem?-inside :
    {A : Type 0} (xs : List A) (i : ℕ) → i < length xs → (x : A) × (get_elem? xs i ≡ some x)
get_elem?-inside [] i h = absurd (omega arith)
get_elem?-inside (x ∷ xs) zero h = (x, refl)
get_elem?-inside (x ∷ xs) (suc i) h = get_elem?-inside xs i (omega arith)

-- On a ring that is not empty, `push` does not panic: it writes the descriptor's index to the slot of
-- the old ring index, where the device looks for it, leaves every other slot and the ring's length,
-- and moves the ring index by one, modulo 2 ^ 16.
pub push_lem :
    (a : VirtqueueAvailable) (i : ℕ)
    → 0 < length a.ring
    → (a' : VirtqueueAvailable) × (push a i ≡ some a')
      × ((j : ℕ)
          → get_elem? a'.ring j
            ≡ (if a.index % length a.ring == j then some i else get_elem? a.ring j))
      × (length a'.ring ≡ length a.ring)
      × (a'.index ≡ (a.index + 1) % 2 ^ 16)
unfolding push
push_lem a i some_slot =
    let there : (length a.ring == 0) ≡ false = ground arith in
    let slot = a.index % length a.ring in
    (
      record a { ring = set a.ring slot i; index = (a.index + 1) % 2 ^ 16 },
      rw (push, there) refl,
      λ j. get_elem?-set a.ring slot j i (mod-lt a.index some_slot),
      length-set a.ring slot i,
      refl,
    )

-- How many elements the device has added that were not yet seen.
abbrev pub pending : UsedQueue → ℕ
pending q = (q.queue.index + 2 ^ 16 - q.last_seen) % 2 ^ 16

drain_steps :
    (n : ℕ) (q : UsedQueue)
    → 0 < length q.queue.ring
    → q.queue.index < 2 ^ 16
    → q.last_seen < 2 ^ 16
    → pending q ≡ n
    → (es : List VirtqueueUsedElement) × (drain (suc n) q
        ≡ some (record q { last_seen = q.queue.index }, es))
      × (length es ≡ n)
      × ((j : ℕ)
          → get_elem? es j ≡ (
              if ltb j n
              then get_elem? q.queue.ring ((q.last_seen + j) % 2 ^ 16 % length q.queue.ring)
              else none))
unfolding drain pop
drain_steps zero q slots index seen none_left =
    let here : q.last_seen ≡ q.queue.index = omega arith in
    let all_seen : (q.last_seen == q.queue.index) ≡ true = ground arith in
    (
      [],
      rw (drain, pop, all_seen) (ap (λ (s : ℕ). some (record q { last_seen = s }, [])) here),
      refl,
      λ j. ground arith,
    )
drain_steps (suc n) q slots index seen left =
    let more : (q.last_seen == q.queue.index) ≡ false = ground arith in
    let (e, found) =
      get_elem?-inside q.queue.ring (q.last_seen % length q.queue.ring)
        (mod-lt q.last_seen slots) in
    let (es, rest, count, at) =
      drain_steps n (record q { last_seen = (q.last_seen + 1) % 2 ^ 16 }) slots index (omega arith)
        (omega arith) in
    (e ∷ es, rw (drain, pop, more, found, rest) refl, ap suc count, λ j. by_index e es found at j)
  where
    by_index :
        (e : VirtqueueUsedElement) (es : List VirtqueueUsedElement)
        → get_elem? q.queue.ring (q.last_seen % length q.queue.ring) ≡ some e
        → ((j : ℕ)
            → get_elem? es j ≡ (
                if ltb j n
                then get_elem? q.queue.ring
                    (((q.last_seen + 1) % 2 ^ 16 + j) % 2 ^ 16 % length q.queue.ring)
                else none))
        → (j : ℕ)
        → get_elem? (e ∷ es) j ≡ (
            if ltb j (suc n)
            then get_elem? q.queue.ring ((q.last_seen + j) % 2 ^ 16 % length q.queue.ring)
            else none)
    by_index e es found at zero =
        let first : (q.last_seen + 0) % 2 ^ 16 ≡ q.last_seen = omega arith in
        let within : ltb 0 (suc n) ≡ true = ground arith in rw (within, first) (sym found)
    by_index e es found at (suc j) =
        let next : ((q.last_seen + 1) % 2 ^ 16 + j) % 2 ^ 16 ≡ (q.last_seen + suc j) % 2 ^ 16 =
          omega arith in
        let same : ltb (suc j) (suc n) ≡ ltb j n = ground arith in
        rw same (
          at j
          ∙ ap
              (λ (k : ℕ).
                if ltb j n then get_elem? q.queue.ring (k % length q.queue.ring) else none)
              next)

-- With 16-bit indices and a ring that is not empty, `drain` ends after one round more than there are
-- elements pending: it has not panicked, has seen all that the device had added, and has yielded the
-- pending elements in the order of their slots, round the end of the ring and of the index.
pub drain_lem :
    (q : UsedQueue)
    → 0 < length q.queue.ring
    → q.queue.index < 2 ^ 16
    → q.last_seen < 2 ^ 16
    → (es : List VirtqueueUsedElement) × (drain (suc (pending q)) q
        ≡ some (record q { last_seen = q.queue.index }, es))
      × (length es ≡ pending q)
      × ((j : ℕ)
          → get_elem? es j ≡ (
              if ltb j (pending q)
              then get_elem? q.queue.ring ((q.last_seen + j) % 2 ^ 16 % length q.queue.ring)
              else none))
drain_lem q slots index seen = drain_steps (pending q) q slots index seen refl

-- ===== src/Scheduler/RoundRobin/Turns.antt =====
-- The task that `RoundRobinPolicy::next` picks, and the queue that it leaves
-- (src/kernel/vanadinite/src/scheduler/round_robin.rs).
use vanadinite.Prelude.{
  ℕ, zero, suc, ◌<◌, ◌≡◌, ◌⊎◌, inl, inr, refl, sym, ap, ◌∙◌, true, false, Bool-cases, Option, none,
  some, List, [], ◌∷◌, ◌++◌, arith, length, length-append,
}
use vanadinite.Scheduler.RoundRobin.{
  Tid, States, is_ready, RoundRobinPolicy, rotate_left, ready_front, next_loop, next,
}

abbrev pub NoneReady : States → List Tid → Type 0
NoneReady states [] = Unit
NoneReady states (t ∷ ts) = (is_ready (states t) ≡ false) × NoneReady states ts

pub append_nil : (xs : List Tid) → xs ++ [] ≡ xs
append_nil [] = refl
append_nil (x ∷ xs) = ap (λ l. x ∷ l) (append_nil xs)

pub append_assoc : (xs ys zs : List Tid) → (xs ++ ys) ++ zs ≡ xs ++ (ys ++ zs)
append_assoc [] ys zs = refl
append_assoc (x ∷ xs) ys zs = ap (λ l. x ∷ l) (append_assoc xs ys zs)

-- One round of the loop, on the rotated queue.
round : ℕ → States → List Tid → List Tid × Option Tid
unfolding next_loop
round n states tasks = elim (ready_front states tasks) [
  | some t ↦ (tasks, some t)
  | none ↦ next_loop n states tasks
]

next_loop-round :
    (n : ℕ) (states : States) (tasks later : List Tid)
    → rotate_left tasks ≡ later
    → next_loop (suc n) states tasks ≡ round n states later
unfolding next_loop round
next_loop-round n states tasks later e = ap (round n states) e

round_found :
    (n : ℕ) (states : States) (t : Tid) (ts : List Tid)
    → is_ready (states t) ≡ true
    → round n states (t ∷ ts) ≡ (t ∷ ts, some t)
unfolding round ready_front
round_found n states t ts awake = rw (round, ready_front, awake) refl

round_on :
    (n : ℕ) (states : States) (ts : List Tid)
    → ready_front states ts ≡ none
    → round n states ts ≡ next_loop n states ts
unfolding round
round_on n states ts asleep = rw (round, asleep) refl

rounds_lem :
    (n : ℕ) (states : States) (tasks us vs : List Tid) (t : Tid)
    → rotate_left tasks ≡ us ++ t ∷ vs
    → NoneReady states us
    → is_ready (states t) ≡ true
    → length us < n
    → next_loop n states tasks ≡ (t ∷ (vs ++ us), some t)
unfolding rotate_left ready_front
rounds_lem zero states tasks us vs t e asleep awake few = absurd (omega arith)
rounds_lem (suc n) states tasks [] vs t e asleep awake few =
    next_loop-round n states tasks (t ∷ vs) e
    ∙ (round_found n states t vs awake
        ∙ ap (λ (l : List Tid). (t ∷ l, some t)) (sym (append_nil vs)))
rounds_lem (suc n) states tasks (u ∷ us) vs t e (first, asleep) awake few =
    let later =
      rounds_lem n states (u ∷ us ++ t ∷ vs) us (vs ++ u ∷ []) t (append_assoc us (t ∷ vs) (u ∷ []))
        asleep awake (omega arith) in
    let front : ready_front states (u ∷ us ++ t ∷ vs) ≡ none = rw (ready_front, first) refl in
    next_loop-round n states tasks (u ∷ us ++ t ∷ vs) e
    ∙ (round_on n states (u ∷ us ++ t ∷ vs) front
        ∙ (later ∙ ap (λ (l : List Tid). (t ∷ l, some t)) (append_assoc vs (u ∷ []) us)))

front_asleep :
    (states : States) (ts : List Tid) → NoneReady states ts → ready_front states ts ≡ none
unfolding ready_front
front_asleep states [] asleep = refl
front_asleep states (t ∷ ts) (first, asleep) = rw (ready_front, first) refl

append-NoneReady :
    (states : States) (xs ys : List Tid)
    → NoneReady states xs
    → NoneReady states ys
    → NoneReady states (xs ++ ys)
append-NoneReady states [] ys h h' = h'
append-NoneReady states (x ∷ xs) ys (first, h) h' = (first, append-NoneReady states xs ys h h')

-- As many rounds as there are tasks bring the queue back to where it was.
rounds_asleep :
    (states : States) (ws zs : List Tid)
    → NoneReady states ws
    → NoneReady states zs
    → next_loop (length ws) states (ws ++ zs) ≡ (zs ++ ws, none)
unfolding next_loop rotate_left
rounds_asleep states [] zs h h' = ap (λ (l : List Tid). (l, none)) (sym (append_nil zs))
rounds_asleep states (w ∷ ws) zs (first, h) h' =
    let h2 = append-NoneReady states zs (w ∷ []) h' (first, tt) in
    let e : rotate_left (w ∷ ws ++ zs) ≡ ws ++ (zs ++ w ∷ []) = append_assoc ws zs (w ∷ []) in
    let front =
      front_asleep states (ws ++ (zs ++ w ∷ [])) (append-NoneReady states ws (zs ++ w ∷ []) h h2) in
    let later = rounds_asleep states ws (zs ++ w ∷ []) h h2 in
    next_loop-round (length ws) states (w ∷ ws ++ zs) (ws ++ (zs ++ w ∷ [])) e
    ∙ (round_on (length ws) states (ws ++ (zs ++ w ∷ [])) front
        ∙ (later ∙ ap (λ (l : List Tid). (l, none)) (append_assoc zs (w ∷ []) ws)))

pub split_ready :
    (states : States) (ts : List Tid)
    → NoneReady states ts
      ⊎ ((us : List Tid) × (t : Tid) × (vs : List Tid) × (ts ≡ us ++ t ∷ vs)
          × NoneReady states us
          × (is_ready (states t) ≡ true))
split_ready states [] = inl tt
split_ready states (t ∷ ts) = elim (Bool-cases (is_ready (states t))) [
  | inl awake ↦ inr ([], t, ts, refl, tt, awake)
  | inr asleep ↦ elim (split_ready states ts) [
    | inl rest ↦ inl (asleep, rest)
    | inr (us, u, vs, e, none_ready, awake) ↦
        inr (t ∷ us, u, vs, ap (λ l. t ∷ l) e, (asleep, none_ready), awake)
  ]
]

length-rotate_left : (ts : List Tid) → length (rotate_left ts) ≡ length ts
unfolding rotate_left
length-rotate_left [] = refl
length-rotate_left (t ∷ ts) = omega (arith, length-append ts (t ∷ []))

rotate_left-NoneReady :
    (states : States) (ts : List Tid) → NoneReady states (rotate_left ts) → NoneReady states ts
unfolding rotate_left
rotate_left-NoneReady states [] h = tt
rotate_left-NoneReady states (t ∷ ts) h = let (a, b) = parts ts h in (b, a)
  where
    parts :
        (us : List Tid)
        → NoneReady states (us ++ t ∷ [])
        → NoneReady states us × (is_ready (states t) ≡ false)
    parts [] (first, _) = (tt, first)
    parts (u ∷ us) (first, h) = let (a, b) = parts us h in ((first, a), b)

pub next_step :
    (states : States) (p : RoundRobinPolicy) (us vs : List Tid) (t : Tid)
    → rotate_left p.tasks ≡ us ++ t ∷ vs
    → NoneReady states us
    → is_ready (states t) ≡ true
    → next p states ≡ (record { tasks = t ∷ (vs ++ us); idle_tid = p.idle_tid }, t)
unfolding next
next_step states p us vs t e asleep awake =
    let sizes = sym (length-rotate_left p.tasks) ∙ ap length e ∙ length-append us (t ∷ vs) in
    rw
      (
        next,
        rounds_lem (length p.tasks) states p.tasks us vs t e asleep awake (omega (arith, sizes)),
      )
      refl

-- `next` gives the idle task and leaves the queue as it is, if no task of the queue is ready. Else it
-- gives the first ready one of the tasks behind the front one and, last, that one; the queue then
-- starts with the given task and goes on in the order of before.
pub next_lem :
    (states : States) (p : RoundRobinPolicy)
    → (NoneReady states p.tasks × (next p states ≡ (p, p.idle_tid)))
      ⊎ ((us : List Tid) × (t : Tid) × (vs : List Tid) × (rotate_left p.tasks ≡ us ++ t ∷ vs)
          × NoneReady states us
          × (is_ready (states t) ≡ true)
          × (next p states ≡ (record { tasks = t ∷ (vs ++ us); idle_tid = p.idle_tid }, t)))
unfolding next
next_lem states p = elim (split_ready states (rotate_left p.tasks)) [
  | inl asleep ↦ let h = rotate_left-NoneReady states p.tasks asleep in inl (h, on_none h)
  | inr (us, t, vs, e, asleep, awake) ↦
      inr (us, t, vs, e, asleep, awake, next_step states p us vs t e asleep awake)
]
  where
    on_none : NoneReady states p.tasks → next p states ≡ (p, p.idle_tid)
    on_none h =
        let run = rounds_asleep states p.tasks [] h tt in
        let run' : next_loop (length p.tasks) states p.tasks ≡ (p.tasks, none) =
          ap (next_loop (length p.tasks) states) (sym (append_nil p.tasks)) ∙ run in
        rw (next, run') refl

-- ===== src/Scheduler/RoundRobin/Fairness.antt =====
-- That a task which stays ready gets its turn
-- (src/kernel/vanadinite/src/scheduler/round_robin.rs).
use vanadinite.Prelude.{
  ℕ, zero, suc, ◌<◌, ◌≡◌, inl, inr, refl, ap, ◌∙◌, Bool, true, false, ◌||◌, ◌==◌, Bool-cases, List,
  [], ◌∷◌, ◌++◌, arith, length, length-append,
}
use vanadinite.Scheduler.RoundRobin.{Tid, States, is_ready, RoundRobinPolicy, rotate_left, next}
use vanadinite.Scheduler.RoundRobin.Turns.{append_assoc, split_ready, next_step}

-- Whether `n` calls of `next` give `t`; the tasks can change their states between the calls.
unfoldable pub gets_turn : ℕ → (ℕ → States) → RoundRobinPolicy → Tid → Bool
unfolding next
gets_turn zero states p t = false
gets_turn (suc n) states p t =
    let (p', given) = next p (states 0) in
    let later = gets_turn n (λ i. states (suc i)) p' t in (given == t) || later

given_lem :
    (n : ℕ) (states : ℕ → States) (p p' : RoundRobinPolicy) (t u : Tid)
    → next p (states 0) ≡ (p', u)
    → gets_turn (suc n) states p t ≡ ((u == t) || gets_turn n (λ i. states (suc i)) p' t)
unfolding gets_turn
given_lem n states p p' t u e =
    ap (λ (r : RoundRobinPolicy × Tid). (r.1 == t) || gets_turn n (λ i. states (suc i)) r.0 t) e

within_lem :
    (n : ℕ) (states : ℕ → States) (p : RoundRobinPolicy) (us vs : List Tid) (t : Tid)
    → rotate_left p.tasks ≡ us ++ t ∷ vs
    → ((i : ℕ) → is_ready (states i t) ≡ true)
    → length us < n
    → gets_turn n states p t ≡ true
unfolding rotate_left
within_lem zero states p us vs t e awake few = absurd (omega arith)
within_lem (suc n) states p us vs t e awake few = elim (split_ready (states 0) us) [
  | inl asleep ↦
      let same : (t == t) ≡ true = ground arith in
      let p' : RoundRobinPolicy = record { tasks = t ∷ (vs ++ us); idle_tid = p.idle_tid } in
      given_lem n states p p' t t (next_step (states 0) p us vs t e asleep (awake 0)) ∙ rw same refl
  | inr (us1, u, us2, e', asleep, first) ↦
      let rest = us2 ++ t ∷ vs in
      let whole : rotate_left p.tasks ≡ us1 ++ u ∷ rest =
        e ∙ ap (λ l. l ++ t ∷ vs) e' ∙ append_assoc us1 (u ∷ us2) (t ∷ vs) in
      let p' : RoundRobinPolicy = record { tasks = u ∷ (rest ++ us1); idle_tid = p.idle_tid } in
      let next_order : rotate_left p'.tasks ≡ us2 ++ t ∷ (vs ++ (us1 ++ u ∷ [])) =
        append_assoc rest us1 (u ∷ []) ∙ append_assoc us2 (t ∷ vs) (us1 ++ u ∷ []) in
      let nearer : length us2 < n = omega (arith, ap length e', length-append us1 (u ∷ us2)) in
      let later =
        within_lem n (λ i. states (suc i)) p' us2 (vs ++ (us1 ++ u ∷ [])) t next_order
          (λ i. awake (suc i)) nearer in
      given_lem n states p p' t u (next_step (states 0) p us1 rest u whole asleep first)
      ∙ or_true (u == t) later
]
  where
    or_true : {b : Bool} (a : Bool) → b ≡ true → (a || b) ≡ true
    or_true a h = ground arith

abbrev pub queued : Tid → List Tid → Bool
queued t [] = false
queued t (u ∷ us) = (u == t) || queued t us

place :
    (ts : List Tid) (t : Tid)
    → queued t ts ≡ true
    → (us : List Tid) × (vs : List Tid) × (rotate_left ts ≡ us ++ t ∷ vs) × (length us < length ts)
unfolding rotate_left
place [] t h = absurd (ground arith)
place (u ∷ ts) t h = elim (Bool-cases (u == t)) [
  | inl here ↦ let same : u ≡ t = ground arith in (ts, [], ap (λ k. ts ++ k ∷ []) same, omega arith)
  | inr other ↦ behind ts (ground arith)
]
  where
    behind :
        (ts : List Tid)
        → queued t ts ≡ true
        → (us : List Tid) × (vs : List Tid) × (ts ++ u ∷ [] ≡ us ++ t ∷ vs)
          × (length us < suc (length ts))
    behind [] h = absurd (ground arith)
    behind (w ∷ ts) h = elim (Bool-cases (w == t)) [
      | inl here ↦
          let same : w ≡ t = ground arith in
          ([], ts ++ u ∷ [], ap (λ k. k ∷ ts ++ u ∷ []) same, omega arith)
      | inr other ↦
          let (us, vs, e, few) = behind ts (ground arith) in
          (w ∷ us, vs, ap (λ l. w ∷ l) e, omega arith)
    ]

-- A task in the queue that is ready at each call of `next` is given by one of as many calls as there
-- are tasks in the queue, whatever the states of the other tasks.
pub next-fair :
    (states : ℕ → States) (p : RoundRobinPolicy) (t : Tid)
    → queued t p.tasks ≡ true
    → ((i : ℕ) → is_ready (states i t) ≡ true)
    → gets_turn (length p.tasks) states p t ≡ true
next-fair states p t h awake =
    let (us, vs, e, few) = place p.tasks t h in
    within_lem (length p.tasks) states p us vs t e awake few

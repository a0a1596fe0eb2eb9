-- ===== src/Scheduler/Queues.antt =====
-- Each task that the policy can give is in the run queue
-- (src/kernel/vanadinite/src/scheduler/mod.rs).
use mathlib.Core.Path.{subst}
use vanadinite.Prelude.{
  ℕ, ◌+◌, ◌%◌, ◌^◌, ◌≡◌, ◌⊎◌, inl, inr, refl, sym, ap, ◌∙◌, true, ◌||◌, ◌==◌, Bool-cases, none,
  some, List, [], ◌∷◌, ◌++◌, arith,
}
use vanadinite.BTreeMap
use vanadinite.BTreeMap.{get, insert}
use vanadinite.BTreeMap.Laws.{get-insert}
use vanadinite.Scheduler.{
  TaskMetadata, new_metadata, Kernel, insert_with, enqueue, charge, stamp, switch_to, schedule,
  set_state,
}
use vanadinite.Scheduler.RoundRobin.{
  Tid, TaskState, States, RoundRobinPolicy, rotate_left, next, task_enqueued,
}
use vanadinite.Scheduler.RoundRobin.Turns.{next_lem}
use vanadinite.Scheduler.RoundRobin.Fairness.{queued}

abbrev pub Present : Tid → BTreeMap.BTreeMap TaskMetadata → Type 0
Present t queue = (m : TaskMetadata) × (get t queue ≡ some m)

-- The tasks of the policy and its idle task are in the run queue.
abbrev pub IsServed : RoundRobinPolicy → BTreeMap.BTreeMap TaskMetadata → Type 0
IsServed p queue =
    ((t : Tid) → queued t p.tasks ≡ true → Present t queue) × Present p.idle_tid queue

insert-Present :
    (t k : Tid) (m : TaskMetadata) (queue : BTreeMap.BTreeMap TaskMetadata)
    → Present t queue
    → Present t (insert k m queue)
insert-Present t k m queue (old, h) = elim (Bool-cases (k == t)) [
  | inl here ↦ (m, get-insert t k m queue ∙ rw here refl)
  | inr other ↦ (old, get-insert t k m queue ∙ rw other h)
]

Present-inserted :
    (t : Tid) (m : TaskMetadata) (queue : BTreeMap.BTreeMap TaskMetadata)
    → Present t (insert t m queue)
Present-inserted t m queue =
    let same : (t == t) ≡ true = ground arith in (m, get-insert t t m queue ∙ rw same refl)

insert-IsServed :
    (p : RoundRobinPolicy) (k : Tid) (m : TaskMetadata) (queue : BTreeMap.BTreeMap TaskMetadata)
    → IsServed p queue
    → IsServed p (insert k m queue)
insert-IsServed p k m queue (tasks, idle) =
    (λ t h. insert-Present t k m queue (tasks t h), insert-Present p.idle_tid k m queue idle)

queued-append : (t : Tid) (xs ys : List Tid) → queued t (xs ++ ys) ≡ (queued t xs || queued t ys)
queued-append t [] ys = refl
queued-append t (x ∷ xs) ys = ground (arith, queued-append t xs ys)

queued-rotate_left : (t : Tid) (ts : List Tid) → queued t (rotate_left ts) ≡ queued t ts
unfolding rotate_left
queued-rotate_left t [] = refl
queued-rotate_left t (u ∷ ts) = ground (arith, queued-append t ts (u ∷ []))

-- The policy gives one of its tasks or the idle one, and keeps the same tasks.
next-IsServed :
    (states : States) (p : RoundRobinPolicy) (queue : BTreeMap.BTreeMap TaskMetadata)
    → IsServed p queue
    → (p' : RoundRobinPolicy) × (t : Tid) × (next p states ≡ (p', t))
      × IsServed p' queue
      × Present t queue
next-IsServed states p queue (tasks, idle) = elim (next_lem states p) [
  | inl (asleep, e) ↦ (p, p.idle_tid, e, (tasks, idle), idle)
  | inr (us, t, vs, order, asleep, awake, e) ↦
      let inside : queued t p.tasks ≡ true =
        sym (queued-rotate_left t p.tasks)
        ∙ ap (queued t) order
        ∙ ground (arith, queued-append t us (t ∷ vs)) in
      (
        record { tasks = t ∷ (vs ++ us); idle_tid = p.idle_tid },
        t,
        e,
        (λ u h. tasks u (back us t vs order u h), idle),
        tasks t inside,
      )
]
  where
    back :
        (us : List Tid) (t : Tid) (vs : List Tid)
        → rotate_left p.tasks ≡ us ++ t ∷ vs
        → (u : Tid) → queued u (t ∷ (vs ++ us)) ≡ true
        → queued u p.tasks ≡ true
    back us t vs order u h =
        sym (queued-rotate_left u p.tasks)
        ∙ ap (queued u) order
        ∙ ground (arith, queued-append u us (t ∷ vs), queued-append u vs us)

-- When the policy's tasks, its idle task and the current task are in the run queue, `schedule` does
-- not panic, and this holds again of the queue that it leaves and the task that it gives.
pub schedule-IsServed :
    (k : Kernel) (current : Tid) (now later : ℕ)
    → IsServed k.inner.policy k.inner.run_queue
    → Present current k.inner.run_queue
    → (k' : Kernel) × (t : Tid) × (schedule k current now later ≡ some (k', t))
      × IsServed k'.inner.policy k'.inner.run_queue
      × Present t k'.inner.run_queue
unfolding schedule switch_to
schedule-IsServed k current now later served (m, here) =
    let charged = insert current (charge now m) k.inner.run_queue in
    given (
      next-IsServed k.states k.inner.policy charged
        (insert-IsServed k.inner.policy current (charge now m) k.inner.run_queue served))
  where
    given :
        (p' : RoundRobinPolicy) × (t : Tid) × (next k.inner.policy k.states ≡ (p', t))
          × IsServed p' (insert current (charge now m) k.inner.run_queue)
          × Present t (insert current (charge now m) k.inner.run_queue)
        → (k' : Kernel) × (t : Tid) × (schedule k current now later ≡ some (k', t))
          × IsServed k'.inner.policy k'.inner.run_queue
          × Present t k'.inner.run_queue
    given (p', t, run, served, (m', there)) =
        let charged = insert current (charge now m) k.inner.run_queue in
        let first_part : schedule k current now later
            ≡ switch_to k current later charged (next k.inner.policy k.states) =
          rw (schedule, here) refl in
        elim (Bool-cases (t == current)) [
          | inl same ↦ (
            record {
              states = k.states;
              tasks = k.tasks;
              inner = record { policy = p'; run_queue = charged };
            },
            t,
            first_part
                ∙ ap (switch_to k current later charged) run
                ∙ rw (switch_to, there, same) refl,
            served,
            (m', there),
          )
          | inr other ↦ (
            record {
              states = k.states;
              tasks = k.tasks;
              inner = record { policy = p'; run_queue = stamp t later m' charged };
            },
            t,
            first_part
                ∙ ap (switch_to k current later charged) run
                ∙ rw (switch_to, there, other) refl,
            insert-IsServed p' t (record m' { last_scheduled_at = later }) charged served,
            Present-inserted t (record m' { last_scheduled_at = later }) charged,
          )
        ]

-- `enqueue` puts the new task behind the others and keeps what `schedule` needs; it panics only when
-- the identifiers are used up.
pub enqueue-IsServed :
    (k : Kernel) (state : TaskState)
    → IsServed k.inner.policy k.inner.run_queue
    → ((k.tasks.next_id ≡ 0) × (enqueue k state ≡ none))
      ⊎ ((k' : Kernel) × (enqueue k state ≡ some (k', k.tasks.next_id))
          × (k'.inner.policy.tasks ≡ k.inner.policy.tasks ++ k.tasks.next_id ∷ [])
          × IsServed k'.inner.policy k'.inner.run_queue)
unfolding enqueue insert_with task_enqueued
enqueue-IsServed k state (tasks, idle) = elim (Bool-cases (k.tasks.next_id == 0)) [
  | inl used ↦ inl (ground arith, rw (enqueue, insert_with, used) refl)
  | inr left ↦ inr (
    record {
      states = set_state k.tasks.next_id state k.states;
      tasks = record {
        map = insert k.tasks.next_id k.tasks.next_id k.tasks.map;
        next_id = (k.tasks.next_id + 1) % 2 ^ 64;
      };
      inner = record {
        policy = task_enqueued k.inner.policy k.tasks.next_id;
        run_queue = insert k.tasks.next_id new_metadata k.inner.run_queue;
      };
    },
    rw (enqueue, insert_with, left) refl,
    refl,
    (
      λ t h. among t h,
      insert-Present k.inner.policy.idle_tid k.tasks.next_id new_metadata k.inner.run_queue idle,
    ),
  )
]
  where
    among :
        (t : Tid)
        → queued t (k.inner.policy.tasks ++ k.tasks.next_id ∷ []) ≡ true
        → Present t (insert k.tasks.next_id new_metadata k.inner.run_queue)
    among t h = elim (Bool-cases (queued t k.inner.policy.tasks)) [
      | inl old ↦ insert-Present t k.tasks.next_id new_metadata k.inner.run_queue (tasks t old)
      | inr fresh ↦
          let same : t ≡ k.tasks.next_id =
            ground (arith, queued-append t k.inner.policy.tasks (k.tasks.next_id ∷ [])) in
          subst (λ i. Present i (insert k.tasks.next_id new_metadata k.inner.run_queue)) (sym same)
            (Present-inserted k.tasks.next_id new_metadata k.inner.run_queue)
    ]

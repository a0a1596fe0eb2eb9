-- ===== src/Scheduler/Tests.antt =====
-- Runs of the scheduler (src/kernel/vanadinite/src/scheduler).
use vanadinite.Prelude.{
  ◌≡◌, ◌⊎◌, refl, true, some, List, [], ◌∷◌, ◌++◌, ◌==◌, if◌then◌else◌, arith, length,
}
use vanadinite.BTreeMap.{get, insert}
use vanadinite.Scheduler.{new_metadata, Kernel, schedule, enqueue, begin_scheduling, insert_with}
use vanadinite.Scheduler.RoundRobin.{
  Tid, ready, blocked, States, is_ready, RoundRobinPolicy, new, next, rotate_left, next_loop,
  ready_front, task_enqueued, idle_task,
}
use vanadinite.Scheduler.RoundRobin.Turns.{NoneReady, next_lem}
use vanadinite.Scheduler.RoundRobin.Fairness.{queued, gets_turn, next-fair}
use vanadinite.Scheduler.Queues.{IsServed, Present, schedule-IsServed}

-- Task 2 is blocked.
abbrev states : States
states = λ t. if t == 2 then blocked else ready

abbrev policy : RoundRobinPolicy
policy = record { tasks = 1 ∷ 2 ∷ 3 ∷ []; idle_tid = 1 }

abbrev kernel : Kernel
kernel = record {
  states = states;
  tasks = record { map = (1, 1) ∷ (2, 2) ∷ (3, 3) ∷ []; next_id = 4 };
  inner = record {
    policy = policy;
    run_queue = (1, new_metadata) ∷ (2, new_metadata) ∷ (3, new_metadata) ∷ [];
  };
}

abbrev empty_kernel : Kernel
empty_kernel = record {
  states = λ t. ready;
  tasks = record { map = []; next_id = 1 };
  inner = record { policy = new; run_queue = [] };
}

-- The first task of a hart is its idle task.
starting : (k : Kernel) × (begin_scheduling empty_kernel ≡ some (k, 1))
unfolding begin_scheduling enqueue insert_with insert get task_enqueued idle_task next next_loop
    ready_front rotate_left
starting = (_, refl)

skipping_blocked : next policy states ≡ (record policy { tasks = 3 ∷ 1 ∷ 2 ∷ [] }, 3)
unfolding next next_loop ready_front rotate_left
skipping_blocked = refl

next_lem_example :
    (NoneReady states policy.tasks × (next policy states ≡ (policy, policy.idle_tid)))
    ⊎ ((us : List Tid) × (t : Tid) × (vs : List Tid) × (rotate_left policy.tasks ≡ us ++ t ∷ vs)
        × NoneReady states us
        × (is_ready (states t) ≡ true)
        × (next policy states ≡ (record { tasks = t ∷ (vs ++ us); idle_tid = policy.idle_tid }, t)))
next_lem_example = next_lem states policy

next-fair_example : gets_turn (length policy.tasks) (λ i. states) policy 3 ≡ true
next-fair_example = next-fair (λ i. states) policy 3 refl (λ i. refl)

kernel-IsServed : IsServed kernel.inner.policy kernel.inner.run_queue
unfolding get
kernel-IsServed = (all, (new_metadata, refl))
  where
    all : (t : Tid) → queued t kernel.inner.policy.tasks ≡ true → Present t kernel.inner.run_queue
    all t h = (new_metadata, ground arith)

kernel-Present : Present 1 kernel.inner.run_queue
unfolding get
kernel-Present = (new_metadata, refl)

schedule-IsServed_example :
    (k : Kernel) × (t : Tid) × (schedule kernel 1 100 110 ≡ some (k, t))
    × IsServed k.inner.policy k.inner.run_queue
    × Present t k.inner.run_queue
schedule-IsServed_example = schedule-IsServed kernel 1 100 110 kernel-IsServed kernel-Present

-- ===== src/Scheduler.antt =====
-- The scheduler of one hart: src/kernel/vanadinite/src/scheduler/mod.rs. A shared task (`Arc<Task>`) is
-- named by its `Tid`; the states of all tasks are a function. The switch of the registers, and the page
-- table that goes with it, are left out: what a call gives is the task that runs next.
pub mod Queues
pub mod RoundRobin
mod Tests
pub mod WaitQueue
use vanadinite.Prelude.{
  ℕ, suc, ◌+◌, ◌-◌, ◌%◌, ◌^◌, Bool, true, false, Option, none, some, List, [], ◌∷◌, ◌==◌,
  if◌then◌else◌,
}
use vanadinite.BTreeMap
use vanadinite.BTreeMap.{get, insert, remove}
use vanadinite.Scheduler.RoundRobin.{
  Tid, TaskState, ready, States, RoundRobinPolicy, next, task_enqueued, idle_task,
}

pub record TaskMetadata : Type 0 where
  pub priority : ℕ
  pub run_time : ℕ
  pub last_scheduled_at : ℕ
  pub run_state : TaskState

-- `TaskMetadata::new`
abbrev pub new_metadata : TaskMetadata
new_metadata = record { priority = 1; run_time = 0; last_scheduled_at = 0; run_state = ready }

-- `TaskList`, and the states that its tasks keep.
pub record TaskList : Type 0 where
  pub map : BTreeMap.BTreeMap Tid
  pub next_id : ℕ

pub record SchedulerInner : Type 0 where
  pub policy : RoundRobinPolicy
  pub run_queue : BTreeMap.BTreeMap TaskMetadata

pub record Kernel : Type 0 where
  pub states : States
  pub tasks : TaskList
  pub inner : SchedulerInner

-- `TaskList::insert_with`; no result is the panic on an identifier of 0.
unfoldable pub insert_with : TaskList → Option (Tid × TaskList)
unfolding insert
insert_with self =
    if self.next_id == 0
    then none
    else some (
      self.next_id,
      record {
        map = insert self.next_id self.next_id self.map;
        next_id = (self.next_id + 1) % 2 ^ 64;
      },
    )

-- `TaskList::remove`
unfoldable pub remove_task : TaskList → Tid → TaskList × Option Tid
unfolding remove get
remove_task self tid = (record self { map = remove tid self.map }, get tid self.map)

-- `TaskList::get`
unfoldable pub get_task : TaskList → Tid → Option Tid
unfolding get
get_task self tid = get tid self.map

abbrev pub set_state : Tid → TaskState → States → States
set_state tid state states = λ t. if t == tid then state else states t

-- `enqueue_with`, of a task that starts in `state`; `enqueue` is the same.
unfoldable pub enqueue : Kernel → TaskState → Option (Kernel × Tid)
unfolding insert_with insert task_enqueued
enqueue self state = elim (insert_with self.tasks) [
  | none ↦ none
  | some (tid, tasks) ↦ some (
    record {
      states = set_state tid state self.states;
      tasks = tasks;
      inner = record {
        policy = task_enqueued self.inner.policy tid;
        run_queue = insert tid new_metadata self.inner.run_queue;
      };
    },
    tid,
  )
]

-- The time that a task has run, in 64 bits.
abbrev pub charge : ℕ → TaskMetadata → TaskMetadata
charge now m = record m {
  run_time = (m.run_time + (now + 2 ^ 64 - m.last_scheduled_at) % 2 ^ 64) % 2 ^ 64;
}

abbrev pub stamp :
    Tid → ℕ → TaskMetadata → BTreeMap.BTreeMap TaskMetadata → BTreeMap.BTreeMap TaskMetadata
stamp tid now m queue = insert tid (record m { last_scheduled_at = now }) queue

-- The switch of `schedule` to the task that the policy gives.
unfoldable pub switch_to :
    Kernel
    → Tid
    → ℕ
    → BTreeMap.BTreeMap TaskMetadata
    → RoundRobinPolicy × Tid
    → Option (Kernel × Tid)
switch_to self current later charged (policy, tid) = elim (get tid charged) [
  | none ↦ none
  | some m ↦
      let queue = if tid == current then charged else stamp tid later m charged in
      some (record self { inner = record { policy = policy; run_queue = queue } }, tid)
]

-- `schedule`: the task that runs next. The clock is read for the task that stops, and then for the one
-- that starts; no result is the panic on a task that is not in the run queue.
unfoldable pub schedule : Kernel → Tid → ℕ → ℕ → Option (Kernel × Tid)
schedule self current now later = elim (get current self.inner.run_queue) [
  | none ↦ none
  | some metadata ↦
      switch_to self current later (insert current (charge now metadata) self.inner.run_queue)
        (next self.inner.policy self.states)
]

-- `begin_scheduling`, up to the first switch.
unfoldable pub begin_scheduling : Kernel → Option (Kernel × Tid)
unfolding enqueue idle_task
begin_scheduling self = elim (enqueue self ready) [
  | none ↦ none
  | some (k, idle_tid) ↦
      let (policy, tid) = next (idle_task k.inner.policy idle_tid) k.states in
      elim (get tid k.inner.run_queue) [
        | none ↦ none
        | some _ ↦ some (record k { inner = record k.inner { policy = policy } }, tid)
      ]
]

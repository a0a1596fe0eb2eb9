-- ===== src/Scheduler/RoundRobin.antt =====
-- `RoundRobinPolicy`: src/kernel/vanadinite/src/scheduler/round_robin.rs.
pub mod Fairness
pub mod Turns
use vanadinite.Prelude.{
  ℕ, zero, suc, ◌-◌, ◌^◌, Bool, true, false, Option, none, some, List, [], ◌∷◌, ◌++◌, ◌==◌,
  if◌then◌else◌, length,
}

abbrev pub Tid : Type 0
Tid = ℕ

pub data TaskState : Type 0 where
  blocked dead ready running : TaskState

abbrev pub States : Type 0
States = Tid → TaskState

abbrev pub is_ready : TaskState → Bool
is_ready ready = true
is_ready _ = false

pub record RoundRobinPolicy : Type 0 where
  pub tasks : List Tid
  pub idle_tid : Tid

abbrev pub new : RoundRobinPolicy
new = record { tasks = []; idle_tid = 2 ^ 64 - 1 }

-- `VecDeque::rotate_left(1)`
unfoldable pub rotate_left : List Tid → List Tid
rotate_left [] = []
rotate_left (t ∷ ts) = ts ++ t ∷ []

-- The front task, if it is ready.
unfoldable pub ready_front : States → List Tid → Option Tid
ready_front states [] = none
ready_front states (t ∷ ts) = if is_ready (states t) then some t else none

-- The loop of `next`: the queue, and the task that is ready.
unfoldable pub next_loop : ℕ → States → List Tid → List Tid × Option Tid
unfolding rotate_left ready_front
next_loop zero states tasks = (tasks, none)
next_loop (suc n) states tasks =
    let later = next_loop n states (rotate_left tasks) in
    elim (ready_front states (rotate_left tasks)) [
      | some t ↦ (rotate_left tasks, some t)
      | none ↦ later
    ]

unfoldable pub next : RoundRobinPolicy → States → RoundRobinPolicy × Tid
unfolding next_loop
next self states =
    let (tasks, found) = next_loop (length self.tasks) states self.tasks in
    (record self { tasks = tasks }, elim found [ none ↦ self.idle_tid | some t ↦ t ])

unfoldable pub task_enqueued : RoundRobinPolicy → Tid → RoundRobinPolicy
task_enqueued self tid = record self { tasks = self.tasks ++ tid ∷ [] }

-- The queue without the first task of that name; `none` if there is none.
unfoldable pub remove_first : Tid → List Tid → Option (List Tid)
remove_first tid [] = none
remove_first tid (t ∷ ts) =
    let rest = remove_first tid ts in
    if t == tid then some ts else elim rest [ none ↦ none | some r ↦ some (t ∷ r) ]

-- No result is the panic on a task that the policy does not have.
unfoldable pub task_dequeued : RoundRobinPolicy → Tid → Option RoundRobinPolicy
unfolding remove_first
task_dequeued self tid = elim (remove_first tid self.tasks) [
  | none ↦ none
  | some tasks ↦ some (record self { tasks = tasks })
]

unfoldable pub idle_task : RoundRobinPolicy → Tid → RoundRobinPolicy
idle_task self tid = record self { idle_tid = tid }

-- ===== src/Scheduler/WaitQueue.antt =====
-- `WaitQueue`: src/kernel/vanadinite/src/scheduler/waitqueue.rs. The queue, and the states of the tasks
-- that it changes.
use vanadinite.Prelude.{
  Bool, false, ◌||◌, ◌≡◌, refl, List, [], ◌∷◌, ◌++◌, ◌==◌, if◌then◌else◌, arith,
}
use vanadinite.Scheduler.RoundRobin.{Tid, TaskState, ready, blocked, States}

pub record Waiting : Type 0 where
  pub queue : List Tid
  pub states : States

abbrev write_state : Tid → TaskState → States → States
write_state tid state states = λ t. if t == tid then state else states t

-- `wait`, up to the call of `schedule`; the closure that it runs is the caller's.
unfoldable pub wait : Waiting → Tid → Waiting
wait self task = record {
  queue = self.queue ++ task ∷ [];
  states = write_state task blocked self.states;
}

unfoldable pub wake_one : Waiting → Waiting
wake_one self = by_queue self.queue
  where
    by_queue : List Tid → Waiting
    by_queue [] = self
    by_queue (t ∷ ts) = record { queue = ts; states = write_state t ready self.states }

unfoldable pub wake_states : List Tid → States → States
wake_states [] states = states
wake_states (t ∷ ts) states = wake_states ts (write_state t ready states)

unfoldable pub wake_all : Waiting → Waiting
unfolding wake_states
wake_all self = record { queue = []; states = wake_states self.queue self.states }

abbrev pub waits : Tid → List Tid → Bool
waits t [] = false
waits t (q ∷ qs) = (t == q) || waits t qs

wake_states_lem :
    (qs : List Tid) (states : States) (t : Tid)
    → wake_states qs states t ≡ (if waits t qs then ready else states t)
unfolding wake_states
wake_states_lem [] states t = refl
wake_states_lem (q ∷ qs) states t =
    ground (arith, wake_states_lem qs (write_state q ready states) t)

-- `wake_all` makes the waiting tasks ready, leaves the others as they are, and empties the queue.
pub wake_all_lem :
    (w : Waiting)
    → ((wake_all w).queue ≡ [])
      × ((t : Tid) → (wake_all w).states t ≡ (if waits t w.queue then ready else w.states t))
unfolding wake_all
wake_all_lem w = (refl, λ t. wake_states_lem w.queue w.states t)

-- ===== src/Channel.antt =====
-- Channels between tasks: src/kernel/vanadinite/src/syscall/channel.rs. A message queue, its flag and
-- its wait queue are made together and shared; the three have one number here.
pub mod Order
mod Tests
use vanadinite.Prelude.{
  ℕ, zero, suc, ◌+◌, ◌-◌, ◌^◌, Bool, true, false, ◌||◌, Option, none, some, List, [], ◌∷◌, ◌++◌,
  ◌==◌, if◌then◌else◌,
}
use vanadinite.Scheduler.{set_state}
use vanadinite.Scheduler.RoundRobin.{Tid, TaskState, ready, blocked, States}

-- The data is the seven words of the message.
pub record ChannelMessage (Cap : Type 0) : Type 0 where
  pub data_words : List ℕ
  pub caps : List Cap

pub record Sender : Type 0 where
  pub inner : ℕ
  pub other_tid : Option Tid
  pub other_cptr : ℕ

pub record UserspaceChannel : Type 0 where
  pub sender : Sender
  pub receiver : ℕ

pub record MessageQueue (Cap : Type 0) : Type 0 where
  pub messages : List (ChannelMessage Cap)
  pub alive : Bool
  pub waiting : List Tid

-- What `send` reads of a task.
pub record TaskEvents : Type 0 where
  pub subscribes_to_events : Bool
  pub kernel_channel : UserspaceChannel

pub record Channels (Cap : Type 0) : Type 0 where
  pub queues : ℕ → MessageQueue Cap
  pub tasks : Tid → Option TaskEvents
  pub states : States

pub data Sent (Cap : Type 0) : Type 0 where
  sent : Channels Cap → Sent Cap
  returned : ChannelMessage Cap → Channels Cap → Sent Cap
  deadlock : Sent Cap
  out_of_fuel : Sent Cap

pub data Received (Cap : Type 0) : Type 0 where
  received : ChannelMessage Cap → Channels Cap → Received Cap
  nothing : Received Cap
  broken : Received Cap

-- `KernelMessage::into_parts`
pub data KernelMessage : Type 0 where
  interrupt_occurred : ℕ → KernelMessage
  new_channel_message : ℕ → KernelMessage

unfoldable pub into_parts : KernelMessage → List ℕ
into_parts (interrupt_occurred n) = 0 ∷ n ∷ 0 ∷ 0 ∷ 0 ∷ 0 ∷ 0 ∷ []
into_parts (new_channel_message cptr) = 1 ∷ cptr ∷ 0 ∷ 0 ∷ 0 ∷ 0 ∷ 0 ∷ []

-- `KernelMessage::construct`; no result is the panic on another message.
unfoldable pub construct : List ℕ → Option KernelMessage
construct (kind ∷ n ∷ rest) =
    if kind == 0
    then some (interrupt_occurred n)
    else if kind == 1
    then some (new_channel_message n)
    else none
construct _ = none

-- `UserspaceChannel::new`, with the two queues that it makes.
unfoldable pub new : ℕ → ℕ → UserspaceChannel × UserspaceChannel
new queue1 queue2 = (
  record {
    sender = record { inner = queue1; other_tid = none; other_cptr = 2 ^ 64 - 1 };
    receiver = queue2;
  },
  record {
    sender = record { inner = queue2; other_tid = none; other_cptr = 2 ^ 64 - 1 };
    receiver = queue1;
  },
)

abbrev pub locked : ℕ → List ℕ → Bool
locked q [] = false
locked q (h ∷ held) = (q == h) || locked q held

module _ {Cap : Type 0} where
  abbrev pub set_queue : ℕ → MessageQueue Cap → Channels Cap → Channels Cap
  set_queue q to w = record w { queues = λ i. if i == q then to else w.queues i }

  -- `lock.push_back(message)` and `wake_one`
  unfoldable pub deliver : Channels Cap → ℕ → ChannelMessage Cap → Channels Cap
  deliver w q message = by_waiting (w.queues q).waiting
    where
      after : List Tid → Channels Cap
      after waiting =
          set_queue q
            (record {
              messages = (w.queues q).messages ++ message ∷ [];
              alive = (w.queues q).alive;
              waiting = waiting;
            })
            w

      by_waiting : List Tid → Channels Cap
      by_waiting [] = after []
      by_waiting (t ∷ ts) = record (after ts) { states = set_state t ready w.states }

  -- The sender of the kernel channel of the other task, if it wants to know of messages.
  unfoldable pub listener : Channels Cap → Sender → Option Sender
  listener w self = elim self.other_tid [
    | none ↦ none
    | some tid ↦ elim (w.tasks tid) [
      | none ↦ none
      | some task ↦ if task.subscribes_to_events then some task.kernel_channel.sender else none
    ]
  ]

  -- `Sender::send`, with the queues that are locked around the call.
  unfoldable pub send : ℕ → List ℕ → Channels Cap → Sender → ChannelMessage Cap → Sent Cap
  unfolding listener deliver into_parts
  send zero held w self message = out_of_fuel
  send (suc fuel) held w self message =
      let notify = λ (kernel : Sender).
        send fuel (self.inner ∷ held) w kernel
          (record { data_words = into_parts (new_channel_message self.other_cptr); caps = [] }) in
      elim (w.queues self.inner).alive [
        | false ↦ returned message w
        | true ↦ if locked self.inner held then deadlock else elim (listener w self) [
          | none ↦ sent (deliver w self.inner message)
          | some kernel ↦ elim (notify kernel) [
            | sent w' ↦ sent (deliver w' self.inner message)
            | returned m w' ↦ returned m w'
            | deadlock ↦ deadlock
            | out_of_fuel ↦ out_of_fuel
          ]
        ]
      ]

  abbrev pub take : Channels Cap → ℕ → Option (ChannelMessage Cap × Channels Cap)
  take w q = by_messages (w.queues q).messages
    where
      by_messages : List (ChannelMessage Cap) → Option (ChannelMessage Cap × Channels Cap)
      by_messages [] = none
      by_messages (m ∷ ms) = some (
        m,
        set_queue q
            (record { messages = ms; alive = (w.queues q).alive; waiting = (w.queues q).waiting })
            w,
      )

  -- `Receiver::try_recv`
  unfoldable pub try_recv : Channels Cap → ℕ → Received Cap
  try_recv w q = elim (take w q) [
    | some (m, w') ↦ received m w'
    | none ↦ if (w.queues q).alive then nothing else broken
  ]

  -- One round of `Receiver::recv` in the task `me`: the message, or the state in which it waits.
  unfoldable pub recv_round : Channels Cap → ℕ → Tid → Option (ChannelMessage Cap) × Channels Cap
  recv_round w q me = elim (take w q) [
    | some (m, w') ↦ (some m, w')
    | none ↦ (
      none,
      record (set_queue q
          (record {
            messages = (w.queues q).messages;
            alive = (w.queues q).alive;
            waiting = (w.queues q).waiting ++ me ∷ [];
          })
          w) { states = set_state me blocked w.states },
    )
  ]

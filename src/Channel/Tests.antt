-- ===== src/Channel/Tests.antt =====
-- Runs of a channel (src/kernel/vanadinite/src/syscall/channel.rs).
use vanadinite.Prelude.{ℕ, ◌≡◌, ◌++◌, refl, true, none, some, [], ◌∷◌, ◌==◌, if◌then◌else◌, length}
use vanadinite.Scheduler.RoundRobin.{ready}
use vanadinite.Channel.{ChannelMessage, Sender, Channels, sent, send, listener, deliver, into_parts}
use vanadinite.Channel.Order.{send_all, recv_all, channel-fifo}

abbrev message : ℕ → ChannelMessage ℕ
message n = record { data_words = n ∷ 0 ∷ 0 ∷ 0 ∷ 0 ∷ 0 ∷ 0 ∷ []; caps = [] }

-- Task 9 asks for notices on queue 5. Task 2 waits on queue 1.
abbrev channels : Channels ℕ
channels = record {
  queues = λ i. record { messages = []; alive = true; waiting = if i == 1 then 2 ∷ [] else [] };
  tasks = λ t.
      if t == 9
      then some (record {
        subscribes_to_events = true;
        kernel_channel = record {
          sender = record { inner = 5; other_tid = none; other_cptr = 0 };
          receiver = 6;
        };
      })
      else none;
  states = λ t. ready;
}

abbrev quiet : Sender
quiet = record { inner = 1; other_tid = none; other_cptr = 0 }

abbrev heard : Sender
heard = record { inner = 1; other_tid = some 9; other_cptr = 7 }

-- A message to a task that asks for notices puts the notice into its kernel channel.
noticing :
    (w : Channels ℕ) × (send 2 [] channels heard (message 4) ≡ sent w)
    × ((w.queues 5).messages
        ≡ record { data_words = 1 ∷ 7 ∷ 0 ∷ 0 ∷ 0 ∷ 0 ∷ 0 ∷ []; caps = [] } ∷ [])
    × ((w.queues 1).messages ≡ message 4 ∷ [])
unfolding send listener deliver into_parts
noticing = (_, refl, refl, refl)

channel-fifo_example :
    (w : Channels ℕ) × (send_all channels quiet (message 4 ∷ message 5 ∷ []) ≡ some w)
    × (recv_all (length ((channels.queues 1).messages ++ message 4 ∷ message 5 ∷ [])) w 1
        ≡ (channels.queues 1).messages ++ message 4 ∷ message 5 ∷ [])
unfolding listener
channel-fifo_example = channel-fifo (message 4 ∷ message 5 ∷ []) channels quiet refl refl

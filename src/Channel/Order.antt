-- ===== src/Channel/Order.antt =====
-- Messages come out of a channel in the order in which they went in
-- (src/kernel/vanadinite/src/syscall/channel.rs).
use mathlib.Core.Path.{subst}
use vanadinite.Prelude.{
  ℕ, zero, suc, ◌≡◌, refl, sym, ap, ◌∙◌, true, false, Option, none, some, List, [], ◌∷◌, ◌++◌, ◌==◌,
  arith, length,
}
use vanadinite.Scheduler.RoundRobin.{Tid}
use vanadinite.Channel.{
  ChannelMessage, Sender, TaskEvents, Channels, sent, returned, deadlock, out_of_fuel, received,
  nothing, broken, set_queue, deliver, listener, send, try_recv, KernelMessage, interrupt_occurred,
  new_channel_message, into_parts, construct,
}

-- A message of the kernel is read back as it was.
pub construct-into_parts : (m : KernelMessage) → construct (into_parts m) ≡ some m
unfolding construct into_parts
construct-into_parts (interrupt_occurred n) = refl
construct-into_parts (new_channel_message cptr) = refl

module _ {Cap : Type 0} where
  -- What a delivery leaves: the message behind the others, and the rest of the channels as they were.
  abbrev pub Delivered : Channels Cap → Channels Cap → ℕ → ChannelMessage Cap → Type 0
  Delivered w w' q m =
      ((w'.queues q).messages ≡ (w.queues q).messages ++ m ∷ [])
      × ((w'.queues q).alive ≡ (w.queues q).alive)
      × (w'.tasks ≡ w.tasks)

  deliver-Delivered :
      (w : Channels Cap) (q : ℕ) (m : ChannelMessage Cap) → Delivered w (deliver w q m) q m
  unfolding deliver
  deliver-Delivered w q m = by_waiting (w.queues q).waiting refl
    where
      by_waiting : (ts : List Tid) → (w.queues q).waiting ≡ ts → Delivered w (deliver w q m) q m
      by_waiting [] e =
          let same : (q == q) ≡ true = ground arith in
          (rw (deliver, e, same) refl, rw (deliver, e, same) refl, rw (deliver, e) refl)
      by_waiting (t ∷ ts) e =
          let same : (q == q) ≡ true = ground arith in
          (rw (deliver, e, same) refl, rw (deliver, e, same) refl, rw (deliver, e) refl)

  send_quiet :
      (fuel : ℕ) (w : Channels Cap) (self : Sender) (m : ChannelMessage Cap)
      → (w.queues self.inner).alive ≡ true
      → listener w self ≡ none
      → send (suc fuel) [] w self m ≡ sent (deliver w self.inner m)
  unfolding send
  send_quiet fuel w self m live quiet = rw (send, live, quiet) refl

  -- The messages are sent one after the other; none if one of them is not sent.
  unfoldable pub send_all :
      Channels Cap → Sender → List (ChannelMessage Cap) → Option (Channels Cap)
  unfolding send
  send_all w self [] = some w
  send_all w self (m ∷ ms) = elim (send 1 [] w self m) [
    | sent w' ↦ send_all w' self ms
    | returned _ _ ↦ none
    | deadlock ↦ none
    | out_of_fuel ↦ none
  ]

  -- The messages of `n` calls of `try_recv`, up to the first that gives none.
  unfoldable pub recv_all : ℕ → Channels Cap → ℕ → List (ChannelMessage Cap)
  unfolding try_recv
  recv_all zero w q = []
  recv_all (suc n) w q = elim (try_recv w q) [
    | received m w' ↦ m ∷ recv_all n w' q
    | nothing ↦ []
    | broken ↦ []
  ]

  recv_all_lem :
      (ms : List (ChannelMessage Cap)) (w : Channels Cap) (q : ℕ)
      → (w.queues q).messages ≡ ms
      → recv_all (length ms) w q ≡ ms
  unfolding recv_all try_recv
  recv_all_lem [] w q e = refl
  recv_all_lem (m ∷ ms) w q e =
      let same : (q == q) ≡ true = ground arith in
      let w' =
        set_queue q
          (record { messages = ms; alive = (w.queues q).alive; waiting = (w.queues q).waiting })
          w in
      rw (recv_all, try_recv, e)
        (ap (λ (l : List (ChannelMessage Cap)). m ∷ l) (recv_all_lem ms w' q (rw same refl)))

  snoc_append :
      (xs ys : List (ChannelMessage Cap)) (x : ChannelMessage Cap)
      → (xs ++ x ∷ []) ++ ys ≡ xs ++ x ∷ ys
  snoc_append [] ys x = refl
  snoc_append (y ∷ xs) ys x = ap (λ l. y ∷ l) (snoc_append xs ys x)

  listener_of_tasks :
      (w w' : Channels Cap) (self : Sender)
      → w'.tasks ≡ w.tasks
      → listener w self ≡ none
      → listener w' self ≡ none
  unfolding listener
  listener_of_tasks w w' self same quiet =
      ap (λ (tasks : Tid → Option TaskEvents). listener (record w { tasks = tasks }) self) same
      ∙ quiet

  -- On a live channel whose other side does not ask for notices, sending any messages succeeds, and
  -- receiving then gives the messages that were waiting and these, in the order of the sends.
  pub channel-fifo :
      (ms : List (ChannelMessage Cap)) (w : Channels Cap) (self : Sender)
      → (w.queues self.inner).alive ≡ true
      → listener w self ≡ none
      → (w' : Channels Cap) × (send_all w self ms ≡ some w')
        × (recv_all (length ((w.queues self.inner).messages ++ ms)) w' self.inner
            ≡ (w.queues self.inner).messages ++ ms)
  unfolding send_all
  channel-fifo [] w self live quiet = (
    w,
    refl,
    recv_all_lem ((w.queues self.inner).messages ++ []) w self.inner
        (sym (append_nil (w.queues self.inner).messages)),
  )
    where
      append_nil : (xs : List (ChannelMessage Cap)) → xs ++ [] ≡ xs
      append_nil [] = refl
      append_nil (x ∷ xs) = ap (λ l. x ∷ l) (append_nil xs)
  channel-fifo (m ∷ ms) w self live quiet =
      let (added, same_alive, same_tasks) = deliver-Delivered w self.inner m in
      let w1 = deliver w self.inner m in
      let (w', run, got) =
        channel-fifo ms w1 self (same_alive ∙ live)
          (listener_of_tasks w w1 self same_tasks quiet) in
      let whole = ap (λ l. l ++ ms) added ∙ snoc_append (w.queues self.inner).messages ms m in
      (
        w',
        rw (send_all, send_quiet 0 w self m live quiet) run,
        subst (λ l. recv_all (length l) w' self.inner ≡ l) whole got,
      )

  -- Two rounds send a message and the notice of it, when the kernel channel notifies no one in turn.
  pub send_noticing :
      (w : Channels Cap) (self kernel : Sender) (m : ChannelMessage Cap)
      → (w.queues self.inner).alive ≡ true
      → listener w self ≡ some kernel
      → (w.queues kernel.inner).alive ≡ true
      → listener w kernel ≡ none
      → (kernel.inner == self.inner) ≡ false
      → send 2 [] w self m
        ≡ sent (
            deliver
              (deliver w kernel.inner (record {
                data_words = into_parts (new_channel_message self.other_cptr);
                caps = [];
              }))
              self.inner
              m)
  unfolding send
  send_noticing w self kernel m live hears live' quiet apart =
      rw (send, live, hears, live', apart, quiet) refl

-- ===== src/Examples/Overflow.antt =====
-- A full queue of broadcasts, and a connection that leaves before the goroutine sends to it.
use blahaj_chat_server.Common.{
  ◌≡◌, ℕ, zero, suc, refl, ◌∙◌, true, false, [], ◌∷◌, lookup, insert, arith, without, nat_eq,
}
use blahaj_chat_server.Bus.{ChatEvent}
use blahaj_chat_server.Ws.Hub.{
  new_hub, connect, add_client, remove_client, delete_from, unregister, send_one, Step,
}
use blahaj_chat_server.Ws.Hub.Overflow.{
  Sender, Busy, idle, enqueue, broadcast, handle_event, advance, advanced, of_hub, of_event,
  of_sender, BusySteps, start, after,
}
use blahaj_chat_server.Ws.Hub.Overflow.Panics.{Racing, BusyStep-Racing}

abbrev event : ChatEvent
event = record { msg_id = []; conv_id = []; targets = 4 ∷ []; frame = 9 ∷ [] }

abbrev fill : ℕ → Busy → Busy
fill zero b = b
fill (suc n) b = handle_event event (fill n b)

fill-crashed : (n : ℕ) (b : Busy) → (fill n b).hub.crashed ≡ b.hub.crashed
unfolding handle_event broadcast enqueue
fill-crashed zero b = refl
fill-crashed (suc n) b = ground (arith, fill-crashed n b)

fills : (n : ℕ) {b : Busy} → BusySteps idle b → b.hub.crashed ≡ false → BusySteps idle (fill n b)
fills zero steps runs = steps
fills (suc n) {b} steps runs = after (fills n steps runs) (of_event event (fill-crashed n b ∙ runs))

abbrev joined : Busy
joined = record idle { hub = add_client 0 (record (connect 4 new_hub) { register = [] }) }

waits : (connect 4 new_hub).register ≡ 0 ∷ []
unfolding connect
waits = refl

joins : BusySteps idle joined
unfolding connect add_client
joins =
    after (after start (of_hub refl (Step.connecting 4)))
      (of_hub refl (Step.run_register {c = 0} {more = []} waits))

joined_runs : joined.hub.crashed ≡ false
unfolding connect add_client lookup insert
joined_runs = refl

abbrev full : Busy
full = fill 257 joined

abbrev sender : Sender
sender = record { users = 4 ∷ []; copied = []; frame = 9 ∷ [] }

full_senders : full.senders ≡ sender ∷ []
unfolding handle_event broadcast enqueue connect add_client lookup insert
full_senders = refl

abbrev copying : Busy
copying = advanced [] sender [] full

abbrev late_sender : Sender
late_sender = record { users = []; copied = 0 ∷ []; frame = 9 ∷ [] }

copying_senders : copying.senders ≡ late_sender ∷ []
unfolding handle_event broadcast enqueue connect add_client lookup insert advance
copying_senders = refl

abbrev left : Busy
left = record copying { hub = unregister 0 copying.hub }

abbrev removed : Busy
removed = record left { hub = remove_client 0 (record left.hub { unregister = [] }) }

abbrev panicked : Busy
panicked = advanced [] late_sender [] removed

copying_runs : copying.hub.crashed ≡ false
unfolding advance
copying_runs = fill-crashed 257 joined ∙ joined_runs

left_runs : left.hub.crashed ≡ false
unfolding handle_event broadcast enqueue connect add_client lookup insert advance unregister
left_runs = refl

left_queue : left.hub.unregister ≡ 0 ∷ []
unfolding handle_event broadcast enqueue connect add_client lookup insert advance unregister
left_queue = refl

removed_runs : removed.hub.crashed ≡ false
unfolding handle_event broadcast enqueue connect add_client lookup insert advance unregister
    remove_client delete_from without
removed_runs = refl

panicked_crashed : panicked.hub.crashed ≡ true
unfolding handle_event broadcast enqueue connect add_client lookup insert advance unregister
    remove_client delete_from without send_one
panicked_crashed = refl

steps : BusySteps idle removed
steps =
    after
      (after
        (after (fills 257 joins joined_runs)
          (of_sender [] sender [] (fill-crashed 257 joined ∙ joined_runs) full_senders))
        (of_hub copying_runs (Step.leave 0)))
      (of_hub left_runs (Step.run_unregister {c = 0} {more = []} left_queue))

BusyStep-Racing_example : Racing removed panicked
BusyStep-Racing_example =
    BusyStep-Racing steps (of_sender [] late_sender [] removed_runs copying_senders)
      panicked_crashed

-- ===== src/Ws/Hub/Reach.antt =====
-- hub.go: what the next broadcast does to a connection, whatever has happened before.
use blahaj_chat_server.Common.{
  ◌<◌, ◌≡◌, ℕ, false, some, List, ◌∷◌, length, Distinct, lookup, nat_eq,
}
use blahaj_chat_server.Ws.Hub.{Client, Envelope, send_buf_size, send_to_users}
use blahaj_chat_server.Ws.Hub.Delivery.{received, send_to_users-received}
use blahaj_chat_server.Ws.Hub.Overflow.{Busy, idle, BusySteps}
use blahaj_chat_server.Ws.Hub.Overflow.Panics.{BusySteps-IsSane}
use blahaj_chat_server.Ws.Hub.Safety.{Same-queues}
use blahaj_chat_server.Ws.Hub.Sane.{IsSane-Same}
use blahaj_chat_server.Ws.Hub.Sets.{BusySteps-DistinctSets}

-- After any steps of a new hub, answers to clients and the goroutines of a full queue included, that have
-- not ended in a panic: when `Run` takes a broadcast to different users from the queue, and delivers it in
-- one step, a connection whose send channel has room gets the frame, once and as the last in its channel,
-- if it is registered and its user is among the targets; otherwise nothing about the connection changes.
pub run_broadcast-received :
    {b : Busy} (e : Envelope) (more : List Envelope) (c : ℕ) (k : Client)
    → BusySteps idle b
    → b.hub.crashed ≡ false
    → b.hub.broadcast ≡ e ∷ more
    → Distinct e.targets
    → lookup c b.hub.conns ≡ some k
    → length k.queue < send_buf_size
    → lookup c (send_to_users e.targets e.frame (record b.hub { broadcast = more })).conns
      ≡ some (received e.targets e.frame c k b.hub)
run_broadcast-received {b} e more c k steps runs q t at room =
    send_to_users-received e.targets e.frame c (record b.hub { broadcast = more }) k
      (IsSane-Same (BusySteps-IsSane steps runs)
        (Same-queues b.hub b.hub.unregister b.hub.leaving more))
      (BusySteps-DistinctSets steps tt) t at room

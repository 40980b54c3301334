-- ===== src/Ws/Hub/Safety.antt =====
-- hub.go: no send on a closed channel, as long as the queue of broadcasts has room.
use blahaj_chat_server.Common.{
  ℕ, ◌+◌, ◌≡◌, refl, sym, subst, Option, none, some, List, [], ◌∷◌, ◌++◌, contains, lookup, insert,
  nat_eq, arith, Bool-cases, inl, inr,
}
use blahaj_chat_server.Ws.Hub.{
  Client, Hub, Envelope, new_hub, set_of, delete_from, shut, remove_client, unregister, Step, Steps,
}
use blahaj_chat_server.Ws.Hub.Same.{Same, Same-take_frame, Same-send_raw}
use blahaj_chat_server.Ws.Hub.Sane.{IsSane, IsSane-Same, AllOpen-lookup, IsSane-send_to_users}
use blahaj_chat_server.Ws.Hub.Register.{IsSane-connect, IsSane-add_client}
use blahaj_chat_server.Ws.Hub.Removal.{AllOpen-delete_from, waiting-shut, still_free}

pub Same-queues :
    (h : Hub) (u l : List ℕ) (b : List Envelope)
    → Same h (record h { unregister = u; leaving = l; broadcast = b })
Same-queues h u l b = record {
  clients = refl;
  register = refl;
  next = refl;
  opens = λ uid x. refl;
  lives = λ x. refl;
  stays = λ x. refl;
  runs = refl;
}

IsSane-remove_client : (c : ℕ) (h : Hub) → IsSane h → IsSane (remove_client c h)
unfolding remove_client
IsSane-remove_client c h s = go (lookup c h.conns) refl
  where
    go : (o : Option Client) → lookup c h.conns ≡ o → IsSane (remove_client c h)
    go none i = rw (i, remove_client) s
    go (some k) i = elim (Bool-cases (contains (set_of (lookup k.user_id h.clients)) c)) [
      | inl e ↦
          let set = set_of (lookup k.user_id h.clients) in
          let removed : remove_client c h ≡ record h {
            clients = delete_from k.user_id set c h.clients;
            conns = insert c (shut k) h.conns;
          } =
            ground arith in
          subst IsSane (sym removed) (record {
            open_all =
                AllOpen-delete_from h.conns c k i set h.clients
                  (AllOpen-lookup h.conns k.user_id h.clients s.open_all) s.open_all;
            waiting = waiting-shut h.conns c k i h.clients h.register e s.waiting;
            once = s.once;
            fresh = λ n. still_free h.conns c k i (h.next + n) (s.fresh n);
            runs = s.runs;
          })
      | inr e ↦ let kept : remove_client c h ≡ h = ground arith in subst IsSane (sym kept) s
    ]

IsSane-unregister : (c : ℕ) (h : Hub) → IsSane h → IsSane (unregister c h)
unfolding unregister
IsSane-unregister c h s = go (lookup c h.conns) refl
  where
    queued : IsSane (record h { unregister = h.unregister ++ c ∷ [] })
    queued = IsSane-Same s (Same-queues h (h.unregister ++ c ∷ []) h.leaving h.broadcast)

    go : (o : Option Client) → lookup c h.conns ≡ o → IsSane (unregister c h)
    go none i = rw (i, unregister) s
    go (some k) i = elim (Bool-cases k.closed) [
      | inl e ↦ rw (i, unregister) (rw e s)
      | inr e ↦ rw (i, unregister) (rw e queued)
    ]

pub IsSane-Step : {h h' : Hub} → Step h h' → IsSane h → IsSane h'
IsSane-Step (Step.connecting uid {h}) s = IsSane-connect uid h s
IsSane-Step (Step.run_register {c} {more} {h} e) s = IsSane-add_client c more h e s
IsSane-Step (Step.run_unregister {c} {more} {h} e) s =
    IsSane-remove_client c (record h { unregister = more })
      (IsSane-Same s (Same-queues h more h.leaving h.broadcast))
IsSane-Step (Step.run_broadcast {e = b} {more} {h} q) s =
    IsSane-send_to_users b.targets b.frame (record h { broadcast = more })
      (IsSane-Same s (Same-queues h h.unregister h.leaving more))
IsSane-Step (Step.submit b {h} e) s =
    IsSane-Same s (Same-queues h h.unregister h.leaving (h.broadcast ++ b ∷ []))
IsSane-Step (Step.leave c {h}) s = IsSane-unregister c h s
IsSane-Step (Step.kick {c} {more} {h} e) s =
    IsSane-unregister c (record h { leaving = more })
      (IsSane-Same s (Same-queues h h.unregister more h.broadcast))
IsSane-Step (Step.write c {h}) s = IsSane-Same s (Same-take_frame c h)
IsSane-Step (Step.reply c frame {h}) s = IsSane-Same s (Same-send_raw c frame h)

Steps-keep : {h h' : Hub} → Steps h h' → IsSane h → IsSane h'
Steps-keep Steps.stop s = s
Steps-keep (Steps.more step rest) s = Steps-keep rest (IsSane-Step step s)

pub new_hub-IsSane : IsSane new_hub
unfolding lookup
new_hub-IsSane = record { open_all = tt; waiting = tt; once = tt; fresh = λ n. refl; runs = refl }

-- As long as the queue of broadcasts has room, no order of steps makes the hub send on a closed channel;
-- every registered connection is open and stands under its own user, and a connection that waits to be
-- registered is open, registered nowhere, and waits once.
pub Steps-IsSane : {h : Hub} → Steps new_hub h → IsSane h
Steps-IsSane steps = Steps-keep steps new_hub-IsSane

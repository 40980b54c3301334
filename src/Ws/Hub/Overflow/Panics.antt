-- ===== src/Ws/Hub/Overflow/Panics.antt =====
-- hub.go: the only send that may panic is one of a goroutine that `Broadcast` started.
use blahaj_chat_server.Common.{
  ◌≡◌, refl, sym, subst, ℕ, Bool, true, false, Option, none, some, List, [], ◌∷◌, ◌++◌, ◌⊎◌, inl,
  inr, Text, length, ltb, ◌||◌, ◌==◌, lookup, nat_eq, arith, Bool-cases,
}
use blahaj_chat_server.Bus.{ChatEvent}
use blahaj_chat_server.Ws.Hub.{Client, Hub, Envelope, broadcast_size, send_one}
use blahaj_chat_server.Ws.Hub.Same.{Same-send_one}
use blahaj_chat_server.Ws.Hub.Sane.{IsSane, IsSane-Same}
use blahaj_chat_server.Ws.Hub.Safety.{Same-queues, IsSane-Step, new_hub-IsSane}
use blahaj_chat_server.Ws.Hub.Overflow.{
  Sender, Busy, idle, enqueue, broadcast, handle_event, advance, advanced, BusyStep, of_hub,
  of_event, of_sender, BusySteps, start, after,
}

-- A send to a connection that has been closed.
abbrev pub IsLate : List ℕ → Hub → Type 0
IsLate [] h = ◌≡◌ {A = Bool} true false
IsLate (c ∷ cs) h = (k : Client) × (lookup c h.conns ≡ some k) × (k.closed ≡ true)

send_one-IsLate :
    (frame : Text) (c : ℕ) (cs : List ℕ) (h : Hub)
    → IsSane h
    → IsSane (send_one frame c h) ⊎ (IsLate (c ∷ cs) h × ((send_one frame c h).crashed ≡ true))
unfolding send_one
send_one-IsLate frame c cs h s = go (lookup c h.conns) refl
  where
    go :
        (o : Option Client)
        → lookup c h.conns ≡ o
        → IsSane (send_one frame c h) ⊎ (IsLate (c ∷ cs) h × ((send_one frame c h).crashed ≡ true))
    go none e = inl (rw (e, send_one) s)
    go (some k) e = elim (Bool-cases k.closed) [
      | inl i ↦ inr ((k, e, i), ground (arith, e, i))
      | inr i ↦ inl (IsSane-Same s (Same-send_one frame c h (ground (arith, e, i))))
    ]

advance-IsLate :
    (s : Sender) (h : Hub)
    → IsSane h
    → IsSane (advance s h).0 ⊎ (IsLate s.copied h × ((advance s h).0.crashed ≡ true))
unfolding advance
advance-IsLate s h w = at s.copied refl
  where
    at :
        (cs : List ℕ)
        → s.copied ≡ cs
        → IsSane (advance s h).0 ⊎ (IsLate s.copied h × ((advance s h).0.crashed ≡ true))
    at (c ∷ cs) e = rw (e, advance) (send_one-IsLate s.frame c cs h w)
    at [] e = let kept : (advance s h).0 ≡ h = ground (arith, e) in inl (subst IsSane (sym kept) w)

enqueue-IsSane : (e : Envelope) (b : Busy) → IsSane b.hub → IsSane (enqueue e b).hub
unfolding enqueue
enqueue-IsSane e b s = elim (Bool-cases (ltb (length b.hub.broadcast) broadcast_size)) [
  | inl i ↦
      rw (i, enqueue)
        (IsSane-Same s
          (Same-queues b.hub b.hub.unregister b.hub.leaving (b.hub.broadcast ++ e ∷ [])))
  | inr i ↦ rw (i, enqueue) s
]

handle_event-IsSane : (e : ChatEvent) (b : Busy) → IsSane b.hub → IsSane (handle_event e b).hub
unfolding handle_event broadcast
handle_event-IsSane e b s = elim (Bool-cases (length e.targets == 0 || length e.frame == 0)) [
  | inl i ↦
      let kept : handle_event e b ≡ b = ground (arith, i) in subst (λ v. IsSane v.hub) (sym kept) s
  | inr i ↦
      let envelope : Envelope = record { targets = e.targets; frame = e.frame } in
      let queued : handle_event e b ≡ enqueue envelope b = ground (arith, i) in
      subst (λ v. IsSane v.hub) (sym queued) (enqueue-IsSane envelope b s)
]

-- A step of a sender that was about to send to a closed connection.
abbrev pub Racing : Busy → Busy → Type 0
Racing b b' =
    (before : List Sender) × (s : Sender) × (rest : List Sender) × (b.senders ≡ before ++ s ∷ rest)
    × IsLate s.copied b.hub
    × (b' ≡ advanced before s rest b)

BusyStep-IsLate :
    {b b' : Busy}
    → BusyStep b b'
    → IsSane b.hub
    → IsSane b'.hub ⊎ (Racing b b' × (b'.hub.crashed ≡ true))
BusyStep-IsLate (of_hub runs step) s = inl (IsSane-Step step s)
BusyStep-IsLate (of_event e {b} runs) s = inl (handle_event-IsSane e b s)
BusyStep-IsLate (of_sender before x rest {b} runs e) s = elim (advance-IsLate x b.hub s) [
  | inl w ↦ inl w
  | inr late ↦ inr ((before, x, rest, e, late.0, refl), late.1)
]

still_runs : {b b' : Busy} → BusyStep b b' → b.hub.crashed ≡ false
still_runs (of_hub runs step) = runs
still_runs (of_event e runs) = runs
still_runs (of_sender before x rest runs e) = runs

pub BusySteps-IsSane : {b : Busy} → BusySteps idle b → b.hub.crashed ≡ false → IsSane b.hub
BusySteps-IsSane start runs = new_hub-IsSane
BusySteps-IsSane (after {c} {d} steps step) runs =
    elim (BusyStep-IsLate step (BusySteps-IsSane steps (still_runs step))) [
      | inl w ↦ w
      | inr late ↦ absurd (ground (arith, late.1, runs))
    ]

-- Whatever the order in which a new hub takes its steps, hands out events and lets the goroutines of
-- `Broadcast` send: a step that ends in a panic is a send of such a goroutine to a connection that has
-- been closed.
pub BusyStep-Racing :
    {b b' : Busy} → BusySteps idle b → BusyStep b b' → b'.hub.crashed ≡ true → Racing b b'
BusyStep-Racing {b} {b'} steps step panics =
    elim (BusyStep-IsLate step (BusySteps-IsSane steps (still_runs step))) [
      | inl w ↦ absurd (ground (arith, w.runs, panics))
      | inr late ↦ late.0
    ]

-- ===== src/Ws/Hub/Sets.antt =====
-- hub.go: the model keeps the set of connections of a user as a list, in which none stands twice.
use blahaj_chat_server.Common.{
  ℕ, ◌≡◌, refl, sym, ◌∙◌, subst, Bool, false, not, Option, none, some, List, [], ◌∷◌, ◌++◌, ◌==◌,
  Text, length, contains, contains-append, filter, Distinct, Dict, lookup, insert, without, nat_eq,
  arith, Bool-cases, inl, inr,
}
use blahaj_chat_server.Bus.{ChatEvent}
use blahaj_chat_server.Model.{UserId}
use blahaj_chat_server.Ws.Hub.{
  Client, Hub, set_of, add_to, delete_from, connect, add_client, remove_client, send_one,
  send_to_user, send_to_users, unregister, Step,
}
use blahaj_chat_server.Ws.Hub.Delivery.{DistinctSets, DistinctSets-lookup, send_to_user-clients}
use blahaj_chat_server.Ws.Hub.Same.{Same-take_frame, Same-send_raw}
use blahaj_chat_server.Ws.Hub.Overflow.{
  Sender, Busy, enqueue, broadcast, handle_event, advance, BusyStep, of_hub, of_event, of_sender,
  BusySteps, start, after,
}

send_to_users-clients :
    (uids : List UserId) (frame : Text) (h : Hub) → (send_to_users uids frame h).clients ≡ h.clients
unfolding send_to_users
send_to_users-clients [] frame h = refl
send_to_users-clients (uid ∷ uids) frame h =
    send_to_users-clients uids frame (send_to_user uid frame h) ∙ send_to_user-clients uid frame h

without-DistinctSets :
    (uid : UserId) (clients : Dict UserId (List ℕ))
    → DistinctSets clients
    → DistinctSets (without uid clients)
unfolding without
without-DistinctSets uid [] d = tt
without-DistinctSets uid ((u, set) ∷ clients) d = elim (Bool-cases (u == uid)) [
  | inl e ↦ rw (e, without) (without-DistinctSets uid clients d.1)
  | inr e ↦ rw (e, without) (d.0, without-DistinctSets uid clients d.1)
]

insert-DistinctSets :
    (uid : UserId) (set : List ℕ) (clients : Dict UserId (List ℕ))
    → Distinct set
    → DistinctSets clients
    → DistinctSets (insert uid set clients)
unfolding insert
insert-DistinctSets uid set clients s d = (s, without-DistinctSets uid clients d)

Distinct-add_last :
    (set : List ℕ) (c : ℕ) → Distinct set → contains set c ≡ false → Distinct (set ++ c ∷ [])
Distinct-add_last [] c d n = (refl, tt)
Distinct-add_last (x ∷ set) c d n = (
  ground (arith, d.0, contains-append set (c ∷ []) x),
  Distinct-add_last set c d.1 (ground arith),
)

Distinct-add_to : (set : List ℕ) (c : ℕ) → Distinct set → Distinct (add_to set c)
Distinct-add_to set c d = elim (Bool-cases (contains set c)) [
  | inl e ↦ rw e d
  | inr e ↦ rw e (Distinct-add_last set c d e)
]

contains-filter :
    (p : ℕ → Bool) (set : List ℕ) (x : ℕ)
    → contains set x ≡ false
    → contains (filter p set) x ≡ false
contains-filter p [] x n = refl
contains-filter p (y ∷ set) x n = ground (arith, contains-filter p set x)

Distinct-filter : (p : ℕ → Bool) (set : List ℕ) → Distinct set → Distinct (filter p set)
Distinct-filter p [] d = tt
Distinct-filter p (x ∷ set) d = elim (Bool-cases (p x)) [
  | inl e ↦ rw e (contains-filter p set x d.0, Distinct-filter p set d.1)
  | inr e ↦ rw e (Distinct-filter p set d.1)
]

delete_from-DistinctSets :
    (uid : UserId) (set : List ℕ) (c : ℕ) (clients : Dict UserId (List ℕ))
    → Distinct set
    → DistinctSets clients
    → DistinctSets (delete_from uid set c clients)
unfolding delete_from
delete_from-DistinctSets uid set c clients s d =
    elim (Bool-cases (length (filter (λ x. not (x == c)) set) == 0)) [
      | inl e ↦ rw e (without-DistinctSets uid clients d)
      | inr e ↦
          rw e (insert-DistinctSets uid _ clients (Distinct-filter (λ x. not (x == c)) set s) d)
    ]

add_client-DistinctSets :
    (c : ℕ) (h : Hub) → DistinctSets h.clients → DistinctSets (add_client c h).clients
unfolding add_client
add_client-DistinctSets c h d = go (lookup c h.conns) refl
  where
    go : (o : Option Client) → lookup c h.conns ≡ o → DistinctSets (add_client c h).clients
    go none e = rw (e, add_client) d
    go (some k) e =
        rw (e, add_client)
          (insert-DistinctSets k.user_id _ h.clients
            (Distinct-add_to (set_of (lookup k.user_id h.clients)) c
              (DistinctSets-lookup k.user_id h.clients d))
            d)

remove_client-DistinctSets :
    (c : ℕ) (h : Hub) → DistinctSets h.clients → DistinctSets (remove_client c h).clients
unfolding remove_client
remove_client-DistinctSets c h d = go (lookup c h.conns) refl
  where
    go : (o : Option Client) → lookup c h.conns ≡ o → DistinctSets (remove_client c h).clients
    go none e = rw (e, remove_client) d
    go (some k) e =
        let set = set_of (lookup k.user_id h.clients) in
        elim (Bool-cases (contains set c)) [
          | inl i ↦
              let removed : (remove_client c h).clients ≡ delete_from k.user_id set c h.clients =
                ground arith in
              subst DistinctSets (sym removed) (
                delete_from-DistinctSets k.user_id set c h.clients
                  (DistinctSets-lookup k.user_id h.clients d) d)
          | inr i ↦
              let kept : remove_client c h ≡ h = ground arith in
              subst (λ (g : Hub). DistinctSets g.clients) (sym kept) d
        ]

unregister-clients : (c : ℕ) (h : Hub) → (unregister c h).clients ≡ h.clients
unfolding unregister
unregister-clients c h = ground arith

Step-DistinctSets : {h h' : Hub} → Step h h' → DistinctSets h.clients → DistinctSets h'.clients
unfolding connect
Step-DistinctSets (Step.connecting uid {h}) d = d
Step-DistinctSets (Step.run_register {c} {more} {h} e) d =
    add_client-DistinctSets c (record h { register = more }) d
Step-DistinctSets (Step.run_unregister {c} {more} {h} e) d =
    remove_client-DistinctSets c (record h { unregister = more }) d
Step-DistinctSets (Step.run_broadcast {e = x} {more} {h} q) d =
    subst DistinctSets
      (sym (send_to_users-clients x.targets x.frame (record h { broadcast = more }))) d
Step-DistinctSets (Step.submit x {h} e) d = d
Step-DistinctSets (Step.leave c {h}) d = subst DistinctSets (sym (unregister-clients c h)) d
Step-DistinctSets (Step.kick {c} {more} {h} e) d =
    subst DistinctSets (sym (unregister-clients c (record h { leaving = more }))) d
Step-DistinctSets (Step.write c {h}) d = subst DistinctSets (sym (Same-take_frame c h).clients) d
Step-DistinctSets (Step.reply c frame {h}) d =
    subst DistinctSets (sym (Same-send_raw c frame h).clients) d

handle_event-clients : (e : ChatEvent) (b : Busy) → (handle_event e b).hub.clients ≡ b.hub.clients
unfolding handle_event broadcast enqueue
handle_event-clients e b = ground arith

advance-clients : (s : Sender) (h : Hub) → (advance s h).0.clients ≡ h.clients
unfolding advance send_one
advance-clients s h = ground arith

pub BusySteps-DistinctSets :
    {b c : Busy} → BusySteps b c → DistinctSets b.hub.clients → DistinctSets c.hub.clients
BusySteps-DistinctSets start d = d
BusySteps-DistinctSets (after steps step) d = stepped step (BusySteps-DistinctSets steps d)
  where
    stepped : {b c : Busy} → BusyStep b c → DistinctSets b.hub.clients → DistinctSets c.hub.clients
    stepped (of_hub runs step) k = Step-DistinctSets step k
    stepped (of_event e {b} runs) k = subst DistinctSets (sym (handle_event-clients e b)) k
    stepped (of_sender before s rest {b} runs e) k =
        subst DistinctSets (sym (advance-clients s b.hub)) k

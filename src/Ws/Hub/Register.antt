-- ===== src/Ws/Hub/Register.antt =====
-- hub.go: connecting and `addClient`.
use blahaj_chat_server.Common.{
  ℕ, suc, ◌+◌, ◌≡◌, refl, ◌∙◌, ap, subst, true, false, ◌&&◌, not, Option, none, some, List, [], ◌∷◌,
  ◌++◌, ◌==◌, ==_iff, ==_refl, contains, contains-append, All, All-imp, All-append, Distinct, Dict,
  lookup, insert, without, nat_eq, lookup-insert, arith, Bool-cases, inl, inr,
}
use blahaj_chat_server.Model.{UserId}
use blahaj_chat_server.Ws.Hub.{Client, Hub, set_of, add_to, add_client, connect}
use blahaj_chat_server.Ws.Hub.Same.{opened, alive, there}
use blahaj_chat_server.Ws.Hub.Sane.{
  IsSane, registered, AllOpen, AllWaiting, AllOpen-lookup, opened-alive, alive-there,
  registered-there, waiting-there,
}

-- A new entry at a free number takes nothing away from the others.
module _ (conns : Dict ℕ Client) (c : ℕ) (k : Client) (free : there (lookup c conns) ≡ false) where
  pub kept_open :
      (uid x : ℕ)
      → opened uid (lookup x conns) ≡ true
      → opened uid (lookup x (insert c k conns)) ≡ true
  kept_open uid x h = elim (Bool-cases (c == x)) [
    | inl e ↦
        let up = alive-there _ (opened-alive uid (lookup x conns) h) in
        let at = ap (λ y. there (lookup y conns)) ((==_iff c x).0 e) in
        absurd (ground (arith, up, at, free))
    | inr e ↦ ap (opened uid) (lookup-insert c x k conns) ∙ rw e h
  ]

  pub kept_alive :
      (x : ℕ) → alive (lookup x conns) ≡ true → alive (lookup x (insert c k conns)) ≡ true
  kept_alive x h = elim (Bool-cases (c == x)) [
    | inl e ↦
        let up = alive-there _ h in
        let at = ap (λ y. there (lookup y conns)) ((==_iff c x).0 e) in
        absurd (ground (arith, up, at, free))
    | inr e ↦ ap alive (lookup-insert c x k conns) ∙ rw e h
  ]

pub Distinct-last :
    (xs : List ℕ) (c : ℕ) → contains xs c ≡ false → Distinct xs → Distinct (xs ++ c ∷ [])
Distinct-last [] c h d = (refl, tt)
Distinct-last (x ∷ xs) c h d =
    (contains-append xs (c ∷ []) x ∙ ground (arith, d.0), Distinct-last xs c (ground arith) d.1)

pub IsSane-connect : (uid : UserId) (h : Hub) → IsSane h → IsSane (connect uid h)
unfolding connect
IsSane-connect uid h s =
    let k : Client = record { user_id = uid; queue = []; closed = false } in
    let free : there (lookup h.next h.conns) ≡ false =
      ap (λ m. there (lookup m h.conns)) (omega arith) ∙ s.fresh 0 in
    record {
      open_all =
          All-imp _ _ h.clients
            (λ entry a. All-imp _ _ entry.1 (λ x o. kept_open h.conns h.next k free entry.0 x o) a)
            s.open_all;
      waiting =
          All-append _ h.register (h.next ∷ [])
            (All-imp _ _ h.register
              (λ x w.
                let live : alive (lookup x h.conns) ≡ true = ground arith in
                ap (λ b. b && not (registered x h.clients))
                  (kept_alive h.conns h.next k free x live)
                ∙ ground (arith, w))
              s.waiting)
            (
              ap (λ o. alive o && not (registered h.next h.clients))
                    (lookup-insert h.next h.next k h.conns)
                  ∙ ground (
                    arith,
                    registered-there h.conns h.clients h.next s.open_all free,
                    ==_refl h.next,
                  ),
              tt,
            );
      once =
          Distinct-last h.register h.next
            (waiting-there h.conns h.clients h.register h.next s.waiting free) s.once;
      fresh = λ n.
          let apart : (h.next == suc h.next + n) ≡ false = ground arith in
          ap there (lookup-insert h.next (suc h.next + n) k h.conns)
          ∙ rw apart (ap (λ m. there (lookup m h.conns)) (omega arith) ∙ s.fresh (suc n));
      runs = s.runs;
    }

pub AllOpen-without :
    (conns : Dict ℕ Client) (uid : UserId) (clients : Dict UserId (List ℕ))
    → AllOpen conns clients
    → AllOpen conns (without uid clients)
unfolding without
AllOpen-without conns uid [] a = tt
AllOpen-without conns uid ((u, set) ∷ clients) a =
    ground (arith, AllOpen-without conns uid clients a.1)

pub registered-without :
    (c : ℕ) (uid : UserId) (clients : Dict UserId (List ℕ))
    → registered c clients ≡ false
    → registered c (without uid clients) ≡ false
unfolding without
registered-without c uid [] h = refl
registered-without c uid ((u, set) ∷ clients) h = ground (arith, registered-without c uid clients)

pub registered-lookup :
    (c : ℕ) (uid : UserId) (clients : Dict UserId (List ℕ))
    → registered c clients ≡ false
    → contains (set_of (lookup uid clients)) c ≡ false
unfolding lookup
registered-lookup c uid [] h = refl
registered-lookup c uid ((u, set) ∷ clients) h = ground (arith, registered-lookup c uid clients)

pub All-add_to {κ} :
    (P : ℕ → Type κ) (set : List ℕ) (c : ℕ) → All P set → P c → All P (add_to set c)
All-add_to P set c a h = elim (Bool-cases (contains set c)) [
  | inl e ↦ rw e a
  | inr e ↦ rw e (All-append P set (c ∷ []) a (h, tt))
]

pub contains-add_to :
    (set : List ℕ) (c x : ℕ)
    → contains set x ≡ false
    → (c == x) ≡ false
    → contains (add_to set c) x ≡ false
contains-add_to set c x h e = ground (arith, contains-append set (c ∷ []) x)

pub waiting-added :
    (conns : Dict ℕ Client) (clients : Dict UserId (List ℕ)) (uid : UserId) (c : ℕ) (more : List ℕ)
    → AllWaiting conns clients more
    → contains more c ≡ false
    → AllWaiting conns ((uid, add_to (set_of (lookup uid clients)) c) ∷ without uid clients) more
waiting-added conns clients uid c [] a h = tt
waiting-added conns clients uid c (x ∷ more) a h =
    let nowhere : registered x clients ≡ false = ground (arith, a.0) in
    let apart : (c == x) ≡ false = ground arith in
    let not_in =
      contains-add_to (set_of (lookup uid clients)) c x (registered-lookup x uid clients nowhere)
        apart in
    let not_else = registered-without x uid clients nowhere in
    (
      ground (arith, a.0, not_in, not_else),
      waiting-added conns clients uid c more a.1 (ground arith),
    )

-- The first waiting connection is registered.
pub IsSane-add_client :
    (c : ℕ) (more : List ℕ) (h : Hub)
    → h.register ≡ c ∷ more
    → IsSane h
    → IsSane (add_client c (record h { register = more }))
unfolding add_client insert
IsSane-add_client c more h e s = go (lookup c h.conns) refl
  where
    wait : AllWaiting h.conns h.clients (c ∷ more)
    wait = subst (AllWaiting h.conns h.clients) e s.waiting

    alone : Distinct (c ∷ more)
    alone = subst Distinct e s.once

    go :
        (o : Option Client)
        → lookup c h.conns ≡ o
        → IsSane (add_client c (record h { register = more }))
    go none i = absurd (ground (arith, wait.0))
    go (some k) i =
        let uid = k.user_id in
        let set = set_of (lookup uid h.clients) in
        rw (i, add_client)
          (record {
            open_all = (
              All-add_to _ set c (AllOpen-lookup h.conns uid h.clients s.open_all)
                  (ap (opened uid) i ∙ ground (arith, wait.0, ==_refl k.user_id)),
              AllOpen-without h.conns uid h.clients s.open_all,
            );
            waiting = waiting-added h.conns h.clients uid c more wait.1 alone.0;
            once = alone.1;
            fresh = s.fresh;
            runs = s.runs;
          })

-- ===== src/Ws/Hub/Sane.antt =====
-- hub.go: what holds of a hub whose connections are in order, and the sends.
use blahaj_chat_server.Common.{
  ℕ, ◌+◌, ◌≡◌, refl, sym, ◌∙◌, ap, subst, Bool, true, false, ◌&&◌, not, Option, none, some, List,
  [], ◌∷◌, ◌==◌, ==_iff, Text, any, contains, All, All-imp, Distinct, Dict, lookup, nat_eq, arith,
  Bool-cases, inl, inr,
}
use blahaj_chat_server.Model.{UserId}
use blahaj_chat_server.Ws.Hub.{Client, Hub, set_of, send_to_user, send_to_users}
use blahaj_chat_server.Ws.Hub.Same.{opened, alive, there, Same, Same-send_all}

-- The connection stands in the set of some user.
abbrev pub registered : ℕ → Dict UserId (List ℕ) → Bool
registered c = any λ entry. contains entry.1 c

abbrev pub AllOpen : Dict ℕ Client → Dict UserId (List ℕ) → Type 0
AllOpen conns = All λ entry. All (λ c. opened entry.0 (lookup c conns) ≡ true) entry.1

abbrev pub AllWaiting : Dict ℕ Client → Dict UserId (List ℕ) → List ℕ → Type 0
AllWaiting conns clients = All λ c. alive (lookup c conns) && not (registered c clients) ≡ true

-- The registered connections are open and belong to the user they are registered for; those that wait
-- to be registered are open, registered nowhere, and wait once; and nothing has panicked.
pub record IsSane (h : Hub) : Type 0 where
  pub open_all : AllOpen h.conns h.clients
  pub waiting : AllWaiting h.conns h.clients h.register
  pub once : Distinct h.register
  pub fresh : (n : ℕ) → there (lookup (h.next + n) h.conns) ≡ false
  pub runs : h.crashed ≡ false

pub IsSane-Same : {h h' : Hub} → IsSane h → Same h h' → IsSane h'
IsSane-Same {h} {h'} s e = record {
  open_all = subst (AllOpen h'.conns) (sym e.clients) (
      All-imp _ _ h.clients (λ entry a. All-imp _ _ entry.1 (λ c o. e.opens entry.0 c ∙ o) a)
        s.open_all);
  waiting = subst (AllWaiting h'.conns h'.clients) (sym e.register) (
      subst (λ cl. AllWaiting h'.conns cl h.register) (sym e.clients)
        (All-imp _ _ h.register (λ c w. ap (λ b. b && not (registered c h.clients)) (e.lives c) ∙ w)
          s.waiting));
  once = subst Distinct (sym e.register) s.once;
  fresh = λ n. ap (λ m. there (lookup (m + n) h'.conns)) e.next ∙ e.stays (h.next + n) ∙ s.fresh n;
  runs = e.runs ∙ s.runs;
}

pub AllOpen-lookup :
    (conns : Dict ℕ Client) (uid : UserId) (clients : Dict UserId (List ℕ))
    → AllOpen conns clients
    → All (λ c. opened uid (lookup c conns) ≡ true) (set_of (lookup uid clients))
unfolding lookup
AllOpen-lookup conns uid [] a = tt
AllOpen-lookup conns uid ((u, set) ∷ clients) a = elim (Bool-cases (u == uid)) [
  | inl e ↦
      rw (e, lookup)
        (subst (λ v. All (λ c. opened v (lookup c conns) ≡ true) set) ((==_iff u uid).0 e) a.0)
  | inr e ↦ rw (e, lookup) (AllOpen-lookup conns uid clients a.1)
]

pub opened-alive : (uid : UserId) (o : Option Client) → opened uid o ≡ true → alive o ≡ true
opened-alive uid none h = h
opened-alive uid (some k) h = ground arith

pub alive-there : (o : Option Client) → alive o ≡ true → there o ≡ true
alive-there none h = h
alive-there (some k) h = refl

pub IsSane-send_to_user :
    (uid : UserId) (frame : Text) (h : Hub) → IsSane h → IsSane (send_to_user uid frame h)
unfolding send_to_user
IsSane-send_to_user uid frame h s = IsSane-Same s (
    Same-send_all frame (set_of (lookup uid h.clients)) h (
      All-imp _ _ (set_of (lookup uid h.clients)) (λ c o. opened-alive uid (lookup c h.conns) o)
        (AllOpen-lookup h.conns uid h.clients s.open_all)))

pub IsSane-send_to_users :
    (uids : List UserId) (frame : Text) (h : Hub) → IsSane h → IsSane (send_to_users uids frame h)
unfolding send_to_users
IsSane-send_to_users [] frame h s = s
IsSane-send_to_users (uid ∷ uids) frame h s =
    IsSane-send_to_users uids frame (send_to_user uid frame h) (IsSane-send_to_user uid frame h s)

-- A connection with a number that is not in use.
pub registered-there :
    (conns : Dict ℕ Client) (clients : Dict UserId (List ℕ)) (c : ℕ)
    → AllOpen conns clients
    → there (lookup c conns) ≡ false
    → registered c clients ≡ false
registered-there conns [] c a h = refl
registered-there conns ((u, set) ∷ clients) c a h =
    ground (arith, registered-there conns clients c a.1 h, not_in set a.0)
  where
    not_in : (cs : List ℕ) → All (λ x. opened u (lookup x conns) ≡ true) cs → contains cs c ≡ false
    not_in [] b = refl
    not_in (x ∷ cs) b = elim (Bool-cases (x == c)) [
      | inl e ↦
          let up = alive-there _ (opened-alive u (lookup x conns) b.0) in
          let at = ap (λ y. there (lookup y conns)) ((==_iff x c).0 e) in
          absurd (ground (arith, up, at, h))
      | inr e ↦ ground (arith, not_in cs b.1)
    ]

pub waiting-there :
    (conns : Dict ℕ Client) (clients : Dict UserId (List ℕ)) (cs : List ℕ) (c : ℕ)
    → AllWaiting conns clients cs
    → there (lookup c conns) ≡ false
    → contains cs c ≡ false
waiting-there conns clients [] c a h = refl
waiting-there conns clients (x ∷ cs) c a h = elim (Bool-cases (x == c)) [
  | inl e ↦
      let live : alive (lookup x conns) ≡ true = ground (arith, a.0) in
      let up = alive-there _ live in
      let at = ap (λ y. there (lookup y conns)) ((==_iff x c).0 e) in
      absurd (ground (arith, up, at, h))
  | inr e ↦ ground (arith, waiting-there conns clients cs c a.1 h)
]

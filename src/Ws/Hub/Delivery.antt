-- ===== src/Ws/Hub/Delivery.antt =====
-- hub.go: whom a broadcast reaches.
use blahaj_chat_server.Common.{
  ℕ, ◌<◌, ◌≡◌, refl, sym, ◌∙◌, ap, subst, Bool, true, false, ◌&&◌, Option, none, some, List, [],
  ◌∷◌, ◌++◌, ◌==◌, ==_iff, ltb, lt→ltb, if◌then◌else◌, Text, length, contains, All, Distinct, Dict,
  lookup, lookup-insert, nat_eq, arith, Bool-cases, inl, inr,
}
use blahaj_chat_server.Model.{UserId}
use blahaj_chat_server.Ws.Hub.{
  Client, Hub, set_of, send_buf_size, send_one, send_all, send_to_user, send_to_users,
}
use blahaj_chat_server.Ws.Hub.Same.{opened}
use blahaj_chat_server.Ws.Hub.Sane.{IsSane, AllOpen-lookup, IsSane-send_to_user}

-- The client with one frame more.
abbrev pub with_frame : Text → Client → Client
with_frame frame k = record k { queue = k.queue ++ frame ∷ [] }

send_one_other :
    (frame : Text) (x c : ℕ) (h : Hub)
    → (x == c) ≡ false
    → lookup c (send_one frame x h).conns ≡ lookup c h.conns
unfolding send_one
send_one_other frame x c h n = go (lookup x h.conns) refl
  where
    go :
        (o : Option Client)
        → lookup x h.conns ≡ o
        → lookup c (send_one frame x h).conns ≡ lookup c h.conns
    go none e = rw (e, send_one) refl
    go (some k) e = ground (arith, n, lookup-insert x c (with_frame frame k) h.conns)

send_one_self :
    (frame : Text) (c : ℕ) (h : Hub) (k : Client)
    → lookup c h.conns ≡ some k
    → k.closed ≡ false
    → ltb (length k.queue) send_buf_size ≡ true
    → lookup c (send_one frame c h).conns ≡ some (with_frame frame k)
unfolding send_one
send_one_self frame c h k e o r = ground (arith, lookup-insert c c (with_frame frame k) h.conns)

send_one-clients : (frame : Text) (c : ℕ) (h : Hub) → (send_one frame c h).clients ≡ h.clients
unfolding send_one
send_one-clients frame c h = ground arith

send_all-clients :
    (frame : Text) (cs : List ℕ) (h : Hub) → (send_all frame cs h).clients ≡ h.clients
unfolding send_all
send_all-clients frame [] h = refl
send_all-clients frame (c ∷ cs) h =
    send_all-clients frame cs (send_one frame c h) ∙ send_one-clients frame c h

send_all_other :
    (frame : Text) (cs : List ℕ) (c : ℕ) (h : Hub)
    → contains cs c ≡ false
    → lookup c (send_all frame cs h).conns ≡ lookup c h.conns
unfolding send_all
send_all_other frame [] c h n = refl
send_all_other frame (x ∷ cs) c h n =
    send_all_other frame cs c (send_one frame x h) (ground arith)
    ∙ send_one_other frame x c h (ground arith)

send_all_self :
    (frame : Text) (cs : List ℕ) (c : ℕ) (h : Hub) (k : Client)
    → Distinct cs
    → contains cs c ≡ true
    → lookup c h.conns ≡ some k
    → k.closed ≡ false
    → ltb (length k.queue) send_buf_size ≡ true
    → lookup c (send_all frame cs h).conns ≡ some (with_frame frame k)
unfolding send_all
send_all_self frame [] c h k d i e o r = cc
send_all_self frame (x ∷ cs) c h k d i e o r = elim (Bool-cases (x == c)) [
  | inl j ↦
      let same = (==_iff x c).0 j in
      send_all_other frame cs c (send_one frame x h) (subst (λ y. contains cs y ≡ false) same d.0)
      ∙ subst (λ y. lookup c (send_one frame y h).conns ≡ some (with_frame frame k)) (sym same)
          (send_one_self frame c h k e o r)
  | inr j ↦
      send_all_self frame cs c (send_one frame x h) k d.1 (ground arith)
        (send_one_other frame x c h j ∙ e) o r
]

-- What stands in the set of a user belongs to that user.
member-opened :
    (uid : UserId) (c : ℕ) (h : Hub) (k : Client)
    → IsSane h
    → lookup c h.conns ≡ some k
    → contains (set_of (lookup uid h.clients)) c ≡ true
    → (k.user_id ≡ uid) × (k.closed ≡ false)
member-opened uid c h k s e i =
    let o =
      pick (set_of (lookup uid h.clients)) (AllOpen-lookup h.conns uid h.clients s.open_all) i in
    (ground (arith, o), ground (arith, o))
  where
    pick :
        (cs : List ℕ)
        → All (λ x. opened uid (lookup x h.conns) ≡ true) cs
        → contains cs c ≡ true
        → opened uid (lookup c h.conns) ≡ true
    pick [] a j = cc
    pick (x ∷ cs) a j = elim (Bool-cases (x == c)) [
      | inl q ↦ subst (λ y. opened uid (lookup y h.conns) ≡ true) ((==_iff x c).0 q) a.0
      | inr q ↦ pick cs a.1 (ground arith)
    ]

-- No connection stands twice in the set of a user.
abbrev pub DistinctSets : Dict UserId (List ℕ) → Type 0
DistinctSets = All λ entry. Distinct entry.1

pub DistinctSets-lookup :
    (uid : UserId) (clients : Dict UserId (List ℕ))
    → DistinctSets clients
    → Distinct (set_of (lookup uid clients))
unfolding lookup
DistinctSets-lookup uid [] d = tt
DistinctSets-lookup uid ((u, set) ∷ clients) d = elim (Bool-cases (u == uid)) [
  | inl e ↦ rw (e, lookup) d.0
  | inr e ↦ rw (e, lookup) (DistinctSets-lookup uid clients d.1)
]

-- The connection stands in the set of its user.
abbrev pub is_registered : ℕ → Client → Hub → Bool
is_registered c k h = contains (set_of (lookup k.user_id h.clients)) c

-- Who is meant: the registered connections of the targets.
abbrev pub received : List UserId → Text → ℕ → Client → Hub → Client
received uids frame c k h =
    if contains uids k.user_id && is_registered c k h then with_frame frame k else k

pub send_to_user-clients :
    (uid : UserId) (frame : Text) (h : Hub) → (send_to_user uid frame h).clients ≡ h.clients
unfolding send_to_user
send_to_user-clients uid frame h = send_all-clients frame (set_of (lookup uid h.clients)) h

-- A frame for one of the others does not touch the connection.
send_to_user_other :
    (uid : UserId) (frame : Text) (c : ℕ) (h : Hub) (k : Client)
    → IsSane h
    → lookup c h.conns ≡ some k
    → (uid == k.user_id) && is_registered c k h ≡ false
    → lookup c (send_to_user uid frame h).conns ≡ some k
unfolding send_to_user
send_to_user_other uid frame c h k s e n =
    elim (Bool-cases (contains (set_of (lookup uid h.clients)) c)) [
      | inl i ↦
          let mine = (member-opened uid c h k s e i).0 in
          let here : is_registered c k h ≡ true =
            subst (λ u. contains (set_of (lookup u h.clients)) c ≡ true) (sym mine) i in
          absurd (ground (arith, here, mine))
      | inr i ↦ send_all_other frame (set_of (lookup uid h.clients)) c h i ∙ e
    ]

send_to_user_self :
    (frame : Text) (c : ℕ) (h : Hub) (k : Client)
    → IsSane h
    → DistinctSets h.clients
    → lookup c h.conns ≡ some k
    → is_registered c k h ≡ true
    → length k.queue < send_buf_size
    → lookup c (send_to_user k.user_id frame h).conns ≡ some (with_frame frame k)
unfolding send_to_user
send_to_user_self frame c h k s d e i r =
    send_all_self frame (set_of (lookup k.user_id h.clients)) c h k
      (DistinctSets-lookup k.user_id h.clients d) i e (member-opened k.user_id c h k s e i).1
      (lt→ltb _ _ r)

registered_after :
    (uid : UserId) (frame : Text) (c : ℕ) (k : Client) (h : Hub)
    → is_registered c k (send_to_user uid frame h) ≡ is_registered c k h
registered_after uid frame c k h =
    ap (λ cl. contains (set_of (lookup k.user_id cl)) c) (send_to_user-clients uid frame h)

send_to_users_other :
    (uids : List UserId) (frame : Text) (c : ℕ) (h : Hub) (k : Client)
    → IsSane h
    → lookup c h.conns ≡ some k
    → contains uids k.user_id && is_registered c k h ≡ false
    → lookup c (send_to_users uids frame h).conns ≡ some k
unfolding send_to_users
send_to_users_other [] frame c h k s e n = e
send_to_users_other (uid ∷ uids) frame c h k s e n =
    send_to_users_other uids frame c (send_to_user uid frame h) k
      (IsSane-send_to_user uid frame h s) (send_to_user_other uid frame c h k s e (ground arith))
      (rw (registered_after uid frame c k h) (ground arith))

-- A broadcast puts the frame, once and at the end, into the channel of every connection that is registered
-- for one of its targets, if that channel has room, and leaves every other connection alone.
pub send_to_users-received :
    (uids : List UserId) (frame : Text) (c : ℕ) (h : Hub) (k : Client)
    → IsSane h
    → DistinctSets h.clients
    → Distinct uids
    → lookup c h.conns ≡ some k
    → length k.queue < send_buf_size
    → lookup c (send_to_users uids frame h).conns ≡ some (received uids frame c k h)
unfolding send_to_users
send_to_users-received [] frame c h k s d t e r = e
send_to_users-received (uid ∷ uids) frame c h k s d t e r =
    elim (Bool-cases (is_registered c k h)) [
      | inr i ↦ send_to_users_other (uid ∷ uids) frame c h k s e (ground arith) ∙ ground arith
      | inl i ↦ elim (Bool-cases (uid == k.user_id)) [
        | inl j ↦
            let same = (==_iff uid k.user_id).0 j in
            let hit : lookup c (send_to_user uid frame h).conns ≡ some (with_frame frame k) =
              subst (λ u. lookup c (send_to_user u frame h).conns ≡ some (with_frame frame k))
                (sym same) (send_to_user_self frame c h k s d e i r) in
            let once : contains uids k.user_id ≡ false =
              subst (λ u. contains uids u ≡ false) same t.0 in
            send_to_users_other uids frame c (send_to_user uid frame h) (with_frame frame k)
              (IsSane-send_to_user uid frame h s) hit (ground arith)
            ∙ ground arith
        | inr j ↦
            send_to_users-received uids frame c (send_to_user uid frame h) k
              (IsSane-send_to_user uid frame h s)
              (subst DistinctSets (sym (send_to_user-clients uid frame h)) d) t.1
              (send_to_user_other uid frame c h k s e (ground arith)) r
            ∙ rw (registered_after uid frame c k h, j) refl
      ]
    ]

-- ===== src/Ws/Hub.antt =====
-- internal/ws/hub.go, with the part of client.go that it calls. A connection is known by its number.
-- The proofs are in the modules below.
pub mod Same
pub mod Sane
pub mod Register
pub mod Removal
pub mod Safety
pub mod Delivery
pub mod Sets
pub mod Reach
pub mod Overflow
use blahaj_chat_server.Common.{
  ◌≡◌, ℕ, suc, Bool, true, false, ◌||◌, ◌&&◌, not, Option, none, some, List, [], ◌∷◌, ◌++◌, ltb,
  ◌==◌, if◌then◌else◌, Text, filter, length, contains, Dict, lookup, insert, without, nat_eq,
}
use blahaj_chat_server.Model.{UserId}

-- `Client` of client.go: its user, the frames in its send channel, and whether it has been closed.
pub record Client : Type 0 where
  pub user_id : UserId
  pub queue : List Text
  pub closed : Bool

pub record Envelope : Type 0 where
  pub targets : List UserId
  pub frame : Text

-- `Hub`, with the connections that it has pointers to. The lists `register`, `unregister` and
-- `broadcast` hold what waits in those channels or is blocked on them, in order; `leaving` holds the
-- connections that `go h.Unregister(c)` was started for; `crashed` is a panic that nobody recovers.
pub record Hub : Type 0 where
  pub clients : Dict UserId (List ℕ)
  pub register : List ℕ
  pub unregister : List ℕ
  pub broadcast : List Envelope
  pub conns : Dict ℕ Client
  pub next : ℕ
  pub leaving : List ℕ
  pub crashed : Bool

-- `NewHub`
abbrev pub new_hub : Hub
new_hub = record {
  clients = [];
  register = [];
  unregister = [];
  broadcast = [];
  conns = [];
  next = 0;
  leaving = [];
  crashed = false;
}

abbrev pub send_buf_size : ℕ
send_buf_size = 64

abbrev pub broadcast_size : ℕ
broadcast_size = 256

-- The set of a user, which is empty for a user that the map does not have.
abbrev pub set_of : Option (List ℕ) → List ℕ
set_of none = []
set_of (some set) = set

abbrev pub add_to : List ℕ → ℕ → List ℕ
add_to set c = if contains set c then set else set ++ c ∷ []

-- `addClient`
unfoldable pub add_client : ℕ → Hub → Hub
add_client c h = elim (lookup c h.conns) [
  | none ↦ h
  | some k ↦ record h {
    clients = insert k.user_id (add_to (set_of (lookup k.user_id h.clients)) c) h.clients;
  }
]

-- `delete(set, c)`, and the user's entry with the last connection.
unfoldable pub delete_from : UserId → List ℕ → ℕ → Dict UserId (List ℕ) → Dict UserId (List ℕ)
delete_from uid set c clients =
    let rest = filter (λ x. not (x == c)) set in
    if length rest == 0 then without uid clients else insert uid rest clients

abbrev pub shut : Client → Client
shut k = record k { closed = true }

-- `removeClient`
unfoldable pub remove_client : ℕ → Hub → Hub
remove_client c h = elim (lookup c h.conns) [
  | none ↦ h
  | some k ↦
      let set = set_of (lookup k.user_id h.clients) in
      if not (contains set c) then h else record h {
        clients = delete_from k.user_id set c h.clients;
        conns = insert c (shut k) h.conns;
      }
]

-- The `select` of `SendToUser`: a send on a closed channel panics.
unfoldable pub send_one : Text → ℕ → Hub → Hub
send_one frame c h = elim (lookup c h.conns) [
  | none ↦ h
  | some k ↦
      if k.closed
      then record h { crashed = true }
      else if ltb (length k.queue) send_buf_size
      then record h { conns = insert c (record k { queue = k.queue ++ frame ∷ [] }) h.conns }
      else record h { leaving = h.leaving ++ c ∷ [] }
]

unfoldable pub send_all : Text → List ℕ → Hub → Hub
send_all frame [] h = h
send_all frame (c ∷ cs) h = send_all frame cs (send_one frame c h)

-- `SendToUser`: the set is copied first.
unfoldable pub send_to_user : UserId → Text → Hub → Hub
send_to_user uid frame h = send_all frame (set_of (lookup uid h.clients)) h

-- `SendToUsers`, which is the loop of `Run` too.
unfoldable pub send_to_users : List UserId → Text → Hub → Hub
send_to_users [] frame h = h
send_to_users (uid ∷ uids) frame h = send_to_users uids frame (send_to_user uid frame h)

-- `Unregister`: a connection that is closed already is passed over.
unfoldable pub unregister : ℕ → Hub → Hub
unregister c h = elim (lookup c h.conns) [
  | none ↦ h
  | some k ↦ if k.closed then h else record h { unregister = h.unregister ++ c ∷ [] }
]

-- The write pump takes a frame from the channel.
unfoldable pub take_frame : ℕ → Hub → Hub
take_frame c h = elim (lookup c h.conns) [
  | none ↦ h
  | some k ↦ elim k.queue [
    | [] ↦ h
    | frame ∷ rest ↦ record h { conns = insert c (record k { queue = rest }) h.conns }
  ]
]

-- `sendRaw`: a closed connection gets nothing, and one whose channel is full is to be unregistered. A
-- channel that is closed in between is a panic that is recovered, with the same effect as a closed one.
unfoldable pub send_raw : ℕ → Text → Hub → Hub
send_raw c data_text h = elim (lookup c h.conns) [
  | none ↦ h
  | some k ↦
      if k.closed
      then h
      else if ltb (length k.queue) send_buf_size
      then record h { conns = insert c (record k { queue = k.queue ++ data_text ∷ [] }) h.conns }
      else record h { leaving = h.leaving ++ c ∷ [] }
]

-- `NewClient` and `Register` for a user.
unfoldable pub connect : UserId → Hub → Hub
connect uid h = record h {
  conns = insert h.next (record { user_id = uid; queue = []; closed = false }) h.conns;
  register = h.register ++ h.next ∷ [];
  next = suc h.next;
}

-- What the goroutines of this instance do, in any order. `run_*` are the three cases of `Run`; the
-- queue of broadcasts has room for `submit`; Overflow has the other case.
-- `reply` is a frame that a connection answers its client with.
pub data Step : Hub → Hub → Type 0 where
  connecting : (uid : UserId) {h : Hub} → Step h (connect uid h)
  run_register :
      {c : ℕ} {more : List ℕ} {h : Hub}
      → h.register ≡ c ∷ more
      → Step h (add_client c (record h { register = more }))
  run_unregister :
      {c : ℕ} {more : List ℕ} {h : Hub}
      → h.unregister ≡ c ∷ more
      → Step h (remove_client c (record h { unregister = more }))
  run_broadcast :
      {e : Envelope} {more : List Envelope} {h : Hub}
      → h.broadcast ≡ e ∷ more
      → Step h (send_to_users e.targets e.frame (record h { broadcast = more }))
  submit :
      (e : Envelope) {h : Hub}
      → ltb (length h.broadcast) broadcast_size ≡ true
      → Step h (record h { broadcast = h.broadcast ++ e ∷ [] })
  leave : (c : ℕ) {h : Hub} → Step h (unregister c h)
  kick :
      {c : ℕ} {more : List ℕ} {h : Hub}
      → h.leaving ≡ c ∷ more
      → Step h (unregister c (record h { leaving = more }))
  write : (c : ℕ) {h : Hub} → Step h (take_frame c h)
  reply : (c : ℕ) (frame : Text) {h : Hub} → Step h (send_raw c frame h)

pub data Steps : Hub → Hub → Type 0 where
  stop : {h : Hub} → Steps h h
  more : {g h k : Hub} → Step g h → Steps h k → Steps g k

-- ===== src/Ws/Hub/Overflow.antt =====
-- hub.go: `Broadcast` and `HandleEvent`, with the goroutines that `Broadcast` starts when its queue is
-- full: they send to the connections beside `Run`.
pub mod Panics
use blahaj_chat_server.Common.{
  ◌≡◌, ℕ, Bool, true, false, ◌||◌, List, [], ◌∷◌, ◌++◌, ltb, ◌==◌, if◌then◌else◌, Text, length,
  lookup, nat_eq,
}
use blahaj_chat_server.Model.{UserId}
use blahaj_chat_server.Bus.{ChatEvent}
use blahaj_chat_server.Ws.Hub.{Hub, Envelope, new_hub, broadcast_size, set_of, send_one, Step}

-- `SendToUsers` in a goroutine of its own: the users that are left, the connections of the current user
-- that it has copied and not sent to, and the frame.
pub record Sender : Type 0 where
  pub users : List UserId
  pub copied : List ℕ
  pub frame : Text

-- The hub with its senders.
pub record Busy : Type 0 where
  pub hub : Hub
  pub senders : List Sender

abbrev pub idle : Busy
idle = record { hub = new_hub; senders = [] }

-- The `select` of `Broadcast`.
unfoldable pub enqueue : Envelope → Busy → Busy
enqueue e b =
    if ltb (length b.hub.broadcast) broadcast_size
    then record b { hub = record b.hub { broadcast = b.hub.broadcast ++ e ∷ [] } }
    else record b {
      senders = b.senders ++ record { users = e.targets; copied = []; frame = e.frame } ∷ [];
    }

-- `Broadcast`
unfoldable pub broadcast : Envelope → Busy → Bool × Busy
broadcast e b =
    if length e.targets == 0 || length e.frame == 0 then (false, b) else (true, enqueue e b)

-- `HandleEvent`, which returns no error.
unfoldable pub handle_event : ChatEvent → Busy → Busy
handle_event e b = (broadcast (record { targets = e.targets; frame = e.frame }) b).1

-- What a sender does next: a send, or the copy of the next user's set, which the lock protects; then
-- what is left of it.
unfoldable pub advance : Sender → Hub → Hub × List Sender
advance s h = elim s.copied [
  | c ∷ cs ↦ (send_one s.frame c h, record s { copied = cs } ∷ [])
  | [] ↦ elim s.users [
    | [] ↦ (h, [])
    | uid ∷ uids ↦ (h, record s { users = uids; copied = set_of (lookup uid h.clients) } ∷ [])
  ]
]

abbrev pub advanced : List Sender → Sender → List Sender → Busy → Busy
advanced before s after b =
    let r = advance s b.hub in record { hub = r.0; senders = before ++ r.1 ++ after }

-- What happens next, unless a panic has ended the process.
pub data BusyStep : Busy → Busy → Type 0 where
  of_hub :
      {b : Busy} {h : Hub}
      → b.hub.crashed ≡ false
      → Step b.hub h
      → BusyStep b (record b { hub = h })
  of_event : (e : ChatEvent) {b : Busy} → b.hub.crashed ≡ false → BusyStep b (handle_event e b)
  of_sender :
      (before : List Sender) (s : Sender) (after : List Sender) {b : Busy}
      → b.hub.crashed ≡ false
      → b.senders ≡ before ++ s ∷ after
      → BusyStep b (advanced before s after b)

pub data BusySteps : Busy → Busy → Type 0 where
  start : {b : Busy} → BusySteps b b
  after : {b c d : Busy} → BusySteps b c → BusyStep c d → BusySteps b d

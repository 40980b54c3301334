-- ===== src/Ws/Pumps.antt =====
-- internal/ws/handler.go and the two pumps of internal/ws/client.go: how a connection begins, what it
-- reads, and what it writes. The proofs are in the module below.
pub mod InOrder
use blahaj_chat_server.Common.{
  ℕ, Bool, true, false, Option, none, some, List, [], ◌∷◌, ◌++◌, ltb, ◌==◌, if◌then◌else◌, Text,
  length,
}
use blahaj_chat_server.Model.{UserId}
use blahaj_chat_server.Http.Response.{Message}
use blahaj_chat_server.Ws.Hub.{Client, Hub, send_buf_size, shut, connect, unregister}
use blahaj_chat_server.Ws.Dispatch.{Node, Wiring, dispatch}

-- What `WSLoginHandler` comes to: a status, a failed upgrade, or a connection with its pumps.
pub data Login : Type 0 where
  refused : ℕ → Message → Login
  not_upgraded : Login
  serving : ℕ → Login

-- `WSLoginHandler`, with the user of the context and whether `Upgrade` succeeds.
unfoldable pub ws_login : UserId → Bool → Hub → Login × Hub
ws_login uid upgraded h =
    if uid == 0
    then (refused 401 Message.user_message_error, h)
    else if upgraded
    then (serving h.next, connect uid h)
    else (not_upgraded, h)

-- `readPump` on what its reads return, an error as none; at the end of them it waits for more.
unfoldable pub read_pump : Wiring → ℕ → UserId → List (Option Text) → Node → Node
read_pump s c uid [] n = n
read_pump s c uid (none ∷ reads) n = record n { hub = unregister c n.hub }
read_pump s c uid (some payload ∷ reads) n = read_pump s c uid reads (dispatch s c uid payload n)

-- The write pump of one connection: the client, the frames that its channel has taken in, those that
-- were written, one that was taken out and failed, and whether the pump runs.
pub record Pump : Type 0 where
  pub client : Client
  pub accepted : List Text
  pub written : List Text
  pub lost : List Text
  pub runs : Bool

abbrev pub new_pump : UserId → Pump
new_pump uid = record {
  client = record { user_id = uid; queue = []; closed = false };
  accepted = [];
  written = [];
  lost = [];
  runs = true;
}

-- What happens to it: a send to the channel, the hub closes the channel, and the two cases of the
-- `select`, with whether the write succeeds.
pub data PumpEvent : Type 0 where
  sending : Text → PumpEvent
  closing : PumpEvent
  receiving : Bool → PumpEvent
  ticking : Bool → PumpEvent

-- The send of `sendRaw`, which drops the frame if there is no room.
unfoldable pub offer : Text → Pump → Pump
offer frame s =
    if s.client.closed
    then s
    else if ltb (length s.client.queue) send_buf_size
    then record s {
      client = record s.client { queue = s.client.queue ++ frame ∷ [] };
      accepted = s.accepted ++ frame ∷ [];
    }
    else s

-- The case `data, ok := <-c.send`; it waits while an open channel is empty.
unfoldable pub receive : Bool → List Text → Pump → Pump
receive success [] s = if s.client.closed then record s { runs = false } else s
receive success (frame ∷ rest) s =
    let taken : Pump = record s { client = record s.client { queue = rest } } in
    if success
    then record taken { written = s.written ++ frame ∷ [] }
    else record taken { lost = frame ∷ []; runs = false }

unfoldable pub write_pump : PumpEvent → Pump → Pump
write_pump (sending frame) s = offer frame s
write_pump closing s = record s { client = shut s.client }
write_pump (receiving success) s = if s.runs then receive success s.client.queue s else s
write_pump (ticking success) s = if success then s else record s { runs = false }

unfoldable pub write_pumps : List PumpEvent → Pump → Pump
write_pumps [] s = s
write_pumps (e ∷ events) s = write_pumps events (write_pump e s)

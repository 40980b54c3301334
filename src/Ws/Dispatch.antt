-- ===== src/Ws/Dispatch.antt =====
-- internal/ws/client.go: what a connection does with a payload that it has read. The proofs are in the
-- modules below.
pub mod Published
pub mod Answers
use blahaj_chat_server.Common.{
  ℕ, suc, Bool, true, false, not, Option, none, some, List, [], ◌∷◌, ◌++◌, ltb, if◌then◌else◌, Text,
  codes, text_eq, length, lookup, insert, nat_eq,
}
use blahaj_chat_server.Errors.{Error, Result, ok, err}
use blahaj_chat_server.Model.{UserId}
use blahaj_chat_server.Platform.{Platform, World, tick}
use blahaj_chat_server.Dao.State.{list_members}
use blahaj_chat_server.Service.Chat.{SendData, ReadData, MsgData, handle_send, handle_read}
use blahaj_chat_server.Bus.{ChatEvent, KafkaBus, publish}
use blahaj_chat_server.Ws.Hub.{Hub, send_raw}
use blahaj_chat_server.Ws.Frame.{
  Op, op_send, op_read, op_ping, op_ack_ok, op_error, op_msg, op_pong, Frame, AckOkData, Said,
  ErrorData, Payload, Codec, marshal_frame,
}

-- What a connection works on: the world of the services, the hub of this instance, and its bus,
-- which `InitHub` sets.
pub record Node : Type 0 where
  pub world : World
  pub hub : Hub
  pub bus : Option KafkaBus

-- The error of `Hub.Publish` without a bus.
abbrev pub no_bus : Error
no_bus = Error.message 3

-- `Publish` of the hub, with what `WriteMessages` returns.
unfoldable pub hub_publish :
    Option Error → ChatEvent → Option KafkaBus → Result (Unit {0}) × Option KafkaBus
hub_publish outcome e none = (err no_bus, none)
hub_publish outcome e (some k) = let (r, b) = publish outcome e k in (r, some b)

-- The platform; the JSON of frames; and what `WriteMessages` of the bus returns.
pub record Wiring : Type 0 where
  pub platform : Platform
  pub codec : Codec
  pub write_outcome : ℕ → Option Error

module _ (s : Wiring) (c : ℕ) (uid : UserId) where
  -- `sendFrame`: a frame that cannot be written is dropped.
  unfoldable pub send_frame : Op → ℕ → Option Payload → Node → Node
  send_frame op seq payload n = elim (marshal_frame s.codec op seq payload) [
    | err e ↦ n
    | ok raw ↦ record n { hub = send_raw c raw n.hub }
  ]

  unfoldable pub send_error : ℕ → Text → Said → Node → Node
  unfolding send_frame
  send_error seq code said =
      send_frame op_error seq (some (Payload.error (record { code = code; said = said })))

  -- `c.hub.Publish`, whose error is only logged.
  unfoldable pub publish_event : ChatEvent → Node → Node
  publish_event e n =
      let (r, b) = hub_publish (s.write_outcome n.world.calls) e n.bus in
      record n { bus = b; world = tick n.world }

  abbrev pub chat_event : SendData → MsgData → List UserId → Text → ChatEvent
  chat_event d m members frame = record {
    msg_id = m.msg_id;
    conv_id = d.conv_id;
    targets = members;
    frame = frame;
  }

  -- The message for the members that were found.
  unfoldable pub fan_out_to : SendData → MsgData → Result (List UserId) → Node → Node
  fan_out_to d m (err e) n = n
  fan_out_to d m (ok members) n = elim (marshal_frame s.codec op_msg 0 (some (Payload.msg m))) [
    | err e ↦ n
    | ok frame ↦ publish_event (chat_event d m members frame) n
  ]

  unfoldable pub fan_out : SendData → MsgData → Node → Node
  unfolding fan_out_to
  fan_out d m n =
      let (members, w) = list_members s.platform d.conv_id n.world in
      fan_out_to d m members (record n { world = w })

  abbrev pub ack_of : SendData → MsgData → Payload
  ack_of d m = Payload.ack_ok (record {
    msg_id = m.msg_id;
    client_msg_id = d.client_msg_id;
    conv_id = d.conv_id;
    ts = m.created_at;
  })

  -- The end of the case of `OpSend`.
  unfoldable pub reply_send : ℕ → SendData → Result (MsgData × Bool) → Node → Node
  reply_send seq d (err e) n = send_error seq (codes "send_failed") (Said.of_error e) n
  reply_send seq d (ok (m, created)) n =
      let n' = send_frame op_ack_ok seq (some (ack_of d m)) n in
      if not created then n' else fan_out d m n'

  unfoldable pub dispatch_send : ℕ → Result SendData → Node → Node
  unfolding reply_send
  dispatch_send seq (err e) n = send_error seq (codes "bad_data") (Said.of_error e) n
  dispatch_send seq (ok d) n =
      let (r, w) = handle_send s.platform uid d n.world in
      reply_send seq d r (record n { world = w })

  unfoldable pub reply_read : ℕ → Result (Unit {0}) → Node → Node
  reply_read seq (err e) n = send_error seq (codes "read_failed") (Said.of_error e) n
  reply_read seq (ok r) n = n

  unfoldable pub dispatch_read : ℕ → Result ReadData → Node → Node
  unfolding reply_read
  dispatch_read seq (err e) n = send_error seq (codes "bad_data") (Said.of_error e) n
  dispatch_read seq (ok d) n =
      let (r, w) = handle_read s.platform uid d n.world in reply_read seq r (record n { world = w })

  -- The `switch` of `dispatch`.
  unfoldable pub dispatch_frame : Frame → Node → Node
  unfolding dispatch_send dispatch_read
  dispatch_frame f n =
      if text_eq f.op op_ping
      then send_frame op_pong f.seq none n
      else if text_eq f.op op_read
      then dispatch_read f.seq (s.codec.decode_read f.raw) n
      else if text_eq f.op op_send
      then dispatch_send f.seq (s.codec.decode_send f.raw) n
      else send_error f.seq (codes "unknown_op") (Said.of_op f.op) n

  unfoldable pub dispatch : Text → Node → Node
  unfolding dispatch_frame
  dispatch payload n = elim (s.codec.decode_frame payload) [
    | err e ↦ send_error 0 (codes "bad_frame") (Said.of_error e) n
    | ok f ↦ dispatch_frame f n
  ]

-- ===== src/Ws/Frame.antt =====
-- internal/ws/frame.go: the frames of the WebSocket. How they are written as JSON is what `encoding/json`
-- does.
use blahaj_chat_server.Common.{ℕ, Text, codes, Option, none, some}
use blahaj_chat_server.Errors.{Error, Result, ok, err}
use blahaj_chat_server.Service.Chat.{SendData, ReadData, MsgData}

abbrev pub Op : Type 0
Op = Text

abbrev pub op_send : Op
op_send = codes "send"

abbrev pub op_read : Op
op_read = codes "read"

abbrev pub op_ping : Op
op_ping = codes "ping"

abbrev pub op_ack_ok : Op
op_ack_ok = codes "ackok"

abbrev pub op_error : Op
op_error = codes "error"

abbrev pub op_msg : Op
op_msg = codes "msg"

abbrev pub op_pong : Op
op_pong = codes "pong"

-- `Data` is a text that is decoded later.
pub record Frame : Type 0 where
  pub op : Op
  pub seq : ℕ
  pub raw : Text

pub record AckOkData : Type 0 where
  pub msg_id : Text
  pub client_msg_id : Text
  pub conv_id : Text
  pub ts : ℕ

-- `err.Error()`, or the op of the frame.
pub data Said : Type 0 where
  of_error : Error → Said
  of_op : Op → Said

pub record ErrorData : Type 0 where
  pub code : Text
  pub said : Said

-- The values that the server sends as `Data`.
pub data Payload : Type 0 where
  ack_ok : AckOkData → Payload
  error : ErrorData → Payload
  msg : MsgData → Payload

pub record Codec : Type 0 where
  pub decode_frame : Text → Result Frame
  pub decode_send : Text → Result SendData
  pub decode_read : Text → Result ReadData
  pub encode_payload : Payload → Result Text
  pub encode_frame : Op → ℕ → Option Text → Result Text

-- `marshalFrame`
unfoldable pub marshal_frame : Codec → Op → ℕ → Option Payload → Result Text
marshal_frame j op seq none = j.encode_frame op seq none
marshal_frame j op seq (some payload) = elim (j.encode_payload payload) [
  | err e ↦ err e
  | ok raw ↦ j.encode_frame op seq (some raw)
]

-- ===== src/Examples/Frames.antt =====
-- A connection that sends a message, a broadcast, and a request for a code.
use blahaj_chat_server.Common.{
  ◌≡◌, refl, arith, false, none, some, [], ◌∷◌, codes, Text, lookup, insert, without, nat_eq, ◌⊎◌,
}
use blahaj_chat_server.Errors.{Error, Result, ok, err}
use blahaj_chat_server.Model.{msg_type_text}
use blahaj_chat_server.Platform.Reliable.{reliable}
use blahaj_chat_server.Bus.{new_kafka}
use blahaj_chat_server.Service.Email.{Post}
use blahaj_chat_server.Ws.Hub.{
  Client, Hub, Envelope, new_hub, connect, add_client, send_to_users, send_raw, Step,
}
use blahaj_chat_server.Ws.Hub.Delivery.{received}
use blahaj_chat_server.Ws.Hub.Overflow.{
  Busy, idle, enqueue, broadcast, handle_event, of_hub, of_event, BusySteps, start, after,
}
use blahaj_chat_server.Ws.Hub.Reach.{run_broadcast-received}
use blahaj_chat_server.Ws.Frame.{Frame, Payload, Codec, op_send}
use blahaj_chat_server.Ws.Dispatch.{Node, Wiring, dispatch}
use blahaj_chat_server.Ws.Dispatch.Published.{Says, dispatch-Published}
use blahaj_chat_server.Ws.Dispatch.Answers.{AnswersMarshal, Silent, Answered, dispatch-answers}
use blahaj_chat_server.Examples.Fixtures.{small}

abbrev news : Envelope
news = record { targets = 4 ∷ 5 ∷ []; frame = 9 ∷ [] }

abbrev joined : Hub
joined = add_client 0 (record (connect 4 new_hub) { register = [] })

-- The client has been answered, and an event comes in.
abbrev replied : Busy
replied = record idle { hub = send_raw 0 (7 ∷ []) joined }

abbrev asked : Busy
asked =
    handle_event (record { msg_id = []; conv_id = []; targets = 4 ∷ 5 ∷ []; frame = 9 ∷ [] })
      replied

waits : (connect 4 new_hub).register ≡ 0 ∷ []
unfolding connect
waits = refl

joined_runs : joined.crashed ≡ false
unfolding connect add_client lookup insert
joined_runs = refl

replied_runs : replied.hub.crashed ≡ false
unfolding connect add_client lookup insert send_raw
replied_runs = refl

asked_runs : asked.hub.crashed ≡ false
unfolding connect add_client lookup insert send_raw handle_event broadcast enqueue
asked_runs = refl

steps : BusySteps idle asked
unfolding connect add_client
steps =
    after
      (after
        (after (after start (of_hub refl (Step.connecting 4)))
          (of_hub refl (Step.run_register {c = 0} {more = []} waits)))
        (of_hub joined_runs (Step.reply 0 (7 ∷ []))))
      (of_event (record { msg_id = []; conv_id = []; targets = 4 ∷ 5 ∷ []; frame = 9 ∷ [] })
        replied_runs)

abbrev client : Client
client = record { user_id = 4; queue = (7 ∷ []) ∷ []; closed = false }

client_there : lookup 0 asked.hub.conns ≡ some client
unfolding add_client lookup connect insert send_raw handle_event broadcast enqueue without
client_there = refl

asked_queue : asked.hub.broadcast ≡ news ∷ []
unfolding add_client lookup connect insert send_raw handle_event broadcast enqueue
asked_queue = refl

run_broadcast-received_example :
    lookup 0 (send_to_users (4 ∷ 5 ∷ []) (9 ∷ []) (record asked.hub { broadcast = [] })).conns
    ≡ some (received (4 ∷ 5 ∷ []) (9 ∷ []) 0 client asked.hub)
run_broadcast-received_example =
    run_broadcast-received news [] 0 client steps asked_runs asked_queue (refl, (refl, tt))
      client_there (omega arith)

-- A message with no content cannot be written.
abbrev encode_content : Text → Result Text
encode_content [] = err Error.bad_json
encode_content (c ∷ content) = ok (c ∷ content)

abbrev encode : Payload → Result Text
encode (Payload.ack_ok d) = ok (codes "ack")
encode (Payload.error d) = ok (codes "error")
encode (Payload.msg m) = encode_content m.content

abbrev codec : Codec
codec = record {
  decode_frame = λ t. ok (record { op = op_send; seq = 3; raw = t });
  decode_send = λ t. ok (record {
    client_msg_id = codes "a";
    conv_id = codes "d";
    type = msg_type_text;
    content = t;
    reply_to = none;
    mentions = [];
  });
  decode_read = λ t. ok (record { conv_id = codes "d"; msg_id = t });
  encode_payload = encode;
  encode_frame = λ op seq raw. ok (seq ∷ op);
}

abbrev wiring : Wiring
wiring = record { platform = reliable; codec = codec; write_outcome = λ n. none }

abbrev node : Node
node = record { world = small; hub = joined; bus = some new_kafka }

dispatch-Published_example : Says wiring 0 1 node (dispatch wiring 0 1 (codes "hi") node)
dispatch-Published_example = dispatch-Published wiring 0 1 (codes "hi") node

codec-AnswersMarshal : AnswersMarshal codec
codec-AnswersMarshal = record {
  bare = λ op seq. (seq ∷ op, refl);
  ack = λ d. (codes "ack", refl);
  error = λ d. (codes "error", refl);
  around = λ op seq payload text e. (seq ∷ op, refl);
}

abbrev hi : Frame
hi = record { op = op_send; seq = 3; raw = codes "hi" }

dispatch-answers_example :
    Silent wiring 0 1 hi node (dispatch wiring 0 1 (codes "hi") node)
    ⊎ Answered wiring 0 1 hi node (dispatch wiring 0 1 (codes "hi") node)
dispatch-answers_example =
    dispatch-answers wiring 0 1 codec-AnswersMarshal (codes "hi") hi node refl

abbrev post : Post
post = record { drawn = λ n. 42; mail_outcome = λ n email code. none }

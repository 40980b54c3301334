-- ===== src/Ws/Dispatch/Answers.antt =====
-- client.go: how a connection answers the frames of its client.
use blahaj_chat_server.Common.{
  ℕ, ◌≡◌, ◌≤◌, ◌<◌, refl, sym, subst, ◌∙◌, Bool, true, false, Option, none, some, List, [], ◌∷◌,
  ◌++◌, ◌⊎◌, inl, inr, Text, codes, ltb, ltb→lt, length, lookup, insert, nat_eq, text_eq,
  text_eq_iff, arith, Bool-cases,
}
use blahaj_chat_server.Errors.{Error, Result, ok, err}
use blahaj_chat_server.Model.{UserId}
use blahaj_chat_server.Platform.{World}
use blahaj_chat_server.Service.Chat.{SendData, ReadData, MsgData, handle_send, handle_read}
use blahaj_chat_server.Ws.Hub.{Client, Hub, send_buf_size, send_raw}
use blahaj_chat_server.Ws.Hub.Same.{alive}
use blahaj_chat_server.Ws.Frame.{
  Codec, AckOkData, ErrorData, Op, op_send, op_read, op_ping, op_ack_ok, op_error, op_pong, Frame,
  Said, Payload, marshal_frame,
}
use blahaj_chat_server.Ws.Dispatch.{
  Node, Wiring, send_frame, send_error, publish_event, fan_out_to, fan_out, ack_of, reply_send,
  dispatch_send, reply_read, dispatch_read, dispatch_frame, dispatch,
}

abbrev pub failure : Text → Said → Option Payload
failure code said = some (Payload.error (record { code = code; said = said }))

-- What `encoding/json` documents: structs of texts and integers, and a frame around what it has written,
-- can be written. The content of a message is a text that was written elsewhere, and may be refused.
pub record AnswersMarshal (j : Codec) : Type 0 where
  pub bare : (op : Op) (seq : ℕ) → (raw : Text) × (j.encode_frame op seq none ≡ ok raw)
  pub ack : (d : AckOkData) → (raw : Text) × (j.encode_payload (Payload.ack_ok d) ≡ ok raw)
  pub error : (d : ErrorData) → (raw : Text) × (j.encode_payload (Payload.error d) ≡ ok raw)
  pub around :
      (op : Op) (seq : ℕ) (payload : Payload) (data_text : Text)
      → j.encode_payload payload ≡ ok data_text
      → (raw : Text) × (j.encode_frame op seq (some data_text) ≡ ok raw)

-- What becomes of a frame that a connection has for its client. If the connection is open and its
-- channel has room, the frame is the last there; if the channel is full, the connection is going to be
-- unregistered; and if it is closed, nothing happens. No other connection and no queue of the hub changes.
pub data Offered (c : ℕ) (raw : Text) (h : Hub) : Hub → Type 0 where
  queued :
      (k : Client) {h' : Hub}
      → lookup c h.conns ≡ some k
      → k.closed ≡ false
      → length k.queue < send_buf_size
      → h' ≡ record h { conns = insert c (record k { queue = k.queue ++ raw ∷ [] }) h.conns }
      → Offered c raw h h'
  overrun :
      (k : Client) {h' : Hub}
      → lookup c h.conns ≡ some k
      → k.closed ≡ false
      → send_buf_size ≤ length k.queue
      → h' ≡ record h { leaving = h.leaving ++ c ∷ [] }
      → Offered c raw h h'
  gone : {h' : Hub} → alive (lookup c h.conns) ≡ false → h' ≡ h → Offered c raw h h'

send_raw-Offered : (c : ℕ) (raw : Text) (h : Hub) → Offered c raw h (send_raw c raw h)
unfolding send_raw
send_raw-Offered c raw h = go (lookup c h.conns) refl
  where
    go : (o : Option Client) → lookup c h.conns ≡ o → Offered c raw h (send_raw c raw h)
    go none e = gone (ground (arith, e)) (ground (arith, e))
    go (some k) e = elim (Bool-cases k.closed) [
      | inl i ↦ gone (ground (arith, e, i)) (ground (arith, e, i))
      | inr i ↦ elim (Bool-cases (ltb (length k.queue) send_buf_size)) [
        | inl j ↦ queued k e i (ltb→lt _ _ j) (ground (arith, e, i, j))
        | inr j ↦ overrun k e i (ground (arith, j)) (ground (arith, e, i, j))
      ]
    ]

module _ (s : Wiring) (c : ℕ) (uid : UserId) where
  -- The protocol: which answer a frame may have, given what the services return for it.
  pub data Answer (f : Frame) (w : World) : Op → Option Payload → Type 0 where
    pong : f.op ≡ op_ping → Answer f w op_pong none
    acknowledged :
        (d : SendData) (m : MsgData) (created : Bool)
        → f.op ≡ op_send
        → s.codec.decode_send f.raw ≡ ok d
        → (handle_send s.platform uid d w).0 ≡ ok (m, created)
        → Answer f w op_ack_ok (some (ack_of s c uid d m))
    send_failed :
        (d : SendData) (e : Error)
        → f.op ≡ op_send
        → s.codec.decode_send f.raw ≡ ok d
        → (handle_send s.platform uid d w).0 ≡ err e
        → Answer f w op_error (failure (codes "send_failed") (Said.of_error e))
    bad_send :
        (e : Error)
        → f.op ≡ op_send
        → s.codec.decode_send f.raw ≡ err e
        → Answer f w op_error (failure (codes "bad_data") (Said.of_error e))
    read_failed :
        (d : ReadData) (e : Error)
        → f.op ≡ op_read
        → s.codec.decode_read f.raw ≡ ok d
        → (handle_read s.platform uid d w).0 ≡ err e
        → Answer f w op_error (failure (codes "read_failed") (Said.of_error e))
    bad_read :
        (e : Error)
        → f.op ≡ op_read
        → s.codec.decode_read f.raw ≡ err e
        → Answer f w op_error (failure (codes "bad_data") (Said.of_error e))
    unknown :
        (text_eq f.op op_ping ≡ false)
        → (text_eq f.op op_read ≡ false)
        → (text_eq f.op op_send ≡ false)
        → Answer f w op_error (failure (codes "unknown_op") (Said.of_op f.op))

  -- An answer of the protocol, with the number of the frame that it answers, was offered to the channel of
  -- the connection.
  pub record Answered (f : Frame) (n n' : Node) : Type 0 where
    pub op : Op
    pub payload : Option Payload
    pub answer : Answer f n.world op payload
    pub raw : Text
    pub written : marshal_frame s.codec op f.seq payload ≡ ok raw
    pub sent : Offered c raw n.hub n'.hub

  -- A read report that was accepted, which nothing answers.
  pub record Silent (f : Frame) (n n' : Node) : Type 0 where
    pub report : ReadData
    pub is_read : f.op ≡ op_read
    pub decoded : s.codec.decode_read f.raw ≡ ok report
    pub accepted : (handle_read s.platform uid report n.world).0 ≡ ok tt
    pub hub : n'.hub ≡ n.hub

  fan_out_to-hub :
      (d : SendData) (m : MsgData) (r : Result (List UserId)) (n : Node)
      → (fan_out_to s c uid d m r n).hub ≡ n.hub
  unfolding fan_out_to publish_event
  fan_out_to-hub d m (err e) n = refl
  fan_out_to-hub d m (ok members) n = ground arith

  fan_out-hub : (d : SendData) (m : MsgData) (n : Node) → (fan_out s c uid d m n).hub ≡ n.hub
  unfolding fan_out
  fan_out-hub d m n = fan_out_to-hub d m _ _

  module _ (laws : AnswersMarshal s.codec) where
    -- The payloads of answers.
    abbrev AnswerPayload : Option Payload → Type 0
    AnswerPayload none = Unit {0}
    AnswerPayload (some (Payload.ack_ok d)) = Unit {0}
    AnswerPayload (some (Payload.error d)) = Unit {0}
    AnswerPayload (some (Payload.msg m)) = ◌≡◌ {A = Bool} true false

    writes_payload :
        (op : Op) (seq : ℕ) (p : Payload)
        → (raw : Text) × (s.codec.encode_payload p ≡ ok raw)
        → (raw : Text) × (marshal_frame s.codec op seq (some p) ≡ ok raw)
    unfolding marshal_frame
    writes_payload op seq p (data_text, e) =
        let (raw, k) = laws.around op seq p data_text e in (raw, ground (arith, e, k))

    writes :
        (op : Op) (seq : ℕ) (p : Option Payload)
        → AnswerPayload p
        → (raw : Text) × (marshal_frame s.codec op seq p ≡ ok raw)
    unfolding marshal_frame
    writes op seq none a = laws.bare op seq
    writes op seq (some (Payload.ack_ok d)) a = writes_payload op seq _ (laws.ack d)
    writes op seq (some (Payload.error d)) a = writes_payload op seq _ (laws.error d)
    writes op seq (some (Payload.msg m)) a = cc

    send_frame-hub :
        (op : Op) (seq : ℕ) (p : Option Payload) (n : Node) (a : AnswerPayload p)
        → (send_frame s c uid op seq p n).hub ≡ send_raw c (writes op seq p a).0 n.hub
    unfolding send_frame
    send_frame-hub op seq p n a = ground (arith, (writes op seq p a).1)

    one :
        (f : Frame) (op : Op) (p : Option Payload) (n n' : Node) (a : AnswerPayload p)
        → Answer f n.world op p
        → n'.hub ≡ send_raw c (writes op f.seq p a).0 n.hub
        → Answered f n n'
    one f op p n n' a b h = record {
      op = op;
      payload = p;
      answer = b;
      raw = (writes op f.seq p a).0;
      written = (writes op f.seq p a).1;
      sent =
          subst (Offered c (writes op f.seq p a).0 n.hub) (sym h)
            (send_raw-Offered c (writes op f.seq p a).0 n.hub);
    }

    send_error-hub :
        (seq : ℕ) (code : Text) (said : Said) (n : Node)
        → (send_error s c uid seq code said n).hub
          ≡ send_raw c (writes op_error seq (failure code said) tt).0 n.hub
    unfolding send_error
    send_error-hub seq code said n = send_frame-hub op_error seq (failure code said) n tt

    sent :
        (f : Frame) (d : SendData) (r : Result (MsgData × Bool)) (n : Node)
        → f.op ≡ op_send
        → s.codec.decode_send f.raw ≡ ok d
        → (handle_send s.platform uid d n.world).0 ≡ r
        → Answered f n (
            reply_send s c uid f.seq d r
              (record n { world = (handle_send s.platform uid d n.world).1 }))
    unfolding reply_send
    sent f d (err e) n o k h =
        one f op_error _ n _ tt (Answer.send_failed d e o k h) (send_error-hub f.seq _ _ _)
    sent f d (ok (m, false)) n o k h =
        one f op_ack_ok _ n _ tt (Answer.acknowledged d m false o k h)
          (send_frame-hub op_ack_ok f.seq _ _ tt)
    sent f d (ok (m, true)) n o k h =
        one f op_ack_ok _ n _ tt (Answer.acknowledged d m true o k h)
          (fan_out-hub d m _ ∙ send_frame-hub op_ack_ok f.seq _ _ tt)

    send_answered :
        (f : Frame) (r : Result SendData) (n : Node)
        → f.op ≡ op_send
        → s.codec.decode_send f.raw ≡ r
        → Answered f n (dispatch_send s c uid f.seq r n)
    unfolding dispatch_send
    send_answered f (err e) n o k =
        one f op_error _ n _ tt (Answer.bad_send e o k) (send_error-hub f.seq _ _ n)
    send_answered f (ok d) n o k = sent f d _ n o k refl

    reported :
        (f : Frame) (d : ReadData) (r : Result (Unit {0})) (n : Node)
        → f.op ≡ op_read
        → s.codec.decode_read f.raw ≡ ok d
        → (handle_read s.platform uid d n.world).0 ≡ r
        → let n' =
            reply_read s c uid f.seq r
              (record n { world = (handle_read s.platform uid d n.world).1 }) in
          Silent f n n' ⊎ Answered f n n'
    unfolding reply_read
    reported f d (err e) n o k h =
        inr (one f op_error _ n _ tt (Answer.read_failed d e o k h) (send_error-hub f.seq _ _ _))
    reported f d (ok r) n o k h =
        inl (record { report = d; is_read = o; decoded = k; accepted = h; hub = refl })

    read_answered :
        (f : Frame) (r : Result ReadData) (n : Node)
        → f.op ≡ op_read
        → s.codec.decode_read f.raw ≡ r
        → Silent f n (dispatch_read s c uid f.seq r n)
          ⊎ Answered f n (dispatch_read s c uid f.seq r n)
    unfolding dispatch_read
    read_answered f (err e) n o k =
        inr (one f op_error _ n _ tt (Answer.bad_read e o k) (send_error-hub f.seq _ _ n))
    read_answered f (ok d) n o k = reported f d _ n o k refl

    frame_answered :
        (f : Frame) (n : Node)
        → Silent f n (dispatch_frame s c uid f n) ⊎ Answered f n (dispatch_frame s c uid f n)
    unfolding dispatch_frame
    frame_answered f n = elim (Bool-cases (text_eq f.op op_ping)) [
      | inl e ↦ rw e (
          inr (
            one f op_pong none n _ tt (Answer.pong ((text_eq_iff f.op op_ping).0 e))
              (send_frame-hub op_pong f.seq none n tt)))
      | inr e ↦ elim (Bool-cases (text_eq f.op op_read)) [
        | inl i ↦ rw (e, i) (read_answered f _ n ((text_eq_iff f.op op_read).0 i) refl)
        | inr i ↦ elim (Bool-cases (text_eq f.op op_send)) [
          | inl j ↦ rw (e, i, j) (inr (send_answered f _ n ((text_eq_iff f.op op_send).0 j) refl))
          | inr j ↦
              rw (e, i, j)
                (inr (one f op_error _ n _ tt (Answer.unknown e i j) (send_error-hub f.seq _ _ n)))
        ]
      ]
    ]

    -- Where answers can be written, a connection offers to its own channel, for each frame that it can read,
    -- one answer: the one that the protocol has for what the services return, under the number of the frame.
    -- The answer is queued if the connection is open and has room; a full channel makes the connection
    -- leave, and a closed one drops the answer. Only a read report that is accepted has no answer. No
    -- other connection is written to.
    pub dispatch-answers :
        (payload : Text) (f : Frame) (n : Node)
        → s.codec.decode_frame payload ≡ ok f
        → Silent f n (dispatch s c uid payload n) ⊎ Answered f n (dispatch s c uid payload n)
    unfolding dispatch
    dispatch-answers payload f n e = rw (e, dispatch) (frame_answered f n)

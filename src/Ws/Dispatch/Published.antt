-- ===== src/Ws/Dispatch/Published.antt =====
-- client.go: which events leave a connection.
use blahaj_chat_server.Common.{
  ℕ, ◌≡◌, refl, sym, ap, subst, Bool, true, false, Option, none, some, List, ◌⊎◌, inl, inr, Text,
  text_eq, arith, Bool-cases,
}
use blahaj_chat_server.Errors.{Result, ok, err}
use blahaj_chat_server.Model.{Instant, UserId}
use blahaj_chat_server.Platform.{World}
use blahaj_chat_server.Dao.State.{list_members}
use blahaj_chat_server.Dao.Quiet.{Quiet-list_members}
use blahaj_chat_server.Service.Chat.{
  SendData, ReadData, MsgData, new_message, msg_data_of, handle_send,
}
use blahaj_chat_server.Service.Chat.Effect.{Stored, handle_send_created}
use blahaj_chat_server.Ws.Frame.{
  Op, op_send, op_read, op_ping, op_ack_ok, op_msg, op_pong, Frame, Said, Payload, marshal_frame,
}
use blahaj_chat_server.Ws.Dispatch.{
  Node, Wiring, hub_publish, send_frame, send_error, publish_event, chat_event, fan_out_to, fan_out,
  ack_of, reply_send, dispatch_send, reply_read, dispatch_read, dispatch_frame, dispatch,
}

module _ (s : Wiring) (c : ℕ) (uid : UserId) where
  -- The event that was handed to the bus is that of a message of the user, stored in between; it goes to
  -- the members of its conversation, and its frame is the message.
  pub record Published (n n' : Node) : Type 0 where
    pub sent : SendData
    pub id : Text
    pub time : Instant
    pub stored : Stored (new_message uid sent id time) n.world.db n'.world.db
    pub members : List UserId
    pub before : World
    pub found : (list_members s.platform sent.conv_id before).0 ≡ ok members
    pub same : before.db ≡ n'.world.db
    pub frame : Text
    pub written :
        marshal_frame s.codec op_msg 0
          (some (Payload.msg (msg_data_of (new_message uid sent id time) sent.mentions)))
        ≡ ok frame
    pub bus :
        n'.bus
        ≡ (hub_publish
            (s.write_outcome (list_members s.platform sent.conv_id before).1.calls)
            (chat_event s c uid sent
              (msg_data_of (new_message uid sent id time) sent.mentions)
              members
              frame)
            n.bus).1

  -- Nothing was published, or what is described above.
  abbrev pub Says : Node → Node → Type 0
  Says n n' = (n'.bus ≡ n.bus) ⊎ Published n n'

  send_frame-bus :
      (op : Op) (seq : ℕ) (p : Option Payload) (n : Node)
      → (send_frame s c uid op seq p n).bus ≡ n.bus
  unfolding send_frame
  send_frame-bus op seq p n = ground arith

  send_frame-world :
      (op : Op) (seq : ℕ) (p : Option Payload) (n : Node)
      → (send_frame s c uid op seq p n).world ≡ n.world
  unfolding send_frame
  send_frame-world op seq p n = ground arith

  send_error-bus :
      (seq : ℕ) (code : Text) (said : Said) (n : Node)
      → (send_error s c uid seq code said n).bus ≡ n.bus
  unfolding send_error
  send_error-bus seq code said n = send_frame-bus _ seq _ n

  Says-fan_out :
      (d : SendData) (id : Text) (t : Instant) (n0 n : Node)
      → Stored (new_message uid d id t) n0.world.db n.world.db
      → n.bus ≡ n0.bus
      → Says n0 (fan_out s c uid d (msg_data_of (new_message uid d id t) d.mentions) n)
  unfolding fan_out publish_event
  Says-fan_out d id t n0 n stored b = members_lem (list_members s.platform d.conv_id n.world).0 refl
    where
      m : MsgData
      m = msg_data_of (new_message uid d id t) d.mentions

      w : World
      w = (list_members s.platform d.conv_id n.world).1

      at : Node
      at = record n { world = w }

      quiet : w.db ≡ n.world.db
      quiet = (Quiet-list_members s.platform d.conv_id).at n.world

      members_lem :
          (r : Result (List UserId))
          → (list_members s.platform d.conv_id n.world).0 ≡ r
          → Says n0 (fan_out_to s c uid d m r at)
      members_lem (err e) k = inl b
      members_lem (ok members) k =
          frame_lem (marshal_frame s.codec op_msg 0 (some (Payload.msg m))) refl
        where
          frame_lem :
              (r : Result Text)
              → marshal_frame s.codec op_msg 0 (some (Payload.msg m)) ≡ r
              → Says n0 (fan_out_to s c uid d m (ok members) at)
          frame_lem (err e) j = inl (ground arith)
          frame_lem (ok frame) j =
              let shown : fan_out_to s c uid d m (ok members) at
                  ≡ publish_event s c uid (chat_event s c uid d m members frame) at =
                ground arith in
              subst (Says n0) (sym shown) (
                inr (record {
                  sent = d;
                  id = id;
                  time = t;
                  stored = subst (Stored (new_message uid d id t) n0.world.db) (sym quiet) stored;
                  members = members;
                  before = n.world;
                  found = k;
                  same = sym quiet;
                  frame = frame;
                  written = j;
                  bus =
                      ap
                        (λ x.
                          (hub_publish (s.write_outcome w.calls)
                            (chat_event s c uid d m members frame) x).1)
                        b;
                }))

  Says-reply_send :
      (seq : ℕ) (d : SendData) (r : Result (MsgData × Bool)) (w : World) (n : Node)
      → handle_send s.platform uid d n.world ≡ (r, w)
      → Says n (reply_send s c uid seq d r (record n { world = w }))
  unfolding reply_send
  Says-reply_send seq d (err e) w n h = inl (send_error-bus seq _ _ _)
  Says-reply_send seq d (ok (m, false)) w n h = inl (send_frame-bus _ seq _ _)
  Says-reply_send seq d (ok (m, true)) w n h =
      let (t, id, stored, described, valid, v, same, member) =
        handle_send_created s.platform uid d n.world h in
      let n1 =
        send_frame s c uid op_ack_ok seq (some (ack_of s c uid d m)) (record n { world = w }) in
      subst (λ x. Says n (fan_out s c uid d x n1)) (sym described)
        (Says-fan_out d id t n n1
          (subst (λ (z : World). Stored (new_message uid d id t) n.world.db z.db)
            (sym (send_frame-world op_ack_ok seq _ (record n { world = w }))) stored)
          (send_frame-bus op_ack_ok seq _ (record n { world = w })))

  Says-dispatch_send :
      (seq : ℕ) (r : Result SendData) (n : Node) → Says n (dispatch_send s c uid seq r n)
  unfolding dispatch_send
  Says-dispatch_send seq (err e) n = inl (send_error-bus seq _ _ n)
  Says-dispatch_send seq (ok d) n =
      Says-reply_send seq d (handle_send s.platform uid d n.world).0
        (handle_send s.platform uid d n.world).1 n refl

  reply_read-bus :
      (seq : ℕ) (r : Result (Unit {0})) (n : Node) → (reply_read s c uid seq r n).bus ≡ n.bus
  unfolding reply_read
  reply_read-bus seq (err e) n = send_error-bus seq _ _ n
  reply_read-bus seq (ok r) n = refl

  dispatch_read-bus :
      (seq : ℕ) (r : Result ReadData) (n : Node) → (dispatch_read s c uid seq r n).bus ≡ n.bus
  unfolding dispatch_read
  dispatch_read-bus seq (err e) n = send_error-bus seq _ _ n
  dispatch_read-bus seq (ok d) n = reply_read-bus seq _ _

  Says-dispatch_frame : (f : Frame) (n : Node) → Says n (dispatch_frame s c uid f n)
  unfolding dispatch_frame
  Says-dispatch_frame f n = elim (Bool-cases (text_eq f.op op_ping)) [
    | inl e ↦ rw e (inl (send_frame-bus op_pong f.seq none n))
    | inr e ↦ elim (Bool-cases (text_eq f.op op_read)) [
      | inl i ↦ rw (e, i) (inl (dispatch_read-bus f.seq _ n))
      | inr i ↦ elim (Bool-cases (text_eq f.op op_send)) [
        | inl j ↦ rw (e, i, j) (Says-dispatch_send f.seq _ n)
        | inr j ↦ rw (e, i, j) (inl (send_error-bus f.seq _ _ n))
      ]
    ]
  ]

  -- Whatever a connection reads, it hands nothing to the bus, or one event: that of a message of the
  -- user of the connection which this very dispatch has stored, addressed to the members of its
  -- conversation as they were then, with the message itself as the frame.
  pub dispatch-Published : (payload : Text) (n : Node) → Says n (dispatch s c uid payload n)
  unfolding dispatch
  dispatch-Published payload n = decoded (s.codec.decode_frame payload) refl
    where
      decoded :
          (r : Result Frame)
          → s.codec.decode_frame payload ≡ r
          → Says n (dispatch s c uid payload n)
      decoded (err e) k = rw (k, dispatch) (inl (send_error-bus 0 _ _ n))
      decoded (ok f) k = rw (k, dispatch) (Says-dispatch_frame f n)

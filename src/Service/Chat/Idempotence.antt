-- ===== src/Service/Chat/Idempotence.antt =====
-- chat.go: a `client_msg_id` that has been sent before.
use blahaj_chat_server.Common.{
  ℕ, zero, suc, ◌≡◌, ◌≢◌, refl, sym, ap, subst, Bool, true, false, Option, none, some, List, [],
  ◌∷◌, Text, text_eq, text_eq_iff, filter, head?, arith,
}
use blahaj_chat_server.Errors.{Error, Result, ok, err, msg_not_found}
use blahaj_chat_server.Model.{UserId, Instant, Message, Db}
use blahaj_chat_server.Platform.{Platform, World, new_id, tick}
use blahaj_chat_server.Platform.Sql.{query}
use blahaj_chat_server.Platform.Redis.{
  set_nx_value_by_key_expire, get_value_by_key, live, value_or_empty,
}
use blahaj_chat_server.Dao.Message.{get_message_by_id, find_message}
use blahaj_chat_server.Service.Chat.{
  SendData, MsgData, message_to_msg_data, msg_data_of, send_idem_key, wait_50ms, wait_loop,
  wait_existing_msg_data, send_again, send_new, handle_send,
}
use blahaj_chat_server.Service.Chat.Effect.{send_new-ok, after_key}

head?-filter {ℓ} :
    {A : Type ℓ} (f : A → Bool) (xs : List A) (x : A) → head? (filter f xs) ≡ some x → f x ≡ true
head?-filter f [] x h = cc
head?-filter f (y ∷ xs) x h = ground (arith, head?-filter f xs x)

find_message-msg_id :
    (id : Text) (db : Db) (m : Message) → find_message id db ≡ ok m → m.msg_id ≡ id
unfolding find_message
find_message-msg_id id db m h =
    (text_eq_iff m.msg_id id).0
      (head?-filter (λ (x : Message). text_eq x.msg_id id) db.messages m (ground arith))

module _ (p : Platform) where
  not_created :
      (uid : UserId) (d : SendData) (key id : Text) (w : World) (reply : MsgData) (w' : World)
      → send_new p uid d key id w ≡ (ok (reply, false), w')
      → ⊥
  not_created uid d key id w reply w' h = let (_, _, r, _) = send_new-ok p uid d key id w h in cc

  wait_loop-ok :
      (n : ℕ) (e : Error) (id : Text) (w : World) {r : MsgData} {w' : World}
      → wait_loop p n e id w ≡ (ok r, w')
      → (m : Message) × (find_message id w.db ≡ ok m) × (r ≡ msg_data_of m []) × (w'.db ≡ w.db)
  unfolding wait_loop get_message_by_id query wait_50ms message_to_msg_data
  wait_loop-ok zero e id w h = cc
  wait_loop-ok (suc n) e id w {r} {w'} h =
      step (find_message id w.db) refl
        (λ k. wait_loop-ok n msg_not_found id (tick (tick w)) {r = r} {w' = w'} k)
    where
      step :
          (found : Result Message)
          → find_message id w.db ≡ found
          → (wait_loop p n msg_not_found id (tick (tick w)) ≡ (ok r, w')
              → (m : Message) × (find_message id w.db ≡ ok m)
                × (r ≡ msg_data_of m [])
                × (w'.db ≡ w.db))
          → (m : Message) × (find_message id w.db ≡ ok m) × (r ≡ msg_data_of m []) × (w'.db ≡ w.db)
      step (ok m) k ih = (m, k, ground arith, ground arith)
      step (err x) k ih = ih (ground arith)

  wait_existing-ok :
      (id : Text) (w : World) {r : MsgData} {w' : World}
      → wait_existing_msg_data p id w ≡ (ok r, w')
      → (m : Message) × (find_message id w.db ≡ ok m) × (r ≡ msg_data_of m []) × (w'.db ≡ w.db)
  unfolding wait_existing_msg_data
  wait_existing-ok [] w h = cc
  wait_existing-ok (c ∷ id) w h = wait_loop-ok 3 msg_not_found (c ∷ id) w h

  send_again-value :
      (key : Text) (w : World) {r : MsgData × Bool} {w' : World}
      → send_again p key w ≡ (ok r, w')
      → (wait_existing_msg_data p (value_or_empty (live (p.clock w.calls) key w)) (tick w)
          ≡ (ok r.0, w'))
        × (r.1 ≡ false)
  unfolding send_again get_value_by_key
  send_again-value key w h = ground arith

  value-ok : (o : Option Text) (id : Text) → value_or_empty o ≡ id → id ≢ [] → o ≡ some id
  value-ok none id h k = absurd (k (sym h))
  value-ok (some v) id h k = ap some h

  send_again-ok :
      (key : Text) (w : World) {r : MsgData × Bool} {w' : World}
      → send_again p key w ≡ (ok r, w')
      → (m : Message) × (value_or_empty (live (p.clock w.calls) key w) ≡ m.msg_id)
        × (find_message m.msg_id w.db ≡ ok m)
        × (r ≡ (msg_data_of m [], false))
        × (w'.db ≡ w.db)
  send_again-ok key w {r} {w'} h =
      let (waited, old) = send_again-value key w h in
      let id = value_or_empty (live (p.clock w.calls) key w) in
      let (m, found, reply, same) = wait_existing-ok id (tick w) waited in
      let named = find_message-msg_id id w.db m found in
      (m, sym named, subst (λ x. find_message x w.db ≡ ok m) (sym named) found, ground arith, same)

  handle_send-taken :
      (uid : UserId) (d : SendData) (w : World) {reply : MsgData} {w' : World}
      → handle_send p uid d w ≡ (ok (reply, false), w')
      → send_again p (send_idem_key uid d.client_msg_id) (tick (tick w)) ≡ (ok (reply, false), w')
  unfolding handle_send new_id set_nx_value_by_key_expire
  handle_send-taken uid d w {reply} {w'} h =
      let v = after_key p uid d w in
      let key = send_idem_key uid d.client_msg_id in
      ground (arith, not_created uid d key (p.random_id w.calls) v reply w')

  -- A send that reports an old message has changed no row: its key held the id of a stored message,
  -- and the reply describes that message.
  pub handle_send_repeated :
      (uid : UserId) (d : SendData) (w : World) {reply : MsgData} {w' : World}
      → handle_send p uid d w ≡ (ok (reply, false), w')
      → (m : Message) × (t : Instant) × (value_or_empty
            (live t (send_idem_key uid d.client_msg_id) w)
          ≡ m.msg_id)
        × (find_message m.msg_id w.db ≡ ok m)
        × (reply ≡ msg_data_of m [])
        × (w'.db ≡ w.db)
  unfolding live
  handle_send_repeated uid d w h =
      let key = send_idem_key uid d.client_msg_id in
      let (m, value, found, reply, same) =
        send_again-ok key (tick (tick w)) (handle_send-taken uid d w h) in
      (m, _, value, found, ground arith, same)

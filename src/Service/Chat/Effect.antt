-- ===== src/Service/Chat/Effect.antt =====
-- chat.go: what a send that created a message has done to the tables.
use blahaj_chat_server.Common.{
  suc, ◌+◌, ◌≡◌, subst, Bool, true, false, ◌&&◌, [], ◌∷◌, ◌++◌, Text, text_eq, leb, any, map_where,
  arith,
}
use blahaj_chat_server.Errors.{ok}
use blahaj_chat_server.Model.{UserId, Instant, Message, Conversation, Db}
use blahaj_chat_server.Platform.{Platform, World, now, new_id, tick}
use blahaj_chat_server.Platform.Sql.{transaction, statement}
use blahaj_chat_server.Platform.Redis.{set_nx_value_by_key_expire, del_value_by_key}
use blahaj_chat_server.Dao.Quiet.{Quiet-is_member}
use blahaj_chat_server.Dao.State.{
  is_member, is_other_member, max_uint32, incr_unread, incr_unread_except,
}
use blahaj_chat_server.Dao.Conversation.{update_last_msg, set_last_msg}
use blahaj_chat_server.Dao.Message.{create_message, insert_message}
use blahaj_chat_server.Service.Chat.{
  SendData, MsgData, validate_send_data, message_to_msg_data, msg_data_of, store_message,
  new_message, send_new, send_again, send_idem_key, client_msg_id_idem_ttl, give_back,
  reply_created, store_and_reply, handle_send,
}

-- The rows of a table that hold what `m` says, and nothing else changed.
pub record Stored (m : Message) (before after : Db) : Type 0 where
  pub appended : after.messages ≡ before.messages ++ record m { id = before.next_message } ∷ []
  pub next : after.next_message ≡ suc before.next_message
  pub unused : any (λ (r : Message). text_eq m.msg_id r.msg_id) before.messages ≡ false
  pub latest :
      after.conversations
      ≡ map_where
          (λ (c : Conversation). text_eq c.conv_id m.conv_id && leb c.last_msg_at m.created_at)
          (λ c. record c { last_msg_id = m.msg_id; last_msg_at = m.created_at })
          before.conversations
  pub counted :
      after.conversation_states
      ≡ map_where
          (is_other_member m.conv_id m.from_uid)
          (λ s. record s { unread = s.unread + 1 })
          before.conversation_states
  pub in_range :
      any
        (λ s. is_other_member m.conv_id m.from_uid s && leb max_uint32 s.unread)
        before.conversation_states
      ≡ false
  pub same_users : after.users ≡ before.users
  pub same_groups : after.group_infos ≡ before.group_infos
  pub same_friends : after.friendships ≡ before.friendships
  pub same_applies : after.friend_applies ≡ before.friend_applies
  pub same_blocks : after.blocks ≡ before.blocks

Stored-statements :
    (m : Message) (a b c d : Db)
    → insert_message m a ≡ ok (tt, b)
    → c ≡ set_last_msg m.conv_id m.msg_id m.created_at b
    → incr_unread m.conv_id m.from_uid c ≡ ok (tt, d)
    → Stored m a d
unfolding insert_message set_last_msg incr_unread
Stored-statements m a b c d h k j = ground arith

module _ (p : Platform) where
  store_message-Stored :
      (m : Message) (w : World) {u : Unit {0}} {w' : World}
      → store_message p m w ≡ (ok u, w')
      → Stored m w.db w'.db
  unfolding store_message create_message update_last_msg incr_unread_except transaction statement
      insert_message set_last_msg incr_unread
  store_message-Stored m w h = ground arith

  pub send_new-ok :
      (uid : UserId) (d : SendData) (key id : Text) (w : World) {r : MsgData × Bool} {w' : World}
      → send_new p uid d key id w ≡ (ok r, w')
      → (t : Instant) × Stored (new_message uid d id t) w.db w'.db
        × (r ≡ (msg_data_of (new_message uid d id t) d.mentions, true))
        × ((is_member p uid d.conv_id w).0 ≡ ok true)
  unfolding send_new store_and_reply give_back reply_created message_to_msg_data del_value_by_key
      now
  send_new-ok uid d key id w {r} {w'} h =
      let v = (is_member p uid d.conv_id w).1 in
      let t = p.clock v.calls in
      let m = new_message uid d id t in
      let stored = store_message-Stored m (tick v) {w' = (store_message p m (tick v)).1} in
      let quiet = (Quiet-is_member p uid d.conv_id).at w in
      (t, ground (arith, stored, quiet), ground arith, ground arith)

  -- The world in which `handle_send` goes on after it has taken the key.
  abbrev pub after_key : UserId → SendData → World → World
  after_key uid d w =
      (set_nx_value_by_key_expire p (send_idem_key uid d.client_msg_id) (p.random_id w.calls)
        client_msg_id_idem_ttl (tick w)).1

  handle_send-fresh :
      (uid : UserId) (d : SendData) (w : World) {reply : MsgData} {w' : World}
      → handle_send p uid d w ≡ (ok (reply, true), w')
      → (send_new p uid d
            (send_idem_key uid d.client_msg_id)
            (p.random_id w.calls)
            (after_key uid d w)
          ≡ (ok (reply, true), w'))
        × ((after_key uid d w).db ≡ w.db)
        × (validate_send_data p d ≡ true)
  unfolding handle_send new_id set_nx_value_by_key_expire send_again
  handle_send-fresh uid d w h = ground arith

  -- A send that reports a new message was valid and came from a member; in one transaction it has
  -- added that message under the next id, moved the conversation's last message if that is not later,
  -- and counted one unread message for everybody else there. The reply describes the message.
  pub handle_send_created :
      (uid : UserId) (d : SendData) (w : World) {reply : MsgData} {w' : World}
      → handle_send p uid d w ≡ (ok (reply, true), w')
      → (t : Instant) × (id : Text) × Stored (new_message uid d id t) w.db w'.db
        × (reply ≡ msg_data_of (new_message uid d id t) d.mentions)
        × (validate_send_data p d ≡ true)
        × (v : World) × (v.db ≡ w.db)
        × ((is_member p uid d.conv_id v).0 ≡ ok true)
  handle_send_created uid d w {w' = w'} h =
      let (sent, same, valid) = handle_send-fresh uid d w h in
      let v = after_key uid d w in
      let id = p.random_id w.calls in
      let (t, stored, reply, member) = send_new-ok uid d _ id v sent in
      (
        t,
        id,
        subst (λ db. Stored (new_message uid d id t) db w'.db) same stored,
        ground arith,
        valid,
        v,
        same,
        member,
      )

-- ===== src/Service/Chat/Retry.antt =====
-- chat.go: a send that is repeated is answered with the message that it stored.
use blahaj_chat_server.Common.{suc, ◌≡◌, ◌≢◌, refl, true, false, none, some, [], ◌∷◌, Text, arith}
use blahaj_chat_server.Errors.{ok}
use blahaj_chat_server.Model.{UserId, Message}
use blahaj_chat_server.Platform.{Platform, World, new_id, tick}
use blahaj_chat_server.Platform.Sql.{query}
use blahaj_chat_server.Platform.Redis.{live, set_nx_value_by_key_expire, get_value_by_key}
use blahaj_chat_server.Dao.Message.{find_message, get_message_by_id}
use blahaj_chat_server.Service.Chat.{
  SendData, msg_data_of, validate_send_data, message_to_msg_data, send_idem_key,
  wait_existing_msg_data, wait_loop, send_again, handle_send,
}

module _ (p : Platform) where
  waited :
      (id : Text) (m : Message) (w : World)
      → id ≢ []
      → p.sql_outcome w.calls ≡ none
      → find_message id w.db ≡ ok m
      → p.json_valid m.content ≡ true
      → wait_existing_msg_data p id w ≡ (ok (msg_data_of m []), tick w)
  unfolding wait_existing_msg_data wait_loop get_message_by_id query message_to_msg_data
  waited [] m w n h k j = absurd (n refl)
  waited (c ∷ id) m w n h k j = ground arith

  -- A valid send whose key holds the id of a stored message, and whose commands and query do not fail,
  -- is answered with that message, and is not reported as new; no row changes.
  pub handle_send_retry :
      (uid : UserId) (d : SendData) (id : Text) (m : Message) (w : World)
      → validate_send_data p d ≡ true
      → (let key = send_idem_key uid d.client_msg_id in
          (live (p.clock (suc w.calls)) key w ≡ some id)
          × (live (p.clock (suc (suc w.calls))) key w ≡ some id))
      → id ≢ []
      → p.redis_outcome (suc w.calls) ≡ none
      → p.redis_outcome (suc (suc w.calls)) ≡ none
      → p.sql_outcome (suc (suc (suc w.calls))) ≡ none
      → find_message id w.db ≡ ok m
      → p.json_valid m.content ≡ true
      → handle_send p uid d w ≡ (ok (msg_data_of m [], false), tick (tick (tick (tick w))))
  unfolding handle_send new_id set_nx_value_by_key_expire send_again get_value_by_key live
  handle_send_retry uid d id m w valid held n r1 r2 s found json =
      ground (arith, held.0, held.1, waited id m (tick (tick (tick w))) n s found json)

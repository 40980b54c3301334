-- ===== src/Examples/Chat.antt =====
-- Sends and read reports on the small database.
use blahaj_chat_server.Common.{
  some, suc, ◌≡◌, refl, true, false, Bool, none, [], ◌∷◌, codes, text_eq, lookup, insert, without,
  format_uint, split, parse_uint,
}
use blahaj_chat_server.Errors.{Result, ok}
use blahaj_chat_server.Model.{Message, msg_type_text}
use blahaj_chat_server.Platform.{World, tick, now, new_id}
use blahaj_chat_server.Platform.Sql.{query, statement, transaction}
use blahaj_chat_server.Platform.Reliable.{reliable}
use blahaj_chat_server.Platform.Redis.{get_value_by_key, set_nx_value_by_key_expire, live}
use blahaj_chat_server.Dao.Peer.{parse_c2c_members}
use blahaj_chat_server.Dao.State.{
  find_conv, get_conv_by_id, list_members, is_member, incr_unread, incr_unread_except,
  update_last_read, set_last_read,
}
use blahaj_chat_server.Dao.Conversation.{update_last_msg, set_last_msg}
use blahaj_chat_server.Dao.Message.{create_message, insert_message, get_message_by_id, find_message}
use blahaj_chat_server.Service.Chat.{
  new_message, msg_data_of, SendData, ReadData, MsgData, validate_send_data, is_msg_type,
  send_idem_key, message_to_msg_data, store_message, store_and_reply, reply_created, send_new,
  send_again, handle_send, handle_read, wait_existing_msg_data, wait_loop,
}
use blahaj_chat_server.Service.Chat.Effect.{handle_send_created}
use blahaj_chat_server.Service.Chat.Quiet.{handle_send-Atomic}
use blahaj_chat_server.Service.Chat.Idempotence.{handle_send_repeated}
use blahaj_chat_server.Service.Chat.Retry.{handle_send_retry}
use blahaj_chat_server.Service.Chat.Read.{handle_read_ok, read_up_to}
use blahaj_chat_server.Platform.Effects.{Kept}
use blahaj_chat_server.Examples.Fixtures.{small}

abbrev hello : SendData
hello = record {
  client_msg_id = codes "a";
  conv_id = codes "d";
  type = msg_type_text;
  content = codes "{}";
  reply_to = none;
  mentions = [];
}

abbrev reply_to_hello : MsgData
reply_to_hello = record {
  msg_id = 1000 ∷ [];
  conv_id = codes "d";
  from_uid = 1;
  type = msg_type_text;
  content = codes "{}";
  reply_to = none;
  mentions = [];
  created_at = 0;
}

abbrev sent : Result (MsgData × Bool) × World
sent = handle_send reliable 1 hello small

hello_created : sent ≡ (ok (reply_to_hello, true), sent.1)
unfolding handle_send validate_send_data is_msg_type text_eq send_idem_key new_id
    set_nx_value_by_key_expire send_new is_member list_members get_conv_by_id find_conv query
    parse_c2c_members split parse_uint now store_and_reply store_message transaction create_message
    insert_message statement update_last_msg set_last_msg incr_unread_except incr_unread
    reply_created message_to_msg_data live lookup format_uint
hello_created = refl

handle_send_created_example : validate_send_data reliable hello ≡ true
handle_send_created_example =
    (handle_send_created reliable 1 hello small {reply = reply_to_hello} {w' = sent.1}
      hello_created).4

-- The same frame again: the reply names the first message.
abbrev sent_twice : Result (MsgData × Bool) × World
sent_twice = handle_send reliable 1 hello sent.1

hello_repeated : sent_twice ≡ (ok (reply_to_hello, false), sent_twice.1)
unfolding handle_send validate_send_data is_msg_type text_eq send_idem_key new_id
    set_nx_value_by_key_expire send_new is_member list_members get_conv_by_id find_conv query
    parse_c2c_members split parse_uint now store_and_reply store_message transaction create_message
    insert_message statement update_last_msg set_last_msg incr_unread_except incr_unread
    reply_created message_to_msg_data live lookup format_uint send_again get_value_by_key
    wait_existing_msg_data wait_loop get_message_by_id find_message without insert
hello_repeated = refl

handle_send_repeated_example : sent_twice.1.db ≡ sent.1.db
handle_send_repeated_example =
    (handle_send_repeated reliable 1 hello sent.1 {reply = reply_to_hello} {w' = sent_twice.1}
      hello_repeated).5

handle_send-Atomic_example : Kept small.db (handle_send reliable 9 hello small)
handle_send-Atomic_example = (handle_send-Atomic reliable 9 hello).at small

abbrev stored : Message
stored = record (new_message 1 hello (1000 ∷ []) 4) { id = 7 }

valid_hello : validate_send_data reliable hello ≡ true
unfolding validate_send_data is_msg_type text_eq
valid_hello = refl

held :
    (live (reliable.clock (suc sent.1.calls)) (send_idem_key 1 (codes "a")) sent.1
      ≡ some (1000 ∷ []))
    × (live (reliable.clock (suc (suc sent.1.calls))) (send_idem_key 1 (codes "a")) sent.1
        ≡ some (1000 ∷ []))
unfolding handle_send validate_send_data is_msg_type text_eq send_idem_key new_id
    set_nx_value_by_key_expire send_new is_member list_members get_conv_by_id find_conv query
    parse_c2c_members split parse_uint now store_and_reply store_message transaction create_message
    insert_message statement update_last_msg set_last_msg incr_unread_except incr_unread
    reply_created message_to_msg_data live lookup format_uint without insert
held = (refl, refl)

stored_found : find_message (1000 ∷ []) sent.1.db ≡ ok stored
unfolding handle_send validate_send_data is_msg_type text_eq send_idem_key new_id
    set_nx_value_by_key_expire send_new is_member list_members get_conv_by_id find_conv query
    parse_c2c_members split parse_uint now store_and_reply store_message transaction create_message
    insert_message statement update_last_msg set_last_msg incr_unread_except incr_unread
    reply_created message_to_msg_data live lookup format_uint find_message
stored_found = refl

handle_send_retry_example :
    handle_send reliable 1 hello sent.1
    ≡ (ok (msg_data_of stored [], false), tick (tick (tick (tick sent.1))))
handle_send_retry_example =
    handle_send_retry reliable 1 hello (1000 ∷ []) stored sent.1 valid_hello held (λ e. cc) refl
      refl refl stored_found refl

abbrev report : ReadData
report = record { conv_id = codes "d"; msg_id = 4 ∷ [] }

abbrev reported : Result (Unit {0}) × World
reported = handle_read reliable 2 report small

report_ok : reported ≡ (ok tt, reported.1)
unfolding handle_read validate_send_data is_msg_type text_eq send_idem_key new_id
    set_nx_value_by_key_expire send_new is_member list_members get_conv_by_id find_conv query
    parse_c2c_members split parse_uint now store_and_reply store_message transaction create_message
    insert_message statement update_last_msg set_last_msg incr_unread_except incr_unread
    reply_created message_to_msg_data live lookup format_uint get_message_by_id find_message
    update_last_read set_last_read
report_ok = refl

handle_read_ok_example : reported.1.db ≡ read_up_to 2 (codes "d") (4 ∷ []) small.db
handle_read_ok_example = (handle_read_ok reliable 2 report small report_ok).5

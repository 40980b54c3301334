-- ===== src/Service/Chat/Read.antt =====
-- read.go: what a read report checks and what it changes.
use blahaj_chat_server.Common.{
  ◌≡◌, refl, true, Text, text_eq_iff, any, map_where, map_where_none, arith,
}
use blahaj_chat_server.Errors.{Result, ok, err}
use blahaj_chat_server.Model.{UserId, Message, Db}
use blahaj_chat_server.Platform.{Platform, World}
use blahaj_chat_server.Platform.Sql.{query, statement}
use blahaj_chat_server.Platform.Effects.{Atomic, Atomic-Quiet, Quiet-raise, atomic_rules}
use blahaj_chat_server.Dao.Quiet.{Quiet-is_member, dao_quiet}
use blahaj_chat_server.Dao.State.{is_member, is_state_of, set_last_read, update_last_read}
use blahaj_chat_server.Dao.Message.{get_message_by_id, find_message}
use blahaj_chat_server.Service.Chat.{ReadData, handle_read}

-- The user's own state of the conversation names the message and counts nothing unread; every other
-- row of every table is as it was.
abbrev pub read_up_to : UserId → Text → Text → Db → Db
read_up_to uid conv_id msg_id db = record db {
  conversation_states =
      map_where (is_state_of uid conv_id) (λ s. record s { last_read_msg_id = msg_id; unread = 0 })
        db.conversation_states;
}

module _ (p : Platform) where
  -- A read report that succeeds comes from a member, names a stored message of that conversation, and
  -- Finds a state of the user there; it sets that state and changes nothing else.
  pub handle_read_ok :
      (uid : UserId) (d : ReadData) (w : World) {u : Unit {0}} {w' : World}
      → handle_read p uid d w ≡ (ok u, w')
      → (m : Message) × (find_message d.msg_id w.db ≡ ok m)
        × (m.conv_id ≡ d.conv_id)
        × ((is_member p uid d.conv_id w).0 ≡ ok true)
        × (any (is_state_of uid d.conv_id) w.db.conversation_states ≡ true)
        × (w'.db ≡ read_up_to uid d.conv_id d.msg_id w.db)
  unfolding handle_read get_message_by_id query update_last_read statement set_last_read
  handle_read_ok uid d w {u} {w'} h = step (find_message d.msg_id w.db) refl
    where
      step :
          (found : Result Message)
          → find_message d.msg_id w.db ≡ found
          → (m : Message) × (find_message d.msg_id w.db ≡ ok m)
            × (m.conv_id ≡ d.conv_id)
            × ((is_member p uid d.conv_id w).0 ≡ ok true)
            × (any (is_state_of uid d.conv_id) w.db.conversation_states ≡ true)
            × (w'.db ≡ read_up_to uid d.conv_id d.msg_id w.db)
      step (ok m) k =
          let quiet = (Quiet-is_member p uid d.conv_id).at w in
          (
            m,
            k,
            ground (arith, quiet, text_eq_iff m.conv_id d.conv_id),
            ground (arith, quiet),
            ground (arith, quiet),
            ground (arith, quiet),
          )
      step (err x) k = absurd (ground (arith, (Quiet-is_member p uid d.conv_id).at w))

  Atomic-update_last_read :
      (uid : UserId) (conv_id msg_id : Text) → Atomic (update_last_read p uid conv_id msg_id)
  unfolding update_last_read statement set_last_read
  Atomic-update_last_read uid conv_id msg_id = record {
    at = λ w. ground (
      arith,
      map_where_none (is_state_of uid conv_id)
          (λ s. record s { last_read_msg_id = msg_id; unread = 0 }) w.db.conversation_states,
    );
  }

  -- A read report that returns an error has changed no row.
  pub handle_read-Atomic : (uid : UserId) (d : ReadData) → Atomic (handle_read p uid d)
  unfolding handle_read
  handle_read-Atomic uid d =
      search (dao_quiet, atomic_rules, Atomic-Quiet, Quiet-raise, Atomic-update_last_read) depth 9

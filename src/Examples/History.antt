-- ===== src/Examples/History.antt =====
-- Pages of the history of the small database.
use blahaj_chat_server.Common.{
  ◌≡◌, ◌<◌, refl, true, false, some, [], ◌∷◌, codes, text_eq, length, split, parse_uint, sort_by,
  arith, map, filter, suc,
}
use blahaj_chat_server.Errors.{Result, ok}
use blahaj_chat_server.Platform.{World}
use blahaj_chat_server.Platform.Sql.{query}
use blahaj_chat_server.Platform.Reliable.{reliable}
use blahaj_chat_server.Dao.Peer.{parse_c2c_members}
use blahaj_chat_server.Dao.State.{find_conv, get_conv_by_id, list_members, is_member}
use blahaj_chat_server.Dao.Message.{
  list_message_by_conv_id, select_messages, message_limit, in_history,
}
use blahaj_chat_server.Service.History.{
  MessageListResp, page_of, page_limit, page_or_error, all_valid, get_history_message_by_id,
  to_message_resp,
}
use blahaj_chat_server.Service.History.Pages.{get_history-exact, get_history-never_more, history}
use blahaj_chat_server.Service.History.Walk.{walk, walk_complete}
use blahaj_chat_server.Examples.Fixtures.{small, small_db, message_of}

abbrev newest : Result MessageListResp × World
newest = get_history_message_by_id reliable 1 (codes "d") 0 2 small

abbrev newest_page : MessageListResp
newest_page = record {
  items = map to_message_resp (message_of 4 ∷ message_of 6 ∷ []);
  next_before_id = 4;
  has_more = true;
}

newest_ok : newest ≡ (ok newest_page, newest.1)
unfolding get_history_message_by_id is_member list_members get_conv_by_id find_conv query text_eq
    parse_c2c_members split parse_uint page_limit list_message_by_conv_id select_messages
    message_limit sort_by page_or_error all_valid page_of
newest_ok = refl

below_100 : page_limit 2 < 100
unfolding page_limit
below_100 = omega arith

get_history-exact_example : newest.1.db ≡ small.db
get_history-exact_example =
    (get_history-exact reliable 1 (codes "d") 0 2 small {page = newest_page} {w' = newest.1}
      below_100 newest_ok).2

abbrev widest : Result MessageListResp × World
widest = get_history_message_by_id reliable 1 (codes "d") 0 500 small

abbrev widest_page : MessageListResp
widest_page = record {
  items = map to_message_resp (message_of 3 ∷ message_of 4 ∷ message_of 6 ∷ []);
  next_before_id = 3;
  has_more = false;
}

widest_ok : widest ≡ (ok widest_page, widest.1)
unfolding get_history_message_by_id is_member list_members get_conv_by_id find_conv query text_eq
    parse_c2c_members split parse_uint page_limit list_message_by_conv_id select_messages
    message_limit sort_by page_or_error all_valid page_of
widest_ok = refl

get_history-never_more_example : widest_page.has_more ≡ false
get_history-never_more_example =
    get_history-never_more reliable 1 (codes "d") 0 500 small {page = widest_page} {w' = widest.1}
      (omega arith) widest_ok

walk_complete_example :
    walk (suc (length (history (codes "d") 0 small_db))) (codes "d") 1 small_db 0
    ≡ some (map to_message_resp (filter (in_history (codes "d") 0) small_db.messages))
walk_complete_example =
    walk_complete (codes "d") small_db (omega arith) 1 (omega arith) (omega arith)

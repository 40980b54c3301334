-- ===== src/Examples/Friends.antt =====
-- Applications for friendship on the small database.
use blahaj_chat_server.Common.{
  ◌≡◌, refl, false, some, [], ◌∷◌, codes, text_eq, lookup, insert, without, format_uint, trim_space,
  trim_left, sort_by,
}
use blahaj_chat_server.Errors.{Result, ok}
use blahaj_chat_server.Model.{
  Conversation, FriendApply, friend_apply_status_pending, friend_apply_status_accepted,
}
use blahaj_chat_server.Platform.{World, now, new_id}
use blahaj_chat_server.Platform.Sql.{query, statement, transaction, create_all}
use blahaj_chat_server.Platform.Reliable.{reliable}
use blahaj_chat_server.Platform.Redis.{get_cache, set_value_by_key_expire, live}
use blahaj_chat_server.Dao.Peer.{normalize_friend_pair, make_peer_key}
use blahaj_chat_server.Dao.User.{get_user_by_id_with_ctx, user_profile_key, find_user, cache_user}
use blahaj_chat_server.Dao.Conversation.{
  conversation_clash, insert_conversation, find_by_peer_key, new_c2c, create_conversation,
  create_c2c, create_missing, get_or_create_c2c_tx,
}
use blahaj_chat_server.Dao.State.{state_clash, insert_states, create_conversation_states}
use blahaj_chat_server.Dao.Friend.{
  is_pending, blocks_either_way, find_pending, find_apply, insert_apply, handle_apply, are_friends,
  upsert_friendship, is_blocked_look, create_friend_apply, get_pending_friend_apply_between,
  get_friend_apply_by_id, update_friend_apply_status, is_friend, create_friendship,
}
use blahaj_chat_server.Service.Friend.{
  ApplyFriendReq, FriendApplyResp, apply_friend, store_accepted, accept_apply, reject_apply,
}
use blahaj_chat_server.Service.Friend.Apply.{apply_friend_ok}
use blahaj_chat_server.Service.Friend.Handle.{Accepted, accept_apply_ok, reject_apply_ok}
use blahaj_chat_server.Service.Friend.Machine.{Run, OnePending, run-OnePending, run-handled_once}
use blahaj_chat_server.Examples.Fixtures.{small}

abbrev request : ApplyFriendReq
request = record { to_uid = 5; reason = [] }

abbrev asked : Result FriendApplyResp × World
asked = apply_friend reliable 1 request small

abbrev answer : FriendApplyResp
answer = record {
  id = 1;
  from_uid = 1;
  to_uid = 5;
  status = friend_apply_status_pending;
  reason = [];
  created_at = 0;
}

asked_ok : asked ≡ (ok answer, asked.1)
unfolding apply_friend get_user_by_id_with_ctx get_cache live lookup user_profile_key format_uint
    find_user cache_user set_value_by_key_expire is_blocked_look query blocks_either_way is_friend
    are_friends normalize_friend_pair get_pending_friend_apply_between find_pending sort_by
    create_friend_apply now statement insert_apply trim_space trim_left
asked_ok = refl

apply_friend_ok_example : are_friends 1 5 small.db ≡ false
apply_friend_ok_example =
    (apply_friend_ok reliable 1 request small {r = answer} {w' = asked.1} asked_ok).5

abbrev accepted : Result Conversation × World
accepted = accept_apply reliable 5 1 asked.1

abbrev chat : Conversation
chat = new_c2c (1016 ∷ []) (codes "1_5") 18

accepted_ok : accepted ≡ (ok chat, accepted.1)
unfolding apply_friend get_user_by_id_with_ctx get_cache live lookup user_profile_key format_uint
    find_user cache_user set_value_by_key_expire is_blocked_look query blocks_either_way is_friend
    are_friends normalize_friend_pair get_pending_friend_apply_between find_pending sort_by
    create_friend_apply now statement insert_apply trim_space trim_left accept_apply
    get_friend_apply_by_id find_apply text_eq store_accepted transaction update_friend_apply_status
    handle_apply create_friendship upsert_friendship get_or_create_c2c_tx make_peer_key
    find_by_peer_key create_missing new_id create_c2c create_conversation insert_conversation
    conversation_clash create_conversation_states insert_states create_all state_clash insert
    without
accepted_ok = refl

accept_apply_ok_example : Accepted 5 1 asked.1.db chat accepted.1.db
accept_apply_ok_example =
    accept_apply_ok reliable 5 1 asked.1 {conv = chat} {w' = accepted.1} accepted_ok

abbrev refused : Result (Unit {0}) × World
refused = reject_apply reliable 5 1 asked.1

refused_ok : refused ≡ (ok tt, refused.1)
unfolding apply_friend get_user_by_id_with_ctx get_cache live lookup user_profile_key format_uint
    find_user cache_user set_value_by_key_expire is_blocked_look query blocks_either_way is_friend
    are_friends normalize_friend_pair get_pending_friend_apply_between find_pending sort_by
    create_friend_apply now statement insert_apply trim_space trim_left accept_apply
    get_friend_apply_by_id find_apply text_eq store_accepted transaction update_friend_apply_status
    handle_apply create_friendship upsert_friendship get_or_create_c2c_tx make_peer_key
    find_by_peer_key create_missing new_id create_c2c create_conversation insert_conversation
    conversation_clash create_conversation_states insert_states create_all state_clash insert
    without reject_apply
refused_ok = refl

reject_apply_ok_example :
    (reject_apply_ok reliable 5 1 asked.1 {w' = refused.1} refused_ok).0.to_uid ≡ 5
reject_apply_ok_example = (reject_apply_ok reliable 5 1 asked.1 {w' = refused.1} refused_ok).4

-- The user asks, the other accepts, and then tries to reject.
abbrev at_last : World
at_last = (reject_apply reliable 5 1 accepted.1).1

three_calls : Run reliable small at_last
three_calls = Run.applied 1 request (Run.accepted 5 1 (Run.rejected 5 1 Run.stop))

run-OnePending_example : OnePending at_last.db.friend_applies
run-OnePending_example = run-OnePending reliable three_calls tt

abbrev done : FriendApply
done = record {
  id = 1;
  from_uid = 1;
  to_uid = 5;
  status = friend_apply_status_accepted;
  reason = [];
  handled_at = some 12;
  created_at = 7;
}

done_found : find_apply 1 accepted.1.db ≡ ok done
unfolding apply_friend get_user_by_id_with_ctx get_cache live lookup user_profile_key format_uint
    find_user cache_user set_value_by_key_expire is_blocked_look query blocks_either_way is_friend
    are_friends normalize_friend_pair get_pending_friend_apply_between find_pending sort_by
    create_friend_apply now statement insert_apply trim_space trim_left accept_apply
    get_friend_apply_by_id find_apply text_eq store_accepted transaction update_friend_apply_status
    handle_apply create_friendship upsert_friendship get_or_create_c2c_tx make_peer_key
    find_by_peer_key create_missing new_id create_c2c create_conversation insert_conversation
    conversation_clash create_conversation_states insert_states create_all state_clash insert
    without
done_found = refl

done_handled : is_pending done ≡ false
unfolding text_eq
done_handled = refl

run-handled_once_example : find_apply 1 at_last.db ≡ ok done
run-handled_once_example =
    run-handled_once reliable 1 done (Run.rejected 5 1 Run.stop) done_found done_handled

-- ===== src/Examples/Members.antt =====
-- The operations of groups on the small database.
use blahaj_chat_server.Common.{
  ℕ, ◌≡◌, refl, true, false, Bool, List, [], ◌∷◌, arith, codes, Text, text_eq, lookup, insert,
  without, format_uint, trim_space, trim_left, is_space, sort_by,
}
use blahaj_chat_server.Errors.{Result, ok}
use blahaj_chat_server.Model.{Conversation}
use blahaj_chat_server.Platform.{World, JsonLaws, now, new_id, unmarshal_uids}
use blahaj_chat_server.Platform.Sql.{query, statement, transaction, create_all, ensure_all}
use blahaj_chat_server.Platform.Reliable.{reliable}
use blahaj_chat_server.Platform.Redis.{get_cache, set_value_by_key_expire, del_value_by_key, live}
use blahaj_chat_server.Dao.User.{
  get_users_by_ids, from_cache, add_users, load_missing, select_users, user_profile_key, cache_user,
}
use blahaj_chat_server.Dao.Conversation.{
  conversation_clash, insert_conversation, create_conversation,
}
use blahaj_chat_server.Dao.State.{
  find_group_info, state_clash, insert_states, add_states, create_conversation_states,
  ensure_conversation_states, invalidate_group_members, group_members_key,
  get_group_info_by_conv_id,
}
use blahaj_chat_server.Dao.Group.{
  insert_group_info, set_group_members, create_group_info, get_group_info_for_update,
  update_group_members,
}
use blahaj_chat_server.Service.Group
use blahaj_chat_server.Service.Group.{
  CreateGroupReq, GroupMemberResp, new_conversation, create_group, store_group, ensure_users_exist,
  add_group_members, store_added, write_merged, leave_group, member_items,
}
use blahaj_chat_server.Service.Group.Members.{
  add_member, add_members, normalize_group_members, keep_nonzero, merge_candidates, merge_members,
}
use blahaj_chat_server.Service.Group.Tables.{IsGroup}
use blahaj_chat_server.Service.Group.Add.{Grown, add_group_members_ok}
use blahaj_chat_server.Service.Group.Create.{Started, create_group_ok}
use blahaj_chat_server.Examples.Fixtures.{small, trio_info}

reliable-JsonLaws : JsonLaws reliable
reliable-JsonLaws = record { decode-encode_uids = λ uids. refl }

abbrev g : Text
g = codes "g"

trio-IsGroup : IsGroup reliable g trio_info (1 ∷ 2 ∷ 5 ∷ []) small.db
unfolding text_eq find_group_info
trio-IsGroup = record {
  found = refl;
  decoded = refl;
  counted = refl;
  ascending = omega arith;
  no_zero = refl;
  owned = refl;
  states = λ u. ground arith;
}

abbrev gone : Result (Unit {0}) × World
gone = leave_group reliable 2 g small

abbrev joined : Result (List GroupMemberResp) × World
joined = add_group_members reliable 1 g (7 ∷ 0 ∷ 2 ∷ []) small

abbrev resp : ℕ → Bool → GroupMemberResp
resp uid owner = record {
  uid = uid;
  email = uid ∷ [];
  nickname = [];
  avatar_url = [];
  owner = owner;
}

abbrev all_four : List GroupMemberResp
all_four = resp 1 true ∷ resp 2 false ∷ resp 5 false ∷ resp 7 false ∷ []

joined_ok : joined ≡ (ok all_four, joined.1)
unfolding add_group_members normalize_group_members add_members add_member sort_by store_added
    transaction get_group_info_for_update query find_group_info text_eq ensure_users_exist
    get_users_by_ids from_cache get_cache live lookup user_profile_key format_uint load_missing
    select_users add_users cache_user set_value_by_key_expire insert without unmarshal_uids
    merge_members merge_candidates keep_nonzero write_merged update_group_members statement
    set_group_members ensure_conversation_states add_states ensure_all state_clash
    invalidate_group_members del_value_by_key group_members_key Group.list_group_members
    get_group_info_by_conv_id member_items
joined_ok = refl

add_group_members_ok_example :
    Grown reliable g trio_info (1 ∷ 2 ∷ 5 ∷ []) (7 ∷ 0 ∷ 2 ∷ []) joined.1.db
add_group_members_ok_example =
    (add_group_members_ok reliable reliable-JsonLaws 1 g trio_info (1 ∷ 2 ∷ 5 ∷ []) (7 ∷ 0 ∷ 2 ∷ [])
      small {items = all_four} {w' = joined.1} trio-IsGroup joined_ok).0

abbrev pair_up : CreateGroupReq
pair_up = record { name = codes " x "; avatar = []; member_uids = 5 ∷ [] }

abbrev opened : Result Conversation × World
opened = create_group reliable 2 pair_up small

abbrev opened_conv : Conversation
opened_conv = new_conversation (1006 ∷ []) (codes "x") [] 2 6

opened_ok : opened ≡ (ok opened_conv, opened.1)
unfolding create_group trim_space trim_left is_space normalize_group_members add_members add_member
    sort_by ensure_users_exist get_users_by_ids from_cache get_cache live lookup user_profile_key
    format_uint load_missing select_users query add_users cache_user set_value_by_key_expire insert
    without now new_id store_group transaction create_conversation insert_conversation
    conversation_clash text_eq statement create_group_info insert_group_info
    create_conversation_states insert_states create_all state_clash
opened_ok = refl

create_group_ok_example : Started reliable 2 pair_up opened_conv opened.1.db
unfolding text_eq
create_group_ok_example =
    create_group_ok reliable 2 pair_up small {conv = opened_conv} {w' = opened.1} reliable-JsonLaws
      (λ e. cc) opened_ok (λ u. ground arith)

-- ===== src/Http/Conversation.antt =====
-- internal/handler/conversation.go and search.go.
use blahaj_chat_server.Common.{ℕ, Option, none, some, List, [], Text}
use blahaj_chat_server.Errors.{Error}
use blahaj_chat_server.Model.{UserId, Conversation, unix_milli}
use blahaj_chat_server.Platform.{Platform}
use blahaj_chat_server.Dao.User.{Collation}
use blahaj_chat_server.Dao.Conversation.{get_or_create_c2c}
use blahaj_chat_server.Service.Group.{
  CreateGroupReq, GroupMemberResp, create_group, list_group_members, add_group_members, leave_group,
}
use blahaj_chat_server.Service.History.{MessageListResp, get_history_message_by_id}
use blahaj_chat_server.Service.ConversationList.{ConversationListResp, get_conversation_list_by_id}
use blahaj_chat_server.Service.User.{UserSearchResp, search_users}
use blahaj_chat_server.Service.Search.{GroupSearchResp, search_groups}
use blahaj_chat_server.Http.Response.{
  Message, Response, success, fail, Handler, respond, handle, given, Caller, current_user_id,
  conv_id_param, parse_uint_query, parse_int_query,
}

-- `response.Conversation`
pub record ConversationResp : Type 0 where
  pub conv_id : Text
  pub type : Text
  pub peer_key : Text
  pub name : Text
  pub avatar : Text
  pub owner_id : UserId
  pub last_msg_id : Text
  pub last_msg_at : ℕ

abbrev text_or_empty : Option Text → Text
text_or_empty none = []
text_or_empty (some s) = s

unfoldable pub to_conversation_resp : Conversation → ConversationResp
to_conversation_resp conv = record {
  conv_id = conv.conv_id;
  type = conv.type;
  peer_key = text_or_empty conv.peer_key;
  name = conv.name;
  avatar = conv.avatar;
  owner_id = conv.owner_id;
  last_msg_id = conv.last_msg_id;
  last_msg_at = unix_milli conv.last_msg_at;
}

module _ {ℓ} {A : Type ℓ} where
  -- `failGroupError`
  unfoldable pub fail_group_error : Error → Response A
  fail_group_error Error.invalid_group = fail 400 (Message.of_error Error.invalid_group)
  fail_group_error Error.group_member_not_found =
      fail 404 (Message.of_error Error.group_member_not_found)
  fail_group_error Error.conv_not_found = fail 404 (Message.of_error Error.conv_not_found)
  fail_group_error Error.not_member = fail 403 (Message.of_error Error.not_member)
  fail_group_error Error.no_permission = fail 403 (Message.of_error Error.no_permission)
  fail_group_error Error.group_owner_leave = fail 403 (Message.of_error Error.group_owner_leave)
  fail_group_error e = fail 500 (Message.of_error e)

  abbrev pub server_error : Error → Handler A
  server_error e = respond (fail 500 (Message.of_error e))

  abbrev pub not_login : Response A
  not_login = fail 401 Message.user_not_login

  abbrev pub bad_request : Response A
  bad_request = fail 400 Message.bad_body

  abbrev pub bad_param : Response A
  bad_param = fail 400 Message.param_error

  abbrev lack_id : Response A
  lack_id = fail 400 Message.lack_conversion_id

abbrev c2c_failure : Error → Response ConversationResp
c2c_failure Error.found_c2c_pair = fail 400 (Message.of_error Error.found_c2c_pair)
c2c_failure e = fail 500 (Message.of_error e)

abbrev history_failure : Error → Response MessageListResp
history_failure Error.not_member = fail 403 (Message.of_error Error.not_member)
history_failure e = fail 500 (Message.of_error e)

module _ (p : Platform) where
  -- The body comes before the user here.
  unfoldable pub get_or_create_c2c_handler : Caller → Option UserId → Handler ConversationResp
  get_or_create_c2c_handler caller body = given body bad_request λ peer_uid.
      given (current_user_id caller) not_login λ uid.
        handle (get_or_create_c2c p uid peer_uid)
          (λ conv. respond (success (to_conversation_resp conv))) (λ e. respond (c2c_failure e))

  unfoldable pub create_group_conversation :
      Caller → Option CreateGroupReq → Handler ConversationResp
  create_group_conversation caller body = given (current_user_id caller) not_login λ uid.
      given body bad_request λ req.
        handle (create_group p uid req) (λ conv. respond (success (to_conversation_resp conv)))
          (λ e. respond (fail_group_error e))

  unfoldable pub list_group_members_handler : Caller → Text → Handler (List GroupMemberResp)
  list_group_members_handler caller id = given (current_user_id caller) not_login λ uid.
      given (conv_id_param id) lack_id λ conv_id.
        handle (list_group_members p uid conv_id) (λ members. respond (success members))
          (λ e. respond (fail_group_error e))

  unfoldable pub add_group_members_handler :
      Caller → Text → Option (List UserId) → Handler (List GroupMemberResp)
  add_group_members_handler caller id body = given (current_user_id caller) not_login λ uid.
      given (conv_id_param id) lack_id λ conv_id. given body bad_request λ member_uids.
        handle (add_group_members p uid conv_id member_uids) (λ members. respond (success members))
          (λ e. respond (fail_group_error e))

  unfoldable pub leave_group_handler : Caller → Text → Handler (Unit {0})
  leave_group_handler caller id = given (current_user_id caller) not_login λ uid.
      given (conv_id_param id) lack_id λ conv_id.
        handle (leave_group p uid conv_id) (λ _. respond (success tt))
          (λ e. respond (fail_group_error e))

  unfoldable pub get_history_message : Caller → Text → Text → Text → Handler MessageListResp
  get_history_message caller id before_id limit = given (current_user_id caller) not_login λ uid.
      given (conv_id_param id) lack_id λ conv_id.
        given (parse_uint_query before_id 0) bad_param λ before.
          given (parse_int_query limit 20) bad_param λ n.
            handle (get_history_message_by_id p uid conv_id before n)
              (λ msgs. respond (success msgs)) (λ e. respond (history_failure e))

  unfoldable pub get_conversation_list : Caller → Handler (List ConversationListResp)
  get_conversation_list caller = given (current_user_id caller) not_login λ uid.
      handle (get_conversation_list_by_id p uid) (λ convs. respond (success convs)) server_error

  unfoldable pub search_users_handler :
      Collation → Caller → Text → Text → Handler (List UserSearchResp)
  search_users_handler c caller q limit = given (current_user_id caller) not_login λ uid.
      given (parse_int_query limit 20) bad_param
        λ n. handle (search_users p c uid q n) (λ users. respond (success users)) server_error

  unfoldable pub search_groups_handler : Collation → Text → Text → Handler (List GroupSearchResp)
  search_groups_handler c q limit =
      given (parse_int_query limit 20) bad_param
        λ n. handle (search_groups p c q n) (λ groups. respond (success groups)) server_error

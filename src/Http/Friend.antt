-- ===== src/Http/Friend.antt =====
-- internal/handler/friend.go.
use blahaj_chat_server.Common.{Option, List, Text, parse_uint}
use blahaj_chat_server.Errors.{Error}
use blahaj_chat_server.Platform.{Platform}
use blahaj_chat_server.Service.Friend.{
  ApplyFriendReq, FriendApplyResp, FriendResp, apply_friend, list_pending_applies, accept_apply,
  reject_apply, list_friends,
}
use blahaj_chat_server.Http.Response.{
  Message, Response, success, fail, Handler, respond, handle, given, Caller, current_user_id,
}
use blahaj_chat_server.Http.Conversation.{
  ConversationResp, to_conversation_resp, server_error, not_login, bad_request, bad_param,
}

-- `failFriendError`
unfoldable pub fail_friend_error {ℓ} : {A : Type ℓ} → Error → Response A
fail_friend_error Error.cannot_friend_self = fail 400 (Message.of_error Error.cannot_friend_self)
fail_friend_error Error.apply_user_not_found =
    fail 404 (Message.of_error Error.apply_user_not_found)
fail_friend_error Error.friend_blocked = fail 403 (Message.of_error Error.friend_blocked)
fail_friend_error Error.already_friend = fail 409 (Message.of_error Error.already_friend)
fail_friend_error Error.friend_apply_pending =
    fail 409 (Message.of_error Error.friend_apply_pending)
fail_friend_error Error.friend_apply_not_found =
    fail 404 (Message.of_error Error.friend_apply_not_found)
fail_friend_error Error.friend_apply_handled =
    fail 409 (Message.of_error Error.friend_apply_handled)
fail_friend_error Error.no_permission = fail 403 (Message.of_error Error.no_permission)
fail_friend_error e = fail 500 (Message.of_error e)

module _ (p : Platform) where
  unfoldable pub apply_friendship_handler : Caller → Option ApplyFriendReq → Handler FriendApplyResp
  apply_friendship_handler caller body = given (current_user_id caller) not_login λ uid.
      given body bad_request λ req.
        handle (apply_friend p uid req) (λ apply. respond (success apply))
          (λ e. respond (fail_friend_error e))

  unfoldable pub list_friend_applies_handler : Caller → Handler (List FriendApplyResp)
  list_friend_applies_handler caller =
      given (current_user_id caller) not_login λ uid.
        handle (list_pending_applies p uid) (λ applies. respond (success applies)) server_error

  unfoldable pub accept_friend_apply_handler : Caller → Text → Handler ConversationResp
  accept_friend_apply_handler caller id = given (current_user_id caller) not_login λ uid.
      given (parse_uint id) bad_param λ apply_id.
        handle (accept_apply p uid apply_id) (λ conv. respond (success (to_conversation_resp conv)))
          (λ e. respond (fail_friend_error e))

  unfoldable pub reject_friend_apply_handler : Caller → Text → Handler (Unit {0})
  reject_friend_apply_handler caller id = given (current_user_id caller) not_login λ uid.
      given (parse_uint id) bad_param λ apply_id.
        handle (reject_apply p uid apply_id) (λ _. respond (success tt))
          (λ e. respond (fail_friend_error e))

  unfoldable pub list_friends_handler : Caller → Handler (List FriendResp)
  list_friends_handler caller =
      given (current_user_id caller) not_login
        λ uid. handle (list_friends p uid) (λ friends. respond (success friends)) server_error

-- ===== src/Http/Router.antt =====
-- internal/middleware/auth.go, and the routes of internal/router/app.go with the handlers that they have.
use blahaj_chat_server.Common.{
  Bool, Option, none, some, List, [], ◌∷◌, if◌then◌else◌, Text, codes, text_eq, take, drop, length,
}
use blahaj_chat_server.Errors.{Result}
use blahaj_chat_server.Model.{Instant, UserId}
use blahaj_chat_server.Platform.{Platform, M, tick}
use blahaj_chat_server.Dao.User.{Collation}
use blahaj_chat_server.Service.Auth.{Tokens, TokenPair, is_access_blacklisted}
use blahaj_chat_server.Service.Email.{Post}
use blahaj_chat_server.Service.User.{Bcrypt, RegisterReq, UserSearchResp}
use blahaj_chat_server.Service.Group.{CreateGroupReq, GroupMemberResp}
use blahaj_chat_server.Service.Friend.{ApplyFriendReq, FriendApplyResp, FriendResp}
use blahaj_chat_server.Service.History.{MessageListResp}
use blahaj_chat_server.Service.ConversationList.{ConversationListResp}
use blahaj_chat_server.Service.Search.{GroupSearchResp}
use blahaj_chat_server.Http.Response.{
  Message, Response, success, fail, Handler, respond, handle, given, Caller,
}
use blahaj_chat_server.Http.Auth.{
  UserResp, LoginReq, LoginResp, get_email_code, register_handler, login_handler, refresh_handler,
  logout_handler, me,
}
use blahaj_chat_server.Http.Conversation.{
  ConversationResp, get_or_create_c2c_handler, create_group_conversation,
  list_group_members_handler, add_group_members_handler, leave_group_handler, get_history_message,
  get_conversation_list, search_users_handler, search_groups_handler,
}
use blahaj_chat_server.Http.Friend.{
  apply_friendship_handler, list_friend_applies_handler, accept_friend_apply_handler,
  reject_friend_apply_handler, list_friends_handler,
}

-- `AccessClaims`; the id is that of the token.
pub record AccessClaims : Type 0 where
  pub user_id : UserId
  pub id : Text
  pub expires_at : Option Instant

-- What the program stands on beside the platform. `parse` is `ParseWithClaims` under the secret, with
-- the claims of a valid token, at an instant.
pub record Server : Type 0 where
  pub platform : Platform
  pub collation : Collation
  pub bcrypt : Bcrypt
  pub tokens : Tokens
  pub post : Post
  pub parse : Instant → Text → Result AccessClaims

-- The header `Authorization` and the parameter `token` of a request.
pub record Credentials : Type 0 where
  pub authorization : Text
  pub token : Text

-- `strings.HasPrefix`
abbrev has_prefix : Text → Text → Bool
has_prefix s prefix = text_eq (take (length prefix) s) prefix

unfoldable pub extract_token : Credentials → Text
extract_token c =
    if has_prefix c.authorization (codes "Bearer ")
    then drop (length (codes "Bearer ")) c.authorization
    else c.token

abbrev pub caller_of : AccessClaims → Caller
caller_of claims = record {
  user_id = some claims.user_id;
  jti = some claims.id;
  exp = claims.expires_at;
}

abbrev pub token_of : Text → Option Text
token_of [] = none
token_of (c ∷ s) = some (c ∷ s)

-- The routes that `JWTAuth` guards, and the others; each with what its handler reads of the request.
pub data Guarded : Type 0 where
  post_logout : Option Text → Guarded
  get_me get_conversations get_friends get_applies : Guarded
  get_search_users get_search_groups : Text → Text → Guarded
  post_c2c : Option UserId → Guarded
  post_group : Option CreateGroupReq → Guarded
  get_members delete_member : Text → Guarded
  put_members : Text → Option (List UserId) → Guarded
  get_messages : Text → Text → Text → Guarded
  post_apply : Option ApplyFriendReq → Guarded
  post_accept post_reject : Text → Guarded

pub data Open : Type 0 where
  post_getcode : Option Text → Open
  post_register : Option RegisterReq → Open
  post_login : Option LoginReq → Open
  post_refresh : Option Text → Open

pub data Request : Type 0 where
  guarded : Credentials → Guarded → Request
  unguarded : Open → Request

-- What an answer holds.
pub data Body : Type 0 where
  done : Unit {0} → Body
  user : UserResp → Body
  signed_in : LoginResp → Body
  pair : TokenPair → Body
  conversation : ConversationResp → Body
  conversations : List ConversationListResp → Body
  members : List GroupMemberResp → Body
  messages : MessageListResp → Body
  users : List UserSearchResp → Body
  groups : List GroupSearchResp → Body
  apply : FriendApplyResp → Body
  applies : List FriendApplyResp → Body
  friends : List FriendResp → Body

abbrev pub wrap {ℓ} : {A : Type ℓ} → (A → Body) → Response A → Response Body
wrap f (success a) = success (f a)
wrap f (fail status m) = fail status m

abbrev pub answer {ℓ} : {A : Type ℓ} → (A → Body) → Handler A → Handler Body
answer f h w = let (r, w') = h w in (wrap f r, w')

module _ (s : Server) where
  -- `ParseAccessToken`
  unfoldable pub parse_access_token : Text → M AccessClaims
  parse_access_token token w = (s.parse (s.platform.clock w.calls) token, tick w)

  -- `JWTAuth`, before the handler `next`.
  unfoldable pub jwt_auth {ℓ} : {A : Type ℓ} → Credentials → (Caller → Handler A) → Handler A
  jwt_auth c next = given (token_of (extract_token c)) (fail 401 Message.no_token) λ token.
      handle (parse_access_token token)
        (λ claims.
          handle (is_access_blacklisted s.platform claims.id)
            (λ refused.
              if refused then respond (fail 401 Message.token_refused) else next (caller_of claims))
            (λ e. respond (fail 401 (Message.of_token_error e))))
        (λ e. respond (fail 401 (Message.of_token_error e)))

  unfoldable pub serve_guarded : Guarded → Caller → Handler Body
  serve_guarded (post_logout body) c = answer done (logout_handler s.platform c body)
  serve_guarded get_me c = answer user (me s.platform c)
  serve_guarded get_conversations c = answer conversations (get_conversation_list s.platform c)
  serve_guarded get_friends c = answer friends (list_friends_handler s.platform c)
  serve_guarded get_applies c = answer applies (list_friend_applies_handler s.platform c)
  serve_guarded (get_search_users q limit) c =
      answer users (search_users_handler s.platform s.collation c q limit)
  serve_guarded (get_search_groups q limit) c =
      answer groups (search_groups_handler s.platform s.collation q limit)
  serve_guarded (post_c2c body) c =
      answer conversation (get_or_create_c2c_handler s.platform c body)
  serve_guarded (post_group body) c =
      answer conversation (create_group_conversation s.platform c body)
  serve_guarded (get_members id) c = answer members (list_group_members_handler s.platform c id)
  serve_guarded (delete_member id) c = answer done (leave_group_handler s.platform c id)
  serve_guarded (put_members id body) c =
      answer members (add_group_members_handler s.platform c id body)
  serve_guarded (get_messages id before limit) c =
      answer messages (get_history_message s.platform c id before limit)
  serve_guarded (post_apply body) c = answer apply (apply_friendship_handler s.platform c body)
  serve_guarded (post_accept id) c =
      answer conversation (accept_friend_apply_handler s.platform c id)
  serve_guarded (post_reject id) c = answer done (reject_friend_apply_handler s.platform c id)

  unfoldable pub serve_open : Open → Handler Body
  serve_open (post_getcode body) = answer done (get_email_code s.platform s.post body)
  serve_open (post_register body) =
      answer user (register_handler s.platform s.collation s.bcrypt body)
  serve_open (post_login body) =
      answer signed_in (login_handler s.platform s.collation s.bcrypt s.tokens body)
  serve_open (post_refresh body) = answer pair (refresh_handler s.platform s.tokens body)

  unfoldable pub serve : Request → Handler Body
  serve (guarded c r) = jwt_auth c (serve_guarded r)
  serve (unguarded r) = serve_open r

-- ===== src/Http/Access.antt =====
-- The access to the guarded routes: what an answer with a success says of the token, and that a token is
-- of no use after a logout.
use blahaj_chat_server.Common.{
  ℕ, ◌≡◌, ◌≢◌, sym, ◌∙◌, ap, false, some, Text, [], ◌∷◌, arith, text_eq_instance,
}
use blahaj_chat_server.Errors.{ok}
use blahaj_chat_server.Model.{UserId}
use blahaj_chat_server.Platform.{World, tick}
use blahaj_chat_server.Service.Auth.{is_access_blacklisted}
use blahaj_chat_server.Http.Response.{
  Message, Response, success, fail, Handler, Caller, given, current_user_id,
}
use blahaj_chat_server.Http.Auth.{me}
use blahaj_chat_server.Http.Conversation.{
  get_or_create_c2c_handler, create_group_conversation, list_group_members_handler,
  add_group_members_handler, leave_group_handler, get_history_message, get_conversation_list,
  search_users_handler,
}
use blahaj_chat_server.Http.Friend.{
  apply_friendship_handler, list_friend_applies_handler, accept_friend_apply_handler,
  reject_friend_apply_handler, list_friends_handler,
}
use blahaj_chat_server.Http.Inversion.{given-success, handle-success, if-success, answer-success}
use blahaj_chat_server.Http.Router.{
  Server, AccessClaims, Credentials, Guarded, Request, Body, extract_token, caller_of, token_of,
  parse_access_token, jwt_auth, serve_guarded, serve,
}

token_of-some : (s t : Text) → token_of s ≡ some t → (s ≡ t) × (s ≢ [])
token_of-some [] t e = cc
token_of-some (c ∷ s) t e = (ground arith, λ k. cc)

module _ (s : Server) where
  parsed_lem :
      (t : Text) (w : World) {claims : AccessClaims} {u : World}
      → parse_access_token s t w ≡ (ok claims, u)
      → (s.parse (s.platform.clock w.calls) t ≡ ok claims) × (u ≡ tick w)
  unfolding parse_access_token
  parsed_lem t w e = (ap (λ r. r.0) e, sym (ap (λ r. r.1) e))

  -- The request has a token that is valid and not refused, and its user is passed on.
  pub record Admitted {ℓ} {A : Type ℓ} (c : Credentials) (next : Caller → Handler A) (w : World)
      (r : Response A × World) : Type ℓ where
    pub claims : AccessClaims
    pub world : World
    pub has_token : extract_token c ≢ []
    pub parsed : s.parse (s.platform.clock w.calls) (extract_token c) ≡ ok claims
    pub accepted : is_access_blacklisted s.platform claims.id (tick w) ≡ (ok false, world)
    pub goes_on : next (caller_of claims) world ≡ r

  pub jwt_auth-Admitted :
      {A : Type 0} (c : Credentials) (next : Caller → Handler A) (w : World) {a : A} {w' : World}
      → jwt_auth s c next w ≡ (success a, w')
      → Admitted c next w (success a, w')
  unfolding jwt_auth
  jwt_auth-Admitted c next w h =
      let (t, is_token, with_token) = given-success (token_of (extract_token c)) _ _ w tt h in
      let (claims, u, parsed, with_claims) =
        handle-success (parse_access_token s t) _ _ w (λ e v. tt) with_token in
      let (refused, v, checked, passed) =
        handle-success (is_access_blacklisted s.platform claims.id) _ _ u (λ e x. tt) with_claims in
      let (not_refused, goes_on) = if-success refused _ _ v tt passed in
      record {
        claims = claims;
        world = v;
        has_token = (token_of-some (extract_token c) t is_token).1;
        parsed =
            ap (s.parse (s.platform.clock w.calls)) (token_of-some (extract_token c) t is_token).0
            ∙ (parsed_lem t w parsed).0;
        accepted =
            ap (is_access_blacklisted s.platform claims.id) (sym (parsed_lem t w parsed).1)
            ∙ checked
            ∙ ap (λ b. (ok b, v)) not_refused;
        goes_on = goes_on;
      }

  -- The routes that want a user; 0 is nobody.
  abbrev pub NeedsUser : Guarded → Type 0
  NeedsUser (Guarded.post_logout body) = ⊥
  NeedsUser (Guarded.get_search_groups q n) = ⊥
  NeedsUser r = Unit {0}

  user_id_ne :
      (claims : AccessClaims) {uid : UserId}
      → current_user_id (caller_of claims) ≡ some uid
      → (claims.user_id ≡ uid) × (claims.user_id ≢ 0)
  unfolding current_user_id
  user_id_ne claims e = (ground arith, λ k. ground arith)

  -- The handlers of these routes ask for the user first.
  asked :
      {A : Type 0} (claims : AccessClaims) (h : UserId → Handler A) (st : ℕ) (m : Message)
      (w : World) {a : A} {w' : World}
      → given (current_user_id (caller_of claims)) (fail st m) h w ≡ (success a, w')
      → claims.user_id ≢ 0
  asked claims h st m w e =
      (user_id_ne claims
        (given-success (current_user_id (caller_of claims)) (fail st m) h w tt e).1).1

  serve_guarded-user :
      (r : Guarded) (claims : AccessClaims) (w : World) {b : Body} {w' : World}
      → NeedsUser r
      → serve_guarded s r (caller_of claims) w ≡ (success b, w')
      → claims.user_id ≢ 0
  unfolding serve_guarded me get_conversation_list list_friends_handler list_friend_applies_handler
      search_users_handler get_or_create_c2c_handler create_group_conversation
      list_group_members_handler add_group_members_handler leave_group_handler get_history_message
      apply_friendship_handler accept_friend_apply_handler reject_friend_apply_handler
  serve_guarded-user Guarded.get_me claims w h e =
      asked claims _ _ _ w (answer-success Body.user (me s.platform (caller_of claims)) w e).1
  serve_guarded-user Guarded.get_conversations claims w h e =
      asked claims _ _ _ w
        (answer-success Body.conversations (get_conversation_list s.platform (caller_of claims)) w
          e).1
  serve_guarded-user Guarded.get_friends claims w h e =
      asked claims _ _ _ w
        (answer-success Body.friends (list_friends_handler s.platform (caller_of claims)) w e).1
  serve_guarded-user Guarded.get_applies claims w h e =
      asked claims _ _ _ w
        (answer-success Body.applies (list_friend_applies_handler s.platform (caller_of claims)) w
          e).1
  serve_guarded-user (Guarded.get_search_users q n) claims w h e =
      asked claims _ _ _ w
        (answer-success Body.users
          (search_users_handler s.platform s.collation (caller_of claims) q n) w e).1
  serve_guarded-user (Guarded.post_group body) claims w h e =
      asked claims _ _ _ w
        (answer-success Body.conversation
          (create_group_conversation s.platform (caller_of claims) body) w e).1
  serve_guarded-user (Guarded.get_members id) claims w h e =
      asked claims _ _ _ w
        (answer-success Body.members (list_group_members_handler s.platform (caller_of claims) id) w
          e).1
  serve_guarded-user (Guarded.delete_member id) claims w h e =
      asked claims _ _ _ w
        (answer-success Body.done (leave_group_handler s.platform (caller_of claims) id) w e).1
  serve_guarded-user (Guarded.put_members id body) claims w h e =
      asked claims _ _ _ w
        (answer-success Body.members
          (add_group_members_handler s.platform (caller_of claims) id body) w e).1
  serve_guarded-user (Guarded.get_messages id x n) claims w h e =
      asked claims _ _ _ w
        (answer-success Body.messages (get_history_message s.platform (caller_of claims) id x n) w
          e).1
  serve_guarded-user (Guarded.post_apply body) claims w h e =
      asked claims _ _ _ w
        (answer-success Body.apply (apply_friendship_handler s.platform (caller_of claims) body) w
          e).1
  serve_guarded-user (Guarded.post_accept id) claims w h e =
      asked claims _ _ _ w
        (answer-success Body.conversation
          (accept_friend_apply_handler s.platform (caller_of claims) id) w e).1
  serve_guarded-user (Guarded.post_reject id) claims w h e =
      asked claims _ _ _ w
        (answer-success Body.done (reject_friend_apply_handler s.platform (caller_of claims) id) w
          e).1
  serve_guarded-user (Guarded.post_c2c body) claims w h e =
      let (a, k, same) =
        answer-success Body.conversation
          (get_or_create_c2c_handler s.platform (caller_of claims) body) w e in
      let (peer, given_peer, rest) = given-success body _ _ w tt k in
      let (uid, found, done) = given-success (current_user_id (caller_of claims)) _ _ w tt rest in
      (user_id_ne claims found).1
  serve_guarded-user (Guarded.post_logout body) claims w h e = absurd h
  serve_guarded-user (Guarded.get_search_groups q n) claims w h e = absurd h

  -- A request to a guarded route that is answered with a success had a token, which was valid when the
  -- request came and was not found on the list of refused ones; on the routes that want a user it was
  -- not issued for the user 0; and the handler ran for the user of the token.
  pub serve-Admitted :
      (c : Credentials) (r : Guarded) (w : World) {b : Body} {w' : World}
      → serve s (Request.guarded c r) w ≡ (success b, w')
      → (a : Admitted c (serve_guarded s r) w (success b, w')) × (NeedsUser r
          → a.claims.user_id ≢ 0)
  unfolding serve
  serve-Admitted c r w e =
      let a = jwt_auth-Admitted c (serve_guarded s r) w e in
      (a, λ h. serve_guarded-user r a.claims a.world h a.goes_on)

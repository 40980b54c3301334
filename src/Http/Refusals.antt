-- ===== src/Http/Refusals.antt =====
-- An answer that reports a failure, route by route.
use blahaj_chat_server.Common.{subst, ℕ, refl, ◌≡◌, Option, Text}
use blahaj_chat_server.Platform.{World}
use blahaj_chat_server.Platform.Effects.{Quiet, Quiet-exists_key, Quiet-get_value_by_key}
use blahaj_chat_server.Dao.Quiet.{Quiet-get_user_by_id_with_ctx}
use blahaj_chat_server.Service.Reads
use blahaj_chat_server.Service.Reads.{Quiet-is_access_blacklisted}
use blahaj_chat_server.Service.Writes.{get_or_create_c2c-Atomic, register-Atomic}
use blahaj_chat_server.Service.Group.Atomicity.{create_group-Atomic, leave_group-Atomic}
use blahaj_chat_server.Service.Friend.Apply.{apply_friend-Atomic}
use blahaj_chat_server.Service.Friend.Handle.{accept_apply-Atomic, reject_apply-Atomic}
use blahaj_chat_server.Service.User.{RegisterReq}
use blahaj_chat_server.Http.Response.{Message, fail, Handler, Caller}
use blahaj_chat_server.Http.Auth.{
  get_email_code, register_user, check_code, register_handler, login_handler, refresh_handler,
  logout_handler, me,
}
use blahaj_chat_server.Http.Conversation.{
  get_or_create_c2c_handler, create_group_conversation, list_group_members_handler,
  leave_group_handler, get_history_message, get_conversation_list, search_users_handler,
  search_groups_handler,
}
use blahaj_chat_server.Http.Friend.{
  apply_friendship_handler, list_friend_applies_handler, accept_friend_apply_handler,
  reject_friend_apply_handler, list_friends_handler,
}
use blahaj_chat_server.Http.Router.{
  Server, Credentials, Guarded, Open, Request, parse_access_token, jwt_auth, serve_guarded,
  serve_open, serve,
}
use blahaj_chat_server.Http.Rows.{
  Spares, Unchanged, spare_rules, Spares-handle, Spares-handle-Quiet, Spares-answer,
}

module _ (s : Server) where
  open s use {platform, collation, bcrypt, tokens, post}

  Spares-register_user : (req : RegisterReq) → Spares (register_user platform collation bcrypt req)
  unfolding register_user
  Spares-register_user req = search (spare_rules, Spares-handle, register-Atomic)

  Spares-check_code : (req : RegisterReq) → Spares (check_code platform collation bcrypt req)
  unfolding check_code
  Spares-check_code req =
      search (spare_rules, Spares-handle-Quiet, Quiet-get_value_by_key, Spares-register_user)

  Spares-register_handler :
      (body : Option RegisterReq) → Spares (register_handler platform collation bcrypt body)
  unfolding register_handler
  Spares-register_handler body =
      search (spare_rules, Spares-handle-Quiet, Quiet-exists_key, Spares-check_code)

  Spares-serve_open : (r : Open) → Spares (serve_open s r)
  unfolding serve_open get_email_code login_handler refresh_handler
  Spares-serve_open (Open.post_getcode body) =
      search (spare_rules, Spares-handle-Quiet, Reads.Quiet-send_email_code)
  Spares-serve_open (Open.post_register body) = Spares-answer _ _ (Spares-register_handler body)
  Spares-serve_open (Open.post_login body) =
      search (spare_rules, Spares-handle-Quiet, Reads.Quiet-login)
  Spares-serve_open (Open.post_refresh body) =
      search (spare_rules, Spares-handle-Quiet, Reads.Quiet-refresh)

  -- The routes whose handler answers once its changes stand.
  abbrev pub Settled : Guarded → Type 0
  Settled (Guarded.put_members id body) = ⊥
  Settled r = Unit {0}

  Spares-serve_guarded : (r : Guarded) (c : Caller) → Settled r → Spares (serve_guarded s r c)
  unfolding serve_guarded logout_handler me get_conversation_list list_friends_handler
      list_friend_applies_handler search_users_handler search_groups_handler
      get_or_create_c2c_handler create_group_conversation list_group_members_handler
      leave_group_handler get_history_message apply_friendship_handler accept_friend_apply_handler
      reject_friend_apply_handler
  Spares-serve_guarded (Guarded.post_logout body) c h =
      search (spare_rules, Spares-handle-Quiet, Reads.Quiet-logout) depth 8
  Spares-serve_guarded Guarded.get_me c h =
      search (spare_rules, Spares-handle-Quiet, Quiet-get_user_by_id_with_ctx) depth 8
  Spares-serve_guarded Guarded.get_conversations c h =
      search (spare_rules, Spares-handle-Quiet, Reads.Quiet-get_conversation_list) depth 8
  Spares-serve_guarded Guarded.get_friends c h =
      search (spare_rules, Spares-handle-Quiet, Reads.Quiet-list_friends) depth 8
  Spares-serve_guarded Guarded.get_applies c h =
      search (spare_rules, Spares-handle-Quiet, Reads.Quiet-list_pending_applies) depth 8
  Spares-serve_guarded (Guarded.get_search_users q n) c h =
      search (spare_rules, Spares-handle-Quiet, Reads.Quiet-search_users) depth 8
  Spares-serve_guarded (Guarded.get_search_groups q n) c h =
      search (spare_rules, Spares-handle-Quiet, Reads.Quiet-search_groups) depth 8
  Spares-serve_guarded (Guarded.post_c2c body) c h =
      search (spare_rules, Spares-handle, get_or_create_c2c-Atomic) depth 8
  Spares-serve_guarded (Guarded.post_group body) c h =
      search (spare_rules, Spares-handle, create_group-Atomic) depth 8
  Spares-serve_guarded (Guarded.get_members id) c h =
      search (spare_rules, Spares-handle-Quiet, Reads.Quiet-list_group_members) depth 8
  Spares-serve_guarded (Guarded.delete_member id) c h =
      search (spare_rules, Spares-handle, leave_group-Atomic) depth 8
  Spares-serve_guarded (Guarded.get_messages id b n) c h =
      search (spare_rules, Spares-handle-Quiet, Reads.Quiet-get_history) depth 8
  Spares-serve_guarded (Guarded.post_apply body) c h =
      search (spare_rules, Spares-handle, apply_friend-Atomic) depth 8
  Spares-serve_guarded (Guarded.post_accept id) c h =
      search (spare_rules, Spares-handle, accept_apply-Atomic) depth 8
  Spares-serve_guarded (Guarded.post_reject id) c h =
      search (spare_rules, Spares-handle, reject_apply-Atomic) depth 8
  Spares-serve_guarded (Guarded.put_members id body) c h = absurd h

  abbrev pub SettledRequest : Request → Type 0
  SettledRequest (Request.guarded c r) = Settled r
  SettledRequest (Request.unguarded r) = Unit {0}

  Quiet-parse : (token : Text) → Quiet (parse_access_token s token)
  unfolding parse_access_token
  Quiet-parse token = record { at = λ w. refl }

  Spares-jwt_auth :
      {A : Type 0} (c : Credentials) (next : Caller → Handler A)
      → ((caller : Caller) → Spares (next caller))
      → Spares (jwt_auth s c next)
  unfolding jwt_auth
  Spares-jwt_auth c next h =
      search (spare_rules, Spares-handle-Quiet, Quiet-parse, Quiet-is_access_blacklisted, h) depth 9

  Spares-serve : (r : Request) → SettledRequest r → Spares (serve s r)
  unfolding serve
  Spares-serve (Request.guarded c r) h =
      Spares-jwt_auth c _ λ caller. Spares-serve_guarded r caller h
  Spares-serve (Request.unguarded r) h = Spares-serve_open r

  -- An answer that reports a failure, on any route but the one that adds group members, comes after
  -- every table has been left as it was, wherever the request stopped.
  pub serve_failed :
      (r : Request) (w : World) {status : ℕ} {m : Message} {w' : World}
      → SettledRequest r
      → serve s r w ≡ (fail status m, w')
      → w'.db ≡ w.db
  serve_failed r w h e = subst (Unchanged w.db) e ((Spares-serve r h).at w)

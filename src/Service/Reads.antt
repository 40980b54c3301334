-- ===== src/Service/Reads.antt =====
-- The operations of internal/service that change no row: those that only read, and those that work on
-- Redis alone.
use blahaj_chat_server.Common.{
  ℕ, ◌+◌, parse_uint, refl, ◌≡◌, Option, none, some, [], ◌∷◌, Text, arith,
}
use blahaj_chat_server.Errors.{invalid_refresh, invalid_credentials, not_member}
use blahaj_chat_server.Model.{UserId, Instant, User}
use blahaj_chat_server.Platform.{Platform, World, M, raise}
use blahaj_chat_server.Platform.Effects.{
  Quiet, quiet_rules, Quiet-bind, Quiet-pure, Quiet-guard, Quiet-raise, Quiet-query,
}
use blahaj_chat_server.Dao.Friend.{list_pending_friend_applies_to_uid, list_friendships_by_uid}
use blahaj_chat_server.Dao.User.{
  Collation, get_user_by_email_with_ctx, search_users as select_found,
}
use blahaj_chat_server.Dao.Group.{search_groups as select_groups}
use blahaj_chat_server.Dao.Quiet.{
  dao_quiet, Quiet-is_member, Quiet-list_message_by_conv_id, Quiet-get_users_by_ids,
}
use blahaj_chat_server.Service.Friend.{list_pending_applies, list_friends}
use blahaj_chat_server.Service.Group.{list_group_members}
use blahaj_chat_server.Service.History.{get_history_message_by_id, page_limit}
use blahaj_chat_server.Service.ConversationList.{get_conversation_list_by_id}
use blahaj_chat_server.Service.Auth.{
  Tokens, TokenPair, silently, get_key, set_remove, add_to_set, set_members, generate_access_token,
  issue_token_pair, rotate, refresh, refresh_for, refuse_until, blacklist, logout,
  is_access_blacklisted,
}
use blahaj_chat_server.Service.Email.{Post, six_uuid, mail_failed, send_email_code}
use blahaj_chat_server.Service.User.{Bcrypt, search_users, login, login_as}
use blahaj_chat_server.Service.Search.{search_groups}

module _ (p : Platform) where
  pub Quiet-get_history :
      (uid : UserId) (conv_id : Text) (before n : ℕ)
      → Quiet (get_history_message_by_id p uid conv_id before n)
  unfolding get_history_message_by_id
  Quiet-get_history uid conv_id before n = Quiet-bind _ _ (Quiet-is_member p uid conv_id) λ member.
      Quiet-bind _ _ (Quiet-guard member not_member) λ _.
        Quiet-bind _ _ (Quiet-list_message_by_conv_id p conv_id before (page_limit n + 1))
          λ msgs. record { at = λ w. refl }

  pub Quiet-list_pending_applies : (uid : UserId) → Quiet (list_pending_applies p uid)
  unfolding list_pending_applies list_pending_friend_applies_to_uid
  Quiet-list_pending_applies uid = search quiet_rules

  pub Quiet-list_friends : (uid : UserId) → Quiet (list_friends p uid)
  unfolding list_friends list_friendships_by_uid
  Quiet-list_friends uid = search (quiet_rules, Quiet-get_users_by_ids)

  pub Quiet-list_group_members :
      (uid : UserId) (conv_id : Text) → Quiet (list_group_members p uid conv_id)
  unfolding list_group_members
  Quiet-list_group_members uid conv_id = search dao_quiet

  pub Quiet-get_conversation_list : (uid : UserId) → Quiet (get_conversation_list_by_id p uid)
  unfolding get_conversation_list_by_id
  Quiet-get_conversation_list uid = search dao_quiet

  Quiet-silently :
      (run : World → World) → ((w : World) → (run w).db ≡ w.db) → Quiet (silently p run)
  unfolding silently
  Quiet-silently run h = record { at = λ w. ground (arith, h w) }

  Quiet-set_remove : (key v : Text) → Quiet (set_remove p key v)
  unfolding set_remove
  Quiet-set_remove key v = Quiet-silently _ λ w. refl

  Quiet-add_to_set : (key v : Text) → Quiet (add_to_set p key v)
  unfolding add_to_set
  Quiet-add_to_set key v = Quiet-silently _ λ w. refl

  Quiet-get_key : (key : Text) → Quiet (get_key p key)
  unfolding get_key
  Quiet-get_key key = record { at = λ w. ground arith }

  Quiet-set_members : (key : Text) → Quiet (set_members p key)
  unfolding set_members
  Quiet-set_members key = record { at = λ w. ground arith }

  Quiet-refuse_until : (jti : Text) (ttl : ℕ) → Quiet (refuse_until p jti ttl)
  unfolding refuse_until
  Quiet-refuse_until jti ttl = Quiet-silently _ λ w. refl

  Quiet-blacklist : (jti : Text) (exp : Instant) → Quiet (blacklist p jti exp)
  unfolding blacklist
  Quiet-blacklist jti exp = search (quiet_rules, Quiet-refuse_until)

  pub Quiet-is_access_blacklisted : (jti : Text) → Quiet (is_access_blacklisted p jti)
  unfolding is_access_blacklisted
  Quiet-is_access_blacklisted jti = search quiet_rules

  pub Quiet-logout :
      (uid : UserId) (token jti : Text) (exp : Instant) → Quiet (logout p uid token jti exp)
  unfolding logout
  Quiet-logout uid token jti exp = search (quiet_rules, Quiet-set_remove, Quiet-blacklist)

  pub Quiet-get_user_by_email :
      (c : Collation) (email : Text) → Quiet (get_user_by_email_with_ctx p c email)
  unfolding get_user_by_email_with_ctx
  Quiet-get_user_by_email c email = search quiet_rules

  module _ (t : Tokens) where
    Quiet-generate_access_token : (uid : UserId) → Quiet (generate_access_token p t uid)
    unfolding generate_access_token
    Quiet-generate_access_token uid = search quiet_rules

    Quiet-issue_token_pair : (uid : UserId) → Quiet (issue_token_pair p t uid)
    unfolding issue_token_pair
    Quiet-issue_token_pair uid = search (quiet_rules, Quiet-generate_access_token, Quiet-add_to_set)

    Quiet-rotate : (token : Text) (uid : UserId) → Quiet (rotate p t token uid)
    unfolding rotate
    Quiet-rotate token uid = search (quiet_rules, Quiet-set_remove, Quiet-issue_token_pair)

    Quiet-parsed :
        (token : Text) (o : Option ℕ)
        → Quiet (elim o as (λ _. M TokenPair) [
          | none ↦ raise invalid_refresh
          | some uid ↦ rotate p t token uid
        ])
    Quiet-parsed token none = Quiet-raise invalid_refresh
    Quiet-parsed token (some uid) = Quiet-rotate token uid

    Quiet-refresh_for : (token : Text) (o : Option Text) → Quiet (refresh_for p t token o)
    Quiet-refresh_for token none = Quiet-raise invalid_refresh
    Quiet-refresh_for token (some raw) = Quiet-parsed token (parse_uint raw)

    pub Quiet-refresh : (token : Text) → Quiet (refresh p t token)
    unfolding refresh
    Quiet-refresh token = search (quiet_rules, Quiet-get_key, Quiet-refresh_for)

    Quiet-login_as :
        (c : Collation) (b : Bcrypt) (o : Option User) (password : Text)
        → Quiet (login_as p c b t o password)
    unfolding login_as
    Quiet-login_as c b none password = Quiet-raise invalid_credentials
    Quiet-login_as c b (some u) password = search (quiet_rules, Quiet-issue_token_pair)

    pub Quiet-login :
        (c : Collation) (b : Bcrypt) (email password : Text) → Quiet (login p c b t email password)
    unfolding login
    Quiet-login c b email password =
        Quiet-bind (get_user_by_email_with_ctx p c email) _ (Quiet-get_user_by_email c email)
          λ found. Quiet-login_as c b found password

  Quiet-select_found : (c : Collation) (q : Text) (n : ℕ) → Quiet (select_found p c q n)
  unfolding select_found
  Quiet-select_found c [] n = Quiet-pure []
  Quiet-select_found c (k ∷ q) n = Quiet-query p _

  Quiet-select_groups : (c : Collation) (q : Text) (n : ℕ) → Quiet (select_groups p c q n)
  unfolding select_groups
  Quiet-select_groups c [] n = Quiet-pure []
  Quiet-select_groups c (k ∷ q) n = Quiet-query p _

  pub Quiet-search_groups : (c : Collation) (q : Text) (n : ℕ) → Quiet (search_groups p c q n)
  unfolding search_groups
  Quiet-search_groups c q n = search (quiet_rules, Quiet-select_groups)

  pub Quiet-search_users :
      (c : Collation) (uid : UserId) (q : Text) (n : ℕ) → Quiet (search_users p c uid q n)
  unfolding search_users
  Quiet-search_users c uid q n = search (quiet_rules, Quiet-select_found)

  Quiet-six_uuid : (post : Post) → Quiet (six_uuid p post)
  unfolding six_uuid
  Quiet-six_uuid post = record { at = λ w. refl }

  Quiet-mail_failed : (post : Post) (email code : Text) → Quiet (mail_failed p post email code)
  unfolding mail_failed
  Quiet-mail_failed post email code = record { at = λ w. ground arith }

  pub Quiet-send_email_code : (post : Post) (email : Text) → Quiet (send_email_code p post email)
  unfolding send_email_code
  Quiet-send_email_code post email = search (quiet_rules, Quiet-six_uuid, Quiet-mail_failed) depth 9

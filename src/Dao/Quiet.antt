-- ===== src/Dao/Quiet.antt =====
-- The reads of internal/dao leave the rows alone.
use blahaj_chat_server.Common.{ℕ, Option, none, some, List, [], ◌∷◌, Text}
use blahaj_chat_server.Model.{UserId}
use blahaj_chat_server.Platform.{Platform, M, pure}
use blahaj_chat_server.Platform.Redis.{get_cache}
use blahaj_chat_server.Platform.Effects.{
  Quiet-get_cache, Quiet, quiet_rules, Quiet-bind, Quiet-on_error,
}
use blahaj_chat_server.Dao.State.{
  invalidate_group_members, get_conv_by_id, get_group_info_by_conv_id, load_group_members,
  members_or_load, list_group_members, list_members, is_member, group_members_key, cached_members,
  get_conversation_states_by_uid,
}
use blahaj_chat_server.Dao.Conversation.{get_convs_by_ids}
use blahaj_chat_server.Dao.Group.{get_group_info_for_update}
use blahaj_chat_server.Dao.Message.{get_message_by_id, list_message_by_conv_id}
use blahaj_chat_server.Model.{User}
use blahaj_chat_server.Common.{Dict, insert, nat_eq, ◌++◌}
use blahaj_chat_server.Dao.User.{
  cache_user, cached_user, get_user_by_id_with_ctx, from_cache, add_users, load_missing,
  get_users_by_ids, user_profile_key,
}
use blahaj_chat_server.Dao.Friend.{
  is_blocked_look, get_pending_friend_apply_between, get_friend_apply_by_id, is_friend,
}

module _ (p : Platform) where
  pub Quiet-get_conv_by_id : (conv_id : Text) → Quiet (get_conv_by_id p conv_id)
  unfolding get_conv_by_id
  Quiet-get_conv_by_id conv_id = search quiet_rules

  pub Quiet-get_group_info_by_conv_id :
      (conv_id : Text) → Quiet (get_group_info_by_conv_id p conv_id)
  unfolding get_group_info_by_conv_id
  Quiet-get_group_info_by_conv_id conv_id = search quiet_rules

  pub Quiet-get_group_info_for_update :
      (conv_id : Text) → Quiet (get_group_info_for_update p conv_id)
  unfolding get_group_info_for_update
  Quiet-get_group_info_for_update conv_id = search quiet_rules

  Quiet-members_or_load :
      (conv_id : Text) (cached : Option (List UserId)) → Quiet (members_or_load p conv_id cached)
  unfolding load_group_members
  Quiet-members_or_load conv_id none = search (quiet_rules, Quiet-get_group_info_by_conv_id)
  Quiet-members_or_load conv_id (some members) = search quiet_rules

  pub Quiet-list_group_members : (conv_id : Text) → Quiet (list_group_members p conv_id)
  unfolding list_group_members
  Quiet-list_group_members conv_id =
      Quiet-bind (get_cache p (group_members_key conv_id)) _
        (Quiet-get_cache p (group_members_key conv_id))
        (λ cached. Quiet-members_or_load conv_id (cached_members p cached))

  pub Quiet-list_members : (conv_id : Text) → Quiet (list_members p conv_id)
  unfolding list_members
  Quiet-list_members conv_id = search (quiet_rules, Quiet-get_conv_by_id, Quiet-list_group_members)

  pub Quiet-is_member : (uid : UserId) (conv_id : Text) → Quiet (is_member p uid conv_id)
  unfolding is_member
  Quiet-is_member uid conv_id = search (quiet_rules, Quiet-list_members)

  pub Quiet-get_message_by_id : (msg_id : Text) → Quiet (get_message_by_id p msg_id)
  unfolding get_message_by_id
  Quiet-get_message_by_id msg_id = search quiet_rules

  pub Quiet-list_message_by_conv_id :
      (conv_id : Text) (before_id limit : ℕ)
      → Quiet (list_message_by_conv_id p conv_id before_id limit)
  unfolding list_message_by_conv_id
  Quiet-list_message_by_conv_id conv_id before_id limit = search quiet_rules

  pub Quiet-get_conversation_states_by_uid :
      (uid : UserId) → Quiet (get_conversation_states_by_uid p uid)
  unfolding get_conversation_states_by_uid
  Quiet-get_conversation_states_by_uid uid = search quiet_rules

  pub Quiet-get_convs_by_ids : (ids : List Text) → Quiet (get_convs_by_ids p ids)
  unfolding get_convs_by_ids
  Quiet-get_convs_by_ids [] = search quiet_rules
  Quiet-get_convs_by_ids (id ∷ ids) = search quiet_rules

  pub Quiet-invalidate : (conv_id : Text) → Quiet (invalidate_group_members p conv_id)
  unfolding invalidate_group_members
  Quiet-invalidate conv_id = search quiet_rules

  Quiet-cache_user : (u : User) → Quiet (cache_user p u)
  unfolding cache_user
  Quiet-cache_user u = search quiet_rules

  Quiet-found {ℓ} :
      {A : Type ℓ} (o : Option User) (f : User → M A) (m : M A)
      → ((u : User) → Quiet (f u))
      → Quiet m
      → Quiet (elim o [ some u ↦ f u | none ↦ m ])
  Quiet-found none f m h k = k
  Quiet-found (some u) f m h k = h u

  pub Quiet-get_user_by_id_with_ctx : (id : UserId) → Quiet (get_user_by_id_with_ctx p id)
  unfolding get_user_by_id_with_ctx
  Quiet-get_user_by_id_with_ctx id =
      Quiet-bind (get_cache p (user_profile_key id)) _ (Quiet-get_cache p (user_profile_key id))
        (λ cached.
          Quiet-found (cached_user p cached) (λ u. pure (some u)) _ (λ u. search quiet_rules)
            (search (quiet_rules, Quiet-cache_user)))

  Quiet-from_cache :
      (ids : List UserId) (users : Dict UserId User) (miss : List UserId)
      → Quiet (from_cache p ids users miss)
  unfolding from_cache
  Quiet-from_cache [] users miss = search quiet_rules
  Quiet-from_cache (id ∷ ids) users miss =
      Quiet-bind (get_cache p (user_profile_key id)) _ (Quiet-get_cache p (user_profile_key id))
        (λ cached.
          Quiet-found (cached_user p cached) (λ u. from_cache p ids (insert id u users) miss) _
            (λ u. Quiet-from_cache ids (insert id u users) miss)
            (Quiet-from_cache ids users (miss ++ id ∷ [])))

  Quiet-add_users : (found : List User) (users : Dict UserId User) → Quiet (add_users p found users)
  unfolding add_users
  Quiet-add_users [] users = search quiet_rules
  Quiet-add_users (u ∷ found) users =
      Quiet-bind (cache_user p u) _ (Quiet-cache_user u)
        (λ _. Quiet-add_users found (insert u.id u users))

  Quiet-load_missing :
      (users : Dict UserId User) (miss : List UserId) → Quiet (load_missing p users miss)
  unfolding load_missing
  Quiet-load_missing users [] = search quiet_rules
  Quiet-load_missing users (id ∷ miss) = search (quiet_rules, Quiet-add_users)

  pub Quiet-get_users_by_ids : (ids : List UserId) → Quiet (get_users_by_ids p ids)
  unfolding get_users_by_ids
  Quiet-get_users_by_ids [] = search quiet_rules
  Quiet-get_users_by_ids (id ∷ ids) = search (quiet_rules, Quiet-from_cache, Quiet-load_missing)

  pub Quiet-is_blocked_look : (a b : UserId) → Quiet (is_blocked_look p a b)
  unfolding is_blocked_look
  Quiet-is_blocked_look a b = search quiet_rules

  pub Quiet-is_friend : (a b : UserId) → Quiet (is_friend p a b)
  unfolding is_friend
  Quiet-is_friend a b = search quiet_rules

  pub Quiet-get_pending_friend_apply_between :
      (a b : UserId) → Quiet (get_pending_friend_apply_between p a b)
  unfolding get_pending_friend_apply_between
  Quiet-get_pending_friend_apply_between a b = search quiet_rules

  pub Quiet-get_friend_apply_by_id : (id : ℕ) → Quiet (get_friend_apply_by_id p id)
  unfolding get_friend_apply_by_id
  Quiet-get_friend_apply_by_id id = search quiet_rules

pub ruleset dao_quiet = (
  quiet_rules, Quiet-get_conv_by_id, Quiet-get_group_info_by_conv_id,
  Quiet-get_group_info_for_update, Quiet-list_group_members, Quiet-list_members, Quiet-is_member,
  Quiet-get_message_by_id, Quiet-list_message_by_conv_id, Quiet-get_conversation_states_by_uid,
  Quiet-get_convs_by_ids, Quiet-get_user_by_id_with_ctx, Quiet-get_users_by_ids,
  Quiet-is_blocked_look, Quiet-is_friend, Quiet-get_pending_friend_apply_between,
  Quiet-get_friend_apply_by_id,
)

-- ===== src/Service/Friend.antt =====
-- internal/service/friend/addfriend.go: applications for friendship and their handling. The proofs
-- are in the modules below.
pub mod Apply
pub mod Steps
pub mod Handle
pub mod Machine
pub mod Race
use blahaj_chat_server.Common.{
  ℕ, ◌≡◌, Bool, true, false, ◌||◌, not, Option, none, some, List, [], ◌∷◌, ◌==◌, if◌then◌else◌,
  Text, text_eq, trim_space, map, Dict, lookup, nat_eq,
}
use blahaj_chat_server.Errors.{
  Error, Result, ok, err, is_record_not_found, cannot_friend_self, apply_user_not_found,
  friend_blocked, already_friend, friend_apply_pending, friend_apply_not_found,
  friend_apply_handled, no_permission,
}
use blahaj_chat_server.Model.{
  UserId, User, Friendship, FriendApply, Conversation, unix_milli, friend_apply_status_pending,
  friend_apply_status_accepted, friend_apply_status_rejected,
}
use blahaj_chat_server.Platform.{Platform, M, pure, raise, ◌>>=◌, ◌>>◌, on_error, guard}
use blahaj_chat_server.Platform.Sql.{transaction}
use blahaj_chat_server.Platform.Redis.{is_some}
use blahaj_chat_server.Dao.Friend.{
  is_pending, is_blocked_look, create_friend_apply, get_pending_friend_apply_between,
  get_friend_apply_by_id, list_pending_friend_applies_to_uid, update_friend_apply_status, is_friend,
  create_friendship, list_friendships_by_uid,
}
use blahaj_chat_server.Dao.Conversation.{get_or_create_c2c_tx}
use blahaj_chat_server.Dao.User.{get_user_by_id_with_ctx, get_users_by_ids}

-- `requests.ApplyFriendReq` of internal/dto/requests/friend.go.
pub record ApplyFriendReq : Type 0 where
  pub to_uid : UserId
  pub reason : Text

-- `response.FriendApplyResp` of internal/dto/response/friend.go.
pub record FriendApplyResp : Type 0 where
  pub id : ℕ
  pub from_uid : UserId
  pub to_uid : UserId
  pub status : Text
  pub reason : Text
  pub created_at : ℕ

-- `response.FriendResp`
pub record FriendResp : Type 0 where
  pub uid : UserId
  pub email : Text
  pub nickname : Text
  pub avatar_url : Text

-- `friendApplyToResp`
abbrev pub friend_apply_to_resp : FriendApply → FriendApplyResp
friend_apply_to_resp f = record {
  id = f.id;
  from_uid = f.from_uid;
  to_uid = f.to_uid;
  status = f.status;
  reason = f.reason;
  created_at = unix_milli f.created_at;
}

-- The row that `ApplyFriend` builds; the id and the time are still Go's zero values.
abbrev pub new_apply : UserId → ApplyFriendReq → FriendApply
new_apply from_uid req = record {
  id = 0;
  from_uid = from_uid;
  to_uid = req.to_uid;
  status = friend_apply_status_pending;
  reason = trim_space req.reason;
  handled_at = none;
  created_at = 0;
}

-- The first guard of `ApplyFriend`.
abbrev pub is_self : UserId → UserId → Bool
is_self a b = a == 0 || b == 0 || a == b

abbrev pub other_of : UserId → Friendship → UserId
other_of uid f = if f.uid_a == uid then f.uid_b else f.uid_a

abbrev to_friend_resp : User → FriendResp
to_friend_resp u = record {
  uid = u.id;
  email = u.email;
  nickname = u.nickname;
  avatar_url = u.avatar_url;
}

-- The last loop of `ListFriends`.
unfoldable pub friend_items : List UserId → Dict UserId User → List FriendResp
friend_items [] users = []
friend_items (uid ∷ uids) users =
    let rest = friend_items uids users in
    elim (lookup uid users) [ none ↦ rest | some u ↦ to_friend_resp u ∷ rest ]

-- The error of `UpdateFriendApplyStatusTx`, as the two callers pass it on.
abbrev pub as_handled {ℓ} : {A : Type ℓ} → Error → M A
as_handled e = if is_record_not_found e then raise friend_apply_handled else raise e

module _ (p : Platform) where
  unfoldable pub apply_friend : UserId → ApplyFriendReq → M FriendApplyResp
  apply_friend from_uid req = do
    guard (not (is_self from_uid req.to_uid)) cannot_friend_self
    to_user ← get_user_by_id_with_ctx p req.to_uid
    guard (is_some to_user) apply_user_not_found
    blocked ← is_blocked_look p from_uid req.to_uid
    guard (not blocked) friend_blocked
    friends ← is_friend p from_uid req.to_uid
    guard (not friends) already_friend
    pending ← get_pending_friend_apply_between p from_uid req.to_uid
    guard (not (is_some pending)) Error.friend_apply_pending
    row ← create_friend_apply p (new_apply from_uid req)
    pure (friend_apply_to_resp row)

  unfoldable pub list_pending_applies : UserId → M (List FriendApplyResp)
  list_pending_applies uid = do
    applies ← list_pending_friend_applies_to_uid p uid
    pure (map friend_apply_to_resp applies)

  -- The checks that `AcceptApply` and `RejectApply` begin with.
  unfoldable pub own_pending : UserId → Option FriendApply → M FriendApply
  own_pending uid none = raise friend_apply_not_found
  own_pending uid (some f) = do
    guard (is_pending f) friend_apply_handled
    guard (f.to_uid == uid) no_permission
    pure f

  -- The transaction of `AcceptApply`.
  unfoldable pub store_accepted : FriendApply → M Conversation
  store_accepted f = transaction p do
    on_error (update_friend_apply_status p f.id friend_apply_status_accepted) pure as_handled
    create_friendship p f.from_uid f.to_uid
    get_or_create_c2c_tx p true f.from_uid f.to_uid

  unfoldable pub accept_apply : UserId → ℕ → M Conversation
  unfolding own_pending
  accept_apply uid id = do
    found ← get_friend_apply_by_id p id
    f ← own_pending uid found
    blocked ← is_blocked_look p f.from_uid f.to_uid
    guard (not blocked) friend_blocked
    store_accepted f

  unfoldable pub reject_apply : UserId → ℕ → M (Unit {0})
  unfolding own_pending
  reject_apply uid id = do
    found ← get_friend_apply_by_id p id
    f ← own_pending uid found
    on_error (update_friend_apply_status p f.id friend_apply_status_rejected) pure as_handled

  unfoldable pub list_friends : UserId → M (List FriendResp)
  list_friends uid = do
    friendships ← list_friendships_by_uid p uid
    let uids = map (other_of uid) friendships
    users ← get_users_by_ids p uids
    pure (friend_items uids users)

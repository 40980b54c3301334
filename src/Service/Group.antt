-- ===== src/Service/Group.antt =====
-- internal/service/conversation/group.go: groups and their members. The proofs are in the modules
-- below.
pub mod Members
pub mod Normal
pub mod Tables
pub mod Steps
pub mod Leave
pub mod Add
pub mod Create
pub mod Atomicity
use blahaj_chat_server.Common.{
  ℕ, suc, ◌≡◌, Bool, true, false, ◌&&◌, not, Option, none, some, List, [], ◌∷◌, ◌==◌, if◌then◌else◌,
  Text, trim_space, length, contains, map, Dict, lookup, nat_eq,
}
use blahaj_chat_server.Errors.{
  Error, Result, ok, err, invalid_group, group_member_not_found, no_permission, group_owner_leave,
  not_member,
}
use blahaj_chat_server.Model.{UserId, Instant, User, Conversation, GroupInfo, conv_type_group}
use blahaj_chat_server.Platform.{
  Platform, World, M, pure, raise, ◌>>=◌, ◌>>◌, on_error, guard, now, new_id, unmarshal_uids,
}
use blahaj_chat_server.Platform.Sql.{transaction}
use blahaj_chat_server.Dao.State.{
  get_group_info_by_conv_id, create_conversation_states, ensure_conversation_states,
  invalidate_group_members,
}
use blahaj_chat_server.Dao.Conversation.{create_conversation}
use blahaj_chat_server.Dao.Group.{
  create_group_info, get_group_info_for_update, update_group_members, delete_conversation_state,
  to_uint32,
}
use blahaj_chat_server.Dao.User.{get_users_by_ids}
use Members.{normalize_group_members, merge_members, remove_member}

-- `requests.CreateGroupReq` of internal/dto/requests/conversation.go.
pub record CreateGroupReq : Type 0 where
  pub name : Text
  pub avatar : Text
  pub member_uids : List UserId

-- `response.GroupMemberResp` of internal/dto/response/conversation.go.
pub record GroupMemberResp : Type 0 where
  pub uid : UserId
  pub email : Text
  pub nickname : Text
  pub avatar_url : Text
  pub owner : Bool

-- `statesForMembers`
abbrev pub states_for_members : Text → List UserId → List (UserId × Text)
states_for_members conv_id = map λ uid. (uid, conv_id)

abbrev pub lift {ℓ} : {A : Type ℓ} → Result A → M A
lift r w = (r, w)

abbrev pub is_empty : Text → Bool
is_empty [] = true
is_empty (c ∷ s) = false

abbrev to_member_resp : UserId → User → GroupMemberResp
to_member_resp owner u = record {
  uid = u.id;
  email = u.email;
  nickname = u.nickname;
  avatar_url = u.avatar_url;
  owner = u.id == owner;
}

-- The loop over the members: one with no user is passed over.
unfoldable pub member_items : UserId → List UserId → Dict UserId User → List GroupMemberResp
member_items owner [] users = []
member_items owner (uid ∷ members) users =
    let rest = member_items owner members users in
    elim (lookup uid users) [ none ↦ rest | some u ↦ to_member_resp owner u ∷ rest ]

abbrev pub new_conversation : Text → Text → Text → UserId → Instant → Conversation
new_conversation id name avatar owner t = record {
  conv_id = id;
  type = conv_type_group;
  peer_key = none;
  name = name;
  avatar = avatar;
  owner_id = owner;
  last_msg_id = [];
  last_msg_at = t;
}

abbrev pub new_group_info : Text → Text → Text → UserId → Text → ℕ → Instant → GroupInfo
new_group_info id name avatar owner raw n t = record {
  conv_id = id;
  name = name;
  avatar = avatar;
  owner_id = owner;
  members = raw;
  member_count = n;
  updated_at = t;
}

module _ (p : Platform) where
  unfoldable pub ensure_users_exist : List UserId → M (Unit {0})
  ensure_users_exist uids = do
    users ← get_users_by_ids p uids
    guard (length users == length uids) group_member_not_found

  -- The transaction of `CreateGroup`.
  unfoldable pub store_group : Conversation → GroupInfo → List UserId → M (Unit {0})
  store_group conv info members = transaction p do
    create_conversation p conv
    create_group_info p info
    create_conversation_states p (states_for_members conv.conv_id members)

  unfoldable pub create_group : UserId → CreateGroupReq → M Conversation
  create_group owner req = do
    let name = trim_space req.name
    let avatar = trim_space req.avatar
    members ← lift (normalize_group_members owner req.member_uids true)
    guard (not (is_empty name)) invalid_group
    ensure_users_exist members
    t ← now p
    id ← new_id p
    let conv = new_conversation id name avatar owner t
    store_group conv
        (new_group_info id name avatar owner (p.encode_uids members) (to_uint32 (length members)) t)
        members
    pure conv

  unfoldable pub list_group_members : UserId → Text → M (List GroupMemberResp)
  list_group_members uid conv_id = do
    info ← get_group_info_by_conv_id p conv_id
    members ← unmarshal_uids p info.members
    guard (contains members uid) not_member
    users ← get_users_by_ids p members
    pure (member_items info.owner_id members users)

  -- The updates of `AddGroupMembers`, if anybody is new.
  unfoldable pub write_merged : Text → List UserId → List UserId × Bool → M Bool
  write_merged conv_id candidates (merged, added) = if not added then pure added else (do
    update_group_members p conv_id merged
    ensure_conversation_states p (states_for_members conv_id candidates)
    pure added)

  -- The transaction of `AddGroupMembers`; its result is the flag `added`.
  unfoldable pub store_added : UserId → Text → List UserId → M Bool
  store_added operator conv_id candidates = transaction p do
    info ← get_group_info_for_update p conv_id
    guard (info.owner_id == operator) no_permission
    ensure_users_exist candidates
    current ← unmarshal_uids p info.members
    write_merged conv_id candidates (merge_members current candidates)

  unfoldable pub add_group_members : UserId → Text → List UserId → M (List GroupMemberResp)
  add_group_members operator conv_id member_uids = do
    candidates ← lift (normalize_group_members 0 member_uids false)
    added ← store_added operator conv_id candidates
    (if added then invalidate_group_members p conv_id else pure tt)
    list_group_members operator conv_id

  -- The updates of `LeaveGroup`, if the user was a member.
  unfoldable pub write_left : UserId → Text → List UserId × Bool → M (Unit {0})
  write_left uid conv_id (next, removed) = do
    guard removed not_member
    update_group_members p conv_id next
    delete_conversation_state p uid conv_id

  unfoldable pub store_left : UserId → Text → M (Unit {0})
  store_left uid conv_id = transaction p do
    info ← get_group_info_for_update p conv_id
    guard (not (info.owner_id == uid)) group_owner_leave
    current ← unmarshal_uids p info.members
    write_left uid conv_id (remove_member current uid)

  unfoldable pub leave_group : UserId → Text → M (Unit {0})
  leave_group uid conv_id = store_left uid conv_id >> invalidate_group_members p conv_id

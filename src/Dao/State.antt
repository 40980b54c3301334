-- ===== src/Dao/State.antt =====
-- internal/dao/conversation_state.go, with `GetConvByID` of conversation.go.
use blahaj_chat_server.Common.{
  ℕ, ◌+◌, Bool, false, ◌&&◌, not, Option, none, some, List, [], ◌∷◌, ◌++◌, leb, ◌==◌, if◌then◌else◌,
  Text, codes, text_eq, filter, head?, any, map, map_where, contains, map,
}
use blahaj_chat_server.Errors.{
  Error, Result, ok, err, conv_not_found, not_member, fault, is_record_not_found,
}
use blahaj_chat_server.Model.{
  UserId, Conversation, ConversationState, GroupInfo, Db, conv_type_c2c, conv_type_group,
}
use blahaj_chat_server.Platform.{Platform, M, pure, raise, ◌>>=◌, on_error, guard, unmarshal_uids}
use blahaj_chat_server.Platform.Sql.{query, statement, first, create_all, ensure_all}
use blahaj_chat_server.Platform.Redis.{get_cache, set_value_by_key_expire, del_value_by_key}
use blahaj_chat_server.Dao.Peer.{parse_c2c_members}

-- `10 * time.Minute`, in nanoseconds.
abbrev pub group_members_ttl : ℕ
group_members_ttl = 600000000000

unfoldable pub group_members_key : Text → Text
group_members_key conv_id = codes "group:members:" ++ conv_id

-- `Where("conv_id = ?", convID).First(&conv)`, for an id as the server has issued it: the collation of the
-- table takes other spellings of its letters too.
unfoldable pub find_conv : Text → Db → Result Conversation
find_conv conv_id db =
    first (head? (filter (λ (c : Conversation). text_eq c.conv_id conv_id) db.conversations))

unfoldable pub find_group_info : Text → Db → Result GroupInfo
find_group_info conv_id db =
    first (head? (filter (λ (g : GroupInfo). text_eq g.conv_id conv_id) db.group_infos))

-- `errors.Is(err, gorm.ErrRecordNotFound)` to `ErrConvNotFound`, any other error as it is.
abbrev pub not_found_as_conv {ℓ} : {A : Type ℓ} → Error → M A
not_found_as_conv e = if is_record_not_found e then raise conv_not_found else raise e

-- The unique key `uk_conversation_state`.
unfoldable pub state_clash : ConversationState → ConversationState → Bool
state_clash a b = a.uid == b.uid && text_eq a.conv_id b.conv_id

-- `model.ConversationState{UID: uid, ConvID: convID}`
abbrev pub new_state : UserId × Text → ConversationState
new_state (uid, conv_id) = record {
  uid = uid;
  conv_id = conv_id;
  last_read_msg_id = [];
  unread = 0;
  pinned = false;
  muted = false;
}

unfoldable pub insert_states : List (UserId × Text) → Db → Result (Unit {0} × Db)
insert_states states db =
    elim (create_all state_clash (map new_state states) db.conversation_states) [
      | err e ↦ err e
      | ok rows ↦ ok (tt, record db { conversation_states = rows })
    ]

unfoldable pub add_states : List (UserId × Text) → Db → Db
add_states states db = record db {
  conversation_states = ensure_all state_clash (map new_state states) db.conversation_states;
}

abbrev pub max_uint32 : ℕ
max_uint32 = 4294967295

-- MySQL's error 1264, of a value out of the column's range.
abbrev pub out_of_range : Error
out_of_range = fault 1264

abbrev pub is_other_member : Text → UserId → ConversationState → Bool
is_other_member conv_id sender s = text_eq s.conv_id conv_id && not (s.uid == sender)

-- `unread = unread + 1`, on a column of 32 bits without sign.
unfoldable pub incr_unread : Text → UserId → Db → Result (Unit {0} × Db)
incr_unread conv_id sender db =
    if any (λ s. is_other_member conv_id sender s && leb max_uint32 s.unread) db.conversation_states
    then err out_of_range
    else ok (
      tt,
      record db {
        conversation_states =
            map_where (is_other_member conv_id sender) (λ s. record s { unread = s.unread + 1 })
              db.conversation_states;
      },
    )

abbrev pub is_state_of : UserId → Text → ConversationState → Bool
is_state_of uid conv_id s = s.uid == uid && text_eq s.conv_id conv_id

-- The update and `RowsAffected`: that is 0 when no row is picked. (A picked row counts, as gorm
-- writes `updated_at` too.)
unfoldable pub set_last_read : UserId → Text → Text → Db → Result (Bool × Db)
set_last_read uid conv_id msg_id db = ok (
  any (is_state_of uid conv_id) db.conversation_states,
  record db {
    conversation_states =
        map_where (is_state_of uid conv_id)
          (λ s. record s { last_read_msg_id = msg_id; unread = 0 }) db.conversation_states;
  },
)

abbrev pub lift_members : Result (List UserId) → M (List UserId)
lift_members r w = (r, w)

module _ (p : Platform) where
  unfoldable pub get_conv_by_id : Text → M Conversation
  get_conv_by_id conv_id = on_error (query p (find_conv conv_id)) pure not_found_as_conv

  unfoldable pub get_group_info_by_conv_id : Text → M GroupInfo
  get_group_info_by_conv_id conv_id =
      on_error (query p (find_group_info conv_id)) pure not_found_as_conv

  -- Steps 2 to 4 of `ListGroupMembers`; an error of the write to the cache is dropped.
  unfoldable pub load_group_members : Text → M (List UserId)
  load_group_members conv_id = do
    info ← get_group_info_by_conv_id conv_id
    members ← unmarshal_uids p info.members
    on_error
        (set_value_by_key_expire p (group_members_key conv_id) (p.encode_uids members)
          group_members_ttl)
        (λ _. pure members) (λ _. pure members)

  unfoldable pub cached_members : Option Text → Option (List UserId)
  cached_members none = none
  cached_members (some raw) = p.decode_uids raw

  abbrev pub members_or_load : Text → Option (List UserId) → M (List UserId)
  members_or_load conv_id (some members) = pure members
  members_or_load conv_id none = load_group_members conv_id

  -- `ListGroupMembers` of the dao: the cache first, then the table.
  unfoldable pub list_group_members : Text → M (List UserId)
  unfolding load_group_members cached_members
  list_group_members conv_id = do
    cached ← get_cache p (group_members_key conv_id)
    members_or_load conv_id (cached_members cached)

  -- `InvalidateGroupMembers`
  unfoldable pub invalidate_group_members : Text → M (Unit {0})
  invalidate_group_members conv_id = del_value_by_key p (group_members_key conv_id)

  unfoldable pub list_members : Text → M (List UserId)
  list_members conv_id = do
    conv ← get_conv_by_id conv_id
    if text_eq conv.type conv_type_c2c
        then lift_members (parse_c2c_members conv)
        else if text_eq conv.type conv_type_group
        then list_group_members conv_id
        else raise conv_not_found

  -- `IsMember`: the loop over the members is `contains`.
  unfoldable pub is_member : UserId → Text → M Bool
  is_member uid conv_id = do members ← list_members conv_id; pure (contains members uid)

  unfoldable pub incr_unread_except : Text → UserId → M (Unit {0})
  incr_unread_except conv_id sender = statement p (incr_unread conv_id sender)

  unfoldable pub update_last_read : UserId → Text → Text → M (Unit {0})
  update_last_read uid conv_id msg_id = do
    affected ← statement p (set_last_read uid conv_id msg_id)
    guard affected not_member

  unfoldable pub get_conversation_states_by_uid : UserId → M (List ConversationState)
  get_conversation_states_by_uid uid =
      query p λ db. ok (filter (λ (s : ConversationState). s.uid == uid) db.conversation_states)

  unfoldable pub create_conversation_states : List (UserId × Text) → M (Unit {0})
  create_conversation_states [] = pure tt
  create_conversation_states (s ∷ states) = statement p (insert_states (s ∷ states))

  unfoldable pub ensure_conversation_states : List (UserId × Text) → M (Unit {0})
  ensure_conversation_states [] = pure tt
  ensure_conversation_states (s ∷ states) = statement p λ db. ok (tt, add_states (s ∷ states) db)

-- ===== src/Dao/Group.antt =====
-- internal/dao/group.go.
use blahaj_chat_server.Common.{
  ℕ, Bool, not, ◌||◌, List, [], ◌∷◌, ◌++◌, Text, text_eq, filter, any, map_where, length, ◌%◌, ◌^◌,
  ltb, take, sort_by,
}
use blahaj_chat_server.Errors.{Result, ok, err, conv_not_found}
use blahaj_chat_server.Model.{UserId, GroupInfo, Db}
use blahaj_chat_server.Platform.{Platform, M, pure, ◌>>=◌, on_error, guard}
use blahaj_chat_server.Platform.Sql.{query, statement, create}
use blahaj_chat_server.Dao.User.{Collation, search_limit}
use blahaj_chat_server.Dao.State.{find_group_info, not_found_as_conv, is_state_of}

abbrev pub group_clash : GroupInfo → GroupInfo → Bool
group_clash a b = text_eq a.conv_id b.conv_id

unfoldable pub insert_group_info : GroupInfo → Db → Result (Unit {0} × Db)
insert_group_info g db = elim (create group_clash g db.group_infos) [
  | err e ↦ err e
  | ok rows ↦ ok (tt, record db { group_infos = rows })
]

-- `uint32(n)`
abbrev pub to_uint32 : ℕ → ℕ
to_uint32 n = n % 2 ^ 32

abbrev pub is_group : Text → GroupInfo → Bool
is_group conv_id g = text_eq g.conv_id conv_id

-- The update of the members and their number, and whether a row was there.
unfoldable pub set_group_members : Text → Text → ℕ → Db → Result (Bool × Db)
set_group_members conv_id raw n db = ok (
  any (is_group conv_id) db.group_infos,
  record db {
    group_infos =
        map_where (is_group conv_id) (λ g. record g { members = raw; member_count = n })
          db.group_infos;
  },
)

unfoldable pub delete_state : UserId → Text → Db → Db
delete_state uid conv_id db = record db {
  conversation_states = filter (λ s. not (is_state_of uid conv_id s)) db.conversation_states;
}

-- `WHERE conv_id = ? OR name LIKE ? ORDER BY updated_at DESC LIMIT ?`
unfoldable pub search_group_rows : Collation → Text → ℕ → Db → List GroupInfo
search_group_rows c keyword limit db = take limit (
    sort_by (λ (g h : GroupInfo). ltb h.updated_at g.updated_at)
      (filter
        (λ (g : GroupInfo). c.same g.conv_id keyword || c.like (b'%' ∷ keyword ++ b'%' ∷ []) g.name)
        db.group_infos))

module _ (p : Platform) where
  unfoldable pub search_groups : Collation → Text → ℕ → M (List GroupInfo)
  search_groups c [] limit = pure []
  search_groups c (k ∷ keyword) limit =
      query p λ db. ok (search_group_rows c (k ∷ keyword) (search_limit limit) db)

  unfoldable pub create_group_info : GroupInfo → M (Unit {0})
  create_group_info g = statement p (insert_group_info g)

  -- `GetGroupInfoByConvIDForUpdateTx`: the lock keeps other transactions off the row.
  unfoldable pub get_group_info_for_update : Text → M GroupInfo
  get_group_info_for_update conv_id =
      on_error (query p (find_group_info conv_id)) pure not_found_as_conv

  unfoldable pub update_group_members : Text → List UserId → M (Unit {0})
  update_group_members conv_id members = do
    affected ←
        statement p (set_group_members conv_id (p.encode_uids members) (to_uint32 (length members)))
    guard affected conv_not_found

  unfoldable pub delete_conversation_state : UserId → Text → M (Unit {0})
  delete_conversation_state uid conv_id = statement p λ db. ok (tt, delete_state uid conv_id db)

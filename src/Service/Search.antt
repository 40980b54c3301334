-- ===== src/Service/Search.antt =====
-- `SearchGroups` of internal/service/conversation/conversation.go.
use blahaj_chat_server.Common.{ℕ, List, Text, map, trim_space}
use blahaj_chat_server.Model.{UserId, GroupInfo}
use blahaj_chat_server.Platform.{Platform, M, pure, ◌>>=◌}
use blahaj_chat_server.Dao.User.{Collation}
use blahaj_chat_server.Dao.Group.{search_groups as select_groups}

-- `response.GroupSearchResp` of internal/dto/response/conversation.go.
pub record GroupSearchResp : Type 0 where
  pub conv_id : Text
  pub name : Text
  pub avatar : Text
  pub owner_id : UserId
  pub member_count : ℕ

abbrev pub to_group_search_resp : GroupInfo → GroupSearchResp
to_group_search_resp g = record {
  conv_id = g.conv_id;
  name = g.name;
  avatar = g.avatar;
  owner_id = g.owner_id;
  member_count = g.member_count;
}

module _ (p : Platform) (c : Collation) where
  unfoldable pub search_groups : Text → ℕ → M (List GroupSearchResp)
  search_groups keyword limit = do
    groups ← select_groups p c (trim_space keyword) limit
    pure (map to_group_search_resp groups)

-- ===== src/Service/Group/Leave.antt =====
-- group.go: what `LeaveGroup` has done when it returns.
use blahaj_chat_server.Common.{◌≡◌, true, false, List, ◌==◌, Text, length, contains}
use blahaj_chat_server.Model.{UserId, GroupInfo, Db}
use blahaj_chat_server.Platform.{Platform}
use blahaj_chat_server.Platform.After.{After}
use blahaj_chat_server.Dao.Group.{to_uint32}
use blahaj_chat_server.Service.Group.Members.{remove_member}
use blahaj_chat_server.Service.Group.Tables.{IsGroup, with_members}

module _ (p : Platform) where
  -- What leaving makes of a group.
  abbrev Left : UserId → Text → GroupInfo → List UserId → Db → Type 0
  Left uid conv_id info members after =
      let next = (remove_member members uid).0 in
      IsGroup p conv_id (with_members (p.encode_uids next) (to_uint32 (length next)) info) next
        after
      × (contains members uid ≡ true)
      × ((info.owner_id == uid) ≡ false)

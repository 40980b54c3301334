-- ===== src/Examples/Groups.antt =====
-- Member lists and keys of conversations.
use blahaj_chat_server.Common.{◌≡◌, refl, true, some, [], ◌∷◌, Ascending, arith, sort_by}
use blahaj_chat_server.Errors.{ok}
use blahaj_chat_server.Dao.Peer.{make_peer_key, parse_c2c_members, parse_c2c_members-make_peer_key}
use blahaj_chat_server.Service.Group.Members.{normalize_group_members, add_member, add_members}
use blahaj_chat_server.Service.Group.Normal.{normalize_ok}
use blahaj_chat_server.Common.{format_uint}
use blahaj_chat_server.Examples.Fixtures.{direct}

normalized : normalize_group_members 5 (2 ∷ 0 ∷ 5 ∷ 2 ∷ 1 ∷ []) true ≡ ok (1 ∷ 2 ∷ 5 ∷ [])
unfolding normalize_group_members add_members add_member sort_by
normalized = refl

normalize_ok_example : Ascending (1 ∷ 2 ∷ 5 ∷ [])
normalize_ok_example = (normalize_ok 5 (2 ∷ 0 ∷ 5 ∷ 2 ∷ 1 ∷ []) true normalized).0

direct_key : direct.peer_key ≡ some (make_peer_key 2 1)
unfolding make_peer_key format_uint
direct_key = refl

parse_c2c_members-make_peer_key_example : parse_c2c_members direct ≡ ok (1 ∷ 2 ∷ [])
parse_c2c_members-make_peer_key_example =
    parse_c2c_members-make_peer_key direct 2 1 direct_key (omega arith) (omega arith)

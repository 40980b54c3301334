-- ===== src/Examples/Races.antt =====
-- An application that is rejected while an acceptance is between its checks and its writes.
use blahaj_chat_server.Common.{◌≡◌, refl, none, [], ◌∷◌, text_eq, arith}
use blahaj_chat_server.Errors.{ok}
use blahaj_chat_server.Model.{FriendApply, friend_apply_status_pending}
use blahaj_chat_server.Platform.{World, now}
use blahaj_chat_server.Platform.Sql.{statement}
use blahaj_chat_server.Platform.Reliable.{reliable}
use blahaj_chat_server.Dao.Friend.{handle_apply, update_friend_apply_status}
use blahaj_chat_server.Service.Friend.{ApplyFriendReq, apply_friend}
use blahaj_chat_server.Service.Friend.Race.{
  accepting, rejecting, run_handling, applying, Phases, stop, next, IsRefused, run_handling-once,
}
use blahaj_chat_server.Examples.Fixtures.{small}

abbrev open_apply : FriendApply
open_apply = record {
  id = 1;
  from_uid = 1;
  to_uid = 5;
  status = friend_apply_status_pending;
  reason = [];
  handled_at = none;
  created_at = 7;
}

abbrev waiting : World
waiting = record small {
  db = record small.db { friend_applies = open_apply ∷ []; next_friend_apply = 2 };
}

abbrev rejected : World
rejected = (run_handling reliable (rejecting 1) waiting).1

rejected_ok : run_handling reliable (rejecting 1) waiting ≡ (ok tt, rejected)
unfolding run_handling update_friend_apply_status now statement handle_apply text_eq
rejected_ok = refl

abbrev again : ApplyFriendReq
again = record { to_uid = 5; reason = [] }

abbrev later : World
later = (apply_friend reliable 1 again rejected).1

phases : Phases reliable rejected later
phases = next (applying 1 again rejected) stop

run_handling-once_example :
    IsRefused reliable later.db (run_handling reliable (accepting open_apply) later)
run_handling-once_example =
    run_handling-once reliable (rejecting 1) (accepting open_apply) waiting (omega arith)
      rejected_ok phases refl

-- ===== src/Service/Group/Atomicity.antt =====
-- group.go: operations that return an error have changed no row.
use blahaj_chat_server.Common.{refl, not, List, Text, trim_space, arith}
use blahaj_chat_server.Errors.{invalid_group}
use blahaj_chat_server.Model.{UserId, Conversation, GroupInfo, Db}
use blahaj_chat_server.Platform.{Platform, World}
use blahaj_chat_server.Platform.Redis.{del_value_by_key}
use blahaj_chat_server.Platform.Effects.{
  Atomic, Kept, Atomic-bind, Atomic-then, Atomic-transaction, Quiet-guard, Quiet-now, Quiet-new_id,
}
use blahaj_chat_server.Dao.State.{invalidate_group_members}
use blahaj_chat_server.Service.Group.{
  CreateGroupReq, is_empty, store_group, create_group, store_left, leave_group,
}
use blahaj_chat_server.Service.Group.Add.{Quiet-ensure_users_exist}

module _ (p : Platform) where
  Atomic-store_group :
      (conv : Conversation) (info : GroupInfo) (members : List UserId)
      → Atomic (store_group p conv info members)
  unfolding store_group
  Atomic-store_group conv info members = Atomic-transaction p _

  -- A group that could not be created has left no row behind.
  pub create_group-Atomic :
      (owner : UserId) (req : CreateGroupReq) → Atomic (create_group p owner req)
  unfolding create_group
  create_group-Atomic owner req =
      Atomic-bind _ _ (record { at = λ w. refl })
        λ members.
          Atomic-bind _ _ (Quiet-guard (not (is_empty (trim_space req.name))) invalid_group) λ _.
            Atomic-bind _ _ (Quiet-ensure_users_exist p members) λ _.
              Atomic-bind _ _ (Quiet-now p) λ t.
                Atomic-bind _ _ (Quiet-new_id p)
                  λ id. Atomic-then _ _ (Atomic-store_group _ _ members) λ _ w db. tt

  Kept-invalidate :
      (conv_id : Text) (w : World) (db : Db) → Kept db (invalidate_group_members p conv_id w)
  unfolding invalidate_group_members del_value_by_key
  Kept-invalidate conv_id w db = ground arith

  Atomic-store_left : (uid : UserId) (conv_id : Text) → Atomic (store_left p uid conv_id)
  unfolding store_left
  Atomic-store_left uid conv_id = Atomic-transaction p _

  -- Leaving a group, when it returns an error, has changed no row.
  pub leave_group-Atomic : (uid : UserId) (conv_id : Text) → Atomic (leave_group p uid conv_id)
  unfolding leave_group
  leave_group-Atomic uid conv_id =
      Atomic-then _ _ (Atomic-store_left uid conv_id) λ _ w db. Kept-invalidate conv_id w db

-- ===== src/Service/Group/Steps.antt =====
-- group.go: the statements that its operations share, one by one.
use blahaj_chat_server.Common.{
  ◌≡◌, sym, ◌∙◌, ap, inl, inr, some, List, Text, length, arith, Bool-cases,
}
use blahaj_chat_server.Errors.{Error, Result, ok, conv_not_found, is_record_not_found}
use blahaj_chat_server.Model.{UserId, GroupInfo, Db}
use blahaj_chat_server.Platform.{Platform, World, unmarshal_uids}
use blahaj_chat_server.Platform.Sql.{query}
use blahaj_chat_server.Platform.After.{
  After, After-ok, After-of, After-continue, After-branch, After-pure, After-raise, After-guard,
  After-query, After-statement,
}
use blahaj_chat_server.Dao.State.{find_group_info, not_found_as_conv}
use blahaj_chat_server.Dao.Group.{
  set_group_members, to_uint32, get_group_info_for_update, update_group_members,
}
use blahaj_chat_server.Service.Group.Tables.{IsGroup, with_members, find-set_group_members}

pub db_of : {v w : World} → v ≡ w → v.db ≡ w.db
db_of e = ap (λ (x : World). x.db) e

pub ok_inj {ℓ} : {A : Type ℓ} {a b : A} → ok a ≡ ok b → a ≡ b
ok_inj h = cc

pub some_inj {ℓ} : {A : Type ℓ} {a b : A} → some a ≡ some b → a ≡ b
some_inj h = cc

pub stated :
    (a b : Db) (u : Unit {0}) → ◌≡◌ {A = Result (Unit {0} × Db)} (ok (tt, a)) (ok (u, b)) → b ≡ a
stated a b u h = cc

-- A group has one row and one list of members.
pub same_group :
    (p : Platform) {conv_id : Text} {info row : GroupInfo} {members current : List UserId}
    {db db' : Db}
    → IsGroup p conv_id info members db
    → db' ≡ db
    → find_group_info conv_id db' ≡ ok row
    → p.decode_uids row.members ≡ some current
    → ◌≡◌ {A = GroupInfo × List UserId} (row, current) (info, members)
same_group p {conv_id} {info} {row} {members} {current} g same h k =
    let one : row ≡ info = ok_inj (sym h ∙ ap (find_group_info conv_id) same ∙ g.found) in
    let two : current ≡ members =
      some_inj (sym k ∙ ap (λ (r : GroupInfo). p.decode_uids r.members) one ∙ g.decoded) in
    ap2 one two
  where
    ap2 :
        row ≡ info
        → current ≡ members
        → ◌≡◌ {A = GroupInfo × List UserId} (row, current) (info, members)
    ap2 e f = ap (λ r. (r, current)) e ∙ ap (λ c. (info, c)) f

module _ (p : Platform) where
  After-not_found {ℓ κ} :
      {A : Type ℓ} {Q : A → World → Type κ} (e : Error) (w : World)
      → After (not_found_as_conv {A = A} e w) Q
  After-not_found e w = elim (Bool-cases (is_record_not_found e)) [
    | inl k ↦ rw k (After-raise conv_not_found w)
    | inr k ↦ rw k (After-raise e w)
  ]

  pub After-info :
      (conv_id : Text) (w : World)
      → After
          (get_group_info_for_update p conv_id w)
          (λ info v. (find_group_info conv_id w.db ≡ ok info) × (v.db ≡ w.db))
  unfolding get_group_info_for_update
  After-info conv_id w =
      After-branch (query p (find_group_info conv_id) w) _ _
        (λ info v e.
          let (found, same) = After-ok (After-query p (find_group_info conv_id) w) e in
          After-pure info v (found, db_of same))
        (λ e v _. After-not_found e v)

  pub After-unmarshal :
      (raw : Text) (w : World)
      → After (unmarshal_uids p raw w) (λ uids v. (p.decode_uids raw ≡ some uids) × (v ≡ w))
  unfolding unmarshal_uids
  After-unmarshal raw w = After-of _ (λ uids v h. (ground arith, ground arith))

  pub After-update_members :
      (conv_id : Text) (members : List UserId) (info : GroupInfo) (w : World)
      → find_group_info conv_id w.db ≡ ok info
      → After (update_group_members p conv_id members w) (λ _ v.
        (find_group_info conv_id v.db
          ≡ ok (with_members (p.encode_uids members) (to_uint32 (length members)) info))
        × (v.db.conversation_states ≡ w.db.conversation_states))
  unfolding update_group_members
  After-update_members conv_id members info w h =
      let raw = p.encode_uids members in
      let n = to_uint32 (length members) in
      After-continue _ _ (After-statement p (set_group_members conv_id raw n) w) λ found v e.
        After-of _ λ _ u k.
          let (_, same) = After-ok (After-guard found conv_not_found v) k in
          let (row, kept) = find-set_group_members conv_id raw n w.db info found v.db h e in
          (
            ap (find_group_info conv_id) (db_of same) ∙ row,
            ap (λ (d : Db). d.conversation_states) (db_of same) ∙ kept,
          )

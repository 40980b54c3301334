-- ===== src/Service/Group/Tables.antt =====
-- group.go: what a group is in the tables, and what the statements of its operations make of it.
use blahaj_chat_server.Common.{
  ℕ, ◌≡◌, sym, ◌∙◌, ap, subst, Bool, true, false, ◌&&◌, ◌||◌, not, inl, inr, some, List, [], ◌∷◌,
  ◌++◌, ◌==◌, ==_iff, Text, text_eq_refl, filter, head?, any, any-append, map, map_where, length,
  contains, Ascending, arith, Bool-cases,
}
use blahaj_chat_server.Errors.{ok}
use blahaj_chat_server.Model.{UserId, ConversationState, GroupInfo, Db}
use blahaj_chat_server.Platform.{Platform}
use blahaj_chat_server.Platform.Sql.{first, ensure_all}
use blahaj_chat_server.Dao.State.{find_group_info, is_state_of, new_state, state_clash, add_states}
use blahaj_chat_server.Dao.Group.{is_group, set_group_members, delete_state, to_uint32}
use blahaj_chat_server.Dao.Pair.{clash_is_state}
use blahaj_chat_server.Service.Group.{states_for_members}

-- The group of a conversation as the tables hold it: its row says who is a member and how many they
-- are; the owner is one of them; and exactly the members have a state in the conversation.
pub record IsGroup (p : Platform) (conv_id : Text) (info : GroupInfo) (members : List UserId)
    (db : Db) : Type 0 where
  pub found : find_group_info conv_id db ≡ ok info
  pub decoded : p.decode_uids info.members ≡ some members
  pub counted : info.member_count ≡ to_uint32 (length members)
  pub ascending : Ascending members
  pub no_zero : contains members 0 ≡ false
  pub owned : contains members info.owner_id ≡ true
  pub states :
      (uid : UserId) → any (is_state_of uid conv_id) db.conversation_states ≡ contains members uid

abbrev pub with_members : Text → ℕ → GroupInfo → GroupInfo
with_members raw n g = record g { members = raw; member_count = n }

find-updated :
    (conv_id raw : Text) (n : ℕ) (rows : List GroupInfo) (info : GroupInfo)
    → head? (filter (is_group conv_id) rows) ≡ some info
    → head? (filter (is_group conv_id) (map_where (is_group conv_id) (with_members raw n) rows))
      ≡ some (with_members raw n info)
find-updated conv_id raw n [] info h = cc
find-updated conv_id raw n (g ∷ rows) info h = ground (arith, find-updated conv_id raw n rows info)

-- The row after the update of its members.
pub find-set_group_members :
    (conv_id raw : Text) (n : ℕ) (db : Db) (info : GroupInfo) (found : Bool) (db' : Db)
    → find_group_info conv_id db ≡ ok info
    → set_group_members conv_id raw n db ≡ ok (found, db')
    → (find_group_info conv_id db' ≡ ok (with_members raw n info))
      × (db'.conversation_states ≡ db.conversation_states)
unfolding find_group_info set_group_members
find-set_group_members conv_id raw n db info found db' h k =
    let same : db'.group_infos ≡ map_where (is_group conv_id) (with_members raw n) db.group_infos =
      ground arith in
    (
      ap (λ rows. first (head? (filter (is_group conv_id) rows))) same
          ∙ ap first (find-updated conv_id raw n db.group_infos info (ground arith)),
      ground arith,
    )

any-deleted :
    (uid other : UserId) (conv_id : Text) (rows : List ConversationState)
    → any (is_state_of other conv_id) (filter (λ s. not (is_state_of uid conv_id s)) rows)
      ≡ not (other == uid) && any (is_state_of other conv_id) rows
any-deleted uid other conv_id [] = ground arith
any-deleted uid other conv_id (s ∷ rows) = ground (arith, any-deleted uid other conv_id rows)

-- The states after one is deleted.
pub states-delete_state :
    (uid other : UserId) (conv_id : Text) (db : Db)
    → any (is_state_of other conv_id) (delete_state uid conv_id db).conversation_states
      ≡ not (other == uid) && any (is_state_of other conv_id) db.conversation_states
unfolding delete_state
states-delete_state uid other conv_id db = any-deleted uid other conv_id db.conversation_states

has_same :
    (conv_id : Text) (uid other : UserId) (rows : List ConversationState)
    → any (is_state_of uid conv_id) rows ≡ true
    → any (is_state_of other conv_id) rows ≡ any (is_state_of other conv_id) rows || uid == other
has_same conv_id uid other rows h = elim (Bool-cases (uid == other)) [
  | inl e ↦
      let there = subst (λ u. any (is_state_of u conv_id) rows ≡ true) ((==_iff uid other).0 e) h in
      ground (arith, there)
  | inr e ↦ ground arith
]

any-ensured :
    (conv_id : Text) (uids : List UserId) (other : UserId) (rows : List ConversationState)
    → any
        (is_state_of other conv_id)
        (ensure_all state_clash (map new_state (states_for_members conv_id uids)) rows)
      ≡ any (is_state_of other conv_id) rows || contains uids other
unfolding ensure_all
any-ensured conv_id [] other rows = ground arith
any-ensured conv_id (uid ∷ uids) other rows =
    elim (Bool-cases (any (state_clash (new_state (uid, conv_id))) rows)) [
      | inl e ↦
          rw (e, ensure_all)
            (any-ensured conv_id uids other rows
              ∙ ground (
                arith,
                has_same conv_id uid other rows (sym (clash_is_state uid conv_id rows) ∙ e),
              ))
      | inr e ↦
          rw (e, ensure_all)
            (any-ensured conv_id uids other (rows ++ new_state (uid, conv_id) ∷ [])
              ∙ ground (
                arith,
                any-append (is_state_of other conv_id) rows (new_state (uid, conv_id) ∷ []),
                text_eq_refl conv_id,
              ))
    ]

-- The states after those that are missing are added.
pub states-add_states :
    (conv_id : Text) (uids : List UserId) (other : UserId) (db : Db)
    → any
        (is_state_of other conv_id)
        (add_states (states_for_members conv_id uids) db).conversation_states
      ≡ any (is_state_of other conv_id) db.conversation_states || contains uids other
unfolding add_states
states-add_states conv_id uids other db = any-ensured conv_id uids other db.conversation_states

-- ===== src/Service/Group/Create.antt =====
-- group.go: what `CreateGroup` has done when it returns.
use blahaj_chat_server.Common.{
  ==_refl, ◌≢◌, trim_space, head?, filter, filter-append, text_eq, text_eq_refl, ◌≤◌, ◌++◌,
  not-true, ◌≡◌, refl, sym, ◌∙◌, ap, subst, true, false, ◌&&◌, ◌||◌, not, none, List, [], ◌∷◌, ◌==◌,
  Text, any, length, contains, arith,
}
use blahaj_chat_server.Errors.{ok, invalid_group}
use blahaj_chat_server.Model.{conv_type_group, Conversation, Instant, UserId, GroupInfo, Db}
use blahaj_chat_server.Platform.{Platform, World, JsonLaws}
use blahaj_chat_server.Platform.Sql.{first, ensure_all}
use blahaj_chat_server.Platform.Effects.{Quiet-new_id}
use blahaj_chat_server.Platform.After.{
  After-now, After, After-ok, After-of, After-continue, After-pure, After-guard, After-Quiet,
  After-statement, After-transaction,
}
use blahaj_chat_server.Dao.State.{
  find_conv, insert_states, create_conversation_states, add_states, find_group_info, is_state_of,
}
use blahaj_chat_server.Dao.Group.{
  group_clash, is_group, insert_group_info, create_group_info, to_uint32,
}
use blahaj_chat_server.Service.Group.{
  lift, states_for_members, CreateGroupReq, new_conversation, new_group_info, is_empty, store_group,
  create_group,
}
use blahaj_chat_server.Dao.Conversation.{
  conversation_clash, create_conversation, insert_conversation,
}
use blahaj_chat_server.Dao.Pair.{
  text_eq_comm, inserted_row, head?-append_none, insert_states-add_states,
}
use blahaj_chat_server.Service.Group.Members.{normalize_group_members}
use blahaj_chat_server.Service.Group.Normal.{normalize_ok}
use blahaj_chat_server.Service.Group.Tables.{IsGroup, states-add_states}
use blahaj_chat_server.Service.Group.Add.{Quiet-ensure_users_exist}
use blahaj_chat_server.Service.Group.Steps.{db_of}

find_none :
    (info : GroupInfo) (rows : List GroupInfo)
    → any (group_clash info) rows ≡ false
    → head? (filter (is_group info.conv_id) rows) ≡ none
find_none info [] h = refl
find_none info (g ∷ rows) h =
    ground (arith, find_none info rows, text_eq_comm info.conv_id g.conv_id)

-- The row that was inserted is the one that its conversation finds.
find-insert_group_info :
    (info : GroupInfo) (db db' : Db) (u : Unit {0})
    → insert_group_info info db ≡ ok (u, db')
    → db' ≡ record db { group_infos = db.group_infos ++ info ∷ [] }
      × (any (group_clash info) db.group_infos ≡ false)
unfolding insert_group_info
find-insert_group_info info db db' u h = (ground arith, ground arith)

found_group :
    (info : GroupInfo) (db : Db)
    → any (group_clash info) db.group_infos ≡ false
    → find_group_info info.conv_id (record db { group_infos = db.group_infos ++ info ∷ [] })
      ≡ ok info
unfolding find_group_info
found_group info db h =
    let last : filter (is_group info.conv_id) (info ∷ []) ≡ info ∷ [] =
      ground (arith, text_eq_refl info.conv_id) in
    ap first (
      ap head? (filter-append (is_group info.conv_id) db.group_infos (info ∷ []))
      ∙ head?-append_none (filter (is_group info.conv_id) db.group_infos) _
          (find_none info db.group_infos h)
      ∙ ap head? last)

no_conv :
    (conv : Conversation) (rows : List Conversation)
    → any (conversation_clash conv) rows ≡ false
    → head? (filter (λ (c : Conversation). text_eq c.conv_id conv.conv_id) rows) ≡ none
unfolding conversation_clash
no_conv conv [] h = refl
no_conv conv (c ∷ rows) h = ground (arith, no_conv conv rows, text_eq_comm conv.conv_id c.conv_id)

no_clash :
    (conv : Conversation) (db db' : Db) (u : Unit {0})
    → insert_conversation conv db ≡ ok (u, db')
    → any (conversation_clash conv) db.conversations ≡ false
unfolding insert_conversation
no_clash conv db db' u h = ground arith

found_conv :
    (conv : Conversation) (db : Db)
    → any (conversation_clash conv) db.conversations ≡ false
    → find_conv conv.conv_id (record db { conversations = db.conversations ++ conv ∷ [] }) ≡ ok conv
unfolding find_conv
found_conv conv db h =
    let mine = λ (c : Conversation). text_eq c.conv_id conv.conv_id in
    let last : filter mine (conv ∷ []) ≡ conv ∷ [] = ground (arith, text_eq_refl conv.conv_id) in
    ap first (
      ap head? (filter-append mine db.conversations (conv ∷ []))
      ∙ head?-append_none (filter mine db.conversations) _ (no_conv conv db.conversations h)
      ∙ ap head? last)

module _ (p : Platform) where
  After-create_states :
      (states : List (UserId × Text)) (w : World)
      → After (create_conversation_states p states w) (λ _ v. v.db ≡ add_states states w.db)
  unfolding create_conversation_states add_states ensure_all
  After-create_states [] w = After-pure tt w refl
  After-create_states (s ∷ states) w = After-of _ λ u v e.
      insert_states-add_states (s ∷ states) w.db v.db
        (After-ok (After-statement p (insert_states (s ∷ states)) w) e)

  -- What the transaction of a new group makes of the rows.
  abbrev Founded : Conversation → GroupInfo → List UserId → Db → Db → Type 0
  Founded conv info members before after =
      (any (conversation_clash conv) before.conversations ≡ false)
      × (any (group_clash info) before.group_infos ≡ false)
      × (after
          ≡ add_states (states_for_members conv.conv_id members) (record before {
            conversations = before.conversations ++ conv ∷ [];
            group_infos = before.group_infos ++ info ∷ [];
          }))

  After-store_group :
      (conv : Conversation) (info : GroupInfo) (members : List UserId) (w : World)
      → After (store_group p conv info members w) (λ _ v. Founded conv info members w.db v.db)
  unfolding store_group create_conversation create_group_info
  After-store_group conv info members w =
      After-transaction p (λ _ db. Founded conv info members w.db db) _ w
        λ v start. After-continue _ _ (After-statement p (insert_conversation conv) v) λ u1 v1 g1.
          After-continue _ _ (After-statement p (insert_group_info info) v1) λ u2 v2 g2.
            After-of _ λ _ v3 e.
              let g3 =
                After-ok (After-create_states (states_for_members conv.conv_id members) v2) e in
              let one = inserted_row conv v.db v1.db g1 in
              let (two, alone) = find-insert_group_info info v1.db v2.db u2 g2 in
              let group_row = λ (d : Db). record d { group_infos = d.group_infos ++ info ∷ [] } in
              let conv_row =
                λ (d : Db). record d { conversations = d.conversations ++ conv ∷ [] } in
              (
                ap (λ (d : Db). any (conversation_clash conv) d.conversations) (sym start)
                    ∙ no_clash conv v.db v1.db u1 g1,
                ap (λ (d : Db). any (group_clash info) d.group_infos)
                      (sym (one ∙ ap conv_row start))
                    ∙ alone,
                g3
                    ∙ ap (add_states (states_for_members conv.conv_id members))
                        (two ∙ ap group_row (one ∙ ap conv_row start)),
              )

  -- A new group: its conversation is stored under the name without the spaces around it, which is not
  -- empty, and the group has the owner and the given users, at least two in all.
  pub record Started (owner : UserId) (req : CreateGroupReq) (conv : Conversation) (after : Db)
      : Type 0 where
    pub info : GroupInfo
    pub members : List UserId
    pub group : IsGroup p conv.conv_id info members after
    pub owner_is : info.owner_id ≡ owner
    pub holds :
        (u : UserId)
        → contains members u ≡ not (u == 0) && (owner == u || contains req.member_uids u)
    pub at_least : 2 ≤ length members
    pub stored : find_conv conv.conv_id after ≡ ok conv
    pub is_group_conv : conv.type ≡ conv_type_group
    pub named : conv.name ≡ trim_space req.name
    pub not_empty : is_empty conv.name ≡ false

  Started-Founded :
      (owner : UserId) (req : CreateGroupReq) (id : Text) (t : Instant) (members : List UserId)
      (before after : Db)
      → JsonLaws p
      → owner ≢ 0
      → normalize_group_members owner req.member_uids true ≡ ok members
      → is_empty (trim_space req.name) ≡ false
      → (let name = trim_space req.name in
          let avatar = trim_space req.avatar in
          Founded
            (new_conversation id name avatar owner t)
            (new_group_info id name avatar owner
              (p.encode_uids members)
              (to_uint32 (length members))
              t)
            members
            before
            after)
      → ((u : UserId) → any (is_state_of u id) before.conversation_states ≡ false)
      → (let name = trim_space req.name in
          Started owner req (new_conversation id name (trim_space req.avatar) owner t) after)
  unfolding add_states find_group_info find_conv
  Started-Founded owner req id t members before after laws real norm named (no_row, new_row, e)
        fresh =
      let name = trim_space req.name in
      let avatar = trim_space req.avatar in
      let conv = new_conversation id name avatar owner t in
      let info =
        new_group_info id name avatar owner (p.encode_uids members) (to_uint32 (length members))
          t in
      let (rises, holds, two) = normalize_ok owner req.member_uids true norm in
      record {
        info = info;
        members = members;
        group = record {
          found = ap (find_group_info id) e ∙ found_group info before new_row;
          decoded = laws.decode-encode_uids members;
          counted = refl;
          ascending = rises;
          no_zero = holds 0;
          owned = holds owner ∙ ground (arith, real, ==_refl owner);
          states = λ u.
              ap (λ (d : Db). any (is_state_of u id) d.conversation_states) e
              ∙ states-add_states id members u (record before {
                conversations = before.conversations ++ conv ∷ [];
                group_infos = before.group_infos ++ info ∷ [];
              })
              ∙ ap (λ b. b || contains members u) (fresh u);
        };
        owner_is = refl;
        holds = holds;
        at_least = two;
        stored = ap (find_conv id) e ∙ found_conv conv before no_row;
        is_group_conv = refl;
        named = refl;
        not_empty = named;
      }

  After-lift :
      (owner : UserId) (given : List UserId) (w : World)
      → After
          (lift (normalize_group_members owner given true) w)
          (λ ms v. (normalize_group_members owner given true ≡ ok ms) × (v.db ≡ w.db))
  After-lift owner given w = After-of _ λ ms v e. (ap (λ x. x.0) e, ap (λ x. x.1.db) (sym e))

  After-create_group :
      (owner : UserId) (req : CreateGroupReq) (w : World)
      → JsonLaws p
      → owner ≢ 0
      → After (create_group p owner req w) (λ conv v.
        ((u : UserId) → any (is_state_of u conv.conv_id) w.db.conversation_states ≡ false)
        → Started owner req conv v.db)
  unfolding create_group
  After-create_group owner req w laws real =
      let name = trim_space req.name in
      let avatar = trim_space req.avatar in
      After-continue _ _ (After-lift owner req.member_uids w) λ members w1 g1.
        After-continue _ _ (After-guard (not (is_empty name)) invalid_group w1) λ _ w2 g2.
          After-continue _ _ (After-Quiet _ w2 (Quiet-ensure_users_exist p members)) λ _ w3 g3.
            After-continue _ _ (After-now p w3) λ t w4 g4.
              After-continue _ _ (After-Quiet _ w4 (Quiet-new_id p)) λ id w5 g5.
                let conv = new_conversation id name avatar owner t in
                let info =
                  new_group_info id name avatar owner (p.encode_uids members)
                    (to_uint32 (length members)) t in
                After-continue _ _ (After-store_group conv info members w5) λ _ w6 g6.
                  let here = g5.1 ∙ db_of g4.1 ∙ g3.1 ∙ db_of g2.1 ∙ g1.1 in
                  After-pure conv w6 λ fresh.
                    Started-Founded owner req id t members w.db w6.db laws real g1.0
                      (not-true _ g2.0) (subst (λ d. Founded conv info members d w6.db) here g6)
                      fresh

  -- Creating a group, when it succeeds for an owner other than 0 and under an id that no state
  -- has yet, and if JSON texts of ids read back what was written: the group is one in the tables
  -- afterwards, its conversation is stored under the given name without the spaces around it,
  -- which is not empty, and its members are the owner and the given users without the id 0, at
  -- least two.
  pub create_group_ok :
      (owner : UserId) (req : CreateGroupReq) (w : World) {conv : Conversation} {w' : World}
      → JsonLaws p
      → owner ≢ 0
      → create_group p owner req w ≡ (ok conv, w')
      → ((u : UserId) → any (is_state_of u conv.conv_id) w.db.conversation_states ≡ false)
      → Started owner req conv w'.db
  create_group_ok owner req w laws real h = After-ok (After-create_group owner req w laws real) h

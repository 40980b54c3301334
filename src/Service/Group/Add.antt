-- ===== src/Service/Group/Add.antt =====
-- group.go: what `AddGroupMembers` has done when it returns.
use blahaj_chat_server.Common.{
  ◌≡◌, refl, sym, ◌∙◌, ap, subst, true, false, ◌&&◌, ◌||◌, not, inl, inr, List, [], ◌∷◌, ◌==◌,
  ==_iff, Text, any, length, contains, arith, Bool-cases,
}
use blahaj_chat_server.Errors.{ok, no_permission}
use blahaj_chat_server.Model.{UserId, GroupInfo, Db}
use blahaj_chat_server.Platform.{Platform, World, JsonLaws}
use blahaj_chat_server.Platform.Sql.{ensure_all}
use blahaj_chat_server.Platform.Effects.{Quiet, Quiet-if, Quiet-pure}
use blahaj_chat_server.Platform.Inversion.{Quiet-db}
use blahaj_chat_server.Dao.Quiet.{dao_quiet, Quiet-invalidate}
use blahaj_chat_server.Platform.After.{
  After, After-ok, After-of, After-continue, After-pure, After-guard, After-Quiet, After-statement,
  After-transaction,
}
use blahaj_chat_server.Dao.State.{
  add_states, ensure_conversation_states, find_group_info, is_state_of,
}
use blahaj_chat_server.Dao.Group.{to_uint32}
use blahaj_chat_server.Service.Group
use blahaj_chat_server.Service.Group.{
  lift, GroupMemberResp, states_for_members, ensure_users_exist, write_merged, store_added,
  add_group_members,
}
use blahaj_chat_server.Service.Group.Members.{normalize_group_members, merge_members}
use blahaj_chat_server.Service.Group.Normal.{merge_members_lem, normalize_ok}
use blahaj_chat_server.Service.Group.Tables.{IsGroup, with_members, states-add_states}
use blahaj_chat_server.Service.Group.Steps.{
  db_of, stated, same_group, After-info, After-unmarshal, After-update_members,
}

nonzero :
    (ms : List UserId) (u : UserId)
    → contains ms 0 ≡ false
    → contains ms u ≡ not (u == 0) && contains ms u
nonzero ms u h = elim (Bool-cases (u == 0)) [
  | inl e ↦
      let zero_out = subst (λ x. contains ms x ≡ false) (sym ((==_iff u 0).0 e)) h in
      ground (arith, zero_out)
  | inr e ↦ ground arith
]

-- If nobody is new, the members are those with the candidates too.
nobody_new :
    (current candidates : List UserId) (u : UserId)
    → any (λ c. not (c == 0) && not (contains current c)) candidates ≡ false
    → not (u == 0) && contains candidates u ≡ true
    → contains current u ≡ true
nobody_new current [] u h k = absurd (ground arith)
nobody_new current (c ∷ candidates) u h k = elim (Bool-cases (c == u)) [
  | inl e ↦
      let first : not (c == 0) && not (contains current c) ≡ false = ground arith in
      let here =
        subst (λ x. not (x == 0) && not (contains current x) ≡ false) ((==_iff c u).0 e) first in
      ground arith
  | inr e ↦ nobody_new current candidates u (ground arith) (ground arith)
]

module _ (p : Platform) where
  -- What adding makes of a group: the members are the old ones and the given ones.
  pub record Grown (conv_id : Text) (info : GroupInfo) (members given : List UserId) (after : Db)
      : Type 0 where
    pub row : GroupInfo
    pub all : List UserId
    pub group : IsGroup p conv_id row all after
    pub same_owner : row.owner_id ≡ info.owner_id
    pub holds :
        (u : UserId) → contains all u ≡ contains members u || (not (u == 0) && contains given u)

  Grown-added :
      (conv_id : Text) (info : GroupInfo) (members candidates : List UserId) (before mid after : Db)
      → JsonLaws p
      → IsGroup p conv_id info members before
      → contains candidates 0 ≡ false
      → (let next = (merge_members members candidates).0 in
          find_group_info conv_id mid
          ≡ ok (with_members (p.encode_uids next) (to_uint32 (length next)) info))
      → mid.conversation_states ≡ before.conversation_states
      → after ≡ add_states (states_for_members conv_id candidates) mid
      → Grown conv_id info members candidates after
  unfolding add_states find_group_info
  Grown-added conv_id info members candidates before mid after laws g k row kept e =
      let next = (merge_members members candidates).0 in
      let (rises, merged, _) = merge_members_lem members candidates g.ascending in
      record {
        row = with_members (p.encode_uids next) (to_uint32 (length next)) info;
        all = next;
        group = record {
          found = ap (find_group_info conv_id) e ∙ row;
          decoded = laws.decode-encode_uids next;
          counted = refl;
          ascending = rises;
          no_zero = merged 0 ∙ refl;
          owned =
              merged info.owner_id
              ∙ ground (arith, g.owned, nonzero members info.owner_id g.no_zero);
          states = λ u.
              ap (λ (d : Db). any (is_state_of u conv_id) d.conversation_states) e
              ∙ states-add_states conv_id candidates u mid
              ∙ ap (λ rows. any (is_state_of u conv_id) rows || contains candidates u) kept
              ∙ ap (λ b. b || contains candidates u) (g.states u)
              ∙ ground (arith, merged u, nonzero members u g.no_zero, nonzero candidates u k);
        };
        same_owner = refl;
        holds = λ u. merged u ∙ ground (arith, nonzero members u g.no_zero);
      }

  Grown-same :
      (conv_id : Text) (info : GroupInfo) (members candidates : List UserId) (after : Db)
      → IsGroup p conv_id info members after
      → (merge_members members candidates).1 ≡ false
      → Grown conv_id info members candidates after
  Grown-same conv_id info members candidates after g e =
      let (_, _, added) = merge_members_lem members candidates g.ascending in
      record {
        row = info;
        all = members;
        group = g;
        same_owner = refl;
        holds = λ u. ground (arith, nobody_new members candidates u (sym added ∙ e));
      }

  After-candidates :
      (given : List UserId) (w : World)
      → After (lift (normalize_group_members 0 given false) w) (λ cs v.
        ((u : UserId) → contains cs u ≡ not (u == 0) && contains given u) × (v.db ≡ w.db))
  After-candidates given w = After-of _ λ cs v e.
      let (_, holds, _) = normalize_ok 0 given false {members = cs} (ap (λ x. x.0) e) in
      ((λ u. holds u ∙ ground arith), ap (λ x. x.1.db) (sym e))

  Quiet-list : (uid : UserId) (conv_id : Text) → Quiet (Group.list_group_members p uid conv_id)
  unfolding Group.list_group_members
  Quiet-list uid conv_id = search dao_quiet

  pub Quiet-ensure_users_exist : (uids : List UserId) → Quiet (ensure_users_exist p uids)
  unfolding ensure_users_exist
  Quiet-ensure_users_exist uids = search dao_quiet

  After-ensure_states :
      (conv_id : Text) (uids : List UserId) (w : World)
      → After
          (ensure_conversation_states p (states_for_members conv_id uids) w)
          (λ _ v. v.db ≡ add_states (states_for_members conv_id uids) w.db)
  unfolding ensure_conversation_states add_states ensure_all
  After-ensure_states conv_id [] w = After-pure tt w refl
  After-ensure_states conv_id (uid ∷ uids) w = After-of _ λ u v e. stated _ _ u (
      After-ok
        (After-statement p (λ db. ok (tt, add_states (states_for_members conv_id (uid ∷ uids)) db))
          w)
        e)

  After-write_merged :
      (conv_id : Text) (info : GroupInfo) (members candidates : List UserId) (w : World)
      → JsonLaws p
      → IsGroup p conv_id info members w.db
      → contains candidates 0 ≡ false
      → After
          (write_merged p conv_id candidates (merge_members members candidates) w)
          (λ _ v. Grown conv_id info members candidates v.db)
  unfolding write_merged
  After-write_merged conv_id info members candidates w laws g k =
      elim (Bool-cases (merge_members members candidates).1) [
        | inl e ↦
            rw (e, write_merged)
              (After-continue _ _
                (After-update_members p conv_id (merge_members members candidates).0 info w g.found)
                λ _ v h. After-continue _ _ (After-ensure_states conv_id candidates v) λ _ u i.
                  After-pure true u
                    (Grown-added conv_id info members candidates w.db v.db u.db laws g k h.0 h.1 i))
        | inr e ↦
            rw (e, write_merged)
              (After-pure false w (Grown-same conv_id info members candidates w.db g e))
      ]

  module _ (laws : JsonLaws p) (operator : UserId) (conv_id : Text) (info : GroupInfo)
      (members : List UserId) where
    After-store_added :
        (candidates : List UserId) (w : World)
        → IsGroup p conv_id info members w.db
        → contains candidates 0 ≡ false
        → After
            (store_added p operator conv_id candidates w)
            (λ _ v. Grown conv_id info members candidates v.db × (info.owner_id ≡ operator))
    unfolding store_added
    After-store_added candidates w g k =
        After-transaction p
          (λ _ db. Grown conv_id info members candidates db × (info.owner_id ≡ operator)) _ w
          λ v start. After-continue _ _ (After-info p conv_id v) λ row v1 g1.
            After-continue _ _ (After-guard (row.owner_id == operator) no_permission v1) λ _ v2 g2.
              After-continue _ _ (After-Quiet _ v2 (Quiet-ensure_users_exist candidates)) λ _ v3 g3.
                After-continue _ _ (After-unmarshal p row.members v3) λ current v4 g4.
                  After-of _ λ added v5 e.
                    let here = db_of g4.1 ∙ g3.1 ∙ db_of g2.1 ∙ g1.1 ∙ start in
                    let same = same_group p g start g1.0 g4.0 in
                    let g' = subst (λ x. IsGroup p conv_id x.0 x.1 w.db) (sym same) g in
                    let g'' = subst (IsGroup p conv_id row current) (sym here) g' in
                    let grown =
                      After-ok (After-write_merged conv_id row current candidates v4 laws g'' k)
                        e in
                    subst (λ x. Grown conv_id x.0 x.1 candidates v5.db × (x.0.owner_id ≡ operator))
                      same (grown, (==_iff row.owner_id operator).0 g2.0)

    Grown-given :
        (candidates given : List UserId) (after : Db)
        → ((u : UserId) → contains candidates u ≡ not (u == 0) && contains given u)
        → Grown conv_id info members candidates after
        → Grown conv_id info members given after
    Grown-given candidates given after e g = record {
      row = g.row;
      all = g.all;
      group = g.group;
      same_owner = g.same_owner;
      holds = λ u. ground (arith, g.holds u, e u);
    }

    After-add :
        (given : List UserId) (w : World)
        → IsGroup p conv_id info members w.db
        → After
            (add_group_members p operator conv_id given w)
            (λ _ v. Grown conv_id info members given v.db × (info.owner_id ≡ operator))
    unfolding add_group_members
    After-add given w g = After-continue _ _ (After-candidates given w) λ candidates w1 g1.
        After-continue _ _
          (After-store_added candidates w1 (subst (IsGroup p conv_id info members) (sym g1.1) g)
            (g1.0 0))
          λ added w2 g2.
            After-continue _ _
              (After-Quiet _ w2 (Quiet-if added _ _ (Quiet-invalidate p conv_id) (Quiet-pure tt)))
              λ _ w3 g3. After-of _ λ items w4 e.
                let same = Quiet-db _ w3 (Quiet-list operator conv_id) e ∙ g3.1 in
                (
                  subst (Grown conv_id info members given) (sym same)
                      (Grown-given candidates given w2.db g1.0 g2.0),
                  g2.1,
                )

    -- Adding members to what is a group in the tables, when it succeeds, is done by the owner; if
    -- JSON texts of ids read back what was written, it is a group afterwards too, with the same
    -- owner, and its members are the old ones and the given ones without the id 0.
    pub add_group_members_ok :
        (given : List UserId) (w : World) {items : List GroupMemberResp} {w' : World}
        → IsGroup p conv_id info members w.db
        → add_group_members p operator conv_id given w ≡ (ok items, w')
        → Grown conv_id info members given w'.db × (info.owner_id ≡ operator)
    add_group_members_ok given w g h = After-ok (After-add given w g) h

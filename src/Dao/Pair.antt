-- ===== src/Dao/Pair.antt =====
-- What `GetOrCreateC2CTx` has done when it returns a conversation.
use blahaj_chat_server.Common.{
  suc, subst, ◌≡◌, refl, sym, ◌∙◌, ap, Bool, true, false, ◌||◌, inl, inr, none, some, List, [], ◌∷◌,
  ◌++◌, ◌==◌, if◌then◌else◌, Text, text_eq, text_eq_refl, filter, filter-append, head?, any,
  any-append, map, arith, Bool-cases,
}
use blahaj_chat_server.Errors.{
  Error, Result, ok, err, is_record_not_found, record_not_found, found_c2c_pair,
}
use blahaj_chat_server.Model.{UserId, Conversation, ConversationState, Db}
use blahaj_chat_server.Platform.{Platform, World, pure, ◌>>◌, on_error, now, new_id, tick}
use blahaj_chat_server.Platform.Sql.{query, transaction, first, create_all, ensure_all}
use blahaj_chat_server.Platform.After.{
  After, After-ok, After-of, After-continue, After-branch, After-pure, After-raise, After-query,
  After-statement, After-transaction, statement-err, query-missing,
}
use blahaj_chat_server.Dao.Peer.{make_peer_key}
use blahaj_chat_server.Dao.State.{
  state_clash, new_state, is_state_of, insert_states, add_states, create_conversation_states,
  ensure_conversation_states,
}
use blahaj_chat_server.Dao.Conversation.{
  has_peer_key, insert_conversation, find_by_peer_key, pair_states, new_c2c, create_conversation,
  create_c2c, create_missing, get_or_create_c2c_tx,
}

-- At most the conversations and the states differ.
abbrev pub OnlyChats : Db → Db → Type 0
OnlyChats db db' =
    (cs : List Conversation) × (ss : List ConversationState) × (db'
      ≡ record db { conversations = cs; conversation_states = ss })

-- The conversation is stored under the key of the two, and each of them has a state in it.
pub record IsPair (a b : UserId) (conv : Conversation) (db : Db) : Type 0 where
  pub found : find_by_peer_key (make_peer_key a b) db ≡ ok conv
  pub first_state : any (is_state_of a conv.conv_id) db.conversation_states ≡ true
  pub second_state : any (is_state_of b conv.conv_id) db.conversation_states ≡ true

pub text_eq_comm : (s t : Text) → text_eq s t ≡ text_eq t s
unfolding text_eq
text_eq_comm [] [] = refl
text_eq_comm [] (y ∷ t) = refl
text_eq_comm (x ∷ s) [] = refl
text_eq_comm (x ∷ s) (y ∷ t) = ground (arith, text_eq_comm s t)

pub clash_is_state :
    (uid : UserId) (conv_id : Text) (rows : List ConversationState)
    → any (state_clash (new_state (uid, conv_id))) rows ≡ any (is_state_of uid conv_id) rows
unfolding state_clash
clash_is_state uid conv_id [] = refl
clash_is_state uid conv_id (s ∷ rows) =
    ground (arith, clash_is_state uid conv_id rows, text_eq_comm conv_id s.conv_id)

-- The rows with a state of `uid`, added unless one is there.
with_state : UserId → Text → List ConversationState → List ConversationState
with_state uid conv_id rows =
    if any (state_clash (new_state (uid, conv_id))) rows
    then rows
    else rows ++ new_state (uid, conv_id) ∷ []

with_state-has :
    (uid : UserId) (conv_id : Text) (rows : List ConversationState)
    → any (is_state_of uid conv_id) (with_state uid conv_id rows) ≡ true
unfolding with_state
with_state-has uid conv_id rows = ground (
  arith,
  clash_is_state uid conv_id rows,
  any-append (is_state_of uid conv_id) rows (new_state (uid, conv_id) ∷ []),
  text_eq_refl conv_id,
)

with_state-keeps :
    (uid other : UserId) (conv_id : Text) (rows : List ConversationState)
    → any (is_state_of other conv_id) rows ≡ true
    → any (is_state_of other conv_id) (with_state uid conv_id rows) ≡ true
unfolding with_state
with_state-keeps uid other conv_id rows h =
    ground (arith, any-append (is_state_of other conv_id) rows (new_state (uid, conv_id) ∷ []))

-- The statement that adds the two states, whichever way it is written.
add_states-IsPair :
    (a b : UserId) (conv : Conversation) (db : Db)
    → find_by_peer_key (make_peer_key a b) db ≡ ok conv
    → IsPair a b conv (add_states (pair_states a b conv.conv_id) db)
unfolding add_states ensure_all with_state find_by_peer_key
add_states-IsPair a b conv db h = record {
  found = h;
  first_state =
      with_state-keeps b a conv.conv_id (with_state a conv.conv_id db.conversation_states)
        (with_state-has a conv.conv_id db.conversation_states);
  second_state = with_state-has b conv.conv_id (with_state a conv.conv_id db.conversation_states);
}

create_all-ensure_all {ℓ} :
    {A : Type ℓ} (clash : A → A → Bool) (more rows : List A) {after : List A}
    → create_all clash more rows ≡ ok after
    → after ≡ ensure_all clash more rows
unfolding create_all ensure_all
create_all-ensure_all clash [] rows h = ground arith
create_all-ensure_all clash (row ∷ more) rows {after} h =
    step (any (clash row) rows) refl
      (create_all-ensure_all clash more (rows ++ row ∷ []) {after = after})
  where
    step :
        (b : Bool)
        → any (clash row) rows ≡ b
        → (create_all clash more (rows ++ row ∷ []) ≡ ok after
            → after ≡ ensure_all clash more (rows ++ row ∷ []))
        → after ≡ ensure_all clash (row ∷ more) rows
    step true e ih = absurd (ground arith)
    step false e ih = ih (ground arith) ∙ ground arith

pub insert_states-add_states :
    (states : List (UserId × Text)) (db db' : Db)
    → insert_states states db ≡ ok (tt, db')
    → db' ≡ add_states states db
unfolding insert_states add_states
insert_states-add_states states db db' h =
    go (create_all state_clash (map new_state states) db.conversation_states) refl
  where
    go :
        (r : Result (List ConversationState))
        → create_all state_clash (map new_state states) db.conversation_states ≡ r
        → db' ≡ add_states states db
    go (ok rows) e =
        ground
          (arith, create_all-ensure_all state_clash (map new_state states) db.conversation_states e)
    go (err x) e = absurd (ground arith)

pub head?-append_none {ℓ} :
    {A : Type ℓ} (xs ys : List A) → head? xs ≡ none → head? (xs ++ ys) ≡ head? ys
head?-append_none [] ys h = refl
head?-append_none (x ∷ xs) ys h = cc

pub inserted_row :
    (conv : Conversation) (db db' : Db)
    → insert_conversation conv db ≡ ok (tt, db')
    → db' ≡ record db { conversations = db.conversations ++ conv ∷ [] }
unfolding insert_conversation
inserted_row conv db db' h = ground arith

-- A conversation that is inserted under a key that nobody has is the one that the key Finds.
find-append :
    (conv : Conversation) (key : Text) (db : Db)
    → conv.peer_key ≡ some key
    → find_by_peer_key key db ≡ err record_not_found
    → find_by_peer_key key (record db { conversations = db.conversations ++ conv ∷ [] }) ≡ ok conv
unfolding find_by_peer_key
find-append conv key db k h =
    let earlier = filter (has_peer_key key) db.conversations in
    let absent : head? earlier ≡ none = ground arith in
    let last : filter (has_peer_key key) (conv ∷ []) ≡ conv ∷ [] =
      ground (arith, text_eq_refl key) in
    ap first (
      ap head? (filter-append (has_peer_key key) db.conversations (conv ∷ []))
      ∙ head?-append_none earlier _ absent
      ∙ ap head? last)

-- After the statement that adds the two states.
with_states :
    (a b : UserId) (conv : Conversation) (db db' : Db)
    → find_by_peer_key (make_peer_key a b) db ≡ ok conv
    → db' ≡ add_states (pair_states a b conv.conv_id) db
    → IsPair a b conv db' × OnlyChats db db'
unfolding add_states
with_states a b conv db db' h e = (
  subst (IsPair a b conv) (sym e) (add_states-IsPair a b conv db h),
  (db.conversations, (add_states (pair_states a b conv.conv_id) db).conversation_states, e),
)

-- The rows that the call began with, named another way.
After-start :
    (a b : UserId) {r : Result Conversation × World} {before start : Db}
    → before ≡ start
    → After r (λ c u. IsPair a b c u.db × OnlyChats before u.db)
    → After r (λ c u. IsPair a b c u.db × OnlyChats start u.db)
After-start a b {r} e h = subst (λ db. After r (λ c u. IsPair a b c u.db × OnlyChats db u.db)) e h

stated :
    (a b : Db) (u : Unit {0}) → ◌≡◌ {A = Result (Unit {0} × Db)} (ok (tt, a)) (ok (u, b)) → b ≡ a
stated a b u h = cc

module _ (p : Platform) where
  After-ensure :
      (a b : UserId) (conv : Conversation) (w : World)
      → find_by_peer_key (make_peer_key a b) w.db ≡ ok conv
      → After
          (ensure_conversation_states p (pair_states a b conv.conv_id) w)
          (λ _ v. IsPair a b conv v.db × OnlyChats w.db v.db)
  unfolding ensure_conversation_states
  After-ensure a b conv w h =
      After-of _ λ _ v e.
        with_states a b conv w.db v.db h (stated _ _ _ (After-ok (After-statement p _ w) e))

  After-create_c2c :
      (a b : UserId) (conv : Conversation) (w : World)
      → conv.peer_key ≡ some (make_peer_key a b)
      → find_by_peer_key (make_peer_key a b) w.db ≡ err record_not_found
      → After
          (create_c2c p a b (make_peer_key a b) conv w)
          (λ c v. IsPair a b c v.db × OnlyChats w.db v.db)
  unfolding create_c2c create_conversation create_conversation_states
  After-create_c2c a b conv w k h =
      After-branch (create_conversation p conv w) _ _
        (λ _ v e.
          let added =
            inserted_row conv w.db v.db
              (After-ok (After-statement p (insert_conversation conv) w) e) in
          let there =
            subst (λ db. find_by_peer_key (make_peer_key a b) db ≡ ok conv) (sym added)
              (find-append conv (make_peer_key a b) w.db k h) in
          After-continue _ _
            (After-of (create_conversation_states p (pair_states a b conv.conv_id) v) λ _ u g.
              insert_states-add_states (pair_states a b conv.conv_id) v.db u.db
                (After-ok (After-statement p (insert_states (pair_states a b conv.conv_id)) v) g))
            λ _ u g.
              let (pair, (cs, ss, same)) = with_states a b conv v.db u.db there g in
              After-pure conv u (
                pair,
                (
                  cs,
                  ss,
                  same
                      ∙ ap (λ (db : Db). record db { conversations = cs; conversation_states = ss })
                          added,
                ),
              ))
        (λ x v e.
          let same : v.db ≡ w.db = statement-err p (insert_conversation conv) w e in
          After-branch (query p (find_by_peer_key (make_peer_key a b)) v) _ _
            (λ existing u g.
              let (found, same_db) =
                After-ok (After-query p (find_by_peer_key (make_peer_key a b)) v) g in
              let here = ap (λ (x : World). x.db) same_db ∙ same in
              let there =
                subst (λ db. find_by_peer_key (make_peer_key a b) db ≡ ok existing)
                  (sym (ap (λ (x : World). x.db) same_db)) found in
              After-continue _ _ (After-ensure a b existing u there) λ _ z (pair, (cs, ss, i)).
                After-pure existing z (
                  pair,
                  (
                    cs,
                    ss,
                    i
                        ∙ ap
                            (λ (db : Db). record db {
                              conversations = cs;
                              conversation_states = ss;
                            })
                            here,
                  ),
                ))
            (λ y u g. After-raise x u))

  After-create :
      (in_tx : Bool) (a b : UserId) (conv : Conversation) (w : World)
      → conv.peer_key ≡ some (make_peer_key a b)
      → find_by_peer_key (make_peer_key a b) w.db ≡ err record_not_found
      → After
          (let create = create_c2c p a b (make_peer_key a b) conv in
            (if in_tx then create else transaction p create) w)
          (λ c v. IsPair a b c v.db × OnlyChats w.db v.db)
  After-create true a b conv w k h = After-create_c2c a b conv w k h
  After-create false a b conv w k h =
      After-transaction p (λ c db. IsPair a b c db × OnlyChats w.db db) _ w
        λ v e. After-start a b e (
          After-create_c2c a b conv v k (
            subst (λ db. find_by_peer_key (make_peer_key a b) db ≡ err record_not_found) (sym e) h))

  After-missing :
      (in_tx : Bool) (a b : UserId) (e : Error) (w v : World)
      → v.db ≡ w.db
      → (is_record_not_found e ≡ true
          → find_by_peer_key (make_peer_key a b) w.db ≡ err record_not_found)
      → After
          (create_missing p in_tx a b (make_peer_key a b) e v)
          (λ c u. IsPair a b c u.db × OnlyChats w.db u.db)
  unfolding create_missing new_id now
  After-missing in_tx a b e w v same absent = elim (Bool-cases (is_record_not_found e)) [
    | inl k ↦
        let key = make_peer_key a b in
        let missed =
          subst (λ db. find_by_peer_key key db ≡ err record_not_found) (sym same) (absent k) in
        rw k (
          After-start a b same (
            After-create in_tx a b (new_c2c (p.random_id v.calls) key (p.clock (suc v.calls)))
              (tick (tick v)) refl missed))
    | inr k ↦ rw k (After-raise e v)
  ]

  After-found :
      (in_tx : Bool) (a b : UserId) (w : World)
      → After
          (on_error
            (query p (find_by_peer_key (make_peer_key a b)))
            (λ conv. do ensure_conversation_states p (pair_states a b conv.conv_id); pure conv)
            (create_missing p in_tx a b (make_peer_key a b))
            w)
          (λ c v. IsPair a b c v.db × OnlyChats w.db v.db)
  After-found in_tx a b w =
      After-branch (query p (find_by_peer_key (make_peer_key a b)) w) _ _
        (λ conv v e.
          let (found, same) = After-ok (After-query p (find_by_peer_key (make_peer_key a b)) w) e in
          After-continue _ _
            (subst
              (λ x.
                After (ensure_conversation_states p (pair_states a b conv.conv_id) x)
                  (λ _ u. IsPair a b conv u.db × OnlyChats w.db u.db))
              (sym same) (After-ensure a b conv (tick w) found))
            λ _ u h. After-pure conv u h)
        (λ x v e.
          let (same, absent) = query-missing p (find_by_peer_key (make_peer_key a b)) w e in
          After-missing in_tx a b x w v (ap (λ (y : World). y.db) same) absent)

  -- The conversation that the call returns is the one stored for the two, and both have a state in it.
  pub After-get_or_create_c2c_tx :
      (in_tx : Bool) (a b : UserId) (w : World)
      → After (get_or_create_c2c_tx p in_tx a b w) (λ c v. IsPair a b c v.db × OnlyChats w.db v.db)
  unfolding get_or_create_c2c_tx
  After-get_or_create_c2c_tx in_tx a b w = elim (Bool-cases (a == 0 || b == 0 || a == b)) [
    | inl e ↦ rw (e, get_or_create_c2c_tx) (After-raise found_c2c_pair w)
    | inr e ↦ rw (e, get_or_create_c2c_tx) (After-found in_tx a b w)
  ]

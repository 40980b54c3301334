-- ===== src/Service/Friend/Steps.antt =====
-- addfriend.go: the statements of `AcceptApply` and `RejectApply`, one by one.
use blahaj_chat_server.Common.{
  ℕ, ◌≡◌, refl, sym, ◌∙◌, ap, Bool, true, inl, inr, Option, none, some, List, [], ◌∷◌, ◌==◌, ==_iff,
  ==_refl, Text, text_eq_refl, any, any_last, map_where, arith, Bool-cases,
}
use blahaj_chat_server.Errors.{
  Error, Result, ok, is_record_not_found, record_not_found, friend_apply_handled,
  friend_apply_not_found, no_permission,
}
use blahaj_chat_server.Model.{
  Instant, UserId, Friendship, FriendApply, Conversation, ConversationState, Db,
  friend_apply_status_accepted, friendship_status_normal,
}
use blahaj_chat_server.Platform.{Platform, World, pure, on_error}
use blahaj_chat_server.Platform.Sql.{query}
use blahaj_chat_server.Platform.After.{
  After, After-ok, After-of, After-continue, After-branch, After-pure, After-raise, After-guard,
  After-now, After-query, After-statement, After-transaction, query-missing,
}
use blahaj_chat_server.Dao.Peer.{normalize_friend_pair}
use blahaj_chat_server.Dao.Pair.{IsPair, After-get_or_create_c2c_tx}
use blahaj_chat_server.Dao.Friend.{
  is_open, is_pending, is_pair, is_normal_pair, find_apply, handle_apply, are_friends,
  upsert_friendship, get_friend_apply_by_id, update_friend_apply_status, create_friendship, no_row,
}
use blahaj_chat_server.Service.Friend.{as_handled, own_pending, store_accepted}

-- The application, with the status that its handling gives it at an instant.
abbrev pub handled : Text → Instant → FriendApply → FriendApply
handled status t f = record f { status = status; handled_at = some t }

-- `db` with the pending application of this id handled.
abbrev pub with_handled : ℕ → Text → Instant → Db → Db
with_handled id status t db = record db {
  friend_applies = map_where (is_open id) (handled status t) db.friend_applies;
}

normal_pair-map :
    (pair : UserId × UserId) (t : Instant) (rows : List Friendship)
    → any (is_pair pair) rows ≡ true
    → any (is_normal_pair pair) (
        map_where
          (is_pair pair)
          (λ f. record f { status = friendship_status_normal; updated_at = t })
          rows)
      ≡ true
normal_pair-map pair t [] h = cc
normal_pair-map pair t (f ∷ rows) h =
    ground (arith, normal_pair-map pair t rows, text_eq_refl friendship_status_normal)

normal_pair-upsert :
    (pair : UserId × UserId) (t : Instant) (db : Db)
    → any (is_normal_pair pair) (upsert_friendship pair t db).friendships ≡ true
unfolding upsert_friendship
normal_pair-upsert (a, b) t db = elim (Bool-cases (any (is_pair (a, b)) db.friendships)) [
  | inl e ↦ rw e (normal_pair-map (a, b) t db.friendships e)
  | inr e ↦ rw e (
      any_last (is_normal_pair (a, b)) db.friendships _
        (ground (arith, text_eq_refl friendship_status_normal, ==_refl a, ==_refl b)))
]

pub befriended-are_friends :
    (a b : UserId) (t : Instant) (db : Db)
    → are_friends a b (upsert_friendship (normalize_friend_pair a b) t db) ≡ true
unfolding are_friends
befriended-are_friends a b t db = normal_pair-upsert (normalize_friend_pair a b) t db

handle_apply-ok :
    (id : ℕ) (status : Text) (t : Instant) (db : Db) (found : Bool) (db' : Db)
    → handle_apply id status t db ≡ ok (found, db')
    → (db' ≡ with_handled id status t db) × (found ≡ any (is_open id) db.friend_applies)
unfolding handle_apply
handle_apply-ok id status t db found db' h = ground arith

stated :
    (a b : Db) (u : Unit {0}) → ◌≡◌ {A = Result (Unit {0} × Db)} (ok (tt, a)) (ok (u, b)) → b ≡ a
stated a b u h = cc

some_inj {ℓ} : {A : Type ℓ} {a b : A} → some a ≡ some b → a ≡ b
some_inj h = cc

pub db_of : {v w : World} → v ≡ w → v.db ≡ w.db
db_of e = ap (λ (x : World). x.db) e

no_row-db {ℓ} :
    {A : Type ℓ} (e : Error) (v : World) {o : Option A} {u : World}
    → no_row {A = A} e v ≡ (ok o, u)
    → (o ≡ none) × (u ≡ v)
no_row-db e v h = ground arith

module _ (p : Platform) where
  pub After-as_handled {ℓ κ} :
      {A : Type ℓ} {Q : A → World → Type κ} (e : Error) (w : World)
      → After (as_handled {A = A} e w) Q
  After-as_handled e w = elim (Bool-cases (is_record_not_found e)) [
    | inl k ↦ rw k (After-raise friend_apply_handled w)
    | inr k ↦ rw k (After-raise e w)
  ]

  pub After-update_status :
      (id : ℕ) (status : Text) (w : World)
      → After (update_friend_apply_status p id status w) (λ _ v.
        (t : Instant) × (v.db ≡ with_handled id status t w.db)
        × (any (is_open id) w.db.friend_applies ≡ true))
  unfolding update_friend_apply_status
  After-update_status id status w = After-continue _ _ (After-now p w) λ t v g.
      After-continue _ _ (After-statement p (handle_apply id status t) v) λ found u h.
        After-of _ λ _ z e.
          let (picked, same) = After-ok (After-guard found record_not_found u) e in
          let (updated, any_open) = handle_apply-ok id status t v.db found u.db h in
          (
            t,
            db_of same ∙ updated ∙ ap (with_handled id status t) (db_of g.1),
            ap (λ (d : Db). any (is_open id) d.friend_applies) (sym (db_of g.1))
                ∙ sym any_open
                ∙ picked,
          )

  pub After-handle :
      (id : ℕ) (status : Text) (w : World)
      → After (on_error (update_friend_apply_status p id status) pure as_handled w) (λ _ v.
        (t : Instant) × (v.db ≡ with_handled id status t w.db)
        × (any (is_open id) w.db.friend_applies ≡ true))
  After-handle id status w =
      After-branch (update_friend_apply_status p id status w) _ _
        (λ u v e. After-pure u v (After-ok (After-update_status id status w) e))
        (λ e v _. After-as_handled e v)

  pub After-befriend :
      (a b : UserId) (w : World)
      → After
          (create_friendship p a b w)
          (λ _ v. (t : Instant) × (v.db ≡ upsert_friendship (normalize_friend_pair a b) t w.db))
  unfolding create_friendship
  After-befriend a b w = After-continue _ _ (After-now p w) λ t v g. After-of _ λ _ u e.
      let h =
        After-ok
          (After-statement p (λ db. ok (tt, upsert_friendship (normalize_friend_pair a b) t db)) v)
          e in
      (t, stated _ _ _ h ∙ ap (upsert_friendship (normalize_friend_pair a b) t) (db_of g.1))

  -- What the transaction of an acceptance makes of the rows.
  abbrev pub StoredAccepted : FriendApply → Db → Conversation → Db → Type 0
  StoredAccepted f before conv after =
      (t s : Instant) × (cs : List Conversation) × (ss : List ConversationState) × (after
        ≡ record (upsert_friendship (normalize_friend_pair f.from_uid f.to_uid) s
            (with_handled f.id friend_apply_status_accepted t before)) {
              conversations = cs;
              conversation_states = ss;
            })
      × IsPair f.from_uid f.to_uid conv after
      × (any (is_open f.id) before.friend_applies ≡ true)

  pub After-store_accepted :
      (f : FriendApply) (w : World)
      → After (store_accepted p f w) (λ conv v. StoredAccepted f w.db conv v.db)
  unfolding store_accepted
  After-store_accepted f w = After-transaction p (StoredAccepted f w.db) _ w λ v start.
      After-continue _ _ (After-handle f.id friend_apply_status_accepted v) λ _ v1 g1.
        After-continue _ _ (After-befriend f.from_uid f.to_uid v1) λ _ v2 g2.
          After-of _ λ conv v3 e.
            let (pair, (cs, ss, same)) =
              After-ok (After-get_or_create_c2c_tx p true f.from_uid f.to_uid v2) e in
            let (t, one, any_open) = g1 in
            let (s, two) = g2 in
            let begun =
              two
              ∙ ap (upsert_friendship (normalize_friend_pair f.from_uid f.to_uid) s)
                  (one ∙ ap (with_handled f.id friend_apply_status_accepted t) start) in
            (
              t,
              s,
              cs,
              ss,
              same
                  ∙ ap (λ (d : Db). record d { conversations = cs; conversation_states = ss })
                      begun,
              pair,
              ap (λ (d : Db). any (is_open f.id) d.friend_applies) (sym start) ∙ any_open,
            )

  pub After-find_apply :
      (id : ℕ) (w : World)
      → After
          (get_friend_apply_by_id p id w)
          (λ o v. ((f : FriendApply) → o ≡ some f → find_apply id w.db ≡ ok f) × (v.db ≡ w.db))
  unfolding get_friend_apply_by_id
  After-find_apply id w =
      After-branch (query p (find_apply id) w) _ _
        (λ f v e.
          let (found, same) = After-ok (After-query p (find_apply id) w) e in
          After-pure (some f) v ((λ g k. found ∙ ap ok (some_inj k)), db_of same))
        (λ e v k. After-of _ λ o u h.
          let (absent, same) = no_row-db e v h in
          let before = (query-missing p (find_apply id) w k).0 in
          ((λ g l. cc), db_of (same ∙ before)))

  pub After-own_pending :
      (uid : UserId) (o : Option FriendApply) (w : World)
      → After
          (own_pending p uid o w)
          (λ f v. (o ≡ some f) × (is_pending f ≡ true) × (f.to_uid ≡ uid) × (v ≡ w))
  unfolding own_pending
  After-own_pending uid none w = After-raise friend_apply_not_found w
  After-own_pending uid (some f) w =
      After-continue _ _ (After-guard (is_pending f) friend_apply_handled w) λ _ v g.
        After-continue _ _ (After-guard (f.to_uid == uid) no_permission v)
          λ _ u h. After-pure f u (refl, g.0, (==_iff f.to_uid uid).0 h.0, h.1 ∙ g.1)

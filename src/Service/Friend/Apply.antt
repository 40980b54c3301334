-- ===== src/Service/Friend/Apply.antt =====
-- addfriend.go: what `ApplyFriend` has done when it returns.
use blahaj_chat_server.Common.{
  not-true, suc, ◌≡◌, sym, subst, ◌∙◌, ap, true, false, not, Option, none, some, [], ◌∷◌, ◌++◌, any,
  sort_by-none, arith,
}
use blahaj_chat_server.Errors.{
  Error, Result, ok, err, cannot_friend_self, apply_user_not_found, friend_blocked, already_friend,
  record_not_found,
}
use blahaj_chat_server.Model.{Instant, UserId, User, FriendApply, Db}
use blahaj_chat_server.Platform.{Platform, World, pure, ◌>>=◌, now}
use blahaj_chat_server.Platform.Sql.{query, statement}
use blahaj_chat_server.Platform.Redis.{is_some}
use blahaj_chat_server.Platform.Effects.{Atomic, Atomic-Quiet, atomic_rules}
use blahaj_chat_server.Platform.Inversion.{Quiet-db}
use blahaj_chat_server.Platform.After.{
  After, After-ok, After-of, After-continue, After-pure, After-guard, After-now, After-statement,
}
use blahaj_chat_server.Dao.Quiet.{dao_quiet, Quiet-get_user_by_id_with_ctx}
use blahaj_chat_server.Dao.User.{get_user_by_id_with_ctx}
use blahaj_chat_server.Dao.Friend.{
  blocks_either_way, pending_between, find_pending, later_apply, insert_apply, are_friends,
  is_blocked_look, is_friend, get_pending_friend_apply_between, create_friend_apply,
}
use blahaj_chat_server.Service.Friend.{
  ApplyFriendReq, FriendApplyResp, friend_apply_to_resp, new_apply, is_self, apply_friend,
}

-- `db` with the application `row` in it under the next id.
abbrev pub with_apply : FriendApply → Db → Db
with_apply row db = record db {
  friend_applies = db.friend_applies ++ record row { id = db.next_friend_apply } ∷ [];
  next_friend_apply = suc db.next_friend_apply;
}

found_some {ℓ} :
    {A : Type ℓ} {r : Result (Option A)} (o : Option A)
    → r ≡ ok o
    → is_some o ≡ true
    → (a : A) × (r ≡ ok (some a))
found_some none h k = cc
found_some (some a) h k = (a, h)

module _ (p : Platform) where
  After-user :
      (id : UserId) (w : World)
      → After
          (get_user_by_id_with_ctx p id w)
          (λ o v. (v.db ≡ w.db) × ((get_user_by_id_with_ctx p id w).0 ≡ ok o))
  After-user id w =
      After-of _ λ o v e. (Quiet-db _ w (Quiet-get_user_by_id_with_ctx p id) e, ap (λ x. x.0) e)

  After-blocked :
      (a b : UserId) (w : World)
      → After (is_blocked_look p a b w) (λ r v. (r ≡ blocks_either_way a b w.db) × (v.db ≡ w.db))
  unfolding is_blocked_look query
  After-blocked a b w = record { at = ground arith }

  After-friends :
      (a b : UserId) (w : World)
      → After (is_friend p a b w) (λ r v. (r ≡ are_friends a b w.db) × (v.db ≡ w.db))
  unfolding is_friend query
  After-friends a b w = record { at = ground arith }

  pending_none :
      (a b : UserId) (w : World)
      → find_pending a b w.db ≡ err record_not_found
      → any (pending_between a b) w.db.friend_applies ≡ false
  unfolding find_pending
  pending_none a b w h =
      sort_by-none later_apply (pending_between a b) w.db.friend_applies (ground arith)

  After-pending :
      (a b : UserId) (w : World)
      → After (get_pending_friend_apply_between p a b w) (λ r v.
        (not (is_some r) ≡ true → find_pending a b w.db ≡ err record_not_found) × (v.db ≡ w.db))
  unfolding get_pending_friend_apply_between query find_pending
  After-pending a b w = record { at = ground arith }

  inserted :
      (f : FriendApply) (db : Db) (row : FriendApply) (db' : Db)
      → insert_apply f db ≡ ok (row, db')
      → (db' ≡ with_apply f db) × (row ≡ record f { id = db.next_friend_apply })
  unfolding insert_apply
  inserted f db row db' h = ground arith

  After-create_friend_apply :
      (f : FriendApply) (w : World)
      → After (create_friend_apply p f w) (λ row v.
        (t : Instant) × (v.db ≡ with_apply (record f { created_at = t }) w.db)
        × (row ≡ record f { id = w.db.next_friend_apply; created_at = t }))
  unfolding create_friend_apply
  After-create_friend_apply f w = After-continue (now p w) _ (After-now p w) λ t v g.
      After-of _ λ row u e.
        let h = After-ok (After-statement p (insert_apply (record f { created_at = t })) v) e in
        let k = inserted (record f { created_at = t }) v.db row u.db h in
        let same = ap (λ (x : World). x.db) g.1 in
        (
          t,
          k.0 ∙ ap (with_apply (record f { created_at = t })) same,
          k.1 ∙ ap (λ (d : Db). record f { id = d.next_friend_apply; created_at = t }) same,
        )

  -- What a successful application says of the rows before it and after it.
  abbrev pub Applied : UserId → ApplyFriendReq → World → FriendApplyResp → World → Type 0
  Applied uid req w r w' =
      (t : Instant) × (w'.db ≡ with_apply (record (new_apply uid req) { created_at = t }) w.db)
      × (r
          ≡ friend_apply_to_resp
              (record (new_apply uid req) { id = w.db.next_friend_apply; created_at = t }))
      × (is_self uid req.to_uid ≡ false)
      × (blocks_either_way uid req.to_uid w.db ≡ false)
      × (are_friends uid req.to_uid w.db ≡ false)
      × (any (pending_between uid req.to_uid) w.db.friend_applies ≡ false)
      × ((u : User) × ((get_user_by_id_with_ctx p req.to_uid w).0 ≡ ok (some u)))

  apply_friend-After :
      (uid : UserId) (req : ApplyFriendReq) (w : World)
      → After (apply_friend p uid req w) (Applied uid req w)
  unfolding apply_friend
  apply_friend-After uid req w =
      After-continue _ _ (After-guard (not (is_self uid req.to_uid)) cannot_friend_self w)
        λ _ w1 g1. After-continue _ _ (After-user req.to_uid w1) λ user w2 g2.
          After-continue _ _ (After-guard (is_some user) apply_user_not_found w2) λ _ w3 g3.
            After-continue _ _ (After-blocked uid req.to_uid w3) λ blocked w4 g4.
              After-continue _ _ (After-guard (not blocked) friend_blocked w4) λ _ w5 g5.
                After-continue _ _ (After-friends uid req.to_uid w5) λ friends w6 g6.
                  After-continue _ _ (After-guard (not friends) already_friend w6) λ _ w7 g7.
                    After-continue _ _ (After-pending uid req.to_uid w7) λ pending w8 g8.
                      After-continue _ _
                        (After-guard (not (is_some pending)) Error.friend_apply_pending w8)
                        λ _ w9 g9.
                          After-continue _ _ (After-create_friend_apply (new_apply uid req) w9)
                            λ row w10 g10.
                              let s1 = ap (λ (x : World). x.db) g1.1 in
                              let s3 = ap (λ (x : World). x.db) g3.1 ∙ g2.0 ∙ s1 in
                              let s5 = ap (λ (x : World). x.db) g5.1 ∙ g4.1 ∙ s3 in
                              let s7 = ap (λ (x : World). x.db) g7.1 ∙ g6.1 ∙ s5 in
                              let s9 = ap (λ (x : World). x.db) g9.1 ∙ g8.1 ∙ s7 in
                              let (t, added, made) = g10 in
                              let row_at = λ (d : Db). record (new_apply uid req) {
                                id = d.next_friend_apply;
                                created_at = t;
                              } in
                              After-pure _ w10 (
                                t,
                                added
                                    ∙ ap
                                        (with_apply (record (new_apply uid req) { created_at = t }))
                                        s9,
                                ap friend_apply_to_resp (made ∙ ap row_at s9),
                                not-true _ g1.0,
                                ap (blocks_either_way uid req.to_uid) (sym s3)
                                    ∙ sym g4.0
                                    ∙ not-true blocked g5.0,
                                ap (are_friends uid req.to_uid) (sym s5)
                                    ∙ sym g6.0
                                    ∙ not-true friends g7.0,
                                ap
                                      (λ (d : Db).
                                        any (pending_between uid req.to_uid) d.friend_applies)
                                      (sym s7)
                                    ∙ pending_none uid req.to_uid w7 (g8.0 g9.0),
                                found_some user
                                    (subst
                                      (λ x. (get_user_by_id_with_ctx p req.to_uid x).0 ≡ ok user)
                                      g1.1 g2.1)
                                    g3.0,
                              )

  -- An application that succeeds is between two users of whom neither blocks the other, who are not
  -- friends and have no pending application either way; the other user was found; it adds the
  -- application, pending and under the next id, and changes nothing else.
  pub apply_friend_ok :
      (uid : UserId) (req : ApplyFriendReq) (w : World) {r : FriendApplyResp} {w' : World}
      → apply_friend p uid req w ≡ (ok r, w')
      → (t : Instant) × (w'.db ≡ with_apply (record (new_apply uid req) { created_at = t }) w.db)
        × (r
            ≡ friend_apply_to_resp
                (record (new_apply uid req) { id = w.db.next_friend_apply; created_at = t }))
        × (is_self uid req.to_uid ≡ false)
        × (blocks_either_way uid req.to_uid w.db ≡ false)
        × (are_friends uid req.to_uid w.db ≡ false)
        × (any (pending_between uid req.to_uid) w.db.friend_applies ≡ false)
        × ((u : User) × ((get_user_by_id_with_ctx p req.to_uid w).0 ≡ ok (some u)))
  unfolding apply_friend is_blocked_look is_friend query create_friend_apply now statement
      insert_apply
  apply_friend_ok uid req w h = After-ok (apply_friend-After uid req w) h

  Atomic-created :
      (f : FriendApply)
      → Atomic (create_friend_apply p f >>= λ row. pure (friend_apply_to_resp row))
  unfolding create_friend_apply now statement insert_apply
  Atomic-created f = record { at = λ w. ground arith }

  -- An application that returns an error has changed no row.
  pub apply_friend-Atomic : (uid : UserId) (req : ApplyFriendReq) → Atomic (apply_friend p uid req)
  unfolding apply_friend
  apply_friend-Atomic uid req =
      search (dao_quiet, atomic_rules, Atomic-Quiet, Atomic-created) depth 30

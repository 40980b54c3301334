-- ===== src/Service/Friend/Handle.antt =====
-- addfriend.go: what `AcceptApply` and `RejectApply` have done when they return.
use blahaj_chat_server.Common.{
  not-true, ℕ, subst, ◌≡◌, sym, ◌∙◌, ap, true, false, not, Option, none, some, Text, map_where,
  map_where_none, arith,
}
use blahaj_chat_server.Errors.{ok, friend_apply_not_found, friend_blocked}
use blahaj_chat_server.Model.{
  Instant, UserId, FriendApply, Conversation, Db, friend_apply_status_accepted,
  friend_apply_status_rejected,
}
use blahaj_chat_server.Platform.{Platform, World, pure, on_error, now}
use blahaj_chat_server.Platform.Sql.{query, statement}
use blahaj_chat_server.Platform.Effects.{
  Quiet, Atomic, Atomic-bind, Atomic-transaction, quiet_rules, Quiet-guard, Quiet-raise,
}
use blahaj_chat_server.Platform.After.{After, After-ok, After-of, After-continue, After-guard}
use blahaj_chat_server.Dao.Quiet.{Quiet-get_friend_apply_by_id, Quiet-is_blocked_look}
use blahaj_chat_server.Dao.Peer.{normalize_friend_pair}
use blahaj_chat_server.Dao.Pair.{IsPair}
use blahaj_chat_server.Dao.Friend.{
  is_open, is_pending, blocks_either_way, find_apply, handle_apply, are_friends, upsert_friendship,
  is_blocked_look, update_friend_apply_status,
}
use blahaj_chat_server.Service.Friend.{
  as_handled, own_pending, store_accepted, accept_apply, reject_apply,
}
use blahaj_chat_server.Service.Friend.Steps.{
  handled, with_handled, befriended-are_friends, db_of, StoredAccepted, After-handle,
  After-store_accepted, After-find_apply, After-own_pending,
}

-- What an acceptance has found, and what it leaves.
pub record Accepted (uid : UserId) (id : ℕ) (before : Db) (conv : Conversation) (after : Db)
    : Type 0 where
  pub apply : FriendApply
  pub at : Instant
  pub since : Instant
  pub found : find_apply id before ≡ ok apply
  pub pending : is_pending apply ≡ true
  pub addressed : apply.to_uid ≡ uid
  pub unblocked : blocks_either_way apply.from_uid apply.to_uid before ≡ false
  pub handled_once :
      after.friend_applies
      ≡ map_where (is_open apply.id) (handled friend_apply_status_accepted at) before.friend_applies
  pub befriended :
      after.friendships
      ≡ (upsert_friendship
          (normalize_friend_pair apply.from_uid apply.to_uid)
          since
          before).friendships
  pub friends : are_friends apply.from_uid apply.to_uid after ≡ true
  pub chat : IsPair apply.from_uid apply.to_uid conv after
  pub same_messages : after.messages ≡ before.messages
  pub same_groups : after.group_infos ≡ before.group_infos
  pub same_users : after.users ≡ before.users
  pub same_blocks : after.blocks ≡ before.blocks

module _ (p : Platform) where
  After-unblocked :
      (a b : UserId) (w : World)
      → After (is_blocked_look p a b w) (λ r v. (r ≡ blocks_either_way a b w.db) × (v.db ≡ w.db))
  unfolding is_blocked_look query
  After-unblocked a b w = record { at = ground arith }

  Accepted-stored :
      (uid : UserId) (id : ℕ) (f : FriendApply) (before : Db) (conv : Conversation) (after : Db)
      → find_apply id before ≡ ok f
      → is_pending f ≡ true
      → f.to_uid ≡ uid
      → blocks_either_way f.from_uid f.to_uid before ≡ false
      → StoredAccepted p f before conv after
      → Accepted uid id before conv after
  unfolding upsert_friendship are_friends
  Accepted-stored uid id f before conv after h k j i (t, s, cs, ss, e, pair, open_before) = record {
    apply = f;
    at = t;
    since = s;
    found = h;
    pending = k;
    addressed = j;
    unblocked = i;
    handled_once = ap (λ (d : Db). d.friend_applies) e;
    befriended = ap (λ (d : Db). d.friendships) e;
    friends =
        ap (λ (d : Db). are_friends f.from_uid f.to_uid d) e
        ∙ befriended-are_friends f.from_uid f.to_uid s before;
    chat = pair;
    same_messages = ap (λ (d : Db). d.messages) e;
    same_groups = ap (λ (d : Db). d.group_infos) e;
    same_users = ap (λ (d : Db). d.users) e;
    same_blocks = ap (λ (d : Db). d.blocks) e;
  }

  After-accept_apply :
      (uid : UserId) (id : ℕ) (w : World)
      → After (accept_apply p uid id w) (λ conv v. Accepted uid id w.db conv v.db)
  unfolding accept_apply
  After-accept_apply uid id w = After-continue _ _ (After-find_apply p id w) λ o w1 g1.
      After-continue _ _ (After-own_pending p uid o w1) λ f w2 g2.
        After-continue _ _ (After-unblocked f.from_uid f.to_uid w2) λ blocked w3 g3.
          After-continue _ _ (After-guard (not blocked) friend_blocked w3) λ _ w4 g4.
            After-of _ λ conv w5 e.
              let s2 = db_of g2.3 ∙ g1.1 in
              let s4 = db_of g4.1 ∙ g3.1 ∙ s2 in
              Accepted-stored uid id f w.db conv w5.db (g1.0 f g2.0) g2.1 g2.2
                (ap (blocks_either_way f.from_uid f.to_uid) (sym s2)
                  ∙ sym g3.0
                  ∙ not-true blocked g4.0)
                (subst (λ d. StoredAccepted p f d conv w5.db) s4
                  (After-ok (After-store_accepted p f w4) e))

  -- An acceptance that succeeds was of a pending application to the user, from somebody who neither
  -- blocks the user nor is blocked; the application is accepted afterwards, the two are friends, the
  -- returned conversation is the one stored for the two, and each of them has a state in it. Messages,
  -- groups, users and blocks are as before.
  pub accept_apply_ok :
      (uid : UserId) (id : ℕ) (w : World) {conv : Conversation} {w' : World}
      → accept_apply p uid id w ≡ (ok conv, w')
      → Accepted uid id w.db conv w'.db
  accept_apply_ok uid id w h = After-ok (After-accept_apply uid id w) h

  After-reject_apply :
      (uid : UserId) (id : ℕ) (w : World)
      → After (reject_apply p uid id w) (λ _ v.
        (f : FriendApply) × (t : Instant) × (find_apply id w.db ≡ ok f)
        × (is_pending f ≡ true)
        × (f.to_uid ≡ uid)
        × (v.db ≡ with_handled f.id friend_apply_status_rejected t w.db))
  unfolding reject_apply
  After-reject_apply uid id w = After-continue _ _ (After-find_apply p id w) λ o w1 g1.
      After-continue _ _ (After-own_pending p uid o w1) λ f w2 g2. After-of _ λ _ w3 e.
        let (t, same, _) = After-ok (After-handle p f.id friend_apply_status_rejected w2) e in
        (
          f,
          t,
          g1.0 f g2.0,
          g2.1,
          g2.2,
          same ∙ ap (with_handled f.id friend_apply_status_rejected t) (db_of g2.3 ∙ g1.1),
        )

  -- A rejection that succeeds was of a pending application to the user, and marks it as rejected; no
  -- other row changes.
  pub reject_apply_ok :
      (uid : UserId) (id : ℕ) (w : World) {u : Unit {0}} {w' : World}
      → reject_apply p uid id w ≡ (ok u, w')
      → (f : FriendApply) × (t : Instant) × (find_apply id w.db ≡ ok f)
        × (is_pending f ≡ true)
        × (f.to_uid ≡ uid)
        × (w'.db ≡ with_handled f.id friend_apply_status_rejected t w.db)
  reject_apply_ok uid id w h = After-ok (After-reject_apply uid id w) h

  Quiet-own_pending : (uid : UserId) (o : Option FriendApply) → Quiet (own_pending p uid o)
  unfolding own_pending
  Quiet-own_pending uid none = Quiet-raise friend_apply_not_found
  Quiet-own_pending uid (some f) = search quiet_rules

  pub Atomic-store_accepted : (f : FriendApply) → Atomic (store_accepted p f)
  unfolding store_accepted
  Atomic-store_accepted f = Atomic-transaction p _

  pub Atomic-handle :
      (id : ℕ) (status : Text)
      → Atomic (on_error (update_friend_apply_status p id status) pure as_handled)
  unfolding update_friend_apply_status now statement handle_apply
  Atomic-handle id status = record {
    at = λ w.
        ground (
          arith,
          map_where_none (is_open id) (handled status (p.clock w.calls)) w.db.friend_applies,
        );
  }

  -- An acceptance that returns an error, at whichever statement, has changed no row.
  pub accept_apply-Atomic : (uid : UserId) (id : ℕ) → Atomic (accept_apply p uid id)
  unfolding accept_apply
  accept_apply-Atomic uid id = Atomic-bind _ _ (Quiet-get_friend_apply_by_id p id) λ o.
      Atomic-bind _ _ (Quiet-own_pending uid o) λ f.
        Atomic-bind _ _ (Quiet-is_blocked_look p f.from_uid f.to_uid) λ blocked.
          Atomic-bind _ _ (Quiet-guard (not blocked) friend_blocked) λ _. Atomic-store_accepted f

  -- A rejection that returns an error has changed no row.
  pub reject_apply-Atomic : (uid : UserId) (id : ℕ) → Atomic (reject_apply p uid id)
  unfolding reject_apply
  reject_apply-Atomic uid id = Atomic-bind _ _ (Quiet-get_friend_apply_by_id p id) λ o.
      Atomic-bind _ _ (Quiet-own_pending uid o) λ f. Atomic-handle f.id friend_apply_status_rejected

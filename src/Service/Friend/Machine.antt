-- ===== src/Service/Friend/Machine.antt =====
-- addfriend.go: applications over any sequence of calls. An application is pending, then accepted or
-- rejected for good.
use blahaj_chat_server.Common.{
  ℕ, subst, ◌≡◌, refl, sym, ◌∙◌, ap, false, ◌&&◌, inl, inr, some, List, [], ◌∷◌, ◌++◌, Text,
  text_eq, filter, filter-append, head?, any, any-append, map_where, arith, Bool-cases,
}
use blahaj_chat_server.Errors.{Result, ok, err}
use blahaj_chat_server.Model.{
  Instant, UserId, FriendApply, Db, friend_apply_status_pending, friend_apply_status_accepted,
  friend_apply_status_rejected,
}
use blahaj_chat_server.Platform.{Platform, World}
use blahaj_chat_server.Platform.Sql.{first}
use blahaj_chat_server.Platform.Effects.{Kept}
use blahaj_chat_server.Dao.Friend.{
  is_open, is_pending, has_id, either_way, pending_between, find_apply,
}
use blahaj_chat_server.Service.Friend.{
  ApplyFriendReq, new_apply, apply_friend, accept_apply, reject_apply,
}
use blahaj_chat_server.Service.Friend.Apply.{apply_friend_ok, apply_friend-Atomic}
use blahaj_chat_server.Service.Friend.Steps.{handled}
use blahaj_chat_server.Service.Friend.Handle.{
  accept_apply_ok, reject_apply_ok, accept_apply-Atomic, reject_apply-Atomic,
}

-- Calls of the service one after the other, with whatever else the server does between them to the
-- other tables.
pub data Run (p : Platform) : World → World → Type 0 where
  stop : {w : World} → Run p w w
  applied :
      (uid : UserId) (req : ApplyFriendReq) {w w' : World}
      → Run p (apply_friend p uid req w).1 w'
      → Run p w w'
  accepted :
      (uid : UserId) (id : ℕ) {w w' : World} → Run p (accept_apply p uid id w).1 w' → Run p w w'
  rejected :
      (uid : UserId) (id : ℕ) {w w' : World} → Run p (reject_apply p uid id w).1 w' → Run p w w'
  elsewhere : {w v w' : World} → v.db.friend_applies ≡ w.db.friend_applies → Run p v w' → Run p w w'

-- Of each pending application, no later one is pending between the same two, either way.
abbrev pub OnePending : List FriendApply → Type 0
OnePending [] = Unit {0}
OnePending (f ∷ rows) =
    (is_pending f && any (pending_between f.from_uid f.to_uid) rows ≡ false) × OnePending rows

either_way_comm : (a b x y : UserId) → either_way a b x y ≡ either_way x y a b
either_way_comm a b x y = ground arith

OnePending-append :
    (rows : List FriendApply) (f : FriendApply)
    → OnePending rows
    → any (pending_between f.from_uid f.to_uid) rows ≡ false
    → OnePending (rows ++ f ∷ [])
OnePending-append [] f h k = (ground arith, tt)
OnePending-append (g ∷ rows) f h k = (
  ground (
    arith,
    h.0,
    any-append (pending_between g.from_uid g.to_uid) rows (f ∷ []),
    either_way_comm f.from_uid f.to_uid g.from_uid g.to_uid,
  ),
  OnePending-append rows f h.1 (ground arith),
)

module _ (id : ℕ) (status : Text) (t : Instant)
    (h : text_eq status friend_apply_status_pending ≡ false) where
  none_pending-handled :
      (a b : UserId) (rows : List FriendApply)
      → any (pending_between a b) rows ≡ false
      → any (pending_between a b) (map_where (is_open id) (handled status t) rows) ≡ false
  none_pending-handled a b [] k = refl
  none_pending-handled a b (f ∷ rows) k = ground (arith, h, none_pending-handled a b rows)

  OnePending-handled :
      (rows : List FriendApply)
      → OnePending rows
      → OnePending (map_where (is_open id) (handled status t) rows)
  OnePending-handled [] k = tt
  OnePending-handled (f ∷ rows) k = (
    ground (arith, h, k.0, none_pending-handled f.from_uid f.to_uid rows),
    OnePending-handled rows k.1,
  )

-- A row that is not pending is the one that its id still Finds.
find-handled :
    (id other : ℕ) (status : Text) (t : Instant) (rows : List FriendApply) (f : FriendApply)
    → head? (filter (has_id id) rows) ≡ some f
    → is_pending f ≡ false
    → head? (filter (has_id id) (map_where (is_open other) (handled status t) rows)) ≡ some f
find-handled id other status t [] f h k = h
find-handled id other status t (g ∷ rows) f h k = elim (Bool-cases (has_id id g)) [
  | inl e ↦ ground arith
  | inr e ↦ ground (arith, find-handled id other status t rows f)
]

head?-append_some {ℓ} :
    {A : Type ℓ} (xs ys : List A) (x : A) → head? xs ≡ some x → head? (xs ++ ys) ≡ some x
head?-append_some [] ys x h = cc
head?-append_some (y ∷ xs) ys x h = h

-- What holds of the rows before and after a success holds after the call.
either_end {ℓ κ} :
    {A : Type ℓ} (P : List FriendApply → Type κ) (db : Db) (r : Result A × World)
    → Kept db r
    → P db.friend_applies
    → ((a : A) (w : World) → r ≡ (ok a, w) → P w.db.friend_applies)
    → P r.1.db.friend_applies
either_end P db (ok a, w) k h f = f a w refl
either_end P db (err e, w) k h f = subst (λ (d : Db). P d.friend_applies) (sym k) h

-- Applications of one id, as a list of rows has them.
abbrev Finds : ℕ → FriendApply → List FriendApply → Type 0
Finds id f rows = head? (filter (has_id id) rows) ≡ some f

module _ (p : Platform) where
  -- A property of the rows that the three kinds of change keep is kept by each call.
  module _ {κ} (P : List FriendApply → Type κ)
      (add : (rows : List FriendApply) (f : FriendApply)
        → P rows
        → any (pending_between f.from_uid f.to_uid) rows ≡ false
        → P (rows ++ f ∷ []))
      (handle : (rows : List FriendApply) (id : ℕ) (status : Text) (t : Instant)
        → text_eq status friend_apply_status_pending ≡ false
        → P rows
        → P (map_where (is_open id) (handled status t) rows)) where
    apply_keeps :
        (uid : UserId) (req : ApplyFriendReq) (w : World)
        → P w.db.friend_applies
        → P (apply_friend p uid req w).1.db.friend_applies
    apply_keeps uid req w h =
        either_end P w.db (apply_friend p uid req w) ((apply_friend-Atomic p uid req).at w) h
          λ r v e.
            let (t, same, _, _, _, _, unique, _) = apply_friend_ok p uid req w e in
            let row = record (new_apply uid req) { id = w.db.next_friend_apply; created_at = t } in
            subst (λ (d : Db). P d.friend_applies) (sym same) (add w.db.friend_applies row h unique)

    accept_keeps :
        (uid : UserId) (id : ℕ) (w : World)
        → P w.db.friend_applies
        → P (accept_apply p uid id w).1.db.friend_applies
    unfolding text_eq
    accept_keeps uid id w h =
        either_end P w.db (accept_apply p uid id w) ((accept_apply-Atomic p uid id).at w) h
          λ conv v e.
            let done = accept_apply_ok p uid id w e in
            subst P (sym done.handled_once)
              (handle w.db.friend_applies done.apply.id friend_apply_status_accepted done.at refl h)

    reject_keeps :
        (uid : UserId) (id : ℕ) (w : World)
        → P w.db.friend_applies
        → P (reject_apply p uid id w).1.db.friend_applies
    unfolding text_eq
    reject_keeps uid id w h =
        either_end P w.db (reject_apply p uid id w) ((reject_apply-Atomic p uid id).at w) h λ u v e.
          let (f, t, _, _, _, same) = reject_apply_ok p uid id w e in
          subst (λ (d : Db). P d.friend_applies) (sym same)
            (handle w.db.friend_applies f.id friend_apply_status_rejected t refl h)

    run_keeps : {w w' : World} → Run p w w' → P w.db.friend_applies → P w'.db.friend_applies
    run_keeps Run.stop h = h
    run_keeps (Run.applied uid req {w = w} r) h = run_keeps r (apply_keeps uid req w h)
    run_keeps (Run.accepted uid id {w = w} r) h = run_keeps r (accept_keeps uid id w h)
    run_keeps (Run.rejected uid id {w = w} r) h = run_keeps r (reject_keeps uid id w h)
    run_keeps (Run.elsewhere same r) h = run_keeps r (subst P (sym same) h)

  -- Two users never have two pending applications between them, whichever of the two applied, after
  -- any sequence of calls from a table where they have not.
  pub run-OnePending :
      {w w' : World} → Run p w w' → OnePending w.db.friend_applies → OnePending w'.db.friend_applies
  run-OnePending r h =
      run_keeps OnePending (λ rows f k l. OnePending-append rows f k l)
        (λ rows id status t e k. OnePending-handled id status t e rows k) r h

  -- An application that has been handled keeps its status, and the time of it, for good.
  pub run-handled_once :
      {w w' : World} (id : ℕ) (f : FriendApply)
      → Run p w w'
      → find_apply id w.db ≡ ok f
      → is_pending f ≡ false
      → find_apply id w'.db ≡ ok f
  unfolding find_apply
  run-handled_once {w} {w'} id f r h k = ap first (
      run_keeps (Finds id f)
        (λ rows g j l.
          ap head? (filter-append (has_id id) rows (g ∷ []))
          ∙ head?-append_some (filter (has_id id) rows) _ f j)
        (λ rows other status t e j. find-handled id other status t rows f j k) r (ground arith))

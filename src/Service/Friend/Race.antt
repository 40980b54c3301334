-- ===== src/Service/Friend/Race.antt =====
-- addfriend.go: requests that handle one application side by side. The checks of a request come before
-- its writes, and what other requests write may come between.
use blahaj_chat_server.Common.{
  ℕ, ◌<◌, subst, ◌≡◌, ◌≢◌, refl, sym, ◌∙◌, ap, false, true, List, [], ◌∷◌, Text, text_eq, any,
  any-append, map_where, arith,
}
use blahaj_chat_server.Errors.{Error, Result, ok, err}
use blahaj_chat_server.Model.{
  Instant, UserId, FriendApply, Db, friend_apply_status_pending, friend_apply_status_accepted,
  friend_apply_status_rejected,
}
use blahaj_chat_server.Platform.{Platform, World, M, pure, on_error, ◌>>=◌}
use blahaj_chat_server.Platform.Effects.{Kept, Atomic, Atomic-then}
use blahaj_chat_server.Platform.After.{After, After-ok, After-of, After-continue, After-pure}
use blahaj_chat_server.Dao.Friend.{is_open, update_friend_apply_status, upsert_friendship}
use blahaj_chat_server.Service.Friend.{
  ApplyFriendReq, new_apply, as_handled, store_accepted, apply_friend,
}
use blahaj_chat_server.Service.Friend.Apply.{apply_friend_ok, apply_friend-Atomic}
use blahaj_chat_server.Service.Friend.Steps.{handled, After-handle, After-store_accepted}
use blahaj_chat_server.Service.Friend.Handle.{Atomic-store_accepted, Atomic-handle}

-- What `AcceptApply` and `RejectApply` write once their checks have passed. The application that an
-- acceptance has read may be out of date by then.
pub data Handling : Type 0 where
  accepting : FriendApply → Handling
  rejecting : ℕ → Handling

abbrev pub id_of : Handling → ℕ
id_of (accepting f) = f.id
id_of (rejecting id) = id

abbrev pub status_of : Handling → Text
status_of (accepting f) = friend_apply_status_accepted
status_of (rejecting id) = friend_apply_status_rejected

module _ (p : Platform) where
  unfoldable pub run_handling : Handling → M (Unit {0})
  run_handling (accepting f) = store_accepted p f >>= λ conv. pure tt
  run_handling (rejecting id) =
      on_error (update_friend_apply_status p id friend_apply_status_rejected) pure as_handled

  -- What the requests write, in any order; what they read changes no row.
  pub data Phase : World → World → Type 0 where
    handling : (a : Handling) (w : World) → Phase w (run_handling a w).1
    applying :
        (uid : UserId) (req : ApplyFriendReq) (w : World) → Phase w (apply_friend p uid req w).1
    elsewhere :
        {w v : World}
        → v.db.friend_applies ≡ w.db.friend_applies
        → v.db.next_friend_apply ≡ w.db.next_friend_apply
        → Phase w v

  pub data Phases : World → World → Type 0 where
    stop : {w : World} → Phases w w
    next : {u v w : World} → Phase u v → Phases v w → Phases u w

  -- The application with this id is there no more as a pending one, nor will be.
  Settled : ℕ → Db → Type 0
  Settled id db = (any (is_open id) db.friend_applies ≡ false) × (id < db.next_friend_apply)

  -- A handling that succeeds found a pending row, and handled the rows of its id.
  Done : Handling → Db → Db → Type 0
  Done a before after =
      (t : Instant) × (after.friend_applies
        ≡ map_where (is_open (id_of a)) (handled (status_of a) t) before.friend_applies)
      × (after.next_friend_apply ≡ before.next_friend_apply)
      × (any (is_open (id_of a)) before.friend_applies ≡ true)

  After-run_handling :
      (a : Handling) (w : World) → After (run_handling a w) (λ _ v. Done a w.db v.db)
  unfolding run_handling Done upsert_friendship
  After-run_handling (accepting f) w =
      After-continue _ _ (After-store_accepted p f w) λ conv v stored.
        let (t, s, cs, ss, same, pair, found) = stored in
        After-pure tt v (
          t,
          ap (λ (d : Db). d.friend_applies) same,
          ap (λ (d : Db). d.next_friend_apply) same,
          found,
        )
  After-run_handling (rejecting id) w = After-of _ λ _ v e.
      let (t, same, found) = After-ok (After-handle p id friend_apply_status_rejected w) e in
      (t, ap (λ (d : Db). d.friend_applies) same, ap (λ (d : Db). d.next_friend_apply) same, found)

  Atomic-run_handling : (a : Handling) → Atomic (run_handling a)
  unfolding run_handling
  Atomic-run_handling (accepting f) = Atomic-then _ _ (Atomic-store_accepted p f) (λ conv w db. tt)
  Atomic-run_handling (rejecting id) = Atomic-handle p id friend_apply_status_rejected

  none_open-handled :
      (id other : ℕ) (status : Text) (t : Instant) (rows : List FriendApply)
      → text_eq status friend_apply_status_pending ≡ false
      → any (is_open id) rows ≡ false
      → any (is_open id) (map_where (is_open other) (handled status t) rows) ≡ false
  none_open-handled id other status t [] n h = refl
  none_open-handled id other status t (f ∷ rows) n h =
      ground (arith, n, none_open-handled id other status t rows n)

  settles :
      (id : ℕ) (status : Text) (t : Instant) (rows : List FriendApply)
      → text_eq status friend_apply_status_pending ≡ false
      → any (is_open id) (map_where (is_open id) (handled status t) rows) ≡ false
  settles id status t [] n = refl
  settles id status t (f ∷ rows) n = ground (arith, n, settles id status t rows n)

  not_pending : (a : Handling) → text_eq (status_of a) friend_apply_status_pending ≡ false
  unfolding text_eq
  not_pending (accepting f) = refl
  not_pending (rejecting id) = refl

  -- What holds before, and after a success, holds after the call.
  either_way_out {ℓ κ} :
      {A : Type ℓ} (P : Db → Type κ) (db : Db) (r : Result A × World)
      → Kept db r
      → P db
      → ((a : A) (w : World) → r ≡ (ok a, w) → P w.db)
      → P r.1.db
  either_way_out P db (ok a, w) k h f = f a w refl
  either_way_out P db (err e, w) k h f = subst P (sym k) h

  Settled-Phase : (id : ℕ) {v w : World} → Phase v w → Settled id v.db → Settled id w.db
  unfolding Settled Done
  Settled-Phase id (handling a v) s =
      either_way_out (Settled id) v.db (run_handling a v) ((Atomic-run_handling a).at v) s λ u x e.
        let (t, rows, same, found) = After-ok (After-run_handling a v) e in
        (
          ap (any (is_open id)) rows
              ∙ none_open-handled id (id_of a) (status_of a) t v.db.friend_applies (not_pending a)
                  s.0,
          subst (λ n. id < n) (sym same) s.1,
        )
  Settled-Phase id (applying uid req v) s =
      either_way_out (Settled id) v.db (apply_friend p uid req v)
        ((apply_friend-Atomic p uid req).at v) s
        λ r x e.
          let (t, same, _, _, _, _, _, _) = apply_friend_ok p uid req v e in
          (
            ap (λ (d : Db). any (is_open id) d.friend_applies) same
                ∙ ground (
                  arith,
                  s.0,
                  s.1,
                  any-append (is_open id) v.db.friend_applies (
                      record (new_apply uid req) { id = v.db.next_friend_apply; created_at = t }
                      ∷ []),
                ),
            subst (λ n. id < n) (sym (ap (λ (d : Db). d.next_friend_apply) same))
                (omega (arith, s.1)),
          )
  Settled-Phase id (elsewhere {w = v} {v = w} rows same) s =
      (ap (any (is_open id)) rows ∙ s.0, subst (λ n. id < n) (sym same) s.1)

  Settled-Phases : (id : ℕ) {v w : World} → Phases v w → Settled id v.db → Settled id w.db
  Settled-Phases id stop s = s
  Settled-Phases id (next phase more) s = Settled-Phases id more (Settled-Phase id phase s)

  -- An action that fails and changes no row.
  abbrev pub IsRefused {ℓ} : {A : Type ℓ} → Db → Result A × World → Type ℓ
  IsRefused {A = A} db r = (e : Error) × (r.0 ≡ err e) × (r.1.db ≡ db)

  IsRefused-of {ℓ} :
      {A : Type ℓ} (db : Db) (r : Result A × World)
      → Kept db r
      → ((a : A) (w : World) → r ≢ (ok a, w))
      → IsRefused db r
  IsRefused-of db (ok a, w) k n = absurd (n a w refl)
  IsRefused-of db (err e, w) k n = (e, refl, k)

  -- When requests handle one application side by side, whatever each of them has read before it writes,
  -- only the first whose writes succeed has handled it: once an acceptance or a rejection has
  -- succeeded, each later one of the application fails and changes no row.
  pub run_handling-once :
      (a b : Handling) (u : World) {v w : World}
      → id_of a < u.db.next_friend_apply
      → run_handling a u ≡ (ok tt, v)
      → Phases v w
      → id_of b ≡ id_of a
      → IsRefused w.db (run_handling b w)
  unfolding Done Settled
  run_handling-once a b u {v} {w} known first phases same =
      let (t, rows, kept, found) = After-ok (After-run_handling a u) first in
      let settled : Settled (id_of a) v.db = (
        ap (any (is_open (id_of a))) rows
            ∙ settles (id_of a) (status_of a) t u.db.friend_applies (not_pending a),
        subst (λ n. id_of a < n) (sym kept) known,
      ) in
      let still = Settled-Phases (id_of a) phases settled in
      IsRefused-of w.db (run_handling b w) ((Atomic-run_handling b).at w) λ x z e.
        let (s, _, _, open_there) = After-ok (After-run_handling b w) e in
        let there = subst (λ id. any (is_open id) w.db.friend_applies ≡ true) same open_there in
        absurd (ground (arith, there, still.0))

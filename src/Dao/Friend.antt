-- ===== src/Dao/Friend.antt =====
-- internal/dao/friend_apply.go, friendship.go and block.go.
use blahaj_chat_server.Common.{
  ℕ, suc, Bool, ◌&&◌, ◌||◌, Option, none, some, List, [], ◌∷◌, ◌++◌, ltb, ◌==◌, if◌then◌else◌, Text,
  text_eq, filter, head?, any, map_where, sort_by,
}
use blahaj_chat_server.Errors.{Error, Result, ok, record_not_found, is_record_not_found}
use blahaj_chat_server.Model.{
  Instant, UserId, Block, Friendship, FriendApply, Db, friend_apply_status_pending,
  friendship_status_normal,
}
use blahaj_chat_server.Platform.{Platform, M, pure, raise, ◌>>=◌, on_error, guard, now}
use blahaj_chat_server.Platform.Sql.{query, statement, first}
use blahaj_chat_server.Dao.Peer.{normalize_friend_pair}

-- `(x = a AND y = b) OR (x = b AND y = a)`
abbrev pub either_way : UserId → UserId → UserId → UserId → Bool
either_way a b x y = (x == a && y == b) || (x == b && y == a)

unfoldable pub blocks_either_way : UserId → UserId → Db → Bool
blocks_either_way a b db = any (λ (k : Block). either_way a b k.uid k.blocked_uid) db.blocks

abbrev pub is_pending : FriendApply → Bool
is_pending f = text_eq f.status friend_apply_status_pending

abbrev pub pending_between : UserId → UserId → FriendApply → Bool
pending_between a b f = is_pending f && either_way a b f.from_uid f.to_uid

-- `ORDER BY created_at DESC`; rows of one instant stay in the order of their ids.
abbrev pub later_apply : FriendApply → FriendApply → Bool
later_apply f g = ltb g.created_at f.created_at

abbrev pub later_friendship : Friendship → Friendship → Bool
later_friendship f g = ltb g.updated_at f.updated_at

unfoldable pub find_pending : UserId → UserId → Db → Result FriendApply
find_pending a b db =
    first (head? (sort_by later_apply (filter (pending_between a b) db.friend_applies)))

abbrev pub has_id : ℕ → FriendApply → Bool
has_id id f = f.id == id

unfoldable pub find_apply : ℕ → Db → Result FriendApply
find_apply id db = first (head? (filter (has_id id) db.friend_applies))

unfoldable pub pending_to : UserId → Db → List FriendApply
pending_to uid db =
    sort_by later_apply
      (filter (λ (f : FriendApply). f.to_uid == uid && is_pending f) db.friend_applies)

-- `Create`: the row gets the next id.
unfoldable pub insert_apply : FriendApply → Db → Result (FriendApply × Db)
insert_apply f db =
    let row = record f { id = db.next_friend_apply } in
    ok (
      row,
      record db {
        friend_applies = db.friend_applies ++ row ∷ [];
        next_friend_apply = suc db.next_friend_apply;
      },
    )

abbrev pub is_open : ℕ → FriendApply → Bool
is_open id f = has_id id f && is_pending f

-- The update `WHERE id = ? AND status = 'pending'`, and whether it found a row.
unfoldable pub handle_apply : ℕ → Text → Instant → Db → Result (Bool × Db)
handle_apply id status t db = ok (
  any (is_open id) db.friend_applies,
  record db {
    friend_applies =
        map_where (is_open id) (λ f. record f { status = status; handled_at = some t })
          db.friend_applies;
  },
)

abbrev pub is_pair : UserId × UserId → Friendship → Bool
is_pair (a, b) f = f.uid_a == a && f.uid_b == b

abbrev pub is_normal_pair : UserId × UserId → Friendship → Bool
is_normal_pair pair f = is_pair pair f && text_eq f.status friendship_status_normal

unfoldable pub are_friends : UserId → UserId → Db → Bool
are_friends a b db = any (is_normal_pair (normalize_friend_pair a b)) db.friendships

abbrev new_friendship : UserId × UserId → Instant → Friendship
new_friendship (a, b) t = record {
  uid_a = a;
  uid_b = b;
  status = friendship_status_normal;
  updated_at = t;
}

-- The insert `ON DUPLICATE KEY UPDATE status, updated_at`.
unfoldable pub upsert_friendship : UserId × UserId → Instant → Db → Db
upsert_friendship pair t db = record db {
  friendships =
      if any (is_pair pair) db.friendships
      then map_where (is_pair pair)
          (λ f. record f { status = friendship_status_normal; updated_at = t }) db.friendships
      else db.friendships ++ new_friendship pair t ∷ [];
}

unfoldable pub friendships_of : UserId → Db → List Friendship
friendships_of uid db = sort_by later_friendship (
    filter
      (λ (f : Friendship).
        (f.uid_a == uid || f.uid_b == uid) && text_eq f.status friendship_status_normal)
      db.friendships)

abbrev pub no_row {ℓ} : {A : Type ℓ} → Error → M (Option A)
no_row e = if is_record_not_found e then pure none else raise e

module _ (p : Platform) where
  -- `IsBlockedLook`
  unfoldable pub is_blocked_look : UserId → UserId → M Bool
  is_blocked_look a b = query p λ db. ok (blocks_either_way a b db)

  -- `IsBlocked`, in one direction.
  unfoldable pub is_blocked : UserId → UserId → M Bool
  is_blocked uid blocked_uid =
      query p λ db. ok (any (λ (b : Block). b.uid == uid && b.blocked_uid == blocked_uid) db.blocks)

  -- `CreateFriendApply`: gorm fills in the id and the time of creation.
  unfoldable pub create_friend_apply : FriendApply → M FriendApply
  create_friend_apply f = do t ← now p; statement p (insert_apply (record f { created_at = t }))

  unfoldable pub get_pending_friend_apply_between : UserId → UserId → M (Option FriendApply)
  get_pending_friend_apply_between a b =
      on_error (query p (find_pending a b)) (λ f. pure (some f)) no_row

  unfoldable pub get_friend_apply_by_id : ℕ → M (Option FriendApply)
  get_friend_apply_by_id id = on_error (query p (find_apply id)) (λ f. pure (some f)) no_row

  unfoldable pub list_pending_friend_applies_to_uid : UserId → M (List FriendApply)
  list_pending_friend_applies_to_uid uid = query p λ db. ok (pending_to uid db)

  -- `UpdateFriendApplyStatusTx`
  unfoldable pub update_friend_apply_status : ℕ → Text → M (Unit {0})
  update_friend_apply_status id status = do
    t ← now p
    affected ← statement p (handle_apply id status t)
    guard affected record_not_found

  unfoldable pub is_friend : UserId → UserId → M Bool
  is_friend a b = query p λ db. ok (are_friends a b db)

  -- `CreateFriendshipTx`
  unfoldable pub create_friendship : UserId → UserId → M (Unit {0})
  create_friendship a b = do
    t ← now p
    statement p λ db. ok (tt, upsert_friendship (normalize_friend_pair a b) t db)

  unfoldable pub list_friendships_by_uid : UserId → M (List Friendship)
  list_friendships_by_uid uid = query p λ db. ok (friendships_of uid db)

  unfoldable pub get_friendship : UserId → UserId → M (Option Friendship)
  get_friendship a b =
      on_error
        (query p λ db. first (head? (filter (is_pair (normalize_friend_pair a b)) db.friendships)))
        (λ f. pure (some f)) no_row

-- ===== src/Dao/User.antt =====
-- internal/dao/user.go: users by their ids, through the cache of profiles, by their addresses, and by a
-- search. `CreateUser`, `GetUserByEmail` and `GetUserByID` are the same without a context, and nothing
-- calls them.
use blahaj_chat_server.Common.{
  ℕ, suc, Bool, ◌||◌, ltb, take, any, sort_by, parse_uint, Option, none, some, List, [], ◌∷◌, ◌++◌,
  ◌==◌, if◌then◌else◌, Text, codes, filter, head?, contains, Dict, insert, nat_eq, format_uint,
}
use blahaj_chat_server.Errors.{Result, ok, err, duplicated_key, is_record_not_found}
use blahaj_chat_server.Model.{Instant, UserId, Db}
use blahaj_chat_server.Model
use blahaj_chat_server.Platform.{Platform, M, pure, raise, ◌>>=◌, ◌>>◌, on_error, now}
use blahaj_chat_server.Platform.Sql.{query, statement, first}
use blahaj_chat_server.Platform.Redis.{get_cache, set_value_by_key_expire, del_value_by_key}

-- `30 * time.Minute`, in nanoseconds.
abbrev pub user_profile_ttl : ℕ
user_profile_ttl = 1800000000000

unfoldable pub user_profile_key : UserId → Text
user_profile_key uid = codes "user:profile:" ++ format_uint uid

unfoldable pub find_user : UserId → Db → Result Model.User
find_user id db = first (head? (filter (λ (u : Model.User). u.id == id) db.users))

unfoldable pub select_users : List UserId → Db → List Model.User
select_users ids db = filter (λ (u : Model.User). contains ids u.id) db.users

-- How MySQL compares the texts of a column: when two are equal, and when one fits a pattern of `LIKE`.
-- Both depend on the collation of the table.
pub record Collation : Type 0 where
  pub same : Text → Text → Bool
  pub like : Text → Text → Bool

module _ (c : Collation) where
  abbrev pub has_email : Text → Model.User → Bool
  has_email email u = c.same u.email email

  unfoldable pub find_by_email : Text → Db → Result Model.User
  find_by_email email db = first (head? (filter (has_email email) db.users))

  -- `Create`: the addresses have a unique index, and the row gets the next id.
  unfoldable pub insert_user : Model.User → Db → Result (Model.User × Db)
  insert_user u db =
      let row = record u { id = db.next_user } in
      if any (has_email u.email) db.users
      then err duplicated_key
      else ok (row, record db { users = db.users ++ row ∷ []; next_user = suc db.next_user })

  -- `email LIKE ? OR nickname LIKE ?`, and the id that the keyword may be.
  abbrev is_found : Text → Option ℕ → Model.User → Bool
  is_found pattern none u = c.like pattern u.email || c.like pattern u.nickname
  is_found pattern (some id) u = c.like pattern u.email || c.like pattern u.nickname || u.id == id

  -- `ORDER BY id DESC LIMIT ?`
  unfoldable pub search_rows : Text → ℕ → Db → List Model.User
  search_rows keyword limit db = take limit (
      sort_by (λ (u v : Model.User). ltb v.id u.id)
        (filter (is_found (b'%' ∷ keyword ++ b'%' ∷ []) (parse_uint keyword)) db.users))

-- The bounds that the searches set on their limit; one that is not positive reads like 0.
unfoldable pub search_limit : ℕ → ℕ
search_limit limit =
    let positive = if limit == 0 then 20 else limit in if ltb 50 positive then 50 else positive

module _ (p : Platform) where
  -- `CreateUserWithCtx`; gorm sets both times.
  unfoldable pub create_user_with_ctx : Collation → Model.User → M Model.User
  create_user_with_ctx c u = do
    t ← now p
    statement p (insert_user c (record u { created_at = t; updated_at = t }))

  -- `GetUserByEmailWithCtx`: no row is no error.
  unfoldable pub get_user_by_email_with_ctx : Collation → Text → M (Option Model.User)
  get_user_by_email_with_ctx c email =
      on_error (query p (find_by_email c email)) (λ u. pure (some u))
        λ e. if is_record_not_found e then pure none else raise e

  unfoldable pub search_users : Collation → Text → ℕ → M (List Model.User)
  search_users c [] limit = pure []
  search_users c (k ∷ keyword) limit =
      query p λ db. ok (search_rows c (k ∷ keyword) (search_limit limit) db)

  -- `InvalidateUser`
  unfoldable pub invalidate_user : UserId → M (Unit {0})
  invalidate_user uid = del_value_by_key p (user_profile_key uid)

  -- `cacheUser`: an error is dropped.
  unfoldable pub cache_user : Model.User → M (Unit {0})
  cache_user u =
      on_error
        (set_value_by_key_expire p (user_profile_key u.id) (p.encode_user u) user_profile_ttl)
        (λ _. pure tt) (λ _. pure tt)

  unfoldable pub cached_user : Option Text → Option Model.User
  cached_user none = none
  cached_user (some raw) = p.decode_user raw

  -- `GetUserByIDWithCtx`: no row is no error.
  unfoldable pub get_user_by_id_with_ctx : UserId → M (Option Model.User)
  unfolding cached_user
  get_user_by_id_with_ctx id = do
    cached ← get_cache p (user_profile_key id)
    elim (cached_user cached) [
      | some u ↦ pure (some u)
      | none ↦
          on_error (query p (find_user id)) (λ u. cache_user u >> pure (some u))
            (λ e. if is_record_not_found e then pure none else raise e)
    ]

  -- The first loop of `GetUsersByIDs`: what the cache has, and the ids that it has not.
  unfoldable pub from_cache :
      List UserId → Dict UserId Model.User → List UserId → M (Dict UserId Model.User × List UserId)
  unfolding cached_user
  from_cache [] users miss = pure (users, miss)
  from_cache (id ∷ ids) users miss = do
    cached ← get_cache p (user_profile_key id)
    elim (cached_user cached) [
      | some u ↦ from_cache ids (insert id u users) miss
      | none ↦ from_cache ids users (miss ++ id ∷ [])
    ]

  -- The second loop.
  unfoldable pub add_users : List Model.User → Dict UserId Model.User → M (Dict UserId Model.User)
  add_users [] users = pure users
  add_users (u ∷ found) users = cache_user u >> add_users found (insert u.id u users)

  -- What the cache has not is read in one query.
  unfoldable pub load_missing : Dict UserId Model.User → List UserId → M (Dict UserId Model.User)
  load_missing users [] = pure users
  load_missing users (id ∷ miss) = do
    found ← query p (λ db. ok (select_users (id ∷ miss) db))
    add_users found users

  unfoldable pub get_users_by_ids : List UserId → M (Dict UserId Model.User)
  unfolding load_missing
  get_users_by_ids [] = pure []
  get_users_by_ids (id ∷ ids) = do seen ← from_cache (id ∷ ids) [] []; load_missing seen.0 seen.1

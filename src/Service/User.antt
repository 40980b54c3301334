-- ===== src/Service/User.antt =====
-- internal/service/user/user.go: registration, login and the search for users. Password hashes are made
-- and compared by the library `bcrypt`. The proofs are in the module below.
pub mod Register
use blahaj_chat_server.Common.{
  ℕ, Bool, true, false, Option, none, some, List, [], ◌∷◌, ◌==◌, if◌then◌else◌, Text, codes, map,
  filter, not, trim_space,
}
use blahaj_chat_server.Errors.{Error, Result, ok, err, email_taken, invalid_credentials}
use blahaj_chat_server.Model.{UserId, User}
use blahaj_chat_server.Platform.{Platform, M, pure, raise, ◌>>=◌, ◌>>◌, on_error, guard, tick}
use blahaj_chat_server.Platform.Redis.{is_some}
use blahaj_chat_server.Dao.User.{
  Collation, get_user_by_email_with_ctx, create_user_with_ctx, search_users as select_found,
}
use blahaj_chat_server.Service.Auth.{Tokens, TokenPair, issue_token_pair}

-- `GenerateFromPassword`, which draws a salt and refuses long passwords, and `CompareHashAndPassword`.
pub record Bcrypt : Type 0 where
  pub hash : ℕ → Text → Option Text
  pub compare : Text → Text → Bool

pub record RegisterReq : Type 0 where
  pub email : Text
  pub password : Text
  pub email_code : Text
  pub nickname : Text

pub record UserSearchResp : Type 0 where
  pub uid : UserId
  pub email : Text
  pub nickname : Text
  pub avatar_url : Text

abbrev pub default_avatar_url : Text
default_avatar_url = codes "https://images.cdn.org/img/index/sticker.webp"

-- `errors.New(consts.SystemError)`
abbrev pub system_error : Error
system_error = Error.message 2

abbrev pub new_user : RegisterReq → Text → User
new_user req hashed = record {
  id = 0;
  email = req.email;
  password = hashed;
  nickname = req.nickname;
  avatar_url = default_avatar_url;
  created_at = 0;
  updated_at = 0;
}

-- The loop of `SearchUsers`, which leaves the caller out.
unfoldable pub user_items : UserId → List User → List UserSearchResp
user_items current_uid [] = []
user_items current_uid (u ∷ users) =
    let rest = user_items current_uid users in
    if u.id == current_uid
    then rest
    else record { uid = u.id; email = u.email; nickname = u.nickname; avatar_url = u.avatar_url }
      ∷ rest

module _ (p : Platform) (c : Collation) where
  unfoldable pub search_users : UserId → Text → ℕ → M (List UserSearchResp)
  search_users current_uid keyword limit = do
    users ← select_found p c (trim_space keyword) limit
    pure (user_items current_uid users)

  module _ (b : Bcrypt) where
    unfoldable pub generate_from_password : Text → M Text
    generate_from_password password w = elim (b.hash w.calls password) [
      | none ↦ (err system_error, tick w)
      | some hashed ↦ (ok hashed, tick w)
    ]

    unfoldable pub register : RegisterReq → M User
    register req = do
      old ← get_user_by_email_with_ctx p c req.email
      guard (not (is_some old)) email_taken
      hashed ← generate_from_password req.password
      on_error (create_user_with_ctx p c (new_user req hashed)) pure (λ e. raise system_error)

    module _ (t : Tokens) where
      -- What `Login` does with the row of the address.
      unfoldable pub login_as : Option User → Text → M (User × TokenPair)
      login_as none password = raise invalid_credentials
      login_as (some u) password = do
        guard (b.compare u.password password) invalid_credentials
        pair ← issue_token_pair p t u.id
        pure (u, pair)

      unfoldable pub login : Text → Text → M (User × TokenPair)
      unfolding login_as
      login email password = do
        found ← get_user_by_email_with_ctx p c email
        login_as found password

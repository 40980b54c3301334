-- ===== src/Service/Auth.antt =====
-- internal/service/auth: refresh tokens and sessions in Redis, and the list of access tokens that are no
-- longer accepted. The proofs are in the modules below.
pub mod Sessions
pub mod Lockout
pub mod Listed
pub mod Registry
pub mod Calls
pub mod LogoutAll
use blahaj_chat_server.Common.{
  ℕ, ◌+◌, ◌-◌, ◌*◌, Bool, true, false, not, Option, none, some, List, [], ◌∷◌, ◌++◌, ltb,
  if◌then◌else◌, Text, codes, text_eq, filter, any, lookup, insert, without, text_eq_instance,
  format_uint, parse_uint,
}
use blahaj_chat_server.Errors.{Error, Result, ok, err, invalid_refresh}
use blahaj_chat_server.Model.{Instant, UserId}
use blahaj_chat_server.Platform.{
  Platform, World, M, tick, pure, raise, ◌>>=◌, ◌>>◌, on_error, now, new_id,
}
use blahaj_chat_server.Platform.Redis.{
  command, live, set_string, set_value_by_key_expire, exists_key, del_value_by_key,
}

pub record TokenPair : Type 0 where
  pub access_token : Text
  pub refresh_token : Text
  pub expires_in : ℕ

unfoldable pub refresh_key : Text → Text
refresh_key token = codes "refresh:" ++ token

unfoldable pub blacklist_key : Text → Text
blacklist_key jti = codes "blacklist:" ++ jti

unfoldable pub user_session_key : UserId → Text
user_session_key uid = codes "userSession:" ++ format_uint uid

abbrev pub set_at : Text → World → List Text
set_at key w = elim (lookup key w.sets) [ none ↦ [] | some set ↦ set ]

abbrev pub set_add : Text → List Text → List Text
set_add v set = if any (text_eq v) set then set else v ∷ set

abbrev pub is_empty : Text → Bool
is_empty [] = true
is_empty (c ∷ s) = false

-- What `golang-jwt` makes of the claims under the secret, and the lifetimes of the configuration.
pub record Tokens : Type 0 where
  pub sign : Text → UserId → Instant → Instant → Result Text
  pub access_ttl_minutes : ℕ
  pub refresh_ttl_days : ℕ

-- Nanoseconds.
abbrev pub minute : ℕ
minute = 60000000000

abbrev pub day : ℕ
day = 86400000000000

module _ (p : Platform) where
  -- A command whose error is dropped.
  unfoldable pub silently : (World → World) → M (Unit {0})
  silently run w = elim (p.redis_outcome w.calls) [
    | some f ↦ (ok tt, tick w)
    | none ↦ (ok tt, tick (run w))
  ]

  -- `GET`, with `redis.Nil` as none.
  unfoldable pub get_key : Text → M (Option Text)
  unfolding command
  get_key key = command p λ w. (live (p.clock w.calls) key w, w)

  unfoldable pub set_remove : Text → Text → M (Unit {0})
  set_remove key v =
      silently
        λ w. record w { sets = insert key (filter (λ x. not (text_eq v x)) (set_at key w)) w.sets }

  unfoldable pub add_to_set : Text → Text → M (Unit {0})
  add_to_set key v = silently λ w. record w { sets = insert key (set_add v (set_at key w)) w.sets }

  unfoldable pub set_members : Text → M (List Text)
  unfolding command
  set_members key = command p λ w. (set_at key w, w)

  module _ (t : Tokens) where
    -- `GenerateAccessToken`, without the id of the token, which its caller drops.
    unfoldable pub generate_access_token : UserId → M Text
    generate_access_token uid = do
      jti ← new_id p
      issued ← now p
      current ← now p
      λ w. (t.sign jti uid issued (current + t.access_ttl_minutes * minute), w)

    unfoldable pub issue_token_pair : UserId → M TokenPair
    issue_token_pair uid = do
      access ← generate_access_token uid
      token ← new_id p
      set_value_by_key_expire p (refresh_key token) (format_uint uid) (t.refresh_ttl_days * day)
      add_to_set (user_session_key uid) token
      pure (record {
        access_token = access;
        refresh_token = token;
        expires_in = t.access_ttl_minutes * 60;
      })

    -- What `Refresh` does with the user of the old token.
    unfoldable pub rotate : Text → UserId → M TokenPair
    rotate token uid = do
      del_value_by_key p (refresh_key token)
      set_remove (user_session_key uid) token
      issue_token_pair uid

    abbrev pub refresh_for : Text → Option Text → M TokenPair
    refresh_for token none = raise invalid_refresh
    refresh_for token (some raw) = elim (parse_uint raw) [
      | none ↦ raise invalid_refresh
      | some uid ↦ rotate token uid
    ]

    unfoldable pub refresh : Text → M TokenPair
    refresh token = do found ← get_key (refresh_key token); refresh_for token found

  -- `Set` of the key of a refused access token, for a time.
  unfoldable pub refuse_until : Text → ℕ → M (Unit {0})
  refuse_until jti ttl =
      silently λ w. set_string (blacklist_key jti) (codes "1") (some (p.clock w.calls + ttl)) w

  -- The end of `Logout` and `LogoutAll`: the access token is refused for the rest of its life.
  unfoldable pub blacklist : Text → Instant → M (Unit {0})
  blacklist jti exp =
      if is_empty jti
      then pure tt
      else (do t ← now p; if ltb t exp then refuse_until jti (exp - t) else pure tt)

  unfoldable pub logout : UserId → Text → Text → Instant → M (Unit {0})
  logout uid token jti exp =
      (if is_empty token
        then pure tt
        else (do del_value_by_key p (refresh_key token); set_remove (user_session_key uid) token))
      >> blacklist jti exp

  -- The loop of `LogoutAll`.
  unfoldable pub delete_tokens : List Text → M (Unit {0})
  delete_tokens [] = pure tt
  delete_tokens (token ∷ tokens) = do del_value_by_key p (refresh_key token); delete_tokens tokens

  unfoldable pub logout_all : UserId → Text → Instant → M (Unit {0})
  logout_all uid jti exp = do
    on_error (set_members (user_session_key uid))
        (λ tokens. do
          delete_tokens tokens
          silently λ w. record w { sets = without (user_session_key uid) w.sets })
        (λ _. pure tt)
    blacklist jti exp

  unfoldable pub is_access_blacklisted : Text → M Bool
  is_access_blacklisted jti = if is_empty jti then pure false else exists_key p (blacklist_key jti)

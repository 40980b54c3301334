-- ===== src/Examples/Server.antt =====
-- A server on the small database, and requests to it.
use blahaj_chat_server.Common.{
  format_uint, text_eq_instance, ℕ, suc, ◌≡◌, ◌≢◌, refl, arith, true, false, none, some, [], ◌∷◌,
  codes, Text, text_eq, text_eq_refl, text_eq_instance, lookup,
}
use blahaj_chat_server.Errors.{Result, ok, cannot_friend_self}
use blahaj_chat_server.Model.{Instant, User}
use blahaj_chat_server.Platform.{World, now}
use blahaj_chat_server.Platform.Sql.{query, statement}
use blahaj_chat_server.Platform.Reliable.{reliable}
use blahaj_chat_server.Platform.Redis.{
  live, exists_key, get_value_by_key, get_cache, del_value_by_key, set_value_by_key_expire,
}
use blahaj_chat_server.Dao.User.{
  Collation, find_user, get_user_by_id_with_ctx, cached_user, cache_user, find_by_email,
  insert_user, create_user_with_ctx, get_user_by_email_with_ctx,
}
use blahaj_chat_server.Service.Auth.{
  Tokens, TokenPair, refresh_key, silently, refuse_until, blacklist, logout, is_access_blacklisted,
}
use blahaj_chat_server.Service.Email.{email_code_key}
use blahaj_chat_server.Service.User.{Bcrypt, RegisterReq, generate_from_password, register, login}
use blahaj_chat_server.Service.User.Register.{BcryptLaws, Registered, login-register}
use blahaj_chat_server.Service.Friend.{apply_friend}
use blahaj_chat_server.Http.Response.{Message, Response, success, fail, current_user_id}
use blahaj_chat_server.Http.Auth.{
  UserResp, to_user_resp, me, logout_handler, register_handler, check_code, register_user,
}
use blahaj_chat_server.Http.Friend.{apply_friendship_handler, fail_friend_error}
use blahaj_chat_server.Http.Router.{
  Server, AccessClaims, Credentials, Guarded, Request, Body, extract_token, parse_access_token,
  jwt_auth, serve_guarded, serve,
}
use blahaj_chat_server.Http.Refusals.{serve_failed}
use blahaj_chat_server.Http.Access.{Admitted, NeedsUser, serve-Admitted}
use blahaj_chat_server.Http.Lockout.{serve_logged_out}
use blahaj_chat_server.Http.Register.{register_handler_ok}
use blahaj_chat_server.Examples.Fixtures.{small}

abbrev binary : Collation
binary = record { same = text_eq; like = λ pattern s. false }

abbrev plain : Bcrypt
plain = record { hash = λ n password. some password; compare = text_eq }

abbrev tokens : Tokens
tokens = record {
  sign = λ jti uid issued exp. ok jti;
  access_ttl_minutes = 15;
  refresh_ttl_days = 7;
}

abbrev first_user : AccessClaims
first_user = record { user_id = 1; id = codes "j"; expires_at = some 100 }

abbrev server : Server
server = record {
  platform = reliable;
  collation = binary;
  bcrypt = plain;
  tokens = tokens;
  post = record { drawn = λ n. 42; mail_outcome = λ n email code. none };
  parse = λ t token. ok first_user;
}

abbrev bearer : Credentials
bearer = record { authorization = codes "Bearer t"; token = [] }

abbrev apply_to_self : Request
apply_to_self =
    Request.guarded bearer (Guarded.post_apply (some (record { to_uid = 1; reason = [] })))

self_refused :
    serve server apply_to_self small
    ≡ (fail 400 (Message.of_error cannot_friend_self), (serve server apply_to_self small).1)
unfolding serve jwt_auth extract_token text_eq parse_access_token is_access_blacklisted exists_key
    live lookup serve_guarded apply_friendship_handler current_user_id apply_friend
    fail_friend_error
self_refused = refl

serve_failed_example : (serve server apply_to_self small).1.db ≡ small.db
serve_failed_example = serve_failed server apply_to_self small tt self_refused

abbrev who_am_i : Request
who_am_i = Request.guarded bearer Guarded.get_me

abbrev first_resp : UserResp
first_resp = record {
  id = 1;
  email = 1 ∷ [];
  nickname = [];
  avatar_url = [];
  created_at = 0;
  updated_at = 0;
}

me_found :
    serve server who_am_i small ≡ (success (Body.user first_resp), (serve server who_am_i small).1)
unfolding serve jwt_auth extract_token text_eq parse_access_token is_access_blacklisted exists_key
    live lookup serve_guarded me current_user_id get_user_by_id_with_ctx cached_user get_cache query
    find_user cache_user set_value_by_key_expire to_user_resp
me_found = refl

serve-Admitted_example :
    (a : Admitted server bearer
      (serve_guarded server Guarded.get_me)
      small
      (success (Body.user first_resp), (serve server who_am_i small).1))
    × (NeedsUser server Guarded.get_me → a.claims.user_id ≢ 0)
serve-Admitted_example = serve-Admitted server bearer Guarded.get_me small me_found

abbrev log_out : Request
log_out = Request.guarded bearer (Guarded.post_logout none)

abbrev after_logout : World
after_logout = (serve server log_out small).1

logged_out : serve server log_out small ≡ (success (Body.done tt), after_logout)
unfolding serve jwt_auth extract_token text_eq parse_access_token is_access_blacklisted exists_key
    live lookup serve_guarded logout_handler logout blacklist now refuse_until silently
logged_out = refl

few_calls : suc after_logout.calls ≡ 5
unfolding serve jwt_auth extract_token text_eq parse_access_token is_access_blacklisted exists_key
    live lookup serve_guarded logout_handler logout blacklist now refuse_until silently
few_calls = refl

only_claims :
    (t : Instant) (a : AccessClaims) → server.parse t (extract_token bearer) ≡ ok a → a ≡ first_user
only_claims t a e = cc

serve_logged_out_example : (m : Message) × ((serve server who_am_i after_logout).0 ≡ fail 401 m)
serve_logged_out_example =
    serve_logged_out server (λ n. refl) (λ m n h. omega (arith, h)) bearer first_user 100 none
      Guarded.get_me small after_logout only_claims refl (λ e. cc) logged_out (omega arith) refl
      (omega (arith, few_calls))

abbrev new_account : RegisterReq
new_account = record {
  email = codes "e";
  password = codes "secret";
  email_code = codes "000042";
  nickname = codes "n";
}

-- A code was mailed for the address.
abbrev invited : World
invited = record small {
  strings = (codes "sendEmailCode:e", record { value = codes "000042"; expires = some 1000 }) ∷ [];
}

abbrev registered : Response UserResp × World
registered = register_handler reliable binary plain (some new_account) invited

abbrev new_resp : UserResp
new_resp = record {
  id = 8;
  email = codes "e";
  nickname = codes "n";
  avatar_url = codes "https://images.cdn.org/img/index/sticker.webp";
  created_at = 5;
  updated_at = 5;
}

registered_ok : registered ≡ (success new_resp, registered.1)
unfolding register_handler check_code register_user exists_key live lookup email_code_key text_eq
    get_value_by_key register get_user_by_email_with_ctx query find_by_email generate_from_password
    create_user_with_ctx now statement insert_user del_value_by_key to_user_resp
registered_ok = refl

register_handler_ok_example :
    (u : User) × (new_resp ≡ to_user_resp u)
    × Registered binary plain new_account small.db u registered.1.db
    × (live 2 (codes "sendEmailCode:e") invited ≡ some (codes "000042"))
    × (((n : ℕ) → reliable.redis_outcome n ≡ none)
        → lookup (codes "sendEmailCode:e") registered.1.strings ≡ none)
unfolding email_code_key
register_handler_ok_example =
    register_handler_ok reliable binary plain new_account invited (λ e. cc) registered_ok

abbrev account : Result User × World
account = register reliable binary plain new_account small

abbrev account_user : User
account_user = record {
  id = 8;
  email = codes "e";
  password = codes "secret";
  nickname = codes "n";
  avatar_url = codes "https://images.cdn.org/img/index/sticker.webp";
  created_at = 3;
  updated_at = 3;
}

account_ok : account ≡ (ok account_user, account.1)
unfolding register text_eq get_user_by_email_with_ctx query find_by_email generate_from_password
    create_user_with_ctx now statement insert_user
account_ok = refl

plain_laws : BcryptLaws plain
plain_laws = record { compare-hash = λ n password hashed e. same password hashed e }
  where
    same : (password hashed : Text) → some password ≡ some hashed → text_eq hashed password ≡ true
    same password hashed e = let k : hashed ≡ password = cc in rw k (text_eq_refl password)

login-register_example :
    (pair : TokenPair) × (x : World) × (e : Instant) × (login reliable binary plain tokens
        (codes "e")
        (codes "secret")
        account.1
      ≡ (ok (account_user, pair), x))
    × (lookup (refresh_key pair.refresh_token) x.strings
        ≡ some (record { value = format_uint 8; expires = some e }))
login-register_example =
    login-register reliable binary plain tokens plain_laws text_eq_refl (λ n. refl)
      (λ jti uid from until. (jti, refl)) new_account small account.1 account_ok refl refl

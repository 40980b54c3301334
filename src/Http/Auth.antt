-- ===== src/Http/Auth.antt =====
-- internal/handler/auth.go and user.go. Binding a body is what gin does: `none` is a body that it
-- refuses.
use blahaj_chat_server.Common.{ℕ, not, Option, none, some, [], Text, text_eq, if◌then◌else◌}
use blahaj_chat_server.Errors.{Error, email_code_busy, send_mail, email_taken, invalid_credentials}
use blahaj_chat_server.Model.{Instant, User}
use blahaj_chat_server.Platform.{Platform}
use blahaj_chat_server.Platform.Redis.{exists_key, get_value_by_key, del_value_by_key}
use blahaj_chat_server.Dao.User.{Collation, get_user_by_id_with_ctx}
use blahaj_chat_server.Service.Auth.{Tokens, TokenPair, refresh, logout}
use blahaj_chat_server.Service.Email.{Post, email_code_key, send_email_code}
use blahaj_chat_server.Service.User.{Bcrypt, RegisterReq, register, login}
use blahaj_chat_server.Http.Response.{
  Message, Response, success, fail, Handler, respond, handle, given, Caller, current_user_id,
}

pub record UserResp : Type 0 where
  pub id : ℕ
  pub email : Text
  pub nickname : Text
  pub avatar_url : Text
  pub created_at : Instant
  pub updated_at : Instant

unfoldable pub to_user_resp : User → UserResp
to_user_resp u = record {
  id = u.id;
  email = u.email;
  nickname = u.nickname;
  avatar_url = u.avatar_url;
  created_at = u.created_at;
  updated_at = u.updated_at;
}

pub record LoginReq : Type 0 where
  pub email : Text
  pub password : Text

-- The answer of `toTokenPairResp` has the fields of the pair.
pub record LoginResp : Type 0 where
  pub user : UserResp
  pub token : TokenPair

abbrev email_failure : Error → Response (Unit {0})
email_failure email_code_busy = fail 429 Message.system_email_busy
email_failure send_mail = fail 502 Message.system_mail_fail
email_failure _ = fail 500 Message.system_error

abbrev pub register_failure : Error → Response UserResp
register_failure email_taken = fail 409 (Message.of_error email_taken)
register_failure _ = fail 500 Message.system_error

abbrev pub login_failure : Error → Response LoginResp
login_failure invalid_credentials = fail 401 (Message.of_error invalid_credentials)
login_failure _ = fail 500 Message.system_error

abbrev found_user : Option User → Response UserResp
found_user none = fail 404 Message.no_user
found_user (some u) = success (to_user_resp u)

abbrev pub text_or_empty : Option Text → Text
text_or_empty none = []
text_or_empty (some s) = s

abbrev pub number_or_zero : Option ℕ → ℕ
number_or_zero none = 0
number_or_zero (some n) = n

module _ (p : Platform) where
  unfoldable pub get_email_code : Post → Option Text → Handler (Unit {0})
  get_email_code post body = given body (fail 400 Message.bad_body) λ email.
      handle (send_email_code p post email) (λ _. respond (success tt))
        (λ e. respond (email_failure e))

  -- The end of `Register`, once the code is right: the code is used up.
  unfoldable pub register_user : Collation → Bcrypt → RegisterReq → Handler UserResp
  register_user c b req =
      handle (register p c b req)
        (λ u.
          handle (del_value_by_key p (email_code_key req.email))
            (λ _. respond (success (to_user_resp u))) (λ e. respond (success (to_user_resp u))))
        (λ e. respond (register_failure e))

  -- The code that Redis holds is compared with the given one.
  unfoldable pub check_code : Collation → Bcrypt → RegisterReq → Handler UserResp
  check_code c b req =
      handle (get_value_by_key p (email_code_key req.email))
        (λ code.
          if not (text_eq code req.email_code)
          then respond (fail 400 Message.email_code_err)
          else register_user c b req)
        (λ e. respond (fail 500 Message.system_error))

  unfoldable pub register_handler : Collation → Bcrypt → Option RegisterReq → Handler UserResp
  register_handler c b body = given body (fail 400 Message.bad_body) λ req.
      handle (exists_key p (email_code_key req.email))
        (λ exists.
          if not exists then respond (fail 400 Message.email_not_exist) else check_code c b req)
        (λ e. respond (fail 400 Message.email_not_exist))

  unfoldable pub login_handler : Collation → Bcrypt → Tokens → Option LoginReq → Handler LoginResp
  login_handler c b t body = given body (fail 400 Message.bad_body) λ req.
      handle (login p c b t req.email req.password)
        (λ found. respond (success (record { user = to_user_resp found.0; token = found.1 })))
        (λ e. respond (login_failure e))

  unfoldable pub refresh_handler : Tokens → Option Text → Handler TokenPair
  refresh_handler t body = given body (fail 400 Message.bad_body) λ token.
      handle (refresh p t token) (λ pair. respond (success pair))
        (λ e. respond (fail 401 (Message.of_error e)))

  -- A body that cannot be read is an empty one, and so is a value that the context does not hold.
  unfoldable pub logout_handler : Caller → Option Text → Handler (Unit {0})
  logout_handler caller body =
      handle
        (logout p (number_or_zero caller.user_id) (text_or_empty body) (text_or_empty caller.jti)
          (number_or_zero caller.exp))
        (λ _. respond (success tt)) (λ _. respond (success tt))

  unfoldable pub me : Caller → Handler UserResp
  me caller = given (current_user_id caller) (fail 401 Message.no_login) λ uid.
      handle (get_user_by_id_with_ctx p uid) (λ u. respond (found_user u))
        (λ e. respond (fail 404 Message.no_user))

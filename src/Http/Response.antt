-- ===== src/Http/Response.antt =====
-- internal/dto/response/response.go, and what the handlers share. The envelope of an answer repeats the
-- status; `OK` has the status 200.
use blahaj_chat_server.Common.{
  ℕ, Option, none, some, [], ◌∷◌, ◌==◌, leb, if◌then◌else◌, Text, parse_uint,
}
use blahaj_chat_server.Errors.{Error, Result, ok, err}
use blahaj_chat_server.Model.{Instant, UserId}
use blahaj_chat_server.Platform.{World, M}

-- What a failure says: the text of an error, what `ShouldBindJSON` says of a body, or one of the texts
-- of the code.
pub data Message : Type 0 where
  of_error : Error → Message
  of_token_error : Error → Message
  bad_body lack_conversion_id param_error user_not_login user_message_error : Message
  system_error system_email_busy system_mail_fail email_not_exist email_code_err : Message
  no_login no_user no_token token_refused : Message

-- `OK`, and `Fail` or `Abort`.
pub data Response {ℓ} (A : Type ℓ) : Type ℓ where
  success : A → Response A
  fail : ℕ → Message → Response A

abbrev pub Handler {ℓ} : Type ℓ → Type ℓ
Handler A = World → Response A × World

module _ {ℓ} {A : Type ℓ} where
  abbrev pub respond : Response A → Handler A
  respond r w = (r, w)

module _ {ℓ κ} {A : Type ℓ} {B : Type κ} where
  abbrev pub continue :
      Result A × World → (A → Handler B) → (Error → Handler B) → Response B × World
  continue (ok a, w) good bad = good a w
  continue (err e, w) good bad = bad e w

  -- `x, err := m; if err != nil { bad(err); return }; good(x)`
  abbrev pub handle : M A → (A → Handler B) → (Error → Handler B) → Handler B
  handle m good bad w = continue (m w) good bad

  -- A body or a parameter that may not be there.
  abbrev pub given : Option A → Response B → (A → Handler B) → Handler B
  given none r h = respond r
  given (some a) r h = h a

-- What the middleware has put into the context of gin.
pub record Caller : Type 0 where
  pub user_id : Option UserId
  pub jti : Option Text
  pub exp : Option Instant

-- `currentUserID`; the handlers that do not call it have the same lines.
unfoldable pub current_user_id : Caller → Option UserId
current_user_id c = elim c.user_id [ none ↦ none | some uid ↦ if uid == 0 then none else some uid ]

-- `c.Param("id")`, for the handlers that refuse an empty one.
abbrev pub conv_id_param : Text → Option Text
conv_id_param [] = none
conv_id_param (c ∷ s) = some (c ∷ s)

-- `parseUintQuery`
unfoldable pub parse_uint_query : Text → ℕ → Option ℕ
parse_uint_query [] default = some default
parse_uint_query (c ∷ s) default = parse_uint (c ∷ s)

-- The largest number that `strconv.Atoi` takes after the sign.
abbrev at_most : ℕ → Option ℕ → Option ℕ
at_most bound none = none
at_most bound (some n) = if leb n bound then some n else none

abbrev as_zero : Option ℕ → Option ℕ
as_zero none = none
as_zero (some n) = some 0

-- `strconv.Atoi`, with a number below 0 read as 0.
unfoldable pub atoi : Text → Option ℕ
atoi [] = none
atoi (c ∷ s) =
    if c == b'-'
    then as_zero (at_most 9223372036854775808 (parse_uint s))
    else at_most 9223372036854775807 (parse_uint (if c == b'+' then s else c ∷ s))

-- `parseIntQuery`
unfoldable pub parse_int_query : Text → ℕ → Option ℕ
unfolding atoi
parse_int_query [] default = some default
parse_int_query (c ∷ s) default = atoi (c ∷ s)

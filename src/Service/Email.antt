-- ===== src/Service/Email.antt =====
-- internal/service/email/email.go, with `SixUUID` of pkg/utils/uuid.go. Sending a mail is what a library
-- for SMTP does. The proofs are in the module below.
pub mod Codes
use blahaj_chat_server.Common.{
  ℕ, suc, zero, ◌-◌, ◌%◌, Bool, true, false, Option, none, some, [], ◌∷◌, ◌++◌, if◌then◌else◌, Text,
  codes, format_uint, length,
}
use blahaj_chat_server.Errors.{ok, email_code_busy, send_mail}
use blahaj_chat_server.Platform.{Platform, M, pure, raise, ◌>>=◌, ◌>>◌, guard, tick}
use blahaj_chat_server.Platform.Redis.{set_nx_value_by_key_expire, del_value_by_key}

-- What `rand.Int` draws, and why a mail with a code fails, if it does.

pub record Post : Type 0 where
  pub drawn : ℕ → ℕ
  pub mail_outcome : ℕ → Text → Text → Option ℕ

-- `5 * time.Minute`, in nanoseconds.
abbrev pub email_code_ttl : ℕ
email_code_ttl = 300000000000

unfoldable pub email_code_key : Text → Text
email_code_key email = codes "sendEmailCode:" ++ email

unfoldable pub zeros : ℕ → Text
zeros zero = []
zeros (suc n) = b'0' ∷ zeros n

-- The verb `%06d`.
unfoldable pub format_six : ℕ → Text
unfolding zeros
format_six n = zeros (6 - length (format_uint n)) ++ format_uint n

module _ (p : Platform) (post : Post) where
  -- A number below a million, as `rand.Int` draws it.
  unfoldable pub six_uuid : M Text
  six_uuid w = (ok (format_six (post.drawn w.calls % 1000000)), tick w)

  -- The mail is handed over; the answer is whether that failed.
  unfoldable pub mail_failed : Text → Text → M Bool
  mail_failed email code w = elim (post.mail_outcome w.calls email code) [
    | none ↦ (ok false, tick w)
    | some f ↦ (ok true, tick w)
  ]

  unfoldable pub send_email_code : Text → M (Unit {0})
  send_email_code email = do
    code ← six_uuid
    fresh ← set_nx_value_by_key_expire p (email_code_key email) code email_code_ttl
    guard fresh email_code_busy
    failed ← mail_failed email code
    if failed then del_value_by_key p (email_code_key email) >> raise send_mail else pure tt

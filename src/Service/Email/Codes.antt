-- ===== src/Service/Email/Codes.antt =====
-- email.go: the code that is sent, and what is kept of it.
use blahaj_chat_server.Common.{
  ℕ, suc, ◌+◌, ◌%◌, ◌≡◌, Option, none, some, Text, length, lookup, text_eq_instance,
}
use blahaj_chat_server.Errors.{Result, ok, err, email_code_busy, send_mail}
use blahaj_chat_server.Platform.{Platform, World}
use blahaj_chat_server.Platform.Redis.{live}
use blahaj_chat_server.Service.Email.{
  Post, email_code_ttl, email_code_key, format_six, send_email_code,
}

module _ (p : Platform) (post : Post) (sound : (n : ℕ) → p.redis_outcome n ≡ none) (email : Text)
    (w : World) where
  -- The code that the request draws.
  abbrev pub drawn_code : Text
  drawn_code = format_six (post.drawn w.calls % 1000000)

  -- Redis reads the key one call later.
  abbrev pub key_at : Option Text
  key_at = live (p.clock (suc w.calls)) (email_code_key email) w

  abbrev pub outcome : Result (Unit {0}) × World
  outcome = send_email_code p post email w

  -- The mail with the code went out: no code was held for the address; the code has six characters and is
  -- held for five minutes.
  pub record IsSent : Type 0 where
    pub result : outcome.0 ≡ ok tt
    pub vacant : key_at ≡ none
    pub mailed : post.mail_outcome (suc (suc w.calls)) email drawn_code ≡ none
    pub six : length drawn_code ≡ 6
    pub held :
        lookup (email_code_key email) outcome.1.strings
        ≡ some
            (record { value = drawn_code; expires = some (p.clock (suc w.calls) + email_code_ttl) })

  -- A code was held already, and stays as it was.
  pub record IsBusy : Type 0 where
    pub result : outcome.0 ≡ err email_code_busy
    pub old : Text
    pub present : key_at ≡ some old
    pub strings : outcome.1.strings ≡ w.strings

  -- The mail failed, and no code is held.
  pub record IsFailed : Type 0 where
    pub result : outcome.0 ≡ err send_mail
    pub vacant : key_at ≡ none
    pub given_back : lookup (email_code_key email) outcome.1.strings ≡ none

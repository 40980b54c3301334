-- ===== src/Examples/Tokens.antt =====
-- A refresh and a logout.
use blahaj_chat_server.Common.{
  ℕ, ◌≡◌, ◌≢◌, refl, ap, arith, some, [], ◌∷◌, codes, Text, text_eq, lookup, insert, without,
  parse_uint, parse_digits, none, format_uint, text_eq_instance,
}
use blahaj_chat_server.Errors.{Result, ok, err, invalid_refresh}
use blahaj_chat_server.Platform.{World, Entry, now, new_id}
use blahaj_chat_server.Platform.Reliable.{reliable}
use blahaj_chat_server.Platform.Redis.{command, live, set_value_by_key_expire, del_value_by_key}
use blahaj_chat_server.Service.Auth.{
  Tokens, TokenPair, refresh_key, silently, get_key, set_remove, add_to_set, generate_access_token,
  issue_token_pair, rotate, refresh, logout, logout_all, set_members, delete_tokens, refuse_until,
  blacklist, blacklist_key, user_session_key,
}
use blahaj_chat_server.Service.Auth.Sessions.{logout-refused, refresh-rotates}
use blahaj_chat_server.Service.Auth.Calls.{issuing, none_yet, then_call}
use blahaj_chat_server.Service.Auth.LogoutAll.{logout_all-others}
use blahaj_chat_server.Examples.Fixtures.{small}

abbrev tokens : Tokens
tokens = record {
  sign = λ jti uid issued exp. ok jti;
  access_ttl_minutes = 15;
  refresh_ttl_days = 7;
}

abbrev signed_in : World
signed_in = record small {
  strings = (codes "refresh:a", record { value = codes "2"; expires = some 1000 }) ∷ [];
}

abbrev refreshed : Result TokenPair × World
refreshed = refresh reliable tokens (codes "a") signed_in

abbrev pair : TokenPair
pair = record { access_token = 1003 ∷ []; refresh_token = 1006 ∷ []; expires_in = 900 }

refreshed_ok : refreshed ≡ (ok pair, refreshed.1)
unfolding refresh get_key live lookup refresh_key text_eq parse_uint parse_digits rotate
    del_value_by_key set_remove silently issue_token_pair generate_access_token new_id now
    set_value_by_key_expire add_to_set without insert
refreshed_ok = refl

abbrev first_code : Text → ℕ
first_code [] = 0
first_code (c ∷ s) = c

differ : pair.refresh_token ≢ codes "a"
differ e = let k : ◌≡◌ {A = ℕ} 1006 97 = ap first_code e in absurd (omega arith)

-- Another session has begun since.
abbrev since : World
since = (issue_token_pair reliable tokens 3 refreshed.1).1

kept :
    lookup (refresh_key (codes "a")) since.strings
    ≡ lookup (refresh_key (codes "a")) refreshed.1.strings
unfolding refresh get_key live lookup refresh_key text_eq parse_uint parse_digits rotate
    del_value_by_key set_remove silently issue_token_pair generate_access_token new_id now
    set_value_by_key_expire add_to_set without insert
kept = refl

refresh-rotates_example : (refresh reliable tokens (codes "a") since).0 ≡ err invalid_refresh
refresh-rotates_example =
    (refresh-rotates reliable (λ n. refl) tokens (codes "a") signed_in since {pair = pair}
      {w' = refreshed.1} differ refreshed_ok kept).6

logout-refused_example :
    (refresh reliable tokens
      (codes "a")
      (logout reliable 2 (codes "a") (codes "j") 50 signed_in).1).0
    ≡ err invalid_refresh
logout-refused_example =
    logout-refused reliable (λ n. refl) tokens 2 (codes "a") (codes "j") 50 signed_in (λ e. cc)

abbrev started : World
started = record small { strings = []; sets = [] }

abbrev one_session : World
one_session = (issue_token_pair reliable tokens 1 started).1

abbrev two_sessions : World
two_sessions = (issue_token_pair reliable tokens 2 one_session).1

none_held : (x : Text) → lookup (refresh_key x) started.strings ≡ none
unfolding lookup
none_held x = refl

abbrev second_token : Text
second_token = 1009 ∷ []

abbrev second_entry : Entry
second_entry = record { value = codes "2"; expires = some 604800000000011 }

second_held :
    lookup
      (refresh_key second_token)
      (logout_all reliable 1 (codes "j") 5000 two_sessions).1.strings
    ≡ some second_entry
unfolding issue_token_pair generate_access_token new_id now set_value_by_key_expire add_to_set
    silently refresh_key text_eq lookup insert without logout_all blacklist refuse_until
    delete_tokens set_members command del_value_by_key user_session_key format_uint blacklist_key
second_held = refl

logout_all-others_example :
    (lookup (refresh_key second_token) two_sessions.strings ≡ some second_entry)
    × (second_entry.value ≢ format_uint 1)
logout_all-others_example =
    logout_all-others reliable (λ n. refl) tokens none_held
      (then_call (then_call (none_yet started) (issuing 1 started)) (issuing 2 one_session)) 1
      (codes "j") 5000 second_token second_held

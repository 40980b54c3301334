-- ===== src/Service/Auth/Calls.antt =====
-- auth.go: the operations on sessions, called one after another.
use blahaj_chat_server.Common.{◌≡◌, Text, lookup, text_eq_instance}
use blahaj_chat_server.Model.{Instant, UserId}
use blahaj_chat_server.Platform.{Platform, World}
use blahaj_chat_server.Service.Auth.{
  Tokens, refresh_key, issue_token_pair, refresh, logout, logout_all,
}

module _ (p : Platform) (t : Tokens) where
  -- A call of an operation on sessions, or any other change that leaves the refresh tokens and the
  -- sets of sessions.
  pub data Call : World → World → Type 0 where
    issuing : (uid : UserId) (w : World) → Call w (issue_token_pair p t uid w).1
    refreshing : (token : Text) (w : World) → Call w (refresh p t token w).1
    leaving :
        (uid : UserId) (token jti : Text) (exp : Instant) (w : World)
        → Call w (logout p uid token jti exp w).1
    leaving_all :
        (uid : UserId) (jti : Text) (exp : Instant) (w : World)
        → Call w (logout_all p uid jti exp w).1
    elsewhere :
        {w w' : World}
        → ((x : Text) → lookup (refresh_key x) w'.strings ≡ lookup (refresh_key x) w.strings)
        → w'.sets ≡ w.sets
        → Call w w'

  pub data Calls : World → World → Type 0 where
    none_yet : (w : World) → Calls w w
    then_call : {u v w : World} → Calls u v → Call v w → Calls u w

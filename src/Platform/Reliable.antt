-- ===== src/Platform/Reliable.antt =====
-- A platform on which nothing fails, for runs at concrete inputs.
use blahaj_chat_server.Common.{none, some, ◌+◌, true, [], ◌∷◌}
use blahaj_chat_server.Platform.Defs.{Platform}

abbrev pub reliable : Platform
reliable = record {
  sql_outcome = λ n. none;
  redis_outcome = λ n. none;
  context_outcome = λ n. none;
  clock = λ n. n + 1;
  random_id = λ n. (1000 + n) ∷ [];
  json_valid = λ t. true;
  encode_uids = λ uids. uids;
  decode_uids = λ t. some t;
  encode_user = λ u. [];
  decode_user = λ t. none;
}

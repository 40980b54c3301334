-- ===== src/Examples/Sends.antt =====
-- Two sends with one `client_msg_id`: the second arrives before the first has written.
use blahaj_chat_server.Common.{
  ◌≡◌, ◌≤◌, ◌+◌, refl, ap, Option, Text, true, none, some, [], ◌∷◌, codes, text_eq,
  text_eq_instance, lookup, insert, without, length, format_uint,
}
use blahaj_chat_server.Model.{msg_type_text}
use blahaj_chat_server.Platform.{World, Entry, new_id}
use blahaj_chat_server.Platform.Reliable.{reliable}
use blahaj_chat_server.Platform.Redis.{command, set_nx_value_by_key_expire, live}
use blahaj_chat_server.Service.Chat.{SendData, validate_send_data, is_msg_type, send_idem_key}
use blahaj_chat_server.Service.Chat.Overlap.{
  Holder, Race, race, take_key, arrive, write, IsUnexpired, arriving, writing, SendSteps, start,
  after,
}
use blahaj_chat_server.Service.Chat.Overlap.Once.{SendSteps-once}
use blahaj_chat_server.Examples.Fixtures.{small}

abbrev hello : SendData
hello = record {
  client_msg_id = codes "a";
  conv_id = codes "d";
  type = msg_type_text;
  content = codes "{}";
  reply_to = none;
  mentions = [];
}

valid_hello : validate_send_data reliable hello ≡ true
unfolding validate_send_data is_msg_type text_eq
valid_hello = refl

abbrev quiet : World
quiet = record small { strings = [] }

abbrev first : Race
first = arrive reliable 1 (codes "a") hello (race quiet)

abbrev second : Race
second = arrive reliable 1 (codes "a") hello first

abbrev holder : Holder
holder = record { payload = hello; msg_id = 1000 ∷ [] }

abbrev written : Race
written = write reliable 1 (codes "a") [] holder second

free : lookup (send_idem_key 1 (codes "a")) quiet.strings ≡ none
unfolding lookup
free = refl

free-IsUnexpired : IsUnexpired reliable 1 (codes "a") quiet
unfolding lookup
free-IsUnexpired e h = cc

abbrev value_of : Option Entry → Option Text
value_of none = none
value_of (some e) = some e.value

taken-IsUnexpired : IsUnexpired reliable 1 (codes "a") first.world
unfolding arrive take_key new_id set_nx_value_by_key_expire command live lookup insert without
    send_idem_key text_eq format_uint
taken-IsUnexpired e h = ap value_of h

one_holder : second.holders ≡ holder ∷ []
unfolding arrive take_key new_id set_nx_value_by_key_expire command live lookup insert without
    send_idem_key text_eq format_uint
one_holder = refl

steps : SendSteps reliable 1 (codes "a") (race quiet) written
steps =
    after
      (after (after start (arriving hello refl valid_hello free-IsUnexpired))
        (arriving hello refl valid_hello taken-IsUnexpired))
      (writing [] holder [] one_holder)

SendSteps-once_example : length written.holders + length written.stored ≤ 1
SendSteps-once_example = SendSteps-once reliable 1 (codes "a") (λ n. refl) free steps

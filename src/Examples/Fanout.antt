-- ===== src/Examples/Fanout.antt =====
-- The consumer and the life of the bus.
use blahaj_chat_server.Common.{
  ◌≡◌, refl, true, false, Option, none, some, List, [], ◌∷◌, take, Text,
}
use blahaj_chat_server.Bus.{ChatEvent, Fetched, KafkaBus, new_kafka, consume, close, run}
use blahaj_chat_server.Bus.Consumer.{Caught, fetched, consume-Caught}
use blahaj_chat_server.Bus.Lifecycle.{Call, calls, IsSound, calls-IsSound, calls-closed}

abbrev event : Text → ChatEvent
event t = record { msg_id = t; conv_id = []; targets = 1 ∷ []; frame = t }

-- An empty text is no event.
abbrev decode : Text → Option ChatEvent
decode [] = none
decode (c ∷ t) = some (event (c ∷ t))

abbrev input : List Fetched
input =
    Fetched.message 0 (7 ∷ [])
    ∷ Fetched.message 1 []
    ∷ Fetched.failed false
    ∷ Fetched.message 2 (8 ∷ [])
    ∷ Fetched.canceled
    ∷ []

-- Interrupted after the second event is handled and before its offset is committed.
consume-Caught_example : Caught decode (fetched input) (take 4 (consume decode input))
consume-Caught_example = consume-Caught decode 4 input

calls-IsSound_example : IsSound (
    calls
      (Call.running ∷ Call.running ∷ Call.closing none none ∷ Call.closing none none ∷ [])
      new_kafka)
calls-IsSound_example =
    calls-IsSound
      (Call.running ∷ Call.running ∷ Call.closing none none ∷ Call.closing none none ∷ [])

abbrev shut : KafkaBus
shut = (close none none (run new_kafka)).1

shut_closed : shut.closed ≡ true
unfolding close run
shut_closed = refl

calls-closed_example :
    (calls (Call.publishing none (event []) ∷ Call.running ∷ []) shut).written ≡ shut.written
calls-closed_example =
    (calls-closed (Call.publishing none (event []) ∷ Call.running ∷ []) shut shut_closed).1

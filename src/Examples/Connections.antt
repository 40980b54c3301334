-- ===== src/Examples/Connections.antt =====
-- A hub with two connections.
use blahaj_chat_server.Common.{◌≡◌, refl, [], ◌∷◌, lookup, insert}
use blahaj_chat_server.Ws.Hub.{
  Hub, Envelope, new_hub, connect, add_client, send_to_users, Step, Steps,
}
use blahaj_chat_server.Ws.Hub.Sane.{IsSane}
use blahaj_chat_server.Ws.Hub.Safety.{Steps-IsSane}

abbrev news : Envelope
news = record { targets = 4 ∷ 5 ∷ []; frame = 9 ∷ [] }

abbrev joined : Hub
joined = add_client 0 (record (connect 4 new_hub) { register = [] })

abbrev asked : Hub
asked = record joined { broadcast = news ∷ [] }

abbrev told : Hub
told = send_to_users (4 ∷ 5 ∷ []) (9 ∷ []) joined

waits : (connect 4 new_hub).register ≡ 0 ∷ []
unfolding connect
waits = refl

asked_queue : asked.broadcast ≡ news ∷ []
asked_queue = refl

steps : Steps new_hub told
unfolding add_client lookup connect insert
steps = Steps.more (Step.connecting 4) (
    Steps.more (Step.run_register {c = 0} {more = []} waits) (
      Steps.more (Step.submit news refl)
        (Steps.more (Step.run_broadcast {e = news} {more = []} asked_queue) Steps.stop)))

Steps-IsSane_example : IsSane told
Steps-IsSane_example = Steps-IsSane steps

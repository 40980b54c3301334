-- ===== src/Examples/Pumps.antt =====
-- A write pump that writes a frame and fails at the next one.
use blahaj_chat_server.Common.{true, false, List, [], ◌∷◌}
use blahaj_chat_server.Ws.Pumps.{
  new_pump, PumpEvent, sending, closing, receiving, ticking, write_pumps,
}
use blahaj_chat_server.Ws.Pumps.InOrder.{IsInOrder, write_pumps-IsInOrder}

abbrev events : List PumpEvent
events =
    sending (1 ∷ [])
    ∷ sending (2 ∷ [])
    ∷ receiving true
    ∷ ticking true
    ∷ sending (3 ∷ [])
    ∷ receiving false
    ∷ closing
    ∷ []

write_pumps-IsInOrder_example : IsInOrder (write_pumps events (new_pump 4))
write_pumps-IsInOrder_example = write_pumps-IsInOrder 4 events

-- ===== src/Ws/Pumps/InOrder.antt =====
-- client.go: the write pump writes the frames of its channel in their order.
use blahaj_chat_server.Common.{
  ◌≤◌, ◌≡◌, refl, sym, ◌∙◌, ap, subst, Bool, true, false, List, [], ◌∷◌, ◌++◌, ltb, ltb→lt, Text,
  length, length-append, arith, Bool-cases, inl, inr,
}
use mathlib.Core.List.{append_assoc, append-nil}
use blahaj_chat_server.Model.{UserId}
use blahaj_chat_server.Ws.Hub.{send_buf_size}
use blahaj_chat_server.Ws.Pumps.{
  Pump, new_pump, PumpEvent, sending, closing, receiving, ticking, offer, receive, write_pump,
  write_pumps,
}

-- The frames that the channel took in are those that were written, then one that failed if the pump has
-- stopped, and then those that wait.
pub record IsInOrder (s : Pump) : Type 0 where
  pub kept : s.accepted ≡ s.written ++ s.lost ++ s.client.queue
  pub at_most_one : length s.lost ≤ 1
  pub none_lost : s.runs ≡ true → s.lost ≡ []
  pub bounded : length s.client.queue ≤ send_buf_size

offer-IsInOrder : (frame : Text) (s : Pump) → IsInOrder s → IsInOrder (offer frame s)
unfolding offer
offer-IsInOrder frame s h = elim (Bool-cases s.client.closed) [
  | inl e ↦ let same : offer frame s ≡ s = ground (arith, e) in subst IsInOrder (sym same) h
  | inr e ↦ elim (Bool-cases (ltb (length s.client.queue) send_buf_size)) [
    | inl i ↦
        let put : offer frame s ≡ record s {
          client = record s.client { queue = s.client.queue ++ frame ∷ [] };
          accepted = s.accepted ++ frame ∷ [];
        } =
          ground (arith, e, i) in
        subst IsInOrder (sym put) (record {
          kept =
              ap (λ l. l ++ frame ∷ []) h.kept
              ∙ append_assoc (s.written ++ s.lost) s.client.queue (frame ∷ []);
          at_most_one = h.at_most_one;
          none_lost = h.none_lost;
          bounded = omega (arith, ltb→lt _ _ i, length-append s.client.queue (frame ∷ []));
        })
    | inr i ↦ let same : offer frame s ≡ s = ground (arith, e, i) in subst IsInOrder (sym same) h
  ]
]

-- The first frame that waits, when the pump runs.
first_waiting :
    (frame : Text) (rest : List Text) (s : Pump)
    → s.client.queue ≡ frame ∷ rest
    → s.runs ≡ true
    → IsInOrder s
    → s.accepted ≡ s.written ++ frame ∷ rest
first_waiting frame rest s e runs h =
    h.kept
    ∙ ap (λ l. s.written ++ l ++ s.client.queue) (h.none_lost runs)
    ∙ ap (λ l. l ++ s.client.queue) (append-nil s.written)
    ∙ ap (λ q. s.written ++ q) e

receive-IsInOrder :
    (success : Bool) (queue : List Text) (s : Pump)
    → s.client.queue ≡ queue
    → s.runs ≡ true
    → IsInOrder s
    → IsInOrder (receive success queue s)
unfolding receive
receive-IsInOrder success [] s e runs h = elim (Bool-cases s.client.closed) [
  | inl i ↦
      let stopped : receive success [] s ≡ record s { runs = false } = ground (arith, i) in
      subst IsInOrder (sym stopped) (record {
        kept = h.kept;
        at_most_one = h.at_most_one;
        none_lost = λ k. h.none_lost runs;
        bounded = h.bounded;
      })
  | inr i ↦ let same : receive success [] s ≡ s = ground (arith, i) in subst IsInOrder (sym same) h
]
receive-IsInOrder true (frame ∷ rest) s e runs h = record {
  kept =
      first_waiting frame rest s e runs h
      ∙ sym (append_assoc s.written (frame ∷ []) rest)
      ∙ sym (ap (λ l. l ++ rest) (append-nil (s.written ++ frame ∷ [])))
      ∙ ap (λ l. (s.written ++ frame ∷ []) ++ l ++ rest) (sym (h.none_lost runs));
  at_most_one = h.at_most_one;
  none_lost = h.none_lost;
  bounded = omega (arith, h.bounded, ap length e);
}
receive-IsInOrder false (frame ∷ rest) s e runs h = record {
  kept = first_waiting frame rest s e runs h ∙ sym (append_assoc s.written (frame ∷ []) rest);
  at_most_one = omega arith;
  none_lost = λ k. cc;
  bounded = omega (arith, h.bounded, ap length e);
}

write_pump-IsInOrder : (e : PumpEvent) (s : Pump) → IsInOrder s → IsInOrder (write_pump e s)
unfolding write_pump
write_pump-IsInOrder (sending frame) s h = offer-IsInOrder frame s h
write_pump-IsInOrder closing s h = record {
  kept = h.kept;
  at_most_one = h.at_most_one;
  none_lost = h.none_lost;
  bounded = h.bounded;
}
write_pump-IsInOrder (receiving success) s h = elim (Bool-cases s.runs) [
  | inl e ↦
      let run : write_pump (receiving success) s ≡ receive success s.client.queue s =
        ground (arith, e) in
      subst IsInOrder (sym run) (receive-IsInOrder success s.client.queue s refl e h)
  | inr e ↦
      let same : write_pump (receiving success) s ≡ s = ground (arith, e) in
      subst IsInOrder (sym same) h
]
write_pump-IsInOrder (ticking true) s h = h
write_pump-IsInOrder (ticking false) s h = record {
  kept = h.kept;
  at_most_one = h.at_most_one;
  none_lost = λ k. cc;
  bounded = h.bounded;
}

write_pumps-keeps :
    (events : List PumpEvent) (s : Pump) → IsInOrder s → IsInOrder (write_pumps events s)
unfolding write_pumps
write_pumps-keeps [] s h = h
write_pumps-keeps (e ∷ events) s h =
    write_pumps-keeps events (write_pump e s) (write_pump-IsInOrder e s h)

-- In any order of sends, writes, pings and the close of the channel: the frames that the channel of a new
-- connection has taken in are those that were written, in the same order and each once, then one whose
-- write failed if the pump has stopped, and then those that wait, which are at most 64.
pub write_pumps-IsInOrder :
    (uid : UserId) (events : List PumpEvent) → IsInOrder (write_pumps events (new_pump uid))
write_pumps-IsInOrder uid events = write_pumps-keeps events (new_pump uid) (record {
  kept = refl;
  at_most_one = omega arith;
  none_lost = λ k. refl;
  bounded = omega arith;
})

-- ===== src/Service/Chat/Overlap.antt =====
-- chat.go: sends with one `client_msg_id` that run side by side. A request first asks Redis for the
-- key, and the one that gets it checks the membership and writes later.
pub mod Once
use blahaj_chat_server.Common.{
  ℕ, suc, ◌+◌, ◌≤◌, ◌≡◌, refl, sym, ◌∙◌, ap, subst, Bool, true, false, Option, none, some, List, [],
  ◌∷◌, ◌++◌, ◌⊎◌, inl, inr, Text, codes, text_eq, text_eq_refl, All, length, length-append, lookup,
  insert, lookup-insert, text_eq_instance, arith, if◌then◌else◌,
}
use blahaj_chat_server.Errors.{Error, Result, ok, err, invalid_message}
use blahaj_chat_server.Model.{UserId}
use blahaj_chat_server.Platform.{Platform, World, Entry, M, pure, raise, ◌>>=◌, tick, new_id}
use blahaj_chat_server.Platform.Redis.{command, live, set_nx_value_by_key_expire}
use blahaj_chat_server.Service.Chat.{
  SendData, MsgData, send_idem_key, validate_send_data, client_msg_id_idem_ttl, send_new,
  send_again, handle_send,
}
use blahaj_chat_server.Service.Chat.Keys.{KeyAfter, send_new-KeyAfter}

-- A request that has got the key, with the id of its message.
pub record Holder : Type 0 where
  pub payload : SendData
  pub msg_id : Text

-- The world, the requests that hold the key and have not written yet, and the messages that those that
-- have written have stored.
pub record Race : Type 0 where
  pub world : World
  pub holders : List Holder
  pub stored : List Text

abbrev pub race : World → Race
race w = record { world = w; holders = []; stored = [] }

module _ (p : Platform) (uid : UserId) (id : Text) where
  -- Steps 2 and 3 of `HandleSend`.
  unfoldable pub take_key : M (Text × Bool)
  take_key = do
    msg_id ← new_id p
    fresh ← set_nx_value_by_key_expire p (send_idem_key uid id) msg_id client_msg_id_idem_ttl
    pure (msg_id, fresh)

  abbrev pub after_take : SendData → Race → Result (Text × Bool) × World → Race
  after_take d s (ok (msg_id, fresh), w) = record s {
    world = w;
    holders =
        if fresh then s.holders ++ record { payload = d; msg_id = msg_id } ∷ [] else s.holders;
  }
  after_take d s (err e, w) = record s { world = w }

  unfoldable pub arrive : SendData → Race → Race
  arrive d s = after_take d s (take_key s.world)

  abbrev pub after_write : List Holder → Holder → Race → Result (MsgData × Bool) × World → Race
  after_write others h s (ok r, w) = record {
    world = w;
    holders = others;
    stored = s.stored ++ h.msg_id ∷ [];
  }
  after_write others h s (err e, w) = record { world = w; holders = others; stored = s.stored }

  -- Steps 4 and 5. A send that fails has stored no message.
  unfoldable pub write : List Holder → Holder → Race → Race
  write others h s =
      after_write others h s (send_new p uid h.payload (send_idem_key uid id) h.msg_id s.world)

  -- The key, if Redis has it, has not expired when `SetNX` looks.
  abbrev pub IsUnexpired : World → Type 0
  IsUnexpired w =
      (e : Entry)
      → lookup (send_idem_key uid id) w.strings ≡ some e
      → live (p.clock (suc w.calls)) (send_idem_key uid id) w ≡ some e.value

  -- What happens next: a request arrives, one that holds the key writes, or something else happens
  -- that leaves the key, a wait for a message that is stored included.
  pub data SendStep : Race → Race → Type 0 where
    arriving :
        (d : SendData) {s : Race}
        → d.client_msg_id ≡ id
        → validate_send_data p d ≡ true
        → IsUnexpired s.world
        → SendStep s (arrive d s)
    writing :
        (before : List Holder) (h : Holder) (after : List Holder) {s : Race}
        → s.holders ≡ before ++ h ∷ after
        → SendStep s (write (before ++ after) h s)
    elsewhere :
        {s : Race} {w : World}
        → lookup (send_idem_key uid id) w.strings ≡ lookup (send_idem_key uid id) s.world.strings
        → SendStep s (record s { world = w })

  pub data SendSteps : Race → Race → Type 0 where
    start : {s : Race} → SendSteps s s
    after : {r s t : Race} → SendSteps r s → SendStep s t → SendSteps r t

-- `HandleSend` takes the key, and then writes or waits for the message of another request.
handle_send-take_key :
    (p : Platform) (uid : UserId) (d : SendData) (w : World)
    → validate_send_data p d ≡ true
    → handle_send p uid d w
      ≡ (take_key p uid d.client_msg_id >>= λ taken.
            if taken.1
            then send_new p uid d (send_idem_key uid d.client_msg_id) taken.0
            else send_again p (send_idem_key uid d.client_msg_id))
          w
unfolding handle_send take_key
handle_send-take_key p uid d w valid = ground (arith, valid)

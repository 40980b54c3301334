-- ===== src/Service/Chat/Quiet.antt =====
-- chat.go and read.go: a request that returns an error has changed no row.
use blahaj_chat_server.Common.{
  ℕ, zero, suc, ◌≡◌, true, not, List, [], ◌∷◌, Text, Bool-cases, inl, inr, arith,
}
use blahaj_chat_server.Errors.{Error, invalid_message, not_member}
use blahaj_chat_server.Model.{UserId, Message, Db}
use blahaj_chat_server.Platform.{Platform, World, now, new_id}
use blahaj_chat_server.Platform.Effects.{
  Quiet, Atomic, Kept, quiet_rules, Atomic-bind, Atomic-on_error, Atomic-transaction, Atomic-if,
  Atomic-Quiet, Atomic-on_error-Quiet, Quiet-raise, Quiet-new_id, Quiet-set_nx_value_by_key_expire,
  Quiet-now,
}
use blahaj_chat_server.Dao.Quiet.{dao_quiet, Quiet-is_member}
use blahaj_chat_server.Dao.State.{is_member}
use blahaj_chat_server.Service.Chat.{
  SendData, validate_send_data, message_to_msg_data, wait_50ms, wait_loop, wait_existing_msg_data,
  store_message, new_message, send_new, send_again, give_back, reply_created, store_and_reply,
  handle_send,
}

module _ (p : Platform) where
  Quiet-wait_50ms : Quiet (wait_50ms p)
  unfolding wait_50ms
  Quiet-wait_50ms = record { at = λ w. ground arith }

  Quiet-wait_loop : (n : ℕ) (e : Error) (id : Text) → Quiet (wait_loop p n e id)
  unfolding wait_loop
  Quiet-wait_loop zero e id = search quiet_rules
  Quiet-wait_loop (suc n) e id =
      search (dao_quiet, Quiet-wait_50ms, λ (x : Error). Quiet-wait_loop n x id)

  Quiet-wait_existing_msg_data : (id : Text) → Quiet (wait_existing_msg_data p id)
  unfolding wait_existing_msg_data
  Quiet-wait_existing_msg_data [] = search quiet_rules
  Quiet-wait_existing_msg_data (c ∷ id) = search (quiet_rules, Quiet-wait_loop)

  pub Quiet-send_again : (key : Text) → Quiet (send_again p key)
  unfolding send_again
  Quiet-send_again key = search (quiet_rules, Quiet-wait_existing_msg_data)

  pub Atomic-store_message : (m : Message) → Atomic (store_message p m)
  unfolding store_message
  Atomic-store_message m = Atomic-transaction p _

  Quiet-give_back {ℓ} : {A : Type ℓ} (key : Text) (e : Error) → Quiet (give_back p {A = A} key e)
  unfolding give_back
  Quiet-give_back key e = search quiet_rules

  Kept-reply_created :
      (m : Message) (mentions : List UserId)
      → p.json_valid m.content ≡ true
      → (w : World) (db : Db) → Kept db (reply_created p m mentions w)
  unfolding reply_created message_to_msg_data
  Kept-reply_created m mentions h w db = rw (h, message_to_msg_data) tt

  Atomic-store_and_reply :
      (m : Message) (mentions : List UserId) (key : Text)
      → p.json_valid m.content ≡ true
      → Atomic (store_and_reply p m mentions key)
  unfolding store_and_reply
  Atomic-store_and_reply m mentions key h =
      Atomic-on_error (store_message p m) _ _ (Atomic-store_message m)
        (λ _. Kept-reply_created m mentions h) (Quiet-give_back key)

  Atomic-give_back {ℓ} : {A : Type ℓ} (key : Text) (e : Error) → Atomic (give_back p {A = A} key e)
  Atomic-give_back key e = Atomic-Quiet _ (Quiet-give_back key e)

  Atomic-send_new :
      (uid : UserId) (d : SendData) (key id : Text)
      → p.json_valid d.content ≡ true
      → Atomic (send_new p uid d key id)
  unfolding send_new
  Atomic-send_new uid d key id h =
      Atomic-on_error-Quiet (is_member p uid d.conv_id) _ _ (Quiet-is_member p uid d.conv_id)
        (λ member. Atomic-if (not member) _ _ (Atomic-give_back key not_member) (
          Atomic-bind (now p) _ (Quiet-now p)
            (λ t. Atomic-store_and_reply (new_message uid d id t) d.mentions key h)))
        (Atomic-give_back key)

  pub validated_content :
      (d : SendData) → validate_send_data p d ≡ true → p.json_valid d.content ≡ true
  unfolding validate_send_data
  validated_content d h = ground arith

  -- A send that returns an error, wherever it stops, leaves every table as it was.
  pub handle_send-Atomic : (uid : UserId) (d : SendData) → Atomic (handle_send p uid d)
  unfolding handle_send
  handle_send-Atomic uid d = elim (Bool-cases (validate_send_data p d)) [
    | inl e ↦ rw e (
        Atomic-bind (new_id p) _ (Quiet-new_id p) (λ id.
          Atomic-bind _ _ (Quiet-set_nx_value_by_key_expire p _ id _) (λ fresh.
            Atomic-if fresh _ _ (Atomic-send_new uid d _ id (validated_content d e))
              (Atomic-Quiet _ (Quiet-send_again _)))))
    | inr e ↦ rw e (Atomic-Quiet _ (Quiet-raise invalid_message))
  ]

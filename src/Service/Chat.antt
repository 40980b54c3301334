-- ===== src/Service/Chat.antt =====
-- internal/service/chat: sending a message (chat.go) and reporting what has been read (read.go). The
-- payloads are those of internal/dto/wspayload/chat.go. The proofs are in the modules below.
pub mod Quiet
pub mod Effect
pub mod Idempotence
pub mod Retry
pub mod Read
pub mod Keys
pub mod Overlap
use blahaj_chat_server.Common.{
  ℕ, zero, suc, ◌≡◌, Bool, true, false, ◌&&◌, ◌||◌, not, Option, none, some, List, [], ◌∷◌, ◌++◌,
  ◌==◌, if◌then◌else◌, Text, codes, text_eq, format_uint,
}
use blahaj_chat_server.Errors.{
  Error, Result, ok, err, invalid_message, not_member, msg_not_found, is_msg_not_found, fault,
}
use blahaj_chat_server.Model.{
  Instant, UserId, Message, unix_milli, msg_type_text, msg_type_image, msg_type_file,
  msg_type_audio, msg_status_normal,
}
use blahaj_chat_server.Platform.{
  Platform, World, M, pure, raise, ◌>>=◌, ◌>>◌, on_error, guard, now, new_id, tick,
}
use blahaj_chat_server.Platform.Sql.{transaction}
use blahaj_chat_server.Platform.Redis.{
  get_value_by_key, set_nx_value_by_key_expire, del_value_by_key,
}
use blahaj_chat_server.Dao.State.{is_member, incr_unread_except, update_last_read}
use blahaj_chat_server.Dao.Conversation.{update_last_msg}
use blahaj_chat_server.Dao.Message.{create_message, get_message_by_id}

pub record SendData : Type 0 where
  pub client_msg_id : Text
  pub conv_id : Text
  pub type : Text
  pub content : Text
  pub reply_to : Option Text
  pub mentions : List UserId

pub record ReadData : Type 0 where
  pub conv_id : Text
  pub msg_id : Text

pub record MsgData : Type 0 where
  pub msg_id : Text
  pub conv_id : Text
  pub from_uid : UserId
  pub type : Text
  pub content : Text
  pub reply_to : Option Text
  pub mentions : List UserId
  pub created_at : ℕ

-- `24 * time.Hour`, in nanoseconds.
abbrev pub client_msg_id_idem_ttl : ℕ
client_msg_id_idem_ttl = 86400000000000

abbrev pub is_empty : Text → Bool
is_empty [] = true
is_empty (c ∷ s) = false

unfoldable pub send_idem_key : UserId → Text → Text
send_idem_key uid client_msg_id =
    codes "clientMessageKey:" ++ format_uint uid ++ b':' ∷ client_msg_id

unfoldable pub is_msg_type : Text → Bool
is_msg_type t =
    text_eq t msg_type_text
    || text_eq t msg_type_image
    || text_eq t msg_type_file
    || text_eq t msg_type_audio

-- `context.DeadlineExceeded` and `context.Canceled`, as `ctx.Err()` gives them.
abbrev ctx_err : ℕ → Error
ctx_err = fault

abbrev pub lift {ℓ} : {A : Type ℓ} → Result A → M A
lift r w = (r, w)

abbrev pub new_message : UserId → SendData → Text → Instant → Message
new_message uid d msg_id t = record {
  id = 0;
  msg_id = msg_id;
  conv_id = d.conv_id;
  created_at = t;
  from_uid = uid;
  type = d.type;
  content = d.content;
  reply_to = d.reply_to;
  status = msg_status_normal;
}

-- The literal at the end of `messageToMsgData`.
abbrev pub msg_data_of : Message → List UserId → MsgData
msg_data_of m mentions = record {
  msg_id = m.msg_id;
  conv_id = m.conv_id;
  from_uid = m.from_uid;
  type = m.type;
  content = m.content;
  reply_to = m.reply_to;
  mentions = mentions;
  created_at = unix_milli m.created_at;
}

module _ (p : Platform) where
  unfoldable pub validate_send_data : SendData → Bool
  validate_send_data d =
      not (is_empty d.client_msg_id || is_empty d.conv_id || is_empty d.type || is_empty d.content)
      && is_msg_type d.type
      && p.json_valid d.content

  unfoldable pub message_to_msg_data : Message → List UserId → Result MsgData
  message_to_msg_data m mentions =
      if p.json_valid m.content then ok (msg_data_of m mentions) else err invalid_message

  -- `select` on the context and a timer of 50 ms: whichever comes first.
  unfoldable pub wait_50ms : M (Unit {0})
  wait_50ms w = elim (p.context_outcome w.calls) [
    | none ↦ (ok tt, tick w)
    | some f ↦ (err (ctx_err f), tick w)
  ]

  -- The loop of `waitExistingMsgData`: so many tries are left, and `last` is `lastErr`.
  unfoldable pub wait_loop : ℕ → Error → Text → M MsgData
  wait_loop zero last msg_id = raise last
  wait_loop (suc n) last msg_id =
      on_error (get_message_by_id p msg_id) (λ m. lift (message_to_msg_data m []))
        λ e. if is_msg_not_found e then wait_50ms >>= (λ _. wait_loop n e msg_id) else raise e

  unfoldable pub wait_existing_msg_data : Text → M MsgData
  wait_existing_msg_data [] = raise msg_not_found
  wait_existing_msg_data (c ∷ id) = wait_loop 3 msg_not_found (c ∷ id)

  -- The rows that a new message changes, in one transaction.
  unfoldable pub store_message : Message → M (Unit {0})
  store_message m = transaction p do
    create_message p m
    update_last_msg p m.conv_id m.msg_id m.created_at
    incr_unread_except p m.conv_id m.from_uid

  -- `redis.DelValueByKey(key); return nil, false, err`
  unfoldable pub give_back {ℓ} : {A : Type ℓ} → Text → Error → M A
  give_back key e = del_value_by_key p key >> raise e

  unfoldable pub reply_created : Message → List UserId → M (MsgData × Bool)
  reply_created m mentions = do reply ← lift (message_to_msg_data m mentions); pure (reply, true)

  unfoldable pub store_and_reply : Message → List UserId → Text → M (MsgData × Bool)
  store_and_reply m mentions key =
      on_error (store_message m) (λ _. reply_created m mentions) (give_back key)

  -- Steps 4 and 5: a failure gives the idempotency key back.
  unfoldable pub send_new : UserId → SendData → Text → Text → M (MsgData × Bool)
  send_new uid d key msg_id =
      on_error (is_member p uid d.conv_id)
        (λ member.
          if not member
          then give_back key not_member
          else (do t ← now p; store_and_reply (new_message uid d msg_id t) d.mentions key))
        (give_back key)

  unfoldable pub send_again : Text → M (MsgData × Bool)
  send_again key = do
    old_msg_id ← get_value_by_key p key
    reply ← wait_existing_msg_data old_msg_id
    pure (reply, false)

  unfoldable pub handle_send : UserId → SendData → M (MsgData × Bool)
  handle_send uid d =
      if not (validate_send_data d)
      then raise invalid_message
      else let key = send_idem_key uid d.client_msg_id in
        do
          msg_id ← new_id p
          fresh ← set_nx_value_by_key_expire p key msg_id client_msg_id_idem_ttl
          if fresh then send_new uid d key msg_id else send_again key

  unfoldable pub handle_read : UserId → ReadData → M (Unit {0})
  handle_read uid d = if is_empty d.conv_id || is_empty d.msg_id then raise invalid_message else do
    member ← is_member p uid d.conv_id
    guard member not_member
    msg ← get_message_by_id p d.msg_id
    guard (text_eq msg.conv_id d.conv_id) invalid_message
    update_last_read p uid d.conv_id d.msg_id

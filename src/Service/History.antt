-- ===== src/Service/History.antt =====
-- `GetHistoryMessageByID` of internal/service/conversation/conversation.go: pages of a conversation's
-- messages. The proofs are in the modules below.
pub mod Pages
pub mod Walk
use blahaj_chat_server.Common.{
  ℕ, zero, suc, ◌+◌, ◌≡◌, Bool, true, false, ◌&&◌, ◌||◌, not, Option, none, some, List, [], ◌∷◌,
  ◌++◌, ◌==◌, ltb, if◌then◌else◌, Text, take, length, reverse, any, map,
}
use blahaj_chat_server.Errors.{Error, Result, ok, err, not_member, invalid_message}
use blahaj_chat_server.Model.{UserId, Message, Db, unix_milli}
use blahaj_chat_server.Platform.{Platform, M, pure, raise, ◌>>=◌, ◌>>◌, guard}
use blahaj_chat_server.Dao.State.{is_member}
use blahaj_chat_server.Dao.Message.{list_message_by_conv_id}

-- `response.MessageResp` of internal/dto/response/conversation.go.
pub record MessageResp : Type 0 where
  pub id : ℕ
  pub msg_id : Text
  pub conv_id : Text
  pub from_uid : UserId
  pub type : Text
  pub content : Text
  pub reply_to : Option Text
  pub status : ℕ
  pub created_at : ℕ

-- `response.MessageListResp`
pub record MessageListResp : Type 0 where
  pub items : List MessageResp
  pub next_before_id : ℕ
  pub has_more : Bool

abbrev pub to_message_resp : Message → MessageResp
to_message_resp m = record {
  id = m.id;
  msg_id = m.msg_id;
  conv_id = m.conv_id;
  from_uid = m.from_uid;
  type = m.type;
  content = m.content;
  reply_to = m.reply_to;
  status = m.status;
  created_at = unix_milli m.created_at;
}

-- The bounds that the service sets on `limit`; a limit below 0 reads like 0.
unfoldable pub page_limit : ℕ → ℕ
page_limit limit =
    let positive = if limit == 0 then 20 else limit in if ltb 100 positive then 100 else positive

-- `msgs[len(msgs)-1].ID`, or 0 for no message.
abbrev pub last_id : List Message → ℕ
last_id [] = 0
last_id (m ∷ []) = m.id
last_id (m ∷ n ∷ ms) = last_id (n ∷ ms)

-- The page of the messages that the query has found, which are at most one more than the limit.
unfoldable pub page_of : ℕ → List Message → MessageListResp
page_of limit msgs =
    let more = ltb limit (length msgs) in
    let page = if more then take limit msgs else msgs in
    record {
      items = map to_message_resp (reverse page);
      next_before_id = last_id page;
      has_more = more;
    }

module _ (p : Platform) where
  -- One message whose content is no JSON fails the page. The loop meets only those on the page.
  unfoldable pub all_valid : List Message → Bool
  all_valid [] = true
  all_valid (m ∷ ms) = p.json_valid m.content && all_valid ms

  unfoldable pub page_or_error : ℕ → List Message → Result MessageListResp
  page_or_error limit msgs =
      if all_valid (if ltb limit (length msgs) then take limit msgs else msgs)
      then ok (page_of limit msgs)
      else err invalid_message

  abbrev lift : Result MessageListResp → M MessageListResp
  lift r w = (r, w)

  unfoldable pub get_history_message_by_id : UserId → Text → ℕ → ℕ → M MessageListResp
  get_history_message_by_id uid conv_id before_id limit = do
    member ← is_member p uid conv_id
    guard member not_member
    msgs ← list_message_by_conv_id p conv_id before_id (page_limit limit + 1)
    lift (page_or_error (page_limit limit) msgs)

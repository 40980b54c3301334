-- ===== src/Dao/Message.antt =====
-- internal/dao/message.go.
use blahaj_chat_server.Common.{
  ℕ, suc, Bool, true, ◌&&◌, List, ltb, ◌==◌, if◌then◌else◌, Text, text_eq, filter, head?, take,
  sort_by,
}
use blahaj_chat_server.Errors.{Result, ok, err, msg_not_found, is_record_not_found}
use blahaj_chat_server.Model.{Instant, UserId, Db}
use blahaj_chat_server.Model
use blahaj_chat_server.Platform.{Platform, M, pure, raise, on_error}
use blahaj_chat_server.Platform.Sql.{query, statement, create, first}

-- The unique key `uk_msg_id`.
abbrev message_clash : Model.Message → Model.Message → Bool
message_clash a b = text_eq a.msg_id b.msg_id

-- A new row has the next id.
unfoldable pub insert_message : Model.Message → Db → Result (Unit {0} × Db)
insert_message m db = elim (create message_clash (record m { id = db.next_message }) db.messages) [
  | err e ↦ err e
  | ok rows ↦ ok (tt, record db { messages = rows; next_message = suc db.next_message })
]

-- `Where("msg_id = ?", msgID).First(&msg)`, for an id as the server has issued it: the collation of the
-- table takes other spellings of its letters too.
unfoldable pub find_message : Text → Db → Result Model.Message
find_message msg_id db =
    first (head? (filter (λ (m : Model.Message). text_eq m.msg_id msg_id) db.messages))

-- `ORDER BY id DESC`
abbrev pub newer : Model.Message → Model.Message → Bool
newer a b = ltb b.id a.id

-- The bounds that `ListMessageByConvID` sets on `limit`.
unfoldable pub message_limit : ℕ → ℕ
message_limit limit =
    let positive = if limit == 0 then 20 else limit in if ltb 100 positive then 100 else positive

abbrev pub is_before : ℕ → ℕ → Bool
is_before before_id id = if ltb 0 before_id then ltb id before_id else true

abbrev pub in_history : Text → ℕ → Model.Message → Bool
in_history conv_id before_id m = text_eq m.conv_id conv_id && is_before before_id m.id

unfoldable pub select_messages : Text → ℕ → ℕ → Db → List Model.Message
select_messages conv_id before_id limit db =
    take (message_limit limit) (sort_by newer (filter (in_history conv_id before_id) db.messages))

module _ (p : Platform) where
  unfoldable pub create_message : Model.Message → M (Unit {0})
  create_message m = statement p (insert_message m)

  -- A negative limit of the source reads like 0 here: both are `limit <= 0`.
  unfoldable pub list_message_by_conv_id : Text → ℕ → ℕ → M (List Model.Message)
  list_message_by_conv_id conv_id before_id limit =
      query p λ db. ok (select_messages conv_id before_id limit db)

  unfoldable pub get_message_by_id : Text → M Model.Message
  get_message_by_id msg_id =
      on_error (query p (find_message msg_id)) pure
        λ e. if is_record_not_found e then raise msg_not_found else raise e

-- ===== src/Dao/Conversation.antt =====
-- internal/dao/conversation.go.
use blahaj_chat_server.Common.{
  Bool, false, ◌&&◌, ◌||◌, Option, none, some, List, [], ◌∷◌, leb, ◌==◌, if◌then◌else◌, Text,
  text_eq, filter, head?, any, map_where, Dict, insert, text_eq_instance,
}
use blahaj_chat_server.Errors.{Error, Result, ok, err, found_c2c_pair, is_record_not_found}
use blahaj_chat_server.Model.{Instant, UserId, ConversationState, Db, conv_type_c2c}
use blahaj_chat_server.Model
use blahaj_chat_server.Platform.{Platform, M, pure, raise, ◌>>=◌, ◌>>◌, on_error, now, new_id}
use blahaj_chat_server.Platform.Sql.{query, statement, transaction, first, create}
use blahaj_chat_server.Dao.Peer.{make_peer_key}
use blahaj_chat_server.Dao.State.{ensure_conversation_states, create_conversation_states}

-- `GetConvByID` is in Dao/State, which this file's `GetOrCreateC2CTx` uses as well.
abbrev same_peer : Option Text → Option Text → Bool
same_peer (some j) (some k) = text_eq j k
same_peer _ _ = false

-- The primary key and the unique key on `peer_key`, which rows with no `peer_key` do not share.
unfoldable pub conversation_clash : Model.Conversation → Model.Conversation → Bool
conversation_clash a b = text_eq a.conv_id b.conv_id || same_peer a.peer_key b.peer_key

unfoldable pub insert_conversation : Model.Conversation → Db → Result (Unit {0} × Db)
insert_conversation conv db = elim (create conversation_clash conv db.conversations) [
  | err e ↦ err e
  | ok rows ↦ ok (tt, record db { conversations = rows })
]

abbrev pub has_peer_key : Text → Model.Conversation → Bool
has_peer_key key c = elim c.peer_key [ none ↦ false | some k ↦ text_eq k key ]

-- `Where("peer_key = ?", peerKey).First(&conv)`
unfoldable pub find_by_peer_key : Text → Db → Result Model.Conversation
find_by_peer_key key db = first (head? (filter (has_peer_key key) db.conversations))

unfoldable pub index_convs :
    List Model.Conversation → Dict Text Model.Conversation → Dict Text Model.Conversation
index_convs [] m = m
index_convs (c ∷ cs) m = index_convs cs (insert c.conv_id c m)

abbrev text_in : List Text → Text → Bool
text_in ids k = any (text_eq k) ids

-- What `UpdateLastMsgTx` writes to the rows.
unfoldable pub set_last_msg : Text → Text → Instant → Db → Db
set_last_msg conv_id msg_id ts db = record db {
  conversations =
      map_where (λ (c : Model.Conversation). text_eq c.conv_id conv_id && leb c.last_msg_at ts)
        (λ c. record c { last_msg_id = msg_id; last_msg_at = ts }) db.conversations;
}

abbrev pub pair_states : UserId → UserId → Text → List (UserId × Text)
pair_states a b conv_id = (a, conv_id) ∷ (b, conv_id) ∷ []

-- The conversation that `GetOrCreateC2CTx` builds for the two.
abbrev pub new_c2c : Text → Text → Instant → Model.Conversation
new_c2c id key t = record {
  conv_id = id;
  type = conv_type_c2c;
  peer_key = some key;
  name = [];
  avatar = [];
  owner_id = 0;
  last_msg_id = [];
  last_msg_at = t;
}

module _ (p : Platform) where
  unfoldable pub get_convs_by_ids : List Text → M (Dict Text Model.Conversation)
  get_convs_by_ids [] = pure []
  get_convs_by_ids (id ∷ ids) = query p λ db. ok (
      index_convs
        (filter (λ (c : Model.Conversation). text_in (id ∷ ids) c.conv_id) db.conversations) [])

  unfoldable pub create_conversation : Model.Conversation → M (Unit {0})
  create_conversation conv = statement p (insert_conversation conv)

  -- The closure `create` of `GetOrCreateC2CTx`.
  unfoldable pub create_c2c : UserId → UserId → Text → Model.Conversation → M Model.Conversation
  create_c2c a b key conv =
      on_error (create_conversation conv)
        (λ _. do create_conversation_states p (pair_states a b conv.conv_id); pure conv)
        λ e.
          on_error (query p (find_by_peer_key key))
            (λ existing. do
              ensure_conversation_states p (pair_states a b existing.conv_id)
              pure existing)
            (λ _. raise e)

  -- What `GetOrCreateC2CTx` does when its query for the conversation fails.
  unfoldable pub create_missing : Bool → UserId → UserId → Text → Error → M Model.Conversation
  create_missing in_tx a b key e =
      if is_record_not_found e
      then (do
        id ← new_id p
        t ← now p
        let create = create_c2c a b key (new_c2c id key t)
        if in_tx then create else transaction p create)
      else raise e

  -- `GetOrCreateC2CTx`; the flag says whether the caller has a transaction open.
  unfoldable pub get_or_create_c2c_tx : Bool → UserId → UserId → M Model.Conversation
  get_or_create_c2c_tx in_tx a b =
      if a == 0 || b == 0 || a == b
      then raise found_c2c_pair
      else let key = make_peer_key a b in
        on_error (query p (find_by_peer_key key))
          (λ conv. do ensure_conversation_states p (pair_states a b conv.conv_id); pure conv)
          (create_missing in_tx a b key)

  -- `GetOrCreateC2C`
  unfoldable pub get_or_create_c2c : UserId → UserId → M Model.Conversation
  get_or_create_c2c a b = get_or_create_c2c_tx false a b

  unfoldable pub update_last_msg : Text → Text → Instant → M (Unit {0})
  update_last_msg conv_id msg_id ts = statement p λ db. ok (tt, set_last_msg conv_id msg_id ts db)

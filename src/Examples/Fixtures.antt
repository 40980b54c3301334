-- ===== src/Examples/Fixtures.antt =====
-- A small database: users 1 and 2 with a conversation of their own, a group of 1, 2 and 5, and no
-- cache.
use blahaj_chat_server.Common.{ℕ, false, none, some, [], ◌∷◌, codes, Text}
use blahaj_chat_server.Model.{
  Db, User, Conversation, ConversationState, GroupInfo, Message, empty_db, conv_type_c2c,
  conv_type_group, msg_type_text,
}
use blahaj_chat_server.Platform.{World}

abbrev pub direct : Conversation
direct = record {
  conv_id = codes "d";
  type = conv_type_c2c;
  peer_key = some (codes "1_2");
  name = [];
  avatar = [];
  owner_id = 0;
  last_msg_id = [];
  last_msg_at = 0;
}

abbrev pub trio : Conversation
trio = record {
  conv_id = codes "g";
  type = conv_type_group;
  peer_key = none;
  name = codes "trio";
  avatar = [];
  owner_id = 1;
  last_msg_id = [];
  last_msg_at = 0;
}

abbrev pub trio_info : GroupInfo
trio_info = record {
  conv_id = codes "g";
  name = codes "trio";
  avatar = [];
  owner_id = 1;
  members = 1 ∷ 2 ∷ 5 ∷ [];
  member_count = 3;
  updated_at = 0;
}

abbrev pub state_of : ℕ → Text → ConversationState
state_of uid conv_id = record {
  uid = uid;
  conv_id = conv_id;
  last_read_msg_id = [];
  unread = 0;
  pinned = false;
  muted = false;
}

abbrev pub user_of : ℕ → User
user_of id = record {
  id = id;
  email = id ∷ [];
  password = [];
  nickname = [];
  avatar_url = [];
  created_at = 0;
  updated_at = 0;
}

abbrev pub message_of : ℕ → Message
message_of id = record {
  id = id;
  msg_id = id ∷ [];
  conv_id = codes "d";
  created_at = id;
  from_uid = 1;
  type = msg_type_text;
  content = codes "{}";
  reply_to = none;
  status = 0;
}

abbrev pub small_db : Db
small_db = record empty_db {
  users = user_of 1 ∷ user_of 2 ∷ user_of 5 ∷ user_of 7 ∷ [];
  conversations = direct ∷ trio ∷ [];
  group_infos = trio_info ∷ [];
  conversation_states =
      state_of 1 (codes "d")
      ∷ state_of 2 (codes "d")
      ∷ state_of 1 (codes "g")
      ∷ state_of 2 (codes "g")
      ∷ state_of 5 (codes "g")
      ∷ [];
  messages = message_of 3 ∷ message_of 4 ∷ message_of 6 ∷ [];
  next_message = 7;
  next_user = 8;
}

abbrev pub small : World
small = record { db = small_db; strings = []; sets = []; calls = 0 }

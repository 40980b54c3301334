-- ===== src/Model.antt =====
-- internal/model: the rows of the tables, with their columns, and the database as a record of them.
-- An instant is the number of nanoseconds since Go's zero time; ids are of 64 bits. `CreatedAt`
-- and `UpdatedAt` stand where the code reads them.
use blahaj_chat_server.Common.{ℕ, ◌-◌, ◌/◌, ◌==◌, Bool, Option, List, [], Text, codes}

abbrev pub Instant : Type 0
Instant = ℕ

abbrev pub UserId : Type 0
UserId = ℕ

-- Milliseconds from the zero time to the Unix epoch.
abbrev pub unix_epoch_milli : ℕ
unix_epoch_milli = 62135596800000

-- `t.UnixMilli()` of an instant that is not before 1970.
abbrev pub unix_milli : Instant → ℕ
unix_milli t = t / 1000000 - unix_epoch_milli

-- `t.IsZero()`
abbrev pub is_zero : Instant → Bool
is_zero t = t == 0

abbrev pub conv_type_c2c : Text
conv_type_c2c = codes "c2c"

abbrev pub conv_type_group : Text
conv_type_group = codes "group"

abbrev pub friendship_status_normal : Text
friendship_status_normal = codes "normal"

abbrev pub friendship_status_deleted : Text
friendship_status_deleted = codes "deleted"

abbrev pub friend_apply_status_pending : Text
friend_apply_status_pending = codes "pending"

abbrev pub friend_apply_status_accepted : Text
friend_apply_status_accepted = codes "accepted"

abbrev pub friend_apply_status_rejected : Text
friend_apply_status_rejected = codes "rejected"

abbrev pub msg_type_text : Text
msg_type_text = codes "text"

abbrev pub msg_type_image : Text
msg_type_image = codes "image"

abbrev pub msg_type_file : Text
msg_type_file = codes "file"

abbrev pub msg_type_audio : Text
msg_type_audio = codes "audio"

abbrev pub msg_status_normal : ℕ
msg_status_normal = 0

pub record User : Type 0 where
  pub id : ℕ
  pub email : Text
  pub password : Text
  pub nickname : Text
  pub avatar_url : Text
  pub created_at : Instant
  pub updated_at : Instant

pub record Block : Type 0 where
  pub uid : UserId
  pub blocked_uid : UserId

pub record Friendship : Type 0 where
  pub uid_a : UserId
  pub uid_b : UserId
  pub status : Text
  pub updated_at : Instant

pub record FriendApply : Type 0 where
  pub id : ℕ
  pub from_uid : UserId
  pub to_uid : UserId
  pub status : Text
  pub reason : Text
  pub handled_at : Option Instant
  pub created_at : Instant

pub record Conversation : Type 0 where
  pub conv_id : Text
  pub type : Text
  pub peer_key : Option Text
  pub name : Text
  pub avatar : Text
  pub owner_id : UserId
  pub last_msg_id : Text
  pub last_msg_at : Instant

pub record GroupInfo : Type 0 where
  pub conv_id : Text
  pub name : Text
  pub avatar : Text
  pub owner_id : UserId
  pub members : Text
  pub member_count : ℕ
  pub updated_at : Instant

pub record ConversationState : Type 0 where
  pub uid : UserId
  pub conv_id : Text
  pub last_read_msg_id : Text
  pub unread : ℕ
  pub pinned : Bool
  pub muted : Bool

pub record Message : Type 0 where
  pub id : ℕ
  pub msg_id : Text
  pub conv_id : Text
  pub created_at : Instant
  pub from_uid : UserId
  pub type : Text
  pub content : Text
  pub reply_to : Option Text
  pub status : ℕ

-- The rows of each table, and the next id of the tables whose rows the code Finds by their id.
pub record Db : Type 0 where
  pub users : List User
  pub next_user : ℕ
  pub blocks : List Block
  pub friendships : List Friendship
  pub friend_applies : List FriendApply
  pub next_friend_apply : ℕ
  pub conversations : List Conversation
  pub group_infos : List GroupInfo
  pub conversation_states : List ConversationState
  pub messages : List Message
  pub next_message : ℕ

abbrev pub empty_db : Db
empty_db = record {
  users = [];
  next_user = 1;
  blocks = [];
  friendships = [];
  friend_applies = [];
  next_friend_apply = 1;
  conversations = [];
  group_infos = [];
  conversation_states = [];
  messages = [];
  next_message = 1;
}

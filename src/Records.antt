-- ===== src/Records.antt =====
-- The plain structures of the server: `UserInfo` (protocol/message_types.h), `StoredMessage`,
-- `ChannelInfo` and `FriendRequestRecord` (src/server/include/lanchat/server/db/).
use lan_chat_next.Prelude.{String, Bool, false, ℤ, pos}

pub record UserInfo : Type 0 where
  pub id : ℤ
  pub password : String
  pub nickname : String
  pub avatar_id : ℤ

pub record StoredMessage : Type 0 where
  pub msg_id : ℤ
  pub from_id : ℤ
  pub to_id : ℤ
  pub group_id : ℤ
  pub content : String
  pub content_type : String
  pub timestamp : ℤ
  pub delivered : Bool
  pub read : Bool
  pub edited : Bool
  pub deleted : Bool
  pub edited_at : ℤ
  pub deleted_at : ℤ
  pub reactions : String

-- The default member initializers.
abbrev pub blank_message : StoredMessage
blank_message = record {
  msg_id = pos 0;
  from_id = pos 0;
  to_id = pos 0;
  group_id = pos 0;
  content = "";
  content_type = "text";
  timestamp = pos 0;
  delivered = false;
  read = false;
  edited = false;
  deleted = false;
  edited_at = pos 0;
  deleted_at = pos 0;
  reactions = "";
}

pub record ChannelInfo : Type 0 where
  pub group_id : ℤ
  pub host_id : ℤ
  pub name : String

pub record FriendRequestRecord : Type 0 where
  pub from_uid : ℤ
  pub to_uid : ℤ
  pub status : String
  pub request_msg : String

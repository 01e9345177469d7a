-- ===== src/Samples.antt =====
-- Concrete data, on which the theorems of the other modules are applied.
pub mod Sorting
pub mod Transport
pub mod Pooling
pub mod Messages
pub mod Relations
pub mod Serving
pub mod Texts
pub mod Starting
use lan_chat_next.Prelude.{
  String, true, none, some, List, [], ◌∷◌, pos, ◌==◌, string_eq, if◌then◌else◌,
}
use lan_chat_next.Json.{Value, Object, put}
use lan_chat_next.Records.{StoredMessage, blank_message}
use lan_chat_next.Env.{Env}
use lan_chat_next.Database.{Row, Friendship, Database}
use lan_chat_next.MessageRepository.{to_row}
use lan_chat_next.AsyncSession.{new_session}
use lan_chat_next.SessionPool.{Sessions}
use lan_chat_next.Server.{Server}
use lan_chat_next.Samples.Sorting.{sorted}

abbrev pub hello : StoredMessage
hello = record blank_message {
  msg_id = pos 7;
  from_id = pos 1001;
  to_id = pos 1002;
  content = "hello";
  timestamp = pos 50;
}

abbrev pub message_rows : List Row
message_rows = to_row hello ∷ []

abbrev pub group_rows : List Row
group_rows = put "group_id" (Value.int (pos 2001)) (put "name" (Value.str "team") Object.end) ∷ []

abbrev pub user_rows : List Row
user_rows =
    put "avatar_id" (Value.int (pos 0)) (
      put "nickname" (Value.str "ann")
        (put "password_hash" (Value.str "$2b$A") (put "id" (Value.int (pos 1001)) Object.end)))
    ∷ []

-- No doubles, a crypt with two hashes, and an exact sort.
abbrev pub sample_env : Env
sample_env = record {
  stod = λ text. none;
  show_double = λ bits. [];
  crypt_gensalt_rn = λ prefix cost entropy. some "$2b$";
  crypt_rn = λ key setting. some (if key == "secret" then "$2b$A" else "$2b$B");
  mt19937 = λ i. i;
  mt19937_64 = λ i. i;
  sort_by_timestamp = sorted;
  now = pos 1000;
  steady_now = 5;
}

abbrev pub pending_friend : Friendship
pending_friend = record {
  from_uid = pos 1001;
  to_uid = pos 1002;
  status = "pending";
  request_msg = "hi";
  created_at = pos 1;
  updated_at = pos 1;
}

abbrev pub sample_db : Database
sample_db = record {
  tables = λ name.
      if name == "messages"
      then some message_rows
      else if name == "groups"
      then some group_rows
      else if name == "users"
      then some user_rows
      else if name == "group_members"
      then some []
      else none;
  disk = λ name. some [];
  friendships = some (pending_friend ∷ []);
}

-- Two sessions of the pool, neither signed in.
abbrev pub sample_pool : Sessions
sample_pool = record {
  heap = λ id. new_session id 0;
  max_connections = 10;
  sessions = 1 ∷ 2 ∷ [];
  user_to_session = λ user. none;
}

abbrev pub sample_server : Server
sample_server = record { db = sample_db; sessions = sample_pool; presence = []; next_id = 3 }

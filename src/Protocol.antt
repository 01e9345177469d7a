-- ===== src/Protocol.antt =====
-- protocol/message_types.h: the message types and their numbers.
pub mod Numbers
use lan_chat_next.Prelude.{
  ℕ, zero, suc, ◌≡◌, refl, Bool, ◌&&◌, true, false, List, [], ◌∷◌, ℤ, pos, negsuc, leb, lt_int, not,
  arith, if◌then◌else◌,
}

-- `enum class MsgType`, and the value -1 that `fromInt` casts to.
pub data MsgType : Type 0 where
  register_user register_user_return login login_success_return login_failed_return send_msg
        receive_msg user_online :
      MsgType
  user_offline create_group create_group_return search_group search_group_return join_group
        join_group_return leave_group :
      MsgType
  send_group_msg receive_group_msg user_join_group user_leave_group heartbeat heartbeat_ack
        offline_messages logout :
      MsgType
  request_history history_response send_file receive_file file_transfer_done ai_request ai_response
        ai_stream_chunk :
      MsgType
  user_profile_update system_broadcast friend_request friend_request_ack friend_accept
        friend_accept_return friend_remove friend_remove_return :
      MsgType
  friend_list friend_list_return friend_online message_edit message_edit_return message_delete
        message_delete_return message_reaction :
      MsgType
  message_reaction_return read_receipt protocol_hello : MsgType
  invalid : MsgType

-- `toInt`: the enumerators are numbered in order.
unfoldable pub to_int : MsgType → ℤ
to_int register_user = pos 0
to_int register_user_return = pos 1
to_int login = pos 2
to_int login_success_return = pos 3
to_int login_failed_return = pos 4
to_int send_msg = pos 5
to_int receive_msg = pos 6
to_int user_online = pos 7
to_int user_offline = pos 8
to_int create_group = pos 9
to_int create_group_return = pos 10
to_int search_group = pos 11
to_int search_group_return = pos 12
to_int join_group = pos 13
to_int join_group_return = pos 14
to_int leave_group = pos 15
to_int send_group_msg = pos 16
to_int receive_group_msg = pos 17
to_int user_join_group = pos 18
to_int user_leave_group = pos 19
to_int heartbeat = pos 20
to_int heartbeat_ack = pos 21
to_int offline_messages = pos 22
to_int logout = pos 23
to_int request_history = pos 24
to_int history_response = pos 25
to_int send_file = pos 26
to_int receive_file = pos 27
to_int file_transfer_done = pos 28
to_int ai_request = pos 29
to_int ai_response = pos 30
to_int ai_stream_chunk = pos 31
to_int user_profile_update = pos 32
to_int system_broadcast = pos 33
to_int friend_request = pos 34
to_int friend_request_ack = pos 35
to_int friend_accept = pos 36
to_int friend_accept_return = pos 37
to_int friend_remove = pos 38
to_int friend_remove_return = pos 39
to_int friend_list = pos 40
to_int friend_list_return = pos 41
to_int friend_online = pos 42
to_int message_edit = pos 43
to_int message_edit_return = pos 44
to_int message_delete = pos 45
to_int message_delete_return = pos 46
to_int message_reaction = pos 47
to_int message_reaction_return = pos 48
to_int read_receipt = pos 49
to_int protocol_hello = pos 50
to_int invalid = negsuc 0

-- The enumerators 0 to 50.
unfoldable pub all_types : List MsgType
all_types =
    register_user ∷ register_user_return ∷ login ∷ login_success_return ∷ login_failed_return
    ∷ send_msg ∷ receive_msg ∷ user_online ∷ user_offline ∷ create_group ∷ create_group_return
    ∷ search_group ∷ search_group_return ∷ join_group ∷ join_group_return ∷ leave_group
    ∷ send_group_msg ∷ receive_group_msg ∷ user_join_group ∷ user_leave_group ∷ heartbeat
    ∷ heartbeat_ack ∷ offline_messages ∷ logout ∷ request_history ∷ history_response ∷ send_file
    ∷ receive_file ∷ file_transfer_done ∷ ai_request ∷ ai_response ∷ ai_stream_chunk
    ∷ user_profile_update ∷ system_broadcast ∷ friend_request ∷ friend_request_ack ∷ friend_accept
    ∷ friend_accept_return ∷ friend_remove ∷ friend_remove_return ∷ friend_list ∷ friend_list_return
    ∷ friend_online ∷ message_edit ∷ message_edit_return ∷ message_delete ∷ message_delete_return
    ∷ message_reaction ∷ message_reaction_return ∷ read_receipt ∷ protocol_hello ∷ []

abbrev nth_type : ℕ → List MsgType → MsgType
nth_type n [] = MsgType.invalid
nth_type zero (t ∷ ts) = t
nth_type (suc n) (t ∷ ts) = nth_type n ts

-- `fromInt`: 0 to 50 are cast, all else is -1.
unfoldable pub from_int : ℤ → MsgType
unfolding all_types
from_int (pos n) = if leb n 50 then nth_type n all_types else invalid
from_int (negsuc n) = invalid

-- `isLegacyType`: static_cast<int>(t) <= 19.
unfoldable pub is_legacy_type : MsgType → Bool
unfolding to_int
is_legacy_type t = not (lt_int (pos 19) (to_int t))

-- `isValidType`
unfoldable pub is_valid_type : MsgType → Bool
unfolding to_int
is_valid_type t = not (lt_int (to_int t) (pos 0)) && not (lt_int (pos 50) (to_int t))

-- ===== src/Protocol/Numbers.antt =====
-- The numbers of the message types of protocol/message_types.h.
use lan_chat_next.Prelude.{◌≡◌, refl}
use lan_chat_next.Protocol.{MsgType, to_int, from_int}

-- Every message type, the invalid one included, is read back from its number.
from_int-to_int : (t : MsgType) → from_int (to_int t) ≡ t
unfolding from_int to_int
from_int-to_int MsgType.register_user = refl
from_int-to_int _ = refl

-- ===== src/PresenceManager.antt =====
-- src/server/src/PresenceManager.cpp: the users that are online, each with a status text.
pub mod Laws
use lan_chat_next.Prelude.{
  String, Bool, true, false, Option, none, some, List, map, ℤ, positive, ◌==◌, int_eq, string_eq,
  if◌then◌else◌,
}
use lan_chat_next.Prelude.Dict

abbrev pub Presence : Type 0
Presence = List (ℤ × String)

-- `setOnline`
unfoldable pub set_online : ℤ → String → Presence → Presence
set_online user status p =
    if positive user then Dict.insert user (if status == "" then "online" else status) p else p

-- `setOffline`
unfoldable pub set_offline : ℤ → Presence → Presence
set_offline user p = Dict.erase user p

-- `isOnline`
unfoldable pub is_online : ℤ → Presence → Bool
is_online user p = elim (Dict.find user p) [ none ↦ false | some s ↦ true ]

-- `status`
unfoldable pub status : ℤ → Presence → String
status user p = elim (Dict.find user p) [ none ↦ "offline" | some s ↦ s ]

-- `onlineUsers`
unfoldable pub online_users : Presence → List ℤ
online_users p = map (λ e. e.0) p

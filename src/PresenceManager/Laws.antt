-- ===== src/PresenceManager/Laws.antt =====
-- What the presence table answers after its operations.
use lan_chat_next.Prelude.{
  List, Bool, ap, ◌∙◌, ◌&&◌, Bool-cases, inl, inr, String, ◌≡◌, refl, true, false, [], ◌∷◌, ℤ,
  positive, ◌==◌, int_eq, string_eq, if◌then◌else◌, arith, any,
}
use lan_chat_next.Prelude.Dict
use lan_chat_next.Prelude.Dict.{find-insert, find-erase}
use lan_chat_next.PresenceManager.{
  Presence, set_online, set_offline, is_online, status, online_users,
}

-- After setOnline with a positive user, this user is online, with the given status or "online"
-- if that is empty, and every other user is as before.
status-set_online :
    (user other : ℤ) (text : String) (p : Presence)
    → positive user ≡ true
    → (status other (set_online user text p)
        ≡ (if user == other then (if text == "" then "online" else text) else status other p))
      × (is_online other (set_online user text p)
          ≡ (if user == other then true else is_online other p))
unfolding status is_online set_online
status-set_online user other text p h = (
  ground (arith, find-insert user other (if text == "" then "online" else text) p),
  ground (arith, find-insert user other (if text == "" then "online" else text) p),
)

-- After setOffline the user is offline, and every other user is as before.
status-set_offline :
    (user other : ℤ) (p : Presence)
    → (status other (set_offline user p) ≡ (if user == other then "offline" else status other p))
      × (is_online other (set_offline user p)
          ≡ (if user == other then false else is_online other p))
unfolding status is_online set_offline
status-set_offline user other p =
    (ground (arith, find-erase user other p), ground (arith, find-erase user other p))

listed-is_online :
    (user : ℤ) (p : Presence) → any (λ u. u == user) (online_users p) ≡ is_online user p
unfolding online_users is_online Dict.find
listed-is_online user [] = refl
listed-is_online user ((u, s) ∷ p) = ground (arith, listed-is_online user p)

-- The calls that change the table.
pub data Call : Type 0 where
  onlines : ℤ → String → Call
  offlines : ℤ → Call

abbrev pub apply : Call → Presence → Presence
apply (onlines user text) p = set_online user text p
apply (offlines user) p = set_offline user p

abbrev pub run : List Call → Presence → Presence
run [] p = p
run (call ∷ calls) p = run calls (apply call p)

-- What the last call of a user says, where it was before as given: a number that is not positive is
-- never online.
abbrev said : ℤ → Call → Bool → Bool
said user (onlines u text) before = if u == user && positive u then true else before
said user (offlines u) before = if u == user then false else before

abbrev pub last_said : ℤ → List Call → Bool → Bool
last_said user [] before = before
last_said user (call ∷ calls) before = last_said user calls (said user call before)

apply-said :
    (user : ℤ) (call : Call) (p : Presence)
    → is_online user (apply call p) ≡ said user call (is_online user p)
unfolding set_online
apply-said user (onlines u text) p = elim (Bool-cases (positive u)) [
  | inl e ↦ ground (arith, (status-set_online u user text p e).1)
  | inr e ↦ ground arith
]
apply-said user (offlines u) p = ground (arith, (status-set_offline u user p).1)

run-said :
    (user : ℤ) (calls : List Call) (p : Presence)
    → is_online user (run calls p) ≡ last_said user calls (is_online user p)
run-said user [] p = refl
run-said user (call ∷ calls) p =
    run-said user calls (apply call p) ∙ ap (last_said user calls) (apply-said user call p)

-- After any calls of setOnline and setOffline on the empty table, `onlineUsers` lists a user exactly if
-- the last call for this user that took effect was setOnline: one with a number that is not positive
-- has none. `isOnline` says the same.
pub online_users-run :
    (user : ℤ) (calls : List Call)
    → (any (λ u. u == user) (online_users (run calls [])) ≡ last_said user calls false)
      × (is_online user (run calls []) ≡ last_said user calls false)
online_users-run user calls =
    let same : is_online user [] ≡ false = unfold is_online Dict.find in refl in
    let said_last = run-said user calls [] ∙ ap (last_said user calls) same in
    (listed-is_online user (run calls []) ∙ said_last, said_last)

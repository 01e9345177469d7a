-- ===== src/AsyncSession/RateLimit.antt =====
-- At most twenty messages of a session are let through in one window of a second.
use lan_chat_next.Prelude.{ℕ, suc, ◌+◌, ◌-◌, ◌≤◌, ◌<◌, List, [], ◌∷◌, All, arith, if◌then◌else◌}
use lan_chat_next.AsyncSession.{Session, second, consume_rate_limit_token}

-- How many of the messages that arrive at these times are let through.
unfoldable pub accepted : List ℕ → Session → ℕ
accepted [] s = 0
accepted (now ∷ rest) s =
    let (passes, s') = consume_rate_limit_token now s in
    (if passes then 1 else 0) + accepted rest s'

accepted-le :
    (times : List ℕ) (s : Session)
    → All (λ now. now - s.rate_window_start < second) times
    → accepted times s + s.messages_this_window ≤ 20 + (s.messages_this_window - 20)
unfolding accepted consume_rate_limit_token
accepted-le [] s h = omega arith
accepted-le (now ∷ rest) s h =
    ground
      (arith, accepted-le rest (record s { messages_this_window = suc s.messages_this_window }) h.1)

-- While no message arrives a second or more after the window began, at most the rest of the
-- twenty messages of that window are let through, however many arrive.
pub accepted_within_window :
    (times : List ℕ) (s : Session)
    → All (λ now. now - s.rate_window_start < second) times
    → accepted times s ≤ 20 - s.messages_this_window
accepted_within_window times s h = omega (arith, accepted-le times s h)

-- ===== src/SessionPool.antt =====
-- src/server/src/SessionPool.cpp. A session is an object on a heap, shared by the pool and the
-- handlers that are under way; its address is its id, since `next_id_` gives each its own. The
-- order in which an unordered_map is walked is that of insertion here.
pub mod Binding
pub mod Lookup
use lan_chat_next.Prelude.{
  ℕ, suc, Bool, true, false, not, ◌&&◌, Option, none, some, List, [], ◌∷◌, ◌++◌, ℤ, pos, positive,
  keep, any, length, leb, ◌==◌, nat_eq, int_eq, if◌then◌else◌,
}
use lan_chat_next.AsyncSession.{Session, is_timed_out}

-- The heap, and the members of `SessionPool`. `sessions` holds the keys of `sessions_`.
pub record Sessions : Type 0 where
  pub heap : ℕ → Session
  pub max_connections : ℕ
  pub sessions : List ℕ
  pub user_to_session : ℤ → Option ℕ

abbrev pub contains : ℕ → List ℕ → Bool
contains id ids = any (λ k. k == id) ids

-- m[k] = v, for a map that is never walked
abbrev pub set_at : {V : Type 0} → ℤ → V → (ℤ → V) → ℤ → V
set_at k v m j = if k == j then v else m j

-- A write to the object at `id`.
unfoldable pub update_session : ℕ → (Session → Session) → Sessions → Sessions
update_session id f p = record p { heap = λ k. if id == k then f (p.heap k) else p.heap k }

-- `add`: `session` is not null where it is called.
unfoldable pub add : ℕ → Sessions → Bool × Sessions
add id p = if leb p.max_connections (length p.sessions) then (false, p) else (
  true,
  (if contains id p.sessions then p else record p { sessions = p.sessions ++ id ∷ [] }),
)

-- `remove`
unfoldable pub remove : ℕ → Sessions → Sessions
remove id p =
    let unbound =
      if contains id p.sessions && not ((p.heap id).user_id == pos 0)
      then record p { user_to_session = set_at (p.heap id).user_id none p.user_to_session }
      else p in
    record unbound { sessions = keep (λ k. not (k == id)) p.sessions }

-- `findSession`
unfoldable pub find_session : ℕ → Sessions → Option ℕ
find_session id p = if contains id p.sessions then some id else none

-- `findByUserId`
unfoldable pub find_by_user_id : ℤ → Sessions → Option ℕ
find_by_user_id user p = elim (p.user_to_session user) [ none ↦ none | some id ↦ find_session id p ]

-- `bindUser`
unfoldable pub bind_user : ℕ → ℤ → Sessions → Bool × Sessions
unfolding update_session
bind_user id user p =
    if contains id p.sessions && positive user
    then (let released =
          if not ((p.heap id).user_id == pos 0)
          then record p { user_to_session = set_at (p.heap id).user_id none p.user_to_session }
          else p in
        let named = update_session id (λ s. record s { user_id = user }) released in
        (true, record named { user_to_session = set_at user (some id) named.user_to_session }))
    else (false, p)

abbrev unbind_at : ℤ → Option ℕ → Sessions → Sessions
unbind_at user none p = p
unbind_at user (some id) p =
    let signed_out =
      if contains id p.sessions
      then update_session id (λ s. record s { user_id = pos 0 }) p
      else p in
    record signed_out { user_to_session = set_at user none p.user_to_session }

-- `unbindUser`
unfoldable pub unbind_user : ℤ → Sessions → Sessions
unfolding update_session
unbind_user user p = unbind_at user (p.user_to_session user) p

-- `all`
abbrev pub all_sessions : Sessions → List ℕ
all_sessions p = p.sessions

-- `timedOut`
unfoldable pub timed_out : ℕ → Sessions → List ℕ
timed_out now p = keep (λ id. is_timed_out now (p.heap id)) p.sessions

-- `size`
unfoldable pub size : Sessions → ℕ
size p = length p.sessions

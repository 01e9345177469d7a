-- ===== src/FriendRepository.antt =====
-- src/server/src/db/FriendRepository.cpp: the table "friendships". The functions below do what the
-- SQL statements say on the rows in their order; where the table is missing, `sqlite3_prepare_v2`
-- fails. UNIQUE(from_uid, to_uid) makes an INSERT of a pair that is there fail. The time is cast to
-- an `int`.
pub mod Requests
pub mod Unique
use lan_chat_next.Prelude.{
  ℕ, suc, String, Bool, true, false, not, ◌&&◌, ◌||◌, Option, none, some, List, [], ◌∷◌, ◌++◌, map,
  ℤ, pos, positive, to_int32, keep, any, first, ◌==◌, string_eq, int_eq, if◌then◌else◌, Exec,
  Result, ok, ◌>>=◌, ◌>>◌, pure,
}
use lan_chat_next.Records.{UserInfo, FriendRequestRecord}
use lan_chat_next.Env.{Env}
use lan_chat_next.Database.{Database, Friendship}
use lan_chat_next.Bcrypt.{c_str}
use lan_chat_next.UserRepository.{find_by_id}

-- from_uid=? AND to_uid=?
abbrev pub is_pair : ℤ → ℤ → Friendship → Bool
is_pair from to f = f.from_uid == from && f.to_uid == to

-- (from_uid=? AND to_uid=?) OR (from_uid=? AND to_uid=?)
abbrev pub is_between : ℤ → ℤ → Friendship → Bool
is_between a b f = is_pair a b f || is_pair b a f

-- WHERE from_uid=? AND to_uid=? AND status='pending'
abbrev pub is_pending : ℤ → ℤ → Friendship → Bool
is_pending from to f = is_pair from to f && f.status == "pending"

-- Runs on the rows of the table, or fails with this value.
abbrev pub on_friendships :
    {A : Type 0} → A → (List Friendship → A × List Friendship) → Exec Database A
on_friendships failed f db = elim db.friendships [
  | none ↦ (ok failed, db)
  | some rows ↦ (ok (f rows).0, record db { friendships = some (f rows).1 })
]

-- UPDATE: the rows that pass are changed, and whether there was one.
unfoldable pub update_where :
    (Friendship → Bool) → (Friendship → Friendship) → List Friendship → Bool × List Friendship
update_where p f rows = (any p rows, map (λ r. if p r then f r else r) rows)

-- The INSERT of `sendRequest`.
unfoldable pub insert_request : Env → ℤ → ℤ → String → List Friendship → Bool × List Friendship
insert_request env from to msg rows = if any (is_pair from to) rows then (false, rows) else (
  true,
  rows
      ++ record {
        from_uid = from;
        to_uid = to;
        status = "pending";
        request_msg = msg;
        created_at = to_int32 env.now;
        updated_at = to_int32 env.now;
      }
        ∷ [],
)

-- The UPDATE of `sendRequest`.
unfoldable pub refresh_request : Env → ℤ → ℤ → String → List Friendship → Bool × List Friendship
unfolding update_where
refresh_request env from to msg rows =
    update_where (is_pending from to)
      (λ r. record r { request_msg = msg; updated_at = to_int32 env.now }) rows

-- The part of `sendRequest` behind its SELECT, which has found this row.
unfoldable pub send_found :
    Env → ℤ → ℤ → String → Option Friendship → List Friendship → Bool × List Friendship
unfolding insert_request refresh_request
send_found env from to msg none rows = insert_request env from to msg rows
send_found env from to msg (some f) rows =
    if f.status == "accepted"
    then (false, rows)
    else if f.status == "rejected" && f.from_uid == from && f.to_uid == to
    then (false, rows)
    else if f.status == "rejected"
    then insert_request env from to msg rows
    else if not (f.status == "pending") || not (f.from_uid == from) || not (f.to_uid == to)
    then (false, rows)
    else refresh_request env from to msg rows

-- The SELECT of `sendRequest`. It has no ORDER BY: SQLite looks the two pairs up in the index of
-- UNIQUE(from_uid, to_uid), one after the other, and the row of the sender's own request comes first.
unfoldable pub find_between : ℤ → ℤ → List Friendship → Option Friendship
find_between from to rows = first (keep (is_pair from to) rows ++ keep (is_pair to from) rows)

-- `sendRequest` on the rows
unfoldable pub send_rows : Env → ℤ → ℤ → String → List Friendship → Bool × List Friendship
unfolding send_found find_between
send_rows env from to msg rows = send_found env from to msg (find_between from to rows) rows

-- `sendRequest`
unfoldable pub send_request : Env → ℤ → ℤ → String → Exec Database Bool
send_request env from to msg =
    if not (positive from) || not (positive to) || from == to
    then pure false
    else on_friendships false (send_rows env from to msg)

-- `setStatus` on the rows
unfoldable pub set_status_rows : Env → ℤ → ℤ → String → List Friendship → Bool × List Friendship
unfolding update_where
set_status_rows env from to status rows =
    update_where (is_pending from to)
      (λ r. record r { status = status; updated_at = to_int32 env.now }) rows

-- `setStatus`
unfoldable pub set_status : Env → ℤ → ℤ → String → Exec Database Bool
set_status env from to status = on_friendships false (set_status_rows env from to status)

-- `acceptRequest`
unfoldable pub accept_request : Env → ℤ → ℤ → Exec Database Bool
unfolding set_status
accept_request env from to = set_status env from to "accepted"

-- `rejectRequest`
unfoldable pub reject_request : Env → ℤ → ℤ → Exec Database Bool
unfolding set_status
reject_request env from to = set_status env from to "rejected"

-- `removeFriendship` on the rows
unfoldable pub remove_rows : ℤ → ℤ → List Friendship → Bool × List Friendship
remove_rows a b rows = (any (is_between a b) rows, keep (λ r. not (is_between a b r)) rows)

-- `removeFriendship`
unfoldable pub remove_friendship : ℤ → ℤ → Exec Database Bool
remove_friendship a b = on_friendships false (remove_rows a b)

-- `areFriends` on the rows
unfoldable pub are_friends_rows : ℤ → ℤ → List Friendship → Bool
are_friends_rows a b rows = any (λ r. r.status == "accepted" && is_between a b r) rows

-- `areFriends`
unfoldable pub are_friends : ℤ → ℤ → Exec Database Bool
are_friends a b = on_friendships false (λ rows. (are_friends_rows a b rows, rows))

-- The SELECT of `getFriends`.
unfoldable pub friend_ids : ℤ → List Friendship → List ℤ
friend_ids user rows =
    map (λ r. if r.from_uid == user then r.to_uid else r.from_uid)
      (keep (λ r. r.status == "accepted" && (r.from_uid == user || r.to_uid == user)) rows)

abbrev add_found : Option UserInfo → List UserInfo → List UserInfo
add_found none us = us
add_found (some u) us = u ∷ us

-- The loop of `getFriends`: users that are not found are left out.
unfoldable pub find_users : Env → List ℤ → Exec Database (List UserInfo)
find_users env [] = pure []
find_users env (id ∷ ids) =
    find_by_id env id >>= λ user. find_users env ids >>= λ us. pure (add_found user us)

-- `getFriends`
unfoldable pub get_friends : Env → ℤ → Exec Database (List UserInfo)
get_friends env user =
    on_friendships [] (λ rows. (friend_ids user rows, rows)) >>= λ ids. find_users env ids

-- `pendingRequests`; the text of the request is read as a C string.
unfoldable pub pending_requests : ℤ → Exec Database (List FriendRequestRecord)
unfolding c_str
pending_requests user = on_friendships [] λ rows. (
  map
      (λ r. record {
        from_uid = r.from_uid;
        to_uid = r.to_uid;
        status = r.status;
        request_msg = c_str r.request_msg;
      })
      (keep (λ r. r.to_uid == user && r.status == "pending") rows),
  rows,
)

-- ===== src/Samples/Relations.antt =====
-- Accounts, groups and friends.
use lan_chat_next.Prelude.{
  keep, not, ◌≡◌, refl, true, false, [], ◌∷◌, ◌++◌, ℤ, pos, any, ok, to_int32, arith, string_eq,
}
use lan_chat_next.Json.{Value, Object, get, put}
use lan_chat_next.RowFields.{row_int}
use lan_chat_next.Database.Rows.{rows_of}
use lan_chat_next.UserRepository.{user_row, create}
use lan_chat_next.UserRepository.Accounts.{IsAccount, IsFresh, create_free}
use lan_chat_next.ChannelRepository.{in_group, join, leave}
use lan_chat_next.ChannelRepository.Members.{
  joined_rows, join_lem, IsMember, IsNoMember, join-leave,
}
use lan_chat_next.FriendRepository.{
  is_between, send_rows, send_request, update_where, set_status, set_status_rows, accept_request,
  reject_request, remove_rows, remove_friendship, are_friends,
}
use lan_chat_next.FriendRepository.Requests.{
  Holds, accept_request-are_friends, remove_friendship-are_friends, send_request_after_reject,
}
use lan_chat_next.FriendRepository.Unique.{IsUnique, rows-IsUnique}
use lan_chat_next.Samples.{group_rows, user_rows, pending_friend, sample_env, sample_db}

abbrev ann : ℤ
ann = pos 1001

abbrev bob : ℤ
bob = pos 1002

users_of_sample : rows_of sample_env "users" sample_db ≡ ok user_rows
unfolding rows_of
users_of_sample = refl

groups_of_sample : rows_of sample_env "groups" sample_db ≡ ok group_rows
unfolding rows_of
groups_of_sample = refl

members_of_sample : rows_of sample_env "group_members" sample_db ≡ ok []
unfolding rows_of
members_of_sample = refl

group_exists : any (in_group (pos 2001)) group_rows ≡ true
unfolding in_group row_int to_int32 get put
group_exists = refl

pub accounts : IsAccount (
    put "avatar_id" (Value.int (pos 0)) (
      put "nickname"
        (Value.str "ann")
        (put "password_hash" (Value.str "$2b$A") (put "id" (Value.int ann) Object.end))))
unfolding get put
accounts = record {
  id = Value.int ann;
  password = Value.str "$2b$A";
  nickname = Value.str "ann";
  avatar = Value.int (pos 0);
  has_id = refl;
  has_password = refl;
  has_name = refl;
  has_avatar = refl;
}

create_free_example :
    (id : ℤ) × ((create sample_env "pw" "bob" (pos 3) sample_db).0 ≡ ok id)
    × IsFresh id user_rows
    × (rows_of sample_env "users" (create sample_env "pw" "bob" (pos 3) sample_db).1
        ≡ ok (user_rows ++ user_row sample_env id "pw" "bob" (pos 3) ∷ []))
create_free_example =
    create_free sample_env "pw" "bob" (pos 3) sample_db user_rows (accounts, tt) users_of_sample
      (unfold get put in refl)

join_lem_example :
    ((join sample_env ann (pos 2001) sample_db).0 ≡ ok (any (in_group (pos 2001)) group_rows))
    × (rows_of sample_env "group_members" (join sample_env ann (pos 2001) sample_db).1
        ≡ ok (joined_rows sample_env ann (pos 2001) (any (in_group (pos 2001)) group_rows) []))
join_lem_example =
    join_lem sample_env ann (pos 2001) sample_db group_rows [] groups_of_sample members_of_sample

join-leave_example :
    let inside = (join sample_env ann (pos 2001) sample_db).1 in
    IsMember sample_env ann (pos 2001) inside
    × ((leave sample_env ann (pos 2001) inside).0 ≡ ok true)
    × IsNoMember sample_env ann (pos 2001) (leave sample_env ann (pos 2001) inside).1
join-leave_example =
    join-leave sample_env ann (pos 2001) sample_db group_rows [] (omega arith) (omega arith)
      groups_of_sample members_of_sample group_exists

accept_request-are_friends_example :
    let after = (accept_request sample_env ann bob sample_db).1 in
    ((are_friends ann bob after).0 ≡ ok true) × ((are_friends bob ann after).0 ≡ ok true)
accept_request-are_friends_example =
    accept_request-are_friends sample_env ann bob (pending_friend ∷ []) sample_db refl
      (unfold accept_request set_status set_status_rows update_where in refl)

remove_friendship-are_friends_example :
    let after = (remove_friendship ann bob sample_db).1 in
    let left = keep (λ r. not (is_between ann bob r)) (pending_friend ∷ []) in
    ((remove_friendship ann bob sample_db).0 ≡ ok (any (is_between ann bob) (pending_friend ∷ [])))
    × Holds left after
    × (any (is_between ann bob) left ≡ false)
    × ((are_friends ann bob after).0 ≡ ok false)
    × ((are_friends bob ann after).0 ≡ ok false)
remove_friendship-are_friends_example =
    remove_friendship-are_friends ann bob (pending_friend ∷ []) sample_db refl

send_request_after_reject_example :
    let after = (reject_request sample_env ann bob sample_db).1 in
    send_request sample_env ann bob "again" after ≡ (ok false, after)
send_request_after_reject_example =
    send_request_after_reject sample_env sample_env ann bob "again" (pending_friend ∷ []) sample_db
      refl (refl, tt) (unfold reject_request set_status set_status_rows update_where in refl)

rows-IsUnique_example :
    IsUnique (send_rows sample_env bob ann "hi" (pending_friend ∷ [])).1
    × IsUnique (set_status_rows sample_env bob ann "accepted" (pending_friend ∷ [])).1
    × IsUnique (remove_rows bob ann (pending_friend ∷ [])).1
rows-IsUnique_example =
    rows-IsUnique sample_env bob ann "hi" "accepted" (pending_friend ∷ []) (refl, tt)

-- ===== src/ChannelRepository.antt =====
-- src/server/src/db/ChannelRepository.cpp: groups and their members, in the tables "groups" and
-- "group_members".
pub mod Members
use lan_chat_next.Prelude.{
  ℕ, suc, String, Bool, true, false, not, ◌&&◌, ◌||◌, Option, none, some, List, [], ◌∷◌, map, ℤ,
  pos, positive, to_nat, max_int, succ_int, is_nil, take, ◌==◌, string_eq, int_eq, if◌then◌else◌,
  Exec, ◌>>=◌, ◌>>◌, pure, has_text,
}
use lan_chat_next.Json.{Value, Object, put}
use lan_chat_next.Records.{ChannelInfo}
use lan_chat_next.Env.{Env}
use lan_chat_next.RowFields.{row_int, row_string}
use lan_chat_next.Database.{Row, Database, query, insert, remove, where_row, any_row}

-- `fromRow`
unfoldable pub channel_from_row : Row → ChannelInfo
channel_from_row row = record {
  group_id = row_int row "group_id";
  host_id = row_int row "host_id";
  name = row_string row "name" "";
}

-- The loop of `nextGroupId`.
unfoldable pub max_group_id : ℤ → List Row → ℤ
max_group_id max_id [] = max_id
max_group_id max_id (row ∷ rows) = max_group_id (max_int max_id (row_int row "group_id")) rows

-- `nextGroupId`
unfoldable pub next_group_id : Env → Exec Database ℤ
next_group_id env =
    query env "groups" any_row >>= λ rows. pure (succ_int (max_group_id (pos 2000) rows))

-- The predicates of the queries.
unfoldable pub in_group : ℤ → Row → Bool
in_group group_id row = row_int row "group_id" == group_id

unfoldable pub is_membership : ℤ → ℤ → Row → Bool
is_membership user_id group_id row =
    row_int row "user_id" == user_id && row_int row "group_id" == group_id

-- `exists`
unfoldable pub exists : Env → ℤ → Exec Database Bool
exists env group_id =
    query env "groups" (where_row (in_group group_id)) >>= λ rows. pure (not (is_nil rows))

-- The row of a new member.
unfoldable pub member_row : Env → ℤ → ℤ → Row
member_row env user_id group_id =
    put "joined_at" (Value.int env.now)
      (put "group_id" (Value.int group_id) (put "user_id" (Value.int user_id) Object.end))

abbrev join_new : Env → ℤ → ℤ → List Row → Exec Database Bool
join_new env user_id group_id [] =
    insert env "group_members" (member_row env user_id group_id) >> pure true
join_new env user_id group_id (row ∷ rows) = pure true

abbrev join_existing : Env → ℤ → ℤ → Bool → Exec Database Bool
join_existing env user_id group_id false = pure false
join_existing env user_id group_id true =
    query env "group_members" (where_row (is_membership user_id group_id)) >>= λ duplicate.
    join_new env user_id group_id duplicate

-- `join`
unfoldable pub join : Env → ℤ → ℤ → Exec Database Bool
join env user_id group_id =
    exists env group_id >>= λ found. join_existing env user_id group_id found

-- The row of a new group.
unfoldable pub group_row : Env → ChannelInfo → Row
group_row env group = put "created_at" (Value.int env.now) (
    put "name" (Value.str group.name) (
      put "host_id" (Value.int group.host_id)
        (put "group_id" (Value.int group.group_id) Object.end)))

-- `createGroup`
unfoldable pub create_group : Env → ℤ → String → Exec Database ChannelInfo
create_group env host_id name = do
  id ← next_group_id env
  let group : ChannelInfo = record { group_id = id; host_id = host_id; name = name }
  insert env "groups" (group_row env group)
  join env host_id id
  pure group

-- `leave`
unfoldable pub leave : Env → ℤ → ℤ → Exec Database Bool
leave env user_id group_id = remove env "group_members" (is_membership user_id group_id)

-- `members`
unfoldable pub members : Env → ℤ → Exec Database (List ℤ)
members env group_id = query env "group_members" (where_row (in_group group_id)) >>= λ rows.
    pure (map (λ row. row_int row "user_id") rows)

-- The loop of `searchGroups`, which stops at the limit if it is positive.
unfoldable pub limit_groups : ℤ → List ChannelInfo → List ChannelInfo
limit_groups limit groups = if positive limit then take (to_nat limit) groups else groups

-- `searchGroups`
unfoldable pub search_groups : Env → String → ℤ → Exec Database (List ChannelInfo)
search_groups env keyword limit =
    query env "groups"
      (where_row (λ row. keyword == "" || has_text (row_string row "name" "") keyword))
    >>= λ rows. pure (limit_groups limit (map channel_from_row rows))

abbrev add_first : List Row → List ChannelInfo → List ChannelInfo
add_first [] groups = groups
add_first (row ∷ rows) groups = channel_from_row row ∷ groups

-- The loop of `groupsForUser` over the memberships.
unfoldable pub groups_of : Env → List Row → Exec Database (List ChannelInfo)
groups_of env [] = pure []
groups_of env (membership ∷ rest) =
    query env "groups" (where_row (in_group (row_int membership "group_id"))) >>= λ rows.
    groups_of env rest >>= λ groups. pure (add_first rows groups)

-- `groupsForUser`
unfoldable pub groups_for_user : Env → ℤ → Exec Database (List ChannelInfo)
groups_for_user env user_id =
    query env "group_members" (where_row (λ row. row_int row "user_id" == user_id))
    >>= λ memberships. groups_of env memberships

-- ===== src/ChannelRepository/Members.antt =====
-- Who is a member of a group after `join` and `leave`.
use lan_chat_next.Prelude.{
  ◌≡◌, refl, sym, ap, ◌∙◌, Bool, true, false, not, List, [], ◌∷◌, ◌++◌, map, ℤ, is_nil, keep, any,
  int_eq, string_eq, if◌then◌else◌, ok, arith, Bool-cases, inl, inr, beq_self,
}
use lan_chat_next.Json.Fields.{object_laws}
use lan_chat_next.Env.{Env}
use lan_chat_next.RowFields.{row_int, IsInt, to_int32_lem}
use lan_chat_next.Database.{Row, Database, query, where_row}
use lan_chat_next.Database.Rows.{
  rows_of, query_lem, rows_of-query, insert_lem, remove_lem, Writes-rows_of, any-is_nil,
}
use lan_chat_next.ChannelRepository.{
  in_group, is_membership, exists, member_row, join_new, join_existing, join, leave, members,
}

-- The rows of "group_members" after a `join` of a group that exists.
abbrev pub with_member : Env → ℤ → ℤ → List Row → List Row
with_member env user group rows =
    if any (is_membership user group) rows then rows else rows ++ member_row env user group ∷ []

is_membership-member_row :
    (env : Env) (user group : ℤ)
    → IsInt user
    → IsInt group
    → is_membership user group (member_row env user group) ≡ true
unfolding is_membership member_row row_int
is_membership-member_row env user group u g =
    simp (object_laws, to_int32_lem user u, to_int32_lem group g, beq_self user, beq_self group)

any-append-last :
    (p : Row → Bool) (rows : List Row) (row : Row) → p row ≡ true → any p (rows ++ row ∷ []) ≡ true
any-append-last p [] row h = ground arith
any-append-last p (r ∷ rows) row h = ground (arith, any-append-last p rows row h)

with_member-has :
    (env : Env) (user group : ℤ) (rows : List Row)
    → IsInt user
    → IsInt group
    → any (is_membership user group) (with_member env user group rows) ≡ true
with_member-has env user group rows u g = elim (Bool-cases (any (is_membership user group) rows)) [
  | inl e ↦ rw e e
  | inr e ↦ rw e (any-append-last _ rows _ (is_membership-member_row env user group u g))
]

join_new_lem :
    (env : Env) (user group : ℤ) (db : Database) (found rows : List Row)
    → not (is_nil found) ≡ any (is_membership user group) rows
    → rows_of env "group_members" db ≡ ok rows
    → ((join_new env user group found db).0 ≡ ok true)
      × (rows_of env "group_members" (join_new env user group found db).1
          ≡ ok (with_member env user group rows))
join_new_lem env user group db [] rows e have =
    let done = insert_lem env "group_members" (member_row env user group) db have in
    rw (sym e, done.0) (refl, Writes-rows_of env "group_members" _ db _ done.1)
join_new_lem env user group db (row ∷ found) rows e have = rw (sym e) (refl, have)

join_existing_lem :
    (env : Env) (user group : ℤ) (db : Database) (rows : List Row)
    → rows_of env "group_members" db ≡ ok rows
    → ((join_existing env user group true db).0 ≡ ok true)
      × (rows_of env "group_members" (join_existing env user group true db).1
          ≡ ok (with_member env user group rows))
join_existing_lem env user group db rows have =
    let after = (query env "group_members" (where_row (is_membership user group)) db).1 in
    rw (query_lem env "group_members" (is_membership user group) db have) (
      join_new_lem env user group after (keep (is_membership user group) rows) rows
        (any-is_nil (is_membership user group) rows)
        (rows_of-query env "group_members" "group_members" (where_row (is_membership user group)) db
          ∙ have))

abbrev pub joined_rows : Env → ℤ → ℤ → Bool → List Row → List Row
joined_rows env user group true rows = with_member env user group rows
joined_rows env user group false rows = rows

join_found :
    (env : Env) (user group : ℤ) (db : Database) (found : Bool) (rows : List Row)
    → rows_of env "group_members" db ≡ ok rows
    → ((join_existing env user group found db).0 ≡ ok found)
      × (rows_of env "group_members" (join_existing env user group found db).1
          ≡ ok (joined_rows env user group found rows))
join_found env user group db true rows have = join_existing_lem env user group db rows have
join_found env user group db false rows have = (refl, have)

-- Where the tables of groups and of members have these rows, `join` succeeds exactly if a group
-- with this number exists. It then leaves the members as they were with the row of this member
-- behind them unless there was one already; without the group it leaves them as they were.
pub join_lem :
    (env : Env) (user group : ℤ) (db : Database) (groups rows : List Row)
    → rows_of env "groups" db ≡ ok groups
    → rows_of env "group_members" db ≡ ok rows
    → ((join env user group db).0 ≡ ok (any (in_group group) groups))
      × (rows_of env "group_members" (join env user group db).1
          ≡ ok (joined_rows env user group (any (in_group group) groups) rows))
unfolding join exists
join_lem env user group db groups rows have_groups have =
    let after = (query env "groups" (where_row (in_group group)) db).1 in
    rw (query_lem env "groups" (in_group group) db have_groups, any-is_nil (in_group group) groups)
      (join_found env user group after (any (in_group group) groups) rows
        (rows_of-query env "groups" "group_members" (where_row (in_group group)) db ∙ have))

-- Is the user found among the members of the group that the table has?
abbrev pub IsMember : Env → ℤ → ℤ → Database → Type 0
IsMember env user group db =
    (rows : List Row) × (rows_of env "group_members" db ≡ ok rows)
    × (any (is_membership user group) rows ≡ true)

abbrev pub IsNoMember : Env → ℤ → ℤ → Database → Type 0
IsNoMember env user group db =
    (rows : List Row) × (rows_of env "group_members" db ≡ ok rows)
    × (any (is_membership user group) rows ≡ false)

any-left : (p : Row → Bool) (rows : List Row) → any p (keep (λ row. not (p row)) rows) ≡ false
any-left p [] = refl
any-left p (row ∷ rows) = ground (arith, any-left p rows)

-- Where the tables have these rows, a group with this number exists and both numbers are an `int`:
-- after `join` the user is a member of the group, and after a `leave` of that again no longer one.
pub join-leave :
    (env : Env) (user group : ℤ) (db : Database) (groups rows : List Row)
    → IsInt user
    → IsInt group
    → rows_of env "groups" db ≡ ok groups
    → rows_of env "group_members" db ≡ ok rows
    → any (in_group group) groups ≡ true
    → let inside = (join env user group db).1 in
      IsMember env user group inside
      × ((leave env user group inside).0 ≡ ok true)
      × IsNoMember env user group (leave env user group inside).1
unfolding leave
join-leave env user group db groups rows u g have_groups have exists =
    let step = (join_lem env user group db groups rows have_groups have).1 in
    let joined = step ∙ ap (λ b. ok (joined_rows env user group b rows)) exists in
    let inside = with_member-has env user group rows u g in
    let left =
      remove_lem env "group_members" (is_membership user group) (join env user group db).1 joined in
    (
      (with_member env user group rows, joined, inside),
      left.0 ∙ ap ok inside,
      (
        keep (λ row. not (is_membership user group row)) (with_member env user group rows),
        Writes-rows_of env "group_members" _ (join env user group db).1 _ left.1,
        any-left (is_membership user group) (with_member env user group rows),
      ),
    )

-- `members` lists the users of the rows of this group, in their order.
pub members_lem :
    (env : Env) (group : ℤ) (db : Database) {rows : List Row}
    → rows_of env "group_members" db ≡ ok rows
    → (members env group db).0
      ≡ ok (map (λ row. row_int row "user_id") (keep (in_group group) rows))
unfolding members
members_lem env group db have = rw (query_lem env "group_members" (in_group group) db have) refl

-- ===== src/MessageRepository/History.antt =====
-- Histories: the newest messages of a conversation, in the order of their timestamps.
use lan_chat_next.Prelude.{
  ℕ, ◌-◌, String, ◌≡◌, refl, ap, sym, ◌∙◌, Bool, true, false, ◌&&◌, ◌||◌, List, [], ◌∷◌, ◌++◌, map,
  ℤ, pos, positive, to_nat, lt_int, keep, All, length, length-drop, take, take-append-drop, ltb,
  if◌then◌else◌, arith, ◌==◌, string_eq, int_eq, ok, Bool-cases, inl, inr,
}
use lan_chat_next.Records.{StoredMessage}
use lan_chat_next.Env.{Env}
use lan_chat_next.RowFields.{row_int}
use lan_chat_next.Database.{Row, Database, where_row}
use lan_chat_next.Database.Rows.{rows_of, query_lem, rows_of-query}
use lan_chat_next.MessageRepository.{
  from_row, trim_to_limit, is_between, private_history, group_history,
}

-- No message is older than one before it.
abbrev pub Ascending : List StoredMessage → Type 0
Ascending [] = Unit {0}
Ascending (m ∷ ms) = All (λ n. lt_int n.timestamp m.timestamp ≡ false) ms × Ascending ms

-- The two lists hold the same messages as often: every test is passed by as many.
abbrev pub SameMessages : List StoredMessage → List StoredMessage → Type 0
SameMessages xs ys = (q : StoredMessage → Bool) → length (keep q xs) ≡ length (keep q ys)

-- What `std::sort` promises.
abbrev pub Sorts : Env → Type 0
Sorts env =
    (ms : List StoredMessage)
    → Ascending (env.sort_by_timestamp ms) × SameMessages (env.sort_by_timestamp ms) ms

keep_all : (ms : List StoredMessage) → keep (λ m. true) ms ≡ ms
keep_all [] = refl
keep_all (m ∷ ms) = rw (keep_all ms)

SameMessages-length : (xs ys : List StoredMessage) → SameMessages xs ys → length xs ≡ length ys
SameMessages-length xs ys h =
    ap length (sym (keep_all xs)) ∙ h (λ m. true) ∙ ap length (keep_all ys)

-- How many messages a limit leaves.
abbrev pub limited : ℤ → ℕ → ℕ
limited limit n = if positive limit && ltb (to_nat limit) n then to_nat limit else n

-- With a sort that keeps its promise, `trimToLimit` splits the messages in two, those that it drops
-- and those that it yields: together, in this order, they are the messages in the order of their
-- timestamps, so that nothing that is dropped is newer than what is yielded; and of n messages it
-- yields `limit`, or all n if that is less or if the limit is not positive.
trim_to_limit_lem :
    (env : Env) (ms : List StoredMessage) (limit : ℤ)
    → Sorts env
    → (dropped : List StoredMessage) × Ascending (dropped ++ trim_to_limit env ms limit)
      × SameMessages (dropped ++ trim_to_limit env ms limit) ms
      × (length (trim_to_limit env ms limit) ≡ limited limit (length ms))
unfolding trim_to_limit
trim_to_limit_lem env ms limit sorts =
    let sorted = env.sort_by_timestamp ms in
    let same = SameMessages-length sorted ms (sorts ms).1 in
    elim (Bool-cases (positive limit && ltb (to_nat limit) (length sorted))) [
      | inl e ↦
          let split = take-append-drop (length sorted - to_nat limit) sorted in
          rw (e, ← same)
            (
              take (length sorted - to_nat limit) sorted,
              rw split (sorts ms).0,
              rw split (sorts ms).1,
              ground (arith, length-drop (length sorted - to_nat limit) sorted),
            )
      | inr e ↦ rw (e, ← same) ([], (sorts ms).0, (sorts ms).1, ground arith)
    ]

-- A history of these messages: the newest of them, up to the limit, in the order of their
-- timestamps.
abbrev pub IsHistory : List StoredMessage → ℤ → List StoredMessage → Type 0
IsHistory ms limit r =
    (dropped : List StoredMessage) × Ascending (dropped ++ r)
    × SameMessages (dropped ++ r) ms
    × (length r ≡ limited limit (length ms))

module _ (p : Row → Bool) (q : StoredMessage → Bool)
    (same : (row : Row) → p row ≡ q (from_row row)) where
  keep-from_row : (rows : List Row) → map from_row (keep p rows) ≡ keep q (map from_row rows)
  keep-from_row [] = refl
  keep-from_row (row ∷ rows) = elim (Bool-cases (p row)) [
    | inl e ↦ rw (e, sym (same row) ∙ e, keep-from_row rows)
    | inr e ↦ rw (e, sym (same row) ∙ e, keep-from_row rows)
  ]

-- A message of no group between these two users.
abbrev pub is_between_users : ℤ → ℤ → StoredMessage → Bool
is_between_users user_a user_b m =
    m.group_id == pos 0
    && ((m.from_id == user_a && m.to_id == user_b) || (m.from_id == user_b && m.to_id == user_a))

-- `privateHistory` yields a history of exactly the messages of the table that one of the two users
-- sent to the other, none of them a group's, and changes no table.
pub private_history-IsHistory :
    (env : Env) (user_a user_b limit : ℤ) (db : Database) (rows : List Row)
    → Sorts env
    → rows_of env "messages" db ≡ ok rows
    → (r : List StoredMessage) × ((private_history env user_a user_b limit db).0 ≡ ok r)
      × IsHistory (keep (is_between_users user_a user_b) (map from_row rows)) limit r
      × ((other : String)
          → rows_of env other (private_history env user_a user_b limit db).1 ≡ rows_of env other db)
unfolding private_history
private_history-IsHistory env user_a user_b limit db rows sorts have =
    let read = query_lem env "messages" (is_between user_a user_b) db have in
    let kept =
      keep-from_row (is_between user_a user_b) (is_between_users user_a user_b)
        (λ row. unfold is_between from_row in refl) rows in
    rw (read, kept)
      (
        trim_to_limit env (keep (is_between_users user_a user_b) (map from_row rows)) limit,
        refl,
        trim_to_limit_lem env (keep (is_between_users user_a user_b) (map from_row rows)) limit
            sorts,
        λ other. rows_of-query env "messages" other (where_row (is_between user_a user_b)) db,
      )

-- `groupHistory` yields a history of exactly the messages of the table in this group, and changes
-- no table.
pub group_history-IsHistory :
    (env : Env) (group_id limit : ℤ) (db : Database) (rows : List Row)
    → Sorts env
    → rows_of env "messages" db ≡ ok rows
    → (r : List StoredMessage) × ((group_history env group_id limit db).0 ≡ ok r)
      × IsHistory (keep (λ m. m.group_id == group_id) (map from_row rows)) limit r
      × ((other : String)
          → rows_of env other (group_history env group_id limit db).1 ≡ rows_of env other db)
unfolding group_history
group_history-IsHistory env group_id limit db rows sorts have =
    let read = query_lem env "messages" (λ row. row_int row "group_id" == group_id) db have in
    let kept =
      keep-from_row (λ row. row_int row "group_id" == group_id) (λ m. m.group_id == group_id)
        (λ row. unfold from_row in refl) rows in
    rw (read, kept)
      (
        trim_to_limit env (keep (λ m. m.group_id == group_id) (map from_row rows)) limit,
        refl,
        trim_to_limit_lem env (keep (λ m. m.group_id == group_id) (map from_row rows)) limit sorts,
        λ other.
            rows_of-query env "messages" other
              (where_row (λ row. row_int row "group_id" == group_id)) db,
      )

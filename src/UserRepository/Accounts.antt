-- ===== src/UserRepository/Accounts.antt =====
-- What `create` does where every row of the table "users" is an account.
use lan_chat_next.Prelude.{
  String, ◌≡◌, refl, sym, ap, ◌∙◌, Bool, true, false, not, Option, none, some, List, [], ◌∷◌, ◌++◌,
  ℤ, pos, negsuc, lt_int, succ_int, to_int32, keep, any, All, is_nil, ◌==◌, string_eq,
  if◌then◌else◌, ok, Bool-cases, inl, inr, arith, ge_trans, lt-succ_int, lt_int_irrefl, lt-ge_trans,
  lt_int_asym,
}
use lan_chat_next.Json.{Value, get, as_int, as_string}
use lan_chat_next.Records.{UserInfo}
use lan_chat_next.Env.{Env}
use lan_chat_next.Database.{Row, Database, query, any_row}
use lan_chat_next.Database.Rows.{
  rows_of, query_total, rows_of-query, insert_lem, Writes-rows_of, any-is_nil,
}
use lan_chat_next.UserRepository.{
  at, user_from_row, has_nickname, find_by_nickname, first_user, next_user_id, user_row, create_new,
  create,
}

-- The row has what `userFromRow` reads.
pub record IsAccount (row : Row) : Type 0 where
  pub id : Value
  pub password : Value
  pub nickname : Value
  pub avatar : Value
  pub has_id : get row "id" ≡ some id
  pub has_password : get row "password_hash" ≡ some password
  pub has_name : get row "nickname" ≡ some nickname
  pub has_avatar : get row "avatar_id" ≡ some avatar

abbrev text_or_none : Option Value → String
text_or_none none = ""
text_or_none (some v) = as_string v

abbrev int_or_none : Option Value → ℤ
int_or_none none = pos 0
int_or_none (some v) = to_int32 (as_int v)

-- The nickname and the number of an account.
abbrev pub nickname_of : Row → String
nickname_of row = text_or_none (get row "nickname")

abbrev pub id_of : Row → ℤ
id_of row = int_or_none (get row "id")

has_nickname_lem :
    (nickname : String) (row : Row)
    → IsAccount row
    → has_nickname nickname row ≡ ok (nickname_of row == nickname)
unfolding has_nickname at
has_nickname_lem nickname row a = rw a.has_name refl

user_from_row-account : (row : Row) → IsAccount row → (u : UserInfo) × (user_from_row row ≡ ok u)
unfolding user_from_row at
user_from_row-account row a = (
  record {
    id = to_int32 (as_int a.id);
    password = as_string a.password;
    nickname = as_string a.nickname;
    avatar_id = to_int32 (as_int a.avatar);
  },
  rw (a.has_id, a.has_password, a.has_name, a.has_avatar) refl,
)

pub nicknames_known :
    (nickname : String) (rows : List Row)
    → All IsAccount rows
    → All (λ row. has_nickname nickname row ≡ ok (nickname_of row == nickname)) rows
nicknames_known nickname [] h = tt
nicknames_known nickname (row ∷ rows) h =
    (has_nickname_lem nickname row h.0, nicknames_known nickname rows h.1)

pub rows_taken : (rows : List Row) → All (λ row. any_row row ≡ ok true) rows
rows_taken [] = tt
rows_taken (row ∷ rows) = (refl, rows_taken rows)

pub keep_all : (rows : List Row) → keep (λ row. true) rows ≡ rows
keep_all [] = refl
keep_all (row ∷ rows) = rw (keep_all rows)

-- No account has this number or a higher one, and it is 1000 at least.
abbrev pub IsFresh : ℤ → List Row → Type 0
IsFresh id rows = (lt_int id (pos 1000) ≡ false) × All (λ row. lt_int (id_of row) id ≡ true) rows

-- One round of the loop: the maximum does not sink, and gets above the number of the row.
next_id_step :
    (i max r : ℤ)
    → lt_int r (if lt_int i max then max else succ_int i) ≡ false
    → (lt_int r max ≡ false) × (lt_int i r ≡ true)
next_id_step i max r h = elim (Bool-cases (lt_int i max)) [
  | inl e ↦
      let ge : lt_int r max ≡ false =
        sym (ap (λ b. lt_int r (if b then max else succ_int i)) e) ∙ h in
      (ge, lt-ge_trans i max r e ge)
  | inr e ↦
      let ge : lt_int r (succ_int i) ≡ false =
        sym (ap (λ b. lt_int r (if b then max else succ_int i)) e) ∙ h in
      (
        ge_trans r (succ_int i) max ge (lt_int_asym max (succ_int i) (lt-succ_int max i e)),
        lt-ge_trans i (succ_int i) r (lt-succ_int i i (lt_int_irrefl i)) ge,
      )
]

next_user_id-step :
    (max : ℤ) (row : Row) (rows : List Row) {v : Value}
    → get row "id" ≡ some v
    → next_user_id max (row ∷ rows)
      ≡ next_user_id
          (if lt_int (to_int32 (as_int v)) max then max else succ_int (to_int32 (as_int v)))
          rows
unfolding next_user_id at
next_user_id-step max row rows e = rw (e, next_user_id) refl

pub next_user_id_lem :
    (rows : List Row) (max : ℤ)
    → All IsAccount rows
    → (r : ℤ) × (next_user_id max rows ≡ ok r)
      × (lt_int r max ≡ false)
      × All (λ row. lt_int (id_of row) r ≡ true) rows
unfolding next_user_id at
next_user_id_lem [] max h = (max, refl, lt_int_irrefl max, tt)
next_user_id_lem (row ∷ rows) max h =
    let i = to_int32 (as_int h.0.id) in
    let ih = next_user_id_lem rows (if lt_int i max then max else succ_int i) h.1 in
    let step = next_id_step i max ih.0 ih.2 in
    rw h.0.has_id (ih.0, next_user_id-step max row rows h.0.has_id ∙ ih.1, step.0, (step.1, ih.3))

-- What `create` finds out about the nickname.
pub first_user-none : (rows : List Row) → is_nil rows ≡ true → first_user rows ≡ ok none
first_user-none [] e = refl
first_user-none (row ∷ rows) e = cc

pub first_user-some :
    (rows : List Row)
    → All IsAccount rows
    → is_nil rows ≡ false
    → (u : UserInfo) × (first_user rows ≡ ok (some u))
first_user-some [] h e = cc
first_user-some (row ∷ rows) h e =
    let read = user_from_row-account row h.0 in (read.0, rw read.1 refl)

pub keep-accounts :
    (p : Row → Bool) (rows : List Row) → All IsAccount rows → All IsAccount (keep p rows)
keep-accounts p [] h = tt
keep-accounts p (row ∷ rows) h = elim (Bool-cases (p row)) [
  | inl e ↦ rw e (h.0, keep-accounts p rows h.1)
  | inr e ↦ rw e (keep-accounts p rows h.1)
]

pub is_nil-keep :
    (p : Row → Bool) (rows : List Row) (b : Bool) → any p rows ≡ b → is_nil (keep p rows) ≡ not b
is_nil-keep p rows b e = ground (arith, any-is_nil p rows, e)

abbrev pub has_name : String → Row → Bool
has_name nickname row = nickname_of row == nickname

create_new_lem :
    (env : Env) (password nickname : String) (avatar_id : ℤ) (db : Database) (rows : List Row)
    → All IsAccount rows
    → rows_of env "users" db ≡ ok rows
    → (id : ℤ) × ((create_new env password nickname avatar_id db).0 ≡ ok id)
      × IsFresh id rows
      × (rows_of env "users" (create_new env password nickname avatar_id db).1
          ≡ ok (rows ++ user_row env id password nickname avatar_id ∷ []))
create_new_lem env password nickname avatar_id db rows accounts have =
    let next = next_user_id_lem rows (pos 1000) accounts in
    let between = (query env "users" any_row db).1 in
    let kept = rows_of-query env "users" "users" any_row db ∙ have in
    let done =
      insert_lem env "users" (user_row env next.0 password nickname avatar_id) between kept in
    rw
      (
        query_total env "users" any_row (λ row. true) db have (rows_taken rows),
        keep_all rows,
        next.1,
        done.0,
      )
      (next.0, refl, (next.2, next.3), Writes-rows_of env "users" _ between _ done.1)

-- Where every row of the table of users is an account and none has this nickname, `create` yields a
-- number that is 1000 at least and above that of every account, and leaves the accounts as they
-- were with one more row behind them, which has the nickname and the hash of the password.
pub create_free :
    (env : Env) (password nickname : String) (avatar_id : ℤ) (db : Database) (rows : List Row)
    → All IsAccount rows
    → rows_of env "users" db ≡ ok rows
    → any (λ row. nickname_of row == nickname) rows ≡ false
    → (id : ℤ) × ((create env password nickname avatar_id db).0 ≡ ok id)
      × IsFresh id rows
      × (rows_of env "users" (create env password nickname avatar_id db).1
          ≡ ok (rows ++ user_row env id password nickname avatar_id ∷ []))
unfolding create find_by_nickname
create_free env password nickname avatar_id db rows accounts have free =
    rw
      (
        query_total env "users" (has_nickname nickname) (has_name nickname) db have
            (nicknames_known nickname rows accounts),
        first_user-none (keep (has_name nickname) rows)
            (is_nil-keep (has_name nickname) rows false free),
      )
      (create_new_lem env password nickname avatar_id
        (query env "users" (has_nickname nickname) db).1 rows accounts
        (rows_of-query env "users" "users" (has_nickname nickname) db ∙ have))

-- Where every row of the table of users is an account and one has this nickname, `create` yields -1
-- and leaves the accounts as they were.
create_taken :
    (env : Env) (password nickname : String) (avatar_id : ℤ) (db : Database) (rows : List Row)
    → All IsAccount rows
    → rows_of env "users" db ≡ ok rows
    → any (λ row. nickname_of row == nickname) rows ≡ true
    → ((create env password nickname avatar_id db).0 ≡ ok (negsuc 0))
      × (rows_of env "users" (create env password nickname avatar_id db).1 ≡ ok rows)
unfolding create find_by_nickname
create_taken env password nickname avatar_id db rows accounts have taken =
    let found =
      first_user-some (keep (has_name nickname) rows)
        (keep-accounts (has_name nickname) rows accounts)
        (is_nil-keep (has_name nickname) rows true taken) in
    rw
      (
        query_total env "users" (has_nickname nickname) (has_name nickname) db have
            (nicknames_known nickname rows accounts),
        found.1,
      )
      (refl, rows_of-query env "users" "users" (has_nickname nickname) db ∙ have)

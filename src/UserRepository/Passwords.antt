-- ===== src/UserRepository/Passwords.antt =====
-- What `verifyPassword` does where every row of the table "users" is an account.
use mathlib.Core.List.{map-append}
use lan_chat_next.Prelude.{
  subst, String, ◌≡◌, ◌≢◌, refl, sym, ap, ◌∙◌, Bool, true, false, Option, none, some, List, [], ◌∷◌,
  ◌++◌, map, ℤ, pos, lt_int, to_int32, keep, any, All, ◌==◌, string_eq, int_eq, if◌then◌else◌, ok,
  Bool-cases, inl, inr, arith,
}
use lan_chat_next.Json.{Value, get, as_int, as_string}
use lan_chat_next.Json.Fields.{object_laws}
use lan_chat_next.Env.{Env}
use lan_chat_next.Bcrypt
use lan_chat_next.Bcrypt.Laws.{IsCrypt, verify_password-hash_password}
use lan_chat_next.PasswordHash.{verify_hash}
use lan_chat_next.Database.{Row, Database, query}
use lan_chat_next.Database.Rows.{
  rows_of, query_total, rows_of-query, update_total, update_lem, Writes-rows_of,
}
use lan_chat_next.UserRepository.{at, has_id, password_version, upgrade_row, verify_password}
use lan_chat_next.UserRepository.Accounts.{IsAccount}

abbrev number_of : Option Value → ℤ
number_of none = pos 0
number_of (some v) = as_int v

-- The row has this number, as the queries compare it; the hash that it stores.
abbrev pub carries : ℤ → Row → Bool
carries id row = number_of (get row "id") == id

abbrev text_of_value : Option Value → String
text_of_value none = ""
text_of_value (some v) = as_string v

abbrev pub stored_hash : Row → String
stored_hash row = text_of_value (get row "password_hash")

has_id_lem : (id : ℤ) (row : Row) → IsAccount row → has_id id row ≡ ok (carries id row)
unfolding has_id at
has_id_lem id row a = rw a.has_id refl

numbers_known :
    (id : ℤ) (rows : List Row)
    → All IsAccount rows
    → All (λ row. has_id id row ≡ ok (carries id row)) rows
numbers_known id [] h = tt
numbers_known id (row ∷ rows) h = (has_id_lem id row h.0, numbers_known id rows h.1)

-- The first row with the number.
keep-first :
    (p : Row → Bool) (front back : List Row) (row : Row)
    → any p front ≡ false
    → p row ≡ true
    → keep p (front ++ row ∷ back) ≡ row ∷ keep p back
keep-first p [] back row h e = rw e refl
keep-first p (r ∷ front) back row h e = ground (arith, keep-first p front back row)

-- What the upgrade makes of an account.
abbrev pub upgraded : ℤ → String → Row → Row
upgraded id hash row = if carries id row then upgrade_row hash row else row

-- What `verifyPassword` reads of the accounts: those that carry the number.
module _ (env : Env) (id : ℤ) (password : String) (db : Database) (front back : List Row)
    (row : Row) (known : rows_of env "users" db ≡ ok (front ++ row ∷ back))
    (accounts : All IsAccount (front ++ row ∷ back)) (first : any (carries id) front ≡ false)
    (here : carries id row ≡ true) (account : IsAccount row) where
  -- The answer for an account with a bcrypt hash is that of `vendor::bcrypt::verify_password` for the
  -- hash that the first account with this number stores, and the accounts stay as they are.
  pub verify_password-current :
      lt_int (password_version row) (pos 1) ≡ false
      → ((verify_password env id password db).0
          ≡ ok (Bcrypt.verify_password env password (stored_hash row)))
        × (rows_of env "users" (verify_password env id password db).1 ≡ ok (front ++ row ∷ back))
  unfolding verify_password at
  verify_password-current new =
      rw
        (
          query_total env "users" (has_id id) (carries id) db known
              (numbers_known id (front ++ row ∷ back) accounts),
          keep-first (carries id) front back row first here,
          account.has_password,
          new,
        )
        (refl, rows_of-query env "users" "users" (has_id id) db ∙ known)

  -- An account with an older hash that does not accept the password is left as it is.
  pub verify_password-rejected :
      lt_int (password_version row) (pos 1) ≡ true
      → verify_hash password (stored_hash row) ≡ false
      → ((verify_password env id password db).0 ≡ ok false)
        × (rows_of env "users" (verify_password env id password db).1 ≡ ok (front ++ row ∷ back))
  unfolding verify_password at
  verify_password-rejected old wrong =
      rw
        (
          query_total env "users" (has_id id) (carries id) db known
              (numbers_known id (front ++ row ∷ back) accounts),
          keep-first (carries id) front back row first here,
          account.has_password,
          old,
          rw account.has_password at wrong,
        )
        (refl, rows_of-query env "users" "users" (has_id id) db ∙ known)

  -- An account with an older hash that accepts the password gets the bcrypt hash of the password and
  -- the version 1, as all that carry its number, and the other accounts stay as they are.
  pub verify_password-upgraded :
      lt_int (password_version row) (pos 1) ≡ true
      → verify_hash password (stored_hash row) ≡ true
      → ((verify_password env id password db).0 ≡ ok true)
        × (rows_of env "users" (verify_password env id password db).1
            ≡ ok (map (upgraded id (Bcrypt.hash_password env password 12)) (front ++ row ∷ back)))
  unfolding verify_password at
  verify_password-upgraded old right =
      let hash = Bcrypt.hash_password env password 12 in
      let between = (query env "users" (has_id id) db).1 in
      let kept = rows_of-query env "users" "users" (has_id id) db ∙ known in
      let done = update_lem env "users" (carries id) (upgrade_row hash) between kept in
      rw
        (
          query_total env "users" (has_id id) (carries id) db known
              (numbers_known id (front ++ row ∷ back) accounts),
          keep-first (carries id) front back row first here,
          account.has_password,
          old,
          rw account.has_password at right,
          update_total env "users" (has_id id) (carries id) (upgrade_row hash) between kept
              (numbers_known id (front ++ row ∷ back) accounts),
          done.0,
        )
        (refl, Writes-rows_of env "users" _ between _ done.1)

carries-upgrade :
    (id : ℤ) (hash : String) (row : Row) → carries id (upgrade_row hash row) ≡ carries id row
unfolding upgrade_row
carries-upgrade id hash row = simp object_laws

upgrade-IsAccount : (hash : String) (row : Row) → IsAccount row → IsAccount (upgrade_row hash row)
unfolding upgrade_row
upgrade-IsAccount hash row a = record {
  id = a.id;
  password = Value.str hash;
  nickname = a.nickname;
  avatar = a.avatar;
  has_id = simp (object_laws, a.has_id);
  has_password = simp object_laws;
  has_name = simp (object_laws, a.has_name);
  has_avatar = simp (object_laws, a.has_avatar);
}

-- The row that the upgrade wrote has the new hash, with the version 1.
upgrade_lem :
    (hash : String) (row : Row)
    → (password_version (upgrade_row hash row) ≡ pos 1)
      × (stored_hash (upgrade_row hash row) ≡ hash)
unfolding upgrade_row password_version to_int32
upgrade_lem hash row = (simp object_laws, simp object_laws)

upgraded-accounts :
    (id : ℤ) (hash : String) (rows : List Row)
    → All IsAccount rows
    → All IsAccount (map (upgraded id hash) rows)
upgraded-accounts id hash [] h = tt
upgraded-accounts id hash (row ∷ rows) h = elim (Bool-cases (carries id row)) [
  | inl e ↦ rw e (upgrade-IsAccount hash row h.0, upgraded-accounts id hash rows h.1)
  | inr e ↦ rw e (h.0, upgraded-accounts id hash rows h.1)
]

upgraded-front :
    (id : ℤ) (hash : String) (front : List Row)
    → any (carries id) front ≡ false
    → map (upgraded id hash) front ≡ front
upgraded-front id hash [] h = refl
upgraded-front id hash (row ∷ front) h = elim (Bool-cases (carries id row)) [
  | inl e ↦ cc
  | inr e ↦ ground (arith, upgraded-front id hash front)
]

upgraded-rows :
    (id : ℤ) (hash : String) (front back : List Row) (row : Row)
    → any (carries id) front ≡ false
    → carries id row ≡ true
    → map (upgraded id hash) (front ++ row ∷ back)
      ≡ front ++ upgrade_row hash row ∷ map (upgraded id hash) back
upgraded-rows id hash front back row first here =
    rw (map-append (upgraded id hash) front (row ∷ back), upgraded-front id hash front first, here)
      refl

-- Where every row of the table of users is an account and the first one with this number has an older
-- hash that accepts the password, `verifyPassword` accepts it, leaves the bcrypt hash of the password
-- with that account, and accepts the password again by that hash, provided the bcrypt library did
-- make a hash.
pub verify_password-twice :
    (env : Env) (id : ℤ) (password : String) (db : Database) (front back : List Row) (row : Row)
    → IsCrypt env
    → rows_of env "users" db ≡ ok (front ++ row ∷ back)
    → All IsAccount (front ++ row ∷ back)
    → any (carries id) front ≡ false
    → carries id row ≡ true
    → IsAccount row
    → lt_int (password_version row) (pos 1) ≡ true
    → verify_hash password (stored_hash row) ≡ true
    → Bcrypt.hash_password env password 12 ≢ ""
    → ((verify_password env id password db).0 ≡ ok true)
      × ((verify_password env id password (verify_password env id password db).1).0 ≡ ok true)
      × (rows_of env "users"
            (verify_password env id password (verify_password env id password db).1).1
          ≡ ok (map (upgraded id (Bcrypt.hash_password env password 12)) (front ++ row ∷ back)))
verify_password-twice env id password db front back row laws known accounts first here account old
      right made =
    let hash = Bcrypt.hash_password env password 12 in
    let once =
      verify_password-upgraded env id password db front back row known accounts first here account
        old right in
    let after = upgraded-rows id hash front back row first here in
    let version = upgrade_lem hash row in
    let again =
      verify_password-current env id password (verify_password env id password db).1 front
        (map (upgraded id hash) back) (upgrade_row hash row) (once.1 ∙ ap ok after)
        (subst (All IsAccount) after (upgraded-accounts id hash (front ++ row ∷ back) accounts))
        first (carries-upgrade id hash row ∙ here) (upgrade-IsAccount hash row account)
        (ap (λ v. lt_int v (pos 1)) version.0) in
    (
      once.0,
      again.0
          ∙ ap (λ h. ok (Bcrypt.verify_password env password h)) version.1
          ∙ ap ok (verify_password-hash_password env laws password 12 made),
      again.1 ∙ ap ok (sym after),
    )

-- ===== src/Samples/Starting.antt =====
-- Passwords, the version of the schema, the migration of a dump, and the start of the server.
use lan_chat_next.Prelude.{
  ℕ, nat_eq, ◌||◌, length, ◌+◌, ◌-◌, ◌%◌, Option, ◌⊎◌, text_of, eq_iff, to_int32, String, ◌≡◌, ◌≢◌,
  refl, true, false, not, none, some, [], ◌∷◌, map, pos, ok, arith, ltb, if◌then◌else◌, ◌==◌,
  string_eq, lt_int, Bool-cases, inl, inr, codes,
}
use lan_chat_next.Json.{Value, Items, Object, get, put}
use lan_chat_next.Env.{Bytes}
use lan_chat_next.LegacyPasswordHash.{Qt, hash, verify, is_legacy_plaintext}
use lan_chat_next.LegacyPasswordHash.Laws.{NoDollar, IsQt, verify-hash}
use lan_chat_next.Bcrypt
use lan_chat_next.Bcrypt.Laws.{IsCrypt}
use lan_chat_next.PasswordHash.{verify_hash, make_hash}
use lan_chat_next.PasswordHash.Laws.{verify_hash-make_hash}
use lan_chat_next.Database.{
  Row, Database, query, insert, load_table, save_table, read_disk, parse_rows, filter_rows,
}
use lan_chat_next.Database.Rows.{rows_of}
use lan_chat_next.Database.Schema.{
  schema_version, migrate, table_exists, exists_at, open_database, ensure_table,
}
use lan_chat_next.Database.Migration.{AtVersion, migrate-schema_version}
use lan_chat_next.UserRepository.{verify_password, password_version}
use lan_chat_next.UserRepository.Accounts.{IsAccount}
use lan_chat_next.UserRepository.Passwords.{carries, stored_hash, upgraded, verify_password-twice}
use lan_chat_next.LegacyMigrator.{no_report}
use lan_chat_next.LegacyMigrator.Counts.{Known, Migrates}
use lan_chat_next.LegacyMigrator.Totals.{object_count}
use lan_chat_next.LanChatServer.Migrating.{run_migration-Migrates}
use lan_chat_next.TcpServer.{accepted, timer}
use lan_chat_next.TcpServer.Keeps.Rules.{IsConsistent}
use lan_chat_next.LanChatServer.{command, construct, run_server, run_migration}
use lan_chat_next.LanChatServer.Ports.{HasPort, command-HasPort}
use lan_chat_next.LanChatServer.Starting.{HasTables, construct_lem, run_server-IsConsistent}
use lan_chat_next.Samples.{sample_env, sample_db}
use lan_chat_next.Json.Order.{IsSorted}
use lan_chat_next.Json.Reading.{Printable}
use lan_chat_next.Json.Printer.{serialize}
use lan_chat_next.Json.RoundTrip.{parse-serialize}
use Object.{end, field}

abbrev secret : String
secret = "secret"

abbrev crypt : String → Option String
crypt key = some (if key == secret then "$2b$A" else "$2b$B")

crypt-cases : (key hash : String) → crypt key ≡ some hash → (hash ≡ "$2b$A") ⊎ (hash ≡ "$2b$B")
crypt-cases key hash h = elim (Bool-cases (key == secret)) [
  | inl e ↦ let q : some "$2b$A" ≡ some hash = rw e at h in inl (cc)
  | inr e ↦ let q : some "$2b$B" ≡ some hash = rw e at h in inr (cc)
]

crypt-prefix :
    (key hash : String) → crypt key ≡ some hash → Bcrypt.starts_as_bcrypt (codes hash) ≡ true
unfolding Bcrypt.starts_as_bcrypt
crypt-prefix key hash h = elim (crypt-cases key hash h) [ inl e ↦ rw e refl | inr e ↦ rw e refl ]

crypt-no_nul : (key hash : String) → crypt key ≡ some hash → Bcrypt.c_str hash ≡ hash
unfolding Bcrypt.c_str text_of
crypt-no_nul key hash h = elim (crypt-cases key hash h) [ inl e ↦ rw e refl | inr e ↦ rw e refl ]

sample-IsCrypt : IsCrypt sample_env
sample-IsCrypt = record {
  again = λ key setting hash h. h;
  prefix = λ cost key setting hash e h. crypt-prefix key hash h;
  no_nul = λ key setting hash h. crypt-no_nul key hash h;
}

hash_made : Bcrypt.hash_password sample_env secret 12 ≢ ""
unfolding Bcrypt.hash_password Bcrypt.c_str text_of
hash_made =
    λ e. let t : false ≡ true = (eq_iff (Bcrypt.hash_password sample_env secret 12) "").1 e in cc

verify_hash-make_hash_example : verify_hash secret (make_hash sample_env secret) ≡ true
verify_hash-make_hash_example = verify_hash-make_hash sample_env secret

command-HasPort_example : HasPort (command ("--port" ∷ "8080" ∷ "--data" ∷ "files" ∷ []))
command-HasPort_example = command-HasPort ("--port" ∷ "8080" ∷ "--data" ∷ "files" ∷ [])

run_server-IsConsistent_example :
    IsConsistent
      (run_server sample_env ((sample_env, accepted false) ∷ (sample_env, timer) ∷ []) sample_db).1
run_server-IsConsistent_example =
    run_server-IsConsistent sample_env ((sample_env, accepted false) ∷ (sample_env, timer) ∷ [])
      sample_db

-- A file whose schema has the version 0.
abbrev old_file : Database
old_file = record {
  tables = λ name.
      if name == "schema_version" then some (put "version" (Value.int (pos 0)) end ∷ []) else none;
  disk = λ name. if name == "schema_version" then some [] else none;
  friendships = none;
}

old-AtVersion : AtVersion sample_env (pos 0) old_file
unfolding rows_of put get to_int32
old-AtVersion = (put "version" (Value.int (pos 0)) end ∷ [], refl, refl)

migrate-schema_version_example :
    ((migrate sample_env (pos 3) old_file).0 ≡ ok (not (ltb 3 0)))
    × ((schema_version sample_env (migrate sample_env (pos 3) old_file).1).0
        ≡ ok (pos (if ltb 3 0 then 0 else 3)))
migrate-schema_version_example =
    migrate-schema_version sample_env 0 3 old_file (omega arith) old-AtVersion

construct_lem_example :
    ((construct sample_env old_file).0 ≡ ok tt)
    × AtVersion sample_env (pos 1) (construct sample_env old_file).1
    × HasTables (construct sample_env old_file).1
    × (exists_at (construct sample_env old_file).1.friendships
        ≡ (◌==◌ {A = ℕ} 0 0 || exists_at old_file.friendships))
construct_lem_example =
    construct_lem sample_env 0 old_file (unfold table_exists in refl) old-AtVersion (omega arith)

-- An account from before bcrypt, which holds its password as it is.
abbrev old_account : Row
old_account = put "avatar_id" (Value.int (pos 0)) (
    put "nickname" (Value.str "ann")
      (put "password_hash" (Value.str "secret") (put "id" (Value.int (pos 1001)) end)))

abbrev old_users : Database
old_users = record old_file {
  tables = λ name. if name == "users" then some (old_account ∷ []) else none;
}

old-IsAccount : IsAccount old_account
unfolding get put
old-IsAccount = record {
  id = Value.int (pos 1001);
  password = Value.str "secret";
  nickname = Value.str "ann";
  avatar = Value.int (pos 0);
  has_id = refl;
  has_password = refl;
  has_name = refl;
  has_avatar = refl;
}

old_known : rows_of sample_env "users" old_users ≡ ok (old_account ∷ [])
unfolding rows_of
old_known = refl

old_number : carries (pos 1001) old_account ≡ true
unfolding get put
old_number = refl

old_version : lt_int (password_version old_account) (pos 1) ≡ true
unfolding password_version get put
old_version = refl

old_accepts : verify_hash secret (stored_hash old_account) ≡ true
unfolding verify_hash get put
old_accepts = refl

verify_password-twice_example :
    let hash = Bcrypt.hash_password sample_env secret 12 in
    let once = (verify_password sample_env (pos 1001) secret old_users).1 in
    ((verify_password sample_env (pos 1001) secret old_users).0 ≡ ok true)
    × ((verify_password sample_env (pos 1001) secret once).0 ≡ ok true)
    × (rows_of sample_env "users" (verify_password sample_env (pos 1001) secret once).1
        ≡ ok (map (upgraded (pos 1001) hash) (old_account ∷ [])))
verify_password-twice_example =
    verify_password-twice sample_env (pos 1001) secret old_users [] [] old_account sample-IsCrypt
      old_known (old-IsAccount, tt) refl old_number old-IsAccount old_version old_accepts hash_made

-- [{"id":1,"nickname":"bob","password":"pw"},7]
abbrev dump : Items
dump = Items.cons (Value.obj user) (Items.cons (Value.int (pos 7)) Items.nil)
  where
    user : Object
    user =
        field "id" (Value.int (pos 1))
          (field "nickname" (Value.str "bob") (field "password" (Value.str "pw") end))

dump-Printable : Printable (Value.arr dump)
unfolding Printable IsSorted
dump-Printable = (
  (((refl, (refl, tt)), ((refl, tt), (tt, tt))), (omega arith, (tt, (tt, tt)))),
  (omega arith, tt),
)

-- A directory without a database.
abbrev no_file : Database
no_file = record { tables = λ name. none; disk = λ name. none; friendships = none }

no_file-Known : Known [] no_file
unfolding rows_of read_disk
no_file-Known env = refl

no_file-opens : (open_database sample_env no_file).0 ≡ ok true
unfolding open_database schema_version query insert load_table save_table table_exists ensure_table
    put get to_int32 read_disk parse_rows filter_rows
no_file-opens = refl

run_migration-Migrates_example : Migrates (object_count dump) no_report [] (
    run_migration sample_env
      (λ i. sample_env)
      "users.json"
      (some (serialize sample_env (Value.arr dump)))
      no_file)
run_migration-Migrates_example =
    run_migration-Migrates sample_env (λ i. sample_env) "users.json"
      (serialize sample_env (Value.arr dump)) dump [] no_file no_file-opens
      (parse-serialize sample_env (Value.arr dump) dump-Printable) no_file-Known tt

-- Digits that stand for themselves, 100 higher, and a hash of one byte.
abbrev sample_qt : Qt
sample_qt = record {
  sha256 = λ bytes. length bytes % 256 ∷ [];
  to_hex = map (λ c. c + 100);
  from_hex = map (λ c. c - 100);
  drawn = λ i. i;
}

digits_back : (bytes : Bytes) → map (λ c. c - 100) (map (λ c. c + 100) bytes) ≡ bytes
digits_back [] = refl
digits_back (c ∷ bytes) =
    let same : c + 100 - 100 ≡ c = omega arith in rw (same, digits_back bytes) refl

digits-NoDollar : (bytes : Bytes) → NoDollar (map (λ c. c + 100) bytes)
digits-NoDollar [] = tt
digits-NoDollar (c ∷ bytes) = (ground arith, digits-NoDollar bytes)

sample-IsQt : IsQt sample_qt
sample-IsQt = record {
  hex_back = λ bytes h. digits_back bytes;
  no_dollar = digits-NoDollar;
  has_digits = λ c bytes. refl;
  are_bytes = λ bytes. (omega arith, tt);
  has_bytes = λ bytes. omega arith;
}

verify-hash_example :
    (verify sample_qt (b'p' ∷ b'w' ∷ []) (hash sample_qt (b'p' ∷ b'w' ∷ [])) ≡ true)
    × (is_legacy_plaintext (hash sample_qt (b'p' ∷ b'w' ∷ [])) ≡ false)
verify-hash_example = verify-hash sample_qt sample-IsQt (b'p' ∷ b'w' ∷ [])

-- ===== src/LegacyMigrator.antt =====
-- src/server/src/db/LegacyMigrator.cpp: the accounts of the old program's dump. Each item of the dump
-- is handled in the outside world of its time.
pub mod Counts
pub mod Totals
use lan_chat_next.Prelude.{
  ℕ, zero, suc, ◌+◌, String, Bool, true, false, not, ◌||◌, Option, none, some, List, [], ◌∷◌, ◌++◌,
  ℤ, pos, lt_int, to_int32, if◌then◌else◌, Exec, ok, err, Result, malformed_json, ◌>>=◌, pure,
  throw, modify, ◌>>◌,
}
use Prim.Native.String.{◌++◌ as str_append}
use lan_chat_next.Json.{Value, Items, Object, get, as_int, as_string}
use lan_chat_next.Json.Parser.{parse}
use lan_chat_next.Records.{UserInfo}
use lan_chat_next.Env.{Env, Bytes}
use lan_chat_next.Database.{Database}
use lan_chat_next.Database.Schema.{ensure_table}
use lan_chat_next.UserRepository.{find_by_nickname, create}

-- `MigrationReport`
pub record Report : Type 0 where
  pub users_migrated : ℕ
  pub users_skipped : ℕ
  pub errors : List String

abbrev pub no_report : Report
no_report = record { users_migrated = 0; users_skipped = 0; errors = [] }

abbrev pub with_error : String → Report → Report
with_error text report = record report { errors = report.errors ++ text ∷ [] }

abbrev pub skipped : Report → Report
skipped report = record report { users_skipped = suc report.users_skipped }

abbrev pub migrated : Report → Report
migrated report = record report { users_migrated = suc report.users_migrated }

-- obj.count(key)
abbrev pub is_some : {A : Type 0} → Option A → Bool
is_some none = false
is_some (some a) = true

abbrev pub has_key : Object → String → Bool
has_key o key = is_some (get o key)

-- obj.at(key).as_string(), of a key that is there
abbrev pub text_or_empty : Option Value → String
text_or_empty none = ""
text_or_empty (some v) = as_string v

abbrev pub int_or_zero : Option Value → ℤ
int_or_zero none = pos 0
int_or_zero (some v) = to_int32 (as_int v)

-- What follows `create`.
abbrev pub count_created : String → ℤ → Report → Report
count_created nickname id report =
    if lt_int id (pos 0)
    then skipped (with_error (str_append "Failed to create user: " nickname) report)
    else migrated report

abbrev pub migrate_found :
    Env → String → String → ℤ → Option UserInfo → Report → Exec Database Report
migrate_found env password nickname head (some user) report = pure (skipped report)
migrate_found env password nickname head none report =
    create env password nickname head >>= λ id. pure (count_created nickname id report)

-- A round of the loop for an object.
unfoldable pub migrate_object : Env → Object → Report → Exec Database Report
migrate_object env o report =
    let nickname = text_or_empty (get o "nickname") in
    if not (has_key o "id") || not (has_key o "password") || not (has_key o "nickname")
    then pure (skipped (with_error "Skipping legacy user with missing fields" report))
    else (find_by_nickname env nickname >>= λ existing.
        migrate_found env (text_or_empty (get o "password")) nickname (int_or_zero (get o "headId"))
          existing report)

-- A round of the loop; an item that is no object is passed over.
abbrev pub migrate_item : Env → Value → Report → Exec Database Report
migrate_item env (Value.obj o) report = migrate_object env o report
migrate_item env v report = pure report

-- The loop, from the item with the number `i` on.
unfoldable pub migrate_items : (ℕ → Env) → ℕ → Items → Report → Exec Database Report
unfolding migrate_object
migrate_items envs i Items.nil report db = (ok report, db)
migrate_items envs i (Items.cons v vs) report db =
    (migrate_item (envs i) v report >>= λ next. migrate_items envs (suc i) vs next) db

-- The constructor of UserRepository makes the table where there is none, and the loop begins.
abbrev pub migrate_value : (ℕ → Env) → Option Value → Exec Database Report
migrate_value envs none = throw malformed_json
migrate_value envs (some (Value.arr vs)) =
    modify (ensure_table "users") >> migrate_items envs 0 vs no_report
migrate_value envs (some v) = pure (with_error "Legacy file is not a JSON array" no_report)

-- `migrateUsers`, with the content of the file, or `none` where it cannot be opened.
unfoldable pub migrate_users : (ℕ → Env) → String → Option Bytes → Exec Database Report
unfolding migrate_items ensure_table
migrate_users envs path none =
    pure (with_error (str_append "Cannot open legacy file: " path) no_report)
migrate_users envs path (some text) = migrate_value envs (parse (envs 0) text)

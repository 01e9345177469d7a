-- ===== src/LegacyMigrator/Totals.antt =====
-- The report of `migrateUsers` against the accounts that a dump leads to.
use lan_chat_next.Prelude.{
  subst, ◌∙◌, ℕ, suc, ◌≡◌, refl, not, ◌||◌, List, [], ◌++◌, All, Bool-cases, inl, inr, arith,
  length-append, some, String,
}
use mathlib.Core.List.{append_assoc, append-nil}
use lan_chat_next.Json.{Value, Items, Object, get}
use lan_chat_next.Json.Parser.{parse}
use lan_chat_next.Env.{Env, Bytes}
use lan_chat_next.Database.{Row, Database}
use lan_chat_next.Database.Schema.{ensure_table}
use lan_chat_next.Database.Migration.{rows_of-ensure_table}
use lan_chat_next.UserRepository.Accounts.{IsAccount}
use lan_chat_next.LegacyMigrator.{
  Report, no_report, with_error, skipped, has_key, text_or_empty, int_or_zero, migrate_object,
  migrate_items, migrate_users,
}
use lan_chat_next.LegacyMigrator.Counts.{Known, Migrates, skips, found-Migrates}

object-Migrates :
    (env : Env) (o : Object) (report : Report) (rows : List Row) (db : Database)
    → Known rows db
    → All IsAccount rows
    → Migrates 1 report rows (migrate_object env o report db)
unfolding migrate_object
object-Migrates env o report rows db c accounts =
    elim (Bool-cases
      (not (has_key o "id") || not (has_key o "password") || not (has_key o "nickname"))) [
        | inl e ↦ rw e (
            skips report (skipped (with_error "Skipping legacy user with missing fields" report))
              rows db c accounts refl refl)
        | inr e ↦ rw e (
            found-Migrates env (text_or_empty (get o "password")) (text_or_empty (get o "nickname"))
              (int_or_zero (get o "headId")) report rows db c accounts)
      ]

-- How many of the items are objects.
unfoldable pub object_count : Items → ℕ
object_count Items.nil = 0
object_count (Items.cons (Value.obj o) vs) = suc (object_count vs)
object_count (Items.cons v vs) = object_count vs

items-Migrates :
    (envs : ℕ → Env) (i : ℕ) (vs : Items) (report : Report) (rows : List Row) (db : Database)
    → Known rows db
    → All IsAccount rows
    → Migrates (object_count vs) report rows (migrate_items envs i vs report db)
unfolding migrate_items object_count
items-Migrates envs i Items.nil report rows db c accounts = (
  report,
  [],
  refl,
  rw (append-nil rows) c,
  rw (append-nil rows) accounts,
  omega arith,
  omega arith,
)
items-Migrates envs i (Items.cons (Value.obj o) vs) report rows db c accounts =
    let one = object-Migrates (envs i) o report rows db c accounts in
    let rest =
      items-Migrates envs (suc i) vs one.0 (rows ++ one.1) (migrate_object (envs i) o report db).1
        one.3 one.4 in
    rw one.2 (
      rest.0,
      one.1 ++ rest.1,
      rest.2,
      subst
          (λ all.
            Known all
              (migrate_items envs (suc i) vs one.0 (migrate_object (envs i) o report db).1).1)
          (append_assoc rows one.1 rest.1) rest.3,
      subst (All IsAccount) (append_assoc rows one.1 rest.1) rest.4,
      omega (arith, rest.5, one.5, length-append {0} one.1 rest.1),
      omega (arith, rest.6, one.6),
    )
items-Migrates envs i (Items.cons v vs) report rows db c accounts =
    items-Migrates envs (suc i) vs report rows db c accounts

pub ensure_table-Known :
    (name : String) (rows : List Row) (db : Database)
    → Known rows db
    → Known rows (ensure_table name db)
ensure_table-Known name rows db c later = rows_of-ensure_table later name "users" db ∙ c later

-- The whole dump, in a database whose table of users has these rows.
pub migrate_users-Migrates :
    (envs : ℕ → Env) (path : String) (text : Bytes) (vs : Items) (rows : List Row) (db : Database)
    → parse (envs 0) text ≡ some (Value.arr vs)
    → Known rows db
    → All IsAccount rows
    → Migrates (object_count vs) no_report rows (migrate_users envs path (some text) db)
unfolding migrate_users
migrate_users-Migrates envs path text vs rows db e c accounts = rw e (
    items-Migrates envs 0 vs no_report rows (ensure_table "users" db)
      (ensure_table-Known "users" rows db c) accounts)

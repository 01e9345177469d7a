-- ===== src/LanChatServer.antt =====
-- src/server/src/LanChatServer.cpp and src/server/src/main.cpp: the parts of the server and the command
-- line. What a part writes to the log and to the console is left out.
pub mod Ports
pub mod Starting
pub mod Migrating
use lan_chat_next.Prelude.{
  ℕ, zero, suc, ◌<◌, ◌-◌, String, Bool, true, false, not, ◌||◌, ◌&&◌, Option, none, some, List, [],
  ◌∷◌, ℤ, pos, lt_int, to_nat, ◌==◌, string_eq, if◌then◌else◌, codes, atoi, Exec, Result, ok, err,
  ◌>>=◌, ◌>>◌, modify, pure, skip,
}
use lan_chat_next.Env.{Env, Bytes}
use lan_chat_next.Database.{Database}
use lan_chat_next.Database.Schema.{ensure_table, open_database, migrate}
use lan_chat_next.LegacyMigrator.{Report, migrate_users}
use lan_chat_next.AsyncSession.{new_session}
use lan_chat_next.Server.{Server}
use lan_chat_next.TcpServer.{Event, run}

-- The constructors of the repositories.
unfoldable pub user_repository : Database → Database
unfolding ensure_table
user_repository db = ensure_table "users" db

unfoldable pub message_repository : Database → Database
unfolding ensure_table
message_repository db = ensure_table "messages" db

unfoldable pub channel_repository : Database → Database
unfolding ensure_table
channel_repository db = ensure_table "group_members" (ensure_table "groups" db)

unfoldable pub friend_repository : Env → Exec Database (Unit {0})
unfolding migrate
friend_repository env = migrate env (pos 1) >> skip

-- The constructor of `LanChatServer`, on the file of the database.
unfoldable pub construct : Env → Exec Database (Unit {0})
unfolding open_database migrate user_repository message_repository channel_repository
    friend_repository
construct env =
    open_database env
    >> migrate env (pos 1)
    >> modify user_repository
    >> modify message_repository
    >> modify channel_repository
    >> friend_repository env

-- What the command line asks for: a migration from a file into a directory, a server on a port with
-- a directory, or the exit with status 2.
pub data Command : Type 0 where
  migrate_from : String → String → Command
  serve : ℕ → String → Command
  bad_port : Command

abbrev pub valid_port : ℤ → Bool
valid_port p = lt_int (pos 0) p && lt_int p (pos 65535)

-- The loop over the arguments of `main`; the last one has no value. The value of --port is a number
-- where the loop goes on, so that the test for "--data" that the code makes of it fails.
unfoldable pub read_arguments : ℕ → String → List String → Command
read_arguments port directory [] = serve port directory
read_arguments port directory (flag ∷ []) = serve port directory
read_arguments port directory (flag ∷ value ∷ rest) =
    let other = read_arguments port directory (value ∷ rest) in
    let located = read_arguments port value rest in
    let given = atoi (codes value) in
    let with_port = read_arguments (to_nat given) directory rest in
    if flag == "--migrate"
    then migrate_from directory value
    else if flag == "--port"
    then (if valid_port given then with_port else bad_port)
    else if flag == "--data"
    then located
    else other

-- `main` up to the start of the server or of the migration, without the name of the program.
unfoldable pub command : List String → Command
unfolding read_arguments
command arguments = read_arguments 12346 "data" arguments

-- The members of `TcpServer` before it runs.
unfoldable pub initial_server : ℕ → Database → Server
initial_server now db = record {
  db = db;
  sessions = record {
    heap = λ id. new_session id now;
    max_connections = 500;
    sessions = [];
    user_to_session = λ user. none;
  };
  presence = [];
  next_id = 1;
}

-- `LanChatServer::run` over the events that are reported, of a server that has been constructed; an
-- exception of the constructor ends the program, with no exit code of its own.
abbrev pub run_constructed :
    Env → List (Env × Event) → Result (Unit {0}) → Database → Option ℕ × Server
run_constructed env events (err c) db = (none, initial_server env.steady_now db)
run_constructed env events (ok u) db = (
  some (run env events (initial_server env.steady_now db)).0,
  (run env events (initial_server env.steady_now db)).1,
)

unfoldable pub run_server : Env → List (Env × Event) → Database → Option ℕ × Server
unfolding construct initial_server
run_server env events db = run_constructed env events (construct env db).0 (construct env db).1

-- The branch of `main` that migrates; what the file holds is read after the database is opened.
unfoldable pub run_migration : Env → (ℕ → Env) → String → Option Bytes → Exec Database Report
unfolding open_database migrate_users
run_migration env envs path file = open_database env >> migrate_users envs path file

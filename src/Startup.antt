-- ===== src/Startup.antt =====
-- The program of src/main.rs: its commands, the configuration of src/config.rs, and its exits. What the
-- process asks of its surroundings is an argument.
pub mod Valid
pub mod Launch
pub mod Choice
pub mod Loaded
pub mod Fresh
mod Examples
use Prim.Native.String.{String}
use albion_rest_api.Base.{
  ℕ, Bool, true, false, not, Option, none, some, ◌⊎◌, inl, inr, if◌then◌else◌,
}
use albion_rest_api.Text.{◌+++◌}
use albion_rest_api.RateLimiter.{new}
use albion_rest_api.Database.{Database}
use albion_rest_api.Cli.{
  PasswordHashing, Draw, KeysCommand, Outcome, failed, created, listed, revoked, deleted,
  handle_keys_command,
}
use albion_rest_api.Raindex.{Raindex}
use albion_rest_api.Raindex.Client.{Orderbook}
use albion_rest_api.Registry.{RegistryLibrary, Worker}
use albion_rest_api.Registry.Service.{Config, choose_registry_url, serve_from}
use albion_rest_api.Handlers.{Calls}
use albion_rest_api.Server.{Server}

-- `Command` of src/cli.rs, with the path of the configuration.
pub data Command : Type 0 where
  serve : String → Command
  keys : String → KeysCommand → Command

unfoldable pub config_path : Command → String
config_path (serve config) = config
config_path (keys config _) = config

-- Files and directories, the parser of the configuration, the log, the database and its migrations,
-- Rocket, and what the provider and the fetcher need; a database stands for what is in its file.
pub record Surroundings : Type 0 where
  pub read_to_string : String → String ⊎ String
  pub parse_config : String → String ⊎ Config
  -- the subscriber of the log takes its place
  pub try_init : String → Bool
  pub create : String → Option Database
  pub migrate : Database → Option Database
  -- the directory of the local database exists or can be made
  pub has_parent : String → Bool
  pub is_dir : String → Bool
  pub file_exists : String → Bool
  pub opens : Orderbook → Bool
  pub worker : Worker
  pub builds : Bool
  pub launches : Bool

-- `Config::load`.
unfoldable pub load_config : Surroundings → String → String ⊎ Config
load_config w path = elim (w.read_to_string path) [
  | inl e ↦ inl ("failed to read config: " +++ e)
  | inr contents ↦ elim (w.parse_config contents) [
    | inl e ↦ inl ("failed to parse config: " +++ e)
    | inr cfg ↦ inr cfg
  ]
]

-- `telemetry::init`: the guard, the error of a second call, or an exit.
pub data Telemetry : Type 0 where
  guard : Telemetry
  called_again : Telemetry
  dies : Telemetry

-- The first argument is `TELEMETRY_INIT`: whether a call was made before.
unfoldable pub init_telemetry : Surroundings → Bool → String → Telemetry × Bool
init_telemetry w true log_dir = (called_again, true)
init_telemetry w false log_dir = if w.try_init log_dir then (guard, true) else (dies, true)

-- `db::init`.
unfoldable pub init_database : Surroundings → String → Option Database
init_database w database_url = elim (w.create database_url) [
  | none ↦ none
  | some pool ↦ w.migrate pool
]

module _ (X : Raindex) (L : RegistryLibrary X) (C : Calls X) where
  -- How the process ends, or the server that it launches.
  pub data Finish : Type 0 where
    usage : Finish
    exit : ℕ → Finish
    launched : Server X L C → Finish
    keys_done : Outcome → Finish

  -- From the loaded provider on.
  unfoldable pub launch : Surroundings → Config → Option (Server X L C) → Finish
  launch w cfg none = exit 1
  launch w cfg (some server) =
      if not (w.is_dir cfg.docs_dir)
      then exit 1
      else if not w.builds
      then exit 1
      else if w.launches
      then launched server
      else exit 1

  -- What `rocket` manages.
  unfoldable pub server_of :
      Config
      → Database
      → Option (albion_rest_api.Registry.Service.Service X L)
      → Option (Server X L C)
  server_of cfg db none = none
  server_of cfg db (some service) = some (record {
    managed = record {
      pool = some db;
      rate_limiter = some (new cfg.rate_limit_global_rpm cfg.rate_limit_per_key_rpm);
    };
    service = service;
  })

  -- The branch of `Serve`, after the choice of the registry.
  unfoldable pub start_server : Surroundings → Config → Option String × Database → Finish
  unfolding launch server_of
  start_server w cfg (none, db) = exit 1
  start_server w cfg (some registry_url, db) =
      if not (w.has_parent cfg.local_db_path)
      then exit 1
      else launch w cfg (
          server_of cfg db (
            serve_from X L w.worker w.file_exists w.opens cfg.local_db_path
              (some registry_url, db)))

  -- The branch of `Keys`: an error of the command is an exit.
  unfoldable pub finish_keys : Outcome → Finish
  finish_keys (failed e) = exit 1
  finish_keys (created key_id secret) = keys_done (created key_id secret)
  finish_keys (listed rows) = keys_done (listed rows)
  finish_keys (revoked key_id) = keys_done (revoked key_id)
  finish_keys (deleted key_id) = keys_done (deleted key_id)

  -- The command on the open database, and what is left of it.
  unfoldable pub run_command :
      PasswordHashing → Draw → Surroundings → Command → Config → Database → Finish × Database
  unfolding start_server finish_keys
  run_command p draw w (serve _) cfg db =
      let (registry_url, db') = choose_registry_url cfg.registry_url db in
      (start_server w cfg (registry_url, db'), db')
  run_command p draw w (keys _ command) cfg db =
      let (outcome, db') = handle_keys_command p draw command db in (finish_keys outcome, db')

  -- From the opened database on; the database is there if it was opened.
  unfoldable pub with_database :
      PasswordHashing
      → Draw
      → Surroundings
      → Command
      → Config
      → Option Database
      → Finish × Option Database
  unfolding run_command
  with_database p draw w command cfg none = (exit 1, none)
  with_database p draw w command cfg (some db) =
      let (finish, db') = run_command p draw w command cfg db in (finish, some db')

  -- From the start of the log on.
  unfoldable pub with_log :
      PasswordHashing
      → Draw
      → Surroundings
      → Command
      → Config
      → Telemetry
      → Finish × Option Database
  unfolding with_database init_database
  with_log p draw w command cfg guard =
      with_database p draw w command cfg (init_database w cfg.database_url)
  with_log p draw w command cfg called_again = (exit 1, none)
  with_log p draw w command cfg dies = (exit 1, none)

  -- From the configuration on.
  unfoldable pub with_config :
      PasswordHashing → Draw → Surroundings → Command → String ⊎ Config → Finish × Option Database
  unfolding with_log init_telemetry
  with_config p draw w command (inl e) = (exit 1, none)
  with_config p draw w command (inr cfg) =
      with_log p draw w command cfg (init_telemetry w false cfg.log_dir).0

  unfoldable pub main :
      PasswordHashing → Draw → Surroundings → Option Command → Finish × Option Database
  unfolding with_config config_path
  main p draw w none = (usage, none)
  main p draw w (some command) = with_config p draw w command (load_config w (config_path command))

-- ===== src/Startup/Examples.antt =====
-- Runs of the program in small surroundings.
use Prim.Native.String.{String}
use mathlib.Core.Path.{subst}
use text.Mathlib.Text.{◌==◌ as str_eq}
use albion_rest_api.Base.{
  ◌≡◌, ◌↔◌, refl, ap, arith, true, false, Option, none, some, [], ◌∷◌, inl, inr, if◌then◌else◌,
}
use albion_rest_api.RateLimiter.{new}
use albion_rest_api.Database.{
  Database, contains_key, contains_id, lookup_setting, upsert_setting, get_setting, set_setting,
  deactivate, remove_key, cascade,
}
use albion_rest_api.Database.Keys.{IsValid}
use albion_rest_api.Cli.{Draw, created, create, hash_secret, create_key, handle_keys_command}
use albion_rest_api.Auth.Sample.{plain, db}
use albion_rest_api.Raindex.Sample.{sample}
use albion_rest_api.Text.Lines.{strip_cr, pieces, lines_of, lines, starts_with}
use albion_rest_api.Registry.{error_text, runs, init_client, load}
use albion_rest_api.Registry.Metaboards.{unlines, neutralize_lines, neutralize_metaboards}
use albion_rest_api.Registry.Sample.{library, config, service}
use albion_rest_api.Registry.Service.{
  registry_key, choose_registry_url, start_direct_trades, serve_from,
}
use albion_rest_api.Handlers.Sample.{calls}
use albion_rest_api.Server.{Server}
use albion_rest_api.Startup.{
  serve, keys, config_path, Surroundings, load_config, usage, exit, launched, keys_done, launch,
  server_of, start_server, finish_keys, run_command, with_database, with_log, init_telemetry,
  init_database, with_config, main,
}
use albion_rest_api.Startup.Valid.{main-IsValid}
use albion_rest_api.Startup.Fresh.{IsLaunch, main-IsLaunch_iff}

abbrev surroundings : Surroundings
surroundings = record {
  read_to_string = λ path. if str_eq path "x.toml" then inr "x" else inl "no file";
  parse_config = λ _. inr config;
  try_init = λ _. true;
  create = λ _. some db;
  migrate = λ pool. some pool;
  has_parent = λ _. true;
  is_dir = λ _. true;
  file_exists = λ _. true;
  opens = λ _. true;
  worker = runs;
  builds = true;
  launches = true;
}

abbrev draw : Draw
draw = record { uuid = "j"; secret = "s"; salt = ""; time = "t" }

abbrev started : Database
started = record db { settings = (registry_key, "a") ∷ [] }

abbrev server : Server sample library calls
server = record {
  managed = record { pool = some started; rate_limiter = some (new 9 1) };
  service = record service { database = started };
}

program : Unit {0}
unfolding new error_text init_client load strip_cr pieces lines_of lines starts_with
    neutralize_lines unlines neutralize_metaboards lookup_setting upsert_setting get_setting
    set_setting contains_key contains_id deactivate remove_key cascade hash_secret create_key
    handle_keys_command choose_registry_url start_direct_trades serve_from config_path load_config
    launch server_of start_server finish_keys run_command with_database with_log init_telemetry
    init_database with_config main albion_rest_api.Registry.Service.serve
program = tt

served_run :
    main sample library calls plain draw surroundings (some (serve "x.toml"))
    ≡ (launched server, some started)
unfolding program
served_run = refl

unread_run :
    main sample library calls plain draw surroundings (some (serve "y.toml")) ≡ (exit 1, none)
unfolding program
unread_run = refl

-- Nothing listens: the process exits, and the choice of the registry stays stored.
no_launch_run :
    main sample library calls plain draw
      (record surroundings { launches = false })
      (some (serve "x.toml"))
    ≡ (exit 1, some started)
unfolding program
no_launch_run = refl

usage_run : main sample library calls plain draw surroundings none ≡ (usage, none)
unfolding program
usage_run = refl

key_run :
    (main sample library calls plain draw surroundings
      (some (keys "x.toml" (create "l" "o" false)))).0
    ≡ keys_done (created "j" "s")
unfolding program
key_run = refl

db-IsValid : IsValid db
unfolding contains_key contains_id
db-IsValid = record {
  unique_keys = (refl, tt);
  unique_ids = (refl, tt);
  fresh = (omega arith, tt);
  owned = tt;
}

some_inj : (a b : Database) → Path (Option Database) (some a) (some b) → a ≡ b
some_inj a b h = cc

opened-IsValid : (url : String) (d : Database) → init_database surroundings url ≡ some d → IsValid d
unfolding init_database
opened-IsValid url d h = subst IsValid (some_inj db d h) db-IsValid

main-IsValid_example : IsValid started
main-IsValid_example =
    main-IsValid sample library calls plain draw surroundings (some (serve "x.toml")) opened-IsValid
      started (ap (λ r. r.1) served_run)

main-IsLaunch_iff_example :
    ((main sample library calls plain draw surroundings (some (serve "x.toml"))).0
      ≡ launched server)
    ↔ IsLaunch sample library calls plain draw surroundings "x.toml" server
main-IsLaunch_iff_example =
    main-IsLaunch_iff sample library calls plain draw surroundings "x.toml" server

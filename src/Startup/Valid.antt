-- ===== src/Startup/Valid.antt =====
-- What a run of src/main.rs does to the database.
use Prim.Native.String.{String}
use text.Mathlib.Text.{◌==◌ as str_eq}
use mathlib.Core.Path.{subst}
use albion_rest_api.Base.{
  ◌≡◌, refl, ◌⊎◌, inl, inr, Bool-cases, Option, none, some, Option-cases, unwrap_or, if◌then◌else◌,
  arith,
}
use albion_rest_api.Database.{Database, get_setting, set_setting}
use albion_rest_api.Database.Keys.{IsValid}
use albion_rest_api.Database.Kept.{IsKept, IsKept-refl, IsKept-IsValid, set_setting-IsKept}
use albion_rest_api.Cli.{PasswordHashing, Draw}
use albion_rest_api.Cli.Valid.{handle_keys_command-IsValid}
use albion_rest_api.Raindex.{Raindex}
use albion_rest_api.Registry.{RegistryLibrary}
use albion_rest_api.Registry.Service.{Config, registry_key, choose_registry_url}
use albion_rest_api.Handlers.{Calls}
use albion_rest_api.Startup.{
  Command, serve, keys, config_path, Surroundings, load_config, run_command, with_database,
  with_config, with_log, init_telemetry, init_database, main,
}

stored-IsKept :
    (url : String) (db : Database) → IsKept db (unwrap_or (set_setting registry_key url db) db)
stored-IsKept url db = elim (Option-cases (set_setting registry_key url db)) [
  | inl faulty ↦ rw faulty (IsKept-refl db)
  | inr (db', stored) ↦ rw stored (set_setting-IsKept registry_key url db db' stored)
]

-- The choice of the registry stores a setting at most.
pub choose_registry_url-IsKept :
    (configured : String) (db : Database) → IsKept db (choose_registry_url configured db).1
unfolding choose_registry_url
choose_registry_url-IsKept configured db = chosen (get_setting registry_key db) refl
  where
    seeded :
        IsKept db
          (if◌then◌else◌ {A = Option String × Database}
            (str_eq configured "")
            (none, db)
            (some configured, unwrap_or (set_setting registry_key configured db) db)).1
    seeded = elim (Bool-cases (str_eq configured "")) [
      | inl missing ↦ rw missing (IsKept-refl db)
      | inr given ↦ rw given (stored-IsKept configured db)
    ]

    chosen :
        (found : Option (Option String))
        → get_setting registry_key db ≡ found
        → IsKept db (choose_registry_url configured db).1
    chosen none is = rw (choose_registry_url, is) seeded
    chosen (some none) is = rw (choose_registry_url, is) seeded
    chosen (some (some url)) is = elim (Bool-cases (str_eq url "")) [
      | inl missing ↦ rw (choose_registry_url, is, missing) seeded
      | inr given ↦ rw (choose_registry_url, is, given) (IsKept-refl db)
    ]

module _ (X : Raindex) (L : RegistryLibrary X) (C : Calls X) (p : PasswordHashing) (draw : Draw)
    (w : Surroundings) where
  run_command-IsValid :
      (command : Command) (cfg : Config) (db : Database)
      → IsValid db
      → IsValid (run_command X L C p draw w command cfg db).1
  unfolding run_command
  run_command-IsValid (serve _) cfg db v =
      IsKept-IsValid (choose_registry_url-IsKept cfg.registry_url db) v
  run_command-IsValid (keys _ command) cfg db v = handle_keys_command-IsValid p draw command db v

  module _ (command : Command)
      (valid : (url : String) (db : Database) → init_database w url ≡ some db → IsValid db) where
    with_database-IsValid :
        (cfg : Config) (found : Option Database)
        → ((db : Database) → found ≡ some db → IsValid db)
        → (left : Database) → (with_database X L C p draw w command cfg found).1 ≡ some left
        → IsValid left
    unfolding with_database
    with_database-IsValid cfg none v left h = absurd cc
    with_database-IsValid cfg (some db) v left h =
        let is : (run_command X L C p draw w command cfg db).1 ≡ left = cc in
        subst IsValid is (run_command-IsValid command cfg db (v db refl))

    with_config-IsValid :
        (loaded : String ⊎ Config) (left : Database)
        → (with_config X L C p draw w command loaded).1 ≡ some left
        → IsValid left
    unfolding with_config with_log init_telemetry init_database
    with_config-IsValid (inl e) left h = absurd cc
    with_config-IsValid (inr cfg) left h = elim (Bool-cases (w.try_init cfg.log_dir)) [
      | inl logs ↦
          with_database-IsValid cfg (init_database w cfg.database_url) (valid cfg.database_url) left
            (rw (with_config, init_telemetry, logs, with_log) at h)
      | inr silent ↦ absurd (ground (arith, silent, h))
    ]

  -- Whatever command is given, and wherever the process exits, a valid database is left valid: its keys
  -- and ids stay unique, and every usage log belongs to a key.
  pub main-IsValid :
      (command : Option Command)
      → ((url : String) (db : Database) → init_database w url ≡ some db → IsValid db)
      → (left : Database) → (main X L C p draw w command).1 ≡ some left
      → IsValid left
  unfolding main
  main-IsValid none valid left h = absurd cc
  main-IsValid (some command) valid left h =
      with_config-IsValid command valid (load_config w (config_path command)) left h

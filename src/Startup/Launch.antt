-- ===== src/Startup/Launch.antt =====
-- When src/main.rs launches a server, and which one.
use Prim.Native.String.{String}
use albion_rest_api.Base.{
  ◌≡◌, ◌↔◌, refl, sym, ◌⊎◌, inl, inr, Bool-cases, true, Option, none, some, arith,
}
use albion_rest_api.RateLimiter.{new}
use albion_rest_api.Database.{Database}
use albion_rest_api.Cli.{PasswordHashing, Draw}
use albion_rest_api.Raindex.{Raindex}
use albion_rest_api.Registry.{RegistryLibrary}
use albion_rest_api.Registry.Service.{Config, Service, choose_registry_url, serve_from}
use albion_rest_api.Registry.Service
use albion_rest_api.Handlers.{Calls}
use albion_rest_api.Server.{Server}
use albion_rest_api.Startup.{
  serve, config_path, Surroundings, load_config, Finish, launched, launch, server_of, start_server,
  run_command, with_database, with_config, with_log, init_telemetry, init_database, main,
}

module _ (X : Raindex) (L : RegistryLibrary X) (C : Calls X) (p : PasswordHashing) (draw : Draw)
    (w : Surroundings) where
  -- The server of a configuration: its limiter has the configured limits and no request yet.
  abbrev pub fresh_server : Config → Database → Service X L → Server X L C
  fresh_server cfg db service = record {
    managed = record {
      pool = some db;
      rate_limiter = some (new cfg.rate_limit_global_rpm cfg.rate_limit_per_key_rpm);
    };
    service = service;
  }

  -- All that a launch needs of the surroundings.
  abbrev pub IsReady : Config → Type 0
  IsReady cfg =
      (w.try_init cfg.log_dir ≡ true)
      × (w.has_parent cfg.local_db_path ≡ true)
      × (w.is_dir cfg.docs_dir ≡ true)
      × (w.builds ≡ true)
      × (w.launches ≡ true)

  unfoldable pub IsServing : String → Server X L C → Type 0
  IsServing path v =
      (cfg : Config) × (db : Database) × (service : Service X L) × (load_config w path ≡ inr cfg)
      × IsReady cfg
      × (init_database w cfg.database_url ≡ some db)
      × (albion_rest_api.Registry.Service.serve X L w.worker w.file_exists w.opens cfg db
          ≡ some service)
      × (v ≡ fresh_server cfg (choose_registry_url cfg.registry_url db).1 service)

  launched_inj : (a b : Server X L C) → Path (Finish X L C) (launched a) (launched b) → a ≡ b
  launched_inj a b h = cc

  launch-launched :
      (cfg : Config) (db : Database) (o : Option (Service X L)) (v : Server X L C)
      → launch X L C w cfg (server_of X L C cfg db o) ≡ launched v
      → (service : Service X L) × (o ≡ some service)
        × (v ≡ fresh_server cfg db service)
        × (w.is_dir cfg.docs_dir ≡ true)
        × (w.builds ≡ true)
        × (w.launches ≡ true)
  unfolding launch server_of
  launch-launched cfg db none v h = absurd cc
  launch-launched cfg db (some service) v h = elim (Bool-cases (w.is_dir cfg.docs_dir)) [
    | inr no_docs ↦ absurd (ground (arith, no_docs, h))
    | inl docs ↦ elim (Bool-cases w.builds) [
      | inr broken ↦ absurd (ground (arith, docs, broken, h))
      | inl built ↦ elim (Bool-cases w.launches) [
        | inr fails ↦ absurd (ground (arith, docs, built, fails, h))
        | inl runs ↦ (
          service,
          refl,
          sym (launched_inj _ v (rw (launch, server_of, docs, built, runs) at h)),
          docs,
          built,
          runs,
        )
      ]
    ]
  ]

  start_server-launched :
      (cfg : Config) (chosen : Option String × Database) (v : Server X L C)
      → start_server X L C w cfg chosen ≡ launched v
      → (service : Service X L) × (serve_from X L w.worker w.file_exists w.opens cfg.local_db_path
            chosen
          ≡ some service)
        × (v ≡ fresh_server cfg (chosen.1) service)
        × (w.has_parent cfg.local_db_path ≡ true)
        × (w.is_dir cfg.docs_dir ≡ true)
        × (w.builds ≡ true)
        × (w.launches ≡ true)
  unfolding start_server
  start_server-launched cfg (none, db) v h = absurd cc
  start_server-launched cfg (some url, db) v h =
      elim (Bool-cases (w.has_parent cfg.local_db_path)) [
        | inr orphan ↦ absurd (ground (arith, orphan, h))
        | inl parent ↦
            let (service, loaded, is, docs, built, runs) =
              launch-launched cfg db _ v (rw (start_server, parent) at h) in
            (service, loaded, is, parent, docs, built, runs)
      ]

  with_database-launched :
      (path : String) (cfg : Config) (found : Option Database) (v : Server X L C)
      → (with_database X L C p draw w (serve path) cfg found).0 ≡ launched v
      → (db : Database) × (found ≡ some db)
        × (start_server X L C w cfg (choose_registry_url cfg.registry_url db) ≡ launched v)
  unfolding with_database run_command
  with_database-launched path cfg none v h = absurd cc
  with_database-launched path cfg (some db) v h = (db, refl, h)

  with_config-launched :
      (path : String) (loaded : String ⊎ Config) (v : Server X L C)
      → (with_config X L C p draw w (serve path) loaded).0 ≡ launched v
      → (cfg : Config) × (loaded ≡ inr cfg)
        × (w.try_init cfg.log_dir ≡ true)
        × ((with_database X L C p draw w (serve path) cfg (init_database w cfg.database_url)).0
            ≡ launched v)
  unfolding with_config with_log init_telemetry init_database
  with_config-launched path (inl e) v h = absurd cc
  with_config-launched path (inr cfg) v h = elim (Bool-cases (w.try_init cfg.log_dir)) [
    | inr silent ↦ absurd (ground (arith, silent, h))
    | inl logs ↦ (cfg, refl, logs, rw (with_config, init_telemetry, logs, with_log) at h)
  ]

  launched-IsServing :
      (path : String) (v : Server X L C)
      → (main X L C p draw w (some (serve path))).0 ≡ launched v
      → IsServing path v
  unfolding main config_path IsServing albion_rest_api.Registry.Service.serve
  launched-IsServing path v h =
      let (cfg, read, logs, rest) = with_config-launched path (load_config w path) v h in
      let (db, opened, started) =
        with_database-launched path cfg (init_database w cfg.database_url) v rest in
      let (service, served, is, parent, docs, built, runs) =
        start_server-launched cfg (choose_registry_url cfg.registry_url db) v started in
      (cfg, db, service, read, (logs, parent, docs, built, runs), opened, served, is)

  start_server_of :
      (cfg : Config) (chosen : Option String × Database) (service : Service X L)
      → IsReady cfg
      → serve_from X L w.worker w.file_exists w.opens cfg.local_db_path chosen ≡ some service
      → start_server X L C w cfg chosen ≡ launched (fresh_server cfg (chosen.1) service)
  unfolding start_server launch server_of serve_from
  start_server_of cfg (none, db) service ready served = absurd cc
  start_server_of cfg (some url, db) service (logs, parent, docs, built, runs) served =
      rw (start_server, parent, served, server_of, launch, docs, built, runs) refl

  main_of :
      (path : String) (v : Server X L C)
      → IsServing path v
      → (main X L C p draw w (some (serve path))).0 ≡ launched v
  unfolding IsServing main config_path with_config with_log init_telemetry with_database run_command
      albion_rest_api.Registry.Service.serve
  main_of path v (cfg, db, service, read, ready, opened, served, is) =
      let (logs, parent, docs, built, runs) = ready in
      let started =
        start_server_of cfg (choose_registry_url cfg.registry_url db) service ready served in
      rw
        (
          main, config_path, read, with_config, init_telemetry, logs, with_log, opened,
          with_database, run_command, started, is,
        )
        refl

  -- `serve` launches a server exactly if the configuration can be read, everything that the start asks
  -- of its surroundings is there, and `serve` of the registry's module has a service.
  pub main-IsServing_iff :
      (path : String) (v : Server X L C)
      → ((main X L C p draw w (some (serve path))).0 ≡ launched v) ↔ IsServing path v
  main-IsServing_iff path v = (launched-IsServing path v, main_of path v)

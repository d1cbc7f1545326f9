-- ===== src/Startup/Fresh.antt =====
-- The server that src/main.rs launches, and what is in it.
use Prim.Native.String.{String}
use mathlib.Core.Path.{subst}
use albion_rest_api.Base.{
  ◌≡◌, ◌≢◌, ◌↔◌, refl, sym, ap, ◌∙◌, inl, inr, false, Option, none, some, [], arith,
}
use albion_rest_api.RateLimiter.{new}
use albion_rest_api.Database.{Database, get_setting, set_setting}
use albion_rest_api.Database.Settings.{get_setting-set_setting}
use albion_rest_api.Cli.{PasswordHashing, Draw}
use albion_rest_api.Raindex.{Raindex}
use albion_rest_api.Raindex.Client.{Orderbook}
use albion_rest_api.Registry.{RegistryLibrary, load}
use albion_rest_api.Registry.Service.{
  Config, Service, registry_key, empty_caches, choose_registry_url, start_direct_trades, serve_from,
}
use albion_rest_api.Registry.Service
use albion_rest_api.Handlers.{Calls}
use albion_rest_api.Server.{Server}
use albion_rest_api.Startup.{serve, Surroundings, load_config, init_database, launched, main}
use albion_rest_api.Startup.Launch.{IsReady, fresh_server, IsServing, main-IsServing_iff}
use albion_rest_api.Startup.Choice.{
  IsChosen, choose_registry_url-IsChosen, IsChosen-choose_registry_url,
}
use albion_rest_api.Startup.Loaded.{HasFetcher, start_direct_trades-HasFetcher, serve_from-some}

same_option {ℓ} : {A : Type ℓ} (a b : Option A) → ((x : A) → (a ≡ some x) ↔ (b ≡ some x)) → a ≡ b
same_option none none h = refl
same_option none (some y) h = (h y).1 refl
same_option (some x) b h = sym ((h x).0 refl)

set_setting_up :
    (key value : String) (db : Database) → db.faulty ≡ false → set_setting key value db ≢ none
unfolding set_setting
set_setting_up key value db up fails = ground (arith, up, fails)

IsChosen-get_setting :
    (configured url : String) (db after : Database)
    → IsChosen configured db url after
    → db.faulty ≡ false
    → get_setting registry_key after ≡ some (some url)
IsChosen-get_setting configured url db after (inl (is, given, left)) up = rw left is
IsChosen-get_setting configured url db after (inr (_, (given, same, inl (fails, left)))) up =
    absurd (set_setting_up registry_key url db up fails)
IsChosen-get_setting configured url db after (inr (_, (given, same, inr works))) up =
    (get_setting-set_setting registry_key url db after works).0

module _ (X : Raindex) (L : RegistryLibrary X) (C : Calls X) (p : PasswordHashing) (draw : Draw)
    (w : Surroundings) where
  -- A launch: the configuration is read, the surroundings are ready, the database is opened, an address
  -- is chosen and stored if the database answers, its registry loads, and the server is new.
  abbrev pub IsLaunch : String → Server X L C → Type 0
  IsLaunch path v =
      (cfg : Config) × (db : Database) × (url : String) × (load_config w path ≡ inr cfg)
      × IsReady X L C p draw w cfg
      × (init_database w cfg.database_url ≡ some db)
      × IsChosen cfg.registry_url db url v.service.database
      × (db.faulty ≡ false → get_setting registry_key v.service.database ≡ some (some url))
      × (load X L w.worker url (some cfg.local_db_path) ≡ inr v.service.provider)
      × ((ob : Orderbook)
          → (v.service.direct_trades ≡ some ob)
            ↔ HasFetcher X L w.file_exists w.opens v.service.provider ob)
      × (v.service.caches ≡ empty_caches)
      × (v.managed.pool ≡ some v.service.database)
      × (v.managed.rate_limiter
          ≡ some (record {
            global_rpm = cfg.rate_limit_global_rpm;
            per_key_rpm = cfg.rate_limit_per_key_rpm;
            global_window = record { poisoned = false; value = [] };
            per_key_windows = record { poisoned = false; value = λ _. none };
            per_key_check_count = 0;
          }))

  to : (path : String) (v : Server X L C) → IsServing X L C p draw w path v → IsLaunch path v
  unfolding IsServing new albion_rest_api.Registry.Service.serve serve_from
  to path v (cfg, db, service, read, ready, opened, served, is) =
      let (url, provider, chose, loads, made) =
        serve_from-some X L w.worker w.file_exists w.opens cfg.local_db_path
          (choose_registry_url cfg.registry_url db) service served in
      let after = (choose_registry_url cfg.registry_url db).1 in
      let chosen =
        choose_registry_url-IsChosen cfg.registry_url url db after (λ i. (chose i, after)) in
      subst (IsLaunch path) (sym (is ∙ ap (fresh_server X L C p draw w cfg after) made)) (
        cfg,
        db,
        url,
        read,
        ready,
        opened,
        chosen,
        IsChosen-get_setting cfg.registry_url url db after chosen,
        loads,
        start_direct_trades-HasFetcher X L w.file_exists w.opens provider,
        refl,
        refl,
        refl,
      )

  from : (path : String) (v : Server X L C) → IsLaunch path v → IsServing X L C p draw w path v
  unfolding IsServing new albion_rest_api.Registry.Service.serve serve_from
  from path v
        (cfg, db, url, read, ready, opened, chosen, _, loads, fetcher, caches, pool, limiter) =
      let chose = IsChosen-choose_registry_url cfg.registry_url url db v.service.database chosen in
      let same =
        same_option v.service.direct_trades
          (start_direct_trades X L w.file_exists w.opens v.service.provider)
          (λ ob.
            let (there, back) =
              start_direct_trades-HasFetcher X L w.file_exists w.opens v.service.provider ob in
            (λ h. back ((fetcher ob).0 h), λ h. (fetcher ob).1 (there h))) in
      (
        cfg,
        db,
        v.service,
        read,
        ready,
        opened,
        rw (chose, serve_from, loads)
            (λ i. some (record {
              provider = v.service.provider;
              database = v.service.database;
              caches = sym caches i;
              direct_trades = sym same i;
            })),
        rw chose (λ i. record {
          managed = record { pool = pool i; rate_limiter = limiter i };
          service = v.service;
        }),
      )

  -- `serve` launches a server exactly if the configuration can be read, everything that the start asks
  -- of its surroundings is there, the database has a registry's address that is not empty, or else the
  -- configuration has, and this registry loads. The server then works on the opened database, which
  -- has the address stored if it answers, and else is as it was opened; its provider is the one that
  -- was loaded, its fetcher of trades that of the first orderbook if the local database can be opened
  -- for it, its caches are empty, and its limiter has the configured limits and has seen no request.
  pub main-IsLaunch_iff :
      (path : String) (v : Server X L C)
      → ((main X L C p draw w (some (serve path))).0 ≡ launched v) ↔ IsLaunch path v
  main-IsLaunch_iff path v =
      let (there, back) = main-IsServing_iff X L C p draw w path v in
      (λ h. to path v (there h), λ h. back (from path v h))

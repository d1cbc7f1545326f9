-- ===== src/Registry/Update.antt =====
-- What `put_registry` of src/routes/admin.rs does to the service, and what a restart finds.
use Prim.Native.String.{String}
use text.Mathlib.Text.{◌==◌ as str_eq}
use mathlib.Core.Path.{subst}
use albion_rest_api.Base.{
  ◌≡◌, ◌≢◌, ◌⊎◌, refl, sym, Bool, false, Bool-cases, some, Option-cases, inl, inr,
}
use albion_rest_api.Error.{ApiError, Result, ok, err}
use albion_rest_api.Raindex.{Raindex}
use albion_rest_api.Raindex.Client.{Orderbook}
use albion_rest_api.Database.{Database, get_setting, set_setting}
use albion_rest_api.Database.Settings.{get_setting-set_setting}
use albion_rest_api.Cache.{register, invalidate_all}
use albion_rest_api.Registry.{RegistryLibrary, RaindexProviderError, Worker, RaindexProvider, load}
use albion_rest_api.Registry.Service.{
  Caches, empty_caches, registry_caches, registry_key, Service, replace_provider, put_registry,
  Config, choose_registry_url, start_direct_trades, serve_from, serve,
}

-- Every cache of the state is in the group.
invalidate_all-registry_caches : (c : Caches) → invalidate_all registry_caches c ≡ empty_caches
unfolding registry_caches register invalidate_all
invalidate_all-registry_caches c = refl

-- The stored address is chosen, whatever the configuration says.
choose_registry_url_stored :
    (configured url : String) (db : Database)
    → str_eq url "" ≡ false
    → get_setting registry_key db ≡ some (some url)
    → choose_registry_url configured db ≡ (some url, db)
unfolding choose_registry_url
choose_registry_url_stored configured url db given stored =
    rw (choose_registry_url, stored, given) refl

module _ (X : Raindex) (L : RegistryLibrary X) where
  -- The provider is the one that was loaded, over the same local database; its address is stored, and
  -- no other setting has changed; no cache has an entry; and the fetcher of trades is the old one.
  unfoldable pub IsUpdated : Worker → String → Service X L → Service X L → Type 0
  IsUpdated worker url s s' =
      (str_eq url "" ≡ false)
      × (load X L worker url s.provider.db_path ≡ inr s'.provider)
      × (get_setting registry_key s'.database ≡ some (some url))
      × ((other : String)
          → other ≢ registry_key
          → get_setting other s'.database ≡ get_setting other s.database)
      × (s'.caches ≡ empty_caches)
      × (s'.direct_trades ≡ s.direct_trades)

  -- The service after an answered request, and the answer.
  unfoldable pub IsOutcome : Worker → String → Service X L → Result String × Service X L → Type 0
  IsOutcome worker url s (answer, s') =
      ((e : ApiError) × (answer ≡ err e) × (s' ≡ s))
      ⊎ ((answer ≡ ok url) × IsUpdated worker url s s')

  replace_provider-IsOutcome :
      (worker : Worker) (url : String) (p : RaindexProvider X L) (s : Service X L)
      → str_eq url "" ≡ false
      → load X L worker url s.provider.db_path ≡ inr p
      → IsOutcome worker url s (replace_provider X L url p s)
  unfolding replace_provider IsOutcome IsUpdated
  replace_provider-IsOutcome worker url p s given loaded =
      elim (Option-cases (set_setting registry_key url s.database)) [
        | inl failed ↦ rw (replace_provider, failed) (inl (_, refl, refl))
        | inr (db, stored) ↦
            let (reads, keeps) = get_setting-set_setting registry_key url s.database db stored in
            rw (replace_provider, stored)
              (inr (
                refl,
                (given, loaded, reads, keeps, invalidate_all-registry_caches s.caches, refl),
              ))
      ]

  -- A request to change the registry does everything or nothing. If it is answered with an error,
  -- then the service is unchanged: its provider, its database and its caches. Otherwise the address
  -- is not empty and is the answer, the provider that was loaded from it serves, it is the stored
  -- setting, the other settings are kept, all eight caches are empty, and the fetcher of trades is the old one.
  pub put_registry-IsOutcome :
      (worker : Worker) (url : String) (s : Service X L)
      → IsOutcome worker url s (put_registry X L worker url s)
  unfolding put_registry IsOutcome
  put_registry-IsOutcome worker url s = elim (Bool-cases (str_eq url "")) [
    | inl missing ↦ rw (put_registry, missing) (inl (_, refl, refl))
    | inr given ↦ loading given (load X L worker url s.provider.db_path) refl
  ]
    where
      loading :
          str_eq url "" ≡ false
          → (r : RaindexProviderError ⊎ RaindexProvider X L)
          → load X L worker url s.provider.db_path ≡ r
          → IsOutcome worker url s (put_registry X L worker url s)
      loading given (inl e) failed = rw (put_registry, given, failed) (inl (_, refl, refl))
      loading given (inr p) loaded =
          rw (put_registry, given, loaded) (replace_provider-IsOutcome worker url p s given loaded)

  -- After a successful request to change the registry, a restart over the same local database, with
  -- any configured registry and the same answers of the library, serves the same provider from the
  -- same database, with empty caches and a fetcher of that provider.
  pub serve-put_registry :
      (worker : Worker) (url : String) (s s' : Service X L) (db_exists : String → Bool)
      (opens : Orderbook → Bool) (cfg : Config)
      → put_registry X L worker url s ≡ (ok url, s')
      → s.provider.db_path ≡ some cfg.local_db_path
      → serve X L worker db_exists opens cfg s'.database
        ≡ some (record {
          provider = s'.provider;
          database = s'.database;
          caches = empty_caches;
          direct_trades = start_direct_trades X L db_exists opens s'.provider;
        })
  unfolding serve serve_from IsOutcome IsUpdated
  serve-put_registry worker url s s' db_exists opens cfg done path =
      elim (subst (IsOutcome worker url s) done (put_registry-IsOutcome worker url s)) [
        | inl (e, failed, _) ↦ absurd cc
        | inr (_, (given, loaded, reads, _, _, _)) ↦
            rw
              (
                serve,
                serve_from,
                choose_registry_url_stored cfg.registry_url url s'.database given reads,
                sym path,
                loaded,
              )
              refl
      ]

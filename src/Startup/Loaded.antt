-- ===== src/Startup/Loaded.antt =====
-- What src/main.rs makes of the registry that it has loaded.
use Prim.Native.String.{String}
use albion_rest_api.Base.{
  ◌≡◌, ◌↔◌, refl, sym, ap, ◌∙◌, ◌⊎◌, inl, inr, Bool, Bool-cases, true, Option, none, some,
  Option-cases, List, [], ◌∷◌, arith,
}
use albion_rest_api.Database.{Database}
use albion_rest_api.Raindex.{Raindex}
use albion_rest_api.Raindex.Client.{Orderbook}
use albion_rest_api.Registry.{RegistryLibrary, RaindexProvider, RaindexProviderError, Worker, load}
use albion_rest_api.Registry.Service.{Service, empty_caches, start_direct_trades, serve_from}

module _ (X : Raindex) (L : RegistryLibrary X) where
  -- The fetcher is that of the first orderbook, if the provider has a local database that exists, the
  -- orderbooks are answered, and the database can be opened for the first.
  abbrev pub HasFetcher :
      (String → Bool) → (Orderbook → Bool) → RaindexProvider X L → Orderbook → Type 0
  HasFetcher db_exists opens provider ob =
      (path : String) × (obs : List Orderbook) × (provider.db_path ≡ some path)
      × (db_exists path ≡ true)
      × (provider.client.get_all_orderbooks ≡ some (ob ∷ obs))
      × (opens ob ≡ true)

  pub start_direct_trades-HasFetcher :
      (db_exists : String → Bool) (opens : Orderbook → Bool) (provider : RaindexProvider X L)
      (ob : Orderbook)
      → (start_direct_trades X L db_exists opens provider ≡ some ob)
        ↔ HasFetcher db_exists opens provider ob
  unfolding start_direct_trades
  start_direct_trades-HasFetcher db_exists opens provider ob =
      elim (Option-cases provider.db_path) [
        | inl no_path ↦ (
          λ h. absurd (ground (arith, no_path, h)),
          λ (path, obs, has, _, _, _). absurd (ground (arith, no_path, has)),
        )
        | inr (path, has) ↦ elim (Bool-cases (db_exists path)) [
          | inl there ↦ go path has there provider.client.get_all_orderbooks refl
          | inr missing ↦ (
            λ h. absurd (ground (arith, has, missing, h)),
            λ (other, obs, has', there, _, _).
                let same : path ≡ other = path_of path other (sym has ∙ has') in
                absurd (ground (arith, rw same at missing, there)),
          )
        ]
      ]
    where
      path_of : (a b : String) → Path (Option String) (some a) (some b) → a ≡ b
      path_of a b e = cc

      go :
          (path : String)
          → provider.db_path ≡ some path
          → db_exists path ≡ true
          → (found : Option (List Orderbook)) → provider.client.get_all_orderbooks ≡ found
          → (start_direct_trades X L db_exists opens provider ≡ some ob)
            ↔ HasFetcher db_exists opens provider ob
      go path has there none is =
          rw (start_direct_trades, has, there, is)
            (λ h. absurd cc, λ (_, obs, _, _, lists, _). absurd cc)
      go path has there (some []) is =
          rw (start_direct_trades, has, there, is)
            (λ h. absurd cc, λ (_, obs, _, _, lists, _). absurd cc)
      go path has there (some (first ∷ obs)) is = elim (Bool-cases (opens first)) [
        | inl opened ↦ (
          λ h.
              let same : first ≡ ob =
                ob_of first ob (rw (start_direct_trades, has, there, is, opened) at h) in
              (path, obs, has, there, is ∙ ap (λ o. some (o ∷ obs)) same, rw same at opened),
          λ (_, obs', _, _, lists, _).
              rw (start_direct_trades, has, there, is, opened)
                (ap some (head_of first ob obs obs' (sym is ∙ lists))),
        )
        | inr closed ↦ (
          λ h. absurd (ground (arith, has, there, is, closed, h)),
          λ (_, obs', _, _, lists, opened).
              let same = head_of first ob obs obs' (sym is ∙ lists) in
              absurd (ground (arith, rw same at closed, opened)),
        )
      ]
        where
          ob_of : (a b : Orderbook) → Path (Option Orderbook) (some a) (some b) → a ≡ b
          ob_of a b e = cc

          head_of :
              (a b : Orderbook) (rest others : List Orderbook)
              → Path (Option (List Orderbook)) (some (a ∷ rest)) (some (b ∷ others))
              → a ≡ b
          head_of a b rest others e = cc

  pub serve_from-some :
      (worker : Worker) (db_exists : String → Bool) (opens : Orderbook → Bool) (path : String)
      (chosen : Option String × Database) (service : Service X L)
      → serve_from X L worker db_exists opens path chosen ≡ some service
      → (url : String) × (provider : RaindexProvider X L) × (chosen.0 ≡ some url)
        × (load X L worker url (some path) ≡ inr provider)
        × (service ≡ record {
          provider = provider;
          database = chosen.1;
          caches = empty_caches;
          direct_trades = start_direct_trades X L db_exists opens provider;
        })
  unfolding serve_from
  serve_from-some worker db_exists opens path (none, db) service h = absurd cc
  serve_from-some worker db_exists opens path (some url, db) service h =
      go (load X L worker url (some path)) refl
    where
      service_of : (a b : Service X L) → Path (Option (Service X L)) (some a) (some b) → a ≡ b
      service_of a b e = cc

      go :
          (r : RaindexProviderError ⊎ RaindexProvider X L)
          → load X L worker url (some path) ≡ r
          → (url' : String) × (provider : RaindexProvider X L) × (some url ≡ some url')
            × (load X L worker url' (some path) ≡ inr provider)
            × (service ≡ record {
              provider = provider;
              database = db;
              caches = empty_caches;
              direct_trades = start_direct_trades X L db_exists opens provider;
            })
      go (inl e) is = absurd (ground (arith, is, h))
      go (inr provider) is =
          (url, provider, refl, is, sym (service_of _ service (rw (serve_from, is) at h)))

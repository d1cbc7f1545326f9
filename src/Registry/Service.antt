-- ===== src/Registry/Service.antt =====
-- The service's shared state and what changes its registry: src/routes/admin.rs,
-- src/routes/registry.rs, and the start of src/main.rs.
use Prim.Native.String.{String}
use text.Mathlib.Text.{◌==◌ as str_eq}
use albion_rest_api.Base.{
  ℕ, Bool, true, false, Option, none, some, List, [], ◌∷◌, inl, inr, if◌then◌else◌, unwrap_or,
}
use albion_rest_api.Error.{Result, ok, err, bad_request, internal}
use albion_rest_api.Text.{◌+++◌}
use albion_rest_api.Raindex.{Raindex, Address, B256}
use albion_rest_api.Raindex.Client.{Orderbook}
use albion_rest_api.Database.{Database, get_setting, set_setting}
use albion_rest_api.Cache.{AppCache, CacheGroup, empty_cache, register, invalidate_all}
use albion_rest_api.Orders.Types.{OrdersListResponse}
use albion_rest_api.Orders.Cached.{OwnerKey, TokenKey}
use albion_rest_api.Order.Detail.{OrderDetail}
use albion_rest_api.Swap.{SwapQuoteResponse}
use albion_rest_api.Trades.Batch.{OrderTradeEntry}
use albion_rest_api.Trades.Cached.{TradesByTxCache, TradesByAddressCache}
use albion_rest_api.Trades.Taker.{TakerTradesTxHashCache}
use albion_rest_api.Registry.{RegistryLibrary, error_text, Worker, RaindexProvider, load}

abbrev pub QuoteKey : Type 0
QuoteKey = Address × (Address × String)

-- The caches that `rocket` of src/main.rs makes.
pub record Caches : Type 0 where
  pub order : AppCache B256 OrderDetail
  pub orders_by_owner : AppCache OwnerKey OrdersListResponse
  pub orders_by_token : AppCache TokenKey OrdersListResponse
  pub swap : AppCache QuoteKey SwapQuoteResponse
  pub trades_by_address : TradesByAddressCache
  pub trades_by_tx : TradesByTxCache
  pub trades_by_order_hash : AppCache B256 (List OrderTradeEntry)
  pub taker_trades_tx_hash : TakerTradesTxHashCache

abbrev pub empty_caches : Caches
empty_caches = record {
  order = empty_cache;
  orders_by_owner = empty_cache;
  orders_by_token = empty_cache;
  swap = empty_cache;
  trades_by_address = empty_cache;
  trades_by_tx = empty_cache;
  trades_by_order_hash = empty_cache;
  taker_trades_tx_hash = empty_cache;
}

-- The registrations, in the order of the source.
unfoldable pub registry_caches : CacheGroup Caches
registry_caches =
    register (λ c s. record s { taker_trades_tx_hash = c })
      (register (λ c s. record s { trades_by_order_hash = c })
        (register (λ c s. record s { trades_by_tx = c })
          (register (λ c s. record s { trades_by_address = c })
            (register (λ c s. record s { swap = c })
              (register (λ c s. record s { orders_by_token = c })
                (register (λ c s. record s { orders_by_owner = c })
                  (register (λ c s. record s { order = c }) [])))))))

abbrev pub registry_key : String
registry_key = "registry_url"

-- `Config` of src/config.rs.
pub record Config : Type 0 where
  pub log_dir : String
  pub database_url : String
  pub registry_url : String
  pub rate_limit_global_rpm : ℕ
  pub rate_limit_per_key_rpm : ℕ
  pub docs_dir : String
  pub local_db_path : String

-- The registry that `main` serves, and the database: the stored one, or the configured one, which
-- is then stored; or the process exits.
unfoldable pub choose_registry_url : String → Database → Option String × Database
choose_registry_url configured db =
    let seeded =
      if str_eq configured ""
      then (none, db)
      else (some configured, unwrap_or (set_setting registry_key configured db) db) in
    elim (get_setting registry_key db) [
      | none ↦ seeded
      | some stored ↦ elim stored [
        | none ↦ seeded
        | some url ↦ if str_eq url "" then seeded else (some url, db)
      ]
    ]

module _ (X : Raindex) (L : RegistryLibrary X) where
  -- What the handlers share; the pool stands for its database.
  pub record Service : Type 0 where
    pub provider : RaindexProvider X L
    pub database : Database
    pub caches : Caches
    -- the chain and the orderbook of the fetcher
    pub direct_trades : Option Orderbook

  -- The part of `put_registry` that holds the write lock, and the invalidation after it.
  unfoldable pub replace_provider : String → RaindexProvider X L → Service → Result String × Service
  replace_provider url new_provider s = elim (set_setting registry_key url s.database) [
    | none ↦ (err (internal "failed to persist setting"), s)
    | some database ↦ (
      ok url,
      record s {
        provider = new_provider;
        database = database;
        caches = invalidate_all registry_caches s.caches;
      },
    )
  ]

  unfoldable pub put_registry : Worker → String → Service → Result String × Service
  put_registry worker url s = elim (str_eq url "") [
    | true ↦ (err (bad_request "registry_url must not be empty"), s)
    | false ↦ elim (load X L worker url s.provider.db_path) [
      | inl e ↦ (err (bad_request ("failed to load registry: " +++ error_text e)), s)
      | inr new_provider ↦ replace_provider url new_provider s
    ]
  ]

  unfoldable pub get_registry : Service → Result String
  get_registry s = ok (L.registry_url (s.provider.registry))

  -- The fetcher that `main` makes for the first orderbook, if the local database exists and can be
  -- opened.
  unfoldable pub start_direct_trades :
      (String → Bool) → (Orderbook → Bool) → RaindexProvider X L → Option Orderbook
  start_direct_trades db_exists opens provider = elim provider.db_path [
    | none ↦ none
    | some db_path ↦
        if db_exists db_path then open_first provider.client.get_all_orderbooks else none
  ]
    where
      open_first : Option (List Orderbook) → Option Orderbook
      open_first none = none
      open_first (some []) = none
      open_first (some (ob ∷ _)) = if opens ob then some ob else none

  -- What follows the choice.
  unfoldable pub serve_from :
      Worker
      → (String → Bool)
      → (Orderbook → Bool)
      → String
      → Option String × Database
      → Option Service
  serve_from worker db_exists opens local_db_path (none, database) = none
  serve_from worker db_exists opens local_db_path (some registry_url, database) =
      elim (load X L worker registry_url (some local_db_path)) [
        | inl _ ↦ none
        | inr provider ↦ some (record {
          provider = provider;
          database = database;
          caches = empty_caches;
          direct_trades = start_direct_trades db_exists opens provider;
        })
      ]

  -- `Serve`, up to the launch: `none` is an exit.
  unfoldable pub serve :
      Worker → (String → Bool) → (Orderbook → Bool) → Config → Database → Option Service
  serve worker db_exists opens cfg db =
      serve_from worker db_exists opens cfg.local_db_path (choose_registry_url cfg.registry_url db)

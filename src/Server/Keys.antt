-- ===== src/Server/Keys.antt =====
-- What serving requests does to the database: src/main.rs with the guards of src/auth.rs, the
-- handlers of src/routes/ and src/fairings/usage_logger.rs.
use Prim.Native.String.{String}
use text.Mathlib.Text.{◌==◌ as str_eq}
use mathlib.Core.Path.{subst}
use albion_rest_api.Base.{
  ℕ, ◌≡◌, refl, ◌⊎◌, inl, inr, Bool-cases, false, Option, none, some, Option-cases, unwrap_or,
}
use albion_rest_api.Raindex.{Raindex}
use albion_rest_api.RateLimiter.{Reading}
use albion_rest_api.Database.{Database, set_setting}
use albion_rest_api.Database.Kept.{
  IsKept, IsKept-refl, IsKept-trans, insert_usage-IsKept, set_setting-IsKept,
}
use albion_rest_api.Auth.{
  Outcome, success, error, panicked, Codecs, AuthenticatedKey, Managed, Local, log_usage,
}
use albion_rest_api.Registry.{RegistryLibrary, Worker, RaindexProvider, RaindexProviderError, load}
use albion_rest_api.Registry.Service.{Service, put_registry, replace_provider, registry_key}
use albion_rest_api.Handlers.{
  Request, order_detail, order_cancel, trades_of_tx, orders_of_owner, orders_of_token, swap_quote,
  swap_calldata, trades_of_address, trades_of_taker, registry_update, registry_url, trades_batch,
  all_tokens, todo, Calls, handle, get_order, get_orders_by_address, get_orders_by_token,
  post_swap_quote, get_trades_by_tx, get_trades_by_address, get_taker_trades, post_batch,
}
use albion_rest_api.Handlers.Route.{guards_of, after_guards, route}
use albion_rest_api.Server.{
  Asked, endpoint, health, refused, unmatched, Incoming, fresh_local, Server, dispatch,
  serve_request,
}
use albion_rest_api.Server.Pools.{guards_if-pool, guards_of-pool}

unfoldable pub IsPoolKept : Option Database → Option Database → Type 0
IsPoolKept none pool = pool ≡ none
IsPoolKept (some db) pool = (db' : Database) × (pool ≡ some db') × IsKept db db'

pub IsPoolKept-refl : (pool : Option Database) → IsPoolKept pool pool
unfolding IsPoolKept
IsPoolKept-refl none = refl
IsPoolKept-refl (some db) = (db, refl, IsKept-refl db)

IsPoolKept-trans : (a b c : Option Database) → IsPoolKept a b → IsPoolKept b c → IsPoolKept a c
unfolding IsPoolKept
IsPoolKept-trans none b c p q = rw p at q
IsPoolKept-trans (some db) b c (db', p, k) q =
    let (db'', p', k') = rw p at q in (db'', p', IsKept-trans k k')

log_usage-IsPoolKept :
    (method path : String) (status : ℕ) (l : Local) (pool : Option Database)
    → IsPoolKept pool (log_usage method path status l pool)
unfolding log_usage IsPoolKept
log_usage-IsPoolKept method path status l none =
    elim (Option-cases (unwrap_or l.auth_key_id none)) [
      | inl no_key ↦ rw (log_usage, no_key) refl
      | inr (id, key) ↦ rw (log_usage, key) refl
    ]
log_usage-IsPoolKept method path status l (some db) =
    elim (Option-cases (unwrap_or l.auth_key_id none)) [
      | inl no_key ↦ rw (log_usage, no_key) (db, refl, IsKept-refl db)
      | inr (id, key) ↦ rw (log_usage, key) (_, refl, insert_usage-IsKept _ db)
    ]

module _ (X : Raindex) (L : RegistryLibrary X) (C : Calls X) where
  put_registry-IsKept :
      (worker : Worker) (url : String) (s : Service X L)
      → IsKept s.database (put_registry X L worker url s).1.database
  unfolding put_registry replace_provider
  put_registry-IsKept worker url s = elim (Bool-cases (str_eq url "")) [
    | inl missing ↦ rw (put_registry, missing) (IsKept-refl s.database)
    | inr given ↦ loading given (load X L worker url s.provider.db_path) refl
  ]
    where
      loading :
          str_eq url "" ≡ false
          → (r : RaindexProviderError ⊎ RaindexProvider X L)
          → load X L worker url s.provider.db_path ≡ r
          → IsKept s.database (put_registry X L worker url s).1.database
      loading given (inl e) is = rw (put_registry, given, is) (IsKept-refl s.database)
      loading given (inr p) is = elim (Option-cases (set_setting registry_key url s.database)) [
        | inl faulty ↦
            rw (put_registry, replace_provider, given, is, faulty) (IsKept-refl s.database)
        | inr (db, stored) ↦
            rw (put_registry, replace_provider, given, is, stored)
              (set_setting-IsKept registry_key url s.database db stored)
      ]

  handle-IsKept :
      (req : Request) (s : Service X L) → IsKept s.database (handle X L C req s).1.database
  unfolding handle get_order get_orders_by_address get_orders_by_token post_swap_quote
      get_trades_by_tx get_trades_by_address get_taker_trades post_batch
  handle-IsKept (registry_update worker url) s = put_registry-IsKept worker url s
  handle-IsKept (order_detail _) s = IsKept-refl s.database
  handle-IsKept (order_cancel _) s = IsKept-refl s.database
  handle-IsKept (trades_of_tx _) s = IsKept-refl s.database
  handle-IsKept (orders_of_owner _ _ _) s = IsKept-refl s.database
  handle-IsKept (orders_of_token _ _ _ _) s = IsKept-refl s.database
  handle-IsKept (swap_quote _) s = IsKept-refl s.database
  handle-IsKept (swap_calldata _) s = IsKept-refl s.database
  handle-IsKept (trades_of_address _ _) s = IsKept-refl s.database
  handle-IsKept (trades_of_taker _ _) s = IsKept-refl s.database
  handle-IsKept registry_url s = IsKept-refl s.database
  handle-IsKept (trades_batch _) s = IsKept-refl s.database
  handle-IsKept all_tokens s = IsKept-refl s.database
  handle-IsKept (todo _) s = IsKept-refl s.database

  after_guards-IsPoolKept :
      (o : Outcome AuthenticatedKey × Managed × Local) (req : Request) (s : Service X L)
      → IsPoolKept o.1.pool (after_guards X L C o req s).managed.pool
  unfolding after_guards IsPoolKept
  after_guards-IsPoolKept (success key, m, l) req s = elim (Option-cases m.pool) [
    | inl missing ↦ rw missing refl
    | inr (db, has) ↦ rw has (_, refl, handle-IsKept req (record s { database = db }))
  ]
  after_guards-IsPoolKept (error status e, m, l) req s = IsPoolKept-refl m.pool
  after_guards-IsPoolKept (panicked, m, l) req s = IsPoolKept-refl m.pool

  dispatch-IsPoolKept :
      (c : Codecs) (r r' : Reading) (id : String) (header : Option String) (asked : Asked)
      (v : Server X L C)
      → IsPoolKept v.managed.pool (dispatch X L C c r r' id header asked v).1.pool
  unfolding dispatch route
  dispatch-IsPoolKept c r r' id header (endpoint req) v =
      let o = guards_of req c r r' header v.managed fresh_local in
      subst (λ pool. IsPoolKept pool (after_guards X L C o req v.service).managed.pool)
        (guards_of-pool c r r' header v.managed fresh_local req)
        (after_guards-IsPoolKept o req v.service)
  dispatch-IsPoolKept c r r' id header health v = IsPoolKept-refl v.managed.pool
  dispatch-IsPoolKept c r r' id header (refused admin status) v =
      rw (guards_if-pool c r r' header v.managed fresh_local admin) (IsPoolKept-refl v.managed.pool)
  dispatch-IsPoolKept c r r' id header unmatched v = IsPoolKept-refl v.managed.pool

  pub serve_request-IsPoolKept :
      (c : Codecs) (r r' : Reading) (uuid : String) (inc : Incoming) (v : Server X L C)
      → IsPoolKept v.managed.pool (serve_request X L C c r r' uuid inc v).1.managed.pool
  unfolding serve_request
  serve_request-IsPoolKept c r r' uuid inc v =
      IsPoolKept-trans v.managed.pool _ _
        (dispatch-IsPoolKept c r r' _ inc.authorization inc.asked v)
        (log_usage-IsPoolKept inc.method inc.path _ _ _)

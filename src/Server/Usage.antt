-- ===== src/Server/Usage.antt =====
-- What serving a request of src/main.rs adds to the log of src/fairings/usage_logger.rs.
use Prim.Native.String.{String}
use text.Mathlib.Text.{◌==◌ as str_eq}
use mathlib.Core.List.{append-nil}
use albion_rest_api.Base.{
  ℕ, ◌≡◌, refl, sym, ap, ◌∙◌, ◌⊎◌, inl, inr, Bool-cases, true, false, none, some, Option-cases,
  unwrap_or, List, [], ◌∷◌, ◌++◌, arith, if◌then◌else◌,
}
use albion_rest_api.Raindex.{Raindex}
use albion_rest_api.RateLimiter.{Reading}
use albion_rest_api.Database.{Database, UsageLog, set_setting, insert_usage, contains_id}
use albion_rest_api.Auth.{
  Outcome, success, error, panicked, Codecs, AuthenticatedKey, Managed, Local, log_usage,
}
use albion_rest_api.Registry.{RegistryLibrary, Worker, RaindexProvider, RaindexProviderError, load}
use albion_rest_api.Registry.Service.{Service, put_registry, replace_provider, registry_key}
use albion_rest_api.Handlers.{
  Request, order_detail, order_cancel, trades_of_tx, orders_of_owner, orders_of_token, swap_quote,
  swap_calldata, trades_of_address, trades_of_taker, registry_update, registry_url, trades_batch,
  all_tokens, todo, Calls, handle, get_order, get_orders_by_address, get_orders_by_token,
  post_swap_quote, get_trades_by_tx, get_trades_by_address, get_taker_trades, post_batch,
}
use albion_rest_api.Handlers.Route.{guards_of, after_guards, route}
use albion_rest_api.Server.{endpoint, Incoming, fresh_local, Server, dispatch, serve_request}
use albion_rest_api.Server.Pools.{guards_of-pool}

record IsSameLog (before after : Database) : Type 0 where
  same_logs : after.usage_logs ≡ before.usage_logs
  same_keys : after.api_keys ≡ before.api_keys
  same_state : after.faulty ≡ before.faulty

IsSameLog-refl : (db : Database) → IsSameLog db db
IsSameLog-refl db = record { same_logs = refl; same_keys = refl; same_state = refl }

set_setting-IsSameLog :
    (key value : String) (db db' : Database)
    → set_setting key value db ≡ some db'
    → IsSameLog db db'
unfolding set_setting
set_setting-IsSameLog key value db db' h = elim (Bool-cases db.faulty) [
  | inl bad ↦ absurd (ground (arith, bad, h))
  | inr good ↦ record {
    same_logs = ground (arith, good, h);
    same_keys = ground (arith, good, h);
    same_state = ground (arith, good, h);
  }
]

abbrev pub row_of : String → String → ℕ → ℕ → UsageLog
row_of method path status id = record {
  api_key_id = id;
  method = method;
  path = path;
  status_code = status;
}

-- The row of a response: of the key that the guards have found, if the table has it.
unfoldable pub usage_rows : String → String → ℕ → Local → Database → List UsageLog
usage_rows method path status l db = elim (unwrap_or l.auth_key_id none) [
  | none ↦ []
  | some id ↦ if contains_id id db.api_keys then row_of method path status id ∷ [] else []
]

log_usage-usage_rows :
    (method path : String) (status : ℕ) (l : Local) (db before : Database)
    → IsSameLog before db
    → before.faulty ≡ false
    → (db' : Database) × (log_usage method path status l (some db) ≡ some db')
      × (db'.usage_logs ≡ before.usage_logs ++ usage_rows method path status l before)
unfolding log_usage usage_rows insert_usage
log_usage-usage_rows method path status l db before same up =
    elim (Option-cases (unwrap_or l.auth_key_id none)) [
      | inl no_key ↦
          rw (log_usage, usage_rows, no_key)
            (db, refl, same.same_logs ∙ sym (append-nil before.usage_logs))
      | inr (id, key) ↦ elim (Bool-cases (contains_id id before.api_keys)) [
        | inl there ↦
            let found : contains_id id db.api_keys ≡ true =
              ap (contains_id id) same.same_keys ∙ there in
            rw (log_usage, usage_rows, key, insert_usage, same.same_state, up, found, there)
              (_, refl, ap (λ rows. rows ++ row_of method path status id ∷ []) same.same_logs)
        | inr lost ↦
            let gone : contains_id id db.api_keys ≡ false =
              ap (contains_id id) same.same_keys ∙ lost in
            rw (log_usage, usage_rows, key, insert_usage, same.same_state, up, gone, lost)
              (_, refl, same.same_logs ∙ sym (append-nil before.usage_logs))
      ]
    ]

module _ (X : Raindex) (L : RegistryLibrary X) (C : Calls X) where
  put_registry-IsSameLog :
      (worker : Worker) (url : String) (s : Service X L)
      → IsSameLog s.database (put_registry X L worker url s).1.database
  unfolding put_registry replace_provider
  put_registry-IsSameLog worker url s = elim (Bool-cases (str_eq url "")) [
    | inl missing ↦ rw (put_registry, missing) (IsSameLog-refl s.database)
    | inr given ↦ loading given (load X L worker url s.provider.db_path) refl
  ]
    where
      loading :
          str_eq url "" ≡ false
          → (r : RaindexProviderError ⊎ RaindexProvider X L)
          → load X L worker url s.provider.db_path ≡ r
          → IsSameLog s.database (put_registry X L worker url s).1.database
      loading given (inl e) is = rw (put_registry, given, is) (IsSameLog-refl s.database)
      loading given (inr p) is = elim (Option-cases (set_setting registry_key url s.database)) [
        | inl faulty ↦
            rw (put_registry, replace_provider, given, is, faulty) (IsSameLog-refl s.database)
        | inr (db, stored) ↦
            rw (put_registry, replace_provider, given, is, stored)
              (set_setting-IsSameLog registry_key url s.database db stored)
      ]

  handle-IsSameLog :
      (req : Request) (s : Service X L) → IsSameLog s.database (handle X L C req s).1.database
  unfolding handle get_order get_orders_by_address get_orders_by_token post_swap_quote
      get_trades_by_tx get_trades_by_address get_taker_trades post_batch
  handle-IsSameLog (registry_update worker url) s = put_registry-IsSameLog worker url s
  handle-IsSameLog (order_detail _) s = IsSameLog-refl s.database
  handle-IsSameLog (order_cancel _) s = IsSameLog-refl s.database
  handle-IsSameLog (trades_of_tx _) s = IsSameLog-refl s.database
  handle-IsSameLog (orders_of_owner _ _ _) s = IsSameLog-refl s.database
  handle-IsSameLog (orders_of_token _ _ _ _) s = IsSameLog-refl s.database
  handle-IsSameLog (swap_quote _) s = IsSameLog-refl s.database
  handle-IsSameLog (swap_calldata _) s = IsSameLog-refl s.database
  handle-IsSameLog (trades_of_address _ _) s = IsSameLog-refl s.database
  handle-IsSameLog (trades_of_taker _ _) s = IsSameLog-refl s.database
  handle-IsSameLog registry_url s = IsSameLog-refl s.database
  handle-IsSameLog (trades_batch _) s = IsSameLog-refl s.database
  handle-IsSameLog all_tokens s = IsSameLog-refl s.database
  handle-IsSameLog (todo _) s = IsSameLog-refl s.database

  after_guards-IsSameLog :
      (o : Outcome AuthenticatedKey × Managed × Local) (req : Request) (s : Service X L)
      (db : Database)
      → o.1.pool ≡ some db
      → (db' : Database) × ((after_guards X L C o req s).managed.pool ≡ some db')
        × ((after_guards X L C o req s).cached ≡ o.2)
        × IsSameLog db db'
  unfolding after_guards
  after_guards-IsSameLog (success key, m, l) req s db has =
      rw has (_, refl, refl, handle-IsSameLog req (record s { database = db }))
  after_guards-IsSameLog (error status e, m, l) req s db has = (db, has, refl, IsSameLog-refl db)
  after_guards-IsSameLog (panicked, m, l) req s db has = (db, has, refl, IsSameLog-refl db)

  -- A request of a route adds to the usage log of a database that answers the one row of the key that
  -- the guards of the route have found, with the method and the path of the request and the status of
  -- its page, whatever the handler answers; and no row if they have found none or the table has lost it.
  pub serve_request-usage_rows :
      (c : Codecs) (r r' : Reading) (uuid : String) (inc : Incoming) (v : Server X L C)
      (req : Request) (db : Database)
      → inc.asked ≡ endpoint req
      → v.managed.pool ≡ some db
      → db.faulty ≡ false
      → (db' : Database) × ((serve_request X L C c r r' uuid inc v).1.managed.pool ≡ some db')
        × (db'.usage_logs
            ≡ db.usage_logs
              ++ usage_rows inc.method inc.path
                  (serve_request X L C c r r' uuid inc v).0.page.status
                  (guards_of req c r r' inc.authorization v.managed fresh_local).2
                  db)
  unfolding serve_request dispatch route
  serve_request-usage_rows c r r' uuid inc v req db asks has up =
      let o = guards_of req c r r' inc.authorization v.managed fresh_local in
      let (db', is, kept, same) =
        after_guards-IsSameLog o req v.service db
          (guards_of-pool c r r' inc.authorization v.managed fresh_local req ∙ has) in
      rw (asks, kept, is) (log_usage-usage_rows inc.method inc.path _ o.2 db' db same up)

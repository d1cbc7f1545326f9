-- ===== src/Handlers/Route.antt =====
-- The handlers behind the guards of their parameters.
use Prim.Native.String.{String}
use mathlib.Core.Option
use mathlib.Core.Path.{subst}
use albion_rest_api.Base.{
  ◌≡◌, refl, sym, ap, ◌∙◌, ◌⊎◌, inl, inr, true, Bool-cases, Option, unwrap_or, arith,
}
use albion_rest_api.Raindex.{Raindex}
use albion_rest_api.RateLimiter.{Reading}
use albion_rest_api.Auth.{
  Outcome, success, error, panicked, Codecs, AuthenticatedKey, Managed, Local, limit_global,
  authenticate, require_admin, authenticate_admin, guard_route,
}
use albion_rest_api.Auth.Sound.{IsGranted, authenticate-success_iff}
use albion_rest_api.Registry.{RegistryLibrary, Worker}
use albion_rest_api.Registry.Service.{Service}
use albion_rest_api.Handlers.{
  Request, order_detail, order_cancel, trades_of_tx, orders_of_owner, orders_of_token, swap_quote,
  swap_calldata, trades_of_address, trades_of_taker, registry_update, registry_url, trades_batch,
  all_tokens, todo, post_batch, Answer, Calls, get_order, get_orders_by_address,
  get_orders_by_token, post_swap_quote, get_trades_by_tx, get_trades_by_address, get_taker_trades,
  handle,
}

-- The guards of `put_registry`, in the order of its parameters.
unfoldable pub guard_admin_route :
    Codecs
    → Reading
    → Reading
    → Option String
    → Managed
    → Local
    → Outcome AuthenticatedKey × Managed × Local
guard_admin_route c r r' header m l =
    let (outcome, m', l') = limit_global r m l in
    elim outcome [
      | success _ ↦ authenticate_admin c r' header m' l'
      | error status e ↦ (error status e, m', l')
      | panicked ↦ (panicked, m', l')
    ]

-- Those of each request.
unfoldable pub guards_of :
    Request
    → Codecs
    → Reading
    → Reading
    → Option String
    → Managed
    → Local
    → Outcome AuthenticatedKey × Managed × Local
guards_of (registry_update _ _) = guard_admin_route
guards_of (order_detail _) = guard_route
guards_of (order_cancel _) = guard_route
guards_of (trades_of_tx _) = guard_route
guards_of (orders_of_owner _ _ _) = guard_route
guards_of (orders_of_token _ _ _ _) = guard_route
guards_of (swap_quote _) = guard_route
guards_of (swap_calldata _) = guard_route
guards_of (trades_of_address _ _) = guard_route
guards_of (trades_of_taker _ _) = guard_route
guards_of registry_url = guard_route
guards_of (trades_batch _) = guard_route
guards_of all_tokens = guard_route
guards_of (todo _) = guard_route

module _ (X : Raindex) (L : RegistryLibrary X) (C : Calls X) where
  pub record Served : Type 0 where
    pub outcome : Outcome Answer
    pub managed : Managed
    pub cached : Local
    pub service : Service X L

  -- The handler works on the database of the pool, and runs only if the guards succeed.
  unfoldable pub after_guards :
      Outcome AuthenticatedKey × Managed × Local → Request → Service X L → Served
  after_guards (success key, m, l) req s =
      let (answer, next) = handle X L C req (record s { database = unwrap_or m.pool s.database }) in
      record {
        outcome = success answer;
        managed = record m { pool = Option.map (λ _. next.database) m.pool };
        cached = l;
        service = next;
      }
  after_guards (error status e, m, l) req s = record {
    outcome = error status e;
    managed = m;
    cached = l;
    service = s;
  }
  after_guards (panicked, m, l) req s = record {
    outcome = panicked;
    managed = m;
    cached = l;
    service = s;
  }

  unfoldable pub route :
      Codecs → Reading → Reading → Option String → Request → Managed → Local → Service X L → Served
  route c r r' header req m l s = after_guards (guards_of req c r r' header m l) req s

  -- The request is an update, of an active key of the database that the header's secret verifies,
  -- within the limit of that key, and the key is an admin's.
  unfoldable pub IsAdminUpdate : Codecs → Reading → Option String → Managed → Request → Type 0
  IsAdminUpdate c r header m req =
      (worker : Worker) × (url : String) × (key : AuthenticatedKey) × (req
        ≡ registry_update worker url)
      × IsGranted c r header m key
      × (key.is_admin ≡ true)

  require_admin-success :
      (o : Outcome AuthenticatedKey) (key : AuthenticatedKey)
      → require_admin o ≡ success key
      → (o ≡ success key) × (key.is_admin ≡ true)
  unfolding require_admin
  require_admin-success (error status e) key h = absurd cc
  require_admin-success panicked key h = absurd cc
  require_admin-success (success k) key h = elim (Bool-cases k.is_admin) [
    | inl granted ↦
        let same : k ≡ key = ground (arith, granted, h) in
        (ap success same, sym (ap (λ q. q.is_admin) same) ∙ granted)
    | inr refused ↦ absurd (ground (arith, refused, h))
  ]

  guard_admin_route-IsGranted :
      (c : Codecs) (r r' : Reading) (header : Option String) (m : Managed) (l : Local)
      (key : AuthenticatedKey)
      → (guard_admin_route c r r' header m l).0 ≡ success key
      → IsGranted c r' header (limit_global r m l).1 key × (key.is_admin ≡ true)
  unfolding guard_admin_route authenticate_admin
  guard_admin_route-IsGranted c r r' header m l key h = behind (limit_global r m l) h
    where
      behind :
          (o : Outcome (Unit {0}) × Managed × Local)
          → (elim (o.0) as (λ _. Outcome AuthenticatedKey × Managed × Local) [
            | success _ ↦ authenticate_admin c r' header (o.1) (o.2)
            | error status e ↦ (error status e, o.1, o.2)
            | panicked ↦ (panicked, o.1, o.2)
          ]).0
            ≡ success key
          → IsGranted c r' header (o.1) key × (key.is_admin ≡ true)
      behind (success _, m', l') k =
          let (let_in, admin) = require_admin-success (authenticate c r' header m' l').0 key k in
          ((authenticate-success_iff c r' header m' l' key).0 let_in, admin)
      behind (error status e, m', l') k = absurd cc
      behind (panicked, m', l') k = absurd cc

  -- Only an update replaces the provider.
  abbrev IsUpdate : Request → Type 0
  IsUpdate req = (worker : Worker) × (url : String) × (req ≡ registry_update worker url)

  handle-IsUpdate :
      (req : Request) (s : Service X L)
      → ((handle X L C req s).1.provider ≡ s.provider) ⊎ IsUpdate req
  unfolding handle get_order get_orders_by_address get_orders_by_token post_swap_quote
      get_trades_by_tx get_trades_by_address get_taker_trades post_batch
  handle-IsUpdate (registry_update worker url) s = inr (worker, url, refl)
  handle-IsUpdate (order_detail _) s = inl refl
  handle-IsUpdate (order_cancel _) s = inl refl
  handle-IsUpdate (trades_of_tx _) s = inl refl
  handle-IsUpdate (orders_of_owner _ _ _) s = inl refl
  handle-IsUpdate (orders_of_token _ _ _ _) s = inl refl
  handle-IsUpdate (swap_quote _) s = inl refl
  handle-IsUpdate (swap_calldata _) s = inl refl
  handle-IsUpdate (trades_of_address _ _) s = inl refl
  handle-IsUpdate (trades_of_taker _ _) s = inl refl
  handle-IsUpdate registry_url s = inl refl
  handle-IsUpdate (trades_batch _) s = inl refl
  handle-IsUpdate all_tokens s = inl refl
  handle-IsUpdate (todo _) s = inl refl

  after_guards-IsUpdate :
      (o : Outcome AuthenticatedKey × Managed × Local) (req : Request) (s : Service X L)
      → ((after_guards o req s).service.provider ≡ s.provider)
        ⊎ ((key : AuthenticatedKey) × (o.0 ≡ success key) × IsUpdate req)
  unfolding after_guards
  after_guards-IsUpdate (success key, m, l) req s =
      elim (handle-IsUpdate req (record s { database = unwrap_or m.pool s.database })) [
        | inl same ↦ inl same
        | inr update ↦ inr (key, refl, update)
      ]
  after_guards-IsUpdate (error status e, m, l) req s = inl refl
  after_guards-IsUpdate (panicked, m, l) req s = inl refl

  -- Whatever a client sends, the provider that serves stays the same, unless the request is an update
  -- of the registry whose credentials name an active key of the database, with its secret, within
  -- the key's limit, and the key is an admin's.
  pub route-IsAdminUpdate :
      (c : Codecs) (r r' : Reading) (header : Option String) (req : Request) (m : Managed)
      (l : Local) (s : Service X L)
      → ((route c r r' header req m l s).service.provider ≡ s.provider)
        ⊎ IsAdminUpdate c r' header (limit_global r m l).1 req
  unfolding route IsAdminUpdate guards_of
  route-IsAdminUpdate c r r' header req m l s =
      elim (after_guards-IsUpdate (guards_of req c r r' header m l) req s) [
        | inl same ↦ inl same
        | inr (key, passed, (worker, url, is)) ↦
            let admin =
              guard_admin_route-IsGranted c r r' header m l key
                (subst (λ q. (guards_of q c r r' header m l).0 ≡ success key) is passed) in
            inr (worker, url, key, is, admin.0, admin.1)
      ]

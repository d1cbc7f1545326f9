-- ===== src/Server/Pools.antt =====
-- The guards of src/auth.rs and src/fairings/rate_limiter.rs only read the database.
use Prim.Native.String.{String}
use albion_rest_api.Base.{◌≡◌, refl, ◌∙◌, true, false, Option, inl, inr, Bool, arith}
use albion_rest_api.RateLimiter.{Reading}
use albion_rest_api.Database.{ApiKeyRow}
use albion_rest_api.Auth.{
  Outcome, success, error, panicked, Codecs, AuthenticatedKey, Managed, Local, charge_key,
  authenticate, authenticate_admin, limit_global, guard_route,
}
use albion_rest_api.Auth.Usage.{limit_global-pool, authenticate_refused, authenticate_authorized}
use albion_rest_api.Handlers.{
  Request, order_detail, order_cancel, trades_of_tx, orders_of_owner, orders_of_token, swap_quote,
  swap_calldata, trades_of_address, trades_of_taker, registry_update, registry_url, trades_batch,
  all_tokens, todo,
}
use albion_rest_api.Handlers.Route.{guard_admin_route, guards_of}
use albion_rest_api.Server.{guards_if}

charge_key-pool :
    (r : Reading) (row : ApiKeyRow) (m : Managed) (l : Local)
    → (charge_key r row m l).1.pool ≡ m.pool
unfolding charge_key
charge_key-pool r row m l = ground arith

authenticate-pool :
    (c : Codecs) (r : Reading) (header : Option String) (m : Managed) (l : Local)
    → (authenticate c r header m l).1.pool ≡ m.pool
authenticate-pool c r header m l = elim (authenticate_refused c r header m l) [
  | inl (row, a) ↦ rw (authenticate_authorized c r header m l row a) (charge_key-pool r row m l)
  | inr (same, _) ↦ rw same refl
]

-- No guard touches the pool.
guard_route-pool :
    (c : Codecs) (r r' : Reading) (header : Option String) (m : Managed) (l : Local)
    → (guard_route c r r' header m l).1.pool ≡ m.pool
unfolding guard_route
guard_route-pool c r r' header m l = behind (limit_global r m l) ∙ limit_global-pool r m l
  where
    behind :
        (o : Outcome (Unit {0}) × Managed × Local)
        → (elim (o.0) as (λ _. Outcome AuthenticatedKey × Managed × Local) [
          | success _ ↦ authenticate c r' header (o.1) (o.2)
          | error status e ↦ (error status e, o.1, o.2)
          | panicked ↦ (panicked, o.1, o.2)
        ]).1.pool
          ≡ o.1.pool
    behind (success _, m', l') = authenticate-pool c r' header m' l'
    behind (error status e, m', l') = refl
    behind (panicked, m', l') = refl

guard_admin_route-pool :
    (c : Codecs) (r r' : Reading) (header : Option String) (m : Managed) (l : Local)
    → (guard_admin_route c r r' header m l).1.pool ≡ m.pool
unfolding guard_admin_route authenticate_admin
guard_admin_route-pool c r r' header m l = behind (limit_global r m l) ∙ limit_global-pool r m l
  where
    behind :
        (o : Outcome (Unit {0}) × Managed × Local)
        → (elim (o.0) as (λ _. Outcome AuthenticatedKey × Managed × Local) [
          | success _ ↦ authenticate_admin c r' header (o.1) (o.2)
          | error status e ↦ (error status e, o.1, o.2)
          | panicked ↦ (panicked, o.1, o.2)
        ]).1.pool
          ≡ o.1.pool
    behind (success _, m', l') = authenticate-pool c r' header m' l'
    behind (error status e, m', l') = refl
    behind (panicked, m', l') = refl

module _ (c : Codecs) (r r' : Reading) (header : Option String) (m : Managed) (l : Local) where
  pub guards_if-pool : (admin : Bool) → (guards_if admin c r r' header m l).1.pool ≡ m.pool
  unfolding guards_if
  guards_if-pool true = guard_admin_route-pool c r r' header m l
  guards_if-pool false = guard_route-pool c r r' header m l

  pub guards_of-pool : (req : Request) → (guards_of req c r r' header m l).1.pool ≡ m.pool
  unfolding guards_of
  guards_of-pool (registry_update _ _) = guard_admin_route-pool c r r' header m l
  guards_of-pool (order_detail _) = guard_route-pool c r r' header m l
  guards_of-pool (order_cancel _) = guard_route-pool c r r' header m l
  guards_of-pool (trades_of_tx _) = guard_route-pool c r r' header m l
  guards_of-pool (orders_of_owner _ _ _) = guard_route-pool c r r' header m l
  guards_of-pool (orders_of_token _ _ _ _) = guard_route-pool c r r' header m l
  guards_of-pool (swap_quote _) = guard_route-pool c r r' header m l
  guards_of-pool (swap_calldata _) = guard_route-pool c r r' header m l
  guards_of-pool (trades_of_address _ _) = guard_route-pool c r r' header m l
  guards_of-pool (trades_of_taker _ _) = guard_route-pool c r r' header m l
  guards_of-pool registry_url = guard_route-pool c r r' header m l
  guards_of-pool (trades_batch _) = guard_route-pool c r r' header m l
  guards_of-pool all_tokens = guard_route-pool c r r' header m l
  guards_of-pool (todo _) = guard_route-pool c r r' header m l

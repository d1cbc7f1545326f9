-- ===== src/Handlers/Examples.antt =====
-- Requests and updates on a small service.
use albion_rest_api.Trades.Batch.Fresh.{IsPointwise, fetched}
use albion_rest_api.Base.{◌≡◌, true, none, some, List, [], ◌∷◌}
use albion_rest_api.Raindex.Sample.{sample}
use albion_rest_api.Registry.{runs, panics}
use albion_rest_api.Registry.Sample.{library, service}
use albion_rest_api.Registry.Service.{empty_caches}
use albion_rest_api.Handlers.{
  Request, order_detail, order_cancel, trades_of_taker, orders_of_owner, registry_update,
  registry_url, trades_batch, all_tokens, todo, dca, handle_all,
}
use albion_rest_api.Handlers.Sample.{calls}
use albion_rest_api.Handlers.Direct.{with_caches, direct_all}
use albion_rest_api.Handlers.Uncached.{handle_all-direct_all}
use albion_rest_api.Text.{byte_len, split_at_byte, eq_ignore_ascii_case, split_once}
use albion_rest_api.Database.{select_active, set_setting}
use albion_rest_api.RateLimiter.{
  new, check_global, check_per_key, prune_window, decide_window, compute_reset, clean_up,
  put_window,
}
use albion_rest_api.Auth.{
  Managed, error, credentials_of, verify_key, settle, remember, cache_once, charge_key,
  authenticate, require_admin, authenticate_admin, limit_global,
}
use albion_rest_api.Auth.Sample.{codecs, row, db, reading, managed, fresh, header}
use albion_rest_api.Registry.Service.{put_registry, replace_provider}
use albion_rest_api.Registry.{load, init_client, error_text}
use albion_rest_api.Handlers.{handle}
use albion_rest_api.Handlers.Route.{
  guard_admin_route, guards_of, after_guards, route, Served, IsAdminUpdate, route-IsAdminUpdate,
}
use albion_rest_api.Error.{forbidden}
use albion_rest_api.Base.{Bool, false, refl, ◌⊎◌}

-- The detail of an order is asked for twice before an update of the registry and once after it.
abbrev requests : List Request
requests =
    order_detail 7
    ∷ order_detail 7
    ∷ orders_of_owner 1 none (some 5)
    ∷ registry_update panics "b"
    ∷ registry_update runs "b"
    ∷ registry_url
    ∷ trades_batch (7 ∷ 8 ∷ [])
    ∷ trades_batch (7 ∷ [])
    ∷ all_tokens
    ∷ todo dca
    ∷ order_detail 7
    ∷ order_cancel 8
    ∷ trades_of_taker 4
        (record { page = none; page_size = some 2; start_time = none; end_time = none })
    ∷ []

handle_all-direct_all_example :
    handle_all sample library calls requests (with_caches sample library calls empty_caches service)
    ≡ direct_all sample library calls requests service
unfolding IsPointwise fetched
handle_all-direct_all_example =
    handle_all-direct_all sample library calls (λ _ _ _ _. refl) requests service

-- The key of the database, as an admin's and as another's.
abbrev admins : Bool → Managed
admins is_admin = managed (record db { api_keys = record row { is_admin = is_admin } ∷ [] }) 9

program : Unit {0}
unfolding new check_global check_per_key prune_window decide_window compute_reset clean_up
    put_window byte_len split_at_byte eq_ignore_ascii_case split_once select_active credentials_of
    verify_key settle remember cache_once charge_key authenticate require_admin authenticate_admin
    limit_global guard_admin_route guards_of after_guards route handle put_registry replace_provider
    load init_client error_text set_setting
program = tt

abbrev serve_update : Bool → Served sample library calls
serve_update is_admin =
    route sample library calls codecs reading reading header (registry_update runs "b")
      (admins is_admin) fresh service

updated_run : (serve_update true).service.provider.registry ≡ "b"
unfolding program
updated_run = refl

refused_run : (serve_update false).outcome ≡ error 403 (forbidden "admin access required")
unfolding program
refused_run = refl

route-IsAdminUpdate_example :
    ((serve_update true).service.provider ≡ service.provider)
    ⊎ IsAdminUpdate sample library calls codecs reading header
        (limit_global reading (admins true) fresh).1
        (registry_update runs "b")
route-IsAdminUpdate_example =
    route-IsAdminUpdate sample library calls codecs reading reading header
      (registry_update runs "b") (admins true) fresh service

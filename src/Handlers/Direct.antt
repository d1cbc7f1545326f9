-- ===== src/Handlers/Direct.antt =====
-- The service without caches.
use Prim.Native.String.{String}
use text.Mathlib.Text.{◌==◌ as str_eq}
use albion_rest_api.Base.{
  ◌≡◌, refl, ap, ap₂, ◌∙◌, false, Bool-cases, Option, none, some, Option-cases, List, [], ◌∷◌, ◌⊎◌,
  inl, inr,
}
use albion_rest_api.Raindex.{Raindex}
use albion_rest_api.Database.{set_setting}
use albion_rest_api.Cache.Keys.{nat_eq}
use albion_rest_api.Cache.{empty_cache, invalidate_all}
use albion_rest_api.Orders.Listing.{process_get_orders_by_owner, process_get_orders_by_token}
use albion_rest_api.Order.{raindex_order_source}
use albion_rest_api.Order.Detail.{process_get_order}
use albion_rest_api.Order.Cancel.{process_cancel_order}
use albion_rest_api.Swap.{raindex_swap_source, process_swap_quote, process_swap_calldata}
use albion_rest_api.Trades.{process_get_trades_by_address}
use albion_rest_api.Trades.Tx.{process_get_trades_by_tx}
use albion_rest_api.Trades.Client.{raindex_tx_source, raindex_trades_source, raindex_batch_source}
use albion_rest_api.Trades.Batch.{post_trades_batch}
use albion_rest_api.Raindex.{Address}
use albion_rest_api.Raindex.Client.{Orderbook}
use albion_rest_api.Error.{Result, ok}
use albion_rest_api.Trades.{TradesPaginationParams}
use albion_rest_api.Trades.Tx.{TxDataSource}
use albion_rest_api.Trades.Taker.{TakerTradesResponse, no_fetcher}
use albion_rest_api.Trades.Taker.Direct.{taker_trades}
use albion_rest_api.Registry.{RegistryLibrary, RaindexProviderError, Worker, RaindexProvider, load}
use albion_rest_api.Registry.Service.{
  Caches, registry_caches, registry_key, Service, replace_provider, put_registry, get_registry,
}
use albion_rest_api.Handlers.{
  Request, order_detail, order_cancel, trades_of_tx, orders_of_owner, orders_of_token, swap_quote,
  swap_calldata, trades_of_address, trades_of_taker, taker, registry_update, registry_url, Answer,
  detail, cancellation, orders, quote, calldata, tx_trades, address_trades, registry, trades_batch,
  all_tokens, todo, batch, token_list, stub_answer, batch_fetcher, get_tokens, Calls, quote_key_eq,
  raindex_orders_source,
}

module _ (X : Raindex) (L : RegistryLibrary X) (C : Calls X) where
  -- The market orders of a taker, by the fetcher for an orderbook.
  unfoldable pub direct_taker :
      TxDataSource X
      → Option Orderbook
      → Address
      → TradesPaginationParams
      → Result TakerTradesResponse
  direct_taker ds none address params = ok (no_fetcher params)
  direct_taker ds (some orderbook) address params =
      taker_trades X ds (C.fetch_taker_tx_hashes orderbook) address params

  -- The answer of the provider that serves, without any cache.
  unfoldable pub direct : Request → Service X L → Answer
  direct (order_detail hash) s =
      detail (some (process_get_order X (raindex_order_source X s.provider.client) hash))
  direct (order_cancel hash) s =
      cancellation (process_cancel_order X (raindex_order_source X s.provider.client) hash)
  direct (trades_of_tx tx_hash) s = tx_trades (
      some (process_get_trades_by_tx X (raindex_tx_source X s.provider.client C.show_hash) tx_hash))
  direct (orders_of_owner address page page_size) s = orders (
      process_get_orders_by_owner X (raindex_orders_source X L C s.provider.client) address page
        page_size)
  direct (orders_of_token address side page page_size) s = orders (
      process_get_orders_by_token X (raindex_orders_source X L C s.provider.client) address side
        page page_size)
  direct (swap_quote req) s =
      let T = C.take_orders s.provider.client in
      quote (some (process_swap_quote X T (raindex_swap_source X T s.provider.client) req))
  direct (swap_calldata req) s =
      let T = C.take_orders s.provider.client in
      calldata (process_swap_calldata X T (raindex_swap_source X T s.provider.client) req)
  direct (trades_of_address address params) s =
      address_trades
        (process_get_trades_by_address X (raindex_trades_source X s.provider.client) address params)
  direct (trades_of_taker address params) s = taker (
      some (
        direct_taker (raindex_tx_source X s.provider.client C.show_hash) s.direct_trades address
          params))
  direct (registry_update worker url) s = registry (put_registry X L worker url s).0
  direct registry_url s = registry (get_registry X L s)
  direct (trades_batch order_hashes) s =
      batch
        (post_trades_batch X (raindex_batch_source X s.provider.client) empty_cache
          (batch_fetcher X L C s.direct_trades) order_hashes).0
  direct all_tokens s = token_list (get_tokens X L C s)
  direct (todo stub) s = stub_answer stub

  -- The service after the request, but for its caches.
  unfoldable pub updated : Request → Service X L → Service X L
  updated (registry_update worker url) s = (put_registry X L worker url s).1
  updated (order_detail _) s = s
  updated (order_cancel _) s = s
  updated (trades_of_tx _) s = s
  updated (orders_of_owner _ _ _) s = s
  updated (orders_of_token _ _ _ _) s = s
  updated (swap_quote _) s = s
  updated (swap_calldata _) s = s
  updated (trades_of_address _ _) s = s
  updated (trades_of_taker _ _) s = s
  updated registry_url s = s
  updated (trades_batch _) s = s
  updated all_tokens s = s
  updated (todo _) s = s

  unfoldable pub direct_all : List Request → Service X L → List Answer
  direct_all [] s = []
  direct_all (r ∷ rs) s = direct r s ∷ direct_all rs (updated r s)

  -- The same service with other caches.
  abbrev pub with_caches : Caches → Service X L → Service X L
  with_caches c s = record s { caches = c }

  -- What the caches hold decides neither the answer to an update nor the rest of its effect.
  put_registry-with_caches :
      (worker : Worker) (url : String) (c : Caches) (s : Service X L)
      → ((put_registry X L worker url (with_caches c s)).0 ≡ (put_registry X L worker url s).0)
        × ((c' : Caches) × ((put_registry X L worker url (with_caches c s)).1
              ≡ with_caches c' (put_registry X L worker url s).1))
  unfolding put_registry replace_provider
  put_registry-with_caches worker url c s = elim (Bool-cases (str_eq url "")) [
    | inl missing ↦ rw (put_registry, missing) (refl, (c, refl))
    | inr given ↦ loading given (load X L worker url s.provider.db_path) refl
  ]
    where
      Agrees : Type 0
      Agrees =
          ((put_registry X L worker url (with_caches c s)).0 ≡ (put_registry X L worker url s).0)
          × ((c' : Caches) × ((put_registry X L worker url (with_caches c s)).1
                ≡ with_caches c' (put_registry X L worker url s).1))

      loading :
          str_eq url "" ≡ false
          → (r : RaindexProviderError ⊎ RaindexProvider X L)
          → load X L worker url s.provider.db_path ≡ r
          → Agrees
      loading given (inl e) failed = rw (put_registry, given, failed) (refl, (c, refl))
      loading given (inr p) loaded = elim (Option-cases (set_setting registry_key url s.database)) [
        | inl faulty ↦ rw (put_registry, replace_provider, given, loaded, faulty) (refl, (c, refl))
        | inr (db, stored) ↦
            rw (put_registry, replace_provider, given, loaded, stored)
              (refl, (invalidate_all registry_caches c, refl))
      ]

  pub direct_all-with_caches :
      (rs : List Request) (c : Caches) (s : Service X L)
      → direct_all rs (with_caches c s) ≡ direct_all rs s
  unfolding direct_all direct updated get_registry get_tokens
  direct_all-with_caches [] c s = refl
  direct_all-with_caches (registry_update worker url ∷ rs) c s =
      let (same, (c', next)) = put_registry-with_caches worker url c s in
      ap₂ (◌∷◌) (ap registry same)
        (ap (direct_all rs) next ∙ direct_all-with_caches rs c' (put_registry X L worker url s).1)
  direct_all-with_caches (order_detail hash ∷ rs) c s =
      ap (λ t. direct (order_detail hash) s ∷ t) (direct_all-with_caches rs c s)
  direct_all-with_caches (order_cancel hash ∷ rs) c s =
      ap (λ t. direct (order_cancel hash) s ∷ t) (direct_all-with_caches rs c s)
  direct_all-with_caches (trades_of_tx tx_hash ∷ rs) c s =
      ap (λ t. direct (trades_of_tx tx_hash) s ∷ t) (direct_all-with_caches rs c s)
  direct_all-with_caches (orders_of_owner address page page_size ∷ rs) c s =
      ap (λ t. direct (orders_of_owner address page page_size) s ∷ t)
        (direct_all-with_caches rs c s)
  direct_all-with_caches (orders_of_token address side page page_size ∷ rs) c s =
      ap (λ t. direct (orders_of_token address side page page_size) s ∷ t)
        (direct_all-with_caches rs c s)
  direct_all-with_caches (swap_quote req ∷ rs) c s =
      ap (λ t. direct (swap_quote req) s ∷ t) (direct_all-with_caches rs c s)
  direct_all-with_caches (swap_calldata req ∷ rs) c s =
      ap (λ t. direct (swap_calldata req) s ∷ t) (direct_all-with_caches rs c s)
  direct_all-with_caches (trades_of_address address params ∷ rs) c s =
      ap (λ t. direct (trades_of_address address params) s ∷ t) (direct_all-with_caches rs c s)
  direct_all-with_caches (trades_of_taker address params ∷ rs) c s =
      ap (λ t. direct (trades_of_taker address params) s ∷ t) (direct_all-with_caches rs c s)
  direct_all-with_caches (registry_url ∷ rs) c s =
      ap (λ t. direct registry_url s ∷ t) (direct_all-with_caches rs c s)
  direct_all-with_caches (trades_batch order_hashes ∷ rs) c s =
      ap (λ t. direct (trades_batch order_hashes) s ∷ t) (direct_all-with_caches rs c s)
  direct_all-with_caches (all_tokens ∷ rs) c s =
      ap (λ t. direct all_tokens s ∷ t) (direct_all-with_caches rs c s)
  direct_all-with_caches (todo stub ∷ rs) c s =
      ap (λ t. direct (todo stub) s ∷ t) (direct_all-with_caches rs c s)

-- ===== src/Handlers/Uncached.antt =====
-- The caches of the service cannot be seen in its answers.
use Prim.Native.String.{String}
use mathlib.Core.Path.{subst}
use albion_rest_api.Base.{Option, none, ◌≡◌, refl, sym, ap, ap₂, ◌∙◌, some, List, [], ◌∷◌, inl, inr}
use albion_rest_api.Raindex.{Raindex, B256}
use albion_rest_api.Raindex.Client.{RaindexClient}
use albion_rest_api.Cache.Keys.{nat_eq}
use albion_rest_api.Cache.{Fetch}
use albion_rest_api.Cache.Transparent.{IsFresh, empty-IsFresh, get_or_try_insert-IsFresh}
use albion_rest_api.Orders.Cached.{
  owner_answer, token_answer, get_cached_orders_by_owner-direct, get_cached_orders_by_token-direct,
}
use albion_rest_api.Order.{raindex_order_source}
use albion_rest_api.Order.Detail.{OrderDetail, process_get_order}
use albion_rest_api.Swap.{SwapQuoteResponse, raindex_swap_source, process_swap_quote}
use albion_rest_api.Trades.Client.{raindex_tx_source, raindex_trades_source}
use albion_rest_api.Trades.Cached.{
  tx_answer, address_answer, get_cached_trades_by_tx-IsFresh, get_cached_trades_by_address-direct,
}
use albion_rest_api.Raindex.{Address}
use albion_rest_api.Raindex.Client.{Orderbook}
use albion_rest_api.Cache.{empty_cache}
use albion_rest_api.Trades.{TradesPaginationParams}
use albion_rest_api.Trades.Tx.{TxDataSource}
use albion_rest_api.Trades.Cached.{TradesByTxCache}
use albion_rest_api.Trades.Taker.{TakerTradesTxHashCache, process_get_taker_trades}
use albion_rest_api.Trades.Taker.Direct.{process_get_taker_trades-direct}
use albion_rest_api.Trades.Batch.{OrderTradeEntry}
use albion_rest_api.Trades.Client.{raindex_batch_source}
use albion_rest_api.Trades.Batch.Fresh.{
  IsPointwise, IsPointwiseIfAny, lone_answer, post_trades_batch-direct,
}
use albion_rest_api.Handlers.{
  trades_batch, all_tokens, todo, batch, batch_fetcher, post_batch, get_tokens, trades_of_taker,
  taker, taker_fetcher, get_taker_trades,
}
use albion_rest_api.Handlers.Direct.{direct_taker}
use albion_rest_api.Registry.{RegistryLibrary, Worker}
use albion_rest_api.Registry.Service.{QuoteKey, Caches, empty_caches, Service, put_registry}
use albion_rest_api.Registry.Update.{IsOutcome, IsUpdated, put_registry-IsOutcome}
use albion_rest_api.Handlers.{
  Request, order_detail, order_cancel, trades_of_tx, orders_of_owner, orders_of_token, swap_quote,
  swap_calldata, trades_of_address, registry_update, registry_url, detail, orders, quote, tx_trades,
  address_trades, Calls, quote_key_eq, raindex_orders_source, quote_key, get_order,
  get_orders_by_address, get_orders_by_token, post_swap_quote, get_trades_by_tx,
  get_trades_by_address, handle, handle_all,
}
use albion_rest_api.Handlers.Direct.{
  with_caches, direct, updated, direct_all, direct_all-with_caches,
}

module _ (X : Raindex) (L : RegistryLibrary X) (C : Calls X) where
  -- What a client of the library answers for the keys of the order cache and of the swap cache.
  unfoldable pub detail_answer : RaindexClient X → B256 → Fetch OrderDetail
  detail_answer client hash = some (process_get_order X (raindex_order_source X client) hash)

  unfoldable pub quote_answer : RaindexClient X → QuoteKey → Fetch SwapQuoteResponse
  quote_answer client (input_token, (output_token, output_amount)) =
      let T = C.take_orders client in
      some (
        process_swap_quote X T (raindex_swap_source X T client) (record {
          input_token = input_token;
          output_token = output_token;
          output_amount = output_amount;
        }))

  -- What answers for an order hash alone: the fetcher, or the client.
  unfoldable pub hash_answer :
      RaindexClient X → Option Orderbook → B256 → Fetch (List OrderTradeEntry)
  hash_answer client fetcher =
      lone_answer X (raindex_batch_source X client) (batch_fetcher X L C fetcher)

  -- Every entry of the cache of the takers is what the fetcher answers.
  unfoldable pub IsTakerFresh : Option Orderbook → TakerTradesTxHashCache → Type 0
  IsTakerFresh none cache = Unit {0}
  IsTakerFresh (some orderbook) cache =
      IsFresh (λ sender. some (C.fetch_taker_tx_hashes orderbook sender)) cache

  -- Every entry of the caches that the provider fills is what its client answers.
  unfoldable pub IsCoherent : RaindexClient X → Option Orderbook → Caches → Type 0
  IsCoherent client fetcher c =
      IsFresh (detail_answer client) c.order
      × IsFresh (owner_answer X (raindex_orders_source X L C client)) c.orders_by_owner
      × IsFresh (token_answer X (raindex_orders_source X L C client)) c.orders_by_token
      × IsFresh (quote_answer client) c.swap
      × IsFresh (address_answer X (raindex_trades_source X client)) c.trades_by_address
      × IsFresh (tx_answer X (raindex_tx_source X client C.show_hash)) c.trades_by_tx
      × IsTakerFresh fetcher c.taker_trades_tx_hash
      × IsFresh (hash_answer client fetcher) c.trades_by_order_hash

  empty-IsTakerFresh : (fetcher : Option Orderbook) → IsTakerFresh fetcher empty_cache
  unfolding IsTakerFresh
  empty-IsTakerFresh none = tt
  empty-IsTakerFresh (some orderbook) = empty-IsFresh _

  empty_caches-IsCoherent :
      (client : RaindexClient X) (fetcher : Option Orderbook)
      → IsCoherent client fetcher empty_caches
  unfolding IsCoherent
  empty_caches-IsCoherent client fetcher = (
    empty-IsFresh _,
    empty-IsFresh _,
    empty-IsFresh _,
    empty-IsFresh _,
    empty-IsFresh _,
    empty-IsFresh _,
    empty-IsTakerFresh fetcher,
    empty-IsFresh _,
  )

  -- The caches of a service are coherent with its provider and its fetcher.
  abbrev pub Coherent : Service X L → Type 0
  Coherent s = IsCoherent s.provider.client s.direct_trades s.caches

  put_registry-IsCoherent :
      (worker : Worker) (url : String) (s : Service X L)
      → Coherent s
      → Coherent (put_registry X L worker url s).1
  unfolding IsOutcome IsUpdated
  put_registry-IsCoherent worker url s h = elim (put_registry-IsOutcome X L worker url s) [
    | inl (e, _, same) ↦ subst Coherent (sym same) h
    | inr (_, (_, _, _, _, emptied, _)) ↦
        let s' = (put_registry X L worker url s).1 in
        subst (IsCoherent s'.provider.client s'.direct_trades) (sym emptied)
          (empty_caches-IsCoherent s'.provider.client s'.direct_trades)
  ]

  -- The trades of a taker, with a fetcher or without one.
  get_taker_trades-direct :
      (address : Address) (params : TradesPaginationParams) (fetcher : Option Orderbook)
      (ds : TxDataSource X) (tx_cache : TradesByTxCache) (taker_cache : TakerTradesTxHashCache)
      → IsFresh (tx_answer X ds) tx_cache
      → IsTakerFresh fetcher taker_cache
      → ((process_get_taker_trades X C.moka ds
            (taker_fetcher X L C fetcher)
            tx_cache
            taker_cache
            address
            params).0
          ≡ some (direct_taker X L C ds fetcher address params))
        × IsFresh
            (tx_answer X ds)
            (process_get_taker_trades X C.moka ds
              (taker_fetcher X L C fetcher)
              tx_cache
              taker_cache
              address
              params).1.0
        × IsTakerFresh fetcher
            (process_get_taker_trades X C.moka ds
              (taker_fetcher X L C fetcher)
              tx_cache
              taker_cache
              address
              params).1.1
  unfolding direct_taker taker_fetcher IsTakerFresh process_get_taker_trades
  get_taker_trades-direct address params none ds tx_cache taker_cache txs takers = (refl, txs, tt)
  get_taker_trades-direct address params (some orderbook) ds tx_cache taker_cache txs takers =
      process_get_taker_trades-direct X C.moka ds (C.fetch_taker_tx_hashes orderbook) tx_cache
        taker_cache address params txs takers

  module _ (point : (orderbook : Orderbook) → IsPointwise X (C.batch_fetch orderbook)) where
    batch_fetcher-IsPointwise :
        (fetcher : Option Orderbook) → IsPointwiseIfAny X (batch_fetcher X L C fetcher)
    unfolding batch_fetcher IsPointwiseIfAny
    batch_fetcher-IsPointwise none = tt
    batch_fetcher-IsPointwise (some orderbook) = point orderbook

    -- A request is answered as without caches; then the service is the same but for its caches, and
    -- they are coherent still.
    handle-direct :
        (r : Request) (s : Service X L)
        → Coherent s
        → ((handle X L C r s).0 ≡ direct X L C r s)
          × ((handle X L C r s).1
              ≡ with_caches X L C (handle X L C r s).1.caches (updated X L C r s))
          × Coherent (handle X L C r s).1
    unfolding IsCoherent handle direct updated post_batch get_tokens hash_answer get_order
        get_orders_by_address get_orders_by_token post_swap_quote get_taker_trades get_trades_by_tx
        get_trades_by_address detail_answer quote_answer quote_key
    handle-direct (order_detail hash) s
          (order, owners, tokens, quotes, addresses, txs, takers, hashes) =
        let (same, next) =
          get_or_try_insert-IsFresh (detail_answer s.provider.client) C.moka hash s.caches.order
            order in
        (ap detail same, refl, (next, owners, tokens, quotes, addresses, txs, takers, hashes))
    handle-direct (order_cancel hash) s h = (refl, refl, h)
    handle-direct (trades_of_tx tx_hash) s
          (order, owners, tokens, quotes, addresses, txs, takers, hashes) =
        let (same, next) =
          get_cached_trades_by_tx-IsFresh X C.moka s.caches.trades_by_tx
            (raindex_tx_source X s.provider.client C.show_hash) tx_hash txs in
        (ap tx_trades same, refl, (order, owners, tokens, quotes, addresses, next, takers, hashes))
    handle-direct (orders_of_owner address page page_size) s
          (order, owners, tokens, quotes, addresses, txs, takers, hashes) =
        let (same, next) =
          get_cached_orders_by_owner-direct X C.moka s.caches.orders_by_owner
            (raindex_orders_source X L C s.provider.client) address page page_size owners in
        (ap orders same, refl, (order, next, tokens, quotes, addresses, txs, takers, hashes))
    handle-direct (orders_of_token address side page page_size) s
          (order, owners, tokens, quotes, addresses, txs, takers, hashes) =
        let (same, next) =
          get_cached_orders_by_token-direct X C.moka s.caches.orders_by_token
            (raindex_orders_source X L C s.provider.client) address side page page_size tokens in
        (ap orders same, refl, (order, owners, next, quotes, addresses, txs, takers, hashes))
    handle-direct (swap_quote req) s
          (order, owners, tokens, quotes, addresses, txs, takers, hashes) =
        let (same, next) =
          get_or_try_insert-IsFresh (quote_answer s.provider.client) C.moka (quote_key X L C req)
            s.caches.swap quotes in
        (ap quote same, refl, (order, owners, tokens, next, addresses, txs, takers, hashes))
    handle-direct (swap_calldata req) s h = (refl, refl, h)
    handle-direct (trades_of_address address params) s
          (order, owners, tokens, quotes, addresses, txs, takers, hashes) =
        let (same, next) =
          get_cached_trades_by_address-direct X C.moka s.caches.trades_by_address
            (raindex_trades_source X s.provider.client) address params addresses in
        (ap address_trades same, refl, (order, owners, tokens, quotes, next, txs, takers, hashes))
    handle-direct (trades_of_taker address params) s
          (order, owners, tokens, quotes, addresses, txs, takers, hashes) =
        let (same, tx, takers') =
          get_taker_trades-direct address params s.direct_trades
            (raindex_tx_source X s.provider.client C.show_hash) s.caches.trades_by_tx
            s.caches.taker_trades_tx_hash txs takers in
        (ap taker same, refl, (order, owners, tokens, quotes, addresses, tx, takers', hashes))
    handle-direct (registry_update worker url) s h =
        (refl, refl, put_registry-IsCoherent worker url s h)
    handle-direct registry_url s h = (refl, refl, h)
    handle-direct (trades_batch order_hashes) s
          (order, owners, tokens, quotes, addresses, txs, takers, hashes) =
        let (same, next) =
          post_trades_batch-direct X (raindex_batch_source X s.provider.client)
            (batch_fetcher X L C s.direct_trades) (batch_fetcher-IsPointwise s.direct_trades)
            s.caches.trades_by_order_hash order_hashes hashes in
        (ap batch same, refl, (order, owners, tokens, quotes, addresses, txs, takers, next))
    handle-direct all_tokens s h = (refl, refl, h)
    handle-direct (todo _) s h = (refl, refl, h)

    handle_all-direct_of_IsCoherent :
        (rs : List Request) (s : Service X L)
        → Coherent s
        → handle_all X L C rs s ≡ direct_all X L C rs s
    unfolding handle_all direct_all
    handle_all-direct_of_IsCoherent [] s h = refl
    handle_all-direct_of_IsCoherent (r ∷ rs) s h =
        let (same, then, coherent) = handle-direct r s h in
        ap₂ (◌∷◌) same (
          handle_all-direct_of_IsCoherent rs (handle X L C r s).1 coherent
          ∙ ap (direct_all X L C rs) then
          ∙ direct_all-with_caches X L C rs (handle X L C r s).1.caches (updated X L C r s))

    -- From empty caches, every sequence of requests and of updates of the registry, one after another,
    -- is answered as by a service without caches, if the fetcher answers each hash of a batch by itself:
    -- each answer is what the handler computes with the client of the provider that the last
    -- successful update has left, or the first one, and with the fetcher of the start.
    pub handle_all-direct_all :
        (rs : List Request) (s : Service X L)
        → handle_all X L C rs (with_caches X L C empty_caches s) ≡ direct_all X L C rs s
    handle_all-direct_all rs s =
        handle_all-direct_of_IsCoherent rs (with_caches X L C empty_caches s)
          (empty_caches-IsCoherent s.provider.client s.direct_trades)
        ∙ direct_all-with_caches X L C rs empty_caches s

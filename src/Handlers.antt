-- ===== src/Handlers.antt =====
-- The handlers of src/routes/ on the state that they share: each takes its data
-- source from the provider, and answers through its cache.
pub mod Direct
pub mod Uncached
pub mod Route
pub mod Sample
mod Examples
use Prim.Native.String.{String}
use albion_rest_api.Base.{ℕ, Option, none, some, List, [], ◌∷◌, map}
use albion_rest_api.Error.{Result, ok, or_internal, ◌>>=◌}
use albion_rest_api.Raindex.{Raindex, Address, B256}
use albion_rest_api.Raindex.Client.{RaindexClient, Orderbook}
use albion_rest_api.Cache.Keys.{nat_eq, string_eq, pair_eq, Eq}
use albion_rest_api.Cache.{Fetch, Moka, get_or_try_insert}
use albion_rest_api.Orders.Types.{OrderSide, OrdersListResponse}
use albion_rest_api.Orders.Source.{get_order_quotes_batch}
use albion_rest_api.Orders.Listing.{OrdersListDataSource}
use albion_rest_api.Orders.Cached.{get_cached_orders_by_owner, get_cached_orders_by_token}
use albion_rest_api.Order.{raindex_order_source}
use albion_rest_api.Order.Detail.{OrderDetail, process_get_order}
use albion_rest_api.Order.Cancel.{CancelOrderResponse, process_cancel_order}
use albion_rest_api.Swap.{
  TakeOrders, SwapQuoteRequest, SwapQuoteResponse, SwapCalldataRequest, SwapCalldataResponse,
  raindex_swap_source, process_swap_quote, process_swap_calldata,
}
use albion_rest_api.Trades.{TradesPaginationParams, TradesByAddressResponse}
use albion_rest_api.Trades.Tx.{TradesByTxResponse}
use albion_rest_api.Trades.Client.{raindex_tx_source, raindex_trades_source, raindex_batch_source}
use albion_rest_api.Trades.Batch.{TradesBatchEntry, BatchFetch, post_trades_batch}
use albion_rest_api.Trades.Cached.{get_cached_trades_by_tx, get_cached_trades_by_address}
use albion_rest_api.Trades.Taker.{TakerTradesResponse, FetchTaker, process_get_taker_trades}
use albion_rest_api.Registry.{RegistryLibrary, Worker}
use albion_rest_api.Registry.Service.{QuoteKey, Service, put_registry, get_registry}

-- Three requests whose handlers are not written yet.
pub data Stub : Type 0 where
  dca solver : Stub
  orders_of_tx : B256 → Stub

-- The requests, with what their handlers read of them; of an update, also how its worker goes.
pub data Request : Type 0 where
  order_detail order_cancel trades_of_tx : B256 → Request
  orders_of_owner : Address → Option ℕ → Option ℕ → Request
  orders_of_token : Address → Option OrderSide → Option ℕ → Option ℕ → Request
  swap_quote : SwapQuoteRequest → Request
  swap_calldata : SwapCalldataRequest → Request
  trades_of_address trades_of_taker : Address → TradesPaginationParams → Request
  registry_update : Worker → String → Request
  registry_url : Request
  trades_batch : List B256 → Request
  all_tokens : Request
  todo : Stub → Request

pub data Answer : Type 0 where
  detail : Fetch OrderDetail → Answer
  cancellation : Result CancelOrderResponse → Answer
  orders : Fetch OrdersListResponse → Answer
  quote : Fetch SwapQuoteResponse → Answer
  calldata : Result SwapCalldataResponse → Answer
  tx_trades : Fetch TradesByTxResponse → Answer
  address_trades : Fetch TradesByAddressResponse → Answer
  taker : Fetch TakerTradesResponse → Answer
  registry : Result String → Answer
  batch : Result (List TradesBatchEntry) → Answer
  -- a token as its serialized text
  token_list : Result (List String) → Answer
  panic : Answer

-- The handlers whose body is `todo!()`.
unfoldable pub post_order_dca : Answer
post_order_dca = panic

unfoldable pub post_order_solver : Answer
post_order_solver = panic

unfoldable pub get_orders_by_tx : B256 → Answer
get_orders_by_tx tx_hash = panic

unfoldable pub stub_answer : Stub → Answer
unfolding post_order_dca post_order_solver get_orders_by_tx
stub_answer dca = post_order_dca
stub_answer solver = post_order_solver
stub_answer (orders_of_tx tx_hash) = get_orders_by_tx tx_hash

instance abbrev pub quote_key_eq : Eq QuoteKey
quote_key_eq = pair_eq

-- What the library does beside its client: the take-orders calls of a client, the batch of quotes,
-- the text of a hash, and the query of the fetcher.
pub record Calls (X : Raindex) : Type 1 where
  pub take_orders : RaindexClient X → TakeOrders X
  pub fetch_order_quotes_batch : List (X.RaindexOrder) → Option (List (List (X.RaindexOrderQuote)))
  pub show_hash : B256 → String
  -- of the fetcher for an orderbook
  pub fetch_taker_tx_hashes : Orderbook → FetchTaker
  pub batch_fetch : Orderbook → BatchFetch X
  -- the tokens of a client by their keys
  pub get_all_tokens : RaindexClient X → Option (List (String × String))
  -- the crate behind the caches
  pub moka : Moka

module _ (X : Raindex) (L : RegistryLibrary X) (C : Calls X) where
  -- `RaindexOrdersListDataSource`.
  unfoldable pub raindex_orders_source : RaindexClient X → OrdersListDataSource X
  raindex_orders_source client = record {
    get_orders_list = λ filters page page_size.
        or_internal "failed to query orders" (client.get_orders filters page page_size);
    get_order_quotes_batch = get_order_quotes_batch X (record {
      get_quotes = client.get_quotes;
      fetch_order_quotes_batch = C.fetch_order_quotes_batch;
    });
  }

  unfoldable pub quote_key : SwapQuoteRequest → QuoteKey
  quote_key req = (req.input_token, (req.output_token, req.output_amount))

  -- `get_order`
  unfoldable pub get_order : B256 → Service X L → Answer × Service X L
  get_order hash s =
      let caches = s.caches in
      let (answer, cache) =
        get_or_try_insert C.moka hash
          (some (process_get_order X (raindex_order_source X s.provider.client) hash))
          caches.order in
      (detail answer, record s { caches = record caches { order = cache } })

  unfoldable pub get_orders_by_address :
      Address → Option ℕ → Option ℕ → Service X L → Answer × Service X L
  get_orders_by_address address page page_size s =
      let caches = s.caches in
      let (answer, cache) =
        get_cached_orders_by_owner X C.moka caches.orders_by_owner
          (raindex_orders_source s.provider.client) address page page_size in
      (orders answer, record s { caches = record caches { orders_by_owner = cache } })

  unfoldable pub get_orders_by_token :
      Address → Option OrderSide → Option ℕ → Option ℕ → Service X L → Answer × Service X L
  get_orders_by_token address side page page_size s =
      let caches = s.caches in
      let (answer, cache) =
        get_cached_orders_by_token X C.moka caches.orders_by_token
          (raindex_orders_source s.provider.client) address side page page_size in
      (orders answer, record s { caches = record caches { orders_by_token = cache } })

  unfoldable pub post_swap_quote : SwapQuoteRequest → Service X L → Answer × Service X L
  post_swap_quote req s =
      let caches = s.caches in
      let client = s.provider.client in
      let T = C.take_orders client in
      let (answer, cache) =
        get_or_try_insert C.moka (quote_key req)
          (some (process_swap_quote X T (raindex_swap_source X T client) req)) caches.swap in
      (quote answer, record s { caches = record caches { swap = cache } })

  unfoldable pub get_trades_by_tx : B256 → Service X L → Answer × Service X L
  get_trades_by_tx tx_hash s =
      let caches = s.caches in
      let (answer, cache) =
        get_cached_trades_by_tx X C.moka caches.trades_by_tx
          (raindex_tx_source X s.provider.client C.show_hash) tx_hash in
      (tx_trades answer, record s { caches = record caches { trades_by_tx = cache } })

  unfoldable pub get_trades_by_address :
      Address → TradesPaginationParams → Service X L → Answer × Service X L
  get_trades_by_address address params s =
      let caches = s.caches in
      let (answer, cache) =
        get_cached_trades_by_address X C.moka caches.trades_by_address
          (raindex_trades_source X s.provider.client) address params in
      (address_trades answer, record s { caches = record caches { trades_by_address = cache } })

  -- The fetcher of the service.
  unfoldable pub taker_fetcher : Option Orderbook → Option FetchTaker
  taker_fetcher none = none
  taker_fetcher (some orderbook) = some (C.fetch_taker_tx_hashes orderbook)

  unfoldable pub get_taker_trades :
      Address → TradesPaginationParams → Service X L → Answer × Service X L
  get_taker_trades address params s =
      let caches = s.caches in
      let (answer, (tx_cache, taker_cache)) =
        process_get_taker_trades X C.moka (raindex_tx_source X s.provider.client C.show_hash)
          (taker_fetcher s.direct_trades) caches.trades_by_tx caches.taker_trades_tx_hash address
          params in
      (
        taker answer,
        record s {
          caches = record caches { trades_by_tx = tx_cache; taker_trades_tx_hash = taker_cache };
        },
      )

  unfoldable pub batch_fetcher : Option Orderbook → Option (BatchFetch X)
  batch_fetcher none = none
  batch_fetcher (some orderbook) = some (C.batch_fetch orderbook)

  -- `post_trades_batch`
  unfoldable pub post_batch : List B256 → Service X L → Answer × Service X L
  post_batch order_hashes s =
      let caches = s.caches in
      let (answer, cache) =
        post_trades_batch X (raindex_batch_source X s.provider.client) caches.trades_by_order_hash
          (batch_fetcher s.direct_trades) order_hashes in
      (batch answer, record s { caches = record caches { trades_by_order_hash = cache } })

  unfoldable pub get_tokens : Service X L → Result (List String)
  get_tokens s =
      or_internal "failed to retrieve token list" (C.get_all_tokens s.provider.client) >>= λ tokens.
      ok (map (λ t. t.1) tokens)

  -- The handler of a request.
  unfoldable pub handle : Request → Service X L → Answer × Service X L
  handle (order_detail hash) s = get_order hash s
  handle (order_cancel hash) s =
      (cancellation (process_cancel_order X (raindex_order_source X s.provider.client) hash), s)
  handle (trades_of_tx tx_hash) s = get_trades_by_tx tx_hash s
  handle (orders_of_owner address page page_size) s = get_orders_by_address address page page_size s
  handle (orders_of_token address side page page_size) s =
      get_orders_by_token address side page page_size s
  handle (swap_quote req) s = post_swap_quote req s
  handle (swap_calldata req) s =
      let client = s.provider.client in
      let T = C.take_orders client in
      (calldata (process_swap_calldata X T (raindex_swap_source X T client) req), s)
  handle (trades_of_address address params) s = get_trades_by_address address params s
  handle (trades_of_taker address params) s = get_taker_trades address params s
  handle (registry_update worker url) s =
      let (answer, next) = put_registry X L worker url s in (registry answer, next)
  handle registry_url s = (registry (get_registry X L s), s)
  handle (trades_batch order_hashes) s = post_batch order_hashes s
  handle all_tokens s = (token_list (get_tokens s), s)
  handle (todo stub) s = (stub_answer stub, s)

  unfoldable pub handle_all : List Request → Service X L → List Answer
  handle_all [] s = []
  handle_all (r ∷ rs) s = let (answer, next) = handle r s in answer ∷ handle_all rs next

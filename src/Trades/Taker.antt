-- ===== src/Trades/Taker.antt =====
-- `process_get_taker_trades` of src/routes/trades.rs.
pub mod Direct
mod Examples
use mathlib.Core.Option
use albion_rest_api.Base.{
  ℕ, ◌+◌, ◌-◌, ◌*◌, ◌≡◌, refl, sym, ap, ◌∙◌, Bool, Option, none, some, List, [], ◌∷◌, map, ◌==◌,
  ltb, leb, if◌then◌else◌, length, take, drop, min, unwrap_or, inl, inr, Bool-cases,
}
use albion_rest_api.Error.{Result, ok, err, Result-cases}
use albion_rest_api.Raindex.{Raindex, Address, B256}
use albion_rest_api.Pagination.{Pagination, build_pagination, slice_page, div_ceil, count_pages}
use albion_rest_api.Cache.Keys.{Eq, nat_eq}
use albion_rest_api.Cache.{AppCache, Fetch, get_or_try_insert, Moka}
use albion_rest_api.Cache.Transparent.{IsFresh, get_or_try_insert-IsFresh}
use albion_rest_api.Trades.{TradesPaginationParams}
use albion_rest_api.Trades.Tx.{TradesByTxResponse, TxDataSource, process_get_trades_by_tx}
use albion_rest_api.Trades.Cached.{
  TradesByTxCache, get_cached_trades_by_tx, tx_answer, get_cached_trades_by_tx-IsFresh,
}

pub record TakerTradesResponse : Type 0 where
  pub market_orders : List TradesByTxResponse
  pub pagination : Pagination

-- The hashes of the transactions in which an address was the taker, with their times.
abbrev pub TakerHashes : Type 0
TakerHashes = List (B256 × ℕ)

abbrev pub TakerTradesTxHashCache : Type 0
TakerTradesTxHashCache = AppCache Address TakerHashes

-- `DirectTradesFetcher::fetch_taker_tx_hashes`.
abbrev pub FetchTaker : Type 0
FetchTaker = Address → Result TakerHashes

-- What is answered without a fetcher, at page 1 whatever was asked for.
unfoldable pub no_fetcher : TradesPaginationParams → TakerTradesResponse
no_fetcher params = record {
  market_orders = [];
  pagination = record {
    page = 1;
    page_size = unwrap_or params.page_size 20;
    total = 0;
    total_pages = 0;
    has_more = ltb 1 0;
  };
}

-- Steps 2 and 3 are for hashes: the page of them.
unfoldable pub page_hashes : ℕ → ℕ → TakerHashes → List B256
page_hashes page page_size tx_hashes =
    let offset = (page - 1) * page_size in
    if leb (length tx_hashes) offset
    then []
    else map (λ (h, _). h)
        (take (min (offset + page_size) (length tx_hashes) - offset) (drop offset tx_hashes))

module _ (X : Raindex) where
  -- The loop of step 3: a transaction that is not resolved is skipped. `none` is a panic of the
  -- cache.
  unfoldable pub resolve_hashes :
      Moka
      → TxDataSource X
      → List B256
      → TradesByTxCache
      → Option (List TradesByTxResponse) × TradesByTxCache
  resolve_hashes moka ds [] cache = (some [], cache)
  resolve_hashes moka ds (tx_hash ∷ tx_hashes) cache =
      let (resolved, next) = get_cached_trades_by_tx X moka cache ds tx_hash in
      let (rest, last) = resolve_hashes moka ds tx_hashes next in
      elim resolved [
        | none ↦ (none, next)
        | some result ↦ elim result [
          | err _ ↦ (rest, last)
          | ok tx_trades ↦ (Option.map (λ orders. tx_trades ∷ orders) rest, last)
        ]
      ]

  -- Steps 2 and 3.
  unfoldable pub resolve_page :
      Moka
      → TxDataSource X
      → TradesPaginationParams
      → TakerHashes
      → TradesByTxCache
      → Fetch TakerTradesResponse × TradesByTxCache
  resolve_page moka ds params tx_hashes cache =
      let page = unwrap_or params.page 1 in
      let page_size = unwrap_or params.page_size 20 in
      let total = length tx_hashes in
      let total_pages = if page_size == 0 then 0 else div_ceil total page_size in
      let (market_orders, last) =
        resolve_hashes moka ds (page_hashes page page_size tx_hashes) cache in
      (
        Option.map
            (λ orders. ok (record {
              market_orders = orders;
              pagination = record {
                page = page;
                page_size = page_size;
                total = total;
                total_pages = total_pages;
                has_more = ltb page total_pages;
              };
            }))
            market_orders,
        last,
      )

  -- The answer and both caches.
  unfoldable pub process_get_taker_trades :
      Moka
      → TxDataSource X
      → Option FetchTaker
      → TradesByTxCache
      → TakerTradesTxHashCache
      → Address
      → TradesPaginationParams
      → Fetch TakerTradesResponse × (TradesByTxCache × TakerTradesTxHashCache)
  process_get_taker_trades moka ds none tx_cache taker_cache sender params =
      (some (ok (no_fetcher params)), (tx_cache, taker_cache))
  process_get_taker_trades moka ds (some fetch_taker_tx_hashes) tx_cache taker_cache sender params =
      let (hashes, taker) =
        get_or_try_insert moka sender (some (fetch_taker_tx_hashes sender)) taker_cache in
      elim hashes [
        | none ↦ (none, (tx_cache, taker))
        | some result ↦ elim result [
          | err e ↦ (some (err e), (tx_cache, taker))
          | ok tx_hashes ↦
              let (answer, last) = resolve_page moka ds params tx_hashes tx_cache in
              (answer, (last, taker))
        ]
      ]

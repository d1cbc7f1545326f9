-- ===== src/Trades/Taker/Direct.antt =====
-- The market orders of a taker, with the caches and without them.
use albion_rest_api.Base.{
  ℕ, ◌-◌, ◌*◌, ◌≡◌, refl, some, List, [], ◌∷◌, map, leb, length, unwrap_or, inl, inr, Bool-cases,
}
use albion_rest_api.Error.{Result, ok, err, Result-cases}
use albion_rest_api.Raindex.{Raindex, Address, B256}
use albion_rest_api.Pagination.{build_pagination, slice_page, count_pages}
use albion_rest_api.Cache.Keys.{nat_eq}
use albion_rest_api.Cache.{Moka}
use albion_rest_api.Cache.Transparent.{IsFresh, get_or_try_insert-IsFresh}
use albion_rest_api.Trades.{TradesPaginationParams}
use albion_rest_api.Trades.Tx.{TradesByTxResponse, TxDataSource, process_get_trades_by_tx}
use albion_rest_api.Trades.Cached.{
  TradesByTxCache, get_cached_trades_by_tx, tx_answer, get_cached_trades_by_tx-IsFresh,
}
use albion_rest_api.Trades.Taker.{
  TakerTradesResponse, TakerHashes, TakerTradesTxHashCache, FetchTaker, page_hashes, resolve_hashes,
  resolve_page, process_get_taker_trades,
}

module _ (X : Raindex) where
  -- The transactions that are resolved, in the order of their hashes.
  unfoldable pub resolved : TxDataSource X → List B256 → List TradesByTxResponse
  resolved ds [] = []
  resolved ds (tx_hash ∷ tx_hashes) = elim (process_get_trades_by_tx X ds tx_hash) [
    | err _ ↦ resolved ds tx_hashes
    | ok tx_trades ↦ tx_trades ∷ resolved ds tx_hashes
  ]

  -- What the page answers without a cache.
  unfoldable pub direct_page :
      TxDataSource X → TradesPaginationParams → TakerHashes → TakerTradesResponse
  direct_page ds params tx_hashes =
      let page = unwrap_or params.page 1 in
      let page_size = unwrap_or params.page_size 20 in
      record {
        market_orders = resolved ds (map (λ (h, _). h) (slice_page page page_size tx_hashes));
        pagination = build_pagination (length tx_hashes) page page_size;
      }

  -- The answer without any cache.
  unfoldable pub taker_trades :
      TxDataSource X → FetchTaker → Address → TradesPaginationParams → Result TakerTradesResponse
  taker_trades ds fetch sender params = elim (fetch sender) [
    | err e ↦ err e
    | ok tx_hashes ↦ ok (direct_page ds params tx_hashes)
  ]

  page_hashes-slice_page :
      (page page_size : ℕ) (tx_hashes : TakerHashes)
      → page_hashes page page_size tx_hashes
        ≡ map (λ (h, _). h) (slice_page page page_size tx_hashes)
  unfolding page_hashes slice_page
  page_hashes-slice_page page page_size tx_hashes =
      elim (Bool-cases (leb (length tx_hashes) ((page - 1) * page_size))) [
        | inl out ↦ rw out refl
        | inr within ↦ rw within refl
      ]

  resolve_hashes-resolved :
      (moka : Moka) (ds : TxDataSource X) (tx_hashes : List B256) (cache : TradesByTxCache)
      → IsFresh (tx_answer X ds) cache
      → ((resolve_hashes X moka ds tx_hashes cache).0 ≡ some (resolved ds tx_hashes))
        × IsFresh (tx_answer X ds) (resolve_hashes X moka ds tx_hashes cache).1
  unfolding resolve_hashes resolved
  resolve_hashes-resolved moka ds [] cache fresh = (refl, fresh)
  resolve_hashes-resolved moka ds (tx_hash ∷ tx_hashes) cache fresh =
      let (same, next) = get_cached_trades_by_tx-IsFresh X moka cache ds tx_hash fresh in
      let (rest, last) =
        resolve_hashes-resolved moka ds tx_hashes
          (get_cached_trades_by_tx X moka cache ds tx_hash).1 next in
      elim (Result-cases (process_get_trades_by_tx X ds tx_hash)) [
        | inl (e, failed) ↦ rw (resolve_hashes, resolved, same, failed) (rest, last)
        | inr (t, found) ↦ rw (resolve_hashes, resolved, same, found) (rw rest refl, last)
      ]

  resolve_page-direct_page :
      (moka : Moka) (ds : TxDataSource X) (params : TradesPaginationParams)
      (tx_hashes : TakerHashes) (cache : TradesByTxCache)
      → IsFresh (tx_answer X ds) cache
      → ((resolve_page X moka ds params tx_hashes cache).0
          ≡ some (ok (direct_page ds params tx_hashes)))
        × IsFresh (tx_answer X ds) (resolve_page X moka ds params tx_hashes cache).1
  unfolding resolve_page direct_page build_pagination count_pages
  resolve_page-direct_page moka ds params tx_hashes cache fresh =
      let page = unwrap_or params.page 1 in
      let page_size = unwrap_or params.page_size 20 in
      let (same, last) =
        resolve_hashes-resolved moka ds (page_hashes page page_size tx_hashes) cache fresh in
      (rw (same, page_hashes-slice_page page page_size tx_hashes) refl, last)

  -- With a fetcher, and caches whose entries are what the fetcher and the data source answer for
  -- their keys: the answer is the error of the fetcher, or else the page, in the fetcher's order, of
  -- the transactions of the taker that are resolved, those that fail being left out, with the
  -- pagination of all of them; and every entry of both caches is still so.
  pub process_get_taker_trades-direct :
      (moka : Moka) (ds : TxDataSource X) (fetch : FetchTaker) (tx_cache : TradesByTxCache)
      (taker_cache : TakerTradesTxHashCache) (sender : Address) (params : TradesPaginationParams)
      → IsFresh (tx_answer X ds) tx_cache
      → IsFresh (λ s. some (fetch s)) taker_cache
      → ((process_get_taker_trades X moka ds (some fetch) tx_cache taker_cache sender params).0
          ≡ some (taker_trades ds fetch sender params))
        × IsFresh
            (tx_answer X ds)
            (process_get_taker_trades X moka ds (some fetch) tx_cache taker_cache sender params).1.0
        × IsFresh
            (λ s. some (fetch s))
            (process_get_taker_trades X moka ds (some fetch) tx_cache taker_cache sender params).1.1
  unfolding process_get_taker_trades taker_trades direct_page
  process_get_taker_trades-direct moka ds fetch tx_cache taker_cache sender params fresh known =
      let (same, next) =
        get_or_try_insert-IsFresh (λ s. some (fetch s)) moka sender taker_cache known in
      elim (Result-cases (fetch sender)) [
        | inl (e, failed) ↦
            rw (process_get_taker_trades, taker_trades, same, failed) (refl, fresh, next)
        | inr (hashes, found) ↦
            let (answered, last) = resolve_page-direct_page moka ds params hashes tx_cache fresh in
            rw (process_get_taker_trades, taker_trades, same, found) (answered, last, next)
      ]

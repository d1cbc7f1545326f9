-- ===== src/Trades/Cached.antt =====
-- The cached look-ups of src/routes/trades.rs.
use albion_rest_api.Base.{ℕ, ◌≡◌, Option, some, unwrap_or}
use albion_rest_api.Raindex.{Raindex, Address, B256}
use albion_rest_api.Cache.Keys.{Eq, nat_eq, pair_eq, option_eq}
use albion_rest_api.Cache.{AppCache, Fetch, get_or_try_insert, Moka}
use albion_rest_api.Cache.Transparent.{IsFresh, get_or_try_insert-IsFresh}
use albion_rest_api.Trades.{
  TradesPaginationParams, TradesByAddressResponse, TradesDataSource, page_of_trades,
  process_get_trades_by_address,
}
use albion_rest_api.Trades.Tx.{TradesByTxResponse, TxDataSource, process_get_trades_by_tx}

abbrev pub TradesByTxCache : Type 0
TradesByTxCache = AppCache B256 TradesByTxResponse

-- The owner, the page, the page size and the bounds of time.
abbrev pub AddressKey : Type 0
AddressKey = Address × (ℕ × (ℕ × (Option ℕ × Option ℕ)))

instance abbrev pub address_key_eq : Eq AddressKey
address_key_eq = pair_eq

abbrev pub TradesByAddressCache : Type 0
TradesByAddressCache = AppCache AddressKey TradesByAddressResponse

unfoldable pub address_key : Address → TradesPaginationParams → AddressKey
address_key owner params = (
  owner,
  (unwrap_or params.page 1, (unwrap_or params.page_size 20, (params.start_time, params.end_time))),
)

module _ (X : Raindex) where
  unfoldable pub get_cached_trades_by_tx :
      Moka → TradesByTxCache → TxDataSource X → B256 → Fetch TradesByTxResponse × TradesByTxCache
  get_cached_trades_by_tx moka cache ds tx_hash =
      get_or_try_insert moka tx_hash (some (process_get_trades_by_tx X ds tx_hash)) cache

  unfoldable pub get_cached_trades_by_address :
      Moka
      → TradesByAddressCache
      → TradesDataSource X
      → Address
      → TradesPaginationParams
      → Fetch TradesByAddressResponse × TradesByAddressCache
  get_cached_trades_by_address moka cache ds owner params =
      get_or_try_insert moka (address_key owner params)
        (process_get_trades_by_address X ds owner params) cache

  -- What a key stands for.
  unfoldable pub tx_answer : TxDataSource X → B256 → Fetch TradesByTxResponse
  tx_answer ds tx_hash = some (process_get_trades_by_tx X ds tx_hash)

  unfoldable pub address_answer : TradesDataSource X → AddressKey → Fetch TradesByAddressResponse
  address_answer ds (owner, (page, (page_size, (start_time, end_time)))) =
      process_get_trades_by_address X ds owner (record {
        page = some page;
        page_size = some page_size;
        start_time = start_time;
        end_time = end_time;
      })

  pub get_cached_trades_by_tx-IsFresh :
      (moka : Moka) (cache : TradesByTxCache) (ds : TxDataSource X) (tx_hash : B256)
      → IsFresh (tx_answer ds) cache
      → ((get_cached_trades_by_tx moka cache ds tx_hash).0
          ≡ some (process_get_trades_by_tx X ds tx_hash))
        × IsFresh (tx_answer ds) (get_cached_trades_by_tx moka cache ds tx_hash).1
  unfolding get_cached_trades_by_tx tx_answer
  get_cached_trades_by_tx-IsFresh moka cache ds tx_hash fresh =
      get_or_try_insert-IsFresh (tx_answer ds) moka tx_hash cache fresh

  -- If every entry of the cache is what the data source answers for its key, then the cached trades
  -- of an address are those that the data source answers for the parameters of the client, and every
  -- entry of the cache is still so.
  pub get_cached_trades_by_address-direct :
      (moka : Moka) (cache : TradesByAddressCache) (ds : TradesDataSource X) (owner : Address)
      (params : TradesPaginationParams)
      → IsFresh (address_answer ds) cache
      → ((get_cached_trades_by_address moka cache ds owner params).0
          ≡ process_get_trades_by_address X ds owner params)
        × IsFresh (address_answer ds) (get_cached_trades_by_address moka cache ds owner params).1
  unfolding get_cached_trades_by_address address_answer process_get_trades_by_address page_of_trades
      address_key
  get_cached_trades_by_address-direct moka cache ds owner params fresh =
      get_or_try_insert-IsFresh (address_answer ds) moka (address_key owner params) cache fresh

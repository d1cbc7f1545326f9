-- ===== src/Trades/Taker/Examples.antt =====
-- The cached look-ups, the client and the fetcher of trades on small inputs.
use Prim.Native.String.{String}
use text.Mathlib.Text.{◌==◌ as str_eq}
use mathlib.Core.Option
use albion_rest_api.Base.{
  ℕ, ◌⊎◌, ◌≡◌, ◌↔◌, refl, none, some, List, [], ◌∷◌, map, length, ◌==◌, if◌then◌else◌, inl, inr,
  unwrap_or,
}
use albion_rest_api.Error.{ok, err, not_yet_indexed, ◌>>=◌, or_internal}
use albion_rest_api.Raindex.{B256, BalanceChange}
use albion_rest_api.Raindex.Client.{
  RaindexClient, answer, failure, transaction_indexing_timeout, order_not_found,
}
use albion_rest_api.Raindex.Sample.{SampleOrder, SampleTrade, sample, parse_number}
use albion_rest_api.Pagination.{slice_page}
use albion_rest_api.Cache.{empty_cache, insert, get_or_try_insert}
use albion_rest_api.Cache.Sample.{keep, keeping}
use albion_rest_api.Cache.Transparent.{IsFresh, empty-IsFresh}
use albion_rest_api.Trades.{TradesPaginationParams, process_get_trades_by_address, to_u64}
use albion_rest_api.Trades.Tx.{
  still_unindexed, TxDataSource, process_get_trades_by_tx, summarize_trades, sum_trades,
  tx_response, no_trades, compute_io_ratio, positive_output, parse_trade_order_hash,
  average_io_ratio, format_float, trade_entry,
}
use albion_rest_api.Trades.Batch.{put, HashMap}
use albion_rest_api.Trades.Client.{
  AllTimeOut, check_tx_index_state, raindex_tx_source, raindex_trades_source, get_trades_by_tx,
  trades_in, index_state, after_lookup, check_tx_index_state-AllTimeOut_iff,
}
use albion_rest_api.Trades.Cached.{
  get_cached_trades_by_tx, get_cached_trades_by_address, tx_answer, address_answer,
  get_cached_trades_by_address-direct,
}
use albion_rest_api.Trades.Taker.{
  page_hashes, resolve_hashes, resolve_page, process_get_taker_trades,
}
use albion_rest_api.Trades.Taker.Direct.{taker_trades, process_get_taker_trades-direct}
use albion_rest_api.Trades.Fetcher.{
  pos, negsuc, RawTradeRow, Connection, as_u64, or_invalid, push_entry, format_float_hex,
  negate_and_format_float_hex, convert_raw_trade, collect_trades, batch_fetch, or_taker_failed,
  collect_hashes, fetch_taker_tx_hashes,
}
use albion_rest_api.Trades.Fetcher.Rows.{entries_of, found_at, batch_fetch-entries_of}

abbrev change : BalanceChange ℕ ℕ
change = record { amount = 1; formatted_amount = "1"; token = 9 }

abbrev trade_of : B256 → SampleTrade
trade_of tx = record {
  id = "t";
  of_order = 5 ∷ [];
  at = 100;
  within = record { id = tx; from = 4; block_number = 10; timestamp = 100 };
  came_in = change;
  went_out = change;
}

abbrev order : SampleOrder
order = record { hash = 5; chain = 1; vaults = [] }

-- Two orderbooks; transactions 1 and 2 have a trade at the first one, and the look-up of transaction
-- 3 times out.
abbrev client : RaindexClient sample
client = record {
  get_orders =
      λ _ page size. some (slice_page (unwrap_or page 1) (unwrap_or size 50) (order ∷ []), 1);
  get_all_orderbooks = some ((1, 7) ∷ (1, 8) ∷ []);
  get_order_by_hash = λ _ _. failure order_not_found;
  get_transaction_trades = λ (_, orderbook) tx.
      some (if orderbook == 7 then if tx == 3 then [] else (4, trade_of tx) ∷ [] else []);
  get_transaction = λ _ tx. if tx == 3 then failure transaction_indexing_timeout else answer tt;
  get_quotes = λ _. none;
  get_trades_list = λ _ _ _. some (trade_of 1 ∷ trade_of 2 ∷ []);
  get_remove_calldata = λ _. none;
}

abbrev source : TxDataSource sample
source = raindex_tx_source sample client (λ _. "0x3")

program : Unit {0}
unfolding raindex_tx_source get_trades_by_tx trades_in check_tx_index_state index_state after_lookup
    process_get_trades_by_tx summarize_trades no_trades sum_trades tx_response or_internal
    compute_io_ratio positive_output parse_trade_order_hash average_io_ratio format_float
    trade_entry to_u64 parse_number insert get_or_try_insert keep get_cached_trades_by_tx
    page_hashes resolve_hashes resolve_page process_get_taker_trades as_u64 or_invalid push_entry
    format_float_hex negate_and_format_float_hex convert_raw_trade collect_trades batch_fetch
    or_taker_failed collect_hashes fetch_taker_tx_hashes put found_at
program = tt

pending_run :
    process_get_trades_by_tx sample source 3
    ≡ err (not_yet_indexed "transaction 0x3 not yet indexed")
unfolding program
pending_run = refl

check_tx_index_state-AllTimeOut_iff_example :
    (check_tx_index_state sample client 3 ≡ ok still_unindexed) ↔ AllTimeOut sample client 3
check_tx_index_state-AllTimeOut_iff_example = check_tx_index_state-AllTimeOut_iff sample client 3

abbrev params : TradesPaginationParams
params = record { page = none; page_size = some 2; start_time = none; end_time = none }

address_cache_run :
    ((get_cached_trades_by_address sample keeping empty_cache
        (raindex_trades_source sample client)
        4
        params).0
      ≡ process_get_trades_by_address sample (raindex_trades_source sample client) 4 params)
    × IsFresh
        (address_answer sample (raindex_trades_source sample client))
        (get_cached_trades_by_address sample keeping empty_cache
          (raindex_trades_source sample client)
          4
          params).1
address_cache_run =
    get_cached_trades_by_address-direct sample keeping empty_cache
      (raindex_trades_source sample client) 4 params
      (empty-IsFresh (address_answer sample (raindex_trades_source sample client)))

abbrev row : String → String → RawTradeRow
row hash sender = record {
  order_hash = hash;
  transaction_hash = "1";
  block_timestamp = pos 100;
  transaction_sender = sender;
  input_delta = "1";
  output_delta_raw = "1";
  trade_id = "t";
}

abbrev rows : List RawTradeRow
rows = row "5" "4" ∷ row "6" "4" ∷ row "5" "nobody" ∷ row "5" "4" ∷ []

-- A hash of one digit is parsed, and an address.
abbrev digit : String → String ⊎ ℕ
digit s =
    if str_eq s "1"
    then inr 1
    else if str_eq s "3"
    then inr 3
    else if str_eq s "4"
    then inr 4
    else if str_eq s "5"
    then inr 5
    else if str_eq s "6"
    then inr 6
    else inl "invalid digit"

abbrev conn : Connection sample
conn = record {
  query_trades = λ _. some (map some rows);
  query_taker = λ _. some (some ("3", pos 300) ∷ some ("1", pos 100) ∷ some ("6", negsuc 0) ∷ []);
  show_hash = λ _. "0x";
  show_address = λ _. "0x";
  parse_hash = digit;
  parse_address = digit;
  from_hex = λ _. some 1;
  neg_one = some 1;
  mul_float = λ _ a. some a;
}

batch_fetch-entries_of_example :
    (result : HashMap) × (batch_fetch sample conn (5 ∷ 6 ∷ []) ≡ ok result)
    × ((hash : B256) → found_at result hash ≡ entries_of sample conn hash rows)
batch_fetch-entries_of_example = batch_fetch-entries_of sample conn (5 ∷ 6 ∷ []) rows refl refl

-- The row with no valid sender is left out.
grouped_run :
    (batch_fetch sample conn (5 ∷ 6 ∷ []) >>= λ m.
    ok (map (λ h. length (unwrap_or (m h) [])) (5 ∷ 6 ∷ 7 ∷ [])))
    ≡ ok (2 ∷ 1 ∷ 0 ∷ [])
unfolding program
grouped_run = refl

taker_hashes_run :
    fetch_taker_tx_hashes sample conn 4
    ≡ ok ((3, 300) ∷ (1, 100) ∷ (6, 18_446_744_073_709_551_615) ∷ [])
unfolding program
taker_hashes_run = refl

-- Of the first page, transaction 3 is not indexed yet, and is left out.
taker_run :
    Option.map
      (λ r. r >>= λ response. ok (map (λ o. o.tx_hash) (response.market_orders)))
      (process_get_taker_trades sample keeping source
        (some (fetch_taker_tx_hashes sample conn))
        empty_cache
        empty_cache
        4
        params).0
    ≡ some (ok (1 ∷ []))
unfolding program
taker_run = refl

process_get_taker_trades-direct_run :
    ((process_get_taker_trades sample keeping source
        (some (fetch_taker_tx_hashes sample conn))
        empty_cache
        empty_cache
        4
        params).0
      ≡ some (taker_trades sample source (fetch_taker_tx_hashes sample conn) 4 params))
    × IsFresh
        (tx_answer sample source)
        (process_get_taker_trades sample keeping source
          (some (fetch_taker_tx_hashes sample conn))
          empty_cache
          empty_cache
          4
          params).1.0
    × IsFresh
        (λ s. some (fetch_taker_tx_hashes sample conn s))
        (process_get_taker_trades sample keeping source
          (some (fetch_taker_tx_hashes sample conn))
          empty_cache
          empty_cache
          4
          params).1.1
process_get_taker_trades-direct_run =
    process_get_taker_trades-direct sample keeping source (fetch_taker_tx_hashes sample conn)
      empty_cache empty_cache 4 params (empty-IsFresh (tx_answer sample source))
      (empty-IsFresh (λ s. some (fetch_taker_tx_hashes sample conn s)))

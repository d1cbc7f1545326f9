-- ===== src/Trades/Examples.antt =====
-- The trades of an address and of a transaction on small inputs.
use Prim.Native.String.{String}
use albion_rest_api.Base.{
  map, ℕ, ◌≡◌, ◌≢◌, ◌↔◌, refl, true, none, some, List, [], ◌∷◌, arith, unwrap_or, length, ◌==◌,
  if◌then◌else◌,
}
use albion_rest_api.Error.{or_internal, ok, err, not_yet_indexed, internal, ◌>>=◌}
use albion_rest_api.Raindex.{BalanceChange}
use albion_rest_api.Raindex.Sample.{SampleOrder, SampleTrade, sample, parse_number}
use albion_rest_api.Orders.Types.{TokenRef, u64_or_zero}
use albion_rest_api.Pagination.{slice_page}
use albion_rest_api.Trades.{
  TradeByAddress, TradesDataSource, TradeWithOwner, newer, insert_trade, sort_trades, to_u64,
  fetch_all_orders,
}
use albion_rest_api.Trades.Scan.{IsPaged, fetch_all_orders-ends, fetch_all_orders-IsPaged}
use albion_rest_api.Trades.ByAddress.{filters_of}
use albion_rest_api.Trades.Tx.{
  still_unindexed, TxDataSource, process_get_trades_by_tx, summarize_trades, sum_trades,
  tx_response, no_trades, compute_io_ratio, positive_output, parse_trade_order_hash,
  average_io_ratio, format_float, trade_entry,
}
use albion_rest_api.Trades.Batch.{
  TradesBatchEntry, BatchDataSource, process_trades_batch, post_trades_batch, take_cached,
  uncached_of, store_all, batch_entries, source_of, fetch_trades_for_hash, map_trade, put, remove,
}
use albion_rest_api.Trades.Batch.Answers.{
  first_answers, batch_answer, process_trades_batch-first_answers, post_trades_batch-ok,
}
use albion_rest_api.Trades.Pending.{is_pending, process_get_trades_by_tx-is_pending_iff}

abbrev order_of : ℕ → SampleOrder
order_of hash = record { hash = hash; chain = 1; vaults = [] }

abbrev orders : List SampleOrder
orders = order_of 5 ∷ order_of 6 ∷ []

abbrev change : String → BalanceChange ℕ ℕ
change text = record { amount = 1; formatted_amount = text; token = 9 }

abbrev trade_at : ℕ → ℕ → ℕ → SampleTrade
trade_at tx block time = record {
  id = "t";
  of_order = 5 ∷ [];
  at = time;
  within = record { id = tx; from = 4; block_number = block; timestamp = time };
  came_in = change "1";
  went_out = change "2";
}

-- The first order has an old and a new trade, the other one between them.
abbrev trades_of : SampleOrder → List SampleTrade
trades_of o =
    if o.hash == 5 then trade_at 1 10 100 ∷ trade_at 2 30 300 ∷ [] else trade_at 3 20 200 ∷ []

abbrev source : TradesDataSource sample
source = record {
  get_orders =
      λ _ page size. ok (slice_page (unwrap_or page 1) (unwrap_or size 50) orders, length orders);
  get_order_trades = λ order _ _. ok (trades_of order);
}

source-IsPaged : IsPaged sample source (filters_of sample 4) orders
unfolding IsPaged
source-IsPaged page h = refl

fetch_all_orders-ends_example : fetch_all_orders sample source (filters_of sample 4) ≢ none
fetch_all_orders-ends_example = fetch_all_orders-ends sample source (filters_of sample 4)

fetch_all_orders-IsPaged_example :
    fetch_all_orders sample source (filters_of sample 4) ≡ some (ok orders)
fetch_all_orders-IsPaged_example =
    fetch_all_orders-IsPaged sample source (filters_of sample 4) orders source-IsPaged (omega arith)

abbrev owned : SampleTrade → TradeWithOwner sample
owned t = record { owner = 1; trade = t }

abbrev loaded : List (TradeWithOwner sample)
loaded = owned (trade_at 1 10 100) ∷ owned (trade_at 2 30 300) ∷ owned (trade_at 3 20 200) ∷ []

abbrev token_9 : TokenRef
token_9 = record { address = 9; symbol = "TKN"; decimals = 18 }

abbrev row : ℕ → ℕ → ℕ → TradeByAddress
row tx block time = record {
  tx_hash = tx;
  input_amount = "1";
  output_amount = "2";
  input_token = token_9;
  output_token = token_9;
  order_hash = some 5;
  timestamp = time;
  block_number = block;
}

abbrev rows : List TradeByAddress
rows = row 1 10 100 ∷ row 2 30 300 ∷ row 3 20 200 ∷ []

sorted_rows : sort_trades rows ≡ row 2 30 300 ∷ row 3 20 200 ∷ row 1 10 100 ∷ []
unfolding sort_trades insert_trade newer
sorted_rows = refl

-- Transaction 1 has a trade, and no other is indexed.
abbrev chain : TxDataSource sample
chain = record {
  get_trades_by_tx = λ h. ok (if h == 1 then owned (trade_at 1 10 100) ∷ [] else []);
  check_tx_index_state = λ _. ok still_unindexed;
  show_hash = λ _. "0x2";
}

not_indexed_run :
    process_get_trades_by_tx sample chain 2
    ≡ err (not_yet_indexed "transaction 0x2 not yet indexed")
unfolding process_get_trades_by_tx summarize_trades no_trades
not_indexed_run = refl

sender_run :
    process_get_trades_by_tx sample chain 1
      >>= (λ r. ok (r.sender ∷ r.block_number ∷ length r.trades ∷ []))
    ≡ ok (4 ∷ 10 ∷ 1 ∷ [])
unfolding process_get_trades_by_tx summarize_trades sum_trades tx_response or_internal
    compute_io_ratio positive_output parse_trade_order_hash average_io_ratio format_float
    trade_entry to_u64 parse_number
sender_run = refl

process_get_trades_by_tx-is_pending_iff_example :
    (is_pending (process_get_trades_by_tx sample chain 2) ≡ true)
    ↔ ((chain.get_trades_by_tx 2 ≡ ok []) × (chain.check_tx_index_state 2 ≡ ok still_unindexed))
unfolding is_pending
process_get_trades_by_tx-is_pending_iff_example =
    process_get_trades_by_tx-is_pending_iff sample chain 2 refl refl

-- Order 5 is found and order 6 is not; order 7 cannot be looked up.
abbrev orders_by_hash : BatchDataSource sample
orders_by_hash = record {
  find_order_by_hash = λ h.
      if h == 5 then ok (some (order_of 5)) else if h == 6 then ok none else err (internal "down");
  get_order_trades = λ order _ _. ok (trades_of order);
}

-- Order 5 is asked for twice, and has trades once.
batch_run :
    map
      (λ e. length (e.trades))
      (process_trades_batch sample orders_by_hash (λ _. none) none (5 ∷ 6 ∷ 7 ∷ 5 ∷ [])).0
    ≡ 2 ∷ 0 ∷ 0 ∷ 0 ∷ []
unfolding process_trades_batch take_cached uncached_of store_all batch_entries source_of
    fetch_trades_for_hash map_trade put remove u64_or_zero
batch_run = refl

process_trades_batch-first_answers_example :
    (process_trades_batch sample orders_by_hash (λ _. none) none (5 ∷ 7 ∷ 5 ∷ [])).0
    ≡ first_answers
        (batch_answer sample orders_by_hash (λ _. none) none (5 ∷ 7 ∷ 5 ∷ []))
        []
        (5 ∷ 7 ∷ 5 ∷ [])
process_trades_batch-first_answers_example =
    process_trades_batch-first_answers sample orders_by_hash (λ _. none) none (5 ∷ 7 ∷ 5 ∷ [])

post_trades_batch-ok_example :
    (entries : List TradesBatchEntry) × ((post_trades_batch sample orders_by_hash
        (λ _. none)
        none
        (6 ∷ 7 ∷ [])).0
      ≡ ok entries)
    × (map (λ e. e.order_hash) entries ≡ 6 ∷ 7 ∷ [])
post_trades_batch-ok_example =
    post_trades_batch-ok sample orders_by_hash (λ _. none) none (6 ∷ 7 ∷ []) (omega arith)

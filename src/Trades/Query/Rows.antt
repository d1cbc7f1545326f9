-- ===== src/Trades/Query/Rows.antt =====
-- The rows that `build_batch_query` of src/direct_trades.rs selects, in their order. SQLite's functions
-- on texts are parameters; rows that the order leaves equal keep the order in which they are found.
use Prim.Native.String.{String}
use albion_rest_api.Base.{ℕ, Bool, not, ◌&&◌, ◌||◌, List, ◌++◌, map, ltb, leb, ◌==◌, if◌then◌else◌}
use albion_rest_api.Text.{◌+++◌}
use albion_rest_api.Text.Order.{text_ltb}
use albion_rest_api.Trades.Fetcher.{pos, RawTradeRow}
use albion_rest_api.Trades.Query.{Tables, TradeRow, take_trades, clear_alice, clear_bob}

-- `lower`, `replace` and `printf('%016x', …)` of SQLite.
pub record SqlTexts : Type 0 where
  pub lower : String → String
  pub replace : String → String → String → String
  pub hex16 : ℕ → String

-- `ORDER BY order_hash, block_timestamp DESC, log_index DESC`
unfoldable pub precedes : TradeRow → TradeRow → Bool
precedes x y =
    text_ltb x.order_hash y.order_hash
    || (not (text_ltb y.order_hash x.order_hash)
        && (ltb y.block_timestamp x.block_timestamp
            || (x.block_timestamp == y.block_timestamp && leb y.log_index x.log_index)))

unfoldable pub insert_row : TradeRow → List TradeRow → List TradeRow
insert_row x List.[] = List.◌∷◌ x List.[]
insert_row x (List.◌∷◌ y ys) =
    let rest = insert_row x ys in
    if precedes x y then List.◌∷◌ x (List.◌∷◌ y ys) else List.◌∷◌ y rest

unfoldable pub sort_rows : List TradeRow → List TradeRow
sort_rows List.[] = List.[]
sort_rows (List.◌∷◌ x xs) = insert_row x (sort_rows xs)

unfoldable pub raw_row : SqlTexts → TradeRow → RawTradeRow
raw_row sql row = record {
  order_hash = row.order_hash;
  transaction_hash = row.transaction_hash;
  block_timestamp = pos row.block_timestamp;
  transaction_sender = row.transaction_sender;
  input_delta = row.input_delta;
  output_delta_raw = row.output_delta_raw;
  trade_id =
      ("0x" +++ sql.lower (sql.replace row.transaction_hash "0x" "")) +++ sql.hex16 row.log_index;
}

-- The rows that `build_batch_query` selects, before and after the last `SELECT`.
unfoldable pub batch_rows : Tables → ℕ → String → List String → List TradeRow
batch_rows T chain_id orderbook hashes = sort_rows (
    take_trades T chain_id orderbook hashes
    ++ (clear_alice T chain_id orderbook hashes ++ clear_bob T chain_id orderbook hashes))

unfoldable pub batch_query : SqlTexts → Tables → ℕ → String → List String → List RawTradeRow
batch_query sql T chain_id orderbook hashes =
    map (raw_row sql) (batch_rows T chain_id orderbook hashes)

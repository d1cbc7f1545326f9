-- ===== src/Trades/Tx.antt =====
-- `process_get_trades_by_tx` of src/routes/trades.rs.
use Prim.Native.String.{String}
use albion_rest_api.Base.{ℕ, true, List, [], ◌∷◌, if◌then◌else◌, unwrap_or}
use albion_rest_api.Error.{Result, ok, err, not_found, not_yet_indexed, ◌>>=◌, or_internal}
use albion_rest_api.Raindex.{Raindex, Address, B256, Bytes, Transaction}
use albion_rest_api.Text.{◌+++◌}
use albion_rest_api.Trades.{to_u64, TradeWithOwner}

pub data TxIndexState : Type 0 where
  indexed still_unindexed : TxIndexState

pub record TradeRequest : Type 0 where
  pub input_token : Address
  pub output_token : Address
  pub maximum_input : String
  pub maximum_io_ratio : String

pub record TradeResult : Type 0 where
  pub input_amount : String
  pub output_amount : String
  pub actual_io_ratio : String

pub record TradeByTxEntry : Type 0 where
  pub order_hash : B256
  pub order_owner : Address
  pub request : TradeRequest
  pub result : TradeResult

pub record TradesTotals : Type 0 where
  pub total_input_amount : String
  pub total_output_amount : String
  pub average_io_ratio : String

pub record TradesByTxResponse : Type 0 where
  pub tx_hash : B256
  pub block_number : ℕ
  pub timestamp : ℕ
  pub sender : Address
  pub trades : List TradeByTxEntry
  pub totals : TradesTotals

abbrev pub ratio_failed : String
ratio_failed = "io ratio calculation failed"

abbrev pub totals_failed : String
totals_failed = "trade totals calculation failed"

module _ (X : Raindex) where
  open X use {Float, RaindexTrade}

  -- The methods of `TradesDataSource` that the trades of a transaction need.
  pub record TxDataSource : Type 0 where
    pub get_trades_by_tx : B256 → Result (List (TradeWithOwner X))
    pub check_tx_index_state : B256 → Result TxIndexState
    -- The text of a hash in `{tx_hash:#x}`.
    pub show_hash : B256 → String

  unfoldable pub parse_trade_order_hash : Bytes → Result B256
  parse_trade_order_hash bytes = or_internal "invalid trade order hash" (X.parse_b256 bytes)

  unfoldable pub format_float : Float → String → Result String
  format_float value context =
      or_internal (context +++ " calculation failed") (X.format_float value)

  unfoldable pub positive_output : Float → Result Float
  positive_output output_amount = or_internal ratio_failed X.zero_float >>= λ zero.
      or_internal ratio_failed (X.sub_float zero output_amount)

  unfoldable pub compute_io_ratio : Float → Float → Result String
  compute_io_ratio input_amount output_amount = positive_output output_amount >>= λ positive.
      or_internal ratio_failed X.zero_float >>= λ zero.
      if unwrap_or (X.eq_float positive zero) true
      then ok "0"
      else (or_internal ratio_failed (X.div_float input_amount positive) >>= λ ratio.
          format_float ratio "io ratio")

  -- The entry that a round of the loop pushes.
  unfoldable pub trade_entry : TradeWithOwner X → String → B256 → TradeByTxEntry
  trade_entry t io_ratio order_hash =
      let input_change = X.input_change t.trade in
      let output_change = X.output_change t.trade in
      record {
        order_hash = order_hash;
        order_owner = t.owner;
        request = record {
          input_token = X.address input_change.token;
          output_token = X.address output_change.token;
          maximum_input = input_change.formatted_amount;
          maximum_io_ratio = io_ratio;
        };
        result = record {
          input_amount = input_change.formatted_amount;
          output_amount = output_change.formatted_amount;
          actual_io_ratio = io_ratio;
        };
      }

  -- The loop over the trades: both sums, and the entries.
  unfoldable pub sum_trades :
      List (TradeWithOwner X) → Float → Float → Result (Float × Float × List TradeByTxEntry)
  sum_trades [] total_input total_output = ok (total_input, total_output, [])
  sum_trades (t ∷ ts) total_input total_output =
      let input_amount = (X.input_change t.trade).amount in
      let output_amount = (X.output_change t.trade).amount in
      compute_io_ratio input_amount output_amount >>= λ io_ratio.
      parse_trade_order_hash (X.trade_order_hash t.trade) >>= λ order_hash.
      or_internal totals_failed (X.add_float total_input input_amount) >>= λ total_input'.
      positive_output output_amount >>= λ positive.
      or_internal totals_failed (X.add_float total_output positive) >>= λ total_output'.
      sum_trades ts total_input' total_output' >>= λ (i, o, entries).
      ok (i, o, trade_entry t io_ratio order_hash ∷ entries)

  unfoldable pub average_io_ratio : Float → Float → Result Float
  average_io_ratio total_input total_output = or_internal totals_failed X.zero_float >>= λ zero.
      if unwrap_or (X.eq_float total_output zero) true
      then ok zero
      else or_internal totals_failed (X.div_float total_input total_output)

  -- The response, of the first transaction and the sums.
  unfoldable pub tx_response :
      B256 → Transaction → Float × Float × List TradeByTxEntry → Result TradesByTxResponse
  tx_response tx_hash tx (total_input, total_output, entries) =
      average_io_ratio total_input total_output >>= λ average.
      to_u64 tx.block_number "block number" >>= λ block_number.
      to_u64 tx.timestamp "timestamp" >>= λ timestamp.
      format_float total_input "trade totals" >>= λ input_text.
      format_float total_output "trade totals" >>= λ output_text.
      format_float average "trade totals" >>= λ average_text. ok (record {
        tx_hash = tx_hash;
        block_number = block_number;
        timestamp = timestamp;
        sender = tx.from;
        trades = entries;
        totals = record {
          total_input_amount = input_text;
          total_output_amount = output_text;
          average_io_ratio = average_text;
        };
      })

  -- What is answered where the look-up finds no trade.
  unfoldable pub no_trades : TxDataSource → B256 → Result TradesByTxResponse
  no_trades ds tx_hash = ds.check_tx_index_state tx_hash >>= λ state. elim state [
    | indexed ↦ err (not_found "transaction has no associated trades")
    | still_unindexed ↦
        err (not_yet_indexed (("transaction " +++ ds.show_hash tx_hash) +++ " not yet indexed"))
  ]

  unfoldable pub summarize_trades :
      TxDataSource → B256 → List (TradeWithOwner X) → Result TradesByTxResponse
  summarize_trades ds tx_hash [] = no_trades ds tx_hash
  summarize_trades ds tx_hash (t ∷ ts) = or_internal totals_failed X.zero_float >>= λ zero.
      sum_trades (t ∷ ts) zero zero >>= tx_response tx_hash (X.transaction t.trade)

  unfoldable pub process_get_trades_by_tx : TxDataSource → B256 → Result TradesByTxResponse
  process_get_trades_by_tx ds tx_hash = ds.get_trades_by_tx tx_hash >>= summarize_trades ds tx_hash

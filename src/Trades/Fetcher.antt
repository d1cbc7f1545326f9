-- ===== src/Trades/Fetcher.antt =====
-- src/direct_trades.rs, from the rows of a query on. The parsing of their texts is of the
-- rain.orderbook crates and a parameter, as the queries are here: Query has them.
pub mod Rows
use Prim.Native.String.{String}
use albion_rest_api.Base.{
  ℕ, ◌+◌, ◌-◌, ◌%◌, ◌^◌, Option, none, some, List, [], ◌∷◌, ◌++◌, map, ◌⊎◌, inl, inr, if◌then◌else◌,
  is_empty, unwrap_or,
}
use albion_rest_api.Error.{Result, ok, err, internal, ◌>>=◌, or_internal}
use albion_rest_api.Raindex.{Raindex, Address, B256}
use albion_rest_api.Text.{◌+++◌}
use albion_rest_api.Trades.Batch.{OrderTradeEntry, HashMap, put}
use albion_rest_api.Trades.Taker.{TakerHashes}

-- An `i64`: `pos n` is n, and `negsuc n` is -(n + 1).
pub data ℤ : Type 0 where
  pos negsuc : ℕ → ℤ

-- `as u64`
unfoldable pub as_u64 : ℤ → ℕ
as_u64 (pos n) = n % 2 ^ 64
as_u64 (negsuc n) = 2 ^ 64 - (n + 1)

pub record RawTradeRow : Type 0 where
  pub order_hash : String
  pub transaction_hash : String
  pub block_timestamp : ℤ
  pub transaction_sender : String
  pub input_delta : String
  pub output_delta_raw : String
  pub trade_id : String

-- The connection of a fetcher, for its chain and its orderbook, and the conversions of texts. A query
-- answers `none` if the lock, the statement or the query fails, and a row is `none` if it cannot be
-- read; a failed parse has its message.
pub record Connection (X : Raindex) : Type 0 where
  pub query_trades : List String → Option (List (Option RawTradeRow))
  pub query_taker : String → Option (List (Option (String × ℤ)))
  pub show_hash : B256 → String
  pub show_address : Address → String
  pub parse_hash : String → String ⊎ B256
  pub parse_address : String → String ⊎ Address
  pub from_hex : String → Option (X.Float)
  -- `Float::parse("-1")` and the product
  pub neg_one : Option (X.Float)
  pub mul_float : X.Float → X.Float → Option (X.Float)

-- `map_err` to an internal error with the message of the parser.
unfoldable pub or_invalid {ℓ} : {A : Type ℓ} → String → String ⊎ A → Result A
or_invalid what (inl e) = err (internal ((what +++ ": ") +++ e))
or_invalid what (inr a) = ok a

-- `entry(hash).or_default().push(entry)`
unfoldable pub push_entry : B256 → OrderTradeEntry → HashMap → HashMap
push_entry hash entry m = put hash (unwrap_or (m hash) [] ++ entry ∷ []) m

module _ (X : Raindex) (conn : Connection X) where
  unfoldable pub format_float_hex : String → Result String
  format_float_hex hex = or_internal "float conversion failed" (conn.from_hex hex) >>= λ float.
      or_internal "float formatting failed" (X.format_float float)

  unfoldable pub negate_and_format_float_hex : String → Result String
  negate_and_format_float_hex hex =
      or_internal "float conversion failed" conn.neg_one >>= λ neg_one.
      or_internal "float conversion failed" (conn.from_hex hex) >>= λ float.
      or_internal "float conversion failed" (conn.mul_float neg_one float) >>= λ negated.
      or_internal "float formatting failed" (X.format_float negated)

  unfoldable pub convert_raw_trade : RawTradeRow → Result (B256 × OrderTradeEntry)
  convert_raw_trade raw =
      or_invalid "invalid order hash" (conn.parse_hash raw.order_hash) >>= λ order_hash.
      or_invalid "invalid tx hash" (conn.parse_hash raw.transaction_hash) >>= λ tx_hash.
      or_invalid "invalid sender address" (conn.parse_address raw.transaction_sender) >>= λ sender.
      format_float_hex raw.input_delta >>= λ input_amount.
      negate_and_format_float_hex raw.output_delta_raw >>= λ output_amount. ok (
        order_hash,
        record {
          id = raw.trade_id;
          tx_hash = tx_hash;
          input_amount = input_amount;
          output_amount = output_amount;
          timestamp = as_u64 raw.block_timestamp;
          sender = sender;
        },
      )

  -- The loop over the rows: one that cannot be read ends it, one that cannot be converted is skipped.
  unfoldable pub collect_trades : List (Option RawTradeRow) → HashMap → Result HashMap
  collect_trades [] m = ok m
  collect_trades (none ∷ rows) m = err (internal "trade query failed")
  collect_trades (some raw ∷ rows) m = elim (convert_raw_trade raw) [
    | err _ ↦ collect_trades rows m
    | ok (hash, entry) ↦ collect_trades rows (push_entry hash entry m)
  ]

  unfoldable pub batch_fetch : List B256 → Result HashMap
  batch_fetch hashes =
      if is_empty hashes
      then ok (λ _. none)
      else (or_internal "trade query failed" (conn.query_trades (map conn.show_hash hashes))
          >>= λ rows. collect_trades rows (λ _. none))

  unfoldable pub or_taker_failed {ℓ} : {A : Type ℓ} → Option A → Result A
  or_taker_failed o = or_internal "taker trades query failed" o

  -- The loop over the rows: any bad row ends it.
  unfoldable pub collect_hashes : List (Option (String × ℤ)) → Result TakerHashes
  collect_hashes [] = ok []
  collect_hashes (row ∷ rows) = or_taker_failed row >>= λ (hash_str, ts).
      elim (conn.parse_hash hash_str) [
        | inl _ ↦ err (internal "taker trades query failed")
        | inr hash ↦ collect_hashes rows >>= λ results. ok ((hash, as_u64 ts) ∷ results)
      ]

  unfoldable pub fetch_taker_tx_hashes : Address → Result TakerHashes
  fetch_taker_tx_hashes sender =
      or_taker_failed (conn.query_taker (conn.show_address sender)) >>= collect_hashes

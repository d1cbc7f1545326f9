-- ===== src/Trades/Batch.antt =====
-- src/routes/trades.rs: `process_trades_batch` and the guards of `post_trades_batch`. The cache and
-- the hash map are functions from hashes; the fetcher of src/direct_trades.rs is an argument.
pub mod Answers
pub mod Fresh
use Prim.Native.String.{String}
use albion_rest_api.Base.{
  ℕ, Bool, true, false, Option, none, some, List, [], ◌∷◌, map, ltb, ◌==◌, if◌then◌else◌, length,
  is_empty, unwrap_or,
}
use albion_rest_api.Error.{Result, ok, err, bad_request, ◌>>=◌}
use albion_rest_api.Raindex.{Raindex, Address, B256}
use albion_rest_api.Orders.Types.{u64_or_zero}

abbrev pub trades_batch_max_hashes : ℕ
trades_batch_max_hashes = 50

pub record OrderTradeEntry : Type 0 where
  pub id : String
  pub tx_hash : B256
  pub input_amount : String
  pub output_amount : String
  pub timestamp : ℕ
  pub sender : Address

pub record TradesBatchEntry : Type 0 where
  pub order_hash : B256
  pub trades : List OrderTradeEntry

abbrev pub HashMap : Type 0
HashMap = B256 → Option (List OrderTradeEntry)

unfoldable pub put : B256 → List OrderTradeEntry → HashMap → HashMap
put hash trades m k = if k == hash then some trades else m k

unfoldable pub remove : B256 → HashMap → HashMap
remove hash m k = if k == hash then none else m k

-- The first loop: what is cached, and what is not.
unfoldable pub take_cached : HashMap → List B256 → HashMap → HashMap
take_cached cache [] m = m
take_cached cache (hash ∷ hashes) m = elim (cache hash) [
  | some trades ↦ take_cached cache hashes (put hash trades m)
  | none ↦ take_cached cache hashes m
]

unfoldable pub uncached_of : HashMap → List B256 → List B256
uncached_of cache [] = []
uncached_of cache (hash ∷ hashes) = elim (cache hash) [
  | some _ ↦ uncached_of cache hashes
  | none ↦ hash ∷ uncached_of cache hashes
]

-- The loops over `uncached`: a result is cached, an error only leaves an empty list.
unfoldable pub store_all :
    (B256 → Result (List OrderTradeEntry)) → List B256 → HashMap × HashMap → HashMap × HashMap
store_all fetch [] maps = maps
store_all fetch (hash ∷ hashes) (cache, m) = elim (fetch hash) [
  | ok trades ↦ store_all fetch hashes (put hash trades cache, put hash trades m)
  | err _ ↦ store_all fetch hashes (cache, put hash [] m)
]

-- The entries, each of which is removed from the map.
unfoldable pub batch_entries : List B256 → HashMap → List TradesBatchEntry
batch_entries [] m = []
batch_entries (hash ∷ hashes) m =
    record { order_hash = hash; trades = unwrap_or (m hash) [] }
    ∷ batch_entries hashes (remove hash m)

module _ (X : Raindex) where
  open X use {RaindexOrder, RaindexTrade}

  unfoldable pub map_trade : RaindexTrade → OrderTradeEntry
  map_trade trade = record {
    id = X.trade_id trade;
    tx_hash = (X.transaction trade).id;
    input_amount = (X.input_change trade).formatted_amount;
    output_amount = (X.output_change trade).formatted_amount;
    timestamp = u64_or_zero (X.trade_timestamp trade);
    sender = (X.transaction trade).from;
  }

  -- The methods of `TradesDataSource` that the batch needs.
  pub record BatchDataSource : Type 0 where
    pub find_order_by_hash : B256 → Result (Option RaindexOrder)
    pub get_order_trades : RaindexOrder → Option ℕ → Option ℕ → Result (List RaindexTrade)

  -- `DirectTradesFetcher::batch_fetch`.
  abbrev pub BatchFetch : Type 0
  BatchFetch = List B256 → Result HashMap

  unfoldable pub fetch_trades_for_hash : BatchDataSource → B256 → Result (List OrderTradeEntry)
  fetch_trades_for_hash ds hash = ds.find_order_by_hash hash >>= λ found. elim found [
    | none ↦ ok []
    | some order ↦ ds.get_order_trades order none none >>= λ trades. ok (map map_trade trades)
  ]

  -- Where the trades of one hash come from.
  unfoldable pub source_of :
      BatchDataSource → Option BatchFetch → List B256 → B256 → Result (List OrderTradeEntry)
  source_of ds none uncached = fetch_trades_for_hash ds
  source_of ds (some batch_fetch) uncached = elim (batch_fetch uncached) [
    | err _ ↦ fetch_trades_for_hash ds
    | ok batch_result ↦ λ hash. ok (unwrap_or (batch_result hash) [])
  ]

  -- The entries, and the cache.
  unfoldable pub process_trades_batch :
      BatchDataSource → HashMap → Option BatchFetch → List B256 → List TradesBatchEntry × HashMap
  process_trades_batch ds cache direct_trades hashes =
      let cached_map = take_cached cache hashes (λ _. none) in
      let uncached = uncached_of cache hashes in
      let (cache', filled) =
        if is_empty uncached
        then (cache, cached_map)
        else store_all (source_of ds direct_trades uncached) uncached (cache, cached_map) in
      (batch_entries hashes filled, cache')

  unfoldable pub post_trades_batch :
      BatchDataSource
      → HashMap
      → Option BatchFetch
      → List B256
      → Result (List TradesBatchEntry) × HashMap
  post_trades_batch ds cache direct_trades hashes =
      if is_empty hashes
      then (ok [], cache)
      else if ltb trades_batch_max_hashes (length hashes)
      then (err (bad_request "maximum 50 order hashes per batch request"), cache)
      else let (entries, cache') = process_trades_batch ds cache direct_trades hashes in
        (ok entries, cache')

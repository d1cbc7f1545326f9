-- ===== src/Trades/Query.antt =====
-- The two SQL queries of src/direct_trades.rs, on the tables of the local database of the
-- rain.orderbook crates: the columns that they read, and the subqueries.
pub mod Rows
pub mod Filters
pub mod Sorted
pub mod Alone
pub mod Orders
pub mod Listed
pub mod Fetch
pub mod Taker
mod Examples
use Prim.Native.String.{String}
use text.Mathlib.Text.{◌==◌ as str_eq}
use albion_rest_api.Base.{
  ℕ, Bool, true, false, not, ◌&&◌, ◌||◌, Option, none, some, List, [], ◌∷◌, map, ltb, leb, ◌==◌,
  if◌then◌else◌, filter, any, concat_map,
}

pub record OrderEvent : Type 0 where
  pub chain_id : ℕ
  pub orderbook_address : String
  pub block_number : ℕ
  pub log_index : ℕ
  pub order_owner : String
  pub order_nonce : String
  pub order_hash : String
  pub event_type : String

pub record TakeOrder : Type 0 where
  pub chain_id : ℕ
  pub orderbook_address : String
  pub transaction_hash : String
  pub block_number : ℕ
  pub log_index : ℕ
  pub block_timestamp : ℕ
  pub sender : String
  pub order_owner : String
  pub order_nonce : String
  pub taker_input : String
  pub taker_output : String

pub record ClearEvent : Type 0 where
  pub chain_id : ℕ
  pub orderbook_address : String
  pub transaction_hash : String
  pub block_number : ℕ
  pub log_index : ℕ
  pub block_timestamp : ℕ
  pub sender : String
  pub alice_order_hash : String
  pub bob_order_hash : String

pub record AfterClear : Type 0 where
  pub chain_id : ℕ
  pub orderbook_address : String
  pub transaction_hash : String
  pub log_index : ℕ
  pub alice_input : String
  pub alice_output : String
  pub bob_input : String
  pub bob_output : String

pub record Tables : Type 0 where
  pub order_events : List OrderEvent
  pub take_orders : List TakeOrder
  pub clear_v3_events : List ClearEvent
  pub after_clear_v2_events : List AfterClear

-- The rows of the three subqueries.
pub record TradeRow : Type 0 where
  pub order_hash : String
  pub transaction_hash : String
  pub log_index : ℕ
  pub block_timestamp : ℕ
  pub transaction_sender : String
  pub input_delta : String
  pub output_delta_raw : String

-- Alice's side of a clear, or Bob's.
pub record Side : Type 0 where
  pub hash_of : ClearEvent → String
  pub input_of : AfterClear → String
  pub output_of : AfterClear → String

-- `IN (…)`
unfoldable pub is_in : String → List String → Bool
is_in s ts = any (str_eq s) ts

-- A place in the chain is a block and an index of a log.
abbrev pub at_or_before : ℕ → ℕ → ℕ → ℕ → Bool
at_or_before block log block' log' = ltb block block' || (block == block' && leb log log')

abbrev pub after : ℕ → ℕ → ℕ → ℕ → Bool
after block log block' log' = ltb block' block || (block == block' && ltb log' log)

unfoldable pub row_eq : TradeRow → TradeRow → Bool
row_eq x y =
    str_eq x.order_hash y.order_hash
    && str_eq x.transaction_hash y.transaction_hash
    && x.log_index == y.log_index
    && x.block_timestamp == y.block_timestamp
    && str_eq x.transaction_sender y.transaction_sender
    && str_eq x.input_delta y.input_delta
    && str_eq x.output_delta_raw y.output_delta_raw

-- `SELECT DISTINCT`
unfoldable pub distinct : List TradeRow → List TradeRow
distinct [] = []
distinct (x ∷ xs) = x ∷ (filter (λ y. not (row_eq x y)) (distinct xs))

module _ (T : Tables) (chain_id : ℕ) (orderbook : String) where
  unfoldable pub order_add_events : List String → List OrderEvent
  order_add_events hashes =
      filter
        (λ oe.
          oe.chain_id == chain_id
          && str_eq oe.orderbook_address orderbook
          && is_in oe.order_hash hashes
          && str_eq oe.event_type "AddOrderV3")
        T.order_events

  -- The join of `take_trades`, without its `NOT EXISTS`.
  unfoldable pub adds_taken : TakeOrder → OrderEvent → Bool
  adds_taken t oe =
      oe.chain_id == t.chain_id
      && str_eq oe.orderbook_address t.orderbook_address
      && str_eq oe.order_owner t.order_owner
      && str_eq oe.order_nonce t.order_nonce
      && at_or_before oe.block_number oe.log_index t.block_number t.log_index

  -- The `NOT EXISTS`: a newer event of the owner and the nonce before the trade.
  unfoldable pub newer_for_take : TakeOrder → OrderEvent → OrderEvent → Bool
  newer_for_take t oe newer =
      newer.chain_id == oe.chain_id
      && str_eq newer.orderbook_address oe.orderbook_address
      && str_eq newer.order_owner oe.order_owner
      && str_eq newer.order_nonce oe.order_nonce
      && at_or_before newer.block_number newer.log_index t.block_number t.log_index
      && after newer.block_number newer.log_index oe.block_number oe.log_index

  unfoldable pub take_row : TakeOrder → OrderEvent → TradeRow
  take_row t oe = record {
    order_hash = oe.order_hash;
    transaction_hash = t.transaction_hash;
    log_index = t.log_index;
    block_timestamp = t.block_timestamp;
    transaction_sender = t.sender;
    input_delta = t.taker_output;
    output_delta_raw = t.taker_input;
  }

  -- The events that a take is joined to, and its rows.
  unfoldable pub chosen : List OrderEvent → TakeOrder → List OrderEvent
  chosen adds t = filter (λ oe. adds_taken t oe && not (any (newer_for_take t oe) adds)) adds

  unfoldable pub rows_of_take : List OrderEvent → TakeOrder → List TradeRow
  unfolding chosen
  rows_of_take adds t = map (take_row t) (chosen adds t)

  unfoldable pub take_trades : List String → List TradeRow
  take_trades hashes =
      concat_map (rows_of_take (order_add_events hashes))
        (filter (λ t. t.chain_id == chain_id && str_eq t.orderbook_address orderbook) T.take_orders)

  -- The join of `clear_alice`, of the side whose hash is given, without its `NOT EXISTS`.
  unfoldable pub adds_cleared : ClearEvent → String → OrderEvent → Bool
  adds_cleared c hash oe =
      oe.chain_id == c.chain_id
      && str_eq oe.orderbook_address c.orderbook_address
      && str_eq oe.order_hash hash
      && at_or_before oe.block_number oe.log_index c.block_number c.log_index

  unfoldable pub newer_for_clear : ClearEvent → OrderEvent → OrderEvent → Bool
  newer_for_clear c oe newer =
      newer.chain_id == oe.chain_id
      && str_eq newer.orderbook_address oe.orderbook_address
      && str_eq newer.order_hash oe.order_hash
      && at_or_before newer.block_number newer.log_index c.block_number c.log_index
      && after newer.block_number newer.log_index oe.block_number oe.log_index

  -- The `AfterClear` events that `MIN(ac.log_index)` ranges over, and the minimum.
  unfoldable pub follows : ClearEvent → AfterClear → Bool
  follows c ac =
      ac.chain_id == c.chain_id
      && str_eq ac.orderbook_address c.orderbook_address
      && str_eq ac.transaction_hash c.transaction_hash
      && ltb c.log_index ac.log_index

  unfoldable pub min_log_index : List AfterClear → Option ℕ
  min_log_index [] = none
  min_log_index (ac ∷ acs) = elim (min_log_index acs) [
    | none ↦ some ac.log_index
    | some least ↦ some (if ltb least ac.log_index then least else ac.log_index)
  ]

  unfoldable pub is_next : ClearEvent → AfterClear → Bool
  is_next c a =
      a.chain_id == c.chain_id
      && str_eq a.orderbook_address c.orderbook_address
      && str_eq a.transaction_hash c.transaction_hash
      && (elim (min_log_index (filter (follows c) T.after_clear_v2_events)) [
        | none ↦ false
        | some least ↦ a.log_index == least
      ])

  unfoldable pub clear_row : Side → ClearEvent → OrderEvent → AfterClear → TradeRow
  clear_row side c oe a = record {
    order_hash = oe.order_hash;
    transaction_hash = c.transaction_hash;
    log_index = c.log_index;
    block_timestamp = c.block_timestamp;
    transaction_sender = c.sender;
    input_delta = side.input_of a;
    output_delta_raw = side.output_of a;
  }

  unfoldable pub rows_of_clear : Side → List OrderEvent → ClearEvent → List TradeRow
  rows_of_clear side adds c =
      concat_map (λ oe. map (clear_row side c oe) (filter (is_next c) T.after_clear_v2_events))
        (filter (λ oe. adds_cleared c (side.hash_of c) oe && not (any (newer_for_clear c oe) adds))
          adds)

  unfoldable pub clears_of : Side → List String → List TradeRow
  clears_of side hashes = distinct (
      concat_map (rows_of_clear side (order_add_events hashes)) (
        filter
          (λ c.
            c.chain_id == chain_id
            && str_eq c.orderbook_address orderbook
            && is_in (side.hash_of c) hashes)
          T.clear_v3_events))

  unfoldable pub clear_alice : List String → List TradeRow
  clear_alice = clears_of (record {
    hash_of = λ c. c.alice_order_hash;
    input_of = λ a. a.alice_input;
    output_of = λ a. a.alice_output;
  })

  unfoldable pub clear_bob : List String → List TradeRow
  clear_bob = clears_of (record {
    hash_of = λ c. c.bob_order_hash;
    input_of = λ a. a.bob_input;
    output_of = λ a. a.bob_output;
  })

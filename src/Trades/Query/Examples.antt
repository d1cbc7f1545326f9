-- ===== src/Trades/Query/Examples.antt =====
-- The batch query on small tables.
use Prim.Native.String.{String}
use albion_rest_api.Base.{
  ℕ, zero, suc, ◌≡◌, refl, ap, true, none, some, List, [], ◌∷◌, inr, filter, any, concat_map, All,
}
use albion_rest_api.Raindex.{B256}
use albion_rest_api.Raindex.Sample.{sample}
use albion_rest_api.Trades.Batch.Fresh.{IsPointwise}
use albion_rest_api.Trades.Fetcher.{Connection, batch_fetch}
use albion_rest_api.Trades.Query.{
  OrderEvent, TakeOrder, ClearEvent, AfterClear, Tables, TradeRow, is_in, order_add_events,
  adds_taken, newer_for_take, take_row, chosen, rows_of_take, take_trades, adds_cleared,
  newer_for_clear, follows, min_log_index, is_next, clear_row, rows_of_clear, row_eq, distinct,
  clears_of, clear_alice, clear_bob,
}
use albion_rest_api.Trades.Query.Rows.{SqlTexts, precedes, insert_row, sort_rows, batch_rows}
use albion_rest_api.Text.Order.{text_ltb}
use albion_rest_api.Trades.Query.Taker.{
  put_max, group_takes, insert_newest, sort_newest, taken_by, taker_query, IsNewestFirst, covers,
  stems_from,
}
use albion_rest_api.Trades.Query.Taker.Laws.{taker_query-IsNewestFirst}
use albion_rest_api.Trades.Query.Alone.{rows_of}
use albion_rest_api.Trades.Query.Orders.{UniqueNonces, batch_rows_alone}
use albion_rest_api.Trades.Query.Listed.{
  IsSorted, IsListed, SamePlace, batch_rows-IsSorted, chosen-SamePlace,
}
use albion_rest_api.Trades.Query.Fetch.{on_tables, batch_fetch-IsPointwise}

-- A hash as that many ones.
unfoldable show : B256 → String
show zero = ""
show (suc n) = String.◌∷◌ "1" (show n)

unfoldable parse : String → ℕ
parse String.[] = 0
parse (String.◌∷◌ c s) = suc (parse s)

parse-show : (n : B256) → parse (show n) ≡ n
unfolding parse show
parse-show zero = refl
parse-show (suc n) = ap suc (parse-show n)

abbrev conn : Connection sample
conn = record {
  query_trades = λ _. none;
  query_taker = λ _. none;
  show_hash = show;
  show_address = show;
  parse_hash = λ s. inr (parse s);
  parse_address = λ s. inr (parse s);
  from_hex = λ _. some 1;
  neg_one = some 1;
  mul_float = λ _ a. some a;
}

abbrev sql : SqlTexts
sql = record { lower = λ s. s; replace = λ s _ _. s; hex16 = λ _. "" }

abbrev add : String → String → ℕ → OrderEvent
add order_hash order_nonce block = record {
  chain_id = 1;
  orderbook_address = "ob";
  block_number = block;
  log_index = 0;
  order_owner = "o";
  order_nonce = order_nonce;
  order_hash = order_hash;
  event_type = "AddOrderV3";
}

abbrev take_at : ℕ → TakeOrder
take_at block = record {
  chain_id = 1;
  orderbook_address = "ob";
  transaction_hash = "111";
  block_number = block;
  log_index = 4;
  block_timestamp = 100;
  sender = "1";
  order_owner = "o";
  order_nonce = "n";
  taker_input = "a";
  taker_output = "b";
}

abbrev clear : ClearEvent
clear = record {
  chain_id = 1;
  orderbook_address = "ob";
  transaction_hash = "1111";
  block_number = 30;
  log_index = 2;
  block_timestamp = 200;
  sender = "1";
  alice_order_hash = "1";
  bob_order_hash = "11";
}

abbrev after_clear : ℕ → AfterClear
after_clear log = record {
  chain_id = 1;
  orderbook_address = "ob";
  transaction_hash = "1111";
  log_index = log;
  alice_input = "c";
  alice_output = "d";
  bob_input = "e";
  bob_output = "f";
}

-- Two orders of one owner, the second with the given nonce, and a take after both.
abbrev tables : String → Tables
tables nonce = record {
  order_events = add "1" "n" 10 ∷ add "11" nonce 20 ∷ [];
  take_orders = take_at 25 ∷ [];
  clear_v3_events = clear ∷ [];
  after_clear_v2_events = after_clear 7 ∷ after_clear 3 ∷ after_clear 1 ∷ [];
}

program : Unit {0}
unfolding filter any concat_map is_in order_add_events adds_taken newer_for_take take_row chosen
    rows_of_take take_trades adds_cleared newer_for_clear follows min_log_index is_next clear_row
    rows_of_clear row_eq distinct clears_of clear_alice clear_bob text_ltb precedes insert_row
    sort_rows batch_rows
program = tt

shape : List TradeRow → List (String × ℕ × String)
shape [] = []
shape (row ∷ rows) = (row.order_hash, row.block_timestamp, row.input_delta) ∷ shape rows

-- The newest first for each order; the clear is joined to the first event after it.
rows_run :
    shape (batch_rows (tables "") 1 "ob" ("11" ∷ "1" ∷ []))
    ≡ ("1", 200, "c") ∷ ("1", 100, "b") ∷ ("11", 200, "e") ∷ []
unfolding program shape
rows_run = refl

-- An owner who has used a nonce twice: the take counts for the newer order if the query asks for both,
-- and for the older one if it asks for this one alone.
nonce_reused_run :
    (shape (rows_of "1" (batch_rows (tables "n") 1 "ob" ("1" ∷ "11" ∷ []))) ≡ ("1", 200, "c") ∷ [])
    × (shape (batch_rows (tables "n") 1 "ob" ("1" ∷ [])) ≡ ("1", 200, "c") ∷ ("1", 100, "b") ∷ [])
unfolding program shape
nonce_reused_run = (refl, refl)

unique : UniqueNonces (tables "") 1 "ob"
unfolding UniqueNonces
unique = (
  ((λ _ _ _ _. refl), ((λ _ _ _ n. absurd cc), tt)),
  (((λ _ _ _ n. absurd cc), ((λ _ _ _ _. refl), tt)), tt),
)

batch_rows_alone_run :
    rows_of "1" (batch_rows (tables "") 1 "ob" ("1" ∷ "11" ∷ []))
    ≡ batch_rows (tables "") 1 "ob" ("1" ∷ [])
unfolding program
batch_rows_alone_run = batch_rows_alone (tables "") 1 "ob" "1" ("1" ∷ "11" ∷ []) refl unique

batch_rows-IsSorted_example :
    IsSorted (batch_rows (tables "n") 1 "ob" ("11" ∷ "1" ∷ []))
    × All
        (IsListed (tables "n") 1 "ob" ("11" ∷ "1" ∷ []))
        (batch_rows (tables "n") 1 "ob" ("11" ∷ "1" ∷ []))
batch_rows-IsSorted_example = batch_rows-IsSorted (tables "n") 1 "ob" ("11" ∷ "1" ∷ [])

chosen-SamePlace_example :
    All
      (λ a.
        All
          (λ b. SamePlace (tables "n") 1 "ob" a b)
          (chosen (tables "n") 1 "ob" (add "1" "n" 10 ∷ add "11" "n" 20 ∷ []) (take_at 25)))
      (chosen (tables "n") 1 "ob" (add "1" "n" 10 ∷ add "11" "n" 20 ∷ []) (take_at 25))
chosen-SamePlace_example =
    chosen-SamePlace (tables "n") 1 "ob" (add "1" "n" 10 ∷ add "11" "n" 20 ∷ []) (take_at 25)

batch_fetch-IsPointwise_example :
    IsPointwise sample (batch_fetch sample (on_tables sample conn sql (tables "") 1 "ob"))
batch_fetch-IsPointwise_example =
    batch_fetch-IsPointwise sample conn sql (tables "") 1 "ob" (λ n. ap inr (parse-show n)) unique

-- Two takes of one transaction, and an older one of another.
abbrev takes : Tables
takes = record (tables "") {
  take_orders =
      record (take_at 5) { transaction_hash = "1"; block_timestamp = 90 }
      ∷ record (take_at 6) { block_timestamp = 300 }
      ∷ take_at 7
      ∷ record (take_at 8) { sender = "2"; block_timestamp = 400 }
      ∷ [];
}

taker_run : taker_query takes "1" 1 "ob" ≡ ("111", 300) ∷ ("1", 90) ∷ []
unfolding filter taker_query taken_by group_takes put_max sort_newest insert_newest
taker_run = refl

taker_query-IsNewestFirst_example :
    IsNewestFirst (taker_query takes "1" 1 "ob")
    × All
        (λ row. any (stems_from row) (filter (taken_by "1" 1 "ob") takes.take_orders) ≡ true)
        (taker_query takes "1" 1 "ob")
    × All
        (λ t. any (covers t) (taker_query takes "1" 1 "ob") ≡ true)
        (filter (taken_by "1" 1 "ob") takes.take_orders)
taker_query-IsNewestFirst_example = taker_query-IsNewestFirst takes "1" 1 "ob"

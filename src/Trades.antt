-- ===== src/Trades.antt =====
-- src/routes/trades.rs: the scan of the orders, their trades, and the trades of an address.
pub mod Scan
pub mod Sorted
pub mod ByAddress
pub mod Tx
pub mod Client
pub mod Cached
pub mod Taker
pub mod Fetcher
pub mod Query
pub mod Pending
pub mod Batch
mod Examples
use Prim.Native.String.{String}
use albion_rest_api.Base.{
  ℕ, zero, suc, ◌+◌, ◌^◌, Bool, true, false, ◌&&◌, ◌||◌, Option, none, some, List, [], ◌∷◌, ◌++◌,
  map, min, ltb, leb, ◌==◌, if◌then◌else◌, length, unwrap_or,
}
use albion_rest_api.Error.{Result, ok, err, internal, ◌>>=◌}
use albion_rest_api.Raindex.{Raindex, Address, B256}
use albion_rest_api.Pagination.{Pagination, build_pagination, slice_page}
use albion_rest_api.Orders.Types.{TokenRef, GetOrdersFilters, token_ref}
use albion_rest_api.Text.{◌+++◌}

abbrev pub orders_scan_page_size : ℕ
orders_scan_page_size = 50

abbrev pub u16_max : ℕ
u16_max = 65_535

pub record TradeByAddress : Type 0 where
  pub tx_hash : B256
  pub input_amount : String
  pub output_amount : String
  pub input_token : TokenRef
  pub output_token : TokenRef
  pub order_hash : Option B256
  pub timestamp : ℕ
  pub block_number : ℕ

pub record TradesPaginationParams : Type 0 where
  pub page : Option ℕ
  pub page_size : Option ℕ
  pub start_time : Option ℕ
  pub end_time : Option ℕ

pub record TradesByAddressResponse : Type 0 where
  pub trades : List TradeByAddress
  pub pagination : Pagination

unfoldable pub to_u64 : ℕ → String → Result ℕ
to_u64 value field = if ltb value (2 ^ 64) then ok value else err (internal (field +++ " overflow"))

-- The order of the keys `(Reverse(timestamp), Reverse(block_number))`: `a` comes no later than `b`.
unfoldable pub newer : TradeByAddress → TradeByAddress → Bool
newer a b =
    ltb b.timestamp a.timestamp || a.timestamp == b.timestamp && leb b.block_number a.block_number

-- The stable `sort_by_key`.
unfoldable pub insert_trade : TradeByAddress → List TradeByAddress → List TradeByAddress
insert_trade t [] = t ∷ []
insert_trade t (u ∷ us) =
    let later = insert_trade t us in if newer t u then t ∷ u ∷ us else u ∷ later

unfoldable pub sort_trades : List TradeByAddress → List TradeByAddress
sort_trades [] = []
sort_trades (t ∷ ts) = insert_trade t (sort_trades ts)

module _ (X : Raindex) where
  open X use {RaindexOrder, RaindexTrade}

  pub record TradeWithOwner : Type 0 where
    pub owner : Address
    pub trade : RaindexTrade

  -- The methods of `TradesDataSource` that the trades of an address need.
  pub record TradesDataSource : Type 0 where
    pub get_orders : GetOrdersFilters → Option ℕ → Option ℕ → Result (List RaindexOrder × ℕ)
    pub get_order_trades : RaindexOrder → Option ℕ → Option ℕ → Result (List RaindexTrade)

  -- The loop of `fetch_all_orders`; `none` is out of fuel.
  unfoldable pub scan_orders :
      TradesDataSource
      → GetOrdersFilters
      → ℕ
      → ℕ
      → List RaindexOrder
      → Option (Result (List RaindexOrder))
  scan_orders ds filters zero page all_orders = none
  scan_orders ds filters (suc fuel) page all_orders =
      elim (ds.get_orders filters (some page) (some orders_scan_page_size)) [
        | err e ↦ some (err e)
        | ok (orders, total_count) ↦
            let all = all_orders ++ orders in
            let next = min (page + 1) u16_max in
            let rest = scan_orders ds filters fuel next all in
            if leb total_count (length all)
            then some (ok all)
            else if total_count == 0
            then some (ok all)
            else if next == u16_max
            then some (ok all)
            else rest
      ]

  -- The pages are at most 1 to 65534.
  unfoldable pub fetch_all_orders :
      TradesDataSource → GetOrdersFilters → Option (Result (List RaindexOrder))
  fetch_all_orders ds filters = scan_orders ds filters 65_534 1 []

  -- The queries are made together; the first error in the order of the orders is returned.
  unfoldable pub load_trades_with_owners :
      TradesDataSource → List RaindexOrder → Option ℕ → Option ℕ → Result (List TradeWithOwner)
  load_trades_with_owners ds [] start_time end_time = ok []
  load_trades_with_owners ds (order ∷ orders) start_time end_time =
      ds.get_order_trades order start_time end_time >>= λ trades.
      load_trades_with_owners ds orders start_time end_time >>= λ rest.
      ok (map (λ trade. record { owner = X.owner order; trade = trade }) trades ++ rest)

  -- One round of the loop over the trades.
  unfoldable pub trade_by_address : TradeWithOwner → Result TradeByAddress
  trade_by_address t =
      let input_change = X.input_change t.trade in
      let output_change = X.output_change t.trade in
      let tx = X.transaction t.trade in
      to_u64 (X.trade_timestamp t.trade) "timestamp" >>= λ timestamp.
      to_u64 tx.block_number "block number" >>= λ block_number. ok (record {
        tx_hash = tx.id;
        input_amount = input_change.formatted_amount;
        output_amount = output_change.formatted_amount;
        input_token = token_ref X input_change.token;
        output_token = token_ref X output_change.token;
        order_hash = X.parse_b256 (X.trade_order_hash t.trade);
        timestamp = timestamp;
        block_number = block_number;
      })

  unfoldable pub trades_by_address : List TradeWithOwner → Result (List TradeByAddress)
  trades_by_address [] = ok []
  trades_by_address (t ∷ ts) =
      trade_by_address t >>= λ row. trades_by_address ts >>= λ rows. ok (row ∷ rows)

  -- What follows the loop: the sort and the page.
  unfoldable pub page_of_trades :
      TradesPaginationParams → List TradeByAddress → TradesByAddressResponse
  page_of_trades params rows =
      let trades = sort_trades rows in
      let page = unwrap_or params.page 1 in
      let page_size = unwrap_or params.page_size 20 in
      record {
        trades = slice_page page page_size trades;
        pagination = build_pagination (length trades) page page_size;
      }

  unfoldable pub process_get_trades_by_address :
      TradesDataSource → Address → TradesPaginationParams → Option (Result TradesByAddressResponse)
  process_get_trades_by_address ds owner params =
      elim (fetch_all_orders ds
        (record { owners = owner ∷ []; active = none; order_hash = none; tokens = none })) [
          | none ↦ none
          | some found ↦ some (
              found >>= λ orders.
              load_trades_with_owners ds orders params.start_time params.end_time >>= λ trades.
              trades_by_address trades >>= λ rows. ok (page_of_trades params rows))
        ]

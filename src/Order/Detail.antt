-- ===== src/Order/Detail.antt =====
-- `process_get_order` of src/routes/order/get_order.rs.
use Prim.Native.String.{String}
use albion_rest_api.Base.{ℕ, none, some, List, map, first, unwrap_or}
use albion_rest_api.Error.{Result, ok, ◌>>=◌}
use albion_rest_api.Raindex.{Raindex, Address, B256, Bytes}
use albion_rest_api.Vaults.{resolve_io_vaults}
use albion_rest_api.Orders.Types.{TokenRef, OrderType, token_ref, u64_or_zero}
use albion_rest_api.Orders.Kind.{determine_order_type}
use albion_rest_api.Trades.Batch.{OrderTradeEntry, map_trade}
use albion_rest_api.Order.{OrderDataSource, first_or_missing}

pub record OrderDetailsInfo : Type 0 where
  pub type_ : OrderType
  pub io_ratio : String

pub record OrderDetail : Type 0 where
  pub order_hash : B256
  pub owner : Address
  pub order_bytes : Bytes
  pub order_details : OrderDetailsInfo
  pub input_token : TokenRef
  pub output_token : TokenRef
  pub input_vault_id : ℕ
  pub output_vault_id : ℕ
  pub input_vault_balance : String
  pub output_vault_balance : String
  pub io_ratio : String
  pub created_at : ℕ
  pub orderbook_id : Address
  pub trades : List OrderTradeEntry

module _ (X : Raindex) where
  open X use {RaindexOrder, RaindexOrderQuote, RaindexVault, RaindexTrade, formatted_ratio}

  -- The literal of `build_order_detail`, of the two vaults.
  unfoldable pub detail_of :
      RaindexOrder
      → OrderType
      → String
      → List RaindexTrade
      → RaindexVault × RaindexVault
      → OrderDetail
  detail_of order order_type io_ratio trades (i, o) = record {
    order_hash = X.order_hash order;
    owner = X.owner order;
    order_bytes = X.order_bytes order;
    order_details = record { type_ = order_type; io_ratio = io_ratio };
    input_token = token_ref X (X.token i);
    output_token = token_ref X (X.token o);
    input_vault_id = X.vault_id i;
    output_vault_id = X.vault_id o;
    input_vault_balance = X.formatted_balance i;
    output_vault_balance = X.formatted_balance o;
    io_ratio = io_ratio;
    created_at = u64_or_zero (X.timestamp_added order);
    orderbook_id = X.orderbook order;
    trades = map (map_trade X) trades;
  }

  unfoldable pub build_order_detail :
      RaindexOrder → OrderType → String → List RaindexTrade → Result OrderDetail
  build_order_detail order order_type io_ratio trades =
      resolve_io_vaults X order >>= λ vaults. ok (detail_of order order_type io_ratio trades vaults)

  unfoldable pub first_ratio : List RaindexOrderQuote → String
  first_ratio quotes = elim (first quotes) [
    | none ↦ "-"
    | some q ↦ unwrap_or (formatted_ratio q) "-"
  ]

  unfoldable pub process_get_order : OrderDataSource X → B256 → Result OrderDetail
  process_get_order ds hash = ds.get_orders_by_hash hash >>= λ orders.
      first_or_missing orders >>= λ order. ds.get_order_quotes order >>= λ quotes.
      ds.get_order_trades order >>= λ trades.
      build_order_detail order (determine_order_type X order) (first_ratio quotes) trades

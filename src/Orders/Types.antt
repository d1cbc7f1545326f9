-- ===== src/Orders/Types.antt =====
-- The parts of src/types/common.rs, src/types/order.rs and src/types/orders.rs that the listings
-- build, and the classification of an order.
use Prim.Native.String.{String}
use albion_rest_api.Base.{ℕ, ◌^◌, Bool, Option, List, ltb, if◌then◌else◌, unwrap_or}
use albion_rest_api.Raindex.{Raindex, Address, B256, Bytes}
use albion_rest_api.Pagination.{Pagination}

pub record TokenRef : Type 0 where
  pub address : Address
  pub symbol : String
  pub decimals : ℕ

pub data OrderType : Type 0 where
  limit strategy : OrderType

pub data OrderSide : Type 0 where
  input output : OrderSide

pub record OrderSummary : Type 0 where
  pub order_hash : B256
  pub owner : Address
  pub order_bytes : Bytes
  pub order_type : OrderType
  pub input_token : TokenRef
  pub output_token : TokenRef
  pub output_vault_balance : String
  pub io_ratio : String
  pub created_at : ℕ
  pub orderbook_id : Address

pub record OrdersListResponse : Type 0 where
  pub orders : List OrderSummary
  pub pagination : Pagination

pub record GetOrdersTokenFilter : Type 0 where
  pub inputs : Option (List Address)
  pub outputs : Option (List Address)

-- The fields that the sources set.
pub record GetOrdersFilters : Type 0 where
  pub owners : List Address
  pub active : Option Bool
  pub order_hash : Option B256
  pub tokens : Option GetOrdersTokenFilter

-- `u256.try_into::<u64>().unwrap_or(0)`
unfoldable pub u64_or_zero : ℕ → ℕ
u64_or_zero n = if ltb n (2 ^ 64) then n else 0

module _ (X : Raindex) where
  -- The literal of a `TokenRef` from a token.
  unfoldable pub token_ref : X.Token → TokenRef
  token_ref t = record {
    address = X.address t;
    symbol = unwrap_or (X.symbol t) "";
    decimals = X.decimals t;
  }

-- ===== src/Order.antt =====
-- src/routes/order/: the data source, the detail of an order, and its cancellation. The deployment
-- handlers of that folder are not written yet in the source.
pub mod Found
pub mod Detail
pub mod Shown
pub mod Cancel
pub mod Refunds
mod Examples
use Prim.Native.String.{String}
use albion_rest_api.Base.{ℕ, Option, none, some, List, [], ◌∷◌}
use albion_rest_api.Error.{Result, ok, err, not_found, ◌>>=◌, or_internal}
use albion_rest_api.Raindex.{Raindex, B256, Bytes}
use albion_rest_api.Raindex.Client.{RaindexClient}

-- `into_iter().next().ok_or_else(…)`
unfoldable pub first_or_missing {ℓ} : {A : Type ℓ} → List A → Result A
first_or_missing [] = err (not_found "order not found")
first_or_missing (order ∷ _) = ok order

module _ (X : Raindex) where
  open X use {RaindexOrder, RaindexOrderQuote, RaindexTrade}

  pub record OrderDataSource : Type 0 where
    pub get_orders_by_hash : B256 → Result (List RaindexOrder)
    pub get_order_quotes : RaindexOrder → Result (List RaindexOrderQuote)
    pub get_order_trades : RaindexOrder → Result (List RaindexTrade)
    pub get_remove_calldata : RaindexOrder → Result Bytes

  -- `RaindexOrderDataSource`.
  unfoldable pub raindex_order_source : RaindexClient X → OrderDataSource
  raindex_order_source client = record {
    get_orders_by_hash = λ hash.
        or_internal "failed to query orders" (
          client.get_orders
            (record { owners = []; active = none; order_hash = some hash; tokens = none }) none
            none)
        >>= λ (orders, _). ok orders;
    get_order_quotes =
        λ order. or_internal "failed to query order quotes" (client.get_quotes order);
    get_order_trades = λ order.
        or_internal "failed to query order trades" (client.get_trades_list order none none);
    get_remove_calldata =
        λ order. or_internal "failed to get remove calldata" (client.get_remove_calldata order);
  }

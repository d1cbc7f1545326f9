-- ===== src/Trades/ByAddress.antt =====
-- `process_get_trades_by_address` of src/routes/trades.rs: what its pages hold.
use albion_rest_api.Base.{ℕ, ◌≡◌, none, List, [], ◌∷◌, length}
use albion_rest_api.Raindex.{Raindex, Address}
use albion_rest_api.Orders.Types.{GetOrdersFilters}
use albion_rest_api.Trades.{TradeByAddress}
use albion_rest_api.Trades.Sorted.{IsDescending, trades_at}

module _ (X : Raindex) where
  open X use {RaindexOrder}

  -- All orders of an owner, active or not.
  unfoldable pub filters_of : Address → GetOrdersFilters
  filters_of owner = record { owners = owner ∷ []; active = none; order_hash = none; tokens = none }

  -- The newest trade first; those of one time and block keep their order; none is lost or made.
  unfoldable pub IsNewestFirst : List TradeByAddress → List TradeByAddress → Type 0
  IsNewestFirst rows sorted =
      IsDescending sorted
      × ((time block : ℕ) → trades_at time block sorted ≡ trades_at time block rows)
      × (length sorted ≡ length rows)

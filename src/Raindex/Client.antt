-- ===== src/Raindex/Client.antt =====
-- The calls that the sources make of the client of the rain.orderbook crates: a parameter of the
-- model. An `Option` is an error that is only logged and replaced.
use Prim.Native.String.{String}
use albion_rest_api.Base.{ℕ, ◌≡◌, refl, ◌⊎◌, inl, inr, Option, List}
use albion_rest_api.Raindex.{Raindex, Address, B256, Bytes}
use albion_rest_api.Orders.Types.{GetOrdersFilters}

-- The variants of `RaindexError` that the sources name, with their texts.
pub data RaindexError : Type 0 where
  no_liquidity insufficient_liquidity : RaindexError
  same_token_pair non_positive_amount negative_price_cap : String → RaindexError
  from_hex_error float_error : String → RaindexError
  preflight_error : String → RaindexError
  order_not_found transaction_indexing_timeout other_error : RaindexError

pub data Fallible {ℓ} (A : Type ℓ) : Type ℓ where
  answer : A → Fallible A
  failure : RaindexError → Fallible A

pub Fallible-cases {ℓ} :
    {A : Type ℓ} (f : Fallible A)
    → ((a : A) × (f ≡ answer a)) ⊎ ((e : RaindexError) × (f ≡ failure e))
Fallible-cases (answer a) = inl (a, refl)
Fallible-cases (failure e) = inr (e, refl)

-- The chain and the address of an orderbook.
abbrev pub Orderbook : Type 0
Orderbook = ℕ × Address

pub record RaindexClient (X : Raindex) : Type 0 where
  pub get_orders : GetOrdersFilters → Option ℕ → Option ℕ → Option (List (X.RaindexOrder) × ℕ)
  pub get_all_orderbooks : Option (List Orderbook)
  pub get_order_by_hash : Orderbook → B256 → Fallible (X.RaindexOrder)
  pub get_transaction_trades : Orderbook → B256 → Option (List (Address × X.RaindexTrade))
  pub get_transaction : Orderbook → B256 → Fallible (Unit {0})
  -- of an order
  pub get_quotes : X.RaindexOrder → Option (List (X.RaindexOrderQuote))
  pub get_trades_list : X.RaindexOrder → Option ℕ → Option ℕ → Option (List (X.RaindexTrade))
  pub get_remove_calldata : X.RaindexOrder → Option Bytes

-- ===== src/Swap.antt =====
-- src/routes/swap/: the data source, the quote and the calldata. Floats, candidates and simulations
-- are those of the rain.orderbook crates.
pub mod Safe
mod Examples
use Prim.Native.String.{String}
use albion_rest_api.Base.{ℕ, Bool, true, Option, none, some, List, [], ◌∷◌, is_empty, if◌then◌else◌}
use albion_rest_api.Error.{
  ApiError, bad_request, not_found, internal, Result, ok, err, ◌>>=◌, or_internal,
}
use albion_rest_api.Raindex.{Raindex, Address, Bytes}
use albion_rest_api.Raindex.Client.{
  RaindexClient, RaindexError, no_liquidity, insufficient_liquidity, same_token_pair,
  non_positive_amount, negative_price_cap, from_hex_error, float_error, preflight_error,
  order_not_found, transaction_indexing_timeout, other_error, Fallible, answer, failure,
}

pub record SwapQuoteRequest : Type 0 where
  pub input_token : Address
  pub output_token : Address
  pub output_amount : String

pub record SwapQuoteResponse : Type 0 where
  pub input_token : Address
  pub output_token : Address
  pub output_amount : String
  pub estimated_output : String
  pub estimated_input : String
  pub estimated_io_ratio : String

pub record SwapCalldataRequest : Type 0 where
  pub taker : Address
  pub input_token : Address
  pub output_token : Address
  pub output_amount : String
  pub maximum_io_ratio : String

pub record Approval : Type 0 where
  pub token : Address
  pub spender : Address
  pub amount : String
  pub symbol : String
  pub approval_data : Bytes

pub record SwapCalldataResponse : Type 0 where
  pub to : Address
  pub «data» : Bytes
  pub value : ℕ
  pub estimated_input : String
  pub approvals : List Approval

-- `TakeOrdersRequest`; the mode is always `BuyUpTo`.
pub record TakeOrdersRequest : Type 0 where
  pub taker : String
  pub chain_id : ℕ
  pub sell_token : String
  pub buy_token : String
  pub amount : String
  pub price_cap : String

pub record ApprovalInfo : Type 0 where
  pub token : Address
  pub spender : Address
  pub formatted_amount : String
  pub calldata : Bytes

-- What the handlers use of the take-orders code of the library.
pub record TakeOrders (X : Raindex) : Type 1 where
  pub Candidate : Type 0
  pub build_candidates : List (X.RaindexOrder) → Address → Address → Option (List Candidate)
  pub parse_float : String → Option (X.Float)
  pub max_positive_value : Option (X.Float)
  -- Whether there are legs, the total input and the total output.
  pub simulate_buy : List Candidate → X.Float → X.Float → Option (Bool × X.Float × X.Float)
  -- The approval, or the orderbook, the calldata and the expected sell; or neither.
  pub get_take_orders_calldata :
      TakeOrdersRequest → Fallible (Option ApprovalInfo × Option (Address × Bytes × X.Float))
  pub show_address : Address → String

abbrev pub chain_id : ℕ
chain_id = 8453

unfoldable pub map_raindex_error : RaindexError → ApiError
map_raindex_error no_liquidity = not_found "no liquidity found for this pair"
map_raindex_error insufficient_liquidity = not_found "no liquidity found for this pair"
map_raindex_error (same_token_pair e) = bad_request e
map_raindex_error (non_positive_amount e) = bad_request e
map_raindex_error (negative_price_cap e) = bad_request e
map_raindex_error (from_hex_error e) = bad_request e
map_raindex_error (float_error e) = bad_request e
map_raindex_error (preflight_error readable) = bad_request readable
map_raindex_error order_not_found = internal "failed to generate calldata"
map_raindex_error transaction_indexing_timeout = internal "failed to generate calldata"
map_raindex_error other_error = internal "failed to generate calldata"

-- `ok_or_else` with another error.
unfoldable pub or_error {ℓ} : {A : Type ℓ} → ApiError → Option A → Result A
or_error e none = err e
or_error e (some a) = ok a

module _ (X : Raindex) (T : TakeOrders X) where
  open X use {RaindexOrder, Float, div_float, format_float}
  open T use {Candidate}

  pub record SwapDataSource : Type 0 where
    pub get_orders_for_pair : Address → Address → Result (List RaindexOrder)
    pub build_candidates_for_pair : List RaindexOrder → Address → Address → Result (List Candidate)
    pub get_calldata : TakeOrdersRequest → Result SwapCalldataResponse

  -- The response to the calldata of the library.
  unfoldable pub calldata_response :
      Option ApprovalInfo → Option (Address × Bytes × Float) → Result SwapCalldataResponse
  calldata_response (some approval) _ = ok (record {
    to = approval.spender;
    «data» = [];
    value = 0;
    estimated_input = approval.formatted_amount;
    approvals =
        record {
          token = approval.token;
          spender = approval.spender;
          amount = approval.formatted_amount;
          symbol = "";
          approval_data = approval.calldata;
        }
        ∷ [];
  })
  calldata_response none (some (orderbook, calldata, expected_sell)) =
      or_internal "failed to format expected sell" (format_float expected_sell)
      >>= λ estimated_input. ok (record {
        to = orderbook;
        «data» = calldata;
        value = 0;
        estimated_input = estimated_input;
        approvals = [];
      })
  calldata_response none none = err (internal "unexpected calldata result state")

  -- `RaindexSwapDataSource`.
  unfoldable pub raindex_swap_source : RaindexClient X → SwapDataSource
  raindex_swap_source client = record {
    get_orders_for_pair = λ input_token output_token.
        or_internal "failed to query orders" (
          client.get_orders
            (record {
              owners = [];
              active = some true;
              order_hash = none;
              tokens =
                  some (record {
                    inputs = some (input_token ∷ []);
                    outputs = some (output_token ∷ []);
                  });
            })
            none none)
        >>= λ (orders, _). ok orders;
    build_candidates_for_pair = λ orders input_token output_token.
        or_internal "failed to build order candidates"
          (T.build_candidates orders input_token output_token);
    get_calldata = λ request. elim (T.get_take_orders_calldata request) [
      | failure e ↦ err (map_raindex_error e)
      | answer (approval, take_orders) ↦ calldata_response approval take_orders
    ];
  }

  -- The end of the quote, of a simulation.
  unfoldable pub quote_response : SwapQuoteRequest → Bool × Float × Float → Result SwapQuoteResponse
  quote_response req (has_legs, total_input, total_output) =
      if has_legs
      then (or_internal "failed to compute ratio" (div_float total_input total_output)
          >>= λ blended_ratio.
              or_internal "failed to format estimated output" (format_float total_output)
              >>= λ formatted_output.
                  or_internal "failed to format estimated input" (format_float total_input)
                  >>= λ formatted_input.
                      or_internal "failed to format ratio" (format_float blended_ratio)
                      >>= λ formatted_ratio. ok (record {
                        input_token = req.input_token;
                        output_token = req.output_token;
                        output_amount = req.output_amount;
                        estimated_output = formatted_output;
                        estimated_input = formatted_input;
                        estimated_io_ratio = formatted_ratio;
                      }))
      else err (not_found "no valid quotes available")

  unfoldable pub process_swap_quote : SwapDataSource → SwapQuoteRequest → Result SwapQuoteResponse
  process_swap_quote ds req = ds.get_orders_for_pair req.input_token req.output_token >>= λ orders.
      if is_empty orders
      then err (not_found "no liquidity found for this pair")
      else (ds.build_candidates_for_pair orders req.input_token req.output_token >>= λ candidates.
          if is_empty candidates
          then err (not_found "no valid quotes available")
          else (or_error (bad_request "invalid output_amount") (T.parse_float req.output_amount)
              >>= λ buy_target.
                  or_internal "failed to create price cap" T.max_positive_value >>= λ price_cap.
                  or_internal "failed to simulate swap"
                    (T.simulate_buy candidates buy_target price_cap)
                  >>= quote_response req))

  unfoldable pub process_swap_calldata :
      SwapDataSource → SwapCalldataRequest → Result SwapCalldataResponse
  process_swap_calldata ds req = ds.get_calldata (record {
    taker = T.show_address req.taker;
    chain_id = chain_id;
    sell_token = T.show_address req.input_token;
    buy_token = T.show_address req.output_token;
    amount = req.output_amount;
    price_cap = req.maximum_io_ratio;
  })

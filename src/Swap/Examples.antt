-- ===== src/Swap/Examples.antt =====
-- Quotes and calldata for a swap on small inputs.
use Prim.Native.String.{String}
use text.Mathlib.Text.{◌==◌ as str_eq}
use albion_rest_api.Base.{if◌then◌else◌, ◌≡◌, refl, true, none, some, [], ◌∷◌}
use albion_rest_api.Error.{ok, err, bad_request, not_found, or_internal}
use albion_rest_api.Raindex.Client.{
  RaindexClient, failure, answer, other_error, insufficient_liquidity,
}
use albion_rest_api.Raindex.Sample.{sample, SampleOrder}
use albion_rest_api.Swap.{
  TakeOrders, SwapQuoteRequest, SwapCalldataRequest, SwapCalldataResponse, map_raindex_error,
  calldata_response, raindex_swap_source, process_swap_calldata, process_swap_quote, quote_response,
  or_error,
}
use albion_rest_api.Swap.Safe.{IsLibrarys, process_swap_calldata-IsLibrarys}

-- The library asks for an approval for a price cap of "1", and has no liquidity for "0".
abbrev take_orders : TakeOrders sample
take_orders = record {
  Candidate = SampleOrder;
  build_candidates = λ orders _ _. some orders;
  parse_float = λ shown. if str_eq shown "" then none else some 6;
  max_positive_value = some 100;
  simulate_buy = λ candidates amount cap. some (true, 12, amount);
  get_take_orders_calldata = λ request.
      if str_eq request.price_cap "0"
      then failure insufficient_liquidity
      else if str_eq request.price_cap "1"
      then answer (
        some (record { token = 7; spender = 2; formatted_amount = "5"; calldata = 9 ∷ [] }),
        none,
      )
      else answer (none, some (2, 8 ∷ [], 5));
  show_address = λ _. "0x";
}

abbrev client : RaindexClient sample
client = record {
  get_orders = λ _ _ _. some (record { hash = 9; chain = 1; vaults = [] } ∷ [], 1);
  get_all_orderbooks = some [];
  get_order_by_hash = λ _ _. failure other_error;
  get_transaction_trades = λ _ _. none;
  get_transaction = λ _ _. failure other_error;
  get_quotes = λ _. some [];
  get_trades_list = λ _ _ _. some [];
  get_remove_calldata = λ _. some [];
}

program : Unit {0}
unfolding raindex_swap_source process_swap_calldata process_swap_quote quote_response
    calldata_response or_internal or_error map_raindex_error
program = tt

abbrev request : String → SwapCalldataRequest
request cap = record {
  taker = 1;
  input_token = 7;
  output_token = 8;
  output_amount = "6";
  maximum_io_ratio = cap;
}

abbrev quote_request : String → SwapQuoteRequest
quote_request amount = record { input_token = 7; output_token = 8; output_amount = amount }

quoted_run :
    process_swap_quote sample take_orders
      (raindex_swap_source sample take_orders client)
      (quote_request "6")
    ≡ ok (record {
      input_token = 7;
      output_token = 8;
      output_amount = "6";
      estimated_output = "1";
      estimated_input = "1";
      estimated_io_ratio = "1";
    })
unfolding program
quoted_run = refl

bad_amount_run :
    process_swap_quote sample take_orders
      (raindex_swap_source sample take_orders client)
      (quote_request "")
    ≡ err (bad_request "invalid output_amount")
unfolding program
bad_amount_run = refl

illiquid_run :
    process_swap_calldata sample take_orders
      (raindex_swap_source sample take_orders client)
      (request "0")
    ≡ err (not_found "no liquidity found for this pair")
unfolding program
illiquid_run = refl

abbrev sent : SwapCalldataResponse
sent = record { to = 2; «data» = 8 ∷ []; value = 0; estimated_input = "1"; approvals = [] }

sent_run :
    process_swap_calldata sample take_orders
      (raindex_swap_source sample take_orders client)
      (request "2")
    ≡ ok sent
unfolding program
sent_run = refl

process_swap_calldata-IsLibrarys_example : IsLibrarys sample take_orders (request "2") sent
process_swap_calldata-IsLibrarys_example =
    process_swap_calldata-IsLibrarys sample take_orders client (request "2") sent sent_run

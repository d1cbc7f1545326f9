-- ===== src/Order/Examples.antt =====
-- The detail of an order and its cancellation on small inputs.
use albion_rest_api.Base.{◌≡◌, ◌↔◌, refl, none, some, [], ◌∷◌}
use albion_rest_api.Error.{ok, or_internal}
use albion_rest_api.Raindex.{input, output}
use albion_rest_api.Raindex.Client.{RaindexClient, failure, other_error}
use albion_rest_api.Raindex.Sample.{SampleVault, SampleOrder, sample}
use albion_rest_api.Vaults.{resolve_io_vaults, scan_vaults, take_vault}
use albion_rest_api.Orders.Types.{limit, token_ref, u64_or_zero}
use albion_rest_api.Orders.Kind.{determine_order_type, classify_from_bytecode}
use albion_rest_api.Order.{raindex_order_source, first_or_missing}
use albion_rest_api.Order.Detail.{
  OrderDetail, process_get_order, build_order_detail, detail_of, first_ratio,
}
use albion_rest_api.Order.Shown.{IsDetail, process_get_order-ok_iff}
use albion_rest_api.Order.Cancel.{
  CancelOrderResponse, process_cancel_order, return_tokens, check_zero, cancel_response,
  token_return,
}
use albion_rest_api.Order.Refunds.{IsCancellation, process_cancel_order-ok_iff}

program : Unit {0}
unfolding raindex_order_source first_or_missing process_get_order build_order_detail detail_of
    first_ratio process_cancel_order return_tokens check_zero cancel_response resolve_io_vaults
    scan_vaults take_vault or_internal token_return token_ref u64_or_zero determine_order_type
    classify_from_bytecode
program = tt

abbrev buyer : SampleVault
buyer = record { kind = some input; id = 4; amount = 0; shown = "0" }

abbrev seller : SampleVault
seller = record { kind = some output; id = 3; amount = 5; shown = "5" }

abbrev order : SampleOrder
order = record { hash = 9; chain = 1; vaults = buyer ∷ seller ∷ [] }

-- A client that finds the order by any hash.
abbrev client : RaindexClient sample
client = record {
  get_orders = λ _ _ _. some (order ∷ [], 1);
  get_all_orderbooks = some [];
  get_order_by_hash = λ _ _. failure other_error;
  get_transaction_trades = λ _ _. none;
  get_transaction = λ _ _. failure other_error;
  get_quotes = λ _. some (some "2" ∷ []);
  get_trades_list = λ _ _ _. some [];
  get_remove_calldata = λ _. some (171 ∷ []);
}

abbrev shown_detail : OrderDetail
shown_detail = record {
  order_hash = 9;
  owner = 1;
  order_bytes = [];
  order_details = record { type_ = limit; io_ratio = "2" };
  input_token = record { address = 4; symbol = "TKN"; decimals = 18 };
  output_token = record { address = 3; symbol = "TKN"; decimals = 18 };
  input_vault_id = 4;
  output_vault_id = 3;
  input_vault_balance = "0";
  output_vault_balance = "5";
  io_ratio = "2";
  created_at = 3;
  orderbook_id = 2;
  trades = [];
}

shown_run : process_get_order sample (raindex_order_source sample client) 9 ≡ ok shown_detail
unfolding program
shown_run = refl

process_get_order-ok_iff_example :
    (process_get_order sample (raindex_order_source sample client) 9 ≡ ok shown_detail)
    ↔ IsDetail sample (raindex_order_source sample client) 9 shown_detail
process_get_order-ok_iff_example =
    process_get_order-ok_iff sample (raindex_order_source sample client) 9 shown_detail

-- The vaults are listed as inputs and as outputs alike, so the one that is not empty counts twice.
abbrev sent : CancelOrderResponse
sent = record {
  transactions = record { to = 2; «data» = 171 ∷ []; value = 0 } ∷ [];
  summary = record {
    vaults_to_withdraw = 2;
    tokens_returned =
        record { token = 3; symbol = "TKN"; amount = "5" }
        ∷ record { token = 3; symbol = "TKN"; amount = "5" }
        ∷ [];
  };
}

sent_run : process_cancel_order sample (raindex_order_source sample client) 9 ≡ ok sent
unfolding program
sent_run = refl

process_cancel_order-ok_iff_example :
    (process_cancel_order sample (raindex_order_source sample client) 9 ≡ ok sent)
    ↔ IsCancellation sample (raindex_order_source sample client) 9 sent
process_cancel_order-ok_iff_example =
    process_cancel_order-ok_iff sample (raindex_order_source sample client) 9 sent

-- ===== src/Handlers/Sample.antt =====
-- A small instance of the library's calls, for the tests of the other modules.
use albion_rest_api.Base.{ℕ, true, none, some, [], ◌∷◌, ◌==◌, if◌then◌else◌}
use albion_rest_api.Error.{ok}
use albion_rest_api.Raindex.Client.{failure, other_error}
use albion_rest_api.Raindex.Sample.{sample, SampleOrder}
use albion_rest_api.Trades.Batch.{OrderTradeEntry}
use albion_rest_api.Cache.Sample.{keeping}
use albion_rest_api.Handlers.{Calls}

abbrev pub traded : ℕ → OrderTradeEntry
traded orderbook = record {
  id = "t";
  tx_hash = orderbook;
  input_amount = "1";
  output_amount = "1";
  timestamp = 100;
  sender = 4;
}

abbrev pub calls : Calls sample
calls = record {
  take_orders = λ _. record {
    Candidate = SampleOrder;
    build_candidates = λ orders _ _. some orders;
    parse_float = λ _. some 6;
    max_positive_value = some 100;
    simulate_buy = λ candidates amount cap. some (true, 12, amount);
    get_take_orders_calldata = λ _. failure other_error;
    show_address = λ _. "0x";
  };
  fetch_order_quotes_batch = λ _. none;
  show_hash = λ _. "0x";
  fetch_taker_tx_hashes = λ (_, orderbook) sender. ok ((orderbook, 100) ∷ []);
  batch_fetch = λ (_, orderbook) hashes.
      ok (λ hash. if hash == 7 then some (traded orderbook ∷ []) else none);
  get_all_tokens = λ _. some (("base-usdc", "usdc") ∷ []);
  moka = keeping;
}

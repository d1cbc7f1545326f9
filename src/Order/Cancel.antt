-- ===== src/Order/Cancel.antt =====
-- `process_cancel_order` of src/routes/order/cancel.rs.
use Prim.Native.String.{String}
use albion_rest_api.Base.{
  ℕ, ◌+◌, ◌%◌, ◌^◌, ◌⊎◌, inl, inr, Bool, true, false, List, [], ◌∷◌, ◌++◌, unwrap_or,
}
use albion_rest_api.Error.{Result, ok, err, internal, ◌>>=◌}
use albion_rest_api.Raindex.{Raindex, Address, B256, Bytes}
use albion_rest_api.Text.{◌+++◌}
use albion_rest_api.Order.{OrderDataSource, first_or_missing}

pub record CancelTransaction : Type 0 where
  pub to : Address
  pub «data» : Bytes
  pub value : ℕ

pub record TokenReturn : Type 0 where
  pub token : Address
  pub symbol : String
  pub amount : String

pub record CancelSummary : Type 0 where
  pub vaults_to_withdraw : ℕ
  pub tokens_returned : List TokenReturn

pub record CancelOrderResponse : Type 0 where
  pub transactions : List CancelTransaction
  pub summary : CancelSummary

-- The `is_zero` of a balance, with its `map_err`.
unfoldable pub check_zero : String ⊎ Bool → Result Bool
check_zero (inl e) = err (internal ("failed to check vault balance: " +++ e))
check_zero (inr z) = ok z

module _ (X : Raindex) where
  open X use {RaindexOrder, RaindexVault, Float}

  unfoldable pub token_return : RaindexVault → TokenReturn
  token_return vault = record {
    token = X.address (X.token vault);
    symbol = unwrap_or (X.symbol (X.token vault)) "";
    amount = X.formatted_balance vault;
  }

  -- The loop over the vaults, with its two accumulators; the counter is a `u32`.
  unfoldable pub return_tokens :
      List RaindexVault → ℕ → List TokenReturn → Result (ℕ × List TokenReturn)
  return_tokens [] vaults_to_withdraw tokens_returned = ok (vaults_to_withdraw, tokens_returned)
  return_tokens (vault ∷ vaults) vaults_to_withdraw tokens_returned =
      check_zero (X.is_zero (X.balance vault)) >>= λ is_zero. elim is_zero [
        | true ↦ return_tokens vaults vaults_to_withdraw tokens_returned
        | false ↦
            return_tokens vaults ((vaults_to_withdraw + 1) % 2 ^ 32)
              (tokens_returned ++ token_return vault ∷ [])
      ]

  -- The response, of the order, the calldata and the two accumulators.
  unfoldable pub cancel_response : RaindexOrder → Bytes → ℕ × List TokenReturn → CancelOrderResponse
  cancel_response order calldata (vaults_to_withdraw, tokens_returned) = record {
    transactions = record { to = X.orderbook order; «data» = calldata; value = 0 } ∷ [];
    summary = record { vaults_to_withdraw = vaults_to_withdraw; tokens_returned = tokens_returned };
  }

  unfoldable pub process_cancel_order : OrderDataSource X → B256 → Result CancelOrderResponse
  process_cancel_order ds hash = ds.get_orders_by_hash hash >>= λ orders.
      first_or_missing orders >>= λ order. ds.get_remove_calldata order >>= λ calldata.
      return_tokens (X.inputs_list order ++ X.outputs_list order) 0 [] >>= λ counted.
      ok (cancel_response order calldata counted)

-- ===== src/Swap/Safe.antt =====
-- What src/routes/swap/calldata.rs lets a client send.
use Prim.Native.String.{String}
use albion_rest_api.Base.{◌≡◌, refl, sym, ◌⊎◌, inl, inr, Option, none, some, [], ◌∷◌}
use albion_rest_api.Error.{Result, ok, err, >>=-ok_iff, or_internal}
use albion_rest_api.Raindex.{Raindex, Address, Bytes}
use albion_rest_api.Raindex.Client.{RaindexClient, Fallible, answer, failure}
use albion_rest_api.Swap.{
  TakeOrders, TakeOrdersRequest, ApprovalInfo, SwapCalldataRequest, SwapCalldataResponse,
  map_raindex_error, calldata_response, raindex_swap_source, process_swap_calldata, chain_id,
}

module _ (X : Raindex) (T : TakeOrders X) where
  open X use {Float, format_float}

  -- A response asks for one approval, of the contract that it names, and sends nothing; or it sends
  -- the library's calldata to the library's orderbook, and asks for no approval. It moves no ether.
  unfoldable pub IsSafe :
      Option ApprovalInfo → Option (Address × Bytes × Float) → SwapCalldataResponse → Type 0
  IsSafe approval take_orders r =
      (r.value ≡ 0)
      × (((info : ApprovalInfo) × (approval ≡ some info)
            × (r.to ≡ info.spender)
            × (r.«data» ≡ [])
            × (r.estimated_input ≡ info.formatted_amount)
            × (r.approvals
                ≡ record {
                  token = info.token;
                  spender = info.spender;
                  amount = info.formatted_amount;
                  symbol = "";
                  approval_data = info.calldata;
                }
                  ∷ []))
          ⊎ ((orderbook : Address) × (calldata : Bytes) × (sell : Float) × (approval ≡ none)
              × (take_orders ≡ some (orderbook, calldata, sell))
              × (r.to ≡ orderbook)
              × (r.«data» ≡ calldata)
              × (format_float sell ≡ some (r.estimated_input))
              × (r.approvals ≡ [])))

  or_internal-some :
      {A : Type 0} (message : String) (o : Option A) (a : A)
      → or_internal message o ≡ ok a
      → o ≡ some a
  unfolding or_internal
  or_internal-some message none a h = absurd cc
  or_internal-some message (some b) a h = (let e : b ≡ a = cc in rw e refl)

  ok-IsSafe :
      (approval : Option ApprovalInfo) (take_orders : Option (Address × Bytes × Float))
      (q r : SwapCalldataResponse)
      → Path (Result SwapCalldataResponse) (ok q) (ok r)
      → IsSafe approval take_orders q
      → IsSafe approval take_orders r
  ok-IsSafe approval take_orders q r same safe = (let e : q ≡ r = cc in rw (sym e) safe)

  calldata_response-IsSafe :
      (approval : Option ApprovalInfo) (take_orders : Option (Address × Bytes × Float))
      (r : SwapCalldataResponse)
      → calldata_response X T approval take_orders ≡ ok r
      → IsSafe approval take_orders r
  unfolding calldata_response IsSafe
  calldata_response-IsSafe (some info) take_orders r h =
      ok-IsSafe (some info) take_orders _ r h (refl, inl (info, refl, refl, refl, refl, refl))
  calldata_response-IsSafe none (some (orderbook, calldata, sell)) r h =
      let (shown, formatted, made) =
        (>>=-ok_iff (or_internal "failed to format expected sell" (format_float sell)) respond r).0
          h in
      ok-IsSafe none (some (orderbook, calldata, sell)) (response shown) r made (
        refl,
        inr (
          orderbook,
          calldata,
          sell,
          refl,
          refl,
          refl,
          refl,
          or_internal-some _ _ shown formatted,
          refl,
        ),
      )
    where
      response : String → SwapCalldataResponse
      response shown = record {
        to = orderbook;
        «data» = calldata;
        value = 0;
        estimated_input = shown;
        approvals = [];
      }

      respond : String → Result SwapCalldataResponse
      respond shown = ok (response shown)
  calldata_response-IsSafe none none r h = absurd cc

  -- The request that the handler makes of the library: on Base, for the amount and the maximum ratio
  -- that the client gave.
  unfoldable pub take_request : SwapCalldataRequest → TakeOrdersRequest
  take_request req = record {
    taker = T.show_address req.taker;
    chain_id = chain_id;
    sell_token = T.show_address req.input_token;
    buy_token = T.show_address req.output_token;
    amount = req.output_amount;
    price_cap = req.maximum_io_ratio;
  }

  -- What the library answers to the request of the handler, with a response that is safe for it.
  unfoldable pub IsLibrarys : SwapCalldataRequest → SwapCalldataResponse → Type 0
  IsLibrarys req r =
      (approval : Option ApprovalInfo) × (take_orders : Option (Address × Bytes × Float))
      × (T.get_take_orders_calldata (take_request req) ≡ answer (approval, take_orders))
      × IsSafe approval take_orders r

  -- If a request for calldata is answered, then the library answered the take-orders request on Base
  -- with the client's own taker, tokens, amount and maximum ratio; and the response moves no ether
  -- and either asks for exactly the library's approval and sends nothing, or sends the library's
  -- calldata to the library's orderbook and asks for no approval.
  pub process_swap_calldata-IsLibrarys :
      (client : RaindexClient X) (req : SwapCalldataRequest) (r : SwapCalldataResponse)
      → process_swap_calldata X T (raindex_swap_source X T client) req ≡ ok r
      → IsLibrarys req r
  unfolding process_swap_calldata raindex_swap_source IsLibrarys take_request
  process_swap_calldata-IsLibrarys client req r h =
      case (T.get_take_orders_calldata (take_request req)) refl h
    where
      case :
          (a : Fallible (Option ApprovalInfo × Option (Address × Bytes × Float)))
          → T.get_take_orders_calldata (take_request req) ≡ a
          → elim a [
            | failure e ↦ err (map_raindex_error e)
            | answer (approval, take_orders) ↦ calldata_response X T approval take_orders
          ]
            ≡ ok r
          → IsLibrarys req r
      case (failure e) came k = absurd cc
      case (answer (approval, take_orders)) came k =
          (approval, take_orders, came, calldata_response-IsSafe approval take_orders r k)

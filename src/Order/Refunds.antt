-- ===== src/Order/Refunds.antt =====
-- What src/routes/order/cancel.rs promises of the tokens that a cancellation returns.
use Prim.Native.String.{String}
use mathlib.Core.List.{append_assoc, append-nil}
use albion_rest_api.Base.{
  ℕ, ◌+◌, ◌%◌, ◌^◌, ◌≡◌, ◌↔◌, ◌⊎◌, inl, inr, refl, sym, ap, ap₂, ◌∙◌, Bool, true, false, List, [],
  ◌∷◌, ◌++◌, map, length, All, arith, unwrap_or,
}
use albion_rest_api.Error.{Result, ok, ◌>>=◌, >>=-ok_iff}
use albion_rest_api.Raindex.{Raindex, B256, Bytes}
use albion_rest_api.Order.{OrderDataSource, first_or_missing}
use albion_rest_api.Order.Found.{first_or_missing-ok}
use albion_rest_api.Order.Cancel.{
  TokenReturn, CancelOrderResponse, check_zero, token_return, return_tokens, cancel_response,
  process_cancel_order,
}

module _ (X : Raindex) where
  open X use {RaindexOrder, RaindexVault}

  -- The balance of a vault can be compared with zero.
  unfoldable pub IsChecked : RaindexVault → Type 0
  IsChecked vault = (z : Bool) × (X.is_zero (X.balance vault) ≡ inr z)

  unfoldable pub funded : List RaindexVault → List RaindexVault
  funded [] = []
  funded (v ∷ vs) = elim (X.is_zero (X.balance v)) [
    | inl _ ↦ funded vs
    | inr z ↦ elim z [ true ↦ funded vs | false ↦ v ∷ funded vs ]
  ]

  return_tokens-funded :
      (vs : List RaindexVault) (n : ℕ) (tokens : List TokenReturn)
      → All IsChecked vs
      → return_tokens X vs (n % 2 ^ 32) tokens
        ≡ ok ((n + length (funded vs)) % 2 ^ 32, tokens ++ map (token_return X) (funded vs))
  unfolding return_tokens funded IsChecked check_zero
  return_tokens-funded [] n tokens a =
      ap ok (ap₂ {C = ℕ × List TokenReturn} (λ k l. (k, l)) (omega arith) (sym (append-nil tokens)))
  return_tokens-funded (v ∷ vs) n tokens ((true, zero), a) =
      let skipped : funded (v ∷ vs) ≡ funded vs = rw (funded, zero) refl in
      rw (skipped, zero) (return_tokens-funded vs n tokens a)
  return_tokens-funded (v ∷ vs) n tokens ((false, more), a) =
      let step : (n % 2 ^ 32 + 1) % 2 ^ 32 ≡ (n + 1) % 2 ^ 32 = omega arith in
      let count : n + 1 + length (funded vs) ≡ n + length (v ∷ funded vs) = omega arith in
      let rest = return_tokens-funded vs (n + 1) (tokens ++ token_return X v ∷ []) a in
      let kept : funded (v ∷ vs) ≡ v ∷ funded vs = rw (funded, more) refl in
      rw (kept, more, step)
        (rest
          ∙ ap ok (
              ap₂ {C = ℕ × List TokenReturn} (λ k l. (k, l)) (ap (λ k. k % 2 ^ 32) count)
                (append_assoc tokens (token_return X v ∷ []) (map (token_return X) (funded vs)))))

  return_tokens-start :
      (vs : List RaindexVault)
      → All IsChecked vs
      → return_tokens X vs 0 [] ≡ ok (length (funded vs) % 2 ^ 32, map (token_return X) (funded vs))
  return_tokens-start vs a =
      return_tokens-funded vs 0 [] a
      ∙ ap (λ n. ok (n % 2 ^ 32, map (token_return X) (funded vs)))
          (let e : 0 + length (funded vs) ≡ length (funded vs) = omega arith in e)

  zero-cases :
      (v : RaindexVault)
      → ((e : String) × (X.is_zero (X.balance v) ≡ inl e))
        ⊎ ((z : Bool) × (X.is_zero (X.balance v) ≡ inr z))
  zero-cases v = go (X.is_zero (X.balance v))
    where
      go : (s : String ⊎ Bool) → ((e : String) × (s ≡ inl e)) ⊎ ((z : Bool) × (s ≡ inr z))
      go (inl e) = inl (e, refl)
      go (inr z) = inr (z, refl)

  return_tokens-IsChecked :
      (vs : List RaindexVault) (n : ℕ) (tokens : List TokenReturn) (out : ℕ × List TokenReturn)
      → return_tokens X vs n tokens ≡ ok out
      → All IsChecked vs
  unfolding return_tokens IsChecked check_zero
  return_tokens-IsChecked [] n tokens out h = tt
  return_tokens-IsChecked (v ∷ vs) n tokens out h = elim (zero-cases v) [
    | inl (e, failed) ↦ absurd (ground (arith, failed, h))
    | inr (true, zero) ↦
        ((true, zero), return_tokens-IsChecked vs n tokens out (ground (arith, zero, h)))
    | inr (false, more) ↦ (
      (false, more),
      return_tokens-IsChecked vs ((n + 1) % 2 ^ 32) (tokens ++ token_return X v ∷ []) out
          (ground (arith, more, h)),
    )
  ]

  -- What a cancellation is answered with, and from what. A vault that the order lists as an input and
  -- as an output occurs twice among its vaults.
  unfoldable pub IsCancellation : OrderDataSource X → B256 → CancelOrderResponse → Type 0
  IsCancellation ds hash response =
      (order : RaindexOrder) × (rest : List RaindexOrder) × (calldata : Bytes)
      × (ds.get_orders_by_hash hash ≡ ok (order ∷ rest))
      × (ds.get_remove_calldata order ≡ ok calldata)
      × All IsChecked (X.inputs_list order ++ X.outputs_list order)
      × (response.transactions
          ≡ record { to = X.orderbook order; «data» = calldata; value = 0 } ∷ [])
      × (response.summary.vaults_to_withdraw
          ≡ length (funded (X.inputs_list order ++ X.outputs_list order)) % 2 ^ 32)
      × (response.summary.tokens_returned
          ≡ map
              (λ vault. record {
                token = X.address (X.token vault);
                symbol = unwrap_or (X.symbol (X.token vault)) "";
                amount = X.formatted_balance vault;
              })
              (funded (X.inputs_list order ++ X.outputs_list order)))

  -- A cancellation is answered exactly when the query by its hash finds the order first, its removal
  -- has calldata, and every balance can be compared with zero; the answer then is a single
  -- transaction, of no value, that sends the calldata to the order's orderbook, and for each
  -- occurrence of a vault that is not empty among the inputs and then the outputs the address, the
  -- symbol and the balance of its token, in this order and with the number of them as a `u32`.
  pub process_cancel_order-ok_iff :
      (ds : OrderDataSource X) (hash : B256) (response : CancelOrderResponse)
      → (process_cancel_order X ds hash ≡ ok response) ↔ IsCancellation ds hash response
  unfolding process_cancel_order IsCancellation first_or_missing cancel_response token_return
  process_cancel_order-ok_iff ds hash response = (
    λ h.
        let (orders, found, h1) =
          (>>=-ok_iff (ds.get_orders_by_hash hash) from_orders response).0 h in
        let (order, head, h2) = (>>=-ok_iff (first_or_missing orders) from_order response).0 h1 in
        let (calldata, made, h3) =
          (>>=-ok_iff (ds.get_remove_calldata order) (from_calldata order) response).0 h2 in
        let (counted, summed, h4) =
          (>>=-ok_iff (return_tokens X (vaults_of order) 0 []) (answer_of order calldata)
              response).0
            h3 in
        let (rest, split) = first_or_missing-ok orders order head in
        let checked = return_tokens-IsChecked (vaults_of order) 0 [] counted summed in
        let total = return_tokens-start (vaults_of order) checked in
        let same : counted ≡ sum_of order = ok_same (sym summed ∙ total) in
        let last : response ≡ cancel_response X order calldata (sum_of order) =
          sym (ok_same h4) ∙ ap (cancel_response X order calldata) same in
        (
          order,
          rest,
          calldata,
          found ∙ ap ok split,
          made,
          checked,
          ap (λ r. r.transactions) last,
          ap (λ r. r.summary.vaults_to_withdraw) last,
          ap (λ r. r.summary.tokens_returned) last,
        ),
    λ (order, rest, calldata, found, made, checked, one, number, returned).
        let total = return_tokens-start (vaults_of order) checked in
        let all : response ≡ cancel_response X order calldata (sum_of order) =
          of_fields response (cancel_response X order calldata (sum_of order)) one number
            returned in
        rw (found, made, total, all) refl,
  )
    where
      of_fields :
          (a b : CancelOrderResponse)
          → a.transactions ≡ b.transactions
          → a.summary.vaults_to_withdraw ≡ b.summary.vaults_to_withdraw
          → a.summary.tokens_returned ≡ b.summary.tokens_returned
          → a ≡ b
      of_fields a b one number returned = λ i. record {
        transactions = one i;
        summary = record { vaults_to_withdraw = number i; tokens_returned = returned i };
      }

      ok_same : {A : Type 0} {a b : A} → Path (Result A) (ok a) (ok b) → a ≡ b
      ok_same h = cc

      vaults_of : RaindexOrder → List RaindexVault
      vaults_of order = X.inputs_list order ++ X.outputs_list order

      sum_of : RaindexOrder → ℕ × List TokenReturn
      sum_of order = (
        length (funded (vaults_of order)) % 2 ^ 32,
        map (token_return X) (funded (vaults_of order)),
      )

      answer_of : RaindexOrder → Bytes → ℕ × List TokenReturn → Result CancelOrderResponse
      answer_of order calldata counted = ok (cancel_response X order calldata counted)

      from_calldata : RaindexOrder → Bytes → Result CancelOrderResponse
      from_calldata order calldata =
          return_tokens X (vaults_of order) 0 [] >>= answer_of order calldata

      from_order : RaindexOrder → Result CancelOrderResponse
      from_order order = ds.get_remove_calldata order >>= from_calldata order

      from_orders : List RaindexOrder → Result CancelOrderResponse
      from_orders orders = first_or_missing orders >>= from_order

-- ===== src/Orders/Rows.antt =====
-- src/routes/orders/get_by_owner.rs and get_by_token.rs: the listings order by order.
use Prim.Native.String.{String}
use mathlib.Core.Path.{subst}
use mathlib.Core.List.{append_assoc}
use albion_rest_api.Base.{
  ℕ, suc, ◌≡◌, ◌≤◌, refl, sym, ap, ◌∙◌, true, Option, none, some, List, [], ◌∷◌, ◌++◌, map,
  if◌then◌else◌, length, set, replicate, length-append, arith, Bool-cases, inl, inr, unwrap_or,
}
use albion_rest_api.Error.{Result, ok, err, ◌>>=◌}
use albion_rest_api.Raindex.{Raindex, Address}
use albion_rest_api.Pagination.{build_pagination}
use albion_rest_api.Orders.Types.{
  OrderSummary, OrdersListResponse, GetOrdersFilters, OrderSide, input, output,
}
use albion_rest_api.Orders.Source.{Quotes}
use albion_rest_api.Orders.Listing.{
  Checked, effective_page_size, OrdersListDataSource, build_order_summary, has_balance, quotable,
  quoted_ratio, fill_ratios, build_summaries, summarize, list_page, list_orders,
  process_get_orders_by_owner, process_get_orders_by_token, token_filter,
}

-- The results of all, or the first error.
unfoldable pub collect : {A B : Type 0} → (A → Result B) → List A → Result (List B)
collect f [] = ok []
collect f (a ∷ l) = f a >>= λ b. collect f l >>= λ bs. ok (b ∷ bs)

set-length :
    {A : Type 0} (pre : List A) (x v : A) (xs : List A)
    → set (pre ++ x ∷ xs) (length pre) v ≡ (pre ++ v ∷ []) ++ xs
set-length [] x v xs = refl
set-length (p ∷ pre) x v xs = ap (◌∷◌ p) (set-length pre x v xs)

-- The sides that a token is looked for on.
unfoldable pub on_side : Option OrderSide → OrderSide → Address → Option (List Address)
on_side none side address = some (address ∷ [])
on_side (some input) input address = some (address ∷ [])
on_side (some input) output address = none
on_side (some output) input address = none
on_side (some output) output address = some (address ∷ [])

module _ (X : Raindex) where
  open X use {RaindexOrder}

  -- The orders worth quoting.
  unfoldable pub worth : List RaindexOrder → List RaindexOrder
  worth [] = []
  worth (o ∷ os) = if has_balance X o then o ∷ worth os else worth os

  -- The ratio that an order is listed with: of its quotes, or a dash if it has nothing to sell.
  unfoldable pub ratio_of : (RaindexOrder → Quotes X) → RaindexOrder → String
  ratio_of quote o = if has_balance X o then quoted_ratio X (quote o) else "-"

  -- The response, order by order.
  unfoldable pub rows : (RaindexOrder → Quotes X) → List RaindexOrder → Result (List OrderSummary)
  rows quote os = collect (λ o. build_order_summary X o (ratio_of quote o)) os

  quotable-worth : (i : ℕ) (os : List RaindexOrder) → (quotable X i os).1 ≡ worth os
  unfolding quotable worth
  quotable-worth i [] = refl
  quotable-worth i (o ∷ os) = ground (arith, quotable-worth (suc i) os)

  -- What is left to fill after the orders whose ratios are `pre`.
  Filled : (RaindexOrder → Quotes X) → List RaindexOrder → ℕ → List String → Type 0
  Filled quote os i pre =
      fill_ratios X (quotable X i os).0 (map quote (worth os)) (pre ++ replicate (length os) "-")
      ≡ some (pre ++ map (ratio_of quote) os)

  moved :
      (quote : RaindexOrder → Quotes X) (os : List RaindexOrder) (pre : List String) (v : String)
      → Filled quote os (length (pre ++ v ∷ [])) (pre ++ v ∷ [])
      → fill_ratios X
          (quotable X (suc (length pre)) os).0
          (map quote (worth os))
          ((pre ++ v ∷ []) ++ replicate (length os) "-")
        ≡ some (pre ++ v ∷ map (ratio_of quote) os)
  unfolding Filled
  moved quote os pre v h =
      let size : length (pre ++ v ∷ []) ≡ suc (length pre) =
        omega (arith, length-append pre (v ∷ [])) in
      subst (λ n. Filled quote os n (pre ++ v ∷ [])) size h
      ∙ ap some (append_assoc pre (v ∷ []) (map (ratio_of quote) os))

  fill_ratios-ratio_of :
      (quote : RaindexOrder → Quotes X) (pre : List String) (os : List RaindexOrder)
      → Filled quote os (length pre) pre
  unfolding Filled fill_ratios quotable worth ratio_of
  fill_ratios-ratio_of quote pre [] = refl
  fill_ratios-ratio_of quote pre (o ∷ os) = elim (Bool-cases (has_balance X o)) [
    | inl sells ↦
        let v = quoted_ratio X (quote o) in
        rw (sells, set-length pre "-" v (replicate (length os) "-"))
          (moved quote os pre v (fill_ratios-ratio_of quote (pre ++ v ∷ []) os))
    | inr empty ↦
        rw (empty, sym (append_assoc pre ("-" ∷ []) (replicate (length os) "-")))
          (moved quote os pre "-" (fill_ratios-ratio_of quote (pre ++ "-" ∷ []) os))
  ]

  build_summaries-rows :
      (quote : RaindexOrder → Quotes X) (os : List RaindexOrder)
      → build_summaries X os (map (ratio_of quote) os) ≡ rows quote os
  unfolding build_summaries rows collect
  build_summaries-rows quote [] = refl
  build_summaries-rows quote (o ∷ os) = rw (build_summaries-rows quote os) refl

  -- Where the batch has the quotes of each order at its place, a listing does not index out of
  -- range, and its rows are those of the orders, each with its own ratio.
  summarize-rows :
      (ds : OrdersListDataSource X) (quote : List RaindexOrder → RaindexOrder → Quotes X)
      (page page_size total : ℕ) (os : List RaindexOrder)
      → ds.get_order_quotes_batch (worth os) ≡ map (quote (worth os)) (worth os)
      → summarize X ds page page_size (os, total)
        ≡ some (
            rows (quote (worth os)) os >>= λ summaries.
            ok (record { orders = summaries; pagination = build_pagination total page page_size }))
  unfolding summarize Filled
  summarize-rows ds quote page page_size total os h =
      let filled = fill_ratios-ratio_of (quote (worth os)) [] os in
      rw (quotable-worth 0 os, h, filled, build_summaries-rows (quote (worth os)) os) refl

  -- A data source whose batches have the quotes of each order at its place.
  unfoldable pub IsOrderly :
      OrdersListDataSource X → (List RaindexOrder → RaindexOrder → Quotes X) → Type 0
  IsOrderly ds quote = (os : List RaindexOrder) → ds.get_order_quotes_batch os ≡ map (quote os) os

  -- The answer to a listing with some filters: the error of the query, or the response.
  unfoldable pub listing :
      OrdersListDataSource X
      → (List RaindexOrder → RaindexOrder → Quotes X)
      → GetOrdersFilters
      → ℕ
      → ℕ
      → Result OrdersListResponse
  listing ds quote filters page page_size =
      ds.get_orders_list filters (some page) (some page_size) >>= λ (os, total).
      rows (quote (worth os)) os >>= λ summaries.
      ok (record { orders = summaries; pagination = build_pagination total page page_size })

  list_orders-listing :
      (ds : OrdersListDataSource X) (quote : List RaindexOrder → RaindexOrder → Quotes X)
      (filters : GetOrdersFilters) (page page_size : Option ℕ)
      → IsOrderly ds quote
      → list_orders X ds filters page page_size
        ≡ some (listing ds quote filters (unwrap_or page 1) (effective_page_size page_size))
  unfolding list_orders list_page listing IsOrderly
  list_orders-listing ds quote filters page page_size orderly =
      query (
        ds.get_orders_list filters (some (unwrap_or page 1)) (some (effective_page_size page_size)))
    where
      query :
          (found : Result (List RaindexOrder × ℕ))
          → (elim found as (λ _. Checked OrdersListResponse) [
            | err e ↦ some (err e)
            | ok result ↦ summarize X ds (unwrap_or page 1) (effective_page_size page_size) result
          ])
            ≡ some (
                found >>= λ (os, total). rows (quote (worth os)) os >>= λ summaries. ok (record {
                  orders = summaries;
                  pagination =
                      build_pagination total (unwrap_or page 1) (effective_page_size page_size);
                }))
      query (err e) = refl
      query (ok (os, total)) =
          summarize-rows ds quote (unwrap_or page 1) (effective_page_size page_size) total os
            (orderly (worth os))

  -- With an orderly data source the listing of a token's orders is likewise that of the active
  -- orders with the token on the wanted side, or on both where none is named.
  pub process_get_orders_by_token-listing :
      (ds : OrdersListDataSource X) (quote : List RaindexOrder → RaindexOrder → Quotes X)
      (address : Address) (side : Option OrderSide) (page page_size : Option ℕ)
      → IsOrderly ds quote
      → process_get_orders_by_token X ds address side page page_size
        ≡ some (
            listing ds quote
              (record {
                owners = [];
                active = some true;
                order_hash = none;
                tokens = some (record {
                  inputs = on_side side input address;
                  outputs = on_side side output address;
                });
              })
              (unwrap_or page 1)
              (effective_page_size page_size))
  unfolding process_get_orders_by_token on_side token_filter
  process_get_orders_by_token-listing ds quote address none page page_size orderly =
      list_orders-listing ds quote _ page page_size orderly
  process_get_orders_by_token-listing ds quote address (some input) page page_size orderly =
      list_orders-listing ds quote _ page page_size orderly
  process_get_orders_by_token-listing ds quote address (some output) page page_size orderly =
      list_orders-listing ds quote _ page page_size orderly

  effective_page_size-again :
      (page_size : Option ℕ)
      → effective_page_size (some (effective_page_size page_size)) ≡ effective_page_size page_size
  unfolding effective_page_size
  effective_page_size-again page_size = omega arith

  effective_page_size-le : (page_size : Option ℕ) → effective_page_size page_size ≤ 50
  unfolding effective_page_size
  effective_page_size-le page_size = omega arith

  list_orders-again :
      (ds : OrdersListDataSource X) (filters : GetOrdersFilters) (page page_size : Option ℕ)
      → list_orders X ds filters (some (unwrap_or page 1)) (some (effective_page_size page_size))
        ≡ list_orders X ds filters page page_size
  unfolding list_orders
  list_orders-again ds filters page page_size =
      ap (list_page X ds filters (unwrap_or page 1)) (effective_page_size-again page_size)

  -- A request and the one with the page and the page size that its cache key holds have the same
  -- answer, and that page size is at most 50.
  pub process_get_orders_by_owner-effective_page_size :
      (ds : OrdersListDataSource X) (address : Address) (page page_size : Option ℕ)
      → (process_get_orders_by_owner X ds address
            (some (unwrap_or page 1))
            (some (effective_page_size page_size))
          ≡ process_get_orders_by_owner X ds address page page_size)
        × (effective_page_size page_size ≤ 50)
  unfolding process_get_orders_by_owner
  process_get_orders_by_owner-effective_page_size ds address page page_size =
      (list_orders-again ds _ page page_size, effective_page_size-le page_size)

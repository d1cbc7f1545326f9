-- ===== src/Orders/Listing.antt =====
-- src/routes/orders/mod.rs (`build_order_summary`), get_by_owner.rs and get_by_token.rs.
use Prim.Native.String.{String}
use mathlib.Core.Option
use albion_rest_api.Base.{
  ℕ, suc, Bool, true, false, Option, none, some, List, [], ◌∷◌, if◌then◌else◌, length, set,
  replicate, min, first, unwrap_or,
}
use albion_rest_api.Error.{Result, ok, err, ◌>>=◌}
use albion_rest_api.Raindex.{Raindex, Address}
use albion_rest_api.Pagination.{build_pagination, default_page_size, max_page_size}
use albion_rest_api.Vaults.{resolve_io_vaults}
use albion_rest_api.Orders.Types.{
  OrderSide, input, output, OrderSummary, OrdersListResponse, GetOrdersTokenFilter,
  GetOrdersFilters, u64_or_zero, token_ref,
}
use albion_rest_api.Orders.Kind.{determine_order_type}
use albion_rest_api.Orders.Source.{Quotes}

-- What may come of a listing: its result, or the panic of an index out of range.
abbrev pub Checked : Type 0 → Type 0
Checked A = Option (Result A)

-- `page_size.unwrap_or(DEFAULT_PAGE_SIZE as u16).min(MAX_PAGE_SIZE)`
unfoldable pub effective_page_size : Option ℕ → ℕ
effective_page_size page_size = min (unwrap_or page_size default_page_size) max_page_size

-- The `match` on the side.
unfoldable pub token_filter : Option OrderSide → Address → GetOrdersTokenFilter
token_filter (some input) address = record { inputs = some (address ∷ []); outputs = none }
token_filter (some output) address = record { inputs = none; outputs = some (address ∷ []) }
token_filter none address = record { inputs = some (address ∷ []); outputs = some (address ∷ []) }

module _ (X : Raindex) where
  open X use {RaindexOrder, RaindexOrderQuote, formatted_ratio, formatted_balance, is_positive}

  -- The trait `OrdersListDataSource`, less the method that the listings do not call.
  pub record OrdersListDataSource : Type 0 where
    pub get_orders_list : GetOrdersFilters → Option ℕ → Option ℕ → Result (List RaindexOrder × ℕ)
    pub get_order_quotes_batch : List RaindexOrder → List (Quotes X)

  unfoldable pub build_order_summary : RaindexOrder → String → Result OrderSummary
  build_order_summary order io_ratio = resolve_io_vaults X order >>= λ (i, o). ok (record {
    order_hash = X.order_hash order;
    owner = X.owner order;
    order_bytes = X.order_bytes order;
    order_type = determine_order_type X order;
    input_token = token_ref X (X.token i);
    output_token = token_ref X (X.token o);
    output_vault_balance = formatted_balance o;
    io_ratio = io_ratio;
    created_at = u64_or_zero (X.timestamp_added order);
    orderbook_id = X.orderbook order;
  })

  unfoldable pub has_balance : RaindexOrder → Bool
  has_balance order = elim (resolve_io_vaults X order) [
    | err _ ↦ false
    | ok (_, o) ↦ is_positive (formatted_balance o)
  ]

  -- The loop over `orders.iter().enumerate()`: the indices and the orders worth quoting.
  unfoldable pub quotable : ℕ → List RaindexOrder → List ℕ × List RaindexOrder
  quotable i [] = ([], [])
  quotable i (o ∷ os) =
      let (indices, orders) = quotable (suc i) os in
      if has_balance o then (i ∷ indices, o ∷ orders) else (indices, orders)

  unfoldable pub quoted_ratio : Quotes X → String
  quoted_ratio (err _) = "-"
  quoted_ratio (ok quotes) = elim (first quotes) [
    | none ↦ "-"
    | some q ↦ unwrap_or (formatted_ratio q) "-"
  ]

  -- The loop over `quotable_indices`; `none` where `quote_results` is too short.
  unfoldable pub fill_ratios : List ℕ → List (Quotes X) → List String → Option (List String)
  fill_ratios [] results ratios = some ratios
  fill_ratios (i ∷ indices) [] ratios = none
  fill_ratios (i ∷ indices) (r ∷ results) ratios =
      fill_ratios indices results (set ratios i (quoted_ratio r))

  -- `for (order, io_ratio) in orders.iter().zip(…)`.
  unfoldable pub build_summaries : List RaindexOrder → List String → Result (List OrderSummary)
  build_summaries (o ∷ os) (r ∷ rs) = build_order_summary o r >>= λ summary.
      build_summaries os rs >>= λ summaries. ok (summary ∷ summaries)
  build_summaries os rs = ok []

  -- What follows the query in both handlers.
  unfoldable pub summarize :
      OrdersListDataSource → ℕ → ℕ → List RaindexOrder × ℕ → Checked OrdersListResponse
  summarize ds page page_size (orders, total_count) =
      let (indices, worth) = quotable 0 orders in
      Option.map
        (λ io_ratios. build_summaries orders io_ratios >>= λ summaries.
          ok (record {
            orders = summaries;
            pagination = build_pagination total_count page page_size;
          }))
        (fill_ratios indices (ds.get_order_quotes_batch worth) (replicate (length orders) "-"))

  -- The query, and the rest.
  unfoldable pub list_page :
      OrdersListDataSource → GetOrdersFilters → ℕ → ℕ → Checked OrdersListResponse
  list_page ds filters page page_size =
      elim (ds.get_orders_list filters (some page) (some page_size)) [
        | err e ↦ some (err e)
        | ok found ↦ summarize ds page page_size found
      ]

  unfoldable pub list_orders :
      OrdersListDataSource → GetOrdersFilters → Option ℕ → Option ℕ → Checked OrdersListResponse
  list_orders ds filters page page_size =
      list_page ds filters (unwrap_or page 1) (effective_page_size page_size)

  unfoldable pub process_get_orders_by_owner :
      OrdersListDataSource → Address → Option ℕ → Option ℕ → Checked OrdersListResponse
  unfolding list_orders
  process_get_orders_by_owner ds address page page_size =
      list_orders ds
        (record { owners = address ∷ []; active = some true; order_hash = none; tokens = none })
        page page_size

  -- The counters of the logged line are left out.
  unfoldable pub process_get_orders_by_token :
      OrdersListDataSource
      → Address
      → Option OrderSide
      → Option ℕ
      → Option ℕ
      → Checked OrdersListResponse
  process_get_orders_by_token ds address side page page_size =
      list_orders ds
        (record {
          owners = [];
          active = some true;
          order_hash = none;
          tokens = some (token_filter side address);
        })
        page page_size

-- ===== src/Orders/Examples.antt =====
-- The listings, the batch, the pages and the vaults on small inputs.
use Prim.Native.String.{String}
use mathlib.Core.Option
use albion_rest_api.Base.{
  ℕ, ◌*◌, ◌<◌, ◌≤◌, ◌≡◌, ◌↔◌, refl, true, Option, none, some, List, [], ◌∷◌, map, arith, length,
  ◌==◌, if◌then◌else◌,
}
use albion_rest_api.Error.{ok, err, internal, ◌>>=◌}
use albion_rest_api.Raindex.{input, output, input_output}
use albion_rest_api.Raindex.Sample.{SampleVault, SampleOrder, sample}
use albion_rest_api.Pagination.{build_pagination, count_pages, div_ceil, slice_page}
use albion_rest_api.Pagination.Laws.{
  build_pagination-has_more_iff, all_pages, all_pages-count_pages,
}
use albion_rest_api.Vaults.{ok_or, resolve_io_vaults, scan_vaults, take_vault}
use albion_rest_api.Vaults.Laws.{first_input, first_output, resolve_io_vaults-find_first}
use albion_rest_api.Text.Trim.{is_whitespace, trim_start, trim_end}
use albion_rest_api.Cache.{empty_cache}
use albion_rest_api.Cache.Sample.{keeping}
use albion_rest_api.Cache.Transparent.{IsFresh, empty-IsFresh}
use albion_rest_api.Orders.Cached.{
  get_cached_orders_by_owner, get_cached_orders_by_token, owner_answer, token_answer,
  get_cached_orders_by_owner-direct, get_cached_orders_by_token-direct,
}
use albion_rest_api.Orders.Kind.{strip_prefix, find_from, handle_io_content, classify_from_rainlang}
use albion_rest_api.Orders.Types.{
  limit, strategy, input as input_side, output as output_side, token_ref, u64_or_zero,
}
use albion_rest_api.Orders.Source.{
  QuoteClient, get_order_quotes, get_order_quotes_batch, group_orders, insert_group, fill_groups,
  group_quotes, scatter,
}
use albion_rest_api.Orders.Groups.{orders_of}
use albion_rest_api.Orders.Batch.{answer, IsPointwise, get_order_quotes_batch-answer}
use albion_rest_api.Orders.Listing.{
  OrdersListDataSource, effective_page_size, process_get_orders_by_owner,
  process_get_orders_by_token, token_filter, list_orders, list_page, summarize, build_summaries,
  build_order_summary, fill_ratios, quotable, has_balance, quoted_ratio,
}
use albion_rest_api.Orders.Rows.{
  listing, IsOrderly, on_side, process_get_orders_by_token-listing,
  process_get_orders_by_owner-effective_page_size,
}

program : Unit {0}
unfolding get_order_quotes get_order_quotes_batch group_orders insert_group fill_groups group_quotes
    scatter orders_of answer resolve_io_vaults scan_vaults take_vault build_pagination count_pages
    div_ceil slice_page all_pages process_get_orders_by_owner process_get_orders_by_token
    token_filter list_orders list_page summarize build_summaries build_order_summary fill_ratios
    quotable has_balance quoted_ratio effective_page_size token_ref u64_or_zero
program = tt

build_pagination-has_more_iff_run : ((build_pagination 41 2 20).has_more ≡ true) ↔ (2 * 20 < 41)
build_pagination-has_more_iff_run = build_pagination-has_more_iff 41 2 20 (omega arith)

three_pages : count_pages 41 20 ≡ 3
unfolding program
three_pages = refl

abbrev items : List ℕ
items = 10 ∷ 11 ∷ 12 ∷ 13 ∷ 14 ∷ []

second_page : slice_page 2 2 items ≡ 12 ∷ 13 ∷ []
unfolding program
second_page = refl

all_pages-count_pages_example : all_pages (count_pages (length items) 2) 2 items ≡ items
all_pages-count_pages_example = all_pages-count_pages 2 items (omega arith)

-- An untyped vault, one for both directions, and one more to sell from.
abbrev untyped : SampleVault
untyped = record { kind = none; id = 1; amount = 1; shown = "1" }

abbrev shared : SampleVault
shared = record { kind = some input_output; id = 2; amount = 7; shown = "7" }

abbrev spare : SampleVault
spare = record { kind = some output; id = 3; amount = 0; shown = "0" }

abbrev buyer : SampleVault
buyer = record { kind = some input; id = 4; amount = 0; shown = "0" }

abbrev order_on : ℕ → ℕ → List SampleVault → SampleOrder
order_on hash chain vaults = record { hash = hash; chain = chain; vaults = vaults }

abbrev seller : SampleOrder
seller = order_on 100 8 (untyped ∷ shared ∷ spare ∷ [])

abbrev sold_out : SampleOrder
sold_out = order_on 101 1 (spare ∷ shared ∷ [])

abbrev two_way : SampleOrder
two_way = order_on 102 8 (shared ∷ [])

both_from_one : resolve_io_vaults sample sold_out ≡ ok (shared, spare)
unfolding program
both_from_one = refl

resolve_io_vaults-find_first_run : resolve_io_vaults sample seller ≡ (
    ok_or (first_input sample (seller.vaults)) (err (internal "order has no input vaults")) >>= λ i.
    ok_or (first_output sample (seller.vaults)) (err (internal "order has no output vaults"))
    >>= λ o. ok (i, o))
resolve_io_vaults-find_first_run = resolve_io_vaults-find_first sample seller

-- The quote of an order is its number of vaults.
abbrev quote : SampleOrder → List (Option String)
quote o = map (λ v. some (v.shown)) (o.vaults)

-- The batch fails where its first order is on chain 1.
unfoldable fetch : List SampleOrder → Option (List (List (Option String)))
fetch [] = some []
fetch (o ∷ os) = if o.chain == 1 then none else some (map quote (o ∷ os))

abbrev client : QuoteClient sample
client = record {
  get_quotes = λ o. elim (o.vaults) [ [] ↦ none | _ ∷ _ ↦ some (none ∷ []) ];
  fetch_order_quotes_batch = fetch;
}

client-IsPointwise : IsPointwise sample client quote
unfolding IsPointwise fetch
client-IsPointwise [] qs e = ground (arith, e)
client-IsPointwise (o ∷ os) qs e = ground (arith, e)

abbrev some_orders : List SampleOrder
some_orders = seller ∷ sold_out ∷ two_way ∷ []

batch_run :
    get_order_quotes_batch sample client some_orders
    ≡ ok (some "1" ∷ some "7" ∷ some "0" ∷ []) ∷ ok (none ∷ []) ∷ ok (some "7" ∷ []) ∷ []
unfolding program fetch
batch_run = refl

get_order_quotes_batch-answer_example :
    get_order_quotes_batch sample client some_orders
    ≡ map (answer sample client quote some_orders) some_orders
get_order_quotes_batch-answer_example =
    get_order_quotes_batch-answer sample client quote some_orders client-IsPointwise

-- Every query finds the three orders.
abbrev source : OrdersListDataSource sample
source = record {
  get_orders_list = λ _ _ _. ok (some_orders, 3);
  get_order_quotes_batch = get_order_quotes_batch sample client;
}

source-IsOrderly : IsOrderly sample source (answer sample client quote)
unfolding IsOrderly
source-IsOrderly os = get_order_quotes_batch-answer sample client quote os client-IsPointwise

-- The second order's first output vault is empty, so it is listed with a dash.
ratios_run :
    Option.map
      (λ r. r >>= λ response. ok (map (λ o. o.io_ratio) (response.orders)))
      (process_get_orders_by_owner sample source 1 none none)
    ≡ some (ok ("1" ∷ "-" ∷ "7" ∷ []))
unfolding program fetch
ratios_run = refl

token_listing_run :
    process_get_orders_by_token sample source 5 (some output_side) (some 2) none
    ≡ some (
        listing sample source
          (answer sample client quote)
          (record {
            owners = [];
            active = some true;
            order_hash = none;
            tokens = some (record {
              inputs = on_side (some output_side) input_side 5;
              outputs = on_side (some output_side) output_side 5;
            });
          })
          2
          (effective_page_size none))
token_listing_run =
    process_get_orders_by_token-listing sample source (answer sample client quote) 5
      (some output_side) (some 2) none source-IsOrderly

process_get_orders_by_owner-effective_page_size_run :
    (process_get_orders_by_owner sample source 1 (some 1) (some 50)
      ≡ process_get_orders_by_owner sample source 1 none (some 70))
    × (effective_page_size (some 70) ≤ 50)
unfolding effective_page_size
process_get_orders_by_owner-effective_page_size_run =
    process_get_orders_by_owner-effective_page_size sample source 1 none (some 70)

abbrev plain : String
plain = "/* 1. handle-io */ :; "

plain_limit : classify_from_rainlang plain ≡ limit
unfolding strip_prefix find_from is_whitespace trim_start trim_end handle_io_content
    classify_from_rainlang
plain_limit = refl

stateful : classify_from_rainlang "/* 1. handle-io */ :set(1 2);" ≡ strategy
unfolding strip_prefix find_from is_whitespace trim_start trim_end handle_io_content
    classify_from_rainlang
stateful = refl

-- The listings from empty caches.
owner_cache_run :
    ((get_cached_orders_by_owner sample keeping empty_cache source 1 none (some 70)).0
      ≡ process_get_orders_by_owner sample source 1 none (some 70))
    × IsFresh
        (owner_answer sample source)
        (get_cached_orders_by_owner sample keeping empty_cache source 1 none (some 70)).1
owner_cache_run =
    get_cached_orders_by_owner-direct sample keeping empty_cache source 1 none (some 70)
      (empty-IsFresh (owner_answer sample source))

token_cache_run :
    ((get_cached_orders_by_token sample keeping empty_cache source 5 none (some 2) none).0
      ≡ process_get_orders_by_token sample source 5 none (some 2) none)
    × IsFresh
        (token_answer sample source)
        (get_cached_orders_by_token sample keeping empty_cache source 5 none (some 2) none).1
token_cache_run =
    get_cached_orders_by_token-direct sample keeping empty_cache source 5 none (some 2) none
      (empty-IsFresh (token_answer sample source))

-- ===== src/Trades/Scan.antt =====
-- `fetch_all_orders` of src/routes/trades.rs: the scan ends, and misses no order.
use albion_rest_api.Base.{
  ℕ, zero, suc, ◌+◌, ◌-◌, ◌*◌, ◌≤◌, ◌<◌, ◌≡◌, ◌≢◌, refl, sym, ap, ◌∙◌, false, none, some, List, [],
  ◌++◌, min, leb, ◌==◌, length, take, length-take, arith, Bool-cases, inl, inr,
}
use albion_rest_api.Error.{ok, Result-cases}
use albion_rest_api.Raindex.{Raindex}
use albion_rest_api.Pagination.{slice_page}
use albion_rest_api.Pagination.Laws.{slice_page-take, take-add, take_enough}
use albion_rest_api.Orders.Types.{GetOrdersFilters}
use albion_rest_api.Trades.{TradesDataSource, scan_orders, fetch_all_orders}

module _ (X : Raindex) where
  open X use {RaindexOrder}

  -- The fuel is enough on every page that it reaches.
  scan_orders-fuel :
      (ds : TradesDataSource X) (filters : GetOrdersFilters) (fuel page : ℕ)
      (all_orders : List RaindexOrder)
      → 65535 ≤ page + fuel
      → page < 65535
      → scan_orders X ds filters fuel page all_orders ≢ none
  unfolding scan_orders
  scan_orders-fuel ds filters zero page all h k = absurd (omega arith)
  scan_orders-fuel ds filters (suc fuel) page all h k =
      elim (Result-cases (ds.get_orders filters (some page) (some 50))) [
        | inl (e, failed) ↦ ground (arith, failed)
        | inr ((orders, total), found) ↦ elim (Bool-cases (min (page + 1) 65535 == 65535)) [
          | inl last ↦ ground (arith, found)
          | inr more ↦
              let rest =
                scan_orders-fuel ds filters fuel (min (page + 1) 65535) (all ++ orders)
                  (ground arith) (ground arith) in
              ground (arith, found, rest)
        ]
      ]

  -- The scan ends, whatever the data source answers.
  pub fetch_all_orders-ends :
      (ds : TradesDataSource X) (filters : GetOrdersFilters) → fetch_all_orders X ds filters ≢ none
  unfolding fetch_all_orders
  fetch_all_orders-ends ds filters =
      scan_orders-fuel ds filters 65534 1 [] (omega arith) (omega arith)

  -- A data source whose pages of 50 are those of one list.
  unfoldable pub IsPaged : TradesDataSource X → GetOrdersFilters → List RaindexOrder → Type 0
  IsPaged ds filters orders =
      (page : ℕ)
      → 0 < page
      → ds.get_orders filters (some page) (some 50) ≡ ok (slice_page page 50 orders, length orders)

  page-append :
      (page : ℕ) (orders : List RaindexOrder)
      → 0 < page
      → take ((page - 1) * 50) orders ++ slice_page page 50 orders ≡ take (page * 50) orders
  page-append page orders h =
      let size : page * 50 ≡ (page - 1) * 50 + 50 = omega arith in
      rw (slice_page-take, size, take-add) refl

  scan_orders-rest :
      (ds : TradesDataSource X) (filters : GetOrdersFilters) (orders : List RaindexOrder)
      (fuel page : ℕ)
      → IsPaged ds filters orders
      → 65535 ≤ page + fuel
      → 0 < page
      → page < 65535
      → length orders ≤ 65534 * 50
      → scan_orders X ds filters fuel page (take ((page - 1) * 50) orders) ≡ some (ok orders)
  unfolding scan_orders IsPaged
  scan_orders-rest ds filters orders zero page paged f p q h = absurd (omega arith)
  scan_orders-rest ds filters orders (suc fuel) page paged f p q h =
      elim (Bool-cases (leb (length orders) (length (take (page * 50) orders)))) [
        | inl done ↦
            rw (scan_orders, paged page p, page-append page orders p, done)
              (ap (λ l. some (ok l))
                (take_enough orders (page * 50) (ground (arith, length-take (page * 50) orders))))
        | inr more ↦
            let below : page * 50 < length orders =
              ground (arith, length-take (page * 50) orders) in
            let not_empty : (length orders == 0) ≡ false = ground arith in
            let not_last : (min (page + 1) 65535 == 65535) ≡ false = ground arith in
            let next : min (page + 1) 65535 ≡ page + 1 = omega arith in
            let back : (page + 1 - 1) * 50 ≡ page * 50 = omega arith in
            rw
              (
                scan_orders,
                paged page p,
                page-append page orders p,
                more,
                not_empty,
                not_last,
                next,
              )
              (ap (λ n. scan_orders X ds filters fuel (page + 1) (take n orders)) (sym back)
                ∙ scan_orders-rest ds filters orders fuel (page + 1) paged (omega arith)
                    (omega arith) (omega arith) h)
      ]

  -- If the pages of the data source are those of a list of at most 3276700 orders, the scan returns
  -- all of them, in order.
  pub fetch_all_orders-IsPaged :
      (ds : TradesDataSource X) (filters : GetOrdersFilters) (orders : List RaindexOrder)
      → IsPaged ds filters orders
      → length orders ≤ 65534 * 50
      → fetch_all_orders X ds filters ≡ some (ok orders)
  unfolding fetch_all_orders
  fetch_all_orders-IsPaged ds filters orders paged h =
      let start : (1 - 1) * 50 ≡ 0 = omega arith in
      ap (λ n. scan_orders X ds filters 65534 1 (take n orders)) (sym start)
      ∙ scan_orders-rest ds filters orders 65534 1 paged (omega arith) (omega arith) (omega arith) h

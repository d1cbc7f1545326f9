-- ===== src/Pagination.antt =====
-- The arithmetic of pages: src/routes/orders/mod.rs (`build_pagination`) and the slices of
-- src/routes/trades.rs.
pub mod Laws
use albion_rest_api.Base.{
  ℕ, ◌+◌, ◌-◌, ◌*◌, ◌/◌, ◌%◌, Bool, List, [], ◌==◌, ltb, leb, if◌then◌else◌, length, take, drop,
  min,
}

abbrev pub default_page_size : ℕ
default_page_size = 20

abbrev pub max_page_size : ℕ
max_page_size = 50

-- `div_ceil`, by a divisor that is not 0.
unfoldable pub div_ceil : ℕ → ℕ → ℕ
div_ceil a b = if a % b == 0 then a / b else a / b + 1

unfoldable pub count_pages : ℕ → ℕ → ℕ
count_pages total page_size = if page_size == 0 then 0 else div_ceil total page_size

-- OrdersPagination and TradesPagination have the same fields.
pub record Pagination : Type 0 where
  pub page : ℕ
  pub page_size : ℕ
  pub total : ℕ
  pub total_pages : ℕ
  pub has_more : Bool

unfoldable pub build_pagination : ℕ → ℕ → ℕ → Pagination
unfolding count_pages div_ceil
build_pagination total page page_size = record {
  page = page;
  page_size = page_size;
  total = total;
  total_pages = count_pages total page_size;
  has_more = ltb page (count_pages total page_size);
}

-- `offset`, `end` and the slice between them; `page.saturating_sub(1)` is the ℕ subtraction.
unfoldable pub slice_page {ℓ} : {A : Type ℓ} → ℕ → ℕ → List A → List A
slice_page page page_size items =
    let offset = (page - 1) * page_size in
    if leb (length items) offset
    then []
    else take (min (offset + page_size) (length items) - offset) (drop offset items)

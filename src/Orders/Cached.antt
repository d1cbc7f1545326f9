-- ===== src/Orders/Cached.antt =====
-- The cached listings of src/routes/orders/get_by_owner.rs and get_by_token.rs.
use albion_rest_api.Base.{
  ℕ, ◌≡◌, refl, ◌∙◌, Bool, true, false, Option, none, some, unwrap_or, arith,
}
use albion_rest_api.Raindex.{Raindex, Address}
use albion_rest_api.Cache.Keys.{Eq, nat_eq, pair_eq, option_eq}
use albion_rest_api.Cache.{AppCache, Fetch, get_or_try_insert, Moka}
use albion_rest_api.Cache.Transparent.{IsFresh, get_or_try_insert-IsFresh}
use albion_rest_api.Orders.Types.{OrderSide, input, output, OrdersListResponse}
use albion_rest_api.Orders.Listing.{
  OrdersListDataSource, effective_page_size, list_orders, process_get_orders_by_owner,
  process_get_orders_by_token,
}

unfoldable pub side_beq : OrderSide → OrderSide → Bool
side_beq input input = true
side_beq output output = true
side_beq _ _ = false

pub side_beq_sound : (a b : OrderSide) → side_beq a b ≡ true → a ≡ b
unfolding side_beq
side_beq_sound input input h = refl
side_beq_sound output output h = refl
side_beq_sound input output h = absurd cc
side_beq_sound output input h = absurd cc

instance abbrev pub side_eq : Eq OrderSide
side_eq = record { beq = side_beq; beq_sound = side_beq_sound }

-- The owner, the page and the page size.
abbrev pub OwnerKey : Type 0
OwnerKey = Address × (ℕ × ℕ)

-- The token, the side, the page and the page size.
abbrev pub TokenKey : Type 0
TokenKey = Address × (Option OrderSide × (ℕ × ℕ))

instance abbrev pub owner_key_eq : Eq OwnerKey
owner_key_eq = pair_eq

instance abbrev pub token_key_eq : Eq TokenKey
token_key_eq = pair_eq

effective_page_size_idem :
    (page_size : Option ℕ)
    → effective_page_size (some (effective_page_size page_size)) ≡ effective_page_size page_size
unfolding effective_page_size
effective_page_size_idem none = ground arith
effective_page_size_idem (some n) = ground arith

module _ (X : Raindex) where
  unfoldable pub get_cached_orders_by_owner :
      Moka
      → AppCache OwnerKey OrdersListResponse
      → OrdersListDataSource X
      → Address
      → Option ℕ
      → Option ℕ
      → Fetch OrdersListResponse × AppCache OwnerKey OrdersListResponse
  get_cached_orders_by_owner moka cache ds address page page_size =
      let page_num = unwrap_or page 1 in
      let size = effective_page_size page_size in
      get_or_try_insert moka (address, (page_num, size))
        (process_get_orders_by_owner X ds address (some page_num) (some size)) cache

  unfoldable pub get_cached_orders_by_token :
      Moka
      → AppCache TokenKey OrdersListResponse
      → OrdersListDataSource X
      → Address
      → Option OrderSide
      → Option ℕ
      → Option ℕ
      → Fetch OrdersListResponse × AppCache TokenKey OrdersListResponse
  get_cached_orders_by_token moka cache ds address side page page_size =
      let page_num = unwrap_or page 1 in
      let size = effective_page_size page_size in
      get_or_try_insert moka (address, (side, (page_num, size)))
        (process_get_orders_by_token X ds address side (some page_num) (some size)) cache

  -- What a key stands for.
  unfoldable pub owner_answer : OrdersListDataSource X → OwnerKey → Fetch OrdersListResponse
  owner_answer ds (address, (page, size)) =
      process_get_orders_by_owner X ds address (some page) (some size)

  unfoldable pub token_answer : OrdersListDataSource X → TokenKey → Fetch OrdersListResponse
  token_answer ds (address, (side, (page, size))) =
      process_get_orders_by_token X ds address side (some page) (some size)

  -- If every entry of the cache is what the data source answers for its key, then the cached listing
  -- of an owner answers what the listing itself answers for the page and the page size of the client,
  -- defaults and bounds included, and every entry of the cache is still so.
  pub get_cached_orders_by_owner-direct :
      (moka : Moka) (cache : AppCache OwnerKey OrdersListResponse) (ds : OrdersListDataSource X)
      (address : Address) (page page_size : Option ℕ)
      → IsFresh (owner_answer ds) cache
      → ((get_cached_orders_by_owner moka cache ds address page page_size).0
          ≡ process_get_orders_by_owner X ds address page page_size)
        × IsFresh
            (owner_answer ds)
            (get_cached_orders_by_owner moka cache ds address page page_size).1
  unfolding get_cached_orders_by_owner owner_answer process_get_orders_by_owner list_orders
  get_cached_orders_by_owner-direct moka cache ds address page page_size fresh =
      let (same, next) =
        get_or_try_insert-IsFresh (owner_answer ds) moka
          (address, (unwrap_or page 1, effective_page_size page_size)) cache fresh in
      (same ∙ rw (effective_page_size_idem page_size) refl, next)

  -- The same of the listing of a token, on a side or on both.
  pub get_cached_orders_by_token-direct :
      (moka : Moka) (cache : AppCache TokenKey OrdersListResponse) (ds : OrdersListDataSource X)
      (address : Address) (side : Option OrderSide) (page page_size : Option ℕ)
      → IsFresh (token_answer ds) cache
      → ((get_cached_orders_by_token moka cache ds address side page page_size).0
          ≡ process_get_orders_by_token X ds address side page page_size)
        × IsFresh
            (token_answer ds)
            (get_cached_orders_by_token moka cache ds address side page page_size).1
  unfolding get_cached_orders_by_token token_answer process_get_orders_by_token list_orders
  get_cached_orders_by_token-direct moka cache ds address side page page_size fresh =
      let (same, next) =
        get_or_try_insert-IsFresh (token_answer ds) moka
          (address, (side, (unwrap_or page 1, effective_page_size page_size))) cache fresh in
      (same ∙ rw (effective_page_size_idem page_size) refl, next)

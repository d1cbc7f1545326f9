-- ===== src/Trades/Query/Listed.antt =====
-- Which rows `build_batch_query` of src/direct_trades.rs selects, and in which order.
use Prim.Native.String.{String}
use text.Mathlib.Text.{◌==◌ as str_eq}
use text.Mathlib.TextEquality.{eq_iff}
use mathlib.Core.Path.{subst}
use albion_rest_api.Base.{
  ◌≡◌, sym, ◌∙◌, ◌≤◌, ℕ, true, false, not, ◌&&◌, List, [], ◌∷◌, arith, any, All,
}
use albion_rest_api.Trades.Query.{
  OrderEvent, TakeOrder, Tables, TradeRow, is_in, order_add_events, adds_taken, newer_for_take,
  take_row, rows_of_take, chosen, take_trades, clear_row, Side, rows_of_clear, distinct, clears_of,
  clear_alice, clear_bob,
}
use albion_rest_api.Trades.Query.Rows.{precedes, batch_rows}
use albion_rest_api.Trades.Query.Filters.{
  All-filter, All_every, All-map, All-append, filter-All, any-All, All-both, All_swap, All_of_map,
  All-concat_map,
}
use albion_rest_api.Trades.Query.Sorted.{IsOrdered, sort_rows-IsOrdered, All-sort_rows}
use albion_rest_api.Text.Order.{text_ltb, text_ltb_irrefl, text_ltb_asym}

All-distinct {ℓ} : (P : TradeRow → Type ℓ) (xs : List TradeRow) → All P xs → All P (distinct xs)
unfolding distinct
All-distinct P [] h = tt
All-distinct P (x ∷ xs) (p, h) = (p, All-filter P _ (distinct xs) (All-distinct P xs h))

-- The first row may stand before the second: its order is not greater, and of two rows of one order it
-- is the newer one, or as new and of no smaller log.
unfoldable pub IsBefore : TradeRow → TradeRow → Type 0
IsBefore x y =
    (text_ltb y.order_hash x.order_hash ≡ false)
    × (x.order_hash ≡ y.order_hash
        → (y.block_timestamp ≤ x.block_timestamp)
          × (x.block_timestamp ≡ y.block_timestamp → y.log_index ≤ x.log_index))

unfoldable pub IsSorted : List TradeRow → Type 0
IsSorted [] = Unit {0}
IsSorted (x ∷ xs) = All (λ y. IsBefore x y) xs × IsSorted xs

precedes-IsBefore : (x y : TradeRow) → precedes x y ≡ true → IsBefore x y
unfolding precedes IsBefore
precedes-IsBefore x y h = (
  ground (arith, h, text_ltb_asym x.order_hash y.order_hash),
  λ same.
      let here : text_ltb x.order_hash y.order_hash ≡ false =
        subst (λ s. text_ltb x.order_hash s ≡ false) same (text_ltb_irrefl x.order_hash) in
      (ground (arith, h, here), λ at. ground (arith, h, here, at)),
)

IsOrdered-IsSorted : (xs : List TradeRow) → IsOrdered xs → IsSorted xs
unfolding IsOrdered IsSorted
IsOrdered-IsSorted [] h = tt
IsOrdered-IsSorted (x ∷ xs) (h, hs) =
    (All-map _ _ xs (λ y k. precedes-IsBefore x y k) h, IsOrdered-IsSorted xs hs)

module _ (T : Tables) (chain_id : ℕ) (orderbook : String) where
  module _ (hashes : List String) where
    -- The row is of an order of the query.
    abbrev pub IsListed : TradeRow → Type 0
    IsListed row = is_in row.order_hash hashes ≡ true

    abbrev adds : List OrderEvent
    adds = order_add_events T chain_id orderbook hashes

    adds-listed : All (λ oe. is_in oe.order_hash hashes ≡ true) adds
    unfolding order_add_events
    adds-listed = All-map _ _ adds (λ oe h. ground (arith, h)) (filter-All _ T.order_events)

    take_trades-IsListed : All IsListed (take_trades T chain_id orderbook hashes)
    unfolding take_trades rows_of_take take_row
    take_trades-IsListed =
        All-concat_map IsListed _ _
          (All_every _ _ (λ t. All_of_map IsListed _ _ (All-filter _ _ adds adds-listed)))

    clears_of-IsListed : (side : Side) → All IsListed (clears_of T chain_id orderbook side hashes)
    unfolding clears_of rows_of_clear clear_row
    clears_of-IsListed side = All-distinct IsListed _ (
        All-concat_map IsListed _ _ (
          All_every _ _ (λ c. All-concat_map IsListed _ _ (
            All-map _ _ _ (λ oe h. All_of_map IsListed _ _ (All_every _ _ (λ a. h)))
              (All-filter _ _ adds adds-listed)))))

    -- The rows of a query are sorted by their orders, of one order by their times, the newest first, and of
    -- one time by their logs, the last first; and each is of an order that the query asks for.
    pub batch_rows-IsSorted :
        IsSorted (batch_rows T chain_id orderbook hashes)
        × All IsListed (batch_rows T chain_id orderbook hashes)
    unfolding batch_rows clear_alice clear_bob
    batch_rows-IsSorted = (
      IsOrdered-IsSorted _ (sort_rows-IsOrdered _),
      All-sort_rows IsListed _ (
          All-append IsListed _ _ take_trades-IsListed
            (All-append IsListed _ _ (clears_of-IsListed _) (clears_of-IsListed _))),
    )

  unfoldable pub SamePlace : OrderEvent → OrderEvent → Type 0
  SamePlace a b = (a.block_number ≡ b.block_number) × (a.log_index ≡ b.log_index)

  same_text : (s t u : String) → str_eq s u ≡ true → str_eq t u ≡ true → str_eq s t ≡ true
  same_text s t u h k = (eq_iff s t).1 ((eq_iff s u).0 h ∙ sym ((eq_iff t u).0 k))

  same_place :
      (t : TakeOrder) (a b : OrderEvent)
      → adds_taken T chain_id orderbook t a ≡ true
      → adds_taken T chain_id orderbook t b ≡ true
      → newer_for_take T chain_id orderbook t a b ≡ false
      → newer_for_take T chain_id orderbook t b a ≡ false
      → SamePlace a b
  unfolding adds_taken newer_for_take SamePlace
  same_place t a b h k p q =
      let book_a : str_eq a.orderbook_address t.orderbook_address ≡ true = ground (arith, h) in
      let book_b : str_eq b.orderbook_address t.orderbook_address ≡ true = ground (arith, k) in
      let owner_a : str_eq a.order_owner t.order_owner ≡ true = ground (arith, h) in
      let owner_b : str_eq b.order_owner t.order_owner ≡ true = ground (arith, k) in
      let nonce_a : str_eq a.order_nonce t.order_nonce ≡ true = ground (arith, h) in
      let nonce_b : str_eq b.order_nonce t.order_nonce ≡ true = ground (arith, k) in
      let book : str_eq b.orderbook_address a.orderbook_address ≡ true =
        same_text _ _ _ book_b book_a in
      let book' : str_eq a.orderbook_address b.orderbook_address ≡ true =
        same_text _ _ _ book_a book_b in
      let owner : str_eq b.order_owner a.order_owner ≡ true = same_text _ _ _ owner_b owner_a in
      let owner' : str_eq a.order_owner b.order_owner ≡ true = same_text _ _ _ owner_a owner_b in
      let nonce : str_eq b.order_nonce a.order_nonce ≡ true = same_text _ _ _ nonce_b nonce_a in
      let nonce' : str_eq a.order_nonce b.order_nonce ≡ true = same_text _ _ _ nonce_a nonce_b in
      (
        ground (arith, h, k, p, q, book, book', owner, owner', nonce, nonce'),
        ground (arith, h, k, p, q, book, book', owner, owner', nonce, nonce'),
      )

  -- All events that a take is joined to, whatever orders a query asks for, stand at one place of the
  -- chain: a take gets rows for one event at most, if no two events share their block and index.
  pub chosen-SamePlace :
      (events : List OrderEvent) (t : TakeOrder)
      → All
          (λ a. All (λ b. SamePlace a b) (chosen T chain_id orderbook events t))
          (chosen T chain_id orderbook events t)
  unfolding chosen
  chosen-SamePlace events t =
      All-map Both Agrees picks
        (λ a (taken, (none_newer, newer_than_none)).
          All-map _ _ picks (λ b (taken', (p, q)). same_place t a b taken taken' p q)
            (All-both _ _ picks all_taken (All-both _ _ picks none_newer newer_than_none)))
        (All-both _ _ picks all_taken
          (All-both _ _ picks forward (All_swap NoNewer picks picks forward)))
    where
      picks : List OrderEvent
      picks = chosen T chain_id orderbook events t

      NoNewer : OrderEvent → OrderEvent → Type 0
      NoNewer a b = newer_for_take T chain_id orderbook t a b ≡ false

      Agrees : OrderEvent → Type 0
      Agrees a = All (λ b. SamePlace a b) picks

      Both : OrderEvent → Type 0
      Both a =
          (adds_taken T chain_id orderbook t a ≡ true)
          × (All (λ b. NoNewer a b) picks × All (λ b. NoNewer b a) picks)

      passed :
          All
            (λ a.
              (adds_taken T chain_id orderbook t a
                && not (any (newer_for_take T chain_id orderbook t a) events))
              ≡ true)
            picks
      passed = filter-All _ events

      all_taken : All (λ a. adds_taken T chain_id orderbook t a ≡ true) picks
      all_taken = All-map _ _ picks (λ a h. ground (arith, h)) passed

      forward : All (λ a. All (λ b. NoNewer a b) picks) picks
      forward =
          All-map _ _ picks
            (λ a h.
              All-filter (λ b. NoNewer a b) _ events
                (any-All (newer_for_take T chain_id orderbook t a) events (ground (arith, h))))
            passed

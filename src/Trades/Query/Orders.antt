-- ===== src/Trades/Query/Orders.antt =====
-- The rows of one order among those of `build_batch_query` of src/direct_trades.rs.
use Prim.Native.String.{String}
use text.Mathlib.Text.{◌==◌ as str_eq}
use text.Mathlib.TextEquality.{eq_iff}
use mathlib.Core.Path.{subst}
use albion_rest_api.Base.{
  ◌≡◌, refl, sym, ap, ap₂, ◌∙◌, ℕ, true, false, not, ◌&&◌, Bool-cases, List, [], ◌∷◌, ◌++◌, map,
  ◌==◌, inl, inr, arith, if◌then◌else◌, filter, any, concat_map, All,
}
use albion_rest_api.Trades.Query.{
  OrderEvent, TakeOrder, ClearEvent, AfterClear, Tables, TradeRow, is_in, order_add_events,
  adds_taken, newer_for_take, take_row, rows_of_take, take_trades, adds_cleared, newer_for_clear,
  is_next, Side, clear_row, rows_of_clear, distinct, clears_of, clear_alice, clear_bob,
}
use albion_rest_api.Trades.Query.Rows.{sort_rows, batch_rows}
use albion_rest_api.Trades.Query.Filters.{
  filter-append, filter-filter, filter_none, All_every, All-map, filter-map, filter-concat_map,
  concat_map-filter, concat_map_ext,
}
use albion_rest_api.Trades.Query.Sorted.{filter-sort_rows}
use albion_rest_api.Trades.Query.Alone.{
  rows_of, is_add, filter-distinct, order_add_events-filter, latest_alone, is_in_one, is_listed,
  str_eq_differs, SameOrder,
}

module _ (T : Tables) (chain_id : ℕ) (orderbook : String) where
  -- No owner has used a nonce for two different orders of the orderbook.
  unfoldable pub UniqueNonces : Type 0
  UniqueNonces =
      All
        (λ oe.
          All
            (λ other.
              is_add T chain_id orderbook oe ≡ true
              → is_add T chain_id orderbook other ≡ true
              → oe.order_owner ≡ other.order_owner
              → oe.order_nonce ≡ other.order_nonce
              → oe.order_hash ≡ other.order_hash)
            T.order_events)
        T.order_events

  module _ (hash : String) (hashes : List String) (asked : is_in hash hashes ≡ true) where
    abbrev adds : List String → List OrderEvent
    adds = order_add_events T chain_id orderbook

    rows_of_take_alone :
        UniqueNonces
        → (t : TakeOrder)
        → rows_of hash (rows_of_take T chain_id orderbook (adds hashes) t)
          ≡ rows_of_take T chain_id orderbook (adds (hash ∷ [])) t
    unfolding rows_of_take take_row UniqueNonces newer_for_take
    rows_of_take_alone unique t =
        rw
          (
            order_add_events-filter T chain_id orderbook hashes,
            order_add_events-filter T chain_id orderbook (hash ∷ []),
          )
          (filter-map (λ row. str_eq row.order_hash hash) (take_row T chain_id orderbook t) _
            ∙ ap (map (take_row T chain_id orderbook t)) (
                latest_alone T chain_id orderbook hash hashes asked
                  (adds_taken T chain_id orderbook t) (newer_for_take T chain_id orderbook t)
                  T.order_events T.order_events same))
      where
        same :
            All
              (λ oe.
                All
                  (SameOrder T chain_id orderbook hash hashes asked
                    (adds_taken T chain_id orderbook t)
                    (newer_for_take T chain_id orderbook t)
                    oe)
                  T.order_events)
              T.order_events
        same =
            All-map _ _ T.order_events
              (λ oe h.
                All-map _ _ T.order_events
                  (λ other unique added added' joined newer.
                    unique added added'
                      (sym ((eq_iff other.order_owner oe.order_owner).0 (ground (arith, newer))))
                      (sym ((eq_iff other.order_nonce oe.order_nonce).0 (ground (arith, newer)))))
                  h)
              unique

    take_trades_alone :
        UniqueNonces
        → rows_of hash (take_trades T chain_id orderbook hashes)
          ≡ take_trades T chain_id orderbook (hash ∷ [])
    unfolding take_trades
    take_trades_alone unique =
        filter-concat_map _ _ _ ∙ concat_map_ext _ _ _ (rows_of_take_alone unique)

    rows_of-map :
        (side : Side) (c : ClearEvent) (oe : OrderEvent) (acs : List AfterClear)
        → rows_of hash (map (clear_row T chain_id orderbook side c oe) acs) ≡ (
            if str_eq oe.order_hash hash
            then map (clear_row T chain_id orderbook side c oe) acs
            else [])
    unfolding clear_row filter
    rows_of-map side c oe [] = ground arith
    rows_of-map side c oe (ac ∷ acs) = elim (Bool-cases (str_eq oe.order_hash hash)) [
      | inl is ↦ rw is (
          ap (◌∷◌ (clear_row T chain_id orderbook side c oe ac))
            (rw is at (rows_of-map side c oe acs)))
      | inr differs ↦ rw differs (rw differs at (rows_of-map side c oe acs))
    ]

    rows_of_clear_alone :
        (side : Side) (c : ClearEvent)
        → rows_of hash (rows_of_clear T chain_id orderbook side (adds hashes) c)
          ≡ rows_of_clear T chain_id orderbook side (adds (hash ∷ [])) c
    unfolding rows_of_clear newer_for_clear
    rows_of_clear_alone side c =
        rw
          (
            order_add_events-filter T chain_id orderbook hashes,
            order_add_events-filter T chain_id orderbook (hash ∷ []),
          )
          (filter-concat_map _ _ _
            ∙ concat_map_ext _ _ _ (λ oe. rows_of-map side c oe _)
            ∙ sym (concat_map-filter _ _ _)
            ∙ ap (concat_map rows) (
                latest_alone T chain_id orderbook hash hashes asked
                  (adds_cleared T chain_id orderbook c (side.hash_of c))
                  (newer_for_clear T chain_id orderbook c) T.order_events T.order_events same))
      where
        rows : OrderEvent → List TradeRow
        rows oe =
            map (clear_row T chain_id orderbook side c oe)
              (filter (is_next T chain_id orderbook c) T.after_clear_v2_events)

        same :
            All
              (λ oe.
                All
                  (SameOrder T chain_id orderbook hash hashes asked
                    (adds_cleared T chain_id orderbook c (side.hash_of c))
                    (newer_for_clear T chain_id orderbook c)
                    oe)
                  T.order_events)
              T.order_events
        same = All_every _ T.order_events (λ oe.
            All_every _ T.order_events (λ other added added' joined newer.
              sym ((eq_iff other.order_hash oe.order_hash).0 (ground (arith, newer)))))

    -- A clear of other orders has no rows of this one.
    rows_of_clear_other :
        (side : Side) (c : ClearEvent)
        → str_eq (side.hash_of c) hash ≡ false
        → rows_of_clear T chain_id orderbook side (adds (hash ∷ [])) c ≡ []
    unfolding rows_of_clear adds_cleared concat_map
    rows_of_clear_other side c differs =
        let none_listed = filter_none _ T.order_events (All_every _ T.order_events unlisted) in
        ap (concat_map _) (
          ap (filter _) (order_add_events-filter T chain_id orderbook (hash ∷ []))
          ∙ filter-filter _ _ T.order_events
          ∙ none_listed)
      where
        unlisted :
            (oe : OrderEvent)
            → (is_listed T chain_id orderbook (hash ∷ []) oe
                && (adds_cleared T chain_id orderbook c (side.hash_of c) oe
                    && not (any (newer_for_clear T chain_id orderbook c oe) (adds (hash ∷ [])))))
              ≡ false
        unlisted oe = elim (Bool-cases (str_eq oe.order_hash hash)) [
          | inr other ↦ ground (arith, other, is_in_one oe.order_hash hash)
          | inl is ↦
              let at : oe.order_hash ≡ hash = (eq_iff oe.order_hash hash).0 is in
              let apart : str_eq oe.order_hash (side.hash_of c) ≡ false =
                subst (λ s. str_eq s (side.hash_of c) ≡ false) (sym at)
                  (str_eq_differs (side.hash_of c) hash differs) in
              ground (arith, apart)
        ]

    clears_of_alone :
        (side : Side)
        → rows_of hash (clears_of T chain_id orderbook side hashes)
          ≡ clears_of T chain_id orderbook side (hash ∷ [])
    unfolding clears_of
    clears_of_alone side =
        filter-distinct hash _
        ∙ ap distinct (
            filter-concat_map _ _ _
            ∙ concat_map_ext _ _ _ (rows_of_clear_alone side)
            ∙ concat_map-filter _ _ T.clear_v3_events
            ∙ concat_map_ext _ _ T.clear_v3_events agree
            ∙ sym (concat_map-filter _ _ T.clear_v3_events))
      where
        alone : ClearEvent → List TradeRow
        alone c = rows_of_clear T chain_id orderbook side (adds (hash ∷ [])) c

        agree :
            (c : ClearEvent)
            → (if c.chain_id == chain_id
                  && str_eq c.orderbook_address orderbook
                  && is_in (side.hash_of c) hashes
                then alone c
                else [])
              ≡ (if c.chain_id == chain_id
                    && str_eq c.orderbook_address orderbook
                    && is_in (side.hash_of c) (hash ∷ [])
                  then alone c
                  else [])
        agree c = elim (Bool-cases (str_eq (side.hash_of c) hash)) [
          | inl is ↦
              let at : side.hash_of c ≡ hash = (eq_iff (side.hash_of c) hash).0 is in
              let among : is_in (side.hash_of c) hashes ≡ true =
                subst (λ s. is_in s hashes ≡ true) (sym at) asked in
              rw (among, is_in_one (side.hash_of c) hash, is) refl
          | inr differs ↦ rw (rows_of_clear_other side c differs) (ground arith)
        ]

    -- If no owner has used a nonce for two orders of the orderbook, then the rows that a query selects
    -- for one of its orders are those that it selects for this order alone, in the same order.
    pub batch_rows_alone :
        UniqueNonces
        → rows_of hash (batch_rows T chain_id orderbook hashes)
          ≡ batch_rows T chain_id orderbook (hash ∷ [])
    unfolding batch_rows clear_alice clear_bob
    batch_rows_alone unique =
        filter-sort_rows _ _
        ∙ ap sort_rows (
            filter-append _ (take_trades T chain_id orderbook hashes) _
            ∙ ap₂ (◌++◌) (take_trades_alone unique) (
                filter-append _ (clear_alice T chain_id orderbook hashes) _
                ∙ ap₂ (◌++◌) (clears_of_alone _) (clears_of_alone _)))

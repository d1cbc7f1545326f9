-- ===== src/Trades/Query/Alone.antt =====
-- Whether the rows of an order depend on the other orders of `build_batch_query` of
-- src/direct_trades.rs.
use Prim.Native.String.{String}
use text.Mathlib.Text.{◌==◌ as str_eq}
use text.Mathlib.TextEquality.{eq_iff}
use mathlib.Core.Path.{subst}
use albion_rest_api.Base.{
  ◌≡◌, refl, sym, ap, ◌∙◌, ℕ, Bool, true, false, not, ◌&&◌, Bool-cases, List, [], ◌∷◌, ◌==◌, inl,
  inr, arith, filter, any, All,
}
use albion_rest_api.Trades.Query.{
  OrderEvent, Tables, TradeRow, is_in, order_add_events, row_eq, distinct,
}
use albion_rest_api.Trades.Query.Filters.{
  filter_ext, any_ext, filter-filter, any-filter, All_every, All-map,
}

pub str_eq_self : (s : String) → str_eq s s ≡ true
str_eq_self s = (eq_iff s s).1 refl

pub str_eq_differs : (a b : String) → str_eq a b ≡ false → str_eq b a ≡ false
str_eq_differs a b differs = elim (Bool-cases (str_eq b a)) [
  | inr other ↦ other
  | inl same ↦
      let at : b ≡ a = (eq_iff b a).0 same in
      absurd (ground (arith, differs, subst (λ s. str_eq s b ≡ true) at (str_eq_self b)))
]

pub is_in_one : (s hash : String) → is_in s (hash ∷ []) ≡ str_eq s hash
unfolding is_in any
is_in_one s hash = ground arith

-- The rows of one order.
abbrev pub rows_of : String → List TradeRow → List TradeRow
rows_of hash rows = filter (λ row. str_eq row.order_hash hash) rows

-- `DISTINCT` on the rows of one order, or of all.
pub filter-distinct :
    (hash : String) (rows : List TradeRow)
    → rows_of hash (distinct rows) ≡ distinct (rows_of hash rows)
unfolding distinct filter row_eq
filter-distinct hash [] = refl
filter-distinct hash (x ∷ xs) = elim (Bool-cases (str_eq x.order_hash hash)) [
  | inl kept ↦ rw kept (
      ap (◌∷◌ x) (
        filter-filter p q (distinct xs)
        ∙ filter_ext _ _ (distinct xs) (All_every _ (distinct xs) (λ z. ground arith))
        ∙ sym (filter-filter q p (distinct xs))
        ∙ ap (filter q) (filter-distinct hash xs)))
  | inr lost ↦ rw lost (
      filter-filter p q (distinct xs)
      ∙ filter_ext _ _ (distinct xs) (All_every _ (distinct xs) (other lost))
      ∙ filter-distinct hash xs)
]
  where
    p : TradeRow → Bool
    p row = str_eq row.order_hash hash

    q : TradeRow → Bool
    q row = not (row_eq x row)

    other : str_eq x.order_hash hash ≡ false → (z : TradeRow) → (q z && p z) ≡ p z
    other lost z = elim (Bool-cases (str_eq x.order_hash z.order_hash)) [
      | inl same ↦
          let at : x.order_hash ≡ z.order_hash = (eq_iff x.order_hash z.order_hash).0 same in
          let gone : str_eq z.order_hash hash ≡ false =
            subst (λ s. str_eq s hash ≡ false) at lost in
          ground (arith, gone)
      | inr differs ↦ ground (arith, differs)
    ]

module _ (T : Tables) (chain_id : ℕ) (orderbook : String) where
  -- The event adds an order to the orderbook.
  abbrev pub is_add : OrderEvent → Bool
  is_add oe =
      oe.chain_id == chain_id
      && str_eq oe.orderbook_address orderbook
      && str_eq oe.event_type "AddOrderV3"

  abbrev pub is_listed : List String → OrderEvent → Bool
  is_listed hashes oe = is_add oe && is_in oe.order_hash hashes

  pub order_add_events-filter :
      (hashes : List String)
      → order_add_events T chain_id orderbook hashes ≡ filter (is_listed hashes) T.order_events
  unfolding order_add_events
  order_add_events-filter hashes =
      filter_ext _ _ T.order_events (All_every _ T.order_events (λ oe. ground arith))

  -- The latest of the joined events, among the events of one order or of all.
  module _ (hash : String) (hashes : List String) (asked : is_in hash hashes ≡ true)
      (joins : OrderEvent → Bool) (newer : OrderEvent → OrderEvent → Bool) where
    abbrev pub SameOrder : OrderEvent → OrderEvent → Type 0
    SameOrder oe other =
        is_add oe ≡ true
        → is_add other ≡ true
        → joins oe ≡ true
        → newer oe other ≡ true
        → oe.order_hash ≡ other.order_hash

    abbrev pub latest : List OrderEvent → OrderEvent → Bool
    latest adds oe = joins oe && not (any (newer oe) adds)

    newer_alone :
        (oe : OrderEvent)
        → is_add oe ≡ true
        → joins oe ≡ true
        → oe.order_hash ≡ hash
        → (events : List OrderEvent) → All (SameOrder oe) events
        → any (newer oe) (filter (is_listed hashes) events)
          ≡ any (newer oe) (filter (is_listed (hash ∷ [])) events)
    newer_alone oe added joined at events same =
        any-filter (newer oe) (is_listed hashes) events
        ∙ any_ext _ _ events (All-map _ _ events agree same)
        ∙ sym (any-filter (newer oe) (is_listed (hash ∷ [])) events)
      where
        agree :
            (other : OrderEvent)
            → SameOrder oe other
            → (is_listed hashes other && newer oe other)
              ≡ (is_listed (hash ∷ []) other && newer oe other)
        agree other same = elim (Bool-cases (is_add other)) [
          | inr other_way ↦ ground (arith, other_way)
          | inl yes_add ↦ elim (Bool-cases (newer oe other)) [
            | inr other_way ↦ ground (arith, other_way)
            | inl newer_one ↦
                let is : hash ≡ other.order_hash = sym at ∙ same added yes_add joined newer_one in
                let among : is_in other.order_hash hashes ≡ true =
                  subst (λ s. is_in s hashes ≡ true) is asked in
                let alone : is_in other.order_hash (hash ∷ []) ≡ true =
                  subst (λ s. is_in s (hash ∷ []) ≡ true) is
                    (is_in_one hash hash ∙ str_eq_self hash) in
                rw (among, alone) refl
          ]
        ]

    pub latest_alone :
        (all : List OrderEvent)
        → (events : List OrderEvent) → All (λ oe. All (SameOrder oe) all) events
        → filter
            (λ oe. str_eq oe.order_hash hash)
            (filter (latest (filter (is_listed hashes) all)) (filter (is_listed hashes) events))
          ≡ filter
              (latest (filter (is_listed (hash ∷ [])) all))
              (filter (is_listed (hash ∷ [])) events)
    latest_alone all events same =
        filter-filter _ _ (filter (is_listed hashes) events)
        ∙ filter-filter _ _ events
        ∙ filter_ext _ _ events (All-map _ _ events agree same)
        ∙ sym (filter-filter _ _ events)
      where
        agree :
            (oe : OrderEvent)
            → All (SameOrder oe) all
            → (is_listed hashes oe
                && (latest (filter (is_listed hashes) all) oe && str_eq oe.order_hash hash))
              ≡ (is_listed (hash ∷ []) oe && latest (filter (is_listed (hash ∷ [])) all) oe)
        agree oe same = elim (Bool-cases (is_add oe)) [
          | inr other_way ↦ ground (arith, other_way)
          | inl added ↦ elim (Bool-cases (joins oe)) [
            | inr other_way ↦ ground (arith, other_way)
            | inl joined ↦ elim (Bool-cases (str_eq oe.order_hash hash)) [
              | inr other_way ↦ ground (arith, other_way, is_in_one oe.order_hash hash)
              | inl is ↦
                  let at : oe.order_hash ≡ hash = (eq_iff oe.order_hash hash).0 is in
                  let among : is_in oe.order_hash hashes ≡ true =
                    subst (λ s. is_in s hashes ≡ true) (sym at) asked in
                  ground (
                    arith,
                    among,
                    is,
                    added,
                    joined,
                    is_in_one oe.order_hash hash,
                    newer_alone oe added joined at all same,
                  )
            ]
          ]
        ]

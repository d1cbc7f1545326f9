-- ===== src/Trades/Query/Sorted.antt =====
-- The order of the rows of `build_batch_query` of src/direct_trades.rs.
use albion_rest_api.Base.{
  ◌≡◌, refl, sym, ap, ◌∙◌, Bool, true, false, Bool-cases, List, [], ◌∷◌, inl, inr, arith,
  if◌then◌else◌, filter, All,
}
use albion_rest_api.Trades.Query.{TradeRow}
use albion_rest_api.Trades.Query.Rows.{precedes, insert_row, sort_rows}
use albion_rest_api.Text.Order.{text_ltb_trans, text_ltb_between}
use albion_rest_api.Trades.Query.Filters.{All-filter, All-map}

precedes_total : (x y : TradeRow) → precedes x y ≡ false → precedes y x ≡ true
unfolding precedes
precedes_total x y h = ground (arith, h)

precedes_trans :
    (x y z : TradeRow) → precedes x y ≡ true → precedes y z ≡ true → precedes x z ≡ true
unfolding precedes
precedes_trans x y z h k = ground (
  arith,
  text_ltb_trans x.order_hash y.order_hash z.order_hash,
  text_ltb_between z.order_hash y.order_hash x.order_hash,
  text_ltb_between x.order_hash z.order_hash y.order_hash,
  text_ltb_between y.order_hash x.order_hash z.order_hash,
  h,
  k,
)

-- Every row precedes the later ones.
unfoldable pub IsOrdered : List TradeRow → Type 0
IsOrdered [] = Unit {0}
IsOrdered (x ∷ xs) = All (λ y. precedes x y ≡ true) xs × IsOrdered xs

All-insert_row {ℓ} :
    (P : TradeRow → Type ℓ) (x : TradeRow) (xs : List TradeRow)
    → P x
    → All P xs
    → All P (insert_row x xs)
unfolding insert_row
All-insert_row P x [] p h = (p, tt)
All-insert_row P x (y ∷ ys) p (q, h) = elim (Bool-cases (precedes x y)) [
  | inl before ↦ rw before (p, (q, h))
  | inr later ↦ rw later (q, All-insert_row P x ys p h)
]

insert_row-IsOrdered :
    (x : TradeRow) (xs : List TradeRow) → IsOrdered xs → IsOrdered (insert_row x xs)
unfolding insert_row IsOrdered
insert_row-IsOrdered x [] h = (tt, tt)
insert_row-IsOrdered x (y ∷ ys) (first, rest) = elim (Bool-cases (precedes x y)) [
  | inl before ↦
      rw before
        ((before, All-map _ _ ys (λ z k. precedes_trans x y z before k) first), (first, rest))
  | inr later ↦ rw later (
    All-insert_row (λ z. precedes y z ≡ true) x ys (precedes_total x y later) first,
    insert_row-IsOrdered x ys rest,
  )
]

pub sort_rows-IsOrdered : (xs : List TradeRow) → IsOrdered (sort_rows xs)
unfolding sort_rows IsOrdered
sort_rows-IsOrdered [] = tt
sort_rows-IsOrdered (x ∷ xs) = insert_row-IsOrdered x (sort_rows xs) (sort_rows-IsOrdered xs)

pub All-sort_rows {ℓ} :
    (P : TradeRow → Type ℓ) (xs : List TradeRow) → All P xs → All P (sort_rows xs)
unfolding sort_rows
All-sort_rows P [] h = tt
All-sort_rows P (x ∷ xs) (p, h) = All-insert_row P x (sort_rows xs) p (All-sort_rows P xs h)

insert_row_first :
    (x : TradeRow) (xs : List TradeRow)
    → All (λ y. precedes x y ≡ true) xs
    → insert_row x xs ≡ x ∷ xs
unfolding insert_row
insert_row_first x [] h = refl
insert_row_first x (y ∷ ys) (h, hs) = rw h refl

module _ (p : TradeRow → Bool) where
  filter-insert_row_kept :
      (x : TradeRow) (xs : List TradeRow)
      → p x ≡ true
      → IsOrdered xs
      → filter p (insert_row x xs) ≡ insert_row x (filter p xs)
  unfolding insert_row filter IsOrdered
  filter-insert_row_kept x [] k h = rw k refl
  filter-insert_row_kept x (y ∷ ys) k (first, rest) = elim (Bool-cases (precedes x y)) [
    | inl before ↦
        let all_after : All (λ z. precedes x z ≡ true) (filter p (y ∷ ys)) =
          All-filter _ p (y ∷ ys)
            (before, All-map _ _ ys (λ z q. precedes_trans x y z before q) first) in
        rw before (rw k (sym (insert_row_first x (filter p (y ∷ ys)) all_after)))
    | inr later ↦ rw later (elim (Bool-cases (p y)) [
      | inl kept ↦ rw (kept, later) (ap (◌∷◌ y) (filter-insert_row_kept x ys k rest))
      | inr lost ↦ rw lost (filter-insert_row_kept x ys k rest)
    ])
  ]

  filter-insert_row_lost :
      (x : TradeRow) (xs : List TradeRow) → p x ≡ false → filter p (insert_row x xs) ≡ filter p xs
  unfolding insert_row filter
  filter-insert_row_lost x [] k = rw k refl
  filter-insert_row_lost x (y ∷ ys) k = elim (Bool-cases (precedes x y)) [
    | inl before ↦ rw before (rw k refl)
    | inr later ↦ rw later (ap (λ zs. if p y then y ∷ zs else zs) (filter-insert_row_lost x ys k))
  ]

  -- Sorting keeps what a filter leaves in its order.
  pub filter-sort_rows : (xs : List TradeRow) → filter p (sort_rows xs) ≡ sort_rows (filter p xs)
  unfolding sort_rows filter
  filter-sort_rows [] = refl
  filter-sort_rows (x ∷ xs) = elim (Bool-cases (p x)) [
    | inl kept ↦ rw kept (
        filter-insert_row_kept x (sort_rows xs) kept (sort_rows-IsOrdered xs)
        ∙ ap (insert_row x) (filter-sort_rows xs))
    | inr lost ↦ rw lost (filter-insert_row_lost x (sort_rows xs) lost ∙ filter-sort_rows xs)
  ]

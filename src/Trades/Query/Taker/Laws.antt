-- ===== src/Trades/Query/Taker/Laws.antt =====
-- What the query of `fetch_taker_tx_hashes` of src/direct_trades.rs answers.
use Prim.Native.String.{String}
use text.Mathlib.Text.{◌==◌ as str_eq}
use albion_rest_api.Base.{
  ◌≡◌, refl, ap, ◌∙◌, ℕ, Bool, true, false, ◌||◌, Bool-cases, List, [], ◌∷◌, leb, inl, inr, arith,
  filter, any, All,
}
use albion_rest_api.Trades.Query.{Tables}
use albion_rest_api.Trades.Query.Alone.{str_eq_differs}
use albion_rest_api.Trades.Query.Filters.{All-map, All-both}
use albion_rest_api.Trades.Query.Taker.{
  TakerRow, group_takes, insert_newest, sort_newest, taken_by, taker_query, IsNewestFirst, covers,
  stems_from,
}
use albion_rest_api.Trades.Query.Taker.Groups.{
  Unique, group_takes-Unique, group_takes-covers, group_takes-stems,
}

All-insert_newest {ℓ} :
    (P : TakerRow → Type ℓ) (x : TakerRow) (xs : List TakerRow)
    → P x
    → All P xs
    → All P (insert_newest x xs)
unfolding insert_newest
All-insert_newest P x [] p h = (p, tt)
All-insert_newest P x (y ∷ ys) p (q, h) = elim (Bool-cases (leb (y.1) (x.1))) [
  | inl before ↦ rw before (p, (q, h))
  | inr later ↦ rw later (q, All-insert_newest P x ys p h)
]

All-sort_newest {ℓ} :
    (P : TakerRow → Type ℓ) (xs : List TakerRow) → All P xs → All P (sort_newest xs)
unfolding sort_newest
All-sort_newest P [] h = tt
All-sort_newest P (x ∷ xs) (p, h) =
    All-insert_newest P x (sort_newest xs) p (All-sort_newest P xs h)

any-insert_newest :
    (p : TakerRow → Bool) (x : TakerRow) (xs : List TakerRow)
    → any p (insert_newest x xs) ≡ (p x || any p xs)
unfolding any insert_newest
any-insert_newest p x [] = refl
any-insert_newest p x (y ∷ ys) = ground (arith, any-insert_newest p x ys)

any-sort_newest : (p : TakerRow → Bool) (xs : List TakerRow) → any p (sort_newest xs) ≡ any p xs
unfolding any sort_newest
any-sort_newest p [] = refl
any-sort_newest p (x ∷ xs) =
    any-insert_newest p x (sort_newest xs) ∙ ap (λ b. p x || b) (any-sort_newest p xs)

insert_newest-IsNewestFirst :
    (x : TakerRow) (xs : List TakerRow)
    → All (λ y. str_eq (y.0) (x.0) ≡ false) xs
    → IsNewestFirst xs
    → IsNewestFirst (insert_newest x xs)
unfolding insert_newest IsNewestFirst
insert_newest-IsNewestFirst x [] d h = (tt, tt)
insert_newest-IsNewestFirst x (y ∷ ys) (d, ds) (first, rest) = elim (Bool-cases (leb (y.1) (x.1))) [
  | inl before ↦ rw before (
    (
      (d, ground (arith, before)),
      All-map _ _ ys (λ z (k, (e, le)). (k, ground (arith, before, le))) (All-both _ _ ys ds first),
    ),
    (first, rest),
  )
  | inr later ↦ rw later (
    All-insert_newest _ x ys (str_eq_differs _ _ d, ground (arith, later)) first,
    insert_newest-IsNewestFirst x ys ds rest,
  )
]

sort_newest-IsNewestFirst : (xs : List TakerRow) → Unique xs → IsNewestFirst (sort_newest xs)
unfolding sort_newest Unique IsNewestFirst
sort_newest-IsNewestFirst [] h = tt
sort_newest-IsNewestFirst (x ∷ xs) (first, rest) =
    insert_newest-IsNewestFirst x (sort_newest xs) (All-sort_newest _ xs first)
      (sort_newest-IsNewestFirst xs rest)

-- The query for a sender answers every transaction of the sender's takes at the orderbook, each once,
-- the newest first: a row has the hash and the timestamp of one of these takes, no other row has its
-- hash, and each of these takes has a row with its hash that is not older.
pub taker_query-IsNewestFirst :
    (T : Tables) (sender : String) (chain_id : ℕ) (orderbook : String)
    → IsNewestFirst (taker_query T sender chain_id orderbook)
      × All
          (λ row.
            any (stems_from row) (filter (taken_by sender chain_id orderbook) T.take_orders) ≡ true)
          (taker_query T sender chain_id orderbook)
      × All
          (λ t. any (covers t) (taker_query T sender chain_id orderbook) ≡ true)
          (filter (taken_by sender chain_id orderbook) T.take_orders)
unfolding taker_query
taker_query-IsNewestFirst T sender chain_id orderbook =
    let takes = filter (taken_by sender chain_id orderbook) T.take_orders in
    (
      sort_newest-IsNewestFirst (group_takes takes) (group_takes-Unique takes),
      All-sort_newest _ (group_takes takes) (group_takes-stems takes),
      All-map _ _ takes (λ t h. any-sort_newest (covers t) (group_takes takes) ∙ h)
          (group_takes-covers takes),
    )

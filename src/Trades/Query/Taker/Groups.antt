-- ===== src/Trades/Query/Taker/Groups.antt =====
-- The groups of `fetch_taker_tx_hashes` of src/direct_trades.rs.
use Prim.Native.String.{String}
use text.Mathlib.Text.{◌==◌ as str_eq}
use text.Mathlib.TextEquality.{eq_iff}
use albion_rest_api.Base.{
  ◌≡◌, sym, ℕ, true, false, Bool-cases, List, [], ◌∷◌, inl, inr, arith, any, All,
}
use albion_rest_api.Trades.Query.{TakeOrder}
use albion_rest_api.Trades.Query.Alone.{str_eq_self, str_eq_differs}
use albion_rest_api.Trades.Query.Filters.{All-map}
use albion_rest_api.Trades.Query.Taker.{TakerRow, put_max, group_takes, covers, stems_from}

unfoldable pub Unique : List TakerRow → Type 0
Unique [] = Unit {0}
Unique (x ∷ xs) = All (λ y. str_eq (y.0) (x.0) ≡ false) xs × Unique xs

All-put_max :
    (other tx_hash : String) (ts : ℕ) (rows : List TakerRow)
    → str_eq tx_hash other ≡ false
    → All (λ y. str_eq (y.0) other ≡ false) rows
    → All (λ y. str_eq (y.0) other ≡ false) (put_max tx_hash ts rows)
unfolding put_max
All-put_max other tx_hash ts [] h k = (h, tt)
All-put_max other tx_hash ts ((hash, most) ∷ rows) h (k, ks) =
    elim (Bool-cases (str_eq hash tx_hash)) [
      | inl same ↦ rw same (k, ks)
      | inr differs ↦ rw differs (k, All-put_max other tx_hash ts rows h ks)
    ]

put_max-Unique :
    (tx_hash : String) (ts : ℕ) (rows : List TakerRow)
    → Unique rows
    → Unique (put_max tx_hash ts rows)
unfolding put_max Unique
put_max-Unique tx_hash ts [] h = (tt, tt)
put_max-Unique tx_hash ts ((hash, most) ∷ rows) (first, rest) =
    elim (Bool-cases (str_eq hash tx_hash)) [
      | inl same ↦ rw same (first, rest)
      | inr differs ↦ rw differs (
        All-put_max hash tx_hash ts rows (str_eq_differs hash tx_hash differs) first,
        put_max-Unique tx_hash ts rows rest,
      )
    ]

pub group_takes-Unique : (takes : List TakeOrder) → Unique (group_takes takes)
unfolding group_takes Unique
group_takes-Unique [] = tt
group_takes-Unique (t ∷ takes) = put_max-Unique _ _ (group_takes takes) (group_takes-Unique takes)

-- Every take is covered by the groups, and stays so when another is put.
any-put_max_other :
    (t : TakeOrder) (tx_hash : String) (ts : ℕ) (rows : List TakerRow)
    → any (covers t) rows ≡ true
    → any (covers t) (put_max tx_hash ts rows) ≡ true
unfolding any put_max covers
any-put_max_other t tx_hash ts [] h = absurd cc
any-put_max_other t tx_hash ts ((hash, most) ∷ rows) h =
    ground (arith, h, any-put_max_other t tx_hash ts rows)

any-put_max :
    (t : TakeOrder) (rows : List TakerRow)
    → any (covers t) (put_max t.transaction_hash t.block_timestamp rows) ≡ true
unfolding any put_max covers
any-put_max t [] = ground (arith, str_eq_self t.transaction_hash)
any-put_max t ((hash, most) ∷ rows) = ground (arith, any-put_max t rows)

pub group_takes-covers :
    (takes : List TakeOrder) → All (λ t. any (covers t) (group_takes takes) ≡ true) takes
unfolding group_takes
group_takes-covers [] = tt
group_takes-covers (t ∷ takes) = (
  any-put_max t (group_takes takes),
  All-map _ _ takes (λ other h. any-put_max_other other _ _ (group_takes takes) h)
      (group_takes-covers takes),
)

put_max-stems :
    (t : TakeOrder) (takes : List TakeOrder) (rows : List TakerRow)
    → All (λ row. any (stems_from row) takes ≡ true) rows
    → All
        (λ row. any (stems_from row) (t ∷ takes) ≡ true)
        (put_max t.transaction_hash t.block_timestamp rows)
unfolding put_max any stems_from
put_max-stems t takes [] h = (ground (arith, str_eq_self t.transaction_hash), tt)
put_max-stems t takes ((hash, most) ∷ rows) (h, hs) =
    elim (Bool-cases (str_eq hash t.transaction_hash)) [
      | inl same ↦ rw same (
        (let same' : str_eq t.transaction_hash hash ≡ true =
              (eq_iff _ _).1 (sym ((eq_iff hash t.transaction_hash).0 same)) in
            ground (arith, h, same')),
        All-map _ _ rows (λ row k. ground (arith, k)) hs,
      )
      | inr differs ↦ rw differs (ground (arith, h), put_max-stems t takes rows hs)
    ]

-- Every group has the hash and the timestamp of a take.
pub group_takes-stems :
    (takes : List TakeOrder) → All (λ row. any (stems_from row) takes ≡ true) (group_takes takes)
unfolding group_takes
group_takes-stems [] = tt
group_takes-stems (t ∷ takes) = put_max-stems t takes (group_takes takes) (group_takes-stems takes)

-- ===== src/Trades/Sorted.antt =====
-- The order of the trades in `process_get_trades_by_address` of src/routes/trades.rs.
use albion_rest_api.Base.{
  ℕ, suc, ◌≡◌, refl, ap, ◌∙◌, true, false, ◌&&◌, List, [], ◌∷◌, ◌==◌, if◌then◌else◌, length, All,
  arith, Bool-cases, inl, inr,
}
use albion_rest_api.Trades.{TradeByAddress, newer, insert_trade, sort_trades}

-- Every trade is no older than those after it.
unfoldable pub IsDescending : List TradeByAddress → Type 0
IsDescending [] = Unit
IsDescending (t ∷ ts) = All (λ u. newer t u ≡ true) ts × IsDescending ts

-- The trades of one timestamp and block, in their order.
unfoldable pub trades_at : ℕ → ℕ → List TradeByAddress → List TradeByAddress
trades_at time block [] = []
trades_at time block (t ∷ ts) =
    if t.timestamp == time && t.block_number == block
    then t ∷ trades_at time block ts
    else trades_at time block ts

newer_total : (t u : TradeByAddress) → newer t u ≡ false → newer u t ≡ true
unfolding newer
newer_total t u h = ground (arith, h)

newer_trans : (t u v : TradeByAddress) → newer t u ≡ true → newer u v ≡ true → newer t v ≡ true
unfolding newer
newer_trans t u v h k = ground (arith, h, k)

newer-All :
    (t u : TradeByAddress) (us : List TradeByAddress)
    → newer t u ≡ true
    → All (λ v. newer u v ≡ true) us
    → All (λ v. newer t v ≡ true) us
newer-All t u [] h a = tt
newer-All t u (v ∷ us) h a = (newer_trans t u v h a.0, newer-All t u us h a.1)

insert_trade-All :
    (s t : TradeByAddress) (us : List TradeByAddress)
    → newer s t ≡ true
    → All (λ v. newer s v ≡ true) us
    → All (λ v. newer s v ≡ true) (insert_trade t us)
unfolding insert_trade
insert_trade-All s t [] h a = (h, tt)
insert_trade-All s t (u ∷ us) h a = elim (Bool-cases (newer t u)) [
  | inl first ↦ rw first (h, a)
  | inr later ↦ rw later (a.0, insert_trade-All s t us h a.1)
]

insert_trade-IsDescending :
    (t : TradeByAddress) (us : List TradeByAddress)
    → IsDescending us
    → IsDescending (insert_trade t us)
unfolding insert_trade IsDescending
insert_trade-IsDescending t [] d = (tt, tt)
insert_trade-IsDescending t (u ∷ us) d = elim (Bool-cases (newer t u)) [
  | inl first ↦ rw first ((first, newer-All t u us first d.0), d)
  | inr later ↦
      rw later
        (insert_trade-All u t us (newer_total t u later) d.0, insert_trade-IsDescending t us d.1)
]

pub sort_trades-IsDescending : (ts : List TradeByAddress) → IsDescending (sort_trades ts)
unfolding sort_trades IsDescending
sort_trades-IsDescending [] = tt
sort_trades-IsDescending (t ∷ ts) =
    insert_trade-IsDescending t (sort_trades ts) (sort_trades-IsDescending ts)

trades_at-insert_trade :
    (time block : ℕ) (t : TradeByAddress) (us : List TradeByAddress)
    → trades_at time block (insert_trade t us) ≡ trades_at time block (t ∷ us)
unfolding insert_trade trades_at newer
trades_at-insert_trade time block t [] = refl
trades_at-insert_trade time block t (u ∷ us) =
    ground (arith, trades_at-insert_trade time block t us)

pub trades_at-sort_trades :
    (time block : ℕ) (ts : List TradeByAddress)
    → trades_at time block (sort_trades ts) ≡ trades_at time block ts
unfolding sort_trades trades_at
trades_at-sort_trades time block [] = refl
trades_at-sort_trades time block (t ∷ ts) = ground (
  arith,
  trades_at-insert_trade time block t (sort_trades ts),
  trades_at-sort_trades time block ts,
)

length-insert_trade :
    (t : TradeByAddress) (us : List TradeByAddress) → length (insert_trade t us) ≡ suc (length us)
unfolding insert_trade
length-insert_trade t [] = refl
length-insert_trade t (u ∷ us) = ground (arith, length-insert_trade t us)

pub length-sort_trades : (ts : List TradeByAddress) → length (sort_trades ts) ≡ length ts
unfolding sort_trades
length-sort_trades [] = refl
length-sort_trades (t ∷ ts) =
    length-insert_trade t (sort_trades ts) ∙ ap suc (length-sort_trades ts)

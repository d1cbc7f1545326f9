-- ===== src/Trades/Query/Taker.antt =====
-- The query of `fetch_taker_tx_hashes` of src/direct_trades.rs on the table of the takes.
pub mod Groups
pub mod Laws
use Prim.Native.String.{String}
use text.Mathlib.Text.{◌==◌ as str_eq}
use text.Mathlib.TextEquality.{eq_iff}
use mathlib.Core.Path.{subst}
use albion_rest_api.Base.{
  ◌≡◌, refl, sym, ap, ◌∙◌, ◌≤◌, ℕ, Bool, true, false, ◌&&◌, ◌||◌, Bool-cases, List, [], ◌∷◌, map,
  ltb, leb, ◌==◌, inl, inr, arith, if◌then◌else◌, filter, any, All,
}
use albion_rest_api.Trades.Query.{TakeOrder, Tables}
use albion_rest_api.Trades.Query.Alone.{str_eq_self, str_eq_differs}
use albion_rest_api.Trades.Query.Filters.{All-map, All-filter}

-- A transaction's hash and its `ts`.
abbrev pub TakerRow : Type 0
TakerRow = String × ℕ

-- `GROUP BY transaction_hash` with `MAX(block_timestamp)`.
unfoldable pub put_max : String → ℕ → List TakerRow → List TakerRow
put_max tx_hash ts [] = (tx_hash, ts) ∷ []
put_max tx_hash ts ((hash, most) ∷ rows) =
    let rest = put_max tx_hash ts rows in
    if str_eq hash tx_hash
    then (hash, if ltb most ts then ts else most) ∷ rows
    else (hash, most) ∷ rest

unfoldable pub group_takes : List TakeOrder → List TakerRow
group_takes [] = []
group_takes (t ∷ takes) = put_max t.transaction_hash t.block_timestamp (group_takes takes)

-- `ORDER BY ts DESC`
unfoldable pub insert_newest : TakerRow → List TakerRow → List TakerRow
insert_newest x [] = x ∷ []
insert_newest x (y ∷ ys) =
    let rest = insert_newest x ys in if leb (y.1) (x.1) then x ∷ y ∷ ys else y ∷ rest

unfoldable pub sort_newest : List TakerRow → List TakerRow
sort_newest [] = []
sort_newest (x ∷ xs) = insert_newest x (sort_newest xs)

-- `WHERE sender = ?1 AND chain_id = ?2 AND orderbook_address = ?3`
unfoldable pub taken_by : String → ℕ → String → TakeOrder → Bool
taken_by sender chain_id orderbook t =
    str_eq t.sender sender && t.chain_id == chain_id && str_eq t.orderbook_address orderbook

unfoldable pub taker_query : Tables → String → ℕ → String → List TakerRow
taker_query T sender chain_id orderbook =
    sort_newest (group_takes (filter (taken_by sender chain_id orderbook) T.take_orders))

-- The later rows are of other transactions, and not newer.
unfoldable pub IsNewestFirst : List TakerRow → Type 0
IsNewestFirst [] = Unit {0}
IsNewestFirst (x ∷ xs) = All (λ y. (str_eq (y.0) (x.0) ≡ false) × (y.1 ≤ x.1)) xs × IsNewestFirst xs

-- The row of a take is at least as new as it.
unfoldable pub covers : TakeOrder → TakerRow → Bool
covers t row = str_eq (row.0) t.transaction_hash && leb t.block_timestamp (row.1)

-- The row has the hash and the timestamp of a take.
unfoldable pub stems_from : TakerRow → TakeOrder → Bool
stems_from row t = str_eq t.transaction_hash (row.0) && t.block_timestamp == row.1

-- ===== src/Trades/Query/Fetch.antt =====
-- `batch_fetch` of src/direct_trades.rs on the tables of the local database.
use Prim.Native.String.{String}
use text.Mathlib.Text.{◌==◌ as str_eq}
use text.Mathlib.TextEquality.{eq_iff}
use mathlib.Core.Path.{subst}
use albion_rest_api.Base.{
  ◌≡◌, refl, sym, ap, ◌∙◌, ℕ, true, false, Bool-cases, some, List, [], ◌∷◌, map, ◌==◌, ==_iff, ◌⊎◌,
  inl, inr, arith, filter, any, is_empty, All, if◌then◌else◌,
}
use albion_rest_api.Error.{◌>>=◌, Result, ok, err, Result-cases}
use albion_rest_api.Raindex.{Raindex, Address, B256}
use albion_rest_api.Trades.Batch.{OrderTradeEntry}
use albion_rest_api.Trades.Batch.Answers.{contains}
use albion_rest_api.Trades.Batch.Fresh.{fetched, IsPointwise}
use albion_rest_api.Trades.Fetcher.{
  pos, Connection, RawTradeRow, batch_fetch, convert_raw_trade, or_invalid, as_u64,
  format_float_hex, negate_and_format_float_hex,
}
use albion_rest_api.Trades.Fetcher.Rows.{found_at, entries_of, batch_fetch-entries_of}
use albion_rest_api.Trades.Query.{Tables, TradeRow, is_in}
use albion_rest_api.Trades.Query.Rows.{SqlTexts, raw_row, batch_query}
use albion_rest_api.Trades.Query.Taker.{taker_query}
use albion_rest_api.Trades.Query.Alone.{rows_of}
use albion_rest_api.Trades.Query.Orders.{UniqueNonces, batch_rows_alone}
use albion_rest_api.Trades.Query.Listed.{IsListed, batch_rows-IsSorted}

or_invalid-inr {ℓ} :
    {A : Type ℓ} (what : String) (r : String ⊎ A) (a b : A)
    → r ≡ inr a
    → or_invalid what r ≡ ok b
    → b ≡ a
unfolding or_invalid
or_invalid-inr what (inl e) a b read parsed = absurd cc
or_invalid-inr what (inr c) a b read parsed = cc

-- `convert_raw_trade`, by the results of its parts.
abbrev conversion :
    Result B256
    → Result B256
    → Result Address
    → Result String
    → Result String
    → (B256 → Address → String → String → OrderTradeEntry)
    → Result (B256 × OrderTradeEntry)
conversion a tx sender input output entry_of =
    a >>= λ x. tx >>= λ t. sender >>= λ s. input >>= λ i. output >>= λ o. ok (x, entry_of t s i o)

conversion_order :
    (a tx : Result B256) (sender : Result Address) (input output : Result String)
    (entry_of : B256 → Address → String → String → OrderTradeEntry) (h : B256)
    (entry : OrderTradeEntry)
    → conversion a tx sender input output entry_of ≡ ok (h, entry)
    → a ≡ ok h
conversion_order (err e) tx sender input output f h entry eq = absurd cc
conversion_order (ok x) (err e) sender input output f h entry eq = absurd cc
conversion_order (ok x) (ok t) (err e) input output f h entry eq = absurd cc
conversion_order (ok x) (ok t) (ok s) (err e) output f h entry eq = absurd cc
conversion_order (ok x) (ok t) (ok s) (ok i) (err e) f h entry eq = absurd cc
conversion_order (ok x) (ok t) (ok s) (ok i) (ok o) f h entry eq =
    (let same : x ≡ h = cc in ap ok same)

module _ (X : Raindex) (conn : Connection X) (sql : SqlTexts) (T : Tables) (chain_id : ℕ)
    (orderbook : String) where
  -- A connection that answers both queries from the tables, every row of which can be read.
  unfoldable pub on_tables : Connection X
  on_tables = record conn {
    query_trades = λ hashes. some (map some (batch_query sql T chain_id orderbook hashes));
    query_taker = λ sender.
        some (map (λ row. some (row.0, pos (row.1))) (taker_query T sender chain_id orderbook));
  }

  -- A hash that is printed parses to itself.
  abbrev pub ParsesShown : Type 0
  ParsesShown = (hash : B256) → conn.parse_hash (conn.show_hash hash) ≡ inr hash

  module _ (parses : ParsesShown) where
    is_in-show_hash :
        (k : B256) (hashes : List B256)
        → contains k hashes ≡ true
        → is_in (conn.show_hash k) (map conn.show_hash hashes) ≡ true
    unfolding contains is_in any
    is_in-show_hash k [] h = absurd cc
    is_in-show_hash k (hash ∷ hashes) h = elim (Bool-cases (k == hash)) [
      | inl same ↦
          let at : k ≡ hash = (==_iff k hash).0 same in
          let here : str_eq (conn.show_hash k) (conn.show_hash hash) ≡ true =
            (eq_iff (conn.show_hash k) (conn.show_hash hash)).1 (ap conn.show_hash at) in
          ground (arith, here)
      | inr differs ↦
          let there : is_in (conn.show_hash k) (map conn.show_hash hashes) ≡ true =
            is_in-show_hash k hashes (ground (arith, h, differs)) in
          ground (arith, there)
    ]

    shown :
        (s : String) (hashes : List B256)
        → is_in s (map conn.show_hash hashes) ≡ true
        → (hash : B256) × (s ≡ conn.show_hash hash)
    unfolding is_in any
    shown s [] h = absurd cc
    shown s (hash ∷ hashes) h = elim (Bool-cases (str_eq s (conn.show_hash hash))) [
      | inl same ↦ (hash, (eq_iff s (conn.show_hash hash)).0 same)
      | inr differs ↦ shown s hashes (ground (arith, h, differs))
    ]

    -- A row converts to an entry of its own order.
    convert_raw_trade_order :
        (raw : RawTradeRow) (hash h : B256) (entry : OrderTradeEntry)
        → raw.order_hash ≡ conn.show_hash hash
        → convert_raw_trade X on_tables raw ≡ ok (h, entry)
        → h ≡ hash
    unfolding convert_raw_trade or_invalid on_tables
    convert_raw_trade_order raw hash h entry at converted =
        let own =
          conversion_order (or_invalid "invalid order hash" (conn.parse_hash raw.order_hash))
            (or_invalid "invalid tx hash" (conn.parse_hash raw.transaction_hash))
            (or_invalid "invalid sender address" (conn.parse_address raw.transaction_sender))
            (format_float_hex X on_tables raw.input_delta)
            (negate_and_format_float_hex X on_tables raw.output_delta_raw)
            (λ t s i o. record {
              id = raw.trade_id;
              tx_hash = t;
              input_amount = i;
              output_amount = o;
              timestamp = as_u64 raw.block_timestamp;
              sender = s;
            })
            h entry converted in
        or_invalid-inr "invalid order hash" _ hash h (ap conn.parse_hash at ∙ parses hash) own

    entries_of_other :
        (k hash : B256) (raw : RawTradeRow) (raws : List RawTradeRow)
        → raw.order_hash ≡ conn.show_hash hash
        → (k == hash) ≡ false
        → entries_of X on_tables k (raw ∷ raws) ≡ entries_of X on_tables k raws
    unfolding entries_of
    entries_of_other k hash raw raws at differs =
        elim (Result-cases (convert_raw_trade X on_tables raw)) [
          | inl (e, failed) ↦ rw (entries_of, failed) refl
          | inr ((h, entry), converted) ↦
              let own : h ≡ hash = convert_raw_trade_order raw hash h entry at converted in
              let apart : (k == h) ≡ false = subst (λ x. (k == x) ≡ false) (sym own) differs in
              rw (entries_of, converted, apart) refl
        ]

    entries_of_alone :
        (k : B256) (hashes : List B256) (rows : List TradeRow)
        → All (IsListed T chain_id orderbook (map conn.show_hash hashes)) rows
        → entries_of X on_tables k (map (raw_row sql) rows)
          ≡ entries_of X on_tables k (map (raw_row sql) (rows_of (conn.show_hash k) rows))
    unfolding entries_of filter raw_row
    entries_of_alone k hashes [] h = refl
    entries_of_alone k hashes (row ∷ rows) (listed, h) =
        let (hash, at) = shown row.order_hash hashes listed in
        elim (Bool-cases (str_eq row.order_hash (conn.show_hash k))) [
          | inl kept ↦ rw kept (
              ap
                (λ rest. elim (convert_raw_trade X on_tables (raw_row sql row)) [
                  | err _ ↦ rest
                  | ok (h, entry) ↦ if k == h then entry ∷ rest else rest
                ])
                (entries_of_alone k hashes rows h))
          | inr lost ↦ rw lost (
              entries_of_other k hash (raw_row sql row) (map (raw_row sql) rows) at
                (unlike k hash row.order_hash at lost)
              ∙ entries_of_alone k hashes rows h)
        ]
      where
        unlike :
            (k hash : B256) (s : String)
            → s ≡ conn.show_hash hash
            → str_eq s (conn.show_hash k) ≡ false
            → (k == hash) ≡ false
        unlike k hash s at lost = elim (Bool-cases (k == hash)) [
          | inr differs ↦ differs
          | inl same ↦
              let is : s ≡ conn.show_hash k =
                at ∙ ap conn.show_hash (sym ((==_iff k hash).0 same)) in
              absurd (ground (arith, lost, (eq_iff s (conn.show_hash k)).1 is))
        ]

    fetched-entries_of :
        (hashes : List B256) (k : B256)
        → is_empty hashes ≡ false
        → fetched X (batch_fetch X on_tables) hashes k
          ≡ some (
              entries_of X on_tables k
                (batch_query sql T chain_id orderbook (map conn.show_hash hashes)))
    unfolding fetched found_at on_tables
    fetched-entries_of hashes k asked =
        let raws = batch_query sql T chain_id orderbook (map conn.show_hash hashes) in
        let (result, ran, holds) = batch_fetch-entries_of X on_tables hashes raws asked refl in
        rw (fetched, ran) (ap some (holds k))

    contains_some :
        (k : B256) (hashes : List B256) → contains k hashes ≡ true → is_empty hashes ≡ false
    unfolding contains
    contains_some k [] h = absurd cc
    contains_some k (hash ∷ hashes) h = refl

    -- If no owner has used a nonce for two orders of the orderbook, every printed hash parses to itself
    -- and every row can be read, then the fetcher answers each hash of a batch as it answers this hash
    -- alone.
    pub batch_fetch-IsPointwise :
        UniqueNonces T chain_id orderbook → IsPointwise X (batch_fetch X on_tables)
    unfolding IsPointwise batch_query
    batch_fetch-IsPointwise unique hashes k among =
        fetched-entries_of hashes k (contains_some k hashes among)
        ∙ ap some (
            entries_of_alone k hashes _
              (batch_rows-IsSorted T chain_id orderbook (map conn.show_hash hashes)).1
            ∙ ap (λ rows. entries_of X on_tables k (map (raw_row sql) rows))
                (batch_rows_alone T chain_id orderbook (conn.show_hash k)
                  (map conn.show_hash hashes) (is_in-show_hash k hashes among) unique))
        ∙ sym (fetched-entries_of (k ∷ []) k refl)

-- ===== src/Trades/Pending.antt =====
-- When `process_get_trades_by_tx` of src/routes/trades.rs answers 202.
use Prim.Native.String.{String}
use albion_rest_api.Base.{
  ℕ, ◌≡◌, sym, ◌∙◌, ◌↔◌, refl, ◌^◌, Bool, true, false, Option, none, some, List, [], ◌∷◌,
  if◌then◌else◌, ltb, arith, Bool-cases, inl, inr,
}
use albion_rest_api.Error.{
  or_internal, ApiError, not_yet_indexed, bad_request, unauthorized, forbidden, not_found, internal,
  rate_limited, Result, ok, err, ◌>>=◌, Result-cases,
}
use albion_rest_api.Raindex.{Raindex, B256, Transaction}
use albion_rest_api.Trades.{to_u64, TradeWithOwner}
use albion_rest_api.Trades.Tx.{
  indexed, still_unindexed, TxDataSource, parse_trade_order_hash, format_float, positive_output,
  compute_io_ratio, TradeByTxEntry, sum_trades, average_io_ratio, tx_response, no_trades,
  summarize_trades, process_get_trades_by_tx,
}

unfoldable pub pending_error : ApiError → Bool
pending_error (not_yet_indexed _) = true
pending_error (bad_request _) = false
pending_error (unauthorized _) = false
pending_error (forbidden _) = false
pending_error (not_found _) = false
pending_error (internal _) = false
pending_error (rate_limited _) = false

-- The answer is a 202.
unfoldable pub is_pending : {A : Type 0} → Result A → Bool
is_pending (ok _) = false
is_pending (err e) = pending_error e

then-false :
    {A B : Type 0} (m : Result A) (f : A → Result B)
    → is_pending m ≡ false
    → ((a : A) → is_pending (f a) ≡ false)
    → is_pending (m >>= f) ≡ false
unfolding is_pending
then-false (err e) f h k = h
then-false (ok a) f h k = k a

or_internal-false :
    {A : Type 0} (message : String) (o : Option A) → is_pending (or_internal message o) ≡ false
unfolding or_internal is_pending pending_error
or_internal-false message none = refl
or_internal-false message (some a) = refl

to_u64-false : (n : ℕ) (field : String) → is_pending (to_u64 n field) ≡ false
unfolding to_u64 is_pending pending_error
to_u64-false n field = elim (Bool-cases (ltb n (2 ^ 64))) [
  | inl fits ↦ rw fits refl
  | inr over ↦ rw over refl
]

ok-false : {A : Type 0} (a : A) → is_pending (ok a) ≡ false
unfolding is_pending
ok-false a = refl

module _ (X : Raindex) where
  open X use {Float}

  positive_output-false : (f : Float) → is_pending (positive_output X f) ≡ false
  unfolding positive_output
  positive_output-false f = then-false _ _ (or_internal-false _ _) (λ zero. or_internal-false _ _)

  format_float-false : (f : Float) (s : String) → is_pending (format_float X f s) ≡ false
  unfolding format_float
  format_float-false f s = or_internal-false _ _

  if-false :
      {A : Type 0} (b : Bool) (m n : Result A)
      → is_pending m ≡ false
      → is_pending n ≡ false
      → is_pending (if b then m else n) ≡ false
  if-false true m n h k = h
  if-false false m n h k = k

  compute_io_ratio-false : (i o : Float) → is_pending (compute_io_ratio X i o) ≡ false
  unfolding compute_io_ratio
  compute_io_ratio-false i o = then-false _ _ (positive_output-false o) (λ positive.
      then-false _ _ (or_internal-false _ _) (λ zero.
        if-false _ _ _ (ok-false _)
          (then-false _ _ (or_internal-false _ _) (λ ratio. format_float-false _ _))))

  sum_trades-false :
      (ts : List (TradeWithOwner X)) (i o : Float) → is_pending (sum_trades X ts i o) ≡ false
  unfolding sum_trades parse_trade_order_hash
  sum_trades-false [] i o = ok-false _
  sum_trades-false (t ∷ ts) i o = then-false _ _ (compute_io_ratio-false _ _) (λ ratio.
      then-false _ _ (or_internal-false _ _) (λ hash. then-false _ _ (or_internal-false _ _) (λ i'.
        then-false _ _ (positive_output-false _) (λ positive.
          then-false _ _ (or_internal-false _ _)
            (λ o'. then-false _ _ (sum_trades-false ts i' o') (λ (p, q, r). ok-false _))))))

  tx_response-false :
      (h : B256) (tx : Transaction) (sums : Float × Float × List TradeByTxEntry)
      → is_pending (tx_response X h tx sums) ≡ false
  unfolding tx_response average_io_ratio
  tx_response-false h tx (i, o, entries) =
      then-false _ _
        (then-false _ _ (or_internal-false _ _)
          (λ zero. if-false _ _ _ (ok-false _) (or_internal-false _ _)))
        (λ average. then-false _ _ (to_u64-false _ _) (λ block.
          then-false _ _ (to_u64-false _ _) (λ time. then-false _ _ (format_float-false _ _) (λ a.
            then-false _ _ (format_float-false _ _)
              (λ b. then-false _ _ (format_float-false _ _) (λ c. ok-false _))))))

  summarize_trades-false :
      (ds : TxDataSource X) (h : B256) (t : TradeWithOwner X) (ts : List (TradeWithOwner X))
      → is_pending (summarize_trades X ds h (t ∷ ts)) ≡ false
  unfolding summarize_trades
  summarize_trades-false ds h t ts = then-false _ _ (or_internal-false _ _) (λ zero.
      then-false _ _ (sum_trades-false (t ∷ ts) zero zero)
        (tx_response-false h (X.transaction t.trade)))

  no_trades-pending :
      (ds : TxDataSource X) (h : B256)
      → is_pending (ds.check_tx_index_state h) ≡ false
      → is_pending (no_trades X ds h) ≡ true
      → ds.check_tx_index_state h ≡ ok still_unindexed
  unfolding no_trades is_pending pending_error
  no_trades-pending ds h q p = elim (Result-cases (ds.check_tx_index_state h)) [
    | inl (e, failed) ↦ absurd (ground (arith, failed, q, p))
    | inr (indexed, answered) ↦ absurd (ground (arith, answered, p))
    | inr (still_unindexed, answered) ↦ answered
  ]

  found-pending :
      (ds : TxDataSource X) (h : B256) (found : Result (List (TradeWithOwner X)))
      → is_pending found ≡ false
      → is_pending (found >>= summarize_trades X ds h) ≡ true
      → (found ≡ ok []) × (is_pending (no_trades X ds h) ≡ true)
  unfolding summarize_trades is_pending
  found-pending ds h (err e) q p = absurd (ground (arith, q, p))
  found-pending ds h (ok []) q p = (refl, p)
  found-pending ds h (ok (t ∷ ts)) q p =
      let never = summarize_trades-false ds h t ts in
      absurd (ground (arith, (let e : true ≡ false = sym p ∙ never in e)))

  -- If neither query answers 202 itself, the trades of a transaction are answered with a 202 exactly
  -- when none is found and the transaction is not yet indexed; so no failure of a computation, and
  -- no transaction that is indexed, is.
  pub process_get_trades_by_tx-is_pending_iff :
      (ds : TxDataSource X) (tx_hash : B256)
      → is_pending (ds.get_trades_by_tx tx_hash) ≡ false
      → is_pending (ds.check_tx_index_state tx_hash) ≡ false
      → (is_pending (process_get_trades_by_tx X ds tx_hash) ≡ true) ↔ (
          (ds.get_trades_by_tx tx_hash ≡ ok [])
          × (ds.check_tx_index_state tx_hash ≡ ok still_unindexed))
  unfolding process_get_trades_by_tx summarize_trades is_pending no_trades pending_error
  process_get_trades_by_tx-is_pending_iff ds tx_hash q r = (
    (λ p.
        let (none_found, waits) = found-pending ds tx_hash (ds.get_trades_by_tx tx_hash) q p in
        (none_found, no_trades-pending ds tx_hash r waits)),
    λ (none_found, waits).
        rw
          (
            process_get_trades_by_tx, none_found, summarize_trades, no_trades, waits, is_pending,
            pending_error,
          )
          refl,
  )

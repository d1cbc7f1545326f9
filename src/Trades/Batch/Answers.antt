-- ===== src/Trades/Batch/Answers.antt =====
-- What `process_trades_batch` of src/routes/trades.rs answers for each hash.
use albion_rest_api.Base.{
  ◌≡◌, refl, ap, ap₂, ◌∙◌, ◌≤◌, map, ltb, length, Bool, true, false, not, ◌&&◌, ◌||◌, Option, none,
  some, List, [], ◌∷◌, ◌==◌, if◌then◌else◌, is_empty, is_some, unwrap_or, arith, Bool-cases,
  Option-cases, inl, inr,
}
use albion_rest_api.Error.{Result, ok, err, Result-cases}
use albion_rest_api.Raindex.{Raindex, B256}
use albion_rest_api.Trades.Batch.{
  OrderTradeEntry, TradesBatchEntry, HashMap, put, remove, take_cached, uncached_of, store_all,
  batch_entries, BatchDataSource, BatchFetch, source_of, process_trades_batch, post_trades_batch,
}

unfoldable pub contains : B256 → List B256 → Bool
contains k [] = false
contains k (hash ∷ hashes) = k == hash || contains k hashes

-- A result, or the empty list for an error.
unfoldable pub trades_or_empty : Result (List OrderTradeEntry) → List OrderTradeEntry
trades_or_empty (ok trades) = trades
trades_or_empty (err _) = []

take_cached-at :
    (cache : HashMap) (hashes : List B256) (m : HashMap) (k : B256)
    → take_cached cache hashes m k
      ≡ (if contains k hashes && is_some (cache k) then cache k else m k)
unfolding take_cached contains put
take_cached-at cache [] m k = refl
take_cached-at cache (hash ∷ hashes) m k = elim (Option-cases (cache hash)) [
  | inl missing ↦ ground (arith, missing, take_cached-at cache hashes m k)
  | inr (trades, found) ↦ ground (arith, found, take_cached-at cache hashes (put hash trades m) k)
]

pub contains-uncached_of :
    (cache : HashMap) (hashes : List B256) (k : B256)
    → contains k (uncached_of cache hashes) ≡ (contains k hashes && not (is_some (cache k)))
unfolding uncached_of contains
contains-uncached_of cache [] k = refl
contains-uncached_of cache (hash ∷ hashes) k = ground (arith, contains-uncached_of cache hashes k)

store_all-at :
    (fetch : B256 → Result (List OrderTradeEntry)) (hashes : List B256) (cache m : HashMap)
    (k : B256)
    → (store_all fetch hashes (cache, m)).1 k
      ≡ (if contains k hashes then some (trades_or_empty (fetch k)) else m k)
unfolding store_all contains put trades_or_empty
store_all-at fetch [] cache m k = refl
store_all-at fetch (hash ∷ hashes) cache m k = elim (Result-cases (fetch hash)) [
  | inl (e, failed) ↦ ground (arith, failed, store_all-at fetch hashes cache (put hash [] m) k)
  | inr (trades, found) ↦
      ground (arith, found, store_all-at fetch hashes (put hash trades cache) (put hash trades m) k)
]

-- The loops store nothing where nothing is uncached.
pub store_all_if :
    (fetch : B256 → Result (List OrderTradeEntry)) (hashes : List B256) (maps : HashMap × HashMap)
    → (if is_empty hashes then maps else store_all fetch hashes maps) ≡ store_all fetch hashes maps
unfolding store_all
store_all_if fetch [] maps = refl
store_all_if fetch (hash ∷ hashes) maps = refl

-- An answer for the first entry of each hash that is not among `seen`, and none for the others.
unfoldable pub first_answers :
    (B256 → List OrderTradeEntry) → List B256 → List B256 → List TradesBatchEntry
first_answers f seen [] = []
first_answers f seen (hash ∷ hashes) =
    record { order_hash = hash; trades = if contains hash seen then [] else f hash }
    ∷ first_answers f (hash ∷ seen) hashes

batch_entries-first_answers :
    (f : B256 → List OrderTradeEntry) (seen hashes : List B256) (m : HashMap)
    → ((k : B256) → contains k hashes ≡ true → m k ≡ (if contains k seen then none else some (f k)))
    → batch_entries hashes m ≡ first_answers f seen hashes
unfolding batch_entries first_answers remove contains
batch_entries-first_answers f seen [] m h = refl
batch_entries-first_answers f seen (hash ∷ hashes) m h =
    ap₂ (◌∷◌) here (batch_entries-first_answers f (hash ∷ seen) hashes (remove hash m) later)
  where
    here :
        Path TradesBatchEntry
          (record { order_hash = hash; trades = unwrap_or (m hash) [] })
          (record { order_hash = hash; trades = if contains hash seen then [] else f hash })
    here = elim (Bool-cases (contains hash seen)) [
      | inl before ↦
          let gone : m hash ≡ none = ground (arith, h hash (ground arith), before) in
          rw (gone, before) refl
      | inr fresh ↦
          let kept : m hash ≡ some (f hash) = ground (arith, h hash (ground arith), fresh) in
          rw (kept, fresh) refl
    ]

    later :
        (k : B256)
        → contains k hashes ≡ true
        → remove hash m k ≡ (if contains k (hash ∷ seen) then none else some (f k))
    later k c = ground (arith, h k, c)

module _ (X : Raindex) where
  -- The cached trades of a hash, or those of its source, with none for an error.
  unfoldable pub batch_answer :
      BatchDataSource X → HashMap → Option (BatchFetch X) → List B256 → B256 → List OrderTradeEntry
  batch_answer ds cache direct_trades hashes hash = elim (cache hash) [
    | some trades ↦ trades
    | none ↦ trades_or_empty (source_of X ds direct_trades (uncached_of cache hashes) hash)
  ]

  -- The batch answers one entry for each requested hash, in order: the first entry of a hash has
  -- the cached trades, or those of its source where it was not cached, or none where the source
  -- fails; a further entry of the same hash has none.
  pub process_trades_batch-first_answers :
      (ds : BatchDataSource X) (cache : HashMap) (direct_trades : Option (BatchFetch X))
      (hashes : List B256)
      → (process_trades_batch X ds cache direct_trades hashes).0
        ≡ first_answers (batch_answer ds cache direct_trades hashes) [] hashes
  unfolding process_trades_batch batch_answer contains
  process_trades_batch-first_answers ds cache direct_trades hashes = rw store_all_if (
      batch_entries-first_answers (batch_answer ds cache direct_trades hashes) [] hashes
        (store_all fetch uncached (cache, cached)).1 filled)
    where
      uncached : List B256
      uncached = uncached_of cache hashes

      fetch : B256 → Result (List OrderTradeEntry)
      fetch = source_of X ds direct_trades uncached

      cached : HashMap
      cached = take_cached cache hashes (λ _. none)

      filled :
          (k : B256)
          → contains k hashes ≡ true
          → (store_all fetch uncached (cache, cached)).1 k
            ≡ some (batch_answer ds cache direct_trades hashes k)
      filled k c = ground (
        arith,
        c,
        store_all-at fetch uncached cache cached k,
        contains-uncached_of cache hashes k,
        take_cached-at cache hashes (λ _. none) k,
      )

  map-first_answers :
      (f : B256 → List OrderTradeEntry) (seen hashes : List B256)
      → map (λ e. e.order_hash) (first_answers f seen hashes) ≡ hashes
  unfolding first_answers
  map-first_answers f seen [] = refl
  map-first_answers f seen (hash ∷ hashes) =
      ap (◌∷◌ hash) (map-first_answers f (hash ∷ seen) hashes)

  -- A request of at most 50 hashes is answered, whatever fails, with one entry for each of them, in
  -- order.
  pub post_trades_batch-ok :
      (ds : BatchDataSource X) (cache : HashMap) (direct_trades : Option (BatchFetch X))
      (hashes : List B256)
      → length hashes ≤ 50
      → (entries : List TradesBatchEntry) × ((post_trades_batch X ds cache direct_trades hashes).0
          ≡ ok entries)
        × (map (λ e. e.order_hash) entries ≡ hashes)
  unfolding post_trades_batch
  post_trades_batch-ok ds cache direct_trades [] h = ([], refl, refl)
  post_trades_batch-ok ds cache direct_trades (hash ∷ hashes) h =
      let all = hash ∷ hashes in
      let small : ltb 50 (length all) ≡ false = ground arith in
      (
        (process_trades_batch X ds cache direct_trades all).0,
        rw small refl,
        ap (map (λ e. e.order_hash)) (process_trades_batch-first_answers ds cache direct_trades all)
            ∙ map-first_answers (batch_answer ds cache direct_trades all) [] all,
      )

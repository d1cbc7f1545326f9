-- ===== src/Trades/Batch/Fresh.antt =====
-- The cache of `process_trades_batch` of src/routes/trades.rs, where the fetcher answers each hash
-- of a query by itself.
use albion_rest_api.Base.{
  ◌≡◌, refl, sym, ap, ◌∙◌, true, ltb, length, Option, none, some, List, [], ◌∷◌, ◌==◌,
  if◌then◌else◌, is_empty, unwrap_or, arith, Bool-cases, Option-cases, inl, inr,
}
use albion_rest_api.Error.{Result, ok, err, Result-cases}
use albion_rest_api.Raindex.{Raindex, B256}
use albion_rest_api.Cache.{Fetch, empty_cache}
use albion_rest_api.Cache.Keys.{nat_eq}
use albion_rest_api.Cache.Transparent.{IsFresh, empty-IsFresh}
use albion_rest_api.Trades.Batch.{
  OrderTradeEntry, HashMap, put, uncached_of, store_all, BatchDataSource, BatchFetch,
  fetch_trades_for_hash, source_of, process_trades_batch, post_trades_batch,
}
use albion_rest_api.Trades.Batch.Answers.{
  contains, trades_or_empty, first_answers, batch_answer, store_all_if, contains-uncached_of,
  process_trades_batch-first_answers,
}

first_answers_ext :
    (f g : B256 → List OrderTradeEntry) (seen hashes : List B256)
    → ((k : B256) → contains k hashes ≡ true → f k ≡ g k)
    → first_answers f seen hashes ≡ first_answers g seen hashes
unfolding first_answers contains
first_answers_ext f g seen [] h = refl
first_answers_ext f g seen (hash ∷ hashes) h =
    let here : f hash ≡ g hash = h hash (ground arith) in
    rw here (
      ap (◌∷◌ (record { order_hash = hash; trades = if contains hash seen then [] else g hash }))
        (first_answers_ext f g (hash ∷ seen) hashes (λ k c. h k (ground (arith, c)))))

module _ (X : Raindex) where
  -- What a query answers for one of its hashes.
  unfoldable pub fetched : BatchFetch X → List B256 → B256 → Option (List OrderTradeEntry)
  fetched batch_fetch hashes k = elim (batch_fetch hashes) [
    | err _ ↦ none
    | ok batch_result ↦ some (unwrap_or (batch_result k) [])
  ]

  -- It does not depend on the other hashes.
  unfoldable pub IsPointwise : BatchFetch X → Type 0
  IsPointwise batch_fetch =
      (hashes : List B256) (k : B256)
      → contains k hashes ≡ true
      → fetched batch_fetch hashes k ≡ fetched batch_fetch (k ∷ []) k

  unfoldable pub IsPointwiseIfAny : Option (BatchFetch X) → Type 0
  IsPointwiseIfAny none = Unit {0}
  IsPointwiseIfAny (some batch_fetch) = IsPointwise batch_fetch

  or_library :
      BatchDataSource X → B256 → Option (List OrderTradeEntry) → Result (List OrderTradeEntry)
  or_library ds k none = fetch_trades_for_hash X ds k
  or_library ds k (some trades) = ok trades

  source_of-fetched :
      (ds : BatchDataSource X) (batch_fetch : BatchFetch X) (hashes : List B256) (k : B256)
      → source_of X ds (some batch_fetch) hashes k ≡ or_library ds k (fetched batch_fetch hashes k)
  unfolding source_of fetched or_library
  source_of-fetched ds batch_fetch hashes k = elim (Result-cases (batch_fetch hashes)) [
    | inl (e, failed) ↦ rw (source_of, fetched, or_library, failed) refl
    | inr (r, came) ↦ rw (source_of, fetched, or_library, came) refl
  ]

  -- What the source answers for a hash that is asked for alone.
  unfoldable pub lone_answer :
      BatchDataSource X → Option (BatchFetch X) → B256 → Fetch (List OrderTradeEntry)
  lone_answer ds direct_trades k = some (source_of X ds direct_trades (k ∷ []) k)

  source_of-lone :
      (ds : BatchDataSource X) (direct_trades : Option (BatchFetch X))
      → IsPointwiseIfAny direct_trades
      → (hashes : List B256) (k : B256) → contains k hashes ≡ true
      → source_of X ds direct_trades hashes k ≡ source_of X ds direct_trades (k ∷ []) k
  unfolding source_of IsPointwiseIfAny IsPointwise
  source_of-lone ds none point hashes k c = refl
  source_of-lone ds (some batch_fetch) point hashes k c =
      source_of-fetched ds batch_fetch hashes k
      ∙ ap (or_library ds k) (point hashes k c)
      ∙ sym (source_of-fetched ds batch_fetch (k ∷ []) k)

  module _ (ds : BatchDataSource X) (direct_trades : Option (BatchFetch X))
      (point : IsPointwiseIfAny direct_trades) where
    abbrev IsBatchFresh : HashMap → Type 0
    IsBatchFresh cache = IsFresh (lone_answer ds direct_trades) cache

    put-IsFresh :
        (hash : B256) (trades : List OrderTradeEntry) (cache : HashMap)
        → IsBatchFresh cache
        → lone_answer ds direct_trades hash ≡ some (ok trades)
        → IsBatchFresh (put hash trades cache)
    unfolding put IsFresh
    put-IsFresh hash trades cache fresh h k v found = elim (Bool-cases (k == hash)) [
      | inl same ↦
          let at : k ≡ hash = ground (arith, same) in
          let is : trades ≡ v = ground (arith, same, found) in rw (at, ← is) h
      | inr other ↦ fresh k v (ground (arith, other, found))
    ]

    store_all-IsFresh :
        (fetch : B256 → Result (List OrderTradeEntry)) (hashes : List B256) (cache m : HashMap)
        → ((k : B256) → contains k hashes ≡ true → lone_answer ds direct_trades k ≡ some (fetch k))
        → IsBatchFresh cache
        → IsBatchFresh (store_all fetch hashes (cache, m)).0
    unfolding store_all contains put
    store_all-IsFresh fetch [] cache m h fresh = fresh
    store_all-IsFresh fetch (hash ∷ hashes) cache m h fresh =
        let later : (k : B256)
            → contains k hashes ≡ true
            → lone_answer ds direct_trades k ≡ some (fetch k) =
          λ k c. h k (ground (arith, c)) in
        elim (Result-cases (fetch hash)) [
          | inl (e, failed) ↦
              rw (store_all, failed)
                (store_all-IsFresh fetch hashes cache (put hash [] m) later fresh)
          | inr (trades, came) ↦
              rw (store_all, came)
                (store_all-IsFresh fetch hashes (put hash trades cache) (put hash trades m) later
                  (put-IsFresh hash trades cache fresh (h hash (ground arith) ∙ ap some came)))
        ]

    process_trades_batch-IsFresh :
        (cache : HashMap) (hashes : List B256)
        → IsBatchFresh cache
        → IsBatchFresh (process_trades_batch X ds cache direct_trades hashes).1
    unfolding process_trades_batch lone_answer
    process_trades_batch-IsFresh cache hashes fresh = rw store_all_if (
        store_all-IsFresh (source_of X ds direct_trades (uncached_of cache hashes))
          (uncached_of cache hashes) cache _
          (λ k c.
            ap some (sym (source_of-lone ds direct_trades point (uncached_of cache hashes) k c)))
          fresh)

    batch_answer-lone :
        (cache : HashMap) (hashes : List B256)
        → IsBatchFresh cache
        → (k : B256) → contains k hashes ≡ true
        → batch_answer X ds cache direct_trades hashes k
          ≡ trades_or_empty (source_of X ds direct_trades (k ∷ []) k)
    unfolding batch_answer trades_or_empty lone_answer IsFresh contains
    batch_answer-lone cache hashes fresh k c = elim (Option-cases (cache k)) [
      | inr (trades, hit) ↦
          let is : Path (Fetch (List OrderTradeEntry))
              (some (source_of X ds direct_trades (k ∷ []) k)) (some (ok trades)) =
            fresh k trades hit in
          let at : source_of X ds direct_trades (k ∷ []) k ≡ ok trades = cc in
          rw (batch_answer, hit, at, trades_or_empty) refl
      | inl miss ↦
          rw (batch_answer, miss)
            (ap trades_or_empty (
              source_of-lone ds direct_trades point (uncached_of cache hashes) k
                (ground (arith, contains-uncached_of cache hashes k, c, miss))))
    ]

    process_trades_batch-direct :
        (cache : HashMap) (hashes : List B256)
        → IsBatchFresh cache
        → (process_trades_batch X ds cache direct_trades hashes).0
          ≡ (process_trades_batch X ds empty_cache direct_trades hashes).0
    process_trades_batch-direct cache hashes fresh =
        process_trades_batch-first_answers X ds cache direct_trades hashes
        ∙ first_answers_ext _ _ [] hashes (λ k c.
          batch_answer-lone cache hashes fresh k c
          ∙ sym (batch_answer-lone empty_cache hashes (empty-IsFresh _) k c))
        ∙ sym (process_trades_batch-first_answers X ds empty_cache direct_trades hashes)

    -- Whatever fresh entries the cache has, the answer is as without it.
    pub post_trades_batch-direct :
        (cache : HashMap) (hashes : List B256)
        → IsBatchFresh cache
        → ((post_trades_batch X ds cache direct_trades hashes).0
            ≡ (post_trades_batch X ds empty_cache direct_trades hashes).0)
          × IsBatchFresh (post_trades_batch X ds cache direct_trades hashes).1
    unfolding post_trades_batch
    post_trades_batch-direct cache hashes fresh = elim (Bool-cases (is_empty hashes)) [
      | inl none_asked ↦ rw (post_trades_batch, none_asked) (refl, fresh)
      | inr asked ↦ elim (Bool-cases (ltb 50 (length hashes))) [
        | inl many ↦ rw (post_trades_batch, asked, many) (refl, fresh)
        | inr few ↦
            rw (post_trades_batch, asked, few)
              (
                ap ok (process_trades_batch-direct cache hashes fresh),
                process_trades_batch-IsFresh cache hashes fresh,
              )
      ]
    ]

-- ===== src/Trades/Fetcher/Rows.antt =====
-- What `batch_fetch` of src/direct_trades.rs makes of the rows of its query.
use albion_rest_api.Base.{
  ◌≡◌, refl, sym, ap, ◌∙◌, false, Bool-cases, none, some, List, [], ◌∷◌, ◌++◌, map, if◌then◌else◌,
  is_empty, inl, inr, ◌==◌, ==_iff, unwrap_or,
}
use albion_rest_api.Error.{ok, err, or_internal, Result-cases}
use albion_rest_api.Raindex.{Raindex, B256}
use albion_rest_api.Trades.Batch.{OrderTradeEntry, HashMap, put}
use albion_rest_api.Trades.Fetcher.{
  RawTradeRow, Connection, push_entry, convert_raw_trade, collect_trades, batch_fetch,
}

-- A map with nothing under a key stands for an empty list there.
unfoldable pub found_at : HashMap → B256 → List OrderTradeEntry
found_at m hash = unwrap_or (m hash) []

module _ (X : Raindex) (conn : Connection X) where
  -- The entries of the rows that convert and are of this order, in the order of the rows.
  unfoldable pub entries_of : B256 → List RawTradeRow → List OrderTradeEntry
  entries_of hash [] = []
  entries_of hash (raw ∷ raws) = elim (convert_raw_trade X conn raw) [
    | err _ ↦ entries_of hash raws
    | ok (h, entry) ↦ let rest = entries_of hash raws in if hash == h then entry ∷ rest else rest
  ]

  append_assoc : {A : Type 0} (xs ys zs : List A) → (xs ++ ys) ++ zs ≡ xs ++ (ys ++ zs)
  append_assoc [] ys zs = refl
  append_assoc (x ∷ xs) ys zs = ap (λ l. x ∷ l) (append_assoc xs ys zs)

  append_nil : {A : Type 0} (xs : List A) → xs ++ [] ≡ xs
  append_nil [] = refl
  append_nil (x ∷ xs) = ap (λ l. x ∷ l) (append_nil xs)

  found_at-push_entry :
      (h : B256) (entry : OrderTradeEntry) (m : HashMap) (hash : B256) (rest : List OrderTradeEntry)
      → found_at (push_entry h entry m) hash ++ rest
        ≡ found_at m hash ++ (if hash == h then entry ∷ rest else rest)
  unfolding found_at push_entry put
  found_at-push_entry h entry m hash rest = elim (Bool-cases (hash == h)) [
    | inl same ↦
        let at : hash ≡ h = (==_iff hash h).0 same in
        rw (same, at) (append_assoc (unwrap_or (m h) []) (entry ∷ []) rest)
    | inr other ↦ rw other refl
  ]

  collect_trades-entries_of :
      (raws : List RawTradeRow) (m : HashMap)
      → (result : HashMap) × (collect_trades X conn (map some raws) m ≡ ok result)
        × ((hash : B256) → found_at result hash ≡ found_at m hash ++ entries_of hash raws)
  unfolding collect_trades entries_of
  collect_trades-entries_of [] m = (m, refl, λ hash. sym (append_nil (found_at m hash)))
  collect_trades-entries_of (raw ∷ raws) m = elim (Result-cases (convert_raw_trade X conn raw)) [
    | inl (e, failed) ↦ rw (collect_trades, entries_of, failed) (collect_trades-entries_of raws m)
    | inr ((h, entry), converted) ↦
        let (result, ran, holds) = collect_trades-entries_of raws (push_entry h entry m) in
        (
          result,
          rw (collect_trades, converted) ran,
          λ hash.
              holds hash
              ∙ rw (entries_of, converted)
                  (found_at-push_entry h entry m hash (entries_of hash raws)),
        )
  ]

  -- If the query for some orders answers rows that can all be read, then the fetch succeeds, and has
  -- for every order the entries of the rows that convert and are of that order, in the order of the
  -- rows.
  pub batch_fetch-entries_of :
      (hashes : List B256) (raws : List RawTradeRow)
      → is_empty hashes ≡ false
      → conn.query_trades (map conn.show_hash hashes) ≡ some (map some raws)
      → (result : HashMap) × (batch_fetch X conn hashes ≡ ok result)
        × ((hash : B256) → found_at result hash ≡ entries_of hash raws)
  unfolding batch_fetch or_internal found_at
  batch_fetch-entries_of hashes raws asked answered =
      let (result, ran, holds) = collect_trades-entries_of raws (λ _. none) in
      (result, rw (batch_fetch, asked, answered, or_internal) ran, holds)

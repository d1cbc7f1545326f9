-- ===== src/Trades/Client.antt =====
-- `RaindexTradesDataSource` of src/routes/trades.rs.
use Prim.Native.String.{String}
use albion_rest_api.Base.{
  ◌≡◌, ◌↔◌, refl, Bool, true, false, Option, none, some, List, [], ◌∷◌, ◌++◌, map, if◌then◌else◌,
  All,
}
use albion_rest_api.Error.{Result, ok, err, internal, ◌>>=◌, or_internal}
use albion_rest_api.Raindex.{Raindex, B256}
use albion_rest_api.Raindex.Client.{
  RaindexClient, no_liquidity, insufficient_liquidity, same_token_pair, non_positive_amount,
  negative_price_cap, from_hex_error, float_error, preflight_error, order_not_found,
  transaction_indexing_timeout, other_error, Fallible, answer, failure, Orderbook,
}
use albion_rest_api.Trades.{TradeWithOwner, TradesDataSource}
use albion_rest_api.Trades.Tx.{TxIndexState, indexed, still_unindexed, TxDataSource}
use albion_rest_api.Trades.Batch.{BatchDataSource}

-- What `check_tx_index_state` does with an answer; the last argument is what follows.
unfoldable pub after_lookup : Fallible (Unit {0}) → Result TxIndexState → Result TxIndexState
after_lookup (answer _) rest = ok indexed
after_lookup (failure transaction_indexing_timeout) rest = rest
after_lookup (failure _) rest = err (internal "failed to query transaction")

after_lookup-still_unindexed :
    (a : Fallible (Unit {0})) (rest : Result TxIndexState)
    → after_lookup a rest ≡ ok still_unindexed
    → (a ≡ failure transaction_indexing_timeout) × (rest ≡ ok still_unindexed)
unfolding after_lookup
after_lookup-still_unindexed (failure transaction_indexing_timeout) rest h = (refl, h)
after_lookup-still_unindexed (answer _) rest h = absurd cc
after_lookup-still_unindexed (failure no_liquidity) rest h = absurd cc
after_lookup-still_unindexed (failure insufficient_liquidity) rest h = absurd cc
after_lookup-still_unindexed (failure (same_token_pair _)) rest h = absurd cc
after_lookup-still_unindexed (failure (non_positive_amount _)) rest h = absurd cc
after_lookup-still_unindexed (failure (negative_price_cap _)) rest h = absurd cc
after_lookup-still_unindexed (failure (from_hex_error _)) rest h = absurd cc
after_lookup-still_unindexed (failure (float_error _)) rest h = absurd cc
after_lookup-still_unindexed (failure (preflight_error _)) rest h = absurd cc
after_lookup-still_unindexed (failure order_not_found) rest h = absurd cc
after_lookup-still_unindexed (failure other_error) rest h = absurd cc

module _ (X : Raindex) (client : RaindexClient X) where
  open X use {RaindexOrder, RaindexTrade}

  -- The loop of `find_order_by_hash`: every error goes on to the next orderbook.
  unfoldable pub find_in : B256 → List Orderbook → Option RaindexOrder
  find_in hash [] = none
  find_in hash (orderbook ∷ orderbooks) = elim (client.get_order_by_hash orderbook hash) [
    | answer order ↦ some order
    | failure _ ↦ find_in hash orderbooks
  ]

  unfoldable pub find_order_by_hash : B256 → Result (Option RaindexOrder)
  find_order_by_hash hash =
      or_internal "failed to get orderbooks" client.get_all_orderbooks >>= λ orderbooks.
      ok (find_in hash orderbooks)

  -- The loop over `trade_results`.
  unfoldable pub trades_in : B256 → List Orderbook → Result (List (TradeWithOwner X))
  trades_in tx_hash [] = ok []
  trades_in tx_hash (orderbook ∷ orderbooks) =
      or_internal "failed to query trades" (client.get_transaction_trades orderbook tx_hash)
      >>= λ trades. trades_in tx_hash orderbooks >>= λ rest.
          ok (map (λ (owner, trade). record { owner = owner; trade = trade }) trades ++ rest)

  unfoldable pub get_trades_by_tx : B256 → Result (List (TradeWithOwner X))
  get_trades_by_tx tx_hash =
      or_internal "failed to query trades" client.get_all_orderbooks >>= λ orderbooks.
      trades_in tx_hash orderbooks

  -- The loop of `check_tx_index_state`, with `saw_timeout`.
  unfoldable pub index_state : B256 → List Orderbook → Bool → Result TxIndexState
  index_state tx_hash [] saw_timeout = if saw_timeout then ok still_unindexed else ok indexed
  index_state tx_hash (orderbook ∷ orderbooks) saw_timeout =
      let rest = index_state tx_hash orderbooks true in
      after_lookup (client.get_transaction orderbook tx_hash) rest

  unfoldable pub check_tx_index_state : B256 → Result TxIndexState
  check_tx_index_state tx_hash =
      or_internal "failed to get orderbooks" client.get_all_orderbooks >>= λ orderbooks.
      index_state tx_hash orderbooks false

  unfoldable pub raindex_trades_source : TradesDataSource X
  raindex_trades_source = record {
    get_orders = λ filters page page_size.
        or_internal "failed to query orders" (client.get_orders filters page page_size);
    get_order_trades = λ order start_time end_time.
        or_internal "failed to query order trades"
          (client.get_trades_list order start_time end_time);
  }

  unfoldable pub raindex_tx_source : (B256 → String) → TxDataSource X
  raindex_tx_source show_hash = record {
    get_trades_by_tx = get_trades_by_tx;
    check_tx_index_state = check_tx_index_state;
    show_hash = show_hash;
  }

  unfoldable pub raindex_batch_source : BatchDataSource X
  raindex_batch_source = record {
    find_order_by_hash = find_order_by_hash;
    get_order_trades = λ order start_time end_time.
        or_internal "failed to query order trades"
          (client.get_trades_list order start_time end_time);
  }

  -- The transaction is not in the index of the orderbook yet.
  abbrev pub IsTimeout : B256 → Orderbook → Type 0
  IsTimeout tx_hash orderbook =
      client.get_transaction orderbook tx_hash ≡ failure transaction_indexing_timeout

  index_state-IsTimeout :
      (tx_hash : B256) (orderbooks : List Orderbook) (saw : Bool)
      → index_state tx_hash orderbooks saw ≡ ok still_unindexed
      → All (IsTimeout tx_hash) orderbooks
  unfolding index_state
  index_state-IsTimeout tx_hash [] saw h = tt
  index_state-IsTimeout tx_hash (ob ∷ obs) saw h =
      let (late, rest) = after_lookup-still_unindexed _ _ h in
      (late, index_state-IsTimeout tx_hash obs true rest)

  index_state_of_timeouts :
      (tx_hash : B256) (orderbooks : List Orderbook)
      → All (IsTimeout tx_hash) orderbooks
      → index_state tx_hash orderbooks true ≡ ok still_unindexed
  unfolding index_state after_lookup
  index_state_of_timeouts tx_hash [] h = refl
  index_state_of_timeouts tx_hash (ob ∷ obs) (h, hs) =
      rw (index_state, after_lookup, h) (index_state_of_timeouts tx_hash obs hs)

  -- There are orderbooks, and each of them timed out.
  unfoldable pub AllTimeOut : B256 → Type 0
  AllTimeOut tx_hash =
      (ob : Orderbook) × (obs : List Orderbook) × (client.get_all_orderbooks ≡ some (ob ∷ obs))
      × All (IsTimeout tx_hash) (ob ∷ obs)

  -- A transaction without trades is held to be not indexed yet exactly if there is an orderbook, and
  -- at every one of them the look-up of the transaction times out.
  pub check_tx_index_state-AllTimeOut_iff :
      (tx_hash : B256) → (check_tx_index_state tx_hash ≡ ok still_unindexed) ↔ AllTimeOut tx_hash
  unfolding check_tx_index_state AllTimeOut or_internal index_state after_lookup
  check_tx_index_state-AllTimeOut_iff tx_hash = (to, from)
    where
      listed :
          (found : Option (List Orderbook))
          → or_internal "failed to get orderbooks" found
              >>= (λ orderbooks. index_state tx_hash orderbooks false)
            ≡ ok still_unindexed
          → (ob : Orderbook) × (obs : List Orderbook) × (found ≡ some (ob ∷ obs))
            × All (IsTimeout tx_hash) (ob ∷ obs)
      listed none h = absurd cc
      listed (some []) h = absurd cc
      listed (some (ob ∷ obs)) h = (ob, obs, refl, index_state-IsTimeout tx_hash (ob ∷ obs) false h)

      to : check_tx_index_state tx_hash ≡ ok still_unindexed → AllTimeOut tx_hash
      to h = listed client.get_all_orderbooks h

      from : AllTimeOut tx_hash → check_tx_index_state tx_hash ≡ ok still_unindexed
      from (ob, obs, found, (late, rest)) =
          rw (found, or_internal, index_state, after_lookup, late)
            (index_state_of_timeouts tx_hash obs rest)

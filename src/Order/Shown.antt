-- ===== src/Order/Shown.antt =====
-- What `process_get_order` of src/routes/order/get_order.rs shows of an order.
use Prim.Native.String.{String}
use mathlib.Core.Path.{subst}
use albion_rest_api.Base.{
  ◌≡◌, ◌↔◌, ◌⊎◌, inl, inr, refl, sym, ap, ◌∙◌, Option, none, some, List, [], ◌∷◌, map, unwrap_or,
  Option-cases,
}
use albion_rest_api.Error.{Result, ok, err, internal, ◌>>=◌, >>=-ok_iff}
use albion_rest_api.Raindex.{Raindex, B256}
use albion_rest_api.Vaults.{resolve_io_vaults, ok_or}
use albion_rest_api.Vaults.Laws.{first_input, first_output, resolve_io_vaults-find_first}
use albion_rest_api.Orders.Types.{token_ref, u64_or_zero}
use albion_rest_api.Orders.Kind.{determine_order_type}
use albion_rest_api.Trades.Batch.{map_trade}
use albion_rest_api.Order.{OrderDataSource, first_or_missing}
use albion_rest_api.Order.Found.{first_or_missing-ok}
use albion_rest_api.Order.Detail.{
  OrderDetail, detail_of, build_order_detail, first_ratio, process_get_order,
}

module _ (X : Raindex) where
  open X use {RaindexOrder, RaindexOrderQuote, RaindexVault, RaindexTrade, formatted_ratio}

  abbrev pair_or_error :
      Option RaindexVault → Option RaindexVault → Result (RaindexVault × RaindexVault)
  pair_or_error a b = ok_or a (err (internal "order has no input vaults")) >>= λ i.
      ok_or b (err (internal "order has no output vaults")) >>= λ o. ok (i, o)

  both-ok_iff :
      (a b : Option RaindexVault) (i o : RaindexVault)
      → (pair_or_error a b ≡ ok (i, o)) ↔ ((a ≡ some i) × (b ≡ some o))
  both-ok_iff none b i o = (λ h. absurd cc, λ h. absurd cc)
  both-ok_iff (some a) none i o = (λ h. absurd cc, λ h. absurd cc)
  both-ok_iff (some a) (some b) i o = (
    λ h.
        let pair : Path (RaindexVault × RaindexVault) (a, b) (i, o) = cc in
        (ap (λ p. some (p.0)) pair, ap (λ p. some (p.1)) pair),
    λ (p, q). let left : a ≡ i = cc in let right : b ≡ o = cc in rw (left, right) refl,
  )

  resolve_io_vaults-ok_iff :
      (order : RaindexOrder) (i o : RaindexVault)
      → (resolve_io_vaults X order ≡ ok (i, o)) ↔ (
          (first_input X (X.vaults_list order) ≡ some i)
          × (first_output X (X.vaults_list order) ≡ some o))
  resolve_io_vaults-ok_iff order i o =
      rw (resolve_io_vaults-find_first X order) (
        both-ok_iff (first_input X (X.vaults_list order)) (first_output X (X.vaults_list order)) i
          o)

  -- The ratio that is shown: of the first quote, or a dash if there is none or it has none.
  unfoldable pub IsRatio : List RaindexOrderQuote → String → Type 0
  IsRatio [] ratio = ratio ≡ "-"
  IsRatio (quote ∷ _) ratio =
      (formatted_ratio quote ≡ some ratio) ⊎ ((formatted_ratio quote ≡ none) × (ratio ≡ "-"))

  first_ratio-IsRatio : (quotes : List RaindexOrderQuote) → IsRatio quotes (first_ratio X quotes)
  unfolding first_ratio IsRatio
  first_ratio-IsRatio [] = refl
  first_ratio-IsRatio (quote ∷ quotes) = elim (Option-cases (formatted_ratio quote)) [
    | inl unknown ↦ rw unknown (inr (refl, refl))
    | inr (ratio, known) ↦ rw known (inl refl)
  ]

  IsRatio-first_ratio :
      (quotes : List RaindexOrderQuote) (ratio : String)
      → IsRatio quotes ratio
      → first_ratio X quotes ≡ ratio
  unfolding first_ratio IsRatio
  IsRatio-first_ratio [] ratio is = sym is
  IsRatio-first_ratio (quote ∷ quotes) ratio (inl known) = rw known refl
  IsRatio-first_ratio (quote ∷ quotes) ratio (inr (unknown, dash)) = rw unknown (sym dash)

  -- What the detail of an order is made from, and what it shows.
  unfoldable pub IsDetail : OrderDataSource X → B256 → OrderDetail → Type 0
  IsDetail ds hash detail =
      (order : RaindexOrder) × (rest : List RaindexOrder) × (quotes : List RaindexOrderQuote)
      × (trades : List RaindexTrade) × (i : RaindexVault) × (o : RaindexVault)
      × (ds.get_orders_by_hash hash ≡ ok (order ∷ rest))
      × (ds.get_order_quotes order ≡ ok quotes)
      × (ds.get_order_trades order ≡ ok trades)
      × (first_input X (X.vaults_list order) ≡ some i)
      × (first_output X (X.vaults_list order) ≡ some o)
      × IsRatio quotes detail.io_ratio
      × (detail ≡ record {
        order_hash = X.order_hash order;
        owner = X.owner order;
        order_bytes = X.order_bytes order;
        order_details = record { type_ = determine_order_type X order; io_ratio = detail.io_ratio };
        input_token = record {
          address = X.address (X.token i);
          symbol = unwrap_or (X.symbol (X.token i)) "";
          decimals = X.decimals (X.token i);
        };
        output_token = record {
          address = X.address (X.token o);
          symbol = unwrap_or (X.symbol (X.token o)) "";
          decimals = X.decimals (X.token o);
        };
        input_vault_id = X.vault_id i;
        output_vault_id = X.vault_id o;
        input_vault_balance = X.formatted_balance i;
        output_vault_balance = X.formatted_balance o;
        io_ratio = detail.io_ratio;
        created_at = u64_or_zero (X.timestamp_added order);
        orderbook_id = X.orderbook order;
        trades =
            map
              (λ trade. record {
                id = X.trade_id trade;
                tx_hash = (X.transaction trade).id;
                input_amount = (X.input_change trade).formatted_amount;
                output_amount = (X.output_change trade).formatted_amount;
                timestamp = u64_or_zero (X.trade_timestamp trade);
                sender = (X.transaction trade).from;
              })
              trades;
      })

  -- An order is answered with a detail exactly when the query by its hash finds it first, its quotes
  -- and its trades are answered, and it has vaults of both directions; the detail then shows the
  -- tokens, the ids and the balances of the first vault of each direction, the ratio of the first
  -- quote or a dash if there is none, the fields of the order, and all the trades in their order
  -- with their transaction, sender, amounts and time.
  pub process_get_order-ok_iff :
      (ds : OrderDataSource X) (hash : B256) (detail : OrderDetail)
      → (process_get_order X ds hash ≡ ok detail) ↔ IsDetail ds hash detail
  unfolding process_get_order build_order_detail IsDetail first_or_missing detail_of token_ref
      map_trade
  process_get_order-ok_iff ds hash detail = (
    λ h.
        let (orders, found, h1) =
          (>>=-ok_iff (ds.get_orders_by_hash hash) from_orders detail).0 h in
        let (order, head, h2) = (>>=-ok_iff (first_or_missing orders) from_order detail).0 h1 in
        let (quotes, quoted, h3) =
          (>>=-ok_iff (ds.get_order_quotes order) (from_quotes order) detail).0 h2 in
        let (trades, traded, h4) =
          (>>=-ok_iff (ds.get_order_trades order) (from_trades order quotes) detail).0 h3 in
        let ((i, o), resolved, h5) =
          (>>=-ok_iff (resolve_io_vaults X order) (from_vaults order quotes trades) detail).0 h4 in
        let (rest, split) = first_or_missing-ok orders order head in
        let (left, right) = (resolve_io_vaults-ok_iff order i o).0 resolved in
        (
          order,
          rest,
          quotes,
          trades,
          i,
          o,
          found ∙ ap ok split,
          quoted,
          traded,
          left,
          right,
          subst (IsRatio quotes) (ap (λ d. d.io_ratio) (is order quotes trades (i, o) h5))
              (first_ratio-IsRatio quotes),
          sym (is order quotes trades (i, o) h5)
              ∙ ap (λ r. shown order r trades (i, o))
                  (ap (λ d. d.io_ratio) (is order quotes trades (i, o) h5)),
        ),
    λ (order, rest, quotes, trades, i, o, found, quoted, traded, left, right, ratio, e).
        let resolved = (resolve_io_vaults-ok_iff order i o).1 (left, right) in
        rw (found, first_or_missing, quoted, traded, resolved)
          (ap ok (
            ap (λ r. shown order r trades (i, o)) (IsRatio-first_ratio quotes detail.io_ratio ratio)
            ∙ sym e)),
  )
    where
      shown : RaindexOrder → String → List RaindexTrade → RaindexVault × RaindexVault → OrderDetail
      shown order = detail_of X order (determine_order_type X order)

      from_vaults :
          RaindexOrder
          → List RaindexOrderQuote
          → List RaindexTrade
          → RaindexVault × RaindexVault
          → Result OrderDetail
      from_vaults order quotes trades vaults =
          ok (detail_of X order (determine_order_type X order) (first_ratio X quotes) trades vaults)

      is :
          (order : RaindexOrder) (quotes : List RaindexOrderQuote) (trades : List RaindexTrade)
          (vaults : RaindexVault × RaindexVault)
          → from_vaults order quotes trades vaults ≡ ok detail
          → shown order (first_ratio X quotes) trades vaults ≡ detail
      is order quotes trades vaults h = cc

      from_trades : RaindexOrder → List RaindexOrderQuote → List RaindexTrade → Result OrderDetail
      from_trades order quotes trades =
          resolve_io_vaults X order >>= from_vaults order quotes trades

      from_quotes : RaindexOrder → List RaindexOrderQuote → Result OrderDetail
      from_quotes order quotes = ds.get_order_trades order >>= from_trades order quotes

      from_order : RaindexOrder → Result OrderDetail
      from_order order = ds.get_order_quotes order >>= from_quotes order

      from_orders : List RaindexOrder → Result OrderDetail
      from_orders orders = first_or_missing orders >>= from_order

-- ===== src/Orders/Source.antt =====
-- `get_order_quotes_batch` of src/routes/orders/mod.rs.
use albion_rest_api.Base.{
  ℕ, suc, Option, none, some, List, [], ◌∷◌, ◌++◌, map, ltb, ◌==◌, if◌then◌else◌, is_empty, length,
  set, replicate, unwrap_or,
}
use albion_rest_api.Error.{Result, ok, err, internal}
use albion_rest_api.Raindex.{Raindex}

module _ (X : Raindex) where
  open X use {RaindexOrder, RaindexOrderQuote, chain_id}

  abbrev pub Quotes : Type 0
  Quotes = Result (List RaindexOrderQuote)

  -- `RaindexOrder::get_quotes`, and `get_order_quotes_batch` of the order_quotes module.
  pub record QuoteClient : Type 0 where
    pub get_quotes : RaindexOrder → Option (List RaindexOrderQuote)
    pub fetch_order_quotes_batch : List RaindexOrder → Option (List (List RaindexOrderQuote))

  abbrev pub quote_failed : Quotes
  quote_failed = err (internal "failed to query order quotes")

  unfoldable pub get_order_quotes : QuoteClient → RaindexOrder → Quotes
  get_order_quotes client order = elim (client.get_quotes order) [
    | none ↦ quote_failed
    | some quotes ↦ ok quotes
  ]

  abbrev pub Group : Type 0
  Group = List (ℕ × RaindexOrder)

  -- `entry(chain_id).or_default().push(…)` of the `BTreeMap`, which is kept in ascending order.
  unfoldable pub insert_group : ℕ → ℕ × RaindexOrder → List (ℕ × Group) → List (ℕ × Group)
  insert_group chain e [] = (chain, e ∷ []) ∷ []
  insert_group chain e ((c, g) ∷ gs) =
      let later = insert_group chain e gs in
      if c == chain
      then (c, g ++ e ∷ []) ∷ gs
      else if ltb chain c
      then (chain, e ∷ []) ∷ (c, g) ∷ gs
      else (c, g) ∷ later

  -- The loop over `enumerate`.
  unfoldable pub group_orders : ℕ → List RaindexOrder → List (ℕ × Group) → List (ℕ × Group)
  group_orders i [] gs = gs
  group_orders i (o ∷ os) gs = group_orders (suc i) os (insert_group (chain_id o) (i, o) gs)

  abbrev pub Slots : Type 0
  Slots = List (Option Quotes)

  -- `for ((index, _), quotes) in indexed_orders.into_iter().zip(…)`.
  unfoldable pub scatter : Group → List Quotes → Slots → Slots
  scatter ((i, o) ∷ g) (q ∷ qs) slots = scatter g qs (set slots i (some q))
  scatter g qs slots = slots

  -- The quotes of one group: of the batch, or one order at a time where that failed.
  unfoldable pub group_quotes : QuoteClient → Group → List Quotes
  group_quotes client g = elim (client.fetch_order_quotes_batch (map (λ e. e.1) g)) [
    | some group ↦ map ok group
    | none ↦ map (λ e. get_order_quotes client (e.1)) g
  ]

  unfoldable pub fill_groups : QuoteClient → List (ℕ × Group) → Slots → Slots
  fill_groups client [] slots = slots
  fill_groups client ((c, g) ∷ gs) slots =
      fill_groups client gs (scatter g (group_quotes client g) slots)

  unfoldable pub get_order_quotes_batch : QuoteClient → List RaindexOrder → List Quotes
  get_order_quotes_batch client orders =
      if is_empty orders
      then []
      else map (λ slot. unwrap_or slot quote_failed)
          (fill_groups client (group_orders 0 orders []) (replicate (length orders) none))

-- ===== src/Orders/Batch.antt =====
-- `get_order_quotes_batch` of src/routes/orders/mod.rs: every order gets its own quotes.
use mathlib.Core.Option.{some-injective}
use albion_rest_api.Base.{
  ℕ, zero, suc, ◌<◌, ◌≡◌, refl, sym, ap, ◌∙◌, true, false, none, some, List, [], ◌∷◌, map, ◌==◌,
  if◌then◌else◌, is_some, length, set, replicate, get_elem?, unwrap_or, All, arith, Bool-cases,
  Option-cases, inl, inr,
}
use albion_rest_api.Error.{ok}
use albion_rest_api.Raindex.{Raindex}
use albion_rest_api.Orders.Source.{
  QuoteClient, Quotes, Slots, Group, quote_failed, get_order_quotes, group_orders, scatter,
  group_quotes, fill_groups, get_order_quotes_batch,
}
use albion_rest_api.Orders.Groups.{orders_of, RightEntry, RightGroup, index?, covers}
use albion_rest_api.Orders.Grouping.{Grouped, group_orders-Grouped}

module _ {ℓ} {A : Type ℓ} where
  get_elem?-set-same :
      (xs : List A) (i : ℕ) (v : A) → i < length xs → get_elem? (set xs i v) i ≡ some v
  get_elem?-set-same [] i v h = absurd (omega arith)
  get_elem?-set-same (x ∷ xs) zero v h = refl
  get_elem?-set-same (x ∷ xs) (suc i) v h = get_elem?-set-same xs i v (omega arith)

  get_elem?-set-other :
      (xs : List A) (i j : ℕ) (v : A) → (i == j) ≡ false → get_elem? (set xs i v) j ≡ get_elem? xs j
  get_elem?-set-other [] i j v h = refl
  get_elem?-set-other (x ∷ xs) zero zero v h = absurd (ground arith)
  get_elem?-set-other (x ∷ xs) zero (suc j) v h = refl
  get_elem?-set-other (x ∷ xs) (suc i) zero v h = refl
  get_elem?-set-other (x ∷ xs) (suc i) (suc j) v h = get_elem?-set-other xs i j v (ground arith)

  pub length-set : (xs : List A) (i : ℕ) (v : A) → length (set xs i v) ≡ length xs
  length-set [] i v = refl
  length-set (x ∷ xs) zero v = refl
  length-set (x ∷ xs) (suc i) v = ap suc (length-set xs i v)

  pub length-replicate : (n : ℕ) (a : A) → length (replicate n a) ≡ n
  length-replicate zero a = refl
  length-replicate (suc n) a = ap suc (length-replicate n a)

module _ (X : Raindex) where
  open X use {RaindexOrder, RaindexOrderQuote, chain_id}

  -- The quotes of one order: `quote`'s if its chain's batch is answered, or else its own query's.
  unfoldable pub answer :
      QuoteClient X
      → (RaindexOrder → List RaindexOrderQuote)
      → List RaindexOrder
      → RaindexOrder
      → Quotes X
  answer client quote os o =
      if is_some (client.fetch_order_quotes_batch (orders_of X (chain_id o) os))
      then ok (quote o)
      else get_order_quotes X client o

  -- A batch that is answered has the quotes of each of its orders, in their order.
  unfoldable pub IsPointwise : QuoteClient X → (RaindexOrder → List RaindexOrderQuote) → Type 0
  IsPointwise client quote =
      (os : List RaindexOrder) (qs : List (List RaindexOrderQuote))
      → client.fetch_order_quotes_batch os ≡ some qs
      → qs ≡ map quote os

  module _ (client : QuoteClient X) (quote : RaindexOrder → List RaindexOrderQuote)
      (os : List RaindexOrder) where
    abbrev ans : RaindexOrder → Quotes X
    ans = answer client quote os

    entries-answered :
        (c : ℕ) (g : Group X)
        → is_some (client.fetch_order_quotes_batch (orders_of X c os)) ≡ true
        → All (RightEntry X os c) g
        → map ok (map quote (map (λ e. e.1) g)) ≡ map (λ e. ans (e.1)) g
    unfolding answer RightEntry
    entries-answered c [] s a = refl
    entries-answered c ((i, o) ∷ g) s ((at, own), a) =
        rw (own, s) (ap (◌∷◌ (ok (quote o))) (entries-answered c g s a))

    entries-alone :
        (c : ℕ) (g : Group X)
        → is_some (client.fetch_order_quotes_batch (orders_of X c os)) ≡ false
        → All (RightEntry X os c) g
        → map (λ e. get_order_quotes X client (e.1)) g ≡ map (λ e. ans (e.1)) g
    unfolding answer RightEntry
    entries-alone c [] s a = refl
    entries-alone c ((i, o) ∷ g) s ((at, own), a) =
        rw (own, s) (ap (◌∷◌ (get_order_quotes X client o)) (entries-alone c g s a))

    group_quotes-ans :
        IsPointwise client quote
        → (c : ℕ) (g : Group X) → RightGroup X os (c, g)
        → group_quotes X client g ≡ map (λ e. ans (e.1)) g
    unfolding group_quotes RightGroup IsPointwise
    group_quotes-ans pointwise c g (orders, a) =
        elim (Option-cases (client.fetch_order_quotes_batch (map (λ e. e.1) g))) [
          | inl failed ↦
              rw (group_quotes, failed) (entries-alone c g (rw (sym orders, failed) refl) a)
          | inr (qs, answered) ↦
              rw (group_quotes, answered, pointwise (map (λ e. e.1) g) qs answered)
                (entries-answered c g (rw (sym orders, answered) refl) a)
        ]

    length-scatter :
        (g : Group X) (qs : List (Quotes X)) (slots : Slots X)
        → length (scatter X g qs slots) ≡ length slots
    unfolding scatter
    length-scatter [] qs slots = refl
    length-scatter (e ∷ g) [] slots = refl
    length-scatter ((i, o) ∷ g) (q ∷ qs) slots =
        length-scatter g qs (set slots i (some q)) ∙ length-set slots i (some q)

    module _ (j : ℕ) (p : RaindexOrder) (at : get_elem? os j ≡ some p) where
      -- An entry with the index `j` writes the answer of `p`, and another one changes nothing there.
      set-entry :
          (c i : ℕ) (o : RaindexOrder) (slots : Slots X)
          → RightEntry X os c (i, o)
          → j < length slots
          → get_elem? (set slots i (some (ans o))) j
            ≡ (if i == j then some (some (ans p)) else get_elem? slots j)
      unfolding RightEntry
      set-entry c i o slots (here, own) h = elim (Bool-cases (i == j)) [
        | inl same ↦
            let e : i ≡ j = ground arith in
            let found : o ≡ p = some-injective _ _ (sym here ∙ ap (get_elem? os) e ∙ at) in
            rw (same, e, found) (get_elem?-set-same slots j (some (ans p)) h)
        | inr other ↦ rw other (get_elem?-set-other slots i j (some (ans o)) other)
      ]

      scatter-keeps :
          (c : ℕ) (g : Group X) (slots : Slots X)
          → All (RightEntry X os c) g
          → j < length slots
          → get_elem? slots j ≡ some (some (ans p))
          → get_elem? (scatter X g (map (λ e. ans (e.1)) g) slots) j ≡ some (some (ans p))
      unfolding scatter
      scatter-keeps c [] slots a h w = w
      scatter-keeps c ((i, o) ∷ g) slots (e, a) h w =
          scatter-keeps c g (set slots i (some (ans o))) a
            (ground (arith, length-set slots i (some (ans o))))
            (ground (arith, set-entry c i o slots e h))

      scatter-writes :
          (c : ℕ) (g : Group X) (slots : Slots X)
          → All (RightEntry X os c) g
          → j < length slots
          → index? X j g ≡ true
          → get_elem? (scatter X g (map (λ e. ans (e.1)) g) slots) j ≡ some (some (ans p))
      unfolding scatter index?
      scatter-writes c [] slots a h k = absurd (ground arith)
      scatter-writes c ((i, o) ∷ g) slots (e, a) h k =
          let more : j < length (set slots i (some (ans o))) =
            ground (arith, length-set slots i (some (ans o))) in
          elim (Bool-cases (i == j)) [
            | inl same ↦
                scatter-keeps c g (set slots i (some (ans o))) a more
                  (ground (arith, set-entry c i o slots e h))
            | inr other ↦ scatter-writes c g (set slots i (some (ans o))) a more (ground arith)
          ]

      fill_groups-keeps :
          IsPointwise client quote
          → (gs : List (ℕ × Group X)) (slots : Slots X) → All (RightGroup X os) gs
          → j < length slots
          → get_elem? slots j ≡ some (some (ans p))
          → get_elem? (fill_groups X client gs slots) j ≡ some (some (ans p))
      unfolding fill_groups RightGroup
      fill_groups-keeps pointwise [] slots a h w = w
      fill_groups-keeps pointwise ((c, g) ∷ gs) slots (r, a) h w =
          rw (group_quotes-ans pointwise c g r) (
            fill_groups-keeps pointwise gs (scatter X g (map (λ e. ans (e.1)) g) slots) a
              (ground (arith, length-scatter g (map (λ e. ans (e.1)) g) slots))
              (scatter-keeps c g slots r.1 h w))

      fill_groups-writes :
          IsPointwise client quote
          → (gs : List (ℕ × Group X)) (slots : Slots X) → All (RightGroup X os) gs
          → j < length slots
          → covers X j gs ≡ true
          → get_elem? (fill_groups X client gs slots) j ≡ some (some (ans p))
      unfolding fill_groups RightGroup covers
      fill_groups-writes pointwise [] slots a h k = absurd (ground arith)
      fill_groups-writes pointwise ((c, g) ∷ gs) slots (r, a) h k =
          let next = scatter X g (map (λ e. ans (e.1)) g) slots in
          let more : j < length next =
            ground (arith, length-scatter g (map (λ e. ans (e.1)) g) slots) in
          rw (group_quotes-ans pointwise c g r) (elim (Bool-cases (index? X j g)) [
            | inl here ↦
                fill_groups-keeps pointwise gs next a more (scatter-writes c g slots r.1 h here)
            | inr later ↦ fill_groups-writes pointwise gs next a more (ground arith)
          ])

    length-fill_groups :
        (gs : List (ℕ × Group X)) (slots : Slots X)
        → length (fill_groups X client gs slots) ≡ length slots
    unfolding fill_groups
    length-fill_groups [] slots = refl
    length-fill_groups ((c, g) ∷ gs) slots =
        length-fill_groups gs (scatter X g (group_quotes X client g) slots)
        ∙ length-scatter g (group_quotes X client g) slots

  slots-map :
      (f : RaindexOrder → Quotes X) (os : List RaindexOrder) (slots : Slots X)
      → length slots ≡ length os
      → ((j : ℕ) (p : RaindexOrder)
          → get_elem? os j ≡ some p
          → get_elem? slots j ≡ some (some (f p)))
      → map (λ slot. unwrap_or slot (quote_failed X)) slots ≡ map f os
  slots-map f [] [] e h = refl
  slots-map f [] (s ∷ slots) e h = absurd (omega arith)
  slots-map f (o ∷ os) [] e h = absurd (omega arith)
  slots-map f (o ∷ os) (s ∷ slots) e h =
      let here : s ≡ some (f o) = some-injective _ _ (h 0 o refl) in
      rw here (ap (◌∷◌ (f o)) (slots-map f os slots (omega arith) (λ j p at. h (suc j) p at)))

  get_elem?-lt :
      (os : List RaindexOrder) (j : ℕ) (p : RaindexOrder) → get_elem? os j ≡ some p → j < length os
  get_elem?-lt [] j p h = absurd (ground arith)
  get_elem?-lt (o ∷ os) zero p h = omega arith
  get_elem?-lt (o ∷ os) (suc j) p h = omega (arith, get_elem?-lt os j p h)

  -- If a batch that is answered has the quotes of each of its orders, in their order, then the
  -- result has the answer of each order at the order's place: the quotes from the batch of the
  -- orders of its chain, or from a query of its own where that batch fails.
  pub get_order_quotes_batch-answer :
      (client : QuoteClient X) (quote : RaindexOrder → List RaindexOrderQuote)
      (os : List RaindexOrder)
      → IsPointwise client quote
      → get_order_quotes_batch X client os ≡ map (answer client quote os) os
  unfolding get_order_quotes_batch Grouped
  get_order_quotes_batch-answer client quote [] pointwise = refl
  get_order_quotes_batch-answer client quote (o ∷ rest) pointwise =
      let os = o ∷ rest in
      let (_, right, _, covered) = group_orders-Grouped X os in
      let slots = replicate (length os) none in
      let size : length slots ≡ length os = length-replicate (length os) none in
      slots-map (answer client quote os) os (fill_groups X client (group_orders X 0 os []) slots)
        (length-fill_groups client quote os (group_orders X 0 os []) slots ∙ size)
        (λ j p at.
          let below : j < length os = get_elem?-lt os j p at in
          fill_groups-writes client quote os j p at pointwise (group_orders X 0 os []) slots right
            (omega (arith, size)) (covered j below))

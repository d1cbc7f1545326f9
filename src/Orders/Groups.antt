-- ===== src/Orders/Groups.antt =====
-- The grouping of `get_order_quotes_batch` in src/routes/orders/mod.rs: a group per chain, with
-- every order in its chain's.
use albion_rest_api.Base.{
  ℕ, zero, suc, ◌≤◌, ◌<◌, ◌≡◌, refl, sym, ap, Bool, true, false, ◌||◌, some, List, [], ◌∷◌, ◌++◌,
  map, ltb, ◌==◌, if◌then◌else◌, length, get_elem?, All, arith, Bool-cases, inl, inr,
}
use albion_rest_api.Raindex.{Raindex}
use albion_rest_api.Orders.Source.{Group, insert_group}

module _ (X : Raindex) where
  open X use {RaindexOrder, RaindexOrderQuote, chain_id}

  -- The orders of a chain, in order: those of one batch.
  unfoldable pub orders_of : ℕ → List RaindexOrder → List RaindexOrder
  orders_of c [] = []
  orders_of c (o ∷ os) = if chain_id o == c then o ∷ orders_of c os else orders_of c os

  -- The keys ascend, from `low` on.
  unfoldable pub Ascending : ℕ → List (ℕ × Group X) → Type 0
  Ascending low [] = Unit
  Ascending low ((c, g) ∷ gs) = (low ≤ c) × Ascending (suc c) gs

  -- An entry of a group is an order of the chain at its place.
  unfoldable pub RightEntry : List RaindexOrder → ℕ → ℕ × RaindexOrder → Type 0
  RightEntry os c (i, o) = (get_elem? os i ≡ some o) × (chain_id o ≡ c)

  unfoldable pub RightGroup : List RaindexOrder → ℕ × Group X → Type 0
  RightGroup os (c, g) = (map (λ e. e.1) g ≡ orders_of c os) × All (RightEntry os c) g

  unfoldable pub key? : ℕ → List (ℕ × Group X) → Bool
  key? k [] = false
  key? k ((c, g) ∷ gs) = c == k || key? k gs

  unfoldable pub index? : ℕ → Group X → Bool
  index? j [] = false
  index? j ((i, o) ∷ g) = i == j || index? j g

  unfoldable pub covers : ℕ → List (ℕ × Group X) → Bool
  covers j [] = false
  covers j ((c, g) ∷ gs) = index? j g || covers j gs

  pub key?_of_Ascending :
      (low k : ℕ) (gs : List (ℕ × Group X)) → Ascending low gs → k < low → key? k gs ≡ false
  unfolding key? Ascending
  key?_of_Ascending low k [] a h = refl
  key?_of_Ascending low k ((c, g) ∷ gs) a h =
      ground (arith, a.0, key?_of_Ascending (suc c) k gs a.1)

  pub orders_of-append :
      (c : ℕ) (pre : List RaindexOrder) (o : RaindexOrder)
      → orders_of c (pre ++ o ∷ [])
        ≡ (if chain_id o == c then orders_of c pre ++ o ∷ [] else orders_of c pre)
  unfolding orders_of
  orders_of-append c [] o = ground arith
  orders_of-append c (p ∷ pre) o = ground (arith, orders_of-append c pre o)

  get_elem?-append :
      (pre : List RaindexOrder) (rest : List RaindexOrder) (i : ℕ) (p : RaindexOrder)
      → get_elem? pre i ≡ some p
      → get_elem? (pre ++ rest) i ≡ some p
  get_elem?-append [] rest i p h = ground (arith, h)
  get_elem?-append (q ∷ pre) rest zero p h = h
  get_elem?-append (q ∷ pre) rest (suc i) p h = get_elem?-append pre rest i p h

  get_elem?-length :
      (pre rest : List RaindexOrder) (o : RaindexOrder)
      → get_elem? (pre ++ o ∷ rest) (length pre) ≡ some o
  get_elem?-length [] rest o = refl
  get_elem?-length (p ∷ pre) rest o = get_elem?-length pre rest o

  RightEntry-append :
      (pre : List RaindexOrder) (o : RaindexOrder) (c : ℕ) (g : Group X)
      → All (RightEntry pre c) g
      → All (RightEntry (pre ++ o ∷ []) c) g
  unfolding RightEntry
  RightEntry-append pre o c [] a = tt
  RightEntry-append pre o c ((i, p) ∷ g) a =
      ((get_elem?-append pre (o ∷ []) i p a.0.0, a.0.1), RightEntry-append pre o c g a.1)

  -- A group of another chain stays right when an order is added.
  pub RightGroup-append :
      (pre : List RaindexOrder) (o : RaindexOrder) (c : ℕ) (g : Group X)
      → (chain_id o == c) ≡ false
      → RightGroup pre (c, g)
      → RightGroup (pre ++ o ∷ []) (c, g)
  unfolding RightGroup
  RightGroup-append pre o c g other (orders, entries) =
      (rw (orders_of-append c pre o, other) orders, RightEntry-append pre o c g entries)

  pub RightGroup-later :
      (pre : List RaindexOrder) (o : RaindexOrder) (low : ℕ) (gs : List (ℕ × Group X))
      → Ascending low gs
      → chain_id o < low
      → All (RightGroup pre) gs
      → All (RightGroup (pre ++ o ∷ [])) gs
  unfolding Ascending
  RightGroup-later pre o low [] asc h a = tt
  RightGroup-later pre o low ((c, g) ∷ gs) asc h a = (
    RightGroup-append pre o c g (ground (arith, asc.0)) a.0,
    RightGroup-later pre o (suc c) gs asc.1 (omega (arith, asc.0)) a.1,
  )

  index?-append :
      (j i : ℕ) (o : RaindexOrder) (g : Group X)
      → index? j (g ++ (i, o) ∷ []) ≡ (i == j || index? j g)
  unfolding index?
  index?-append j i o [] = ground arith
  index?-append j i o ((k, p) ∷ g) = ground (arith, index?-append j i o g)

  pub insert_group-covers :
      (j chain i : ℕ) (o : RaindexOrder) (gs : List (ℕ × Group X))
      → covers j (insert_group X chain (i, o) gs) ≡ (i == j || covers j gs)
  unfolding insert_group covers index?
  insert_group-covers j chain i o [] = ground arith
  insert_group-covers j chain i o ((c, g) ∷ gs) =
      ground (arith, index?-append j i o g, insert_group-covers j chain i o gs)

  pub insert_group-key? :
      (k chain : ℕ) (e : ℕ × RaindexOrder) (gs : List (ℕ × Group X))
      → key? k (insert_group X chain e gs) ≡ (chain == k || key? k gs)
  unfolding insert_group key?
  insert_group-key? k chain e [] = ground arith
  insert_group-key? k chain e ((c, g) ∷ gs) = ground (arith, insert_group-key? k chain e gs)

  pub insert_group-Ascending :
      (low chain : ℕ) (e : ℕ × RaindexOrder) (gs : List (ℕ × Group X))
      → Ascending low gs
      → low ≤ chain
      → Ascending low (insert_group X chain e gs)
  unfolding insert_group Ascending
  insert_group-Ascending low chain e [] a h = (h, tt)
  insert_group-Ascending low chain e ((c, g) ∷ gs) a h = elim (Bool-cases (c == chain)) [
    | inl same ↦ rw same a
    | inr other ↦ elim (Bool-cases (ltb chain c)) [
      | inl before ↦ rw (other, before) (h, ((ground arith), a.1))
      | inr after ↦
          rw (other, after) (a.0, insert_group-Ascending (suc c) chain e gs a.1 (ground arith))
    ]
  ]

  map-append : (g h : Group X) → map (λ e. e.1) (g ++ h) ≡ map (λ e. e.1) g ++ map (λ e. e.1) h
  map-append [] h = refl
  map-append (e ∷ g) h = ap (◌∷◌ (e.1)) (map-append g h)

  RightEntry-last :
      (pre : List RaindexOrder) (o : RaindexOrder) (g : Group X)
      → All (RightEntry (pre ++ o ∷ []) (chain_id o)) g
      → All (RightEntry (pre ++ o ∷ []) (chain_id o)) (g ++ (length pre, o) ∷ [])
  unfolding RightEntry
  RightEntry-last pre o [] a = ((get_elem?-length pre [] o, refl), tt)
  RightEntry-last pre o (e ∷ g) a = (a.0, RightEntry-last pre o g a.1)

  -- The group of the order's own chain, if there is one.
  pub RightGroup-last :
      (pre : List RaindexOrder) (o : RaindexOrder) (g : Group X)
      → RightGroup pre (chain_id o, g)
      → RightGroup (pre ++ o ∷ []) (chain_id o, g ++ (length pre, o) ∷ [])
  unfolding RightGroup
  RightGroup-last pre o g (orders, entries) = (
    let same : (chain_id o == chain_id o) ≡ true = ground arith in
        rw (map-append g ((length pre, o) ∷ []), orders, orders_of-append (chain_id o) pre o, same)
          refl,
    RightEntry-last pre o g (RightEntry-append pre o (chain_id o) g entries),
  )

  pub RightGroup-new :
      (pre : List RaindexOrder) (o : RaindexOrder)
      → orders_of (chain_id o) pre ≡ []
      → RightGroup (pre ++ o ∷ []) (chain_id o, (length pre, o) ∷ [])
  unfolding RightGroup
  RightGroup-new pre o none_yet = RightGroup-last pre o [] (sym none_yet, tt)

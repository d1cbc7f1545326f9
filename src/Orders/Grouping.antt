-- ===== src/Orders/Grouping.antt =====
-- The groups of `get_order_quotes_batch` in src/routes/orders/mod.rs hold every order once.
use mathlib.Core.Path.{subst}
use mathlib.Core.List.{append_assoc, append-nil}
use albion_rest_api.Base.{
  ℕ, suc, ◌<◌, ◌≡◌, refl, sym, true, false, List, [], ◌∷◌, ◌++◌, ltb, ◌==◌, length-append, length,
  All, arith, Bool-cases, inl, inr,
}
use albion_rest_api.Raindex.{Raindex}
use albion_rest_api.Orders.Source.{Group, insert_group, group_orders}
use albion_rest_api.Orders.Groups.{
  orders_of, Ascending, RightGroup, key?, covers, key?_of_Ascending, orders_of-append,
  RightGroup-append, RightGroup-later, insert_group-covers, insert_group-key?,
  insert_group-Ascending, RightGroup-last, RightGroup-new,
}

module _ (X : Raindex) where
  open X use {RaindexOrder, RaindexOrderQuote, chain_id}

  insert_group-RightGroup :
      (low : ℕ) (pre : List RaindexOrder) (o : RaindexOrder) (gs : List (ℕ × Group X))
      → (Ascending X) low gs
      → All ((RightGroup X) pre) gs
      → ((key? X) (chain_id o) gs ≡ false → (orders_of X) (chain_id o) pre ≡ [])
      → All ((RightGroup X) (pre ++ o ∷ [])) (insert_group X (chain_id o) (length pre, o) gs)
  unfolding insert_group Ascending key?
  insert_group-RightGroup low pre o [] a r absent = ((RightGroup-new X) pre o (absent refl), tt)
  insert_group-RightGroup low pre o ((c, g) ∷ gs) a r absent = elim (Bool-cases (c == chain_id o)) [
    | inl same ↦
        let own : c ≡ chain_id o = ground arith in
        rw same (
          subst (λ k. (RightGroup X) (pre ++ o ∷ []) (k, g ++ (length pre, o) ∷ [])) (sym own)
              ((RightGroup-last X) pre o g (subst (λ k. (RightGroup X) pre (k, g)) own r.0)),
          (RightGroup-later X) pre o (suc c) gs a.1 (omega (arith, own)) r.1,
        )
    | inr other ↦ elim (Bool-cases (ltb (chain_id o) c)) [
      | inl before ↦
          let fresh : (key? X) (chain_id o) gs ≡ false =
            (key?_of_Ascending X) (suc c) (chain_id o) gs a.1 (ground arith) in
          rw (other, before)
            (
              (RightGroup-new X) pre o (absent (rw (other, fresh) refl)),
              (
                (RightGroup-append X) pre o c g (ground arith) r.0,
                (RightGroup-later X) pre o (suc c) gs a.1 (ground arith) r.1,
              ),
            )
      | inr after ↦
          rw (other, after)
            (
              (RightGroup-append X) pre o c g (ground arith) r.0,
              insert_group-RightGroup (suc c) pre o gs a.1 r.1 (λ f. absent (rw (other, f) refl)),
            )
    ]
  ]

  -- What the loop keeps: the groups of the orders `pre` so far.
  unfoldable pub Grouped : List RaindexOrder → List (ℕ × Group X) → Type 0
  Grouped pre gs =
      (Ascending X) 0 gs
      × All ((RightGroup X) pre) gs
      × ((k : ℕ) → (key? X) k gs ≡ false → (orders_of X) k pre ≡ [])
      × ((j : ℕ) → j < length pre → (covers X) j gs ≡ true)

  insert_group-Grouped :
      (pre : List RaindexOrder) (o : RaindexOrder) (gs : List (ℕ × Group X))
      → Grouped pre gs
      → Grouped (pre ++ o ∷ []) (insert_group X (chain_id o) (length pre, o) gs)
  unfolding Grouped
  insert_group-Grouped pre o gs (asc, right, absent, covered) = (
    (insert_group-Ascending X) 0 (chain_id o) (length pre, o) gs asc (omega arith),
    insert_group-RightGroup 0 pre o gs asc right (absent (chain_id o)),
    λ k h. ground (
      arith,
      absent k,
      (orders_of-append X) k pre o,
      (insert_group-key? X) k (chain_id o) (length pre, o) gs,
    ),
    λ j h. ground (
      arith,
      covered j,
      length-append pre (o ∷ []),
      (insert_group-covers X) j (chain_id o) (length pre) o gs,
    ),
  )

  group_orders-Grouped_from :
      (pre os : List RaindexOrder) (gs : List (ℕ × Group X))
      → Grouped pre gs
      → Grouped (pre ++ os) (group_orders X (length pre) os gs)
  unfolding group_orders
  group_orders-Grouped_from pre [] gs h = subst (λ l. Grouped l gs) (sym (append-nil pre)) h
  group_orders-Grouped_from pre (o ∷ os) gs h =
      let next = insert_group-Grouped pre o gs h in
      let rest =
        group_orders-Grouped_from (pre ++ o ∷ []) os
          (insert_group X (chain_id o) (length pre, o) gs) next in
      let size : length (pre ++ o ∷ []) ≡ suc (length pre) =
        omega (arith, length-append pre (o ∷ [])) in
      subst
        (λ l.
          Grouped l
            (group_orders X (suc (length pre)) os (insert_group X (chain_id o) (length pre, o) gs)))
        (append_assoc pre (o ∷ []) os)
        (subst
          (λ n.
            Grouped ((pre ++ o ∷ []) ++ os)
              (group_orders X n os (insert_group X (chain_id o) (length pre, o) gs)))
          size rest)

  nothing-Grouped : Grouped [] []
  unfolding Grouped Ascending orders_of
  nothing-Grouped = (tt, tt, (λ k h. refl), λ j h. absurd (omega arith))

  pub group_orders-Grouped : (os : List RaindexOrder) → Grouped os (group_orders X 0 os [])
  group_orders-Grouped os = group_orders-Grouped_from [] os [] nothing-Grouped

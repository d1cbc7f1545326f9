-- ===== src/Cli/Listing.antt =====
-- The listing of the keys by src/cli.rs.
use mathlib.Core.List.{Perm}
use mathlib.Core.List.Perm
use albion_rest_api.Base.{◌≡◌, refl, false, Bool-cases, List, [], ◌∷◌, inl, inr, arith, All}
use albion_rest_api.Text.Order.{text_ltb, text_ltb_between, text_ltb_asym}
use albion_rest_api.Database.{ApiKeyRow, Database}
use albion_rest_api.Cli.{place_key, sort_keys, listed, list_keys}

-- No later row was created after an earlier one.
unfoldable pub IsByAge : List ApiKeyRow → Type 0
IsByAge [] = Unit {0}
IsByAge (row ∷ rows) = All (λ r. text_ltb row.created_at r.created_at ≡ false) rows × IsByAge rows

All-place_key {ℓ} :
    (P : ApiKeyRow → Type ℓ) (row : ApiKeyRow) (rows : List ApiKeyRow)
    → P row
    → All P rows
    → All P (place_key row rows)
unfolding place_key
All-place_key P row [] p h = (p, tt)
All-place_key P row (r ∷ rows) p (q, h) = elim (Bool-cases (text_ltb row.created_at r.created_at)) [
  | inl older ↦ rw older (q, All-place_key P row rows p h)
  | inr not_older ↦ rw not_older (p, (q, h))
]

older_still :
    (row r : ApiKeyRow) (rows : List ApiKeyRow)
    → text_ltb row.created_at r.created_at ≡ false
    → All (λ x. text_ltb r.created_at x.created_at ≡ false) rows
    → All (λ x. text_ltb row.created_at x.created_at ≡ false) rows
older_still row r [] h k = tt
older_still row r (x ∷ rows) h (k, ks) = (
  ground (arith, text_ltb_between row.created_at r.created_at x.created_at, h, k),
  older_still row r rows h ks,
)

place_key-IsByAge :
    (row : ApiKeyRow) (rows : List ApiKeyRow) → IsByAge rows → IsByAge (place_key row rows)
unfolding place_key IsByAge
place_key-IsByAge row [] h = (tt, tt)
place_key-IsByAge row (r ∷ rows) (first, rest) =
    elim (Bool-cases (text_ltb row.created_at r.created_at)) [
      | inl older ↦ rw older (
        All-place_key (λ x. text_ltb r.created_at x.created_at ≡ false) row rows
            (text_ltb_asym row.created_at r.created_at older) first,
        place_key-IsByAge row rows rest,
      )
      | inr not_older ↦
          rw not_older ((not_older, older_still row r rows not_older first), (first, rest))
    ]

sort_keys-IsByAge : (rows : List ApiKeyRow) → IsByAge (sort_keys rows)
unfolding sort_keys IsByAge
sort_keys-IsByAge [] = tt
sort_keys-IsByAge (row ∷ rows) = place_key-IsByAge row (sort_keys rows) (sort_keys-IsByAge rows)

place_key-Perm : (row : ApiKeyRow) (rows : List ApiKeyRow) → Perm (place_key row rows) (row ∷ rows)
unfolding place_key
place_key-Perm row [] = Perm.refl (row ∷ [])
place_key-Perm row (r ∷ rows) = elim (Bool-cases (text_ltb row.created_at r.created_at)) [
  | inl older ↦ rw older (Perm.trans (Perm.cons r (place_key-Perm row rows)) (Perm.swap row r rows))
  | inr not_older ↦ rw not_older (Perm.refl (row ∷ r ∷ rows))
]

sort_keys-Perm : (rows : List ApiKeyRow) → Perm (sort_keys rows) rows
unfolding sort_keys
sort_keys-Perm [] = Perm.refl []
sort_keys-Perm (row ∷ rows) =
    Perm.trans (place_key-Perm row (sort_keys rows)) (Perm.cons row (sort_keys-Perm rows))

-- The list of a database that answers has every key exactly once, the newest first, and the database
-- stays as it is.
pub list_keys_lem :
    (db : Database)
    → db.faulty ≡ false
    → (rows : List ApiKeyRow) × (list_keys db ≡ (listed rows, db))
      × Perm rows db.api_keys
      × IsByAge rows
unfolding list_keys
list_keys_lem db up =
    (sort_keys db.api_keys, rw up refl, sort_keys-Perm db.api_keys, sort_keys-IsByAge db.api_keys)

-- ===== src/Cli/Rows.antt =====
-- What the statements of the commands keep of the constraints on the rows.
use Prim.Native.String.{String}
use text.Mathlib.Text.{◌==◌ as str_eq}
use text.Mathlib.TextEquality.{eq_iff}
use albion_rest_api.Base.{
  ℕ, ◌+◌, ◌<◌, ◌≡◌, refl, true, false, List, [], ◌∷◌, ◌++◌, arith, All, ◌==◌, Bool-cases, inl, inr,
  ◌||◌,
}
use albion_rest_api.Database.{
  ApiKeyRow, UsageLog, contains_key, contains_id, deactivate, remove_key, cascade,
}
use albion_rest_api.Database.Keys.{UniqueKeys, UniqueIds}

abbrev pub Below : ℕ → List ApiKeyRow → Type 0
Below n rows = All (λ row. row.id < n) rows

pub contains_key-snoc :
    (k : String) (rows : List ApiKeyRow) (row : ApiKeyRow)
    → contains_key k (rows ++ row ∷ []) ≡ contains_key k rows || str_eq row.key_id k
unfolding contains_key
contains_key-snoc k [] row = ground arith
contains_key-snoc k (r ∷ rows) row = ground (arith, contains_key-snoc k rows row)

pub contains_id-snoc :
    (i : ℕ) (rows : List ApiKeyRow) (row : ApiKeyRow)
    → contains_id i (rows ++ row ∷ []) ≡ contains_id i rows || (row.id == i)
unfolding contains_id
contains_id-snoc i [] row = ground arith
contains_id-snoc i (r ∷ rows) row = ground (arith, contains_id-snoc i rows row)

pub UniqueKeys-snoc :
    (rows : List ApiKeyRow) (row : ApiKeyRow)
    → UniqueKeys rows
    → contains_key row.key_id rows ≡ false
    → UniqueKeys (rows ++ row ∷ [])
unfolding contains_key
UniqueKeys-snoc [] row u h = (refl, tt)
UniqueKeys-snoc (r ∷ rows) row u h = (
  ground (
    arith,
    contains_key-snoc r.key_id rows row,
    eq_iff r.key_id row.key_id,
    eq_iff row.key_id r.key_id,
  ),
  UniqueKeys-snoc rows row u.1 (ground arith),
)

pub UniqueIds-snoc :
    (rows : List ApiKeyRow) (row : ApiKeyRow)
    → UniqueIds rows
    → Below row.id rows
    → UniqueIds (rows ++ row ∷ [])
unfolding contains_id
UniqueIds-snoc [] row u h = (refl, tt)
UniqueIds-snoc (r ∷ rows) row u h =
    (ground (arith, contains_id-snoc r.id rows row, u.0, h.0), UniqueIds-snoc rows row u.1 h.1)

pub Below-snoc :
    (n : ℕ) (rows : List ApiKeyRow) (row : ApiKeyRow)
    → Below n rows
    → row.id ≡ n
    → Below (n + 1) (rows ++ row ∷ [])
Below-snoc n [] row h e = (omega arith, tt)
Below-snoc n (r ∷ rows) row h e = (omega (arith, h.0), Below-snoc n rows row h.1 e)

abbrev pub Owned : List ApiKeyRow → List UsageLog → Type 0
Owned rows logs = All (λ log. contains_id log.api_key_id rows ≡ true) logs

pub Owned-mono :
    (rows rows' : List ApiKeyRow) (logs : List UsageLog)
    → ((i : ℕ) → contains_id i rows ≡ true → contains_id i rows' ≡ true)
    → Owned rows logs
    → Owned rows' logs
Owned-mono rows rows' [] f h = tt
Owned-mono rows rows' (log ∷ logs) f h = (f log.api_key_id h.0, Owned-mono rows rows' logs f h.1)

pub Owned-cascade : (rows : List ApiKeyRow) (logs : List UsageLog) → Owned rows (cascade rows logs)
unfolding cascade
Owned-cascade rows [] = tt
Owned-cascade rows (log ∷ logs) = elim (Bool-cases (contains_id log.api_key_id rows)) [
  | inl e ↦ rw (e, cascade) (e, Owned-cascade rows logs)
  | inr e ↦ rw e (Owned-cascade rows logs)
]

pub contains_key-deactivate :
    (time k j : String) (rows : List ApiKeyRow)
    → contains_key j (deactivate time k rows).0 ≡ contains_key j rows
unfolding contains_key deactivate
contains_key-deactivate time k j [] = refl
contains_key-deactivate time k j (r ∷ rows) = ground (arith, contains_key-deactivate time k j rows)

pub contains_id-deactivate :
    (time k : String) (i : ℕ) (rows : List ApiKeyRow)
    → contains_id i (deactivate time k rows).0 ≡ contains_id i rows
unfolding contains_id deactivate
contains_id-deactivate time k i [] = refl
contains_id-deactivate time k i (r ∷ rows) = ground (arith, contains_id-deactivate time k i rows)

pub UniqueKeys-deactivate :
    (time k : String) (rows : List ApiKeyRow)
    → UniqueKeys rows
    → UniqueKeys (deactivate time k rows).0
unfolding deactivate
UniqueKeys-deactivate time k [] u = tt
UniqueKeys-deactivate time k (r ∷ rows) u = ground (
  arith,
  UniqueKeys-deactivate time k rows u.1,
  contains_key-deactivate time k r.key_id rows,
  u.0,
)

pub UniqueIds-deactivate :
    (time k : String) (rows : List ApiKeyRow)
    → UniqueIds rows
    → UniqueIds (deactivate time k rows).0
unfolding deactivate
UniqueIds-deactivate time k [] u = tt
UniqueIds-deactivate time k (r ∷ rows) u =
    ground
      (arith, UniqueIds-deactivate time k rows u.1, contains_id-deactivate time k r.id rows, u.0)

pub Below-deactivate :
    (time k : String) (n : ℕ) (rows : List ApiKeyRow)
    → Below n rows
    → Below n (deactivate time k rows).0
unfolding deactivate
Below-deactivate time k n [] h = tt
Below-deactivate time k n (r ∷ rows) h = ground (arith, Below-deactivate time k n rows h.1, h.0)

pub contains_key-remove_key :
    (k j : String) (rows : List ApiKeyRow)
    → contains_key j rows ≡ false
    → contains_key j (remove_key k rows).0 ≡ false
unfolding contains_key remove_key
contains_key-remove_key k j [] h = refl
contains_key-remove_key k j (r ∷ rows) h = ground (arith, contains_key-remove_key k j rows)

pub contains_id-remove_key :
    (k : String) (i : ℕ) (rows : List ApiKeyRow)
    → contains_id i rows ≡ false
    → contains_id i (remove_key k rows).0 ≡ false
unfolding contains_id remove_key
contains_id-remove_key k i [] h = refl
contains_id-remove_key k i (r ∷ rows) h = ground (arith, contains_id-remove_key k i rows)

pub UniqueKeys-remove_key :
    (k : String) (rows : List ApiKeyRow) → UniqueKeys rows → UniqueKeys (remove_key k rows).0
unfolding remove_key
UniqueKeys-remove_key k [] u = tt
UniqueKeys-remove_key k (r ∷ rows) u =
    ground (arith, UniqueKeys-remove_key k rows u.1, contains_key-remove_key k r.key_id rows u.0)

pub UniqueIds-remove_key :
    (k : String) (rows : List ApiKeyRow) → UniqueIds rows → UniqueIds (remove_key k rows).0
unfolding remove_key
UniqueIds-remove_key k [] u = tt
UniqueIds-remove_key k (r ∷ rows) u =
    ground (arith, UniqueIds-remove_key k rows u.1, contains_id-remove_key k r.id rows u.0)

pub Below-remove_key :
    (k : String) (n : ℕ) (rows : List ApiKeyRow) → Below n rows → Below n (remove_key k rows).0
unfolding remove_key
Below-remove_key k n [] h = tt
Below-remove_key k n (r ∷ rows) h = ground (arith, Below-remove_key k n rows h.1, h.0)

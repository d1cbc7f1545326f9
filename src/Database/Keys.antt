-- ===== src/Database/Keys.antt =====
-- The statements on the table of API keys.
use Prim.Native.String.{String}
use text.Mathlib.TextEquality.{eq_iff}
use albion_rest_api.Base.{◌<◌, ◌≡◌, ◌≢◌, refl, true, false, none, some, List, [], ◌∷◌, arith, All}
use albion_rest_api.Database.{
  ApiKeyRow, Database, select_active, contains_key, contains_id, deactivate, remove_key,
}

-- What the table's constraints promise, and that every usage log belongs to a key.
abbrev pub UniqueKeys : List ApiKeyRow → Type 0
UniqueKeys [] = Unit {0}
UniqueKeys (row ∷ rows) = (contains_key row.key_id rows ≡ false) × UniqueKeys rows

abbrev pub UniqueIds : List ApiKeyRow → Type 0
UniqueIds [] = Unit {0}
UniqueIds (row ∷ rows) = (contains_id row.id rows ≡ false) × UniqueIds rows

pub record IsValid (db : Database) : Type 0 where
  pub unique_keys : UniqueKeys db.api_keys
  pub unique_ids : UniqueIds db.api_keys
  pub fresh : All (λ row. row.id < db.next_id) db.api_keys
  pub owned : All (λ log. contains_id log.api_key_id db.api_keys ≡ true) db.usage_logs

pub select_active_sound :
    (key_id : String) (rows : List ApiKeyRow) (row : ApiKeyRow)
    → select_active key_id rows ≡ some row
    → (row.key_id ≡ key_id) × (row.active ≡ true) × (contains_id row.id rows ≡ true)
unfolding select_active contains_id
select_active_sound key_id [] row e = cc
select_active_sound key_id (r ∷ rows) row e =
    ground (arith, eq_iff r.key_id key_id, select_active_sound key_id rows row)

pub select_active-deactivate :
    (time key_id : String) (rows : List ApiKeyRow)
    → select_active key_id (deactivate time key_id rows).0 ≡ none
unfolding select_active deactivate
select_active-deactivate time key_id [] = refl
select_active-deactivate time key_id (r ∷ rows) =
    ground (arith, select_active-deactivate time key_id rows)

pub select_active-deactivate_ne :
    (time key_id other : String) (rows : List ApiKeyRow)
    → other ≢ key_id
    → select_active other (deactivate time key_id rows).0 ≡ select_active other rows
unfolding select_active deactivate
select_active-deactivate_ne time key_id other [] ne = refl
select_active-deactivate_ne time key_id other (r ∷ rows) ne = ground (
  arith,
  eq_iff r.key_id key_id,
  eq_iff r.key_id other,
  select_active-deactivate_ne time key_id other rows ne,
)

pub select_active-remove_key :
    (key_id : String) (rows : List ApiKeyRow)
    → select_active key_id (remove_key key_id rows).0 ≡ none
unfolding select_active remove_key
select_active-remove_key key_id [] = refl
select_active-remove_key key_id (r ∷ rows) = ground (arith, select_active-remove_key key_id rows)

pub select_active-remove_key_ne :
    (key_id other : String) (rows : List ApiKeyRow)
    → other ≢ key_id
    → select_active other (remove_key key_id rows).0 ≡ select_active other rows
unfolding select_active remove_key
select_active-remove_key_ne key_id other [] ne = refl
select_active-remove_key_ne key_id other (r ∷ rows) ne = ground (
  arith,
  eq_iff r.key_id key_id,
  eq_iff r.key_id other,
  select_active-remove_key_ne key_id other rows ne,
)

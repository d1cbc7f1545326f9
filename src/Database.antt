-- ===== src/Database.antt =====
-- The service's SQLite database: the tables of migrations/ and the statements that src/auth.rs,
-- src/cli.rs, src/db/settings.rs and src/fairings/usage_logger.rs run on them. A statement on a
-- faulty database fails.
pub mod Keys
pub mod Settings
pub mod Kept
use Prim.Native.String.{String}
use text.Mathlib.Text.{◌==◌ as str_eq}
use albion_rest_api.Base.{
  ℕ, suc, ◌+◌, Bool, true, false, ◌||◌, ◌&&◌, not, Option, none, some, List, [], ◌∷◌, ◌++◌, ◌==◌,
  if◌then◌else◌,
}

pub record ApiKeyRow : Type 0 where
  pub id : ℕ
  pub key_id : String
  pub secret_hash : String
  pub label : String
  pub owner : String
  pub active : Bool
  pub is_admin : Bool
  pub created_at : String
  pub updated_at : String

pub record UsageLog : Type 0 where
  pub api_key_id : ℕ
  pub method : String
  pub path : String
  pub status_code : ℕ

pub record Database : Type 0 where
  pub api_keys : List ApiKeyRow
  pub next_id : ℕ
  pub usage_logs : List UsageLog
  pub settings : List (String × String)
  pub faulty : Bool

-- `WHERE key_id = ? AND active = 1`, the row that `fetch_optional` returns.
unfoldable pub select_active : String → List ApiKeyRow → Option ApiKeyRow
select_active key_id [] = none
select_active key_id (row ∷ rows) =
    if str_eq row.key_id key_id && row.active then some row else select_active key_id rows

unfoldable pub contains_key : String → List ApiKeyRow → Bool
contains_key key_id [] = false
contains_key key_id (row ∷ rows) = str_eq row.key_id key_id || contains_key key_id rows

unfoldable pub contains_id : ℕ → List ApiKeyRow → Bool
contains_id id [] = false
contains_id id (row ∷ rows) = row.id == id || contains_id id rows

-- `UPDATE api_keys SET active = 0 WHERE key_id = ?`, with the trigger that stamps `updated_at`:
-- the rows, and how many were affected.
unfoldable pub deactivate : String → String → List ApiKeyRow → List ApiKeyRow × ℕ
deactivate time key_id [] = ([], 0)
deactivate time key_id (row ∷ rows) =
    let (rest, n) = deactivate time key_id rows in
    if str_eq row.key_id key_id
    then (record row { active = false; updated_at = time } ∷ rest, n + 1)
    else (row ∷ rest, n)

-- `DELETE FROM api_keys WHERE key_id = ?`.
unfoldable pub remove_key : String → List ApiKeyRow → List ApiKeyRow × ℕ
remove_key key_id [] = ([], 0)
remove_key key_id (row ∷ rows) =
    let (rest, n) = remove_key key_id rows in
    if str_eq row.key_id key_id then (rest, n + 1) else (row ∷ rest, n)

-- `ON DELETE CASCADE` of usage_logs: the logs of keys that are still there.
unfoldable pub cascade : List ApiKeyRow → List UsageLog → List UsageLog
cascade rows [] = []
cascade rows (log ∷ logs) =
    if contains_id log.api_key_id rows then log ∷ cascade rows logs else cascade rows logs

-- `INSERT INTO usage_logs`; the foreign key must exist. `none` is an error.
unfoldable pub insert_usage : UsageLog → Database → Option Database
insert_usage log db =
    if db.faulty || not (contains_id log.api_key_id db.api_keys)
    then none
    else some (record db { usage_logs = db.usage_logs ++ log ∷ [] })

-- `get_setting` and `set_setting` of src/db/settings.rs, on the rows of the table.
unfoldable pub lookup_setting : String → List (String × String) → Option String
lookup_setting key [] = none
lookup_setting key ((k, v) ∷ rows) = if str_eq k key then some v else lookup_setting key rows

unfoldable pub upsert_setting : String → String → List (String × String) → List (String × String)
upsert_setting key value [] = (key, value) ∷ []
upsert_setting key value ((k, v) ∷ rows) =
    if str_eq k key then (k, value) ∷ rows else (k, v) ∷ upsert_setting key value rows

unfoldable pub get_setting : String → Database → Option (Option String)
get_setting key db = if db.faulty then none else some (lookup_setting key db.settings)

unfoldable pub set_setting : String → String → Database → Option Database
set_setting key value db =
    if db.faulty then none else some (record db { settings = upsert_setting key value db.settings })

-- ===== src/Database/Settings.antt =====
-- The statements on the table of settings.
use Prim.Native.String.{String}
use text.Mathlib.TextEquality.{eq_iff}
use albion_rest_api.Base.{◌≡◌, ◌≢◌, refl, false, Bool-cases, inl, inr, some, List, [], ◌∷◌, arith}
use albion_rest_api.Database.{Database, lookup_setting, upsert_setting, get_setting, set_setting}

lookup_setting-upsert_setting :
    (key value : String) (rows : List (String × String))
    → lookup_setting key (upsert_setting key value rows) ≡ some value
unfolding lookup_setting upsert_setting
lookup_setting-upsert_setting key value [] = ground (arith, eq_iff key key)
lookup_setting-upsert_setting key value ((k, v) ∷ rows) =
    ground (arith, eq_iff k key, lookup_setting-upsert_setting key value rows)

lookup_setting-upsert_setting_ne :
    (key value other : String) (rows : List (String × String))
    → other ≢ key
    → lookup_setting other (upsert_setting key value rows) ≡ lookup_setting other rows
unfolding lookup_setting upsert_setting
lookup_setting-upsert_setting_ne key value other [] ne = ground (arith, eq_iff key other)
lookup_setting-upsert_setting_ne key value other ((k, v) ∷ rows) ne =
    ground (
      arith,
      eq_iff k key,
      eq_iff k other,
      lookup_setting-upsert_setting_ne key value other rows ne,
    )

set_setting-some :
    (key value : String) (db stored : Database)
    → set_setting key value db ≡ some stored
    → (db.faulty ≡ false) × (stored ≡ record db { settings = upsert_setting key value db.settings })
unfolding set_setting
set_setting-some key value db stored h = elim (Bool-cases db.faulty) [
  | inl broken ↦ absurd (ground (arith, broken, h))
  | inr works ↦ (works, ground (arith, works, h))
]

-- A setting that is stored is read back, and the others are kept.
pub get_setting-set_setting :
    (key value : String) (db stored : Database)
    → set_setting key value db ≡ some stored
    → (get_setting key stored ≡ some (some value))
      × ((other : String) → other ≢ key → get_setting other stored ≡ get_setting other db)
unfolding get_setting
get_setting-set_setting key value db stored h =
    let (works, is) = set_setting-some key value db stored h in
    (
      rw (is, works, lookup_setting-upsert_setting key value db.settings) refl,
      λ other ne.
          rw (is, works, lookup_setting-upsert_setting_ne key value other db.settings ne) refl,
    )

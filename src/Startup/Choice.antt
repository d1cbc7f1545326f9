-- ===== src/Startup/Choice.antt =====
-- The registry that src/main.rs chooses.
use Prim.Native.String.{String}
use text.Mathlib.Text.{◌==◌ as str_eq}
use albion_rest_api.Base.{
  ◌≡◌, refl, sym, ap, ◌∙◌, ◌⊎◌, inl, inr, Bool-cases, true, false, Option, none, some, Option-cases,
  unwrap_or, if◌then◌else◌, arith,
}
use albion_rest_api.Database.{Database, get_setting, set_setting}
use albion_rest_api.Registry.Service.{registry_key, choose_registry_url}

-- The configured address is taken, and stored if the statement works.
abbrev pub IsSeeded : String → Database → String → Database → Type 0
IsSeeded configured db url after =
    (str_eq url "" ≡ false)
    × (configured ≡ url)
    × (((set_setting registry_key url db ≡ none) × (after ≡ db))
        ⊎ (set_setting registry_key url db ≡ some after))

-- The stored address is taken if there is one and it is not empty, and else the configured one; `after`
-- is the database that is left.
abbrev pub IsChosen : String → Database → String → Database → Type 0
IsChosen configured db url after =
    ((get_setting registry_key db ≡ some (some url)) × (str_eq url "" ≡ false) × (after ≡ db))
    ⊎ (((stored : String)
          → get_setting registry_key db ≡ some (some stored)
          → str_eq stored "" ≡ true)
        × IsSeeded configured db url after)

abbrev seeded : String → Database → Option String × Database
seeded configured db =
    if str_eq configured ""
    then (none, db)
    else (some configured, unwrap_or (set_setting registry_key configured db) db)

seeded-IsSeeded :
    (configured url : String) (db after : Database)
    → seeded configured db ≡ (some url, after)
    → IsSeeded configured db url after
seeded-IsSeeded configured url db after h = elim (Bool-cases (str_eq configured "")) [
  | inl empty ↦ absurd (ground (arith, empty, h))
  | inr given ↦
      let is : Path (Option String × Database)
          (some configured, unwrap_or (set_setting registry_key configured db) db)
          (some url, after) =
        rw given at h in
      let same : configured ≡ url = some_inj (ap (λ r. r.0) is) in
      let left : unwrap_or (set_setting registry_key url db) db ≡ after =
        rw same at (ap (λ r. r.1) is) in
      (
        rw same at given,
        same,
        elim (Option-cases (set_setting registry_key url db)) [
          | inl fails ↦ inl (fails, ground (arith, fails, left))
          | inr (db', works) ↦ inr (ground (arith, works, left))
        ],
      )
]
  where
    some_inj : {a b : String} → Path (Option String) (some a) (some b) → a ≡ b
    some_inj e = cc

IsSeeded-seeded :
    (configured url : String) (db after : Database)
    → IsSeeded configured db url after
    → seeded configured db ≡ (some url, after)
IsSeeded-seeded configured url db after (given, same, inl (fails, left)) =
    rw (same, given, fails, left) refl
IsSeeded-seeded configured url db after (given, same, inr works) = rw (same, given, works) refl

pub choose_registry_url-IsChosen :
    (configured url : String) (db after : Database)
    → choose_registry_url configured db ≡ (some url, after)
    → IsChosen configured db url after
unfolding choose_registry_url
choose_registry_url-IsChosen configured url db after h = go (get_setting registry_key db) refl
  where
    go :
        (stored : Option (Option String))
        → get_setting registry_key db ≡ stored
        → IsChosen configured db url after
    go none is = inr (
      λ other k. absurd (ground (arith, is, k)),
      seeded-IsSeeded configured url db after (rw (choose_registry_url, is) at h),
    )
    go (some none) is = inr (
      λ other k. absurd (ground (arith, is, k)),
      seeded-IsSeeded configured url db after (rw (choose_registry_url, is) at h),
    )
    go (some (some stored)) is = elim (Bool-cases (str_eq stored "")) [
      | inl empty ↦ inr (
        λ other k. ground (arith, is, k, empty),
        seeded-IsSeeded configured url db after (rw (choose_registry_url, is, empty) at h),
      )
      | inr given ↦
          let pair : Path (Option String × Database) (some stored, db) (some url, after) =
            rw (choose_registry_url, is, given) at h in
          let same : stored ≡ url = cc in
          inl (is ∙ ap (λ s. some (some s)) same, rw same at given, sym (ap (λ r. r.1) pair))
    ]

pub IsChosen-choose_registry_url :
    (configured url : String) (db after : Database)
    → IsChosen configured db url after
    → choose_registry_url configured db ≡ (some url, after)
unfolding choose_registry_url
IsChosen-choose_registry_url configured url db after (inl (is, given, left)) =
    rw (choose_registry_url, is, given, left) refl
IsChosen-choose_registry_url configured url db after (inr (no_other, seed)) =
    go (get_setting registry_key db) refl
  where
    go :
        (stored : Option (Option String))
        → get_setting registry_key db ≡ stored
        → choose_registry_url configured db ≡ (some url, after)
    go none is = rw (choose_registry_url, is) (IsSeeded-seeded configured url db after seed)
    go (some none) is = rw (choose_registry_url, is) (IsSeeded-seeded configured url db after seed)
    go (some (some stored)) is =
        rw (choose_registry_url, is, no_other stored is)
          (IsSeeded-seeded configured url db after seed)

-- ===== src/Cache/Sample.antt =====
-- A cache that keeps what it has, for the tests of other modules.
use albion_rest_api.Base.{◌≡◌, refl, Option, ◌⊎◌, inl, inr, Bool-cases, none, some, Option-cases}
use albion_rest_api.Error.{ok, err}
use albion_rest_api.Cache.Keys.{Eq}
use albion_rest_api.Cache.{AppCache, Fetch, insert, Moka}

module _ {K V : Type 0} ⦃e : Eq K⦄ where
  unfoldable pub keep : K → Fetch V → AppCache K V → Fetch V × AppCache K V
  keep key fetch cache = elim (cache key) [
    | some value ↦ (some (ok value), cache)
    | none ↦ elim fetch [
      | none ↦ (none, cache)
      | some result ↦ elim result [
        | err e ↦ (some (err e), cache)
        | ok value ↦ (some (ok value), insert key value cache)
      ]
    ]
  ]

  pub keep-hit :
      (key : K) (fetch : Fetch V) (cache : AppCache K V) (value : V)
      → cache key ≡ some value
      → (keep key fetch cache).0 ≡ some (ok value)
  unfolding keep
  keep-hit key fetch cache value is = rw (keep, is) refl

  pub keep-miss :
      (key : K) (fetch : Fetch V) (cache : AppCache K V)
      → cache key ≡ none
      → (keep key fetch cache).0 ≡ fetch
  unfolding keep
  keep-miss key none cache is = rw (keep, is) refl
  keep-miss key (some (err e)) cache is = rw (keep, is) refl
  keep-miss key (some (ok value)) cache is = rw (keep, is) refl

  pub keep_entries :
      (key : K) (fetch : Fetch V) (cache : AppCache K V) (k : K) (v : V)
      → (keep key fetch cache).1 k ≡ some v
      → (cache k ≡ some v) ⊎ ((k ≡ key) × (cache key ≡ none) × (fetch ≡ some (ok v)))
  unfolding keep insert
  keep_entries key fetch cache k v found = elim (Option-cases (cache key)) [
    | inr (value, is) ↦ inl (rw (keep, is) at found)
    | inl is ↦ missed fetch is found
  ]
    where
      ok_of :
          (value : V)
          → Path (Option V) (some value) (some v)
          → Path (Fetch V) (some (ok value)) (some (ok v))
      ok_of value h = let is : value ≡ v = cc in rw is refl

      missed :
          (fetch : Fetch V)
          → cache key ≡ none
          → (keep key fetch cache).1 k ≡ some v
          → (cache k ≡ some v) ⊎ ((k ≡ key) × (cache key ≡ none) × (fetch ≡ some (ok v)))
      missed none is found = inl (rw (keep, is) at found)
      missed (some (err e)) is found = inl (rw (keep, is) at found)
      missed (some (ok value)) is found = elim (Bool-cases (e.beq k key)) [
        | inl same ↦
            inr (e.beq_sound k key same, is, ok_of value (rw (keep, is, insert, same) at found))
        | inr other ↦ inl (rw (keep, is, insert, other) at found)
      ]

abbrev pub keeping : Moka
keeping = record { try_get_with = keep; hit = keep-hit; miss = keep-miss; entries = keep_entries }

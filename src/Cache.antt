-- ===== src/Cache.antt =====
-- src/cache.rs, in front of the `moka` crate. A cache is the function of its live entries: the crate
-- may drop an entry at any time, when it is full or too old, and never makes one.
pub mod Keys
pub mod Transparent
pub mod Sample
mod Examples
use albion_rest_api.Base.{
  Bool, Option, none, some, List, [], ◌∷◌, ◌++◌, if◌then◌else◌, ap, ◌≡◌, ◌⊎◌,
}
use albion_rest_api.Error.{Result, ok}
use albion_rest_api.Cache.Keys.{Eq}

abbrev pub AppCache : Type 0 → Type 0 → Type 0
AppCache K V = K → Option V

abbrev pub empty_cache : {K V : Type 0} → AppCache K V
empty_cache _ = none

-- What a fetch comes to: `none` is one that panics.
abbrev pub Fetch : Type 0 → Type 0
Fetch V = Option (Result V)

module _ {K V : Type 0} ⦃e : Eq K⦄ where
  unfoldable pub insert : K → V → AppCache K V → AppCache K V
  insert key value cache k = if e.beq k key then some value else cache k

-- `try_get_with` of the `moka` crate, and what the crate documents of it: an entry is answered; else
-- the fetch is run and its result answered; and no entry comes in but a value that it has answered.
-- Which entries are dropped meanwhile, and when, is of the crate.
pub record Moka : Type 1 where
  pub try_get_with :
      {K V : Type 0} → ⦃e : Eq K⦄ → K → Fetch V → AppCache K V → Fetch V × AppCache K V
  pub hit :
      {K V : Type 0} ⦃e : Eq K⦄ (key : K) (fetch : Fetch V) (cache : AppCache K V) (value : V)
      → cache key ≡ some value
      → (try_get_with key fetch cache).0 ≡ some (ok value)
  pub miss :
      {K V : Type 0} ⦃e : Eq K⦄ (key : K) (fetch : Fetch V) (cache : AppCache K V)
      → cache key ≡ none
      → (try_get_with key fetch cache).0 ≡ fetch
  pub entries :
      {K V : Type 0} ⦃e : Eq K⦄ (key : K) (fetch : Fetch V) (cache : AppCache K V) (k : K) (v : V)
      → (try_get_with key fetch cache).1 k ≡ some v
      → (cache k ≡ some v) ⊎ ((k ≡ key) × (cache key ≡ none) × (fetch ≡ some (ok v)))

-- `get_or_try_insert`
unfoldable pub get_or_try_insert :
    {K V : Type 0} → ⦃e : Eq K⦄ → Moka → K → Fetch V → AppCache K V → Fetch V × AppCache K V
get_or_try_insert moka key fetch cache = moka.try_get_with key fetch cache

-- The group: how each registered cache of a state is emptied.
abbrev pub CacheGroup : Type 0 → Type 0
CacheGroup S = List (S → S)

-- `register`, by the way to the cache.
unfoldable pub register : {S K V : Type 0} → (AppCache K V → S → S) → CacheGroup S → CacheGroup S
register write caches = caches ++ write empty_cache ∷ []

unfoldable pub invalidate_all : {S : Type 0} → CacheGroup S → S → S
invalidate_all [] s = s
invalidate_all (cache ∷ caches) s = invalidate_all caches (cache s)

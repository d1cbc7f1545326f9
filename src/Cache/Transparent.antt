-- ===== src/Cache/Transparent.antt =====
-- A cache in front of a function that does not change cannot be told from the function.
use albion_rest_api.Base.{
  ◌≡◌, refl, sym, ap, ap₂, ◌∙◌, Bool, none, some, List, [], ◌∷◌, if◌then◌else◌, Bool-cases,
  Option-cases, inl, inr, arith,
}
use albion_rest_api.Error.{ok}
use albion_rest_api.Cache.Keys.{Eq}
use albion_rest_api.Cache.{AppCache, empty_cache, Fetch, insert, Moka, get_or_try_insert}

module _ {K V : Type 0} (f : K → Fetch V) where
  -- Every entry is what the function answers.
  unfoldable pub IsFresh : AppCache K V → Type 0
  IsFresh cache = (k : K) (v : V) → cache k ≡ some v → f k ≡ some (ok v)

  pub empty-IsFresh : IsFresh empty_cache
  unfolding IsFresh
  empty-IsFresh k v found = absurd cc

  module _ ⦃e : Eq K⦄ where
    pub insert-IsFresh :
        (key : K) (value : V) (cache : AppCache K V)
        → IsFresh cache
        → f key ≡ some (ok value)
        → IsFresh (insert key value cache)
    unfolding IsFresh insert
    insert-IsFresh key value cache fresh h k v found = elim (Bool-cases (e.beq k key)) [
      | inl same ↦
          let at : k ≡ key = e.beq_sound k key same in
          let is : value ≡ v = ground (arith, same, found) in rw (at, h, is) refl
      | inr other ↦ fresh k v (ground (arith, other, found))
    ]

    -- A request is answered as the function would, and leaves every entry so.
    pub get_or_try_insert-IsFresh :
        (moka : Moka) (key : K) (cache : AppCache K V)
        → IsFresh cache
        → ((get_or_try_insert moka key (f key) cache).0 ≡ f key)
          × IsFresh (get_or_try_insert moka key (f key) cache).1
    unfolding get_or_try_insert IsFresh
    get_or_try_insert-IsFresh moka key cache fresh = (
      elim (Option-cases (cache key)) [
        | inr (v, hit) ↦ moka.hit key (f key) cache v hit ∙ sym (fresh key v hit)
        | inl miss ↦ moka.miss key (f key) cache miss
      ],
      λ k v found. elim (moka.entries key (f key) cache k v found) [
        | inl old ↦ fresh k v old
        | inr (same, _, came) ↦ ap f same ∙ came
      ],
    )

    -- What happens to a cache: a request, or the loss of some entries.
    pub data Event : Type 0 where
      request : K → Event
      evict : (K → Bool) → Event

    unfoldable pub answers : Moka → List Event → AppCache K V → List (Fetch V)
    answers moka [] cache = []
    answers moka (request key ∷ events) cache =
        let (answered, next) = get_or_try_insert moka key (f key) cache in
        answered ∷ answers moka events next
    answers moka (evict lost ∷ events) cache =
        answers moka events (λ k. if lost k then none else cache k)

    unfoldable pub direct_answers : List Event → List (Fetch V)
    direct_answers [] = []
    direct_answers (request key ∷ events) = f key ∷ direct_answers events
    direct_answers (evict _ ∷ events) = direct_answers events

    pub evict-IsFresh :
        (lost : K → Bool) (cache : AppCache K V)
        → IsFresh cache
        → IsFresh (λ k. if lost k then none else cache k)
    unfolding IsFresh
    evict-IsFresh lost cache fresh k v found = elim (Bool-cases (lost k)) [
      | inl gone ↦ absurd (ground (arith, gone, found))
      | inr kept ↦ fresh k v (ground (arith, kept, found))
    ]

    -- From a cache whose entries are all answers of a function that does not change, every sequence
    -- of requests is answered as the function would, whatever entries are lost between them.
    pub answers-direct :
        (moka : Moka) (events : List Event) (cache : AppCache K V)
        → IsFresh cache
        → answers moka events cache ≡ direct_answers events
    unfolding answers direct_answers
    answers-direct moka [] cache fresh = refl
    answers-direct moka (request key ∷ events) cache fresh =
        let (same, next) = get_or_try_insert-IsFresh moka key cache fresh in
        ap₂ (◌∷◌) same
          (answers-direct moka events (get_or_try_insert moka key (f key) cache).1 next)
    answers-direct moka (evict lost ∷ events) cache fresh =
        answers-direct moka events (λ k. if lost k then none else cache k)
          (evict-IsFresh lost cache fresh)

-- ===== src/Cache/Examples.antt =====
-- A cache before a small function.
use albion_rest_api.Base.{ℕ, ◌≡◌, refl, true, none, some, List, [], ◌∷◌, ◌==◌, ltb, if◌then◌else◌}
use albion_rest_api.Error.{ok, err, not_found}
use albion_rest_api.Cache.Keys.{nat_eq}
use albion_rest_api.Cache.{Fetch, empty_cache, insert, get_or_try_insert}
use albion_rest_api.Cache.Sample.{keep, keeping}
use albion_rest_api.Cache.Transparent.{
  empty-IsFresh, Event, request, evict, answers, direct_answers, answers-direct,
}

-- Panics at 0, and finds the numbers below 5.
abbrev lookup : ℕ → Fetch ℕ
lookup k =
    if k == 0
    then none
    else if ltb k 5
    then some (ok k)
    else some (err (not_found "no such number"))

abbrev visits : List (Event lookup)
visits = request 3 ∷ request 7 ∷ request 3 ∷ evict (λ _. true) ∷ request 0 ∷ request 3 ∷ []

answers_run :
    answers lookup keeping visits empty_cache
    ≡ some (ok 3) ∷ some (err (not_found "no such number")) ∷ some (ok 3) ∷ none ∷ some (ok 3) ∷ []
unfolding answers insert get_or_try_insert keep
answers_run = refl

answers-direct_run : answers lookup keeping visits empty_cache ≡ direct_answers lookup visits
answers-direct_run = answers-direct lookup keeping visits empty_cache (empty-IsFresh lookup)

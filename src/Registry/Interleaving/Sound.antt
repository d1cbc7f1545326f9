-- ===== src/Registry/Interleaving/Sound.antt =====
-- What the entries of a cache are while requests run beside the update of src/routes/admin.rs.
use mathlib.Core.Path.{subst}
use albion_rest_api.Base.{
  ◌≡◌, refl, sym, ap, ◌∙◌, some, List, [], ◌∷◌, ◌++◌, All, arith, inl, inr, ◌≢◌, Bool-cases,
}
use albion_rest_api.Error.{ok}
use albion_rest_api.Cache.Keys.{Eq}
use albion_rest_api.Cache.{AppCache, Fetch, insert}
use albion_rest_api.Cache.Transparent.{IsFresh, insert-IsFresh, evict-IsFresh, empty-IsFresh}
use albion_rest_api.Registry.Interleaving.{
  Locking, around, Shared, Step, begin, finish, store, release, store_late, write, clear, expire,
  Reach, here, next, IsAnswered, started,
}

module _ {P K V : Type 0} (fetch : P → K → Fetch V) ⦃e : Eq K⦄ where
  abbrev IsServed : P → List P → Type 0
  IsServed p ps = (k : K) (v : V) → fetch p k ≡ some (ok v) → IsAnswered fetch ps k v

  -- Every request sees the provider that serves, and every answer is one of a provider that has
  -- served.
  abbrev IsSound : Shared fetch → Type 0
  IsSound s =
      All (λ reader. reader.1 ≡ s.provider) s.readers
      × IsServed s.provider s.served
      × All (λ answer. IsAnswered fetch s.served answer.0 answer.1) s.fetched
      × ((k : K) (v : V) → s.cache k ≡ some v → IsAnswered fetch s.served k v)

  -- Without answers that wait, and unless an update is pending, every entry of the cache is what the
  -- provider that serves answers.
  record IsCurrent (s : Shared fetch) : Type 0 where
    no_waiting : s.fetched ≡ []
    fresh : s.pending ≡ 0 → IsFresh (fetch s.provider) s.cache

  All-remove :
      {A : Type 0} (Q : A → Type 0) (before : List A) (x : A) (after : List A)
      → All Q (before ++ x ∷ after)
      → Q x × All Q (before ++ after)
  All-remove Q [] x after (h, hs) = (h, hs)
  All-remove Q (y ∷ before) x after (h, hs) =
      let (at, rest) = All-remove Q before x after hs in (at, (h, rest))

  not_nil : {A : Type 0} (before : List A) (x : A) (after : List A) → before ++ x ∷ after ≢ []
  not_nil [] x after e = absurd cc
  not_nil (y ∷ before) x after e = absurd cc

  All_weaken :
      {A : Type 0} (Q R : A → Type 0) (xs : List A) → ((x : A) → Q x → R x) → All Q xs → All R xs
  All_weaken Q R [] f h = tt
  All_weaken Q R (x ∷ xs) f (h, hs) = (f x h, All_weaken Q R xs f hs)

  insert-IsAnswered :
      (ps : List P) (key : K) (value : V) (cache : AppCache K V)
      → IsAnswered fetch ps key value
      → ((k : K) (v : V) → cache k ≡ some v → IsAnswered fetch ps k v)
      → (k : K) (v : V) → insert key value cache k ≡ some v
      → IsAnswered fetch ps k v
  unfolding insert
  insert-IsAnswered ps key value cache new old k v found = elim (Bool-cases (e.beq k key)) [
    | inl same ↦
        let at : key ≡ k = sym (e.beq_sound k key same) in
        let is : value ≡ v = ground (arith, same, found) in
        subst (IsAnswered fetch ps k) is (subst (λ j. IsAnswered fetch ps j value) at new)
    | inr other ↦ old k v (ground (arith, other, found))
  ]

  Step-IsSound : {l : Locking} {s t : Shared fetch} → Step fetch l s t → IsSound s → IsSound t
  Step-IsSound {l} {s} (begin key) (seen, current, waiting, cached) =
      ((refl, seen), current, waiting, cached)
  Step-IsSound {l} {s} (finish before after reader at) (seen, current, waiting, cached) =
      ((All-remove _ before reader after (rw (sym at) seen)).1, current, waiting, cached)
  Step-IsSound {l} {s} (store before after key p value _ at answered)
        (seen, current, waiting, cached) =
      let (now, rest) = All-remove _ before (key, p) after (rw (sym at) seen) in
      let new = current key value (ap (λ q. fetch q key) (sym now) ∙ answered) in
      (rest, current, waiting, insert-IsAnswered s.served key value s.cache new cached)
  Step-IsSound {l} {s} (release before after key p value _ at answered)
        (seen, current, waiting, cached) =
      let (now, rest) = All-remove _ before (key, p) after (rw (sym at) seen) in
      let new = current key value (ap (λ q. fetch q key) (sym now) ∙ answered) in
      (rest, current, (new, waiting), cached)
  Step-IsSound {l} {s} (store_late before after key value at) (seen, current, waiting, cached) =
      let (new, rest) =
        All-remove (λ answer. IsAnswered fetch s.served answer.0 answer.1) before (key, value) after
          (rw (sym at) waiting) in
      (seen, current, rest, insert-IsAnswered s.served key value s.cache new cached)
  Step-IsSound {l} {s} (write p none_read) (seen, current, waiting, cached) = (
    rw none_read tt,
    λ k v answered. inl answered,
    All_weaken (λ answer. IsAnswered fetch s.served answer.0 answer.1)
        (λ answer. IsAnswered fetch (p ∷ s.served) answer.0 answer.1) s.fetched (λ x old. inr old)
        waiting,
    λ k v found. inr (cached k v found),
  )
  Step-IsSound {l} {s} (clear n late) (seen, current, waiting, cached) =
      (seen, current, waiting, λ k v found. absurd cc)
  Step-IsSound {l} {s} (expire lost) (seen, current, waiting, cached) = (
    seen,
    current,
    waiting,
    λ k v found. elim (Bool-cases (lost k)) [
      | inl gone ↦ absurd (ground (arith, gone, found))
      | inr kept ↦ cached k v (ground (arith, kept, found))
    ],
  )

  Step-IsCurrent :
      {s t : Shared fetch} → Step fetch around s t → IsSound s → IsCurrent s → IsCurrent t
  Step-IsCurrent {s} (begin key) sound h = record { no_waiting = h.no_waiting; fresh = h.fresh }
  Step-IsCurrent {s} (finish before after reader at) sound h = record {
    no_waiting = h.no_waiting;
    fresh = h.fresh;
  }
  Step-IsCurrent {s} (store before after key p value _ at answered) sound h =
      let (now, rest) =
        All-remove (λ reader. reader.1 ≡ s.provider) before (key, p) after (rw (sym at) sound.0) in
      record {
        no_waiting = h.no_waiting;
        fresh = λ idle.
            insert-IsFresh (fetch s.provider) key value s.cache (h.fresh idle)
              (ap (λ q. fetch q key) (sym now) ∙ answered);
      }
  Step-IsCurrent {s} (release before after key p value other at answered) sound h = absurd cc
  Step-IsCurrent {s} (store_late before after key value at) sound h =
      absurd (not_nil before (key, value) after (sym at ∙ h.no_waiting))
  Step-IsCurrent {s} (write p none_read) sound h = record {
    no_waiting = h.no_waiting;
    fresh = λ idle. absurd (omega arith);
  }
  Step-IsCurrent {s} (clear n late) sound h = record {
    no_waiting = h.no_waiting;
    fresh = λ _. empty-IsFresh (fetch s.provider);
  }
  Step-IsCurrent {s} (expire lost) sound h = record {
    no_waiting = h.no_waiting;
    fresh = λ idle. evict-IsFresh (fetch s.provider) lost s.cache (h.fresh idle);
  }

  Reach-IsSound : {l : Locking} {s t : Shared fetch} → IsSound s → Reach fetch l s t → IsSound t
  Reach-IsSound h here = h
  Reach-IsSound h (next r step) = Step-IsSound step (Reach-IsSound h r)

  Reach-IsCurrent :
      {s t : Shared fetch} → IsSound s → IsCurrent s → Reach fetch around s t → IsCurrent t
  Reach-IsCurrent sound h here = h
  Reach-IsCurrent sound h (next r step) =
      Step-IsCurrent step (Reach-IsSound sound r) (Reach-IsCurrent sound h r)

  started-IsSound : (p : P) → IsSound (started fetch p)
  started-IsSound p = (tt, λ k v answered. inl answered, tt, λ k v found. absurd cc)

  -- From a start with an empty cache, in whatever order the requests of one cache and the updates of
  -- the registry run: a request that holds the read lock sees the provider that serves, and every
  -- entry of the cache is the answer of a provider that serves or has served. If the handlers of the
  -- cache hold the lock around the call of the cache, then while no update is pending every entry is
  -- what the provider that serves then answers, so none is left of an earlier one.
  pub Reach-IsCoherent_from_start :
      (locking : Locking) (p : P) (s : Shared fetch)
      → Reach fetch locking (started fetch p) s
      → All (λ reader. reader.1 ≡ s.provider) s.readers
        × ((k : K) (v : V) → s.cache k ≡ some v → IsAnswered fetch s.served k v)
        × (locking ≡ around
            → s.pending ≡ 0
            → (k : K) (v : V) → s.cache k ≡ some v
            → fetch s.provider k ≡ some (ok v))
  unfolding IsFresh
  Reach-IsCoherent_from_start locking p s reached =
      let sound = Reach-IsSound (started-IsSound p) reached in
      (
        sound.0,
        sound.3,
        λ holds.
            (Reach-IsCurrent (started-IsSound p)
              (record { no_waiting = refl; fresh = λ _. empty-IsFresh (fetch p) })
              (subst (λ l. Reach fetch l (started fetch p) s) holds reached)).fresh,
      )

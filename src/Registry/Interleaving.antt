-- ===== src/Registry/Interleaving.antt =====
-- The requests that run while `put_registry` of src/routes/admin.rs replaces the provider. The
-- listings of orders by address and by token, and the trades of a transaction and of an address, hold
-- the read lock of the provider from before the look-up in their cache until after the insertion. The
-- detail of an order and the quote of a swap take it inside the fetch, and have released it when the
-- cache stores the answer.
pub mod Sound
use albion_rest_api.Base.{ℕ, suc, ◌≡◌, Bool, none, some, List, [], ◌∷◌, ◌++◌, ◌⊎◌, if◌then◌else◌}
use albion_rest_api.Error.{ok}
use albion_rest_api.Cache.Keys.{Eq}
use albion_rest_api.Cache.{AppCache, Fetch, empty_cache, insert}

-- Where a handler holds the read lock: around the call of the cache, or inside the fetch.
pub data Locking : Type 0 where
  around : Locking
  inside : Locking

-- `fetch p k` is what the handler fetches for the key k from the provider p.
module _ {P K V : Type 0} (fetch : P → K → Fetch V) ⦃e : Eq K⦄ where
  -- A reader is a request that holds the read lock: its key, and the provider behind the guard.
  -- `fetched` are the answers of requests that have released it and have not stored them yet, and
  -- `pending` counts the updates that have released the write lock and have not emptied the cache yet.
  -- `served` are the providers that have served so far, which no handler reads.
  pub record Shared : Type 0 where
    pub provider : P
    pub readers : List (K × P)
    pub fetched : List (K × V)
    pub pending : ℕ
    pub cache : AppCache K V
    pub served : List P

  pub data Step (locking : Locking) (s : Shared) : Shared → Type 0 where
    -- takes the read lock
    begin : (key : K) → Step locking s (record s { readers = (key, s.provider) ∷ s.readers })
    -- ends with an entry of the cache, an error or a panic, and releases the lock
    finish :
        (before after : List (K × P)) (reader : K × P)
        → s.readers ≡ before ++ reader ∷ after
        → Step locking s (record s { readers = before ++ after })
    -- ends with an answer, which is inserted before the lock is released
    store :
        (before after : List (K × P)) (key : K) (p : P) (value : V)
        → locking ≡ around
        → s.readers ≡ before ++ (key, p) ∷ after
        → fetch p key ≡ some (ok value)
        → Step locking s (record s { readers = before ++ after; cache = insert key value s.cache })
    -- has fetched an answer, and releases the lock
    release :
        (before after : List (K × P)) (key : K) (p : P) (value : V)
        → locking ≡ inside
        → s.readers ≡ before ++ (key, p) ∷ after
        → fetch p key ≡ some (ok value)
        → Step locking s
            (record s { readers = before ++ after; fetched = (key, value) ∷ s.fetched })
    -- inserts the answer
    store_late :
        (before after : List (K × V)) (key : K) (value : V)
        → s.fetched ≡ before ++ (key, value) ∷ after
        → Step locking s (record s { fetched = before ++ after; cache = insert key value s.cache })
    -- takes the write lock, which no reader holds then, replaces the provider, and releases it
    write :
        (p : P)
        → s.readers ≡ []
        → Step locking s (record s { provider = p; pending = suc s.pending; served = p ∷ s.served })
    -- empties the cache
    clear :
        (n : ℕ) → s.pending ≡ suc n → Step locking s (record s { pending = n; cache = empty_cache })
    -- an entry is lost
    expire :
        (lost : K → Bool)
        → Step locking s (record s { cache = λ k. if lost k then none else s.cache k })

  pub data Reach (locking : Locking) (s : Shared) : Shared → Type 0 where
    here : Reach locking s s
    next : {t u : Shared} → Reach locking s t → Step locking t u → Reach locking s u

  -- A provider of the list gives this answer.
  abbrev pub IsAnswered : List P → K → V → Type 0
  IsAnswered [] k v = ⊥
  IsAnswered (p ∷ ps) k v = (fetch p k ≡ some (ok v)) ⊎ IsAnswered ps k v

  -- The service at its start.
  abbrev pub started : P → Shared
  started p = record {
    provider = p;
    readers = [];
    fetched = [];
    pending = 0;
    cache = empty_cache;
    served = p ∷ [];
  }

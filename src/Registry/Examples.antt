-- ===== src/Registry/Examples.antt =====
-- Updates of the registry, a restart, and settings, on small inputs.
use Prim.Native.String.{String}
use albion_rest_api.Base.{ℕ, ◌≡◌, refl, true, some, [], ◌∷◌, All}
use albion_rest_api.Error.{ok, err, bad_request}
use albion_rest_api.Text.Lines.{strip_cr, pieces, lines_of, lines, starts_with}
use albion_rest_api.Raindex.Sample.{sample}
use albion_rest_api.Database.{lookup_setting, upsert_setting, get_setting, set_setting}
use albion_rest_api.Cache.Keys.{nat_eq}
use albion_rest_api.Cache.{Fetch, empty_cache, insert, register, invalidate_all}
use albion_rest_api.Registry.{error_text, runs, panics, init_client, load}
use albion_rest_api.Registry.Sample.{library, database, provider, stored, service, config}
use albion_rest_api.Registry.Metaboards.{unlines, neutralize_lines, neutralize_metaboards}
use albion_rest_api.Registry.Service.{
  empty_caches, registry_caches, Service, replace_provider, put_registry, get_registry,
  choose_registry_url, start_direct_trades, serve_from, serve,
}
use albion_rest_api.Registry.Update.{IsOutcome, put_registry-IsOutcome, serve-put_registry}
use albion_rest_api.Registry.Interleaving.{
  Shared, around, inside, begin, store, release, store_late, write, clear, Reach, here, next,
  started, IsAnswered,
}
use albion_rest_api.Registry.Interleaving.Sound.{Reach-IsCoherent_from_start}

program : Unit {0}
unfolding error_text init_client load strip_cr pieces lines_of lines starts_with neutralize_lines
    unlines neutralize_metaboards lookup_setting upsert_setting get_setting set_setting register
    invalidate_all registry_caches replace_provider put_registry get_registry choose_registry_url
    start_direct_trades serve_from serve
program = tt

-- The first start stores the configured address.
start_run : serve sample library runs (λ _. true) (λ _. true) config database ≡ some service
unfolding program
start_run = refl

-- The fetcher of the new service is still that of the old orderbook.
abbrev updated : Service sample library
updated = record service { provider = provider "b" ((1, 8) ∷ []); database = stored "b" }

update_run : put_registry sample library runs "b" service ≡ (ok "b", updated)
unfolding program
update_run = refl

unreachable_run :
    put_registry sample library runs "down" service
    ≡ (err (bad_request "failed to load registry: failed to load registry: unreachable"), service)
unfolding program
unreachable_run = refl

panic_run :
    put_registry sample library panics "b" service
    ≡ (err (bad_request "failed to load registry: worker thread panicked"), service)
unfolding program
panic_run = refl

answer_run : get_registry sample library updated ≡ ok "b"
unfolding program
answer_run = refl

put_registry-IsOutcome_example :
    IsOutcome sample library runs "b" service (put_registry sample library runs "b" service)
put_registry-IsOutcome_example = put_registry-IsOutcome sample library runs "b" service

serve-put_registry_example :
    serve sample library runs (λ _. true) (λ _. true) config updated.database
    ≡ some (record {
      provider = updated.provider;
      database = updated.database;
      caches = empty_caches;
      direct_trades = start_direct_trades sample library (λ _. true) (λ _. true) updated.provider;
    })
serve-put_registry_example =
    serve-put_registry sample library runs "b" service updated (λ _. true) (λ _. true) config
      update_run refl

abbrev yaml : String
yaml =
    "networks:\n  base:\nmetaboards: # of the networks\n  base: https://a\n\n  other: https://b\r\ntokens:\n"

-- A comment at the start of a line ends the section for the loop, and the entry after it is kept.
comment_run :
    neutralize_metaboards "metaboards:\n  base: https://a\n# more\n  other: https://b\n"
    ≡ "metaboards:\n  _disabled: https://localhost\n# more\n  other: https://b\n"
unfolding program
comment_run = refl

-- A provider answers with its own number.
abbrev number : ℕ → ℕ → Fetch ℕ
number p k = some (ok p)

-- A request fills the cache, and an update to provider 2 replaces the provider and empties it.
abbrev last : Shared number
last = record {
  provider = 2;
  readers = (6, 2) ∷ [];
  fetched = [];
  pending = 0;
  cache = empty_cache;
  served = 2 ∷ 1 ∷ [];
}

last_reached : Reach number around (started number 1) last
last_reached =
    next
      (next (next (next (next here (begin 5)) (store [] [] 5 1 1 refl refl refl)) (write 2 refl))
        (clear 0 refl))
      (begin 6)

-- A handler that has released the lock stores the answer of provider 1 after the update.
abbrev stale : Shared number
stale = record {
  provider = 2;
  readers = [];
  fetched = [];
  pending = 0;
  cache = insert 5 1 empty_cache;
  served = 2 ∷ 1 ∷ [];
}

stale_reached : Reach number inside (started number 1) stale
stale_reached =
    next
      (next (next (next (next here (begin 5)) (release [] [] 5 1 1 refl refl refl)) (write 2 refl))
        (clear 0 refl))
      (store_late [] [] 5 1 refl)

stale_entry : (stale.cache 5 ≡ some 1) × (number stale.provider 5 ≡ some (ok 2))
unfolding insert
stale_entry = (refl, refl)

Reach-IsCoherent_from_start_example :
    All {A = ℕ × ℕ} (λ reader. reader.1 ≡ 2) ((6, 2) ∷ [])
    × ((k v : ℕ) → last.cache k ≡ some v → IsAnswered number last.served k v)
    × (around ≡ around
        → last.pending ≡ 0
        → (k v : ℕ) → last.cache k ≡ some v
        → number last.provider k ≡ some (ok v))
Reach-IsCoherent_from_start_example = Reach-IsCoherent_from_start number around 1 last last_reached

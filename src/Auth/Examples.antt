-- ===== src/Auth/Examples.antt =====
-- Keys, requests and commands on a small database.
use Prim.Native.Char.{Char}
use mathlib.Core.List.{Perm}
use text.Mathlib.TextEquality.{eq_iff}
use albion_rest_api.Base.{ℕ, ◌≡◌, ◌≢◌, ◌↔◌, ◌⊎◌, refl, true, false, [], none, some, arith}
use albion_rest_api.Error.{unauthorized, rate_limited}
use albion_rest_api.RateLimiter.{
  new, check_global, check_per_key, prune_window, decide_window, compute_reset, clean_up,
  put_window,
}
use albion_rest_api.Text.{◌+++◌, byte_len, split_at_byte, eq_ignore_ascii_case, split_once}
use albion_rest_api.Database.{
  ApiKeyRow, Database, select_active, contains_key, contains_id, deactivate, remove_key, cascade,
}
use albion_rest_api.Database.Keys.{IsValid}
use albion_rest_api.Cli.{
  Draw, create, created, revoked, deleted, hash_secret, create_key, revoke_key, delete_key,
  handle_keys_command, listed, list_keys,
}
use albion_rest_api.Cli.Valid.{handle_keys_command-IsValid}
use albion_rest_api.Cli.Listing.{IsByAge, list_keys_lem}
use albion_rest_api.Auth.Sample.{plain, codecs, row, db, reading, managed, fresh, header}
use albion_rest_api.Auth.{
  authenticate_admin, success, error, panicked, Managed, credentials_of, verify_key, settle,
  remember, cache_once, charge_key, authenticate, limit_global, guard_route, rate_limit_headers,
  key_of_row,
}
use albion_rest_api.Auth.Sound.{IsGranted, authenticate-success_iff}
use albion_rest_api.Auth.Lifecycle.{
  IsSoundHashing, revoke_key-authenticate, delete_key-authenticate, verify_key-create_key,
}
use albion_rest_api.Auth.Credentials.{
  CutsChar, credentials_of-panicked_iff, credentials_of-ne-panicked, credentials_of_basic,
}
use albion_rest_api.Auth.Limits.{guard_route-429}
use albion_rest_api.Auth.Statuses.{fits, guard_route-fits}
use albion_rest_api.Auth.Usage.{IsAuthorized, guard_route_id_iff, guard_route-401}

program : Unit {0}
unfolding new check_global check_per_key prune_window decide_window compute_reset clean_up
    put_window byte_len split_at_byte eq_ignore_ascii_case split_once select_active contains_key
    contains_id deactivate remove_key cascade hash_secret create_key revoke_key delete_key
    credentials_of verify_key settle remember cache_once charge_key authenticate limit_global
    guard_route rate_limit_headers
program = tt

given : credentials_of codecs header ≡ success ("k", "s:1")
unfolding program
given = refl

granted : IsGranted codecs reading header (managed db 9) (key_of_row row)
unfolding program
granted = record {
  db = db;
  row = row;
  name = "k";
  secret = "s:1";
  parsed = "s:1";
  limiter = new 9 1;
  info = some (record { limit = 1; remaining = 0; reset = 67 });
  has_pool = refl;
  is_up = refl;
  given = refl;
  selected = refl;
  parses = refl;
  verified = refl;
  has_limiter = refl;
  admitted = refl;
  is_key = refl;
}

authenticate-success_iff_example :
    ((authenticate codecs reading header (managed db 9) fresh).0 ≡ success (key_of_row row))
    ↔ IsGranted codecs reading header (managed db 9) (key_of_row row)
authenticate-success_iff_example =
    authenticate-success_iff codecs reading header (managed db 9) fresh (key_of_row row)

abbrev revoked_db : Database
revoked_db = record db {
  api_keys = mathlib.Core.List.◌∷◌ (record row { active = false; updated_at = "u" }) [];
}

did_revoke : revoke_key "u" "k" db ≡ (revoked "k", revoked_db)
unfolding program
did_revoke = refl

revoke_key-authenticate_example :
    authenticate codecs reading header (managed revoked_db 9) fresh
    ≡ (error 401 (unauthorized "invalid credentials"), managed revoked_db 9, fresh)
revoke_key-authenticate_example =
    revoke_key-authenticate codecs reading header (managed revoked_db 9) fresh "u" "k" "s:1" db
      revoked_db did_revoke refl given

abbrev empty_db : Database
empty_db = record db { api_keys = [] }

did_delete : delete_key "k" db ≡ (deleted "k", empty_db)
unfolding program
did_delete = refl

delete_key-authenticate_run :
    authenticate codecs reading header (managed empty_db 9) fresh
    ≡ (error 401 (unauthorized "invalid credentials"), managed empty_db 9, fresh)
delete_key-authenticate_run =
    delete_key-authenticate codecs reading header (managed empty_db 9) fresh "k" "s:1" db empty_db
      did_delete refl given

abbrev draw : Draw
draw = record { uuid = "k"; secret = "s:1"; salt = ""; time = "t" }

plain-IsSoundHashing : IsSoundHashing plain
plain-IsSoundHashing = record {
  verify-hash = λ secret salt hash e. (hash, refl, (eq_iff secret hash).1 (ground arith));
}

abbrev created_db : Database
created_db = record db { api_keys = mathlib.Core.List.◌∷◌ (record row { id = 2 }) []; next_id = 3 }

did_create :
    create_key plain draw "l" "o" false (record empty_db { next_id = 2 })
    ≡ (created "k" "s:1", created_db)
unfolding program
did_create = refl

verify_key-create_key_example :
    (r : ApiKeyRow) × (verify_key codecs created_db ("k", "s:1") ≡ success r)
    × (r.id ≡ 2)
    × (r.key_id ≡ "k")
    × (r.label ≡ "l")
    × (r.owner ≡ "o")
    × (r.is_admin ≡ false)
verify_key-create_key_example =
    verify_key-create_key codecs draw "l" "o" false (record empty_db { next_id = 2 }) created_db "k"
      "s:1" plain-IsSoundHashing did_create

db-IsValid : IsValid db
unfolding contains_key contains_id
db-IsValid = record {
  unique_keys = (refl, tt);
  unique_ids = (refl, tt);
  fresh = (omega arith, tt);
  owned = tt;
}

handle_keys_command-IsValid_run :
    IsValid (handle_keys_command plain (record draw { uuid = "j" }) (create "l" "o" true) db).1
handle_keys_command-IsValid_run =
    handle_keys_command-IsValid plain (record draw { uuid = "j" }) (create "l" "o" true) db
      db-IsValid

guard_route_id_iff_example :
    ((guard_route codecs reading reading header (managed db 9) fresh).2.auth_key_id ≡ some (some 1))
    ↔ (((limit_global reading (managed db 9) fresh).0 ≡ success tt)
        × ((r : ApiKeyRow) × IsAuthorized codecs header (managed db 9) r × (r.id ≡ 1)))
guard_route_id_iff_example =
    guard_route_id_iff codecs reading reading header (managed db 9) fresh 1 refl

was_401 :
    (guard_route codecs reading reading none (managed db 9) fresh).0
    ≡ error 401 (unauthorized "missing Authorization header")
unfolding program
was_401 = refl

guard_route-401_run :
    ((guard_route codecs reading reading none (managed db 9) fresh).1.rate_limiter
      ≡ some (check_global reading (new 9 1)).1)
    × ((guard_route codecs reading reading none (managed db 9) fresh).2.auth_key_id ≡ none)
guard_route-401_run =
    guard_route-401 codecs reading reading none (managed db 9) fresh (new 9 1)
      (unauthorized "missing Authorization header") refl was_401

-- The limiter after one admitted request for the key.
abbrev charged : Managed
charged = record { pool = some db; rate_limiter = some (check_per_key reading 1 (new 9 1)).1 }

was_429 :
    (guard_route codecs reading reading header charged fresh).0
    ≡ error 429 (rate_limited "Too many requests, please try again later")
unfolding program
was_429 = refl

guard_route-429_example :
    ((reset : ℕ) × (rate_limit_headers (guard_route codecs reading reading header charged fresh).2
        ≡ some ((check_per_key reading 1 (new 9 1)).1.global_rpm, 0, reset)))
    ⊎ ((reset : ℕ) × (rate_limit_headers (guard_route codecs reading reading header charged fresh).2
          ≡ some ((check_per_key reading 1 (new 9 1)).1.per_key_rpm, 0, reset)))
guard_route-429_example =
    guard_route-429 codecs reading reading header charged fresh
      (check_per_key reading 1 (new 9 1)).1
      (rate_limited "Too many requests, please try again later") refl was_429

-- The two bytes of the last letter of the scheme reach over the slice.
credentials_of-panicked_iff_example :
    (credentials_of codecs (some "Basicé") ≡ panicked) ↔ CutsChar "Basicé" 6
credentials_of-panicked_iff_example = credentials_of-panicked_iff codecs "Basicé"

cut_inside : credentials_of codecs (some "Basicé") ≡ panicked
unfolding program
cut_inside = refl

credentials_of-ne-panicked_example : credentials_of codecs (some "Bearer x") ≢ panicked
credentials_of-ne-panicked_example = credentials_of-ne-panicked codecs "Bearer x" (omega arith)

abbrev colon : Char
colon = ":"

credentials_of_basic_run :
    credentials_of codecs (some ("bAsIc " +++ "azpzOjE=")) ≡ success ("k", "s:1")
unfolding program
credentials_of_basic_run =
    credentials_of_basic codecs "bAsIc " "azpzOjE=" "k" "s:1" colon [] refl refl refl refl refl
      (omega arith, tt)

guard_route-fits_run :
    (fits (guard_route codecs reading reading header charged fresh).0 ≡ true)
    × (fits (authenticate_admin codecs reading header charged fresh).0 ≡ true)
guard_route-fits_run = guard_route-fits codecs reading reading header charged fresh

abbrev two_keys : Database
two_keys = record db {
  api_keys =
      mathlib.Core.List.◌∷◌ row
        (mathlib.Core.List.◌∷◌ (record row { id = 2; key_id = "j"; created_at = "u" }) []);
  next_id = 3;
}

list_keys_lem_example :
    (rows : mathlib.Core.List.List ApiKeyRow) × (list_keys two_keys ≡ (listed rows, two_keys))
    × Perm rows two_keys.api_keys
    × IsByAge rows
list_keys_lem_example = list_keys_lem two_keys refl

-- ===== src/Auth/Sample.antt =====
-- A small database, codec and reading, for the tests of other modules.
use Prim.Native.String.{String}
use text.Mathlib.Text
use albion_rest_api.Base.{ℕ, true, false, Option, none, some, [], ◌∷◌}
use albion_rest_api.Database.{ApiKeyRow, Database}
use albion_rest_api.RateLimiter.{Reading, new}
use albion_rest_api.Auth.{PasswordHashing, Codecs, Managed, Local}

-- A hash that is the secret itself, and a codec for the two credentials of the examples.
abbrev pub plain : PasswordHashing
plain = record {
  hash_password = λ secret salt. some secret;
  parse_hash = λ hash. some hash;
  verify_password = λ secret parsed. text.Mathlib.Text.◌==◌ secret parsed;
}

abbrev pub codecs : Codecs
codecs = record { base64_decode = λ s. some []; from_utf8 = λ bytes. some "k:s:1"; hashing = plain }

abbrev pub row : ApiKeyRow
row = record {
  id = 1;
  key_id = "k";
  secret_hash = "s:1";
  label = "l";
  owner = "o";
  active = true;
  is_admin = false;
  created_at = "t";
  updated_at = "t";
}

abbrev pub db : Database
db = record { api_keys = row ∷ []; next_id = 2; usage_logs = []; settings = []; faulty = false }

abbrev pub reading : Reading
reading = record { now = 5; unix = 7 }

abbrev pub managed : Database → ℕ → Managed
managed d rpm = record { pool = some d; rate_limiter = some (new rpm 1) }

abbrev pub fresh : Local
fresh = record { rate_limit_info = none; auth_key_id = none }

abbrev pub header : Option String
header = some "bAsIc azpzOjE="

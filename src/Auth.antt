-- ===== src/Auth.antt =====
-- src/auth.rs and the request guards of src/fairings/: authentication by API key, the admin guard,
-- the global rate-limit guard, the rate-limit headers and the usage log. Decoding of base64 and of
-- UTF-8 and the password hash are parameters.
pub mod Credentials
pub mod Sound
pub mod Lifecycle
pub mod Limits
pub mod Usage
pub mod Statuses
pub mod Sample
mod Examples
use Prim.Native.String.{String}
use albion_rest_api.Base.{
  ℕ, Bool, true, false, ◌||◌, not, Option, none, some, List, [], ◌∷◌, ltb, if◌then◌else◌, unwrap_or,
}
use albion_rest_api.Error.{
  ApiError, bad_request, unauthorized, forbidden, internal, rate_limited, Result, ok, err,
}
use albion_rest_api.RateLimiter.{
  RateLimiter, RateLimitInfo, Reading, Verdict, check_global, check_per_key,
}
use albion_rest_api.Text.{byte_len, split_at_byte, eq_ignore_ascii_case, split_once}
use albion_rest_api.Database.{ApiKeyRow, Database, UsageLog, select_active, insert_usage}
use albion_rest_api.Cli.{PasswordHashing}

-- What the guards use of other crates.
pub record Codecs : Type 0 where
  pub base64_decode : String → Option (List ℕ)
  pub from_utf8 : List ℕ → Option String
  pub hashing : PasswordHashing

-- `rocket::request::Outcome`, without the forward that no guard makes; a slice at no character
-- boundary panics.
pub data Outcome {ℓ} (A : Type ℓ) : Type ℓ where
  success : A → Outcome A
  error : ℕ → ApiError → Outcome A
  panicked : Outcome A

infixl 5 ◌>>=◌
abbrev pub ◌>>=◌ {ℓ κ} : {A : Type ℓ} {B : Type κ} → Outcome A → (A → Outcome B) → Outcome B
success a >>= f = f a
error status e >>= f = error status e
panicked >>= f = panicked

pub record AuthenticatedKey : Type 0 where
  pub id : ℕ
  pub key_id : String
  pub label : String
  pub owner : String
  pub is_admin : Bool

-- Rocket's managed state, as far as the guards ask for it.
pub record Managed : Type 0 where
  pub pool : Option Database
  pub rate_limiter : Option RateLimiter

-- The request-local cache: CachedRateLimitInfo, and AuthKeyId if it was set.
pub record Local : Type 0 where
  pub rate_limit_info : Option RateLimitInfo
  pub auth_key_id : Option (Option ℕ)

abbrev pub deny {ℓ} : {A : Type ℓ} → String → Outcome A
deny message = error 401 (unauthorized message)

abbrev pub basic_prefix : String
basic_prefix = "Basic "

-- From the Authorization header to the two parts of the credentials.
unfoldable pub credentials_of : Codecs → Option String → Outcome (String × String)
credentials_of c none = deny "missing Authorization header"
credentials_of c (some header) =
    if ltb (byte_len header) (byte_len basic_prefix)
    then deny "invalid Authorization scheme"
    else elim (split_at_byte header (byte_len basic_prefix)) [
      | none ↦ panicked
      | some (scheme, encoded) ↦
          if not (eq_ignore_ascii_case scheme basic_prefix)
          then deny "invalid Authorization scheme"
          else elim (c.base64_decode encoded) [
            | none ↦ deny "invalid base64 encoding"
            | some decoded ↦ elim (c.from_utf8 decoded) [
              | none ↦ deny "invalid credentials encoding"
              | some credentials ↦ elim (split_once b':' credentials) [
                | none ↦ deny "invalid credentials format"
                | some parts ↦ success parts
              ]
            ]
          ]
    ]

abbrev check_failed : Outcome ApiKeyRow
check_failed = error 500 (internal "authentication check failed")

-- The row of an active key whose secret is right.
unfoldable pub verify_key : Codecs → Database → String × String → Outcome ApiKeyRow
verify_key c db (key_id, secret) =
    if db.faulty then check_failed else elim (select_active key_id db.api_keys) [
      | none ↦ deny "invalid credentials"
      | some row ↦ elim (c.hashing.parse_hash row.secret_hash) [
        | none ↦ check_failed
        | some parsed ↦
            if c.hashing.verify_password secret parsed
            then success row
            else deny "invalid credentials"
      ]
    ]

-- `local_cache(|| value)`: only the first value is kept.
unfoldable pub cache_once {ℓ} : {A : Type ℓ} → Option A → A → A
cache_once none a = a
cache_once (some old) a = old

unfoldable pub remember : Option RateLimitInfo → Local → Local
remember none l = l
remember (some info) l = record l { rate_limit_info = some info }

abbrev pub too_many {ℓ} : {A : Type ℓ} → Outcome A
too_many = error 429 (rate_limited "Too many requests, please try again later")

abbrev limiter_unavailable {ℓ} : {A : Type ℓ} → Outcome A
limiter_unavailable = error 500 (internal "rate limiter unavailable")

abbrev pub key_of_row : ApiKeyRow → AuthenticatedKey
key_of_row row = record {
  id = row.id;
  key_id = row.key_id;
  label = row.label;
  owner = row.owner;
  is_admin = row.is_admin;
}

-- The outcome that the guards make of a verdict, and what they cache of it.
unfoldable pub settle {ℓ} : {A : Type ℓ} → A → Result Verdict → Local → Outcome A × Local
settle a (ok (true, info)) l = (success a, remember info l)
settle a (ok (false, info)) l = (too_many, remember info l)
settle a (err e) l = (error 500 e, l)

-- The end of the guard, from the verified row on.
unfoldable pub charge_key :
    Reading → ApiKeyRow → Managed → Local → Outcome AuthenticatedKey × Managed × Local
unfolding settle remember cache_once
charge_key r row m l =
    let l' = record l { auth_key_id = some (cache_once l.auth_key_id (some row.id)) } in
    elim (m.rate_limiter) [
      | none ↦ (limiter_unavailable, m, l')
      | some rl ↦
          let (verdict, rl') = check_per_key r row.id rl in
          let (outcome, l'') = settle (key_of_row row) verdict l' in
          (outcome, record m { rate_limiter = some rl' }, l'')
    ]

-- `AuthenticatedKey::from_request`.
unfoldable pub authenticate :
    Codecs → Reading → Option String → Managed → Local → Outcome AuthenticatedKey × Managed × Local
unfolding charge_key
authenticate c r header m l = elim (m.pool) [
  | none ↦ (error 500 (internal "database unavailable"), m, l)
  | some db ↦ elim (credentials_of c header >>= verify_key c db) [
    | success row ↦ charge_key r row m l
    | error status e ↦ (error status e, m, l)
    | panicked ↦ (panicked, m, l)
  ]
]

-- `AdminKey::from_request`.
unfoldable pub require_admin : Outcome AuthenticatedKey → Outcome AuthenticatedKey
require_admin outcome = outcome >>= λ key.
    if key.is_admin then success key else error 403 (forbidden "admin access required")

unfoldable pub authenticate_admin :
    Codecs → Reading → Option String → Managed → Local → Outcome AuthenticatedKey × Managed × Local
unfolding require_admin
authenticate_admin c r header m l =
    let (outcome, m', l') = authenticate c r header m l in (require_admin outcome, m', l')

-- `GlobalRateLimit::from_request`.
unfoldable pub limit_global : Reading → Managed → Local → Outcome (Unit {0}) × Managed × Local
unfolding settle remember
limit_global r m l = elim (m.rate_limiter) [
  | none ↦ (limiter_unavailable, m, l)
  | some rl ↦
      let (verdict, rl') = check_global r rl in
      let (outcome, l') = settle tt verdict l in (outcome, record m { rate_limiter = some rl' }, l')
]

-- The two guards of a `/v1` route, in the order of its parameters.
unfoldable pub guard_route :
    Codecs
    → Reading
    → Reading
    → Option String
    → Managed
    → Local
    → Outcome AuthenticatedKey × Managed × Local
guard_route c r r' header m l =
    let (outcome, m', l') = limit_global r m l in
    elim outcome [
      | success _ ↦ authenticate c r' header m' l'
      | error status e ↦ (error status e, m', l')
      | panicked ↦ (panicked, m', l')
    ]

-- `RateLimitHeadersFairing::on_response`: the limit, what remains and the reset that the three
-- headers carry.
unfoldable pub rate_limit_headers : Local → Option (ℕ × ℕ × ℕ)
rate_limit_headers l = elim (l.rate_limit_info) [
  | none ↦ none
  | some info ↦ some (info.limit, info.remaining, info.reset)
]

-- `UsageLogger::on_response`; the row is inserted by a spawned task, whose failure is only logged.
unfoldable pub log_usage : String → String → ℕ → Local → Option Database → Option Database
log_usage method path status l pool = elim (unwrap_or l.auth_key_id none) [
  | none ↦ pool
  | some id ↦ elim pool [
    | none ↦ none
    | some db ↦ some (
        unwrap_or
          (insert_usage
            (record { api_key_id = id; method = method; path = path; status_code = status }) db)
          db)
  ]
]

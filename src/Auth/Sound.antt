-- ===== src/Auth/Sound.antt =====
-- Who passes `AuthenticatedKey::from_request` of src/auth.rs, and what the key-management commands
-- of src/cli.rs do to it.
use Prim.Native.String.{String}
use albion_rest_api.Base.{
  ℕ, ◌≡◌, ◌↔◌, refl, true, false, Option, some, arith, ◌⊎◌, inl, inr, Option-cases,
}
use albion_rest_api.Error.{ApiError, Result, ok, err}
use albion_rest_api.RateLimiter.{RateLimiter, RateLimitInfo, Reading, Verdict, check_per_key}
use albion_rest_api.Database.{ApiKeyRow, Database, select_active}
use albion_rest_api.Auth.{
  Codecs, Outcome, success, error, panicked, AuthenticatedKey, Managed, Local, credentials_of,
  verify_key, settle, charge_key, authenticate, key_of_row, cache_once,
}

-- The credentials name an active row, their secret matches its hash, and the per-key limiter
-- admits the row's id.
pub record IsGranted (c : Codecs) (r : Reading) (header : Option String) (m : Managed)
    (key : AuthenticatedKey) : Type 0 where
  pub db : Database
  pub row : ApiKeyRow
  pub name : String
  pub secret : String
  pub parsed : String
  pub limiter : RateLimiter
  pub info : Option RateLimitInfo
  pub has_pool : m.pool ≡ some db
  pub is_up : db.faulty ≡ false
  pub given : credentials_of c header ≡ success (name, secret)
  pub selected : select_active name db.api_keys ≡ some row
  pub parses : c.hashing.parse_hash row.secret_hash ≡ some parsed
  pub verified : c.hashing.verify_password secret parsed ≡ true
  pub has_limiter : m.rate_limiter ≡ some limiter
  pub admitted : (check_per_key r row.id limiter).0 ≡ ok (true, info)
  pub is_key : key ≡ key_of_row row

record IsVerified (c : Codecs) (db : Database) (name secret : String) (row : ApiKeyRow)
    : Type 0 where
  is_up : db.faulty ≡ false
  parsed : String
  selected : select_active name db.api_keys ≡ some row
  parses : c.hashing.parse_hash row.secret_hash ≡ some parsed
  verified : c.hashing.verify_password secret parsed ≡ true

verify_key-IsVerified :
    (c : Codecs) (db : Database) (name secret : String) (row : ApiKeyRow)
    → verify_key c db (name, secret) ≡ success row
    → IsVerified c db name secret row
unfolding verify_key
verify_key-IsVerified c db name secret row e =
    elim (Option-cases (select_active name db.api_keys)) [
      | inl x ↦ absurd (ground arith)
      | inr (row', x) ↦ elim (Option-cases (c.hashing.parse_hash row'.secret_hash)) [
        | inl y ↦ absurd (ground arith)
        | inr (parsed, y) ↦
            let same : row' ≡ row = ground arith in
            record {
              is_up = ground arith;
              parsed = parsed;
              selected = ground arith;
              parses = rw (← same) y;
              verified = ground arith;
            }
      ]
    ]

pub Outcome-cases {ℓ} :
    {A : Type ℓ} (o : Outcome A)
    → ((a : A) × (o ≡ success a))
      ⊎ ((status : ℕ) × (e : ApiError) × (o ≡ error status e))
      ⊎ (o ≡ panicked)
Outcome-cases (success a) = inl (a, refl)
Outcome-cases (error status e) = inr (inl (status, e, refl))
Outcome-cases panicked = inr (inr refl)

pub Result-cases {ℓ} :
    {A : Type ℓ} (x : Result A) → ((a : A) × (x ≡ ok a)) ⊎ ((e : ApiError) × (x ≡ err e))
Result-cases (ok a) = inl (a, refl)
Result-cases (err e) = inr (e, refl)

settle_sound :
    (row : ApiKeyRow) (key : AuthenticatedKey) (x : Result Verdict) (l : Local)
    → (settle (key_of_row row) x l).0 ≡ success key
    → (info : Option RateLimitInfo) × (x ≡ ok (true, info)) × (key ≡ key_of_row row)
unfolding settle
settle_sound row key (ok (true, info)) l e = (info, refl, ground arith)
settle_sound row key (ok (false, info)) l e = absurd (cc)
settle_sound row key (err x) l e = absurd (cc)

authenticate_sound :
    (c : Codecs) (r : Reading) (header : Option String) (m : Managed) (l : Local)
    (key : AuthenticatedKey)
    → (authenticate c r header m l).0 ≡ success key
    → IsGranted c r header m key
unfolding authenticate charge_key
authenticate_sound c r header m l key e = elim (Option-cases m.pool) [
  | inl p ↦ absurd (ground arith)
  | inr (db, p) ↦ elim (Outcome-cases (credentials_of c header)) [
    | inl ((name, secret), q) ↦ elim (Outcome-cases (verify_key c db (name, secret))) [
      | inl (row, v) ↦ elim (Option-cases m.rate_limiter) [
        | inl x ↦ absurd (ground arith)
        | inr (rl, x) ↦
            let (info, admitted, is_key) =
              settle_sound row key (check_per_key r row.id rl).0
                (record l { auth_key_id = some (cache_once l.auth_key_id (some row.id)) })
                (ground arith) in
            let g = verify_key-IsVerified c db name secret row v in
            record {
              db = db;
              row = row;
              name = name;
              secret = secret;
              parsed = g.parsed;
              limiter = rl;
              info = info;
              has_pool = p;
              is_up = g.is_up;
              given = q;
              selected = g.selected;
              parses = g.parses;
              verified = g.verified;
              has_limiter = x;
              admitted = admitted;
              is_key = is_key;
            }
      ]
      | inr (inl (status, x, v)) ↦ absurd (ground arith)
      | inr (inr v) ↦ absurd (ground arith)
    ]
    | inr (inl (status, x, q)) ↦ absurd (ground arith)
    | inr (inr q) ↦ absurd (ground arith)
  ]
]

authenticate_complete :
    (c : Codecs) (r : Reading) (header : Option String) (m : Managed) (l : Local)
    (key : AuthenticatedKey)
    → IsGranted c r header m key
    → (authenticate c r header m l).0 ≡ success key
unfolding authenticate charge_key settle verify_key
authenticate_complete c r header m l key g = ground arith

-- The guard lets a request through, as a given key, exactly when the database answers, the header's
-- credentials name an active row of it, their secret matches the row's hash, and the per-key limiter
-- admits the row's id; the key is then that row's.
pub authenticate-success_iff :
    (c : Codecs) (r : Reading) (header : Option String) (m : Managed) (l : Local)
    (key : AuthenticatedKey)
    → ((authenticate c r header m l).0 ≡ success key) ↔ IsGranted c r header m key
authenticate-success_iff c r header m l key =
    (authenticate_sound c r header m l key, authenticate_complete c r header m l key)

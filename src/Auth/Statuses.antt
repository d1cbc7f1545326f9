-- ===== src/Auth/Statuses.antt =====
-- The statuses of the guards of src/auth.rs and src/fairings/rate_limiter.rs against those of the
-- responder of src/error.rs.
use Prim.Native.String.{String}
use albion_rest_api.Base.{
  ℕ, ◌≡◌, refl, Bool, true, false, Option, none, some, ◌==◌, if◌then◌else◌, arith, Bool-cases,
  Option-cases, inl, inr,
}
use albion_rest_api.Error.{status_of, Result, ok, err, forbidden}
use albion_rest_api.RateLimiter.{RateLimiter, Reading, Verdict, check_global, check_per_key}
use albion_rest_api.Database.{ApiKeyRow, Database}
use albion_rest_api.Auth.{
  Outcome, success, error, panicked, ◌>>=◌, AuthenticatedKey, Codecs, Managed, Local,
  credentials_of, verify_key, settle, charge_key, authenticate, authenticate_admin, require_admin,
  limit_global, guard_route,
}

-- An error has the status that its responder would answer with.
unfoldable pub fits : {A : Type 0} → Outcome A → Bool
fits (success _) = true
fits (error status e) = status == status_of e
fits panicked = true

-- The limiter's own errors are internal.
unfoldable limiter_fits : Result Verdict → Bool
limiter_fits (ok _) = true
limiter_fits (err e) = status_of e == 500

credentials_of-fits : (c : Codecs) (header : Option String) → fits (credentials_of c header) ≡ true
unfolding credentials_of fits status_of
credentials_of-fits c none = refl
credentials_of-fits c (some header) = ground arith

verify_key-fits :
    (c : Codecs) (db : Database) (parts : String × String) → fits (verify_key c db parts) ≡ true
unfolding verify_key fits status_of
verify_key-fits c db (key_id, secret) = ground arith

settle-fits :
    {A : Type 0} (a : A) (verdict : Result Verdict) (l : Local)
    → limiter_fits verdict ≡ true
    → fits (settle a verdict l).0 ≡ true
unfolding settle fits status_of limiter_fits
settle-fits a (ok (true, info)) l h = refl
settle-fits a (ok (false, info)) l h = refl
settle-fits a (err e) l h = ground (arith, h)

check_global-fits : (r : Reading) (rl : RateLimiter) → limiter_fits (check_global r rl).0 ≡ true
unfolding check_global limiter_fits status_of
check_global-fits r rl = ground arith

check_per_key-fits :
    (r : Reading) (k : ℕ) (rl : RateLimiter) → limiter_fits (check_per_key r k rl).0 ≡ true
unfolding check_per_key limiter_fits status_of
check_per_key-fits r k rl = ground arith

limit_global-fits : (r : Reading) (m : Managed) (l : Local) → fits (limit_global r m l).0 ≡ true
unfolding limit_global fits status_of
limit_global-fits r m l = elim (Option-cases (m.rate_limiter)) [
  | inl missing ↦ simp (limit_global, missing) refl
  | inr (rl, has) ↦
      simp (limit_global, has) (settle-fits tt (check_global r rl).0 l (check_global-fits r rl))
]

charge_key-fits :
    (r : Reading) (row : ApiKeyRow) (m : Managed) (l : Local) → fits (charge_key r row m l).0 ≡ true
unfolding charge_key fits status_of
charge_key-fits r row m l = elim (Option-cases (m.rate_limiter)) [
  | inl missing ↦ simp (charge_key, missing) refl
  | inr (rl, has) ↦
      simp (charge_key, has)
        (settle-fits _ (check_per_key r row.id rl).0 _ (check_per_key-fits r row.id rl))
]

then-fits :
    {A B : Type 0} (o : Outcome A) (f : A → Outcome B)
    → fits o ≡ true
    → ((a : A) → fits (f a) ≡ true)
    → fits (o >>= f) ≡ true
unfolding fits
then-fits (success a) f h k = k a
then-fits (error status e) f h k = h
then-fits panicked f h k = refl

verified-fits :
    (r : Reading) (m : Managed) (l : Local) (o : Outcome ApiKeyRow)
    → fits o ≡ true
    → fits
        (elim o as (λ _. Outcome AuthenticatedKey × Managed × Local) [
          | success row ↦ charge_key r row m l
          | error status e ↦ (error status e, m, l)
          | panicked ↦ (panicked, m, l)
        ]).0
      ≡ true
unfolding fits
verified-fits r m l (success row) h = charge_key-fits r row m l
verified-fits r m l (error status e) h = h
verified-fits r m l panicked h = refl

authenticate-fits :
    (c : Codecs) (r : Reading) (header : Option String) (m : Managed) (l : Local)
    → fits (authenticate c r header m l).0 ≡ true
unfolding authenticate fits status_of
authenticate-fits c r header m l = elim (Option-cases (m.pool)) [
  | inl missing ↦ simp (authenticate, missing) refl
  | inr (db, has) ↦
      simp (authenticate, has)
        (verified-fits r m l (credentials_of c header >>= verify_key c db) (
          then-fits (credentials_of c header) (verify_key c db) (credentials_of-fits c header)
            (verify_key-fits c db)))
]

-- Every error of the guards of a `/v1` route, and of the admin guard, has the status that its error
-- type's responder answers with.
pub guard_route-fits :
    (c : Codecs) (r r' : Reading) (header : Option String) (m : Managed) (l : Local)
    → (fits (guard_route c r r' header m l).0 ≡ true)
      × (fits (authenticate_admin c r header m l).0 ≡ true)
unfolding guard_route authenticate_admin require_admin fits status_of
guard_route-fits c r r' header m l = (
  guarded (limit_global r m l) (limit_global-fits r m l),
  then-fits (authenticate c r header m l).0 _ (authenticate-fits c r header m l) admin,
)
  where
    guarded :
        (o : Outcome Unit × Managed × Local)
        → fits (o.0) ≡ true
        → fits
            (elim (o.0) as (λ _. Outcome AuthenticatedKey × Managed × Local) [
              | success _ ↦ authenticate c r' header (o.1) (o.2)
              | error status e ↦ (error status e, o.1, o.2)
              | panicked ↦ (panicked, o.1, o.2)
            ]).0
          ≡ true
    guarded (success _, m', l') h = authenticate-fits c r' header m' l'
    guarded (error status e, m', l') h = h
    guarded (panicked, m', l') h = refl

    admin :
        (key : AuthenticatedKey)
        → fits (if key.is_admin then success key else error 403 (forbidden "admin access required"))
          ≡ true
    admin key = elim (Bool-cases (key.is_admin)) [
      | inl granted ↦ rw granted refl
      | inr refused ↦ rw refused refl
    ]

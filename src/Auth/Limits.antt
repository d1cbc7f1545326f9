-- ===== src/Auth/Limits.antt =====
-- The rate limits, their headers and the usage log over a whole request: src/auth.rs,
-- src/fairings/rate_limiter.rs and src/fairings/usage_logger.rs.
use Prim.Native.String.{String}
use albion_rest_api.Base.{
  ℕ, ◌+◌, ◌%◌, ◌^◌, unwrap_or, ◌≡◌, ◌≢◌, refl, true, false, Option, none, some, List, [], arith,
  inl, inr, ◌⊎◌, Option-cases,
}
use albion_rest_api.Error.{ApiError, Result, ok, err}
use albion_rest_api.RateLimiter.{
  RateLimiter, RateLimitInfo, Reading, Verdict, decide_window, check_global, check_per_key,
  compute_reset, prune_window, cutoff_of, clean_up,
}
use albion_rest_api.Database.{ApiKeyRow, Database}
use albion_rest_api.Auth.Sound.{Outcome-cases}
use albion_rest_api.Auth.{
  Codecs, error, Managed, Local, credentials_of, ◌>>=◌, verify_key, settle, remember, cache_once,
  charge_key, authenticate, limit_global, guard_route, rate_limit_headers, key_of_row,
}

-- The information of a refusal: nothing remains of the given limit.
abbrev IsSpent : ℕ → Result Verdict → Type 0
IsSpent rpm x =
    (info : Option RateLimitInfo)
    → x ≡ ok (false, info)
    → (reset : ℕ) × (info ≡ some (record { limit = rpm; remaining = 0; reset = reset }))

decide_window-IsSpent :
    (rpm : ℕ) (w : List ℕ) (r : Reading) → IsSpent rpm (ok (decide_window rpm w r).0)
unfolding decide_window
decide_window-IsSpent rpm w r info e = (compute_reset w r, ground arith)

check_global-IsSpent :
    (r : Reading) (rl : RateLimiter) → IsSpent rl.global_rpm (check_global r rl).0
unfolding check_global
check_global-IsSpent r rl info e =
    decide_window-IsSpent rl.global_rpm (prune_window rl.global_window.value (cutoff_of r)) r info
      (ground arith)

check_per_key-IsSpent :
    (r : Reading) (key : ℕ) (rl : RateLimiter) → IsSpent rl.per_key_rpm (check_per_key r key rl).0
unfolding check_per_key
check_per_key-IsSpent r key rl info e =
    decide_window-IsSpent rl.per_key_rpm
      (prune_window
        (unwrap_or
          (clean_up ((rl.per_key_check_count + 1) % 2 ^ 64) (cutoff_of r) rl.per_key_windows.value
            key)
          [])
        (cutoff_of r))
      r info (ground arith)

check_global-per_key_rpm :
    (r : Reading) (rl : RateLimiter) → (check_global r rl).1.per_key_rpm ≡ rl.per_key_rpm
unfolding check_global
check_global-per_key_rpm r rl = ground arith

-- The headers that a cache gives rise to say that nothing is left of a limit.
abbrev IsSpentHeader : ℕ → Local → Type 0
IsSpentHeader rpm l = (reset : ℕ) × (rate_limit_headers l ≡ some (rpm, 0, reset))

settle-429 {ℓ} :
    {A : Type ℓ} (rpm : ℕ) (a : A) (x : Result Verdict) (l : Local) (why : ApiError)
    → IsSpent rpm x
    → (settle a x l).0 ≡ error 429 why
    → IsSpentHeader rpm (settle a x l).1
unfolding settle rate_limit_headers remember
settle-429 rpm a (ok (true, info)) l why h e = absurd (cc)
settle-429 rpm a (ok (false, info)) l why h e =
    let (reset, spent) = h info refl in (reset, rw (spent, remember, rate_limit_headers) refl)
settle-429 rpm a (err x) l why h e = absurd (ground arith)

limit_global-429 :
    (r : Reading) (m : Managed) (l : Local) (rl : RateLimiter) (why : ApiError)
    → m.rate_limiter ≡ some rl
    → (limit_global r m l).0 ≡ error 429 why
    → IsSpentHeader rl.global_rpm (limit_global r m l).2
unfolding limit_global
limit_global-429 r m l rl why has e =
    rw (has, limit_global)
      (settle-429 rl.global_rpm tt (check_global r rl).0 l why (check_global-IsSpent r rl)
        (ground arith))

charge_key-429 :
    (r : Reading) (row : ApiKeyRow) (m : Managed) (l : Local) (rl : RateLimiter) (why : ApiError)
    → m.rate_limiter ≡ some rl
    → (charge_key r row m l).0 ≡ error 429 why
    → IsSpentHeader rl.per_key_rpm (charge_key r row m l).2
unfolding charge_key
charge_key-429 r row m l rl why has e =
    rw (has, charge_key)
      (settle-429 rl.per_key_rpm (key_of_row row) (check_per_key r row.id rl).0
        (record l { auth_key_id = some (cache_once l.auth_key_id (some row.id)) }) why
        (check_per_key-IsSpent r row.id rl) (ground arith))

-- A refusal of the guard with 429 is the per-key limiter's.
verify_key-ne-429 :
    (c : Codecs) (db : Database) (parts : String × String) (why : ApiError)
    → verify_key c db parts ≢ error 429 why
unfolding verify_key
verify_key-ne-429 c db (name, secret) why e = ground arith

credentials_of-ne-429 :
    (c : Codecs) (header : Option String) (why : ApiError) → credentials_of c header ≢ error 429 why
unfolding credentials_of
credentials_of-ne-429 c none why e = ground arith
credentials_of-ne-429 c (some header) why e = ground arith

authorize-ne-429 :
    (c : Codecs) (db : Database) (header : Option String) (why : ApiError)
    → (credentials_of c header >>= verify_key c db) ≢ error 429 why
authorize-ne-429 c db header why e = elim (Outcome-cases (credentials_of c header)) [
  | inl (parts, q) ↦ verify_key-ne-429 c db parts why (ground arith)
  | inr (inl (status, x, q)) ↦ credentials_of-ne-429 c header why (ground arith)
  | inr (inr q) ↦ ground arith
]

authenticate-429 :
    (c : Codecs) (r : Reading) (header : Option String) (m : Managed) (l : Local) (rl : RateLimiter)
    (why : ApiError)
    → m.rate_limiter ≡ some rl
    → (authenticate c r header m l).0 ≡ error 429 why
    → IsSpentHeader rl.per_key_rpm (authenticate c r header m l).2
unfolding authenticate
authenticate-429 c r header m l rl why has e = elim (Option-cases m.pool) [
  | inl p ↦ absurd (ground arith)
  | inr (db, p) ↦ elim (Outcome-cases (credentials_of c header >>= verify_key c db)) [
    | inl (row, q) ↦ simp (p, q, authenticate) (charge_key-429 r row m l rl why has (ground arith))
    | inr (inl (status, x, q)) ↦ absurd (authorize-ne-429 c db header why (ground arith))
    | inr (inr q) ↦ absurd (ground arith)
  ]
]

pub limit_global-limiter :
    (r : Reading) (m : Managed) (l : Local) (rl : RateLimiter)
    → m.rate_limiter ≡ some rl
    → (limit_global r m l).1.rate_limiter ≡ some (check_global r rl).1
unfolding limit_global
limit_global-limiter r m l rl has = simp (has, limit_global)

-- Where a limiter is managed, a request that the guards of a `/v1` route refuse with 429 is
-- answered with rate-limit headers, which say that nothing remains of the global or of the per-key
-- limit.
pub guard_route-429 :
    (c : Codecs) (r r' : Reading) (header : Option String) (m : Managed) (l : Local)
    (rl : RateLimiter) (why : ApiError)
    → m.rate_limiter ≡ some rl
    → (guard_route c r r' header m l).0 ≡ error 429 why
    → IsSpentHeader rl.global_rpm (guard_route c r r' header m l).2
      ⊎ IsSpentHeader rl.per_key_rpm (guard_route c r r' header m l).2
unfolding guard_route
guard_route-429 c r r' header m l rl why has e = elim (Outcome-cases (limit_global r m l).0) [
  | inl (u, q) ↦
      simp (q, guard_route)
        (inr (
          rw (← check_global-per_key_rpm r rl) (
            authenticate-429 c r' header (limit_global r m l).1 (limit_global r m l).2
              (check_global r rl).1 why (limit_global-limiter r m l rl has) (ground arith))))
  | inr (inl (status, x, q)) ↦
      simp (q, guard_route) (inl (limit_global-429 r m l rl why has (ground arith)))
  | inr (inr q) ↦ absurd (ground arith)
]

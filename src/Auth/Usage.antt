-- ===== src/Auth/Usage.antt =====
-- What a refused request leaves behind, and when the usage log records one: src/auth.rs and
-- src/fairings/usage_logger.rs.
use Prim.Native.String.{String}
use albion_rest_api.Base.{
  ℕ, ◌≡◌, ◌≢◌, ◌↔◌, refl, ◌∙◌, ◌⊎◌, Option, none, some, arith, inl, inr, Option-cases,
}
use albion_rest_api.Error.{ApiError, Result}
use albion_rest_api.RateLimiter.{RateLimiter, Reading, Verdict, check_global, check_per_key}
use albion_rest_api.Database.{ApiKeyRow, Database}
use albion_rest_api.Auth.Sound.{Outcome-cases}
use albion_rest_api.Auth.Limits.{limit_global-limiter}
use albion_rest_api.Auth.{
  Codecs, success, error, Managed, Local, credentials_of, ◌>>=◌, verify_key, settle, remember,
  cache_once, charge_key, authenticate, limit_global, guard_route, key_of_row,
}

settle_id {ℓ} :
    {A : Type ℓ} (a : A) (x : Result Verdict) (l : Local)
    → (settle a x l).1.auth_key_id ≡ l.auth_key_id
unfolding settle remember
settle_id a x l = ground arith

settle-ne-401 {ℓ} :
    {A : Type ℓ} (a : A) (x : Result Verdict) (l : Local) (why : ApiError)
    → (settle a x l).0 ≢ error 401 why
unfolding settle
settle-ne-401 a x l why e = ground arith

charge_key_id :
    (r : Reading) (row : ApiKeyRow) (m : Managed) (l : Local)
    → (charge_key r row m l).2.auth_key_id ≡ some (cache_once l.auth_key_id (some row.id))
unfolding charge_key
charge_key_id r row m l = elim (Option-cases m.rate_limiter) [
  | inl x ↦ simp (x, charge_key) refl
  | inr (rl, x) ↦ simp (x, charge_key, settle_id) refl
]

charge_key-ne-401 :
    (r : Reading) (row : ApiKeyRow) (m : Managed) (l : Local) (why : ApiError)
    → (charge_key r row m l).0 ≢ error 401 why
unfolding charge_key
charge_key-ne-401 r row m l why e = elim (Option-cases m.rate_limiter) [
  | inl x ↦ absurd (ground arith)
  | inr (rl, x) ↦
      settle-ne-401 (key_of_row row) (check_per_key r row.id rl).0
        (record l { auth_key_id = some (cache_once l.auth_key_id (some row.id)) }) why
        (ground arith)
]

limit_global_id :
    (r : Reading) (m : Managed) (l : Local) → (limit_global r m l).2.auth_key_id ≡ l.auth_key_id
unfolding limit_global
limit_global_id r m l = elim (Option-cases m.rate_limiter) [
  | inl x ↦ simp (x, limit_global) refl
  | inr (rl, x) ↦ simp (x, limit_global, settle_id) refl
]

pub limit_global-pool :
    (r : Reading) (m : Managed) (l : Local) → (limit_global r m l).1.pool ≡ m.pool
unfolding limit_global
limit_global-pool r m l = ground arith

-- The request's credentials belong to this row of the database.
abbrev pub IsAuthorized : Codecs → Option String → Managed → ApiKeyRow → Type 0
IsAuthorized c header m row =
    (db : Database) × (m.pool ≡ some db)
    × ((credentials_of c header >>= verify_key c db) ≡ success row)

pub authenticate_authorized :
    (c : Codecs) (r : Reading) (header : Option String) (m : Managed) (l : Local) (row : ApiKeyRow)
    → IsAuthorized c header m row
    → authenticate c r header m l ≡ charge_key r row m l
unfolding authenticate
authenticate_authorized c r header m l row (db, p, q) = simp (p, q, authenticate) refl

pub authenticate_refused :
    (c : Codecs) (r : Reading) (header : Option String) (m : Managed) (l : Local)
    → ((row : ApiKeyRow) × IsAuthorized c header m row)
      ⊎ (((authenticate c r header m l).1 ≡ m) × ((authenticate c r header m l).2 ≡ l))
unfolding authenticate
authenticate_refused c r header m l = elim (Option-cases m.pool) [
  | inl p ↦ inr (simp (p, authenticate) refl, simp (p, authenticate) refl)
  | inr (db, p) ↦ elim (Outcome-cases (credentials_of c header >>= verify_key c db)) [
    | inl (row, q) ↦ inl (row, (db, p, q))
    | inr (inl (status, x, q)) ↦
        inr (simp (p, q, authenticate) refl, simp (p, q, authenticate) refl)
    | inr (inr q) ↦ inr (simp (p, q, authenticate) refl, simp (p, q, authenticate) refl)
  ]
]

charge_key_id_fresh :
    (r : Reading) (row : ApiKeyRow) (m : Managed) (l : Local)
    → l.auth_key_id ≡ none
    → (charge_key r row m l).2.auth_key_id ≡ some (some row.id)
unfolding cache_once
charge_key_id_fresh r row m l fresh = ground (arith, charge_key_id r row m l)

module _ (c : Codecs) (r : Reading) (header : Option String) (m : Managed) (l : Local) (id : ℕ)
    (fresh : l.auth_key_id ≡ none) where
  authenticate_id :
      (row : ApiKeyRow) × IsAuthorized c header m row × (row.id ≡ id)
      → (authenticate c r header m l).2.auth_key_id ≡ some (some id)
  authenticate_id (row, a, e) =
      ground
        (arith, authenticate_authorized c r header m l row a, charge_key_id_fresh r row m l fresh)

  id-authenticate :
      (authenticate c r header m l).2.auth_key_id ≡ some (some id)
      → (row : ApiKeyRow) × IsAuthorized c header m row × (row.id ≡ id)
  id-authenticate h = elim (authenticate_refused c r header m l) [
    | inl (row, a) ↦ (
      row,
      a,
      ground (
        arith,
        authenticate_authorized c r header m l row a,
        charge_key_id_fresh r row m l fresh,
      ),
    )
    | inr (same_m, same_l) ↦ absurd (ground arith)
  ]

module _ (c : Codecs) (r r' : Reading) (header : Option String) (m : Managed) (l : Local) where
  guard_route_admitted :
      (limit_global r m l).0 ≡ success tt
      → guard_route c r r' header m l
        ≡ authenticate c r' header (limit_global r m l).1 (limit_global r m l).2
  unfolding guard_route
  guard_route_admitted q = simp (q, guard_route) refl

  guard_route_refused :
      ((limit_global r m l).0 ≡ success tt)
      ⊎ (((limit_global r m l).0 ≢ success tt)
          × ((guard_route c r r' header m l).1 ≡ (limit_global r m l).1)
          × ((guard_route c r r' header m l).2 ≡ (limit_global r m l).2))
  unfolding guard_route
  guard_route_refused = elim (Outcome-cases (limit_global r m l).0) [
    | inl (tt, q) ↦ inl q
    | inr (inl (status, x, q)) ↦
        inr (λ s. ground arith, simp (q, guard_route) refl, simp (q, guard_route) refl)
    | inr (inr q) ↦ inr (λ s. ground arith, simp (q, guard_route) refl, simp (q, guard_route) refl)
  ]

-- After the guards of a `/v1` route, on a request whose local cache was fresh, the usage logger has
-- the id of a key to log exactly when the global limiter admitted the request and its credentials
-- belong to the row with that id; whether the per-key limiter admitted it makes no difference.
pub guard_route_id_iff :
    (c : Codecs) (r r' : Reading) (header : Option String) (m : Managed) (l : Local) (id : ℕ)
    → l.auth_key_id ≡ none
    → ((guard_route c r r' header m l).2.auth_key_id ≡ some (some id)) ↔ (
        ((limit_global r m l).0 ≡ success tt)
        × ((row : ApiKeyRow) × IsAuthorized c header m row × (row.id ≡ id)))
guard_route_id_iff c r r' header m l id fresh = elim (guard_route_refused c r r' header m l) [
  | inl q ↦ (
    λ h. (
      q,
      rw limit_global-pool at (
          id-authenticate c r' header (limit_global r m l).1 (limit_global r m l).2 id still
            (rw (guard_route_admitted c r r' header m l q) at h)),
    ),
    λ h. rw (guard_route_admitted c r r' header m l q) (
        authenticate_id c r' header (limit_global r m l).1 (limit_global r m l).2 id still
          (rw (← limit_global-pool r m l) at (h.1))),
  )
  | inr (q, same_m, same_l) ↦ (λ h. absurd (ground (arith, still)), λ h. absurd (q h.0))
]
  where
    still : (limit_global r m l).2.auth_key_id ≡ none
    still = limit_global_id r m l ∙ fresh

-- A request that the guards of a `/v1` route refuse with 401, where a limiter is managed, was
-- charged to the global limiter and to no key, and the usage logger gets no key for it.
pub guard_route-401 :
    (c : Codecs) (r r' : Reading) (header : Option String) (m : Managed) (l : Local)
    (rl : RateLimiter) (why : ApiError)
    → m.rate_limiter ≡ some rl
    → (guard_route c r r' header m l).0 ≡ error 401 why
    → ((guard_route c r r' header m l).1.rate_limiter ≡ some (check_global r rl).1)
      × ((guard_route c r r' header m l).2.auth_key_id ≡ l.auth_key_id)
guard_route-401 c r r' header m l rl why has e = elim (guard_route_refused c r r' header m l) [
  | inl q ↦
      let same = guard_route_admitted c r r' header m l q in
      elim (authenticate_refused c r' header (limit_global r m l).1 (limit_global r m l).2) [
        | inl (row, a) ↦ absurd (
            charge_key-ne-401 r' row (limit_global r m l).1 (limit_global r m l).2 why (
              ground (
                arith,
                same,
                authenticate_authorized c r' header (limit_global r m l).1 (limit_global r m l).2
                    row a,
              )))
        | inr (same_m, same_l) ↦ (
          rw (same, same_m) (limit_global-limiter r m l rl has),
          rw (same, same_l) (limit_global_id r m l),
        )
      ]
  | inr (q, same_m, same_l) ↦
      (rw same_m (limit_global-limiter r m l rl has), rw same_l (limit_global_id r m l))
]

-- ===== src/RateLimiter/Global.antt =====
-- Runs of check_global of src/fairings/rate_limiter.rs.
use albion_rest_api.Base.{
  ℕ, ◌+◌, ◌-◌, ◌≤◌, ◌<◌, ◌≡◌, refl, ap, ap₂, Bool, true, false, List, [], ◌∷◌, Option, none, some,
  map, arith, if◌then◌else◌, leb, ◌&&◌,
}
use albion_rest_api.Error.{Result, ok, err}
use albion_rest_api.RateLimiter.{
  RateLimiter, Reading, Verdict, new, prune_window, decide_window, cutoff_of, check_global,
  window_duration,
}
use albion_rest_api.RateLimiter.Window.{
  count_in, Ascends, count_in-append, count_in-narrow, count_in-upto,
}
use albion_rest_api.RateLimiter.Ideal.{
  ideal_admits, ideal_log, ideal_verdict, view_result, Tracks, Tracks-prune, decide_window-ideal,
  decide_window-log, ideal_log-Ascends,
}

-- The results of consecutive calls.
unfoldable pub run_global : List Reading → RateLimiter → List (Result Verdict)
run_global [] rl = []
run_global (r ∷ rs) rl = (check_global r rl).0 ∷ run_global rs (check_global r rl).1

unfoldable pub ideal_run : ℕ → List Reading → List ℕ → List (Option (Bool × ℕ × ℕ))
ideal_run rpm [] log = []
ideal_run rpm (r ∷ rs) log =
    some (ideal_verdict rpm log r.now) ∷ ideal_run rpm rs (ideal_log rpm log r.now)

-- `Instant` is monotonic, and it is read under the lock.
abbrev pub IsLater : ℕ → List Reading → Type 0
IsLater last [] = Unit {0}
IsLater last (r ∷ rs) = (last ≤ r.now) × IsLater r.now rs

pub record Simulates (rpm : ℕ) (rl : RateLimiter) (log : List ℕ) (last : ℕ) : Type 0 where
  pub limit : rl.global_rpm ≡ rpm
  pub sound : rl.global_window.poisoned ≡ false
  pub tracks : Tracks rpm rl.global_window.value log last

module _ (rpm : ℕ) (r : Reading) (rl : RateLimiter) {log : List ℕ} {last : ℕ} (enabled : 0 < rpm)
    (s : Simulates rpm rl log last) (later : last ≤ r.now) where
  check_global-eq : check_global r rl ≡ (
    ok (decide_window rpm (prune_window log (cutoff_of r)) r).0,
    record rl {
      global_window = record {
        poisoned = false;
        value = (decide_window rpm (prune_window log (cutoff_of r)) r).1;
      };
    },
  )
  unfolding check_global
  check_global-eq = ground (arith, Tracks-prune r s.tracks later, s.limit, s.sound)

  pub check_global-ideal : view_result (check_global r rl).0 ≡ some (ideal_verdict rpm log r.now)
  unfolding view_result
  check_global-ideal =
      rw check_global-eq (ap some (decide_window-ideal rpm log last r s.tracks.ascends later))

  pub check_global-Simulates : Simulates rpm (check_global r rl).1 (ideal_log rpm log r.now) r.now
  check_global-Simulates = rw check_global-eq (record {
    limit = s.limit;
    sound = refl;
    tracks = record {
      cut = cutoff_of r;
      early = omega arith;
      window_eq = decide_window-log rpm log last r s.tracks.ascends later;
      ascends = ideal_log-Ascends rpm log last r s.tracks.ascends later;
    };
  })

run_global_of_Simulates :
    (rs : List Reading) (rpm : ℕ) (rl : RateLimiter) (log : List ℕ) (last : ℕ)
    → 0 < rpm
    → Simulates rpm rl log last
    → IsLater last rs
    → map view_result (run_global rs rl) ≡ ideal_run rpm rs log
unfolding run_global ideal_run
run_global_of_Simulates [] rpm rl log last e s h = refl
run_global_of_Simulates (r ∷ rs) rpm rl log last e s h =
    ap₂ ◌∷◌ (check_global-ideal rpm r rl e s h.0) (
      run_global_of_Simulates rs rpm (check_global r rl).1 (ideal_log rpm log r.now) r.now e
        (check_global-Simulates rpm r rl e s h.0) h.1)

new-Simulates : (rpm per_key : ℕ) → Simulates rpm (new rpm per_key) [] 0
unfolding new prune_window
new-Simulates rpm per_key = record {
  limit = refl;
  sound = refl;
  tracks = record { cut = 0; early = omega arith; window_eq = refl; ascends = omega arith };
}

-- From a new limiter with a positive limit, and at instants that do not go back, every call of
-- check_global succeeds, and it admits, with the limit and the remaining requests that it
-- reports, exactly as a limiter that remembers every admitted instant and counts those of the
-- last 60 seconds.
pub run_global-ideal :
    (rpm per_key : ℕ) (rs : List Reading)
    → 0 < rpm
    → IsLater 0 rs
    → map view_result (run_global rs (new rpm per_key)) ≡ ideal_run rpm rs []
run_global-ideal rpm per_key rs h later =
    run_global_of_Simulates rs rpm (new rpm per_key) [] 0 h (new-Simulates rpm per_key) later

-- The calls between two instants, both included, that were admitted.
unfoldable pub admitted_in : ℕ → ℕ → List Reading → List (Result Verdict) → ℕ
admitted_in lo hi (r ∷ rs) (ok (true, _) ∷ vs) =
    (if leb lo r.now && leb r.now hi then 1 else 0) + admitted_in lo hi rs vs
admitted_in lo hi (r ∷ rs) (v ∷ vs) = admitted_in lo hi rs vs
admitted_in lo hi rs vs = 0

-- No closed interval of 60 seconds holds more than `rpm` instants of the log.
abbrev IsSparse : ℕ → List ℕ → Type 0
IsSparse rpm log = (lo : ℕ) → count_in lo (lo + window_duration) log ≤ rpm

nil-IsSparse : (rpm : ℕ) → IsSparse rpm []
unfolding count_in
nil-IsSparse rpm lo = omega arith

ideal_log-IsSparse :
    (rpm : ℕ) (log : List ℕ) (last now : ℕ)
    → Ascends 0 log last
    → last ≤ now
    → IsSparse rpm log
    → IsSparse rpm (ideal_log rpm log now)
unfolding ideal_log ideal_admits count_in
ideal_log-IsSparse rpm log last now asc later h lo = ground (
  arith,
  h lo,
  count_in-append lo (lo + window_duration) log (now ∷ []),
  count_in-upto lo 0 log last now asc later,
  count_in-upto lo 0 log last (lo + window_duration) asc,
  count_in-narrow lo now (now - window_duration) now log,
)

-- One call moves its instant from the calls to the log.
admitted_in-cons :
    (rpm lo hi : ℕ) (r : Reading) (rs : List Reading) (log : List ℕ) (v : Result Verdict)
    (vs : List (Result Verdict))
    → view_result v ≡ some (ideal_verdict rpm log r.now)
    → admitted_in lo hi (r ∷ rs) (v ∷ vs) + count_in lo hi log
      ≡ admitted_in lo hi rs vs + count_in lo hi (ideal_log rpm log r.now)
unfolding admitted_in view_result ideal_verdict ideal_log count_in
admitted_in-cons rpm lo hi r rs log (ok (true, none)) vs e =
    ground (arith, count_in-append lo hi log (r.now ∷ []))
admitted_in-cons rpm lo hi r rs log (ok (true, some i)) vs e =
    ground (arith, count_in-append lo hi log (r.now ∷ []))
admitted_in-cons rpm lo hi r rs log (ok (false, none)) vs e =
    ground (arith, count_in-append lo hi log (r.now ∷ []))
admitted_in-cons rpm lo hi r rs log (ok (false, some i)) vs e =
    ground (arith, count_in-append lo hi log (r.now ∷ []))
admitted_in-cons rpm lo hi r rs log (err x) vs e = cc

admitted_in_of_Simulates :
    (rs : List Reading) (rpm : ℕ) (rl : RateLimiter) (log : List ℕ) (last lo : ℕ)
    → 0 < rpm
    → Simulates rpm rl log last
    → IsSparse rpm log
    → IsLater last rs
    → count_in lo (lo + window_duration) log
        + admitted_in lo (lo + window_duration) rs (run_global rs rl)
      ≤ rpm
unfolding run_global admitted_in
admitted_in_of_Simulates [] rpm rl log last lo e s h later = omega (arith, h lo)
admitted_in_of_Simulates (r ∷ rs) rpm rl log last lo e s h later = omega (
  arith,
  admitted_in-cons rpm lo (lo + window_duration) r rs log (check_global r rl).0
      (run_global rs (check_global r rl).1) (check_global-ideal rpm r rl e s later.0),
  admitted_in_of_Simulates rs rpm (check_global r rl).1 (ideal_log rpm log r.now) r.now lo e
      (check_global-Simulates rpm r rl e s later.0)
      (ideal_log-IsSparse rpm log last r.now s.tracks.ascends later.0 h) later.1,
)

-- Of the calls of check_global on a new limiter with a positive limit, at instants that do not go
-- back, at most `global_rpm` are admitted in any 60 seconds, both ends included.
pub admitted_in-run_global-le :
    (rpm per_key : ℕ) (rs : List Reading) (lo : ℕ)
    → 0 < rpm
    → IsLater 0 rs
    → admitted_in lo (lo + window_duration) rs (run_global rs (new rpm per_key)) ≤ rpm
admitted_in-run_global-le rpm per_key rs lo h later = omega (
  arith,
  admitted_in_of_Simulates rs rpm (new rpm per_key) [] 0 lo h (new-Simulates rpm per_key)
      (nil-IsSparse rpm) later,
)

-- ===== src/RateLimiter.antt =====
-- src/fairings/rate_limiter.rs: the sliding-window limiter. An `Instant` is its number of
-- nanoseconds, and a call takes the readings of the two clocks that it makes. The per-key map is a
-- function from key ids.
pub mod Window
pub mod Ideal
pub mod Global
pub mod PerKey
mod Examples
use albion_rest_api.Base.{
  ℕ, ◌+◌, ◌-◌, ◌/◌, ◌%◌, ◌^◌, Bool, true, false, Option, none, some, List, [], ◌∷◌, ◌++◌, ltb, ◌==◌,
  if◌then◌else◌, length, is_empty, unwrap_or,
}
use albion_rest_api.Error.{ApiError, internal, Result, ok, err}

abbrev pub nanos_per_sec : ℕ
nanos_per_sec = 1_000_000_000

abbrev pub window_duration : ℕ
window_duration = 60_000_000_000

abbrev pub per_key_cleanup_every : ℕ
per_key_cleanup_every = 1024

-- `std::sync::Mutex`: a panic of a holder poisons it.
pub record Mutex {ℓ} (A : Type ℓ) : Type ℓ where
  pub poisoned : Bool
  pub value : A

pub record RateLimitInfo : Type 0 where
  pub limit : ℕ
  pub remaining : ℕ
  pub reset : ℕ

pub record RateLimiter : Type 0 where
  pub global_rpm : ℕ
  pub per_key_rpm : ℕ
  pub global_window : Mutex (List ℕ)
  pub per_key_windows : Mutex (ℕ → Option (List ℕ))
  pub per_key_check_count : ℕ

-- What `Instant::now()` and the Unix time in seconds read during one call.
pub record Reading : Type 0 where
  pub now : ℕ
  pub unix : ℕ

abbrev pub Verdict : Type 0
Verdict = Bool × Option RateLimitInfo

unfoldable pub new : ℕ → ℕ → RateLimiter
new global_rpm per_key_rpm = record {
  global_rpm = global_rpm;
  per_key_rpm = per_key_rpm;
  global_window = record { poisoned = false; value = [] };
  per_key_windows = record { poisoned = false; value = λ _. none };
  per_key_check_count = 0;
}

unfoldable pub prune_window : List ℕ → ℕ → List ℕ
prune_window [] cutoff = []
prune_window (t ∷ window) cutoff = if ltb t cutoff then prune_window window cutoff else t ∷ window

-- The sum is of two `u64`.
unfoldable pub compute_reset : List ℕ → Reading → ℕ
compute_reset [] r = (r.unix + window_duration / nanos_per_sec) % 2 ^ 64
compute_reset (oldest ∷ _) r =
    (r.unix + (oldest + window_duration - r.now) / nanos_per_sec) % 2 ^ 64

-- The second half of both checks: the verdict on a pruned window, and the window after it.
unfoldable pub decide_window : ℕ → List ℕ → Reading → Verdict × List ℕ
decide_window rpm window r =
    let pushed = window ++ r.now ∷ [] in
    if ltb (length window) rpm
    then (
      (
        true,
        some (record {
          limit = rpm;
          remaining = rpm - length pushed;
          reset = compute_reset pushed r;
        }),
      ),
      pushed,
    )
    else (
      (false, some (record { limit = rpm; remaining = 0; reset = compute_reset window r })),
      window,
    )

-- An `Instant` may be subtracted below its origin; as no instant is before 0, stopping there
-- prunes the same entries.
abbrev pub cutoff_of : Reading → ℕ
cutoff_of r = r.now - window_duration

abbrev pub unavailable : ApiError
unavailable = internal "rate limiter unavailable"

unfoldable pub check_global : Reading → RateLimiter → Result Verdict × RateLimiter
check_global r rl =
    if rl.global_rpm == 0
    then (ok (true, none), rl)
    else if rl.global_window.poisoned
    then (err unavailable, rl)
    else let (verdict, window) =
        decide_window rl.global_rpm (prune_window rl.global_window.value (cutoff_of r)) r in
      (ok verdict, record rl { global_window = record { poisoned = false; value = window } })

-- `retain` with the closure of the clean-up.
unfoldable pub retain_fresh : ℕ → (ℕ → Option (List ℕ)) → ℕ → Option (List ℕ)
retain_fresh cutoff windows key = elim (windows key) [
  | none ↦ none
  | some window ↦
      let pruned = prune_window window cutoff in if is_empty pruned then none else some pruned
]

-- The opportunistic clean-up, at every 1024th check.
unfoldable pub clean_up : ℕ → ℕ → (ℕ → Option (List ℕ)) → ℕ → Option (List ℕ)
clean_up check_count cutoff windows =
    if check_count % per_key_cleanup_every == 0 then retain_fresh cutoff windows else windows

-- `insert` of a map that is a function.
unfoldable pub put_window : ℕ → List ℕ → (ℕ → Option (List ℕ)) → ℕ → Option (List ℕ)
put_window key window windows k = if k == key then some window else windows k

unfoldable pub check_per_key : Reading → ℕ → RateLimiter → Result Verdict × RateLimiter
check_per_key r key_id rl =
    if rl.per_key_rpm == 0
    then (ok (true, none), rl)
    else if rl.per_key_windows.poisoned
    then (err unavailable, rl)
    else let cutoff = cutoff_of r in
      let check_count = (rl.per_key_check_count + 1) % 2 ^ 64 in
      let windows = clean_up check_count cutoff rl.per_key_windows.value in
      let (verdict, window) =
        decide_window rl.per_key_rpm (prune_window (unwrap_or (windows key_id) []) cutoff) r in
      (
        ok verdict,
        record rl {
          per_key_windows = record { poisoned = false; value = put_window key_id window windows };
          per_key_check_count = check_count;
        },
      )

-- ===== src/RateLimiter/Ideal.antt =====
-- An ideal limiter that remembers every admitted instant, and one decision against it.
use albion_rest_api.Base.{
  ℕ, ◌+◌, ◌-◌, ◌≤◌, ◌≡◌, Bool, true, false, List, [], ◌∷◌, ◌++◌, Option, none, some, arith, ltb,
  if◌then◌else◌, length, length-append, Bool-cases, inl, inr,
}
use albion_rest_api.Error.{Result, ok, err}
use albion_rest_api.RateLimiter.{
  Reading, Verdict, prune_window, decide_window, cutoff_of, window_duration,
}
use albion_rest_api.RateLimiter.Window.{
  count_in, Ascends, Ascends-snoc, Ascends-weaken, length-prune_window, prune_window-prune_window,
  prune_window-snoc, count_in-upto,
}

-- A request is admitted while fewer than `rpm` were admitted in the window that ends now.
unfoldable pub ideal_admits : ℕ → List ℕ → ℕ → Bool
ideal_admits rpm log now = ltb (count_in (now - window_duration) now log) rpm

unfoldable pub ideal_log : ℕ → List ℕ → ℕ → List ℕ
ideal_log rpm log now = if ideal_admits rpm log now then log ++ now ∷ [] else log

-- The verdict, the limit and what remains of it.
unfoldable pub ideal_verdict : ℕ → List ℕ → ℕ → Bool × ℕ × ℕ
ideal_verdict rpm log now =
    if ideal_admits rpm log now
    then (true, rpm, rpm - (count_in (now - window_duration) now log + 1))
    else (false, rpm, 0)

unfoldable pub view_verdict : Verdict → Bool × ℕ × ℕ
view_verdict (admitted, none) = (admitted, 0, 0)
view_verdict (admitted, some info) = (admitted, info.limit, info.remaining)

unfoldable pub view_result : Result Verdict → Option (Bool × ℕ × ℕ)
unfolding view_verdict
view_result (ok verdict) = some (view_verdict verdict)
view_result (err _) = none

module _ (rpm : ℕ) (log : List ℕ) (last : ℕ) (r : Reading) (asc : Ascends 0 log last)
    (later : last ≤ r.now) where
  length_pruned :
      length (prune_window log (cutoff_of r)) ≡ count_in (r.now - window_duration) r.now log
  length_pruned = omega (
    arith,
    length-prune_window (cutoff_of r) 0 log last asc,
    count_in-upto (cutoff_of r) 0 log last r.now asc later,
  )

  -- Deciding on the pruned log gives the ideal verdict.
  pub decide_window-ideal :
      view_verdict (decide_window rpm (prune_window log (cutoff_of r)) r).0
      ≡ ideal_verdict rpm log r.now
  unfolding decide_window ideal_verdict ideal_admits view_verdict
  decide_window-ideal =
      ground (arith, length_pruned, length-append {0} (prune_window log (cutoff_of r)) (r.now ∷ []))

  -- The window after it is the pruned log after it.
  pub decide_window-log :
      (decide_window rpm (prune_window log (cutoff_of r)) r).1
      ≡ prune_window (ideal_log rpm log r.now) (cutoff_of r)
  unfolding decide_window ideal_log ideal_admits
  decide_window-log =
      ground (arith, length_pruned, prune_window-snoc (cutoff_of r) r.now log (omega arith))

  pub ideal_log-Ascends : Ascends 0 (ideal_log rpm log r.now) r.now
  unfolding ideal_log
  ideal_log-Ascends = elim (Bool-cases (ideal_admits rpm log r.now)) [
    | inl yes' ↦ rw yes' (Ascends-snoc 0 log last r.now asc later)
    | inr no' ↦ rw no' (Ascends-weaken 0 log last r.now asc later)
  ]

-- The limiter's window holds the log from some cut-off on that is not too late.
pub record Tracks (rpm : ℕ) (window log : List ℕ) (last : ℕ) : Type 0 where
  pub cut : ℕ
  pub early : cut ≤ last - window_duration
  pub window_eq : window ≡ prune_window log cut
  pub ascends : Ascends 0 log last

pub Tracks-prune :
    {rpm : ℕ} {window log : List ℕ} {last : ℕ} (r : Reading)
    → Tracks rpm window log last
    → last ≤ r.now
    → prune_window window (cutoff_of r) ≡ prune_window log (cutoff_of r)
Tracks-prune {log} r t later =
    rw (t.window_eq) (prune_window-prune_window t.cut (cutoff_of r) log (omega (arith, t.early)))

pub Tracks-later :
    {rpm : ℕ} {window log : List ℕ} {last : ℕ} (now : ℕ)
    → Tracks rpm window log last
    → last ≤ now
    → Tracks rpm window log now
Tracks-later {log} {last} now t later = record {
  cut = t.cut;
  early = omega (arith, t.early);
  window_eq = t.window_eq;
  ascends = Ascends-weaken 0 log last now t.ascends later;
}

pub Tracks-prune_window :
    {rpm : ℕ} {window log : List ℕ} {last : ℕ} (r : Reading)
    → Tracks rpm window log last
    → last ≤ r.now
    → Tracks rpm (prune_window window (cutoff_of r)) log r.now
Tracks-prune_window {log} {last} r t later = record {
  cut = cutoff_of r;
  early = omega arith;
  window_eq = Tracks-prune r t later;
  ascends = Ascends-weaken 0 log last r.now t.ascends later;
}

-- ===== src/RateLimiter/PerKey.antt =====
-- Runs of check_per_key of src/fairings/rate_limiter.rs, seen from one key.
use albion_rest_api.Base.{
  ℕ, ◌+◌, ◌%◌, ◌^◌, ◌≤◌, ◌<◌, ◌≡◌, ◌≢◌, refl, ap, ap₂, false, List, [], ◌∷◌, Option, none, some,
  map, arith, ◌==◌, ==_iff, if◌then◌else◌, Bool-cases, Option-cases, inl, inr, unwrap_or, is_empty,
}
use albion_rest_api.Error.{Result, ok}
use albion_rest_api.RateLimiter.{
  RateLimiter, Reading, Verdict, new, prune_window, decide_window, cutoff_of, check_per_key,
  retain_fresh, clean_up, put_window,
}
use albion_rest_api.RateLimiter.Ideal.{
  ideal_log, ideal_verdict, view_result, Tracks, Tracks-prune, Tracks-later, Tracks-prune_window,
  decide_window-ideal, decide_window-log, ideal_log-Ascends,
}
use albion_rest_api.RateLimiter.Global.{ideal_run}

-- The entry of a key, an absent one read as an empty window.
abbrev window_of : (ℕ → Option (List ℕ)) → ℕ → List ℕ
window_of windows k = unwrap_or (windows k) []

window_of-retain_fresh :
    (c : ℕ) (windows : ℕ → Option (List ℕ)) (k : ℕ)
    → window_of (retain_fresh c windows) k ≡ prune_window (window_of windows k) c
unfolding retain_fresh prune_window
window_of-retain_fresh c windows k = elim (Option-cases (windows k)) [
  | inl e ↦ rw (e, retain_fresh) refl
  | inr (w, e) ↦ rw (e, retain_fresh) (window_lem (prune_window w c))
]
  where
    window_lem : (w : List ℕ) → unwrap_or (if is_empty w then none else some w) [] ≡ w
    window_lem [] = refl
    window_lem (t ∷ w) = refl

window_of-put_window_self :
    (k : ℕ) (w : List ℕ) (windows : ℕ → Option (List ℕ)) → window_of (put_window k w windows) k ≡ w
unfolding put_window
window_of-put_window_self k w windows = ground arith

window_of-put_window_ne :
    (key k : ℕ) (w : List ℕ) (windows : ℕ → Option (List ℕ))
    → key ≢ k
    → window_of (put_window key w windows) k ≡ window_of windows k
unfolding put_window
window_of-put_window_ne key k w windows ne = ground arith

pub record SimulatesKey (rpm k : ℕ) (rl : RateLimiter) (log : List ℕ) (last : ℕ) : Type 0 where
  pub limit : rl.per_key_rpm ≡ rpm
  pub sound : rl.per_key_windows.poisoned ≡ false
  pub tracks : Tracks rpm (window_of rl.per_key_windows.value k) log last

module _ (rpm k : ℕ) (r : Reading) {log : List ℕ} {last : ℕ} (later : last ≤ r.now) where
  -- A clean-up of the map keeps the view of the key.
  clean_up-Tracks :
      (n : ℕ) (windows : ℕ → Option (List ℕ))
      → Tracks rpm (window_of windows k) log last
      → Tracks rpm (window_of (clean_up n (cutoff_of r) windows) k) log r.now
  unfolding clean_up
  clean_up-Tracks n windows t = elim (Bool-cases (n % 1024 == 0)) [
    | inl e ↦ rw (e, window_of-retain_fresh) (Tracks-prune_window r t later)
    | inr e ↦ rw e (Tracks-later r.now t later)
  ]

  module _ (rl : RateLimiter) (enabled : 0 < rpm) (s : SimulatesKey rpm k rl log last) where
    cleaned : ℕ → Option (List ℕ)
    cleaned =
        clean_up ((rl.per_key_check_count + 1) % 2 ^ 64) (cutoff_of r) rl.per_key_windows.value

    cleaned-Tracks : Tracks rpm (window_of cleaned k) log r.now
    unfolding cleaned
    cleaned-Tracks =
        clean_up-Tracks ((rl.per_key_check_count + 1) % 2 ^ 64) rl.per_key_windows.value s.tracks

    check_per_key-eq :
        (key : ℕ)
        → check_per_key r key rl ≡ (
          ok (decide_window rpm (prune_window (window_of cleaned key) (cutoff_of r)) r).0,
          record rl {
            per_key_windows = record {
              poisoned = false;
              value =
                  put_window key
                    (decide_window rpm (prune_window (window_of cleaned key) (cutoff_of r)) r).1
                    cleaned;
            };
            per_key_check_count = (rl.per_key_check_count + 1) % 2 ^ 64;
          },
        )
    unfolding check_per_key cleaned
    check_per_key-eq key = ground (arith, s.limit, s.sound)

    pub check_per_key-ideal :
        view_result (check_per_key r k rl).0 ≡ some (ideal_verdict rpm log r.now)
    unfolding view_result
    check_per_key-ideal =
        rw (check_per_key-eq k, Tracks-prune r cleaned-Tracks (omega arith))
          (ap some (decide_window-ideal rpm log r.now r cleaned-Tracks.ascends (omega arith)))

    pub check_per_key-SimulatesKey :
        SimulatesKey rpm k (check_per_key r k rl).1 (ideal_log rpm log r.now) r.now
    check_per_key-SimulatesKey = rw (check_per_key-eq k) (record {
      limit = s.limit;
      sound = refl;
      tracks =
          rw (window_of-put_window_self, Tracks-prune r cleaned-Tracks (omega arith))
            (record {
              cut = cutoff_of r;
              early = omega arith;
              window_eq = decide_window-log rpm log r.now r cleaned-Tracks.ascends (omega arith);
              ascends = ideal_log-Ascends rpm log r.now r cleaned-Tracks.ascends (omega arith);
            });
    })

    -- A call for another key leaves this one's view.
    pub check_per_key-SimulatesKey_ne :
        (key : ℕ) → key ≢ k → SimulatesKey rpm k (check_per_key r key rl).1 log r.now
    check_per_key-SimulatesKey_ne key ne = rw (check_per_key-eq key) (record {
      limit = s.limit;
      sound = refl;
      tracks = rw (window_of-put_window_ne key k _ cleaned ne) cleaned-Tracks;
    })

abbrev pub Call : Type 0
Call = Reading × ℕ

unfoldable pub run_per_key : List Call → RateLimiter → List (Result Verdict)
run_per_key [] rl = []
run_per_key ((r, key) ∷ cs) rl =
    (check_per_key r key rl).0 ∷ run_per_key cs (check_per_key r key rl).1

-- The readings of one key's calls, and the results of these calls.
unfoldable pub readings_of : ℕ → List Call → List Reading
readings_of k [] = []
readings_of k ((r, key) ∷ cs) = if key == k then r ∷ readings_of k cs else readings_of k cs

unfoldable pub results_of {ℓ} : {A : Type ℓ} → ℕ → List Call → List A → List A
results_of k ((r, key) ∷ cs) (v ∷ vs) =
    if key == k then v ∷ results_of k cs vs else results_of k cs vs
results_of k cs vs = []

abbrev pub IsLater : ℕ → List Call → Type 0
IsLater last [] = Unit {0}
IsLater last (c ∷ cs) = (last ≤ c.0.now) × IsLater c.0.now cs

run_per_key_of_SimulatesKey :
    (cs : List Call) (rpm k : ℕ) (rl : RateLimiter) (log : List ℕ) (last : ℕ)
    → 0 < rpm
    → SimulatesKey rpm k rl log last
    → IsLater last cs
    → map view_result (results_of k cs (run_per_key cs rl)) ≡ ideal_run rpm (readings_of k cs) log
unfolding run_per_key readings_of results_of ideal_run
run_per_key_of_SimulatesKey [] rpm k rl log last e s h = refl
run_per_key_of_SimulatesKey ((r, key) ∷ cs) rpm k rl log last e s h = elim (Bool-cases (key == k)) [
  | inl same ↦
      let same' : key ≡ k = (==_iff key k).0 same in
      rw (same, same')
        (ap₂ ◌∷◌ (check_per_key-ideal rpm k r h.0 rl e s) (
          run_per_key_of_SimulatesKey cs rpm k (check_per_key r k rl).1 (ideal_log rpm log r.now)
            r.now e (check_per_key-SimulatesKey rpm k r h.0 rl e s) h.1))
  | inr other ↦ rw other (
      run_per_key_of_SimulatesKey cs rpm k (check_per_key r key rl).1 log r.now e
        (check_per_key-SimulatesKey_ne rpm k r h.0 rl e s key (ground arith)) h.1)
]

-- From a new limiter with a positive per-key limit, and at instants that do not go back, the
-- calls for one key get the results of an ideal limiter of its own that remembers every instant
-- admitted for that key: whatever the other keys do, and whenever the map is cleaned up.
pub run_per_key-ideal :
    (global rpm k : ℕ) (cs : List Call)
    → 0 < rpm
    → IsLater 0 cs
    → map view_result (results_of k cs (run_per_key cs (new global rpm)))
      ≡ ideal_run rpm (readings_of k cs) []
run_per_key-ideal global rpm k cs h later =
    run_per_key_of_SimulatesKey cs rpm k (new global rpm) [] 0 h new_lem later
  where
    new_lem : SimulatesKey rpm k (new global rpm) [] 0
    new_lem =
        unfold new prune_window in
        (record {
          limit = refl;
          sound = refl;
          tracks = record { cut = 0; early = omega arith; window_eq = refl; ascends = omega arith };
        })

-- ===== src/RateLimiter/Examples.antt =====
-- Runs of the limiter on small inputs.
use albion_rest_api.Base.{ℕ, ◌*◌, ◌≡◌, ◌≤◌, refl, true, false, List, [], ◌∷◌, some, map, arith, ◌+◌}
use albion_rest_api.RateLimiter.{
  Reading, new, check_global, check_per_key, prune_window, decide_window, compute_reset,
  retain_fresh, clean_up, put_window, window_duration,
}
use albion_rest_api.RateLimiter.Ideal.{view_result, ideal_verdict, ideal_admits, ideal_log}
use albion_rest_api.RateLimiter.Window.{count_in}
use albion_rest_api.RateLimiter.Global.{
  run_global, ideal_run, run_global-ideal, admitted_in, admitted_in-run_global-le,
}
use albion_rest_api.RateLimiter.PerKey.{
  Call, run_per_key, readings_of, results_of, run_per_key-ideal,
}

program : Unit {0}
unfolding new check_global check_per_key prune_window decide_window compute_reset retain_fresh
    clean_up put_window view_result run_global run_per_key results_of readings_of ideal_run
    ideal_verdict ideal_admits ideal_log count_in admitted_in
program = tt

-- Readings at a number of seconds from the start of both clocks.
abbrev at : ℕ → Reading
at s = record { now = s * 1_000_000_000; unix = 1000 + s }

abbrev readings : List Reading
readings = at 0 ∷ at 10 ∷ at 20 ∷ at 60 ∷ at 61 ∷ []

-- The call at 60 s still counts the one at 0 s; the call at 61 s does not.
readings_run :
    map view_result (run_global readings (new 2 0))
    ≡ some (true, 2, 1)
      ∷ some (true, 2, 0)
      ∷ some (false, 2, 0)
      ∷ some (false, 2, 0)
      ∷ some (true, 2, 0)
      ∷ []
unfolding program
readings_run = refl

run_global-ideal_example : map view_result (run_global readings (new 2 0)) ≡ ideal_run 2 readings []
run_global-ideal_example = run_global-ideal 2 0 readings (omega arith) (omega arith)

admitted_in-run_global-le_example :
    admitted_in 0 (0 + window_duration) readings (run_global readings (new 2 0)) ≤ 2
admitted_in-run_global-le_example =
    admitted_in-run_global-le 2 0 readings 0 (omega arith) (omega arith)

abbrev calls : List Call
calls = (at 0, 7) ∷ (at 1, 8) ∷ (at 2, 7) ∷ (at 3, 8) ∷ []

calls_run :
    map view_result (run_per_key calls (new 0 1))
    ≡ some (true, 1, 0) ∷ some (true, 1, 0) ∷ some (false, 1, 0) ∷ some (false, 1, 0) ∷ []
unfolding program
calls_run = refl

run_per_key-ideal_example :
    map view_result (results_of 7 calls (run_per_key calls (new 0 1)))
    ≡ ideal_run 1 (readings_of 7 calls) []
run_per_key-ideal_example = run_per_key-ideal 0 1 7 calls (omega arith) (omega arith)

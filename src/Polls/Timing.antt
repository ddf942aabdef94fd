-- ===== src/Polls/Timing.antt =====
-- check.py: when the requests of one path pass the check on their timing.
use cactus_runner.Prelude.{
  ℕ, zero, suc, ◌+◌, ◌-◌, ◌*◌, ◌<◌, true, List, ◌∷◌, Option, none, some, ◌≡◌, ◌≢◌, ◌↔◌, arith,
  length,
}
use cactus_runner.Prelude.Int.{ℤ, pos, negsuc, leb_ℤ}
use cactus_runner.Exec.{Result, ok, err}
use cactus_runner.Definitions.{Time}
use cactus_runner.Models.{RequestEntry, CheckResult}
use cactus_runner.Services.{Services}
use cactus_runner.SoftChecker.{finalize, add}
use cactus_runner.Polls.{
  sorted_by_time, last_time, window_length, plus_delta, window_loop, window_results, expected_total,
  max_total, total_failures, check_poll_timing_for_path,
}
use cactus_runner.Polls.Windows.{EveryWindow, FailsUnless, window_loop-passed, EveryWindow-sorted}
use cactus_runner.Polls.Sorting.{latest, last_time-sorted, length-sorted}

-- The check returns a result, which passes exactly if the condition holds.
abbrev pub PassesIf : Type 0 → Result CheckResult → Type 0
PassesIf Condition (err e) = ⊥
PassesIf Condition (ok result) = (result.passed ≡ true) ↔ Condition

module _ (S : Services) where
  window_length-pos : (k : ℕ) → window_length (pos k) ≡ pos (3000000 * k)
  window_length-pos k = ground arith

  window_length-negsuc :
      (k : ℕ) → window_length (negsuc k) ≡ negsuc (3000000 * suc k - 3000000 * 0 - 1)
  window_length-negsuc k = ground arith

  going_back :
      (n : ℕ) (requests : List RequestEntry) (last fuel start window : ℕ)
      → start < fuel
      → window_loop S fuel (negsuc n) requests last start window ≢ none
  unfolding window_loop plus_delta
  going_back n requests last zero start window h = absurd (omega arith)
  going_back n requests last (suc fuel) start window h =
      ground (arith, going_back n requests last fuel (start - suc n) (suc window))

  same_condition :
      (P Q : Type 0) (o : Option (Result (List CheckResult)))
      → P ↔ Q
      → FailsUnless P o
      → FailsUnless Q o
  same_condition P Q none e h = absurd h
  same_condition P Q (some (err e)) i h = absurd h
  same_condition P Q (some (ok failures)) e h = ground arith

  ends_if_checked :
      (Condition : Type 0) (o : Option (Result (List CheckResult)))
      → FailsUnless Condition o
      → o ≢ none
  ends_if_checked Condition none h e = absurd h
  ends_if_checked Condition (some r) h e = ground arith

  -- The loop over the windows ends on its fuel for every poll interval but 0, a negative one
  -- included; the check rejects an interval of 0 before it.
  pub window_results-ends :
      (interval : ℤ) (requests : List RequestEntry) (last started : Time)
      → interval ≢ pos 0
      → window_results S interval requests last started ≢ none
  unfolding window_results
  window_results-ends (pos k) requests last started h = rw (window_length-pos k) (
      ends_if_checked (EveryWindow (3000000 * k) requests last started) _ (
        window_loop-passed (3000000 * k) requests last S (ground arith) (last + started + 1) started
          0 (omega arith)))
  window_results-ends (negsuc k) requests last started h = rw (window_length-negsuc k) (
      going_back (3000000 * suc k - 3000000 * 0 - 1) requests last (last + started + 1) started 0
        (omega arith))

  results_passed :
      (k : ℕ) (requests : List RequestEntry) (last started : Time)
      → FailsUnless
          (EveryWindow (3000000 * suc k) requests last started)
          (window_results S (pos (suc k)) requests last started)
  unfolding window_results
  results_passed k requests last started = rw (window_length-pos (suc k)) (
      window_loop-passed (3000000 * suc k) requests last S (omega arith) (last + started + 1)
        started 0 (omega arith))

  path_passed :
      (interval : ℤ) (requests : List RequestEntry) (last started : ℕ) (Condition : Type 0)
      → last_time (sorted_by_time requests) ≡ some last
      → FailsUnless Condition (window_results S interval (sorted_by_time requests) last started)
      → PassesIf
          (Condition
            × (leb_ℤ (pos (length requests)) (max_total (expected_total interval last started))
                ≡ true))
          (check_poll_timing_for_path S requests interval started)
  unfolding check_poll_timing_for_path total_failures finalize add
  path_passed interval requests last started Condition e h = ground (arith, length-sorted requests)

  -- The requests of one path, at a positive poll interval, pass the check on their timing exactly if
  -- each complete window of three intervals from the start of the test holds two of them, and
  -- their number is no more than the maximum of the expected total; the check raises nothing.
  pub check_poll_timing_for_path-passed :
      (r : RequestEntry) (rs : List RequestEntry) (k started : ℕ)
      → PassesIf
          (EveryWindow (3000000 * suc k) (r ∷ rs) (latest (r ∷ rs)) started
            × (leb_ℤ
                  (pos (length (r ∷ rs)))
                  (max_total (expected_total (pos (suc k)) (latest (r ∷ rs)) started))
                ≡ true))
          (check_poll_timing_for_path S (r ∷ rs) (pos (suc k)) started)
  check_poll_timing_for_path-passed r rs k started =
      let requests = sorted_by_time (r ∷ rs) in
      let last = latest (r ∷ rs) in
      path_passed (pos (suc k)) (r ∷ rs) last started _ (last_time-sorted r rs) (
        same_condition (EveryWindow (3000000 * suc k) requests last started) _ _
          (EveryWindow-sorted (3000000 * suc k) (r ∷ rs) last started)
          (results_passed k requests last started))

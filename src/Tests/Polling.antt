-- ===== src/Tests/Polling.antt =====
-- The polling check on sample requests.
use cactus_runner.Prelude.{ℕ, suc, ◌*◌, true, List, [], ◌∷◌, none, ◌≡◌, ◌≢◌, refl, arith, length}
use cactus_runner.Prelude.Int.{pos, negsuc, leb_ℤ}
use cactus_runner.Models.{RequestEntry}
use cactus_runner.Exec.{ok}
use cactus_runner.SoftChecker.{fail}
use cactus_runner.Polls.{max_total, expected_total, window_results, check_poll_timing_for_path}
use cactus_runner.Polls.Sorting.{latest}
use cactus_runner.Polls.Windows.{EveryWindow}
use cactus_runner.Polls.Timing.{PassesIf, window_results-ends, check_poll_timing_for_path-passed}
use cactus_runner.Tests.Samples.{services}

abbrev pub poll_at : ℕ → RequestEntry
poll_at seconds = record {
  url = "http://envoy:8000/dcap";
  path = "/dcap";
  method = "GET";
  status = 200;
  timestamp = seconds * 1000000;
  step_name = "";
  body_xml_errors = [];
  request_id = 0;
}

abbrev polls : List RequestEntry
polls = poll_at 130 ∷ poll_at 100 ∷ poll_at 160 ∷ poll_at 191 ∷ []

window_results-ends_example : window_results services (negsuc 59) polls 191000000 100000000 ≢ none
window_results-ends_example =
    window_results-ends services (negsuc 59) polls 191000000 100000000 (ground arith)

check_poll_timing_for_path-passed_example :
    PassesIf
      (EveryWindow (3000000 * suc 29) polls (latest polls) 100000000
        × (leb_ℤ
              (pos (length polls))
              (max_total (expected_total (pos (suc 29)) (latest polls) 100000000))
            ≡ true))
      (check_poll_timing_for_path services polls (pos (suc 29)) 100000000)
check_poll_timing_for_path-passed_example =
    check_poll_timing_for_path-passed services (poll_at 130)
      (poll_at 100 ∷ poll_at 160 ∷ poll_at 191 ∷ []) 29 100000000

-- A single poll, two seconds into a test with an interval of five minutes, fails.
single_poll :
    (check_poll_timing_for_path services (poll_at 102 ∷ []) (pos 300) 100000000)
    ≡ ok (fail "Total polls  exceeds maximum  (expected ~ over s at s interval)")
unfolding check_poll_timing_for_path window_results cactus_runner.Polls.window_loop
    cactus_runner.Polls.sorted_by_time cactus_runner.Polls.last_time cactus_runner.Polls.plus_delta
    cactus_runner.Polls.window_failures cactus_runner.Polls.requests_in_window
    cactus_runner.Polls.total_failures expected_total max_total
    cactus_runner.Prelude.Int.round_quotient cactus_runner.SoftChecker.add
    cactus_runner.SoftChecker.finalize cactus_runner.SoftChecker.descriptions
    cactus_runner.Prelude.Strings.join
single_poll = refl

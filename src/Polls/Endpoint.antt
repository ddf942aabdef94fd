-- ===== src/Polls/Endpoint.antt =====
-- check.py: the check on the polls of an endpoint, path by path.
use cactus_runner.Prelude.{
  String, Bool, true, not, ◌&&◌, ◌||◌, List, [], ◌∷◌, none, some, str_eq, concat, keep,
  if◌then◌else◌,
}
use cactus_runner.Prelude.Int.{ℤ, pos}
use cactus_runner.Prelude.Dict
use cactus_runner.Prelude.Dict.{Dict}
use cactus_runner.Exec.{Result, ok, err, lift, pure, ◌>>=◌, on_option}
use cactus_runner.Definitions.{Time, text, Resolved, scalar, of_int, is_truthy}
use cactus_runner.Models.{RequestEntry, ActiveTestProcedure, CheckResult, is_http_method}
use cactus_runner.Services.{Services}
use cactus_runner.SoftChecker.{fail, add, finalize}
use cactus_runner.World.{Run}
use cactus_runner.Actions.Params.{as_int, as_text}
use cactus_runner.Uri.{does_endpoint_match}
use cactus_runner.Polls.{check_poll_timing_for_path, distinct_paths, prepend}

module _ (S : Services) where
  -- checker.add(f"{path}: {description}") for a path that fails
  unfoldable pub path_failure : String → CheckResult → List CheckResult
  unfolding add
  path_failure path result = elim result.description [
    | none ↦ []
    | some d ↦ if result.passed || str_eq d "" then [] else add (concat path (concat ": " d)) []
  ]

  unfoldable pub poll_failures :
      List RequestEntry → ℤ → Time → List String → Result (List CheckResult)
  unfolding check_poll_timing_for_path path_failure
  poll_failures requests interval started [] = ok []
  poll_failures requests interval started (path ∷ paths) =
      elim (check_poll_timing_for_path S (keep (λ r. str_eq r.path path) requests) interval
        started) [
          | err e ↦ err e
          | ok result ↦
              prepend (path_failure path result) (poll_failures requests interval started paths)
        ]

  -- _is_first_page(url)
  unfoldable pub is_first_page_url : String → Bool
  is_first_page_url url = elim (S.query_value "s" url) [
    | none ↦ true
    | some start ↦ str_eq start "0"
  ]

  unfoldable pub is_polled : (method endpoint : String) → RequestEntry → Bool
  unfolding is_first_page_url
  is_polled method endpoint r =
      str_eq r.method method && does_endpoint_match r.path endpoint && is_first_page_url r.url

  abbrev pub poll_result : (method endpoint : String) → List CheckResult → CheckResult
  poll_result method endpoint [] = record {
    passed = true;
    description = some (
        concat "All poll timing checks passed for "
          (concat method (concat " '" (concat endpoint "'"))));
  }
  poll_result method endpoint (c ∷ rest) = finalize (c ∷ rest)

  -- The check on the polls of an endpoint, once its parameters are read.
  unfoldable pub check_polls :
      (method endpoint : String) (interval : ℤ) → Time → List RequestEntry → Result CheckResult
  unfolding poll_failures is_polled
  check_polls method endpoint interval started history =
      let requests = keep (is_polled method endpoint) history in
      elim requests [
        | [] ↦ ok (
            fail (
              concat "No "
                (concat method (concat " requests found for endpoint '" (concat endpoint "'")))))
        | r ∷ rest ↦ elim (poll_failures (r ∷ rest) interval started (distinct_paths (r ∷ rest))) [
          | err e ↦ err e
          | ok failures ↦ ok (poll_result method endpoint failures)
        ]
      ]

  abbrev start_checked :
      ActiveTestProcedure
      → List RequestEntry
      → (method endpoint : String) (interval : ℤ) → Run S CheckResult
  start_checked p history method endpoint interval =
      on_option p.started_at (pure (fail "Test has not started - cannot check poll timing"))
        (λ started. lift (check_polls method endpoint interval started history))

  abbrev invalid_method : String → CheckResult
  invalid_method method =
      fail (concat "Invalid request_type_str '" (concat method "' - must be GET, POST, or PUT"))

  abbrev method_checked :
      ActiveTestProcedure
      → List RequestEntry
      → (method endpoint : String) (interval : ℤ) → Run S CheckResult
  method_checked p history method endpoint interval =
      if is_http_method method
      then start_checked p history method endpoint interval
      else pure (invalid_method method)

  unfoldable pub check_all_polls_at_correct_time :
      ActiveTestProcedure → List RequestEntry → Dict Resolved → Run S CheckResult
  check_all_polls_at_correct_time p history params =
      let endpoint = Dict.get_or "endpoint" (scalar (text "")) params in
      let interval = Dict.get_or "poll_interval_seconds" (of_int (pos 0)) params in
      let request_type = Dict.get_or "request_type_str" (scalar (text "")) params in
      if not (is_truthy endpoint)
      then pure (fail "No endpoint specified for poll timing check")
      else if not (is_truthy interval)
      then pure (fail "No poll_interval_seconds specified for poll timing check")
      else if not (is_truthy request_type)
      then pure (fail "No request_type_str specified for poll timing check")
      else (do
        method ← lift (as_text request_type)
        path ← lift (as_text endpoint)
        seconds ← lift (as_int interval)
        method_checked p history (S.upper method) path seconds)

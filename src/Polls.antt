-- ===== src/Polls.antt =====
-- check.py, the check on how often the client polls: the requests of each path that an endpoint
-- matches are counted in windows of three poll intervals, and over the whole test.
pub mod Endpoint
pub mod Windows
pub mod Sorting
pub mod Timing
use cactus_runner.Prelude.{
  ℕ, zero, suc, ◌+◌, String, Bool, true, false, not, ◌&&◌, ◌||◌, ◌<◌, ◌≤◌, List, [], ◌∷◌, ◌++◌,
  Option, none, some, str_eq, concat, elem, keep, length, leb, ltb, if◌then◌else◌, ◌*◌, ◌-◌, ◌/◌,
}
use cactus_runner.Prelude.Int.{
  ℤ, pos, pos_part, neg_part, sub_ℕ, scale_ℤ, leb_ℤ, plus_ℕ, round_quotient,
}
use cactus_runner.Prelude.Dict
use cactus_runner.Prelude.Dict.{Dict}
use cactus_runner.Prelude.Strings.{precedes}
use cactus_runner.Exec.{external, index_error, Result, ok, err, lift, pure, ◌>>=◌, on_option}
use cactus_runner.Definitions.{Time, text, int, Resolved, scalar, of_int, is_truthy}
use cactus_runner.Models.{RequestEntry, ActiveTestProcedure, CheckResult, is_http_method}
use cactus_runner.Services.{Services}
use cactus_runner.SoftChecker.{pass, fail, add, finalize}
use cactus_runner.World.{Run}
use cactus_runner.Actions.Params.{as_int, as_text}
use cactus_runner.Uri.{does_endpoint_match}

-- sorted(requests, key=lambda r: r.timestamp), which is stable
abbrev pub insert_by_time : RequestEntry → List RequestEntry → List RequestEntry
insert_by_time r [] = r ∷ []
insert_by_time r (s ∷ rest) =
    let others = insert_by_time r rest in
    if leb r.timestamp s.timestamp then r ∷ s ∷ rest else s ∷ others

unfoldable pub sorted_by_time : List RequestEntry → List RequestEntry
sorted_by_time [] = []
sorted_by_time (r ∷ rest) = insert_by_time r (sorted_by_time rest)

-- sorted_requests[-1].timestamp
unfoldable pub last_time : List RequestEntry → Option Time
last_time [] = none
last_time (r ∷ []) = some r.timestamp
last_time (r ∷ s ∷ rest) = last_time (s ∷ rest)

-- How many requests are in the window from `start` to before `end`.
unfoldable pub requests_in_window : (start end : Time) → List RequestEntry → ℕ
requests_in_window start end requests =
    length (keep (λ r. leb start r.timestamp && ltb r.timestamp end) requests)

-- time + timedelta(seconds=…), by its microseconds. No time is before the epoch here: a window that
-- is moved back ends in an overflow in any case. The overflow
-- of a window that ends after the year 9999 is not modelled.
unfoldable pub plus_delta : Time → ℤ → Option Time
plus_delta t d =
    if leb (neg_part d) (t + pos_part d) then some (t + pos_part d - neg_part d) else none

-- timedelta(seconds=poll_interval_seconds * 3)
abbrev pub window_length : ℤ → ℤ
window_length poll_interval_seconds = scale_ℤ 3000000 poll_interval_seconds

abbrev pub prepend : List CheckResult → Result (List CheckResult) → Result (List CheckResult)
prepend failures (ok rest) = ok (failures ++ rest)
prepend failures (err e) = err e

-- round(test_duration_seconds / poll_interval_seconds). The quotient of the code is a float; it
-- rounds to the same integer as the exact one for tests of less than thirty years.
unfoldable pub expected_total : (interval : ℤ) → (last started : Time) → ℤ
unfolding round_quotient
expected_total interval last started =
    round_quotient (sub_ℕ last started) (scale_ℤ 1000000 interval)

-- int(test_duration_seconds)
abbrev pub whole_seconds : ℤ → ℤ
whole_seconds d = sub_ℕ (pos_part d / 1000000) (neg_part d / 1000000)

-- min(expected_total * 3, expected_total + 3)
unfoldable pub max_total : ℤ → ℤ
max_total expected =
    if leb_ℤ (scale_ℤ 3 expected) (plus_ℕ expected 3) then scale_ℤ 3 expected else plus_ℕ expected 3

abbrev pub insert_path : String → List String → List String
insert_path path [] = path ∷ []
insert_path path (other ∷ rest) =
    let others = insert_path path rest in
    if str_eq path other
    then other ∷ rest
    else if precedes path other
    then path ∷ other ∷ rest
    else other ∷ others

-- sorted(set(r.path for r in requests))
unfoldable pub distinct_paths : List RequestEntry → List String
distinct_paths [] = []
distinct_paths (r ∷ rest) = insert_path r.path (distinct_paths rest)

module _ (S : Services) where
  number : ℕ → String
  number n = S.format (of_int (pos n))

  -- What the check on a window adds: only complete windows are held to the minimum of two polls.
  unfoldable pub window_failures :
      (number : ℕ) (start end last : Time) → List RequestEntry → List CheckResult
  unfolding number add
  window_failures n start end last requests =
      let count = requests_in_window start end requests in
      if leb end last && ltb count 2
      then add
          (concat "Window " (
            concat (number n) (
              concat " (" (
                concat (S.isoformat start) (
                  concat " - " (
                    concat (S.isoformat end)
                      (concat "): expected at least 2 poll(s), found " (number count))))))))
          []
      else []

  -- `while window_start < last_request_time`; `none` is a fuel that is too small.
  unfoldable pub window_loop :
      (fuel : ℕ) (width : ℤ)
      → List RequestEntry
      → (last start : Time) (window_number : ℕ) → Option (Result (List CheckResult))
  window_loop zero width requests last start n = none
  window_loop (suc fuel) width requests last start n = elim (ltb start last) [
    | false ↦ some (ok [])
    | true ↦ elim (plus_delta start width) [
      | none ↦ some (err external)
      | some end ↦ elim (window_loop fuel width requests last end (suc n)) [
        | none ↦ none
        | some rest ↦ some (prepend (window_failures (suc n) start end last requests) rest)
      ]
    ]
  ]

  -- Every window is at least three seconds long, or goes back by as much.
  abbrev pub window_fuel : (last start : Time) → ℕ
  window_fuel last start = last + start + 1

  -- The failure of more polls than the maximum.
  unfoldable pub total_failures :
      (interval : ℤ) (last started : Time) (count : ℕ) → List CheckResult
  unfolding number add
  total_failures interval last started count =
      let expected = expected_total interval last started in
      if leb_ℤ (pos count) (max_total expected)
      then []
      else add
          (concat "Total polls " (
            concat (number count) (
              concat " exceeds maximum " (
                concat (S.format (of_int (max_total expected))) (
                  concat " (expected ~" (
                    concat (S.format (of_int expected)) (
                      concat " over " (
                        concat (S.format (of_int (whole_seconds (sub_ℕ last started)))) (
                          concat "s at "
                            (concat (S.format (of_int interval)) "s interval)"))))))))))
          []

  unfoldable pub window_results :
      (interval : ℤ)
      → List RequestEntry
      → (last started : Time) → Option (Result (List CheckResult))
  unfolding window_loop
  window_results interval requests last started =
      window_loop (window_fuel last started) (window_length interval) requests last started 0

  unfoldable pub check_poll_timing_for_path : List RequestEntry → ℤ → Time → Result CheckResult
  check_poll_timing_for_path path_requests interval started =
      let requests = sorted_by_time path_requests in
      elim (last_time requests) [
        | none ↦ err index_error
        | some last ↦ elim (window_results interval requests last started) [
          | none ↦ err external
          | some (err e) ↦ err e
          | some (ok failures) ↦
              ok (finalize (failures ++ total_failures interval last started (length requests)))
        ]
      ]

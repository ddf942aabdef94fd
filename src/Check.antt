-- ===== src/Check.antt =====
-- check.py: the checks on the runner's own state, and the dispatch to all checks.
pub mod Results
use cactus_runner.Prelude.{
  ℕ, String, Bool, true, false, not, ◌&&◌, ◌||◌, List, [], ◌∷◌, ◌++◌, Option, none, some, str_eq,
  length, concat, elem, keep, ◌==◌, if◌then◌else◌,
}
use cactus_runner.Prelude.Int.{pos, leb_ℤ}
use cactus_runner.Prelude.Dict
use cactus_runner.Prelude.Dict.{Dict}
use cactus_runner.Prelude.Strings
use cactus_runner.Prelude.Strings.{join, contains}
use cactus_runner.Exec.{
  on_option, failed_check_error, unknown_check_error, type_error, Result, ok, err, pure, raise,
  lift, gets, try_except, ◌>>=◌,
}
use cactus_runner.Definitions.{text, Resolved, scalar, items, Check, of_int, is_none}
use cactus_runner.Models.{RequestEntry, Listener, ActiveTestProcedure, CheckResult}
use cactus_runner.Services.{Services}
use cactus_runner.SoftChecker.{pass, fail}
use cactus_runner.Polls.Endpoint.{check_all_polls_at_correct_time}
use cactus_runner.World.{Run, call, the_procedure}
use cactus_runner.ReadingChecks.Combined.{
  check_readings_site_active_power, check_readings_site_reactive_power, check_readings_voltage,
  check_readings_der_active_power, check_readings_der_reactive_power,
  check_readings_der_stored_energy,
}
use cactus_runner.MessageChecks.{
  check_all_notifications_transmitted, check_subscription_contents, check_response_contents,
}
use cactus_runner.DeviceChecks.{check_end_device_contents}
use cactus_runner.DeviceChecks.Status.{check_der_status_contents}
use cactus_runner.DerChecks.Contents.{check_der_settings_contents, check_der_capability_contents}
use cactus_runner.EnvoyCommon.{Query, get_all_sites}
use cactus_runner.Evaluator.{
  ResolvedParam, plain_values, resolve_variable_expressions_from_parameters,
}
use cactus_runner.Actions.Params.{as_int, parameter, names_step}

-- set(ignored_steps), asked for a step; a text is the set of its characters.
unfoldable pub ignores : Resolved → Result (String → Bool)
ignores (items names) = ok (names_step names)
ignores (scalar (text s)) = ok (λ step. Strings.length step == 1 && contains step s)
ignores (scalar _) = err type_error

-- The steps of the listeners that are left and not ignored.
unfoldable pub failing_active_steps : (String → Bool) → List Listener → List String
failing_active_steps ignored [] = []
failing_active_steps ignored (l ∷ ls) =
    let rest = failing_active_steps ignored ls in if ignored l.step then rest else l.step ∷ rest

unfoldable pub steps_result : List String → CheckResult
steps_result [] = pass
steps_result (step ∷ steps) =
    fail (concat "Steps " (concat (join ", " (step ∷ steps)) " have not been completed."))

unfoldable pub remaining_steps : (String → Bool) → List Listener → CheckResult
unfolding failing_active_steps steps_result
remaining_steps ignored listeners = steps_result (failing_active_steps ignored listeners)

unfoldable pub check_all_steps_complete : ActiveTestProcedure → Dict Resolved → Result CheckResult
check_all_steps_complete p params = elim p.listeners [
  | [] ↦ ok pass
  | l ∷ ls ↦ elim (ignores (Dict.get_or "ignored_steps" (items []) params)) [
    | ok ignored ↦ ok (remaining_steps ignored (l ∷ ls))
    | err e ↦ err e
  ]
]

module _ (S : Services) where
  -- `minimum_count is not None and total < minimum_count`, and the same for the maximum.
  unfoldable pub below_minimum : ℕ → Resolved → Run S Bool
  below_minimum total minimum =
      if is_none minimum
      then pure false
      else (do n ← lift (as_int minimum); pure (not (leb_ℤ n (pos total))))

  unfoldable pub above_maximum : ℕ → Resolved → Run S Bool
  above_maximum total maximum =
      if is_none maximum
      then pure false
      else (do n ← lift (as_int maximum); pure (not (leb_ℤ (pos total) n)))

  unfoldable pub check_end_device_count : Dict Resolved → Run S CheckResult
  check_end_device_count params = do
    sites ← get_all_sites S
    let total = length sites
    let minimum = parameter "minimum_count" params
    let maximum = parameter "maximum_count" params
    few ← below_minimum total minimum
    if few
        then pure (
            fail (
              concat "Expected at least " (
                concat (S.format minimum)
                  (concat " EndDevice(s) but only found " (S.format (of_int (pos total)))))))
        else (do
          many ← above_maximum total maximum
          pure (
              if many
              then fail (
                  concat "Expected at most " (
                    concat (S.format maximum)
                      (concat " EndDevice(s) but found " (S.format (of_int (pos total))))))
              else pass))

  -- The checks that query the database only; `none` is an unrecognised type.
  unfoldable pub check_query :
      String → ActiveTestProcedure → Dict ResolvedParam → Option (Query S CheckResult)
  check_query type p metadata =
      let params = plain_values metadata in
      if str_eq type "end-device-contents"
      then some (check_end_device_contents S p params)
      else if str_eq type "der-settings-contents"
      then some (check_der_settings_contents S metadata)
      else if str_eq type "der-capability-contents"
      then some (check_der_capability_contents S metadata)
      else if str_eq type "der-status-contents"
      then some (check_der_status_contents S params)
      else if str_eq type "readings-site-active-power"
      then some (check_readings_site_active_power S params p.pen)
      else if str_eq type "readings-site-reactive-power"
      then some (check_readings_site_reactive_power S params p.pen)
      else if str_eq type "readings-voltage"
      then some (check_readings_voltage S params p.pen)
      else if str_eq type "readings-der-active-power"
      then some (check_readings_der_active_power S params p.pen)
      else if str_eq type "readings-der-reactive-power"
      then some (check_readings_der_reactive_power S params p.pen)
      else if str_eq type "readings-der-stored-energy"
      then some (check_readings_der_stored_energy S params p.pen)
      else if str_eq type "all-notifications-transmitted"
      then some (check_all_notifications_transmitted S)
      else if str_eq type "subscription-contents"
      then some (check_subscription_contents S params p)
      else if str_eq type "response-contents"
      then some (check_response_contents S params p)
      else none

  -- The branch of a check.
  unfoldable pub perform_check :
      List RequestEntry → Check → Dict ResolvedParam → Run S (Option CheckResult)
  perform_check history check metadata =
      let params = plain_values metadata in
      if str_eq check.type "all-steps-complete"
      then (do
        p ← the_procedure S
        result ← lift (check_all_steps_complete p params)
        pure (some result))
      else if str_eq check.type "end-device-count"
      then (do result ← check_end_device_count params; pure (some result))
      else if str_eq check.type "all-polls-at-correct-time"
      then (do
        p ← the_procedure S
        result ← check_all_polls_at_correct_time S p history params
        pure (some result))
      else (do
        p ← the_procedure S
        on_option (check_query check.type p metadata) (pure none)
            (λ query. do result ← call S query; pure (some result)))

  unfoldable pub run_check : List RequestEntry → Check → Run S CheckResult
  run_check history check = do
    params ← resolve_variable_expressions_from_parameters S check.parameters
    result ← try_except (perform_check history check params) (λ _. raise failed_check_error)
    on_option result (raise unknown_check_error) (λ r. pure r)

  unfoldable pub first_failing : List RequestEntry → List Check → Run S (Option CheckResult)
  first_failing history [] = pure none
  first_failing history (check ∷ rest) = do
    result ← run_check history check
    let others = first_failing history rest
    if result.passed then others else pure (some result)

  unfoldable pub first_failing_check :
      List RequestEntry → Option (List Check) → Run S (Option CheckResult)
  unfolding first_failing
  first_failing_check history none = pure none
  first_failing_check history (some checks) = first_failing history checks

  unfoldable pub all_checks_passing : List RequestEntry → Option (List Check) → Run S Bool
  all_checks_passing history checks = do
    failing ← first_failing_check history checks
    pure (elim failing [ none ↦ true | some _ ↦ false ])

  unfoldable pub determine_results :
      List RequestEntry → Dict CheckResult → List Check → Run S (Dict CheckResult)
  determine_results history results [] = pure results
  determine_results history results (check ∷ rest) = do
    result ← run_check history check
    determine_results history (Dict.set check.type result results) rest

  unfoldable pub determine_check_results :
      List RequestEntry → Option (List Check) → Run S (Dict CheckResult)
  unfolding determine_results
  determine_check_results history none = pure []
  determine_check_results history (some checks) = determine_results history [] checks

-- ===== src/Frame/Actions.antt =====
-- The warnings, the end of a test, and the actions on the procedure.
use cactus_runner.Prelude.{String, List, [], ◌∷◌}
use cactus_runner.Prelude.Dict.{Dict}
use cactus_runner.Exec.{for_each}
use cactus_runner.Exec.Preserves.{
  Preserves, Preserves-bind, Preserves-pure, Preserves-gets, preserving_rules,
}
use cactus_runner.Definitions.{Time, Resolved}
use cactus_runner.Timeline.{Timeline}
use cactus_runner.Prelude.{Option}
use cactus_runner.Frame.Checks.{Preserves-determine_check_results}
use cactus_runner.Frame.Reading.{Preserves-get_active_runner_status}
use cactus_runner.Models.{Listener, RunnerState, RequestEntry, CheckResult}
use cactus_runner.Services.{Services}
use cactus_runner.Warning
use cactus_runner.Finalize
use cactus_runner.Finalize.{finish_active_test}
use cactus_runner.Actions.Steps
use cactus_runner.Actions.Routes
use cactus_runner.Frame.{OnRunner, Closed, Preserves-update_procedure, world_rules}

module _ (S : Services) (Q : RunnerState → Type 0) where
  pub Preserves-safely_write_error_zip :
      (errors : List String) → Preserves (OnRunner S Q) (Finalize.safely_write_error_zip S errors)
  unfolding Finalize.safely_write_error_zip
  Preserves-safely_write_error_zip errors = search (preserving_rules, world_rules)

module _ (S : Services) (Q : RunnerState → Type 0) (closed : Closed S Q) where
  warn : (t d m : String) → Preserves (OnRunner S Q) (Warning.warn S t d m)
  unfolding Warning.warn
  warn t d m =
      search (preserving_rules, world_rules, Preserves-update_procedure S Q, closed.warning) depth 7

  warn_if_varied :
      (l : List String) (t d m : String)
      → Preserves (OnRunner S Q) (Warning.warn_if_varied S l t d m)
  unfolding Warning.warn_if_varied
  warn_if_varied [] t d m = search preserving_rules
  warn_if_varied (_ ∷ _) t d m = warn t d m

  pub Preserves-analysers : Preserves (OnRunner S Q) (Warning.run_post_test_analysers S)
  unfolding Warning.run_post_test_analysers Warning.analyse_der_settings_varied
      Warning.analyse_reading_type_varied for_each
  Preserves-analysers = search (preserving_rules, world_rules, warn_if_varied)

  pub Preserves-status_summary :
      (history : List RequestEntry) → Preserves (OnRunner S Q) (Finalize.status_summary S history)
  unfolding Finalize.status_summary
  Preserves-status_summary history =
      search (preserving_rules, world_rules, Preserves-get_active_runner_status S Q closed) depth 9

  pub Preserves-criteria_results :
      (history : List RequestEntry) → Preserves (OnRunner S Q) (Finalize.criteria_results S history)
  unfolding Finalize.criteria_results
  Preserves-criteria_results history =
      search (preserving_rules, world_rules, Preserves-determine_check_results S Q closed) depth 9

  pub Preserves-test_timeline :
      (now : Time) → Preserves (OnRunner S Q) (Finalize.test_timeline S now)
  unfolding Finalize.test_timeline
  Preserves-test_timeline now = search (preserving_rules, world_rules) depth 9

  pub Preserves-reporting_data :
      (history : List RequestEntry) (checks : Dict CheckResult) (t : Option Timeline)
      → Preserves (OnRunner S Q) (Finalize.reporting_data S history checks t)
  unfolding Finalize.reporting_data Finalize.generate_json_reporting_data
  Preserves-reporting_data history checks t = search (preserving_rules, world_rules) depth 14

  pub Preserves-write_and_finish :
      (now : Time) → Preserves (OnRunner S Q) (Finalize.write_and_finish S now)
  unfolding Finalize.write_and_finish
  Preserves-write_and_finish now = Preserves-bind _ _ (Preserves-gets _) (λ history.
      Preserves-bind _ _ Preserves-analysers (λ _.
        Preserves-bind _ _ (Preserves-status_summary _) (λ shown.
          Preserves-bind _ _ (Preserves-criteria_results _) (λ determined.
            Preserves-bind _ _ (Preserves-test_timeline now) (λ t.
              Preserves-bind _ _ (Preserves-reporting_data _ _ _) (λ made.
                Preserves-bind _ _ (search world_rules) (λ path.
                  Preserves-bind _ _ (search world_rules) (λ p.
                    Preserves-bind _ _ (search world_rules) (λ _.
                      Preserves-bind _ _ (Preserves-update_procedure S Q _ (closed.finished path))
                        (λ _. Preserves-pure _))))))))))

  pub Preserves-finish_active_test : Preserves (OnRunner S Q) (finish_active_test S)
  unfolding finish_active_test
  Preserves-finish_active_test =
      search (preserving_rules, world_rules, Preserves-write_and_finish) depth 7

  enable_if_named :
      (steps : Resolved) (l : Listener) → Preserves (OnRunner S Q) (Steps.enable_if_named S steps l)
  unfolding Steps.enable_if_named
  enable_if_named steps l = search (preserving_rules, closed.enable)

  pub Preserves-enable_steps :
      (params : Dict Resolved) → Preserves (OnRunner S Q) (Steps.action_enable_steps S params)
  unfolding Steps.action_enable_steps
  Preserves-enable_steps params = search (preserving_rules, world_rules, enable_if_named)

  named_listeners :
      (steps : Resolved) (ls : List Listener)
      → Preserves (OnRunner S Q) (Steps.named_listeners S steps ls)
  unfolding Steps.named_listeners
  named_listeners steps [] = search preserving_rules
  named_listeners steps (l ∷ ls) =
      Preserves-bind _ _ (search preserving_rules)
        (λ b. search (preserving_rules, named_listeners steps ls))

  pub Preserves-remove_steps :
      (params : Dict Resolved) → Preserves (OnRunner S Q) (Steps.action_remove_steps S params)
  unfolding Steps.action_remove_steps
  Preserves-remove_steps params =
      search (preserving_rules, world_rules, named_listeners, closed.complete)

  pub Preserves-communications :
      (params : Dict Resolved)
      → Preserves (OnRunner S Q) (Steps.action_communications_status S params)
  unfolding Steps.action_communications_status
  Preserves-communications params =
      search (preserving_rules, Preserves-update_procedure S Q, closed.communications)

  pub Preserves-route :
      (params : Dict Resolved) → Preserves (OnRunner S Q) (Routes.action_add_proxy_route S params)
  unfolding Routes.action_add_proxy_route
  Preserves-route params =
      search (preserving_rules, Preserves-update_procedure S Q, closed.override) depth 7

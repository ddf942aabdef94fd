-- ===== src/Frame/Reading.antt =====
-- The status and the health of the runner.
use cactus_runner.Prelude.{ℕ, List, [], ◌∷◌, Option, none, some}
use cactus_runner.Prelude.Int.{ℤ}
use cactus_runner.Prelude.Dict.{Dict}
use cactus_runner.Exec.Preserves.{Preserves, Preserves-bind, Preserves-pure, preserving_rules}
use cactus_runner.Definitions.{Time, Check}
use cactus_runner.Models.{
  StepInfo, ActiveTestProcedure, ClientInteraction, RequestEntry, RunnerState,
}
use cactus_runner.Services.{Services}
use cactus_runner.Timeline.Trees.{IntervalTrees}
use cactus_runner.Resolvers
use cactus_runner.Status.Report.{DeviceMax}
use cactus_runner.Status.Summaries
use cactus_runner.Status.Active
use cactus_runner.Handler.Replies.{Config}
use cactus_runner.Handler.Reading
use cactus_runner.Frame.{OnRunner, Closed, world_rules}
use cactus_runner.Frame.Evaluator.{setting}
use cactus_runner.Frame.Checks.{Preserves-run_check}

module _ (S : Services) (Q : RunnerState → Type 0) where
  database : Preserves (OnRunner S Q) (Reading.is_db_healthy S)
  unfolding Reading.is_db_healthy
  database = search (preserving_rules, world_rules)

  admin : Preserves (OnRunner S Q) (Reading.is_admin_api_healthy S)
  unfolding Reading.is_admin_api_healthy
  admin = search (preserving_rules, world_rules)

  pub Preserves-health_handler : Preserves (OnRunner S Q) (Reading.health_handler S)
  unfolding Reading.health_handler
  Preserves-health_handler = search (preserving_rules, database, admin)

  statuses :
      (now : Time) (p : ActiveTestProcedure) (d : Dict StepInfo)
      → Preserves (OnRunner S Q) (Summaries.step_statuses S now p d)
  unfolding Summaries.step_statuses
  statuses now p [] = search preserving_rules
  statuses now p ((name, info) ∷ rest) =
      Preserves-bind _ _ (search preserving_rules)
        (λ entry. Preserves-bind _ _ (statuses now p rest) (λ others. Preserves-pure _))

  max_w : Preserves (OnRunner S Q) (Summaries.status_set_max_w S)
  unfolding Summaries.status_set_max_w Resolvers.resolve_named_variable_der_setting_max_w
  max_w = search (preserving_rules, setting S Q)

  limits : (w : Option ℤ) → Preserves (OnRunner S Q) (Summaries.device_max S w)
  unfolding Summaries.device_max
  limits w = search (preserving_rules, world_rules)

  timeline :
      (T : IntervalTrees) (now : Time) (crop : Option ℕ) (p : ActiveTestProcedure) (w : Option ℤ)
      (m : DeviceMax)
      → Preserves (OnRunner S Q) (Active.status_timeline S T now crop p w m)
  unfolding Active.status_timeline
  timeline T now crop p w m = search (preserving_rules, world_rules)

  history :
      (T : IntervalTrees) (crop : Option ℕ) (entries : List RequestEntry)
      → Preserves (OnRunner S Q) (Active.cropped_history S T crop entries)
  unfolding Active.cropped_history
  history T none entries = search preserving_rules
  history T (some crop) entries = search (preserving_rules, world_rules)

  idle : (i : ClientInteraction) → Preserves (OnRunner S Q) (Active.get_runner_status S i)
  unfolding Active.get_runner_status
  idle i = search (preserving_rules, world_rules)

module _ (S : Services) (Q : RunnerState → Type 0) (closed : Closed S Q) where
  entries :
      (history : List RequestEntry) (checks : List Check)
      → Preserves (OnRunner S Q) (Summaries.check_entries S history checks)
  unfolding Summaries.check_entries
  entries history [] = search preserving_rules
  entries history (check ∷ checks) =
      Preserves-bind _ _ (search (preserving_rules, Preserves-run_check S Q closed))
        (λ entry. Preserves-bind _ _ (entries history checks) (λ others. Preserves-pure _))

  criteria :
      (history : List RequestEntry) (p : ActiveTestProcedure)
      → Preserves (OnRunner S Q) (Summaries.get_criteria_summary S history p)
  unfolding Summaries.get_criteria_summary
  criteria history p = search (preserving_rules, entries)

  preconditions :
      (history : List RequestEntry) (p : ActiveTestProcedure)
      → Preserves (OnRunner S Q) (Summaries.get_precondition_checks_summary S history p)
  unfolding Summaries.get_precondition_checks_summary
  preconditions history p = search (preserving_rules, entries)

  pub Preserves-get_active_runner_status :
      (T : IntervalTrees) (p : ActiveTestProcedure) (requests : List RequestEntry)
      (i : ClientInteraction) (crop : Option ℕ)
      → Preserves (OnRunner S Q) (Active.get_active_runner_status S T p requests i crop)
  unfolding Active.get_active_runner_status
  Preserves-get_active_runner_status T p requests i crop =
      Preserves-bind _ _ (search world_rules) (λ now.
        Preserves-bind _ _ (statuses S Q now p _) (λ steps. Preserves-bind _ _ (max_w S Q) (λ w.
          Preserves-bind _ _ (limits S Q w) (λ m.
            Preserves-bind _ _ (timeline S Q T now crop p w m) (λ shown.
              Preserves-bind _ _ (search world_rules) (λ metadata.
                Preserves-bind _ _ (history S Q T crop requests) (λ recent.
                  Preserves-bind _ _ (search world_rules) (λ timestamp.
                    Preserves-bind _ _ (search world_rules) (λ log.
                      Preserves-bind _ _ (criteria [] p) (λ c.
                        Preserves-bind _ _ (preconditions [] p)
                          (λ c'. search preserving_rules)))))))))))

  pub Preserves-status_handler :
      (config : Config) → Preserves (OnRunner S Q) (Reading.status_handler S config)
  unfolding Reading.status_handler
  Preserves-status_handler config =
      search (preserving_rules, idle S Q, Preserves-get_active_runner_status) depth 9

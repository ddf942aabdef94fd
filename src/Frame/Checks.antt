-- ===== src/Frame/Checks.antt =====
-- The checks.
use cactus_runner.Prelude.{ℕ, List, [], ◌∷◌, Option, none, some}
use cactus_runner.Prelude.Dict.{Dict}
use cactus_runner.Exec.Preserves.{
  Preserves, Preserves-bind, Preserves-if, Preserves-pure, preserving_rules,
}
use cactus_runner.Definitions.{Resolved, Check}
use cactus_runner.Models.{ActiveTestProcedure, RequestEntry, RunnerState, CheckResult}
use cactus_runner.Services.{Services}
use cactus_runner.Check
use cactus_runner.Polls.Endpoint
use cactus_runner.Evaluator.{ResolvedParam}
use cactus_runner.Frame.{OnRunner, Closed, world_rules}
use cactus_runner.Frame.Evaluator.{Preserves-resolve_parameters}
use cactus_runner.Frame.Server.{Preserves-get_all_sites}

module _ (S : Services) (Q : RunnerState → Type 0) where
  few : (total : ℕ) (v : Resolved) → Preserves (OnRunner S Q) (Check.below_minimum S total v)
  unfolding Check.below_minimum
  few total v = search preserving_rules

  many : (total : ℕ) (v : Resolved) → Preserves (OnRunner S Q) (Check.above_maximum S total v)
  unfolding Check.above_maximum
  many total v = search preserving_rules

  count :
      (params : Dict Resolved) → Preserves (OnRunner S Q) (Check.check_end_device_count S params)
  unfolding Check.check_end_device_count
  count params = Preserves-bind _ _ (Preserves-get_all_sites S Q) (λ sites.
      Preserves-bind _ _ (few _ _) (λ b.
        Preserves-if b _ _ (Preserves-pure _)
          (Preserves-bind _ _ (many _ _) (λ c. Preserves-pure _))))

  polls :
      (p : ActiveTestProcedure) (history : List RequestEntry) (params : Dict Resolved)
      → Preserves (OnRunner S Q) (Endpoint.check_all_polls_at_correct_time S p history params)
  unfolding Endpoint.check_all_polls_at_correct_time
  polls p history params = search preserving_rules depth 9

  perform_check :
      (history : List RequestEntry) (check : Check) (params : Dict ResolvedParam)
      → Preserves (OnRunner S Q) (Check.perform_check S history check params)
  unfolding Check.perform_check
  perform_check history check params = search (preserving_rules, world_rules, count, polls) depth 9

module _ (S : Services) (Q : RunnerState → Type 0) (closed : Closed S Q) where
  pub Preserves-run_check :
      (history : List RequestEntry) (check : Check)
      → Preserves (OnRunner S Q) (Check.run_check S history check)
  unfolding Check.run_check
  Preserves-run_check history check =
      search (preserving_rules, Preserves-resolve_parameters S Q closed, perform_check S Q) depth 7

  failing :
      (history : List RequestEntry) (checks : List Check)
      → Preserves (OnRunner S Q) (Check.first_failing S history checks)
  unfolding Check.first_failing
  failing history [] = search preserving_rules
  failing history (check ∷ checks) =
      Preserves-bind _ _ (Preserves-run_check history check)
        (λ r. Preserves-if _ _ _ (failing history checks) (Preserves-pure _))

  pub Preserves-first_failing_check :
      (history : List RequestEntry) (checks : Option (List Check))
      → Preserves (OnRunner S Q) (Check.first_failing_check S history checks)
  unfolding Check.first_failing_check
  Preserves-first_failing_check history none = search preserving_rules
  Preserves-first_failing_check history (some checks) = failing history checks

  pub Preserves-all_checks_passing :
      (history : List RequestEntry) (checks : Option (List Check))
      → Preserves (OnRunner S Q) (Check.all_checks_passing S history checks)
  unfolding Check.all_checks_passing
  Preserves-all_checks_passing history checks =
      search (preserving_rules, Preserves-first_failing_check)

  determined :
      (history : List RequestEntry) (checks : List Check) (results : Dict CheckResult)
      → Preserves (OnRunner S Q) (Check.determine_results S history results checks)
  unfolding Check.determine_results
  determined history [] results = search preserving_rules
  determined history (check ∷ checks) results =
      Preserves-bind _ _ (Preserves-run_check history check) (λ result. determined history checks _)

  pub Preserves-determine_check_results :
      (history : List RequestEntry) (checks : Option (List Check))
      → Preserves (OnRunner S Q) (Check.determine_check_results S history checks)
  unfolding Check.determine_check_results
  Preserves-determine_check_results history none = search preserving_rules
  Preserves-determine_check_results history (some checks) = determined history checks []

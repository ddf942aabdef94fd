-- ===== src/Frame/Apply.antt =====
-- apply_action and apply_actions.
use cactus_runner.Prelude.Dict.{Dict}
use cactus_runner.Exec.{Exception, failed_action_error, unknown_action_error}
use cactus_runner.Exec.Preserves.{Preserves, preserving_rules}
use cactus_runner.Definitions.{Resolved, Action}
use cactus_runner.Models.{Listener, RunnerState}
use cactus_runner.Services.{Services}
use cactus_runner.Action
use cactus_runner.Action.{
  ActionType, enable_steps, remove_steps, finish_test, set_default_der_control, create_der_control,
  create_der_program, cancel_active_der_controls, set_comms_rate, register_end_device,
  communications_status, edev_registration_links, remove_function_set_assignment, add_proxy_route,
  unrecognised, perform, apply_resolved, apply_action, ignore_action_error, apply_actions,
}
use cactus_runner.Frame.{OnRunner, Closed}
use cactus_runner.Frame.Evaluator.{Preserves-resolve_parameters}
use cactus_runner.Frame.Actions.{
  Preserves-finish_active_test, Preserves-enable_steps, Preserves-remove_steps,
  Preserves-communications, Preserves-route,
}
use cactus_runner.Frame.Server.{
  Preserves-set_default_der_control, Preserves-cancel_active_controls, Preserves-set_comms_rate,
  Preserves-remove_function_set_assignment, Preserves-edev_registration_links,
  Preserves-register_end_device,
}
use cactus_runner.Frame.Tags.{Preserves-create_der_program, Preserves-create_der_control}

module _ (S : Services) (Q : RunnerState → Type 0) (closed : Closed S Q) where
  finish : Preserves (OnRunner S Q) (Action.action_finish_test S)
  unfolding Action.action_finish_test
  finish = search (preserving_rules, Preserves-finish_active_test S Q closed)

  branch : (t : ActionType) (params : Dict Resolved) → Preserves (OnRunner S Q) (perform S t params)
  unfolding perform
  branch enable_steps params = search (preserving_rules, Preserves-enable_steps S Q closed)
  branch remove_steps params = search (preserving_rules, Preserves-remove_steps S Q closed)
  branch finish_test params = search (preserving_rules, finish)
  branch set_default_der_control params =
      search (preserving_rules, Preserves-set_default_der_control S Q)
  branch create_der_control params =
      search (preserving_rules, Preserves-create_der_control S Q closed)
  branch create_der_program params =
      search (preserving_rules, Preserves-create_der_program S Q closed)
  branch cancel_active_der_controls params =
      search (preserving_rules, Preserves-cancel_active_controls S Q)
  branch set_comms_rate params = search (preserving_rules, Preserves-set_comms_rate S Q)
  branch register_end_device params = search (preserving_rules, Preserves-register_end_device S Q)
  branch communications_status params =
      search (preserving_rules, Preserves-communications S Q closed)
  branch edev_registration_links params =
      search (preserving_rules, Preserves-edev_registration_links S Q)
  branch remove_function_set_assignment params =
      search (preserving_rules, Preserves-remove_function_set_assignment S Q)
  branch add_proxy_route params = search (preserving_rules, Preserves-route S Q closed)
  branch unrecognised params = search preserving_rules

  resolved : (a : Action) → Preserves (OnRunner S Q) (apply_resolved S a)
  unfolding apply_resolved
  resolved a = search (preserving_rules, Preserves-resolve_parameters S Q closed, branch) depth 7

  pub Preserves-apply_action : (a : Action) → Preserves (OnRunner S Q) (apply_action S a)
  unfolding apply_action
  Preserves-apply_action a = search (preserving_rules, resolved)

  ignored : (e : Exception) → Preserves (OnRunner S Q) (ignore_action_error S e)
  unfolding ignore_action_error
  ignored unknown_action_error = search preserving_rules
  ignored failed_action_error = search preserving_rules
  ignored _ = search preserving_rules

  pub Preserves-apply_actions : (l : Listener) → Preserves (OnRunner S Q) (apply_actions S l)
  unfolding apply_actions
  Preserves-apply_actions l = search (preserving_rules, Preserves-apply_action, ignored)

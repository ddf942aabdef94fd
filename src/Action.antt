-- ===== src/Action.antt =====
-- action.py: `apply_action`, which runs one action of a test definition, and `apply_actions`.
pub mod Sequence
use cactus_runner.Prelude.{String, Bool, true, false, none, some, str_eq, if◌then◌else◌}
use cactus_runner.Prelude.Dict.{Dict}
use cactus_runner.Exec.{
  on_option, Exception, unknown_action_error, failed_action_error, pure, raise, gets, try_except,
  for_each, ◌>>=◌, ◌>>◌,
}
use cactus_runner.Definitions.{Action, Resolved}
use cactus_runner.Models.{Listener}
use cactus_runner.Services.{Services}
use cactus_runner.World.{World, Run}
use cactus_runner.Evaluator.{plain_values, resolve_variable_expressions_from_parameters}
use cactus_runner.Finalize.{finish_active_test}
use cactus_runner.Actions.Steps.{
  action_enable_steps, action_remove_steps, action_communications_status,
}
use cactus_runner.Actions.Routes.{action_add_proxy_route}
use cactus_runner.Actions.Programs.{
  action_set_default_der_control, action_create_der_program, action_cancel_active_controls,
  action_remove_function_set_assignment,
}
use cactus_runner.Actions.Controls.{action_create_der_control}
use cactus_runner.Actions.Server.{action_set_comms_rate, action_edev_registration_links}
use cactus_runner.Actions.Devices.{action_register_end_device}

pub data ActionType : Type 0 where
  enable_steps remove_steps finish_test set_default_der_control create_der_control : ActionType
  create_der_program cancel_active_der_controls set_comms_rate register_end_device : ActionType
  communications_status edev_registration_links remove_function_set_assignment : ActionType
  add_proxy_route unrecognised : ActionType

-- The names of the `match` on `action.type`, in its order.
unfoldable pub action_type : String → ActionType
action_type t =
    if str_eq t "enable-steps"
    then enable_steps
    else if str_eq t "remove-steps"
    then remove_steps
    else if str_eq t "finish-test"
    then finish_test
    else if str_eq t "set-default-der-control"
    then set_default_der_control
    else if str_eq t "create-der-control"
    then create_der_control
    else if str_eq t "create-der-program"
    then create_der_program
    else if str_eq t "cancel-active-der-controls"
    then cancel_active_der_controls
    else if str_eq t "set-comms-rate"
    then set_comms_rate
    else if str_eq t "register-end-device"
    then register_end_device
    else if str_eq t "communications-status"
    then communications_status
    else if str_eq t "edev-registration-links"
    then edev_registration_links
    else if str_eq t "remove-function-set-assignment"
    then remove_function_set_assignment
    else if str_eq t "add-proxy-route"
    then add_proxy_route
    else unrecognised

module _ (S : Services) where
  unfoldable pub action_finish_test : Run S (Unit {0})
  action_finish_test = do finish_active_test S; pure tt

  -- The branch of an action; the result tells whether there is one.
  unfoldable pub perform : ActionType → Dict Resolved → Run S Bool
  perform enable_steps params = do action_enable_steps S params; pure true
  perform remove_steps params = do action_remove_steps S params; pure true
  perform finish_test params = do action_finish_test; pure true
  perform set_default_der_control params = do action_set_default_der_control S params; pure true
  perform create_der_control params = do action_create_der_control S params; pure true
  perform create_der_program params = do action_create_der_program S params; pure true
  perform cancel_active_der_controls params = do action_cancel_active_controls S; pure true
  perform set_comms_rate params = do action_set_comms_rate S params; pure true
  perform register_end_device params = do action_register_end_device S params; pure true
  perform communications_status params = do action_communications_status S params; pure true
  perform edev_registration_links params = do action_edev_registration_links S params; pure true
  perform remove_function_set_assignment params = do
    action_remove_function_set_assignment S params
    pure true
  perform add_proxy_route params = do action_add_proxy_route S params; pure true
  perform unrecognised params = pure false

  -- What runs while there is an active test procedure.
  unfoldable pub apply_resolved : Action → Run S (Unit {0})
  apply_resolved action = do
    params ← resolve_variable_expressions_from_parameters S action.parameters
    known ←
        try_except (perform (action_type action.type) (plain_values params))
          (λ _. raise failed_action_error)
    if known then pure tt else raise unknown_action_error

  unfoldable pub apply_action : Action → Run S (Unit {0})
  apply_action action = do
    active ← gets (λ (w : World S). w.runner.active_test_procedure)
    on_option active (pure tt) (λ p. apply_resolved action)

  -- The `except` clause of `apply_actions`.
  unfoldable pub ignore_action_error : Exception → Run S (Unit {0})
  ignore_action_error unknown_action_error = pure tt
  ignore_action_error failed_action_error = pure tt
  ignore_action_error e = raise e

  unfoldable pub apply_actions : Listener → Run S (Unit {0})
  apply_actions listener =
      for_each (λ action. try_except (apply_action action) ignore_action_error) listener.actions

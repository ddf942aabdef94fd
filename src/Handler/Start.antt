-- ===== src/Handler/Start.antt =====
-- `attempt_apply_actions`, `attempt_start_for_state` and `start_handler`.
use cactus_runner.Prelude.{String, true, false, List, [], ◌∷◌, ◌++◌, Option, none, some, concat}
use cactus_runner.Exec.{on_option, index_error, pure, raise, gets, for_each, ◌>>=◌, ◌>>◌}
use cactus_runner.Definitions.{Time, text, items, Action, Preconditions}
use cactus_runner.Models.{
  ActiveTestProcedure, Listener, RunnerState, ClientInteractionType, test_procedure_start,
  CheckResult,
}
use cactus_runner.Services.{Services, commit}
use cactus_runner.World.{World, Run, send, time_now, the_procedure, update_procedure, update_runner}
use cactus_runner.Action.{apply_action}
use cactus_runner.Actions.Steps.{action_enable_steps}
use cactus_runner.Check.{first_failing_check}
use cactus_runner.Handler.Replies.{Body, plain, start_response, Reply, reply, StartResult}

unfoldable pub add_interaction : ClientInteractionType → Time → RunnerState → RunnerState
add_interaction type now r = record r {
  client_interactions =
      r.client_interactions ++ record { interaction_type = type; timestamp = now } ∷ [];
}

unfoldable pub set_started : Time → ActiveTestProcedure → ActiveTestProcedure
set_started now p = record p { started_at = some now }

abbrev pub conflict : Body → StartResult
conflict message = record { success = false; status = 409; content = message }

abbrev pub precondition_failed : Option String → StartResult
precondition_failed description = record {
  success = false;
  status = 412;
  content = plain (
      concat "Unable to start test procedure, pre condition check has failed: "
        (elim description [ none ↦ "None" | some d ↦ d ]));
}

module _ (S : Services) where
  unfoldable pub attempt_apply_actions : Option (List Action) → Run S (Unit {0})
  attempt_apply_actions none = pure tt
  attempt_apply_actions (some []) = pure tt
  attempt_apply_actions (some (a ∷ actions)) = do
    for_each (apply_action S) (a ∷ actions)
    send S commit

  -- The check of the preconditions that fails, if one does.
  unfoldable pub failing_precondition : Option Preconditions → Run S (Option CheckResult)
  failing_precondition none = pure none
  failing_precondition (some preconditions) = first_failing_check S [] preconditions.checks

  unfoldable pub precondition_actions : Option Preconditions → Run S (Unit {0})
  precondition_actions none = pure tt
  precondition_actions (some preconditions) = attempt_apply_actions preconditions.actions

  -- listeners[0]
  unfoldable pub first_listener : List Listener → Run S Listener
  first_listener [] = raise index_error
  first_listener (l ∷ _) = pure l

  unfoldable pub enable_first_listener : Run S (Unit {0})
  enable_first_listener = do
    p ← the_procedure S
    l ← first_listener p.listeners
    action_enable_steps S (("steps", items (text l.step ∷ [])) ∷ [])

  -- The transition itself, once nothing stands against it.
  unfoldable pub begin_procedure : ActiveTestProcedure → Run S StartResult
  begin_procedure p = do
    now ← time_now S
    update_runner S (add_interaction test_procedure_start now)
    update_procedure S (set_started now)
    precondition_actions p.definition.preconditions
    enable_first_listener
    finished ← time_now S
    pure (record { success = true; status = 200; content = start_response p.name finished })

  unfoldable pub start_unless_started : ActiveTestProcedure → Run S StartResult
  start_unless_started p = on_option p.started_at (begin_procedure p) (λ t. pure (
      conflict (
        plain (
          concat "Test Procedure (" (
            concat p.name
              ") already in progress. Starting another test procedure is not permitted.")))))

  unfoldable pub start_procedure : ActiveTestProcedure → Run S StartResult
  start_procedure p = do
    failing ← failing_precondition p.definition.preconditions
    on_option failing (start_unless_started p)
        (λ result. pure (precondition_failed result.description))

  unfoldable pub attempt_start_for_state : Run S StartResult
  attempt_start_for_state = do
    active ← gets (λ (w : World S). w.runner.active_test_procedure)
    on_option active
        (pure (
          conflict (
            plain
              "Unable to start non-existent test procedure. Try initialising a test procedure before continuing.")))
        start_procedure

  unfoldable pub start_handler : Run S Reply
  start_handler = do result ← attempt_start_for_state; pure (reply result.status result.content)

-- ===== src/Actions/Steps.antt =====
-- enable-steps, remove-steps and communications-status: the listeners of the procedure.
use cactus_runner.Prelude.{String, Bool, not, List, [], ◌∷◌, some, str_eq, if◌then◌else◌}
use cactus_runner.Prelude.Dict
use cactus_runner.Prelude.Dict.{Dict}
use cactus_runner.Exec.{key_error, pure, lift, for_each, ◌>>=◌, ◌>>◌}
use cactus_runner.Definitions.{Time, Resolved, is_truthy}
use cactus_runner.Models.{Listener, StepInfo, ActiveTestProcedure}
use cactus_runner.Services.{Services}
use cactus_runner.World.{Run, optional, time_now, the_procedure, update_procedure}
use cactus_runner.Actions.Params.{mandatory, step_in}

unfoldable pub set_enabled : String → Time → ActiveTestProcedure → ActiveTestProcedure
set_enabled step now p = record p { enabled_times = Dict.set step now p.enabled_times }

-- list.remove(listener): the first entry that is this listener.
unfoldable pub without_listener : String → List Listener → List Listener
without_listener step [] = []
without_listener step (l ∷ ls) = if str_eq l.step step then ls else l ∷ without_listener step ls

unfoldable pub remove_listener : String → ActiveTestProcedure → ActiveTestProcedure
remove_listener step p = record p { listeners = without_listener step p.listeners }

unfoldable pub set_step : String → StepInfo → ActiveTestProcedure → ActiveTestProcedure
set_step step info p = record p { step_status = Dict.set step info p.step_status }

unfoldable pub set_communications : Bool → ActiveTestProcedure → ActiveTestProcedure
set_communications enabled p = record p { communications_disabled = not enabled }

module _ (S : Services) where
  -- A write to a field of `active_test_procedure.step_status[step]`.
  unfoldable pub update_step : String → (StepInfo → StepInfo) → Run S (Unit {0})
  update_step step f = do
    p ← the_procedure S
    info ← lift (optional key_error (Dict.get step p.step_status))
    update_procedure S (set_step step (f info))

  unfoldable pub enable_listener : Listener → Run S (Unit {0})
  enable_listener l = do
    now ← time_now S
    update_procedure S (set_enabled l.step now)
    update_step l.step (λ i. record i { started_at = some now })

  unfoldable pub enable_if_named : Resolved → Listener → Run S (Unit {0})
  enable_if_named steps l = do
    named ← lift (step_in steps l.step)
    if named then enable_listener l else pure tt

  unfoldable pub action_enable_steps : Dict Resolved → Run S (Unit {0})
  action_enable_steps params = do
    steps ← lift (mandatory "steps" params)
    p ← the_procedure S
    for_each (enable_if_named steps) p.listeners

  -- The loop that collects the listeners to remove.
  unfoldable pub named_listeners : Resolved → List Listener → Run S (List Listener)
  named_listeners steps [] = pure []
  named_listeners steps (l ∷ ls) = do
    named ← lift (step_in steps l.step)
    rest ← named_listeners steps ls
    pure (if named then l ∷ rest else rest)

  unfoldable pub complete_listener : Listener → Run S (Unit {0})
  complete_listener l = do
    update_procedure S (remove_listener l.step)
    now ← time_now S
    update_step l.step (λ i. record i { completed_at = some now })

  unfoldable pub action_remove_steps : Dict Resolved → Run S (Unit {0})
  action_remove_steps params = do
    steps ← lift (mandatory "steps" params)
    p ← the_procedure S
    removed ← named_listeners steps p.listeners
    for_each complete_listener removed

  unfoldable pub action_communications_status : Dict Resolved → Run S (Unit {0})
  action_communications_status params = do
    enabled ← lift (mandatory "enabled" params)
    update_procedure S (set_communications (is_truthy enabled))

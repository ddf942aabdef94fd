-- ===== src/Frame/Starting.antt =====
-- Starting, finalizing and proceeding.
use cactus_runner.Prelude.{ℕ, List, [], ◌∷◌, Option, none, some, false, ◌≡◌, refl}
use cactus_runner.Exec.Preserves.{
  Preserves, Preserves-bind, Preserves-gets, Preserves-pure, Preserves-on_option,
  Preserves-try_except, preserving_rules,
}
use cactus_runner.Definitions.{Time, Action, Preconditions}
use cactus_runner.Models.{
  Listener, ActiveTestProcedure, ClientInteractionType, RequestEntry, RunnerState,
}
use cactus_runner.Services.{Services}
use cactus_runner.Handler.Start
use cactus_runner.Handler.Start.{add_interaction, set_started}
use cactus_runner.Handler.Initialise.{activate}
use cactus_runner.Handler.Proxied.{is_proxied, touch_interaction, record_request}
use cactus_runner.Handler.Control
use cactus_runner.Handler.Control.{clear_runner}
use cactus_runner.Event.{generate_proceed_trigger, generate_time_trigger}
use cactus_runner.Main
use cactus_runner.Frame.{
  OnRunner, Closed, ClosedUnder, Preserves-update_procedure, Preserves-update_runner, world_rules,
}
use cactus_runner.Frame.Prepared.{IsPrepared}
use cactus_runner.Frame.Actions.{
  Preserves-finish_active_test, Preserves-safely_write_error_zip, Preserves-enable_steps,
}
use cactus_runner.Frame.Apply.{Preserves-apply_action}
use cactus_runner.Frame.Checks.{Preserves-first_failing_check}
use cactus_runner.Frame.Engine.{Preserves-handle_event_trigger}

-- The writes of the handlers, beside those of the engine.
pub record ClosedRequests (S : Services) (Q : RunnerState → Type 0) : Type 0 where
  pub engine : Closed S Q
  pub started : (now : Time) → ClosedUnder S Q (set_started now)
  pub interaction :
      (type : ClientInteractionType)
      → is_proxied type ≡ false
      → (now : Time) (r : RunnerState) → Q r
      → Q (add_interaction type now r)
  pub touched : (now : Time) (r : RunnerState) → Q r → Q (touch_interaction now r)
  pub recorded :
      (entry : ℕ → RequestEntry)
      → ((n : ℕ) → (entry n).request_id ≡ n)
      → (r : RunnerState) → Q r
      → Q (record_request entry r)
  pub activated :
      (p : ActiveTestProcedure) → IsPrepared S p → (r : RunnerState) → Q r → Q (activate p r)
  pub cleared : (r : RunnerState) → Q r → Q (clear_runner r)

module _ (S : Services) (Q : RunnerState → Type 0) (closed : ClosedRequests S Q) where
  pub Preserves-attempt_apply_actions :
      (actions : Option (List Action))
      → Preserves (OnRunner S Q) (Start.attempt_apply_actions S actions)
  unfolding Start.attempt_apply_actions
  Preserves-attempt_apply_actions none = search preserving_rules
  Preserves-attempt_apply_actions (some []) = search preserving_rules
  Preserves-attempt_apply_actions (some (a ∷ actions)) =
      search (preserving_rules, world_rules, Preserves-apply_action S Q closed.engine)

  failing :
      (preconditions : Option Preconditions)
      → Preserves (OnRunner S Q) (Start.failing_precondition S preconditions)
  unfolding Start.failing_precondition
  failing none = search preserving_rules
  failing (some preconditions) =
      Preserves-first_failing_check S Q closed.engine [] preconditions.checks

  actions :
      (preconditions : Option Preconditions)
      → Preserves (OnRunner S Q) (Start.precondition_actions S preconditions)
  unfolding Start.precondition_actions
  actions none = search preserving_rules
  actions (some preconditions) = Preserves-attempt_apply_actions preconditions.actions

  first : (ls : List Listener) → Preserves (OnRunner S Q) (Start.first_listener S ls)
  unfolding Start.first_listener
  first [] = search preserving_rules
  first (l ∷ ls) = search preserving_rules

  enable : Preserves (OnRunner S Q) (Start.enable_first_listener S)
  unfolding Start.enable_first_listener
  enable = search (preserving_rules, world_rules, first, Preserves-enable_steps S Q closed.engine)

  begin : (p : ActiveTestProcedure) → Preserves (OnRunner S Q) (Start.begin_procedure S p)
  unfolding Start.begin_procedure
  begin p = Preserves-bind _ _ (search world_rules) (λ now.
      Preserves-bind _ _ (Preserves-update_runner S Q _ (closed.interaction _ refl now)) (λ _.
        Preserves-bind _ _ (Preserves-update_procedure S Q _ (closed.started now)) (λ _.
          Preserves-bind _ _ (actions _) (λ _. search (preserving_rules, world_rules, enable)))))

  unless_started :
      (p : ActiveTestProcedure) → Preserves (OnRunner S Q) (Start.start_unless_started S p)
  unfolding Start.start_unless_started
  unless_started p = search (preserving_rules, begin)

  start : (p : ActiveTestProcedure) → Preserves (OnRunner S Q) (Start.start_procedure S p)
  unfolding Start.start_procedure
  start p = search (preserving_rules, failing, unless_started)

  pub Preserves-attempt_start_for_state : Preserves (OnRunner S Q) (Start.attempt_start_for_state S)
  unfolding Start.attempt_start_for_state
  Preserves-attempt_start_for_state = search (preserving_rules, start)

  pub Preserves-start_handler : Preserves (OnRunner S Q) (Start.start_handler S)
  unfolding Start.start_handler
  Preserves-start_handler = search (preserving_rules, Preserves-attempt_start_for_state)

  pub Preserves-finalize_handler : Preserves (OnRunner S Q) (Control.finalize_handler S)
  unfolding Control.finalize_handler
  Preserves-finalize_handler = Preserves-bind _ _ (Preserves-gets _) (λ active.
      Preserves-on_option active _ _ (Preserves-pure _) (λ p.
        Preserves-bind _ _
          (Preserves-try_except _ _ (Preserves-finish_active_test S Q closed.engine)
            (λ e. Preserves-safely_write_error_zip S Q _))
          (λ path.
            Preserves-bind _ _ (Preserves-update_runner S Q _ closed.cleared)
              (λ _. search (preserving_rules, world_rules)))))

  proceed_trigger : Preserves (OnRunner S Q) (generate_proceed_trigger S)
  unfolding generate_proceed_trigger
  proceed_trigger = search (preserving_rules, world_rules)

  proceed : Preserves (OnRunner S Q) (Control.proceed_unfinished S)
  unfolding Control.proceed_unfinished
  proceed =
      search
        (
          preserving_rules,
          world_rules,
          proceed_trigger,
          Preserves-handle_event_trigger S Q closed.engine,
        )
        depth 7

  pub Preserves-proceed_handler : Preserves (OnRunner S Q) (Control.proceed_handler S)
  unfolding Control.proceed_handler
  Preserves-proceed_handler = search (preserving_rules, proceed)

  time_trigger : Preserves (OnRunner S Q) (generate_time_trigger S)
  unfolding generate_time_trigger
  time_trigger = search (preserving_rules, world_rules)

  tick : Preserves (OnRunner S Q) (Main.tick_active S)
  unfolding Main.tick_active
  tick =
      search
        (
          preserving_rules,
          world_rules,
          time_trigger,
          Preserves-handle_event_trigger S Q closed.engine,
        )
        depth 7

  pub Preserves-periodic_round : Preserves (OnRunner S Q) (Main.periodic_round S)
  unfolding Main.periodic_round
  Preserves-periodic_round = search (preserving_rules, tick) depth 7

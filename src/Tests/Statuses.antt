-- ===== src/Tests/Statuses.antt =====
-- Runs in which steps are completed, and their status.
use cactus_runner.Prelude.{
  String, Bool, true, false, List, [], ◌∷◌, Option, none, some, ◌≡◌, ◌↔◌, refl, sym, subst, arith,
}
use cactus_runner.Prelude.Dict
use cactus_runner.Exec.{Result, ok, err, type_error}
use cactus_runner.Definitions.{
  single, variable, named_variable, NamedVariableType, TestProcedure, Check,
}
use cactus_runner.Models.{ActiveTestProcedure}
use cactus_runner.World.{World}
use cactus_runner.SoftChecker.{pass}
use cactus_runner.Check.{ignores, check_all_steps_complete}
use cactus_runner.Actions.Params.{names_step}
use cactus_runner.Status.{get_current_instructions, get_event_status, unless_empty}
use cactus_runner.Status.Instructions.{active_instructions, Reachable-instructions}
use cactus_runner.Status.Summaries.{check_entries}
use cactus_runner.Status.Answers.{NamesChecks, check_entries-NamesChecks}
use cactus_runner.Handler.Replies.{parsed}
use cactus_runner.Handler.Reading.{status_handler}
use cactus_runner.Main.{initialise, start, proceed, respond, initial, Reachable, started, step}
use cactus_runner.Main.Statuses.{AllTimed, RepliesWith, Reachable-status_handler}
use cactus_runner.Main.Tracking.{WhenActive, HasNamedSteps, IsTrackedRun, Reachable-IsTracked}
use cactus_runner.Main.Tracking.Listeners.{IsDict}
use cactus_runner.Main.Tracking.Completion.{AllResolved, Reachable-AllResolved}
use cactus_runner.Tests.Samples.{services, config, run_request, definition, fresh, procedure}

named_steps : HasNamedSteps services
unfolding Dict.get
named_steps yaml d e =
    let same : definition ≡ d = cc in
    subst (λ (x : TestProcedure). IsDict x.steps) same (refl, (refl, tt))

abbrev checks : List Check
checks =
    record { type = "all-steps-complete"; parameters = [] }
    ∷ record { type = "unknown"; parameters = [] }
    ∷ []

abbrev initialised : World services
initialised =
    (respond services config (initialise (parsed run_request)) (initial services config 0 5)).1

initialised-Reachable : Reachable services config initialised
initialised-Reachable = step (initialise (parsed run_request)) (started 0 5)

-- The first step waits for a request.
abbrev running : World services
running = (respond services config start initialised).1

abbrev prepared : ActiveTestProcedure
prepared = record procedure { initialised_at = 6000000 }

running-Reachable : Reachable services config running
running-Reachable = step start initialised-Reachable

Reachable-IsTracked_example : IsTrackedRun running.runner
Reachable-IsTracked_example =
    Reachable-IsTracked services named_steps config running running-Reachable

check_entries-NamesChecks_example : NamesChecks checks (check_entries services [] checks fresh).0
check_entries-NamesChecks_example = check_entries-NamesChecks services [] checks fresh

initialised-active : initialised.runner.active_test_procedure ≡ some prepared
unfolding respond cactus_runner.Exec.◌>>=◌ cactus_runner.Main.with_middleware
    cactus_runner.Handler.Initialise.initialise_handler initial cactus_runner.Main.initial_runner
    cactus_runner.Handler.Initialise.initialise_parsed cactus_runner.World.time_now
    cactus_runner.World.update_runner cactus_runner.Precondition.reset_db cactus_runner.World.send
    cactus_runner.Handler.Initialise.certificate_lfdi
    cactus_runner.Handler.Initialise.choose_certificate cactus_runner.Handler.Initialise.install
    cactus_runner.Handler.Initialise.update_certs cactus_runner.Handler.Initialise.attempt
    cactus_runner.Handler.Setup.setup_test_procedure_from_request
    cactus_runner.Handler.Setup.new_procedure cactus_runner.Handler.Initialise.on_error
    cactus_runner.Handler.Initialise.activate cactus_runner.Handler.Initialise.run_init_actions
    cactus_runner.Handler.Initialise.init_actions cactus_runner.Handler.Initialise.start_initialised
    cactus_runner.Handler.Initialise.is_immediate cactus_runner.Handler.Initialise.created
    cactus_runner.World.call cactus_runner.Handler.Start.add_interaction cactus_runner.World.observe
initialised-active = refl

abbrev started_procedure : ActiveTestProcedure
started_procedure = record prepared {
  started_at = some 8000000;
  enabled_times = ("GET-DER", 9000000) ∷ [];
  step_status =
      ("GET-DER", record { started_at = some 9000000; completed_at = none })
      ∷ ("PROCEED", record { started_at = none; completed_at = none })
      ∷ [];
}

running-active : running.runner.active_test_procedure ≡ some started_procedure
unfolding respond cactus_runner.Exec.◌>>=◌ cactus_runner.Main.with_middleware
    cactus_runner.Handler.Initialise.initialise_handler initial cactus_runner.Main.initial_runner
    cactus_runner.Handler.Initialise.initialise_parsed cactus_runner.World.time_now
    cactus_runner.World.update_runner cactus_runner.Precondition.reset_db cactus_runner.World.send
    cactus_runner.Handler.Initialise.certificate_lfdi
    cactus_runner.Handler.Initialise.choose_certificate cactus_runner.Handler.Initialise.install
    cactus_runner.Handler.Initialise.update_certs cactus_runner.Handler.Initialise.attempt
    cactus_runner.Handler.Setup.setup_test_procedure_from_request
    cactus_runner.Handler.Setup.new_procedure cactus_runner.Handler.Initialise.on_error
    cactus_runner.Handler.Initialise.activate cactus_runner.Handler.Initialise.run_init_actions
    cactus_runner.Handler.Initialise.init_actions cactus_runner.Handler.Initialise.start_initialised
    cactus_runner.Handler.Initialise.is_immediate cactus_runner.Handler.Initialise.created
    cactus_runner.World.call cactus_runner.Handler.Start.add_interaction cactus_runner.World.observe
    cactus_runner.Handler.Start.start_handler cactus_runner.Handler.Start.attempt_start_for_state
    cactus_runner.Handler.Start.start_procedure cactus_runner.Handler.Start.failing_precondition
    cactus_runner.Handler.Start.start_unless_started cactus_runner.Handler.Start.begin_procedure
    cactus_runner.World.update_procedure cactus_runner.Handler.Start.set_started
    cactus_runner.Handler.Start.precondition_actions
    cactus_runner.Handler.Start.enable_first_listener cactus_runner.World.the_procedure
    cactus_runner.Handler.Start.first_listener cactus_runner.Actions.Steps.action_enable_steps
    cactus_runner.Actions.Params.mandatory cactus_runner.Exec.for_each
    cactus_runner.Actions.Steps.enable_if_named cactus_runner.Actions.Params.step_in
    cactus_runner.Actions.Steps.enable_listener cactus_runner.Actions.Steps.set_enabled
    cactus_runner.Actions.Steps.update_step cactus_runner.Actions.Steps.set_step
    cactus_runner.Prelude.Dict.get cactus_runner.Prelude.Dict.set
    cactus_runner.Handler.Setup.listeners_of cactus_runner.Handler.Setup.pending_steps
    cactus_runner.Actions.Params.names_step
running-active = refl

Reachable-AllResolved_example :
    (check_all_steps_complete started_procedure [] ≡ ok pass)
    ↔ AllResolved (names_step []) started_procedure.step_status
unfolding ignores Dict.get
Reachable-AllResolved_example =
    Reachable-AllResolved services named_steps config running running-Reachable started_procedure
      running-active [] (names_step []) refl

Reachable-instructions_example :
    get_current_instructions started_procedure
    ≡ unless_empty (
        ok (
          active_instructions started_procedure.definition.steps started_procedure.step_status
            started_procedure.listeners))
Reachable-instructions_example =
    Reachable-instructions services named_steps config running running-Reachable started_procedure
      running-active 8000000 refl

timed : WhenActive (AllTimed services) (some started_procedure)
unfolding cactus_runner.Handler.Setup.new_procedure cactus_runner.Handler.Setup.listeners_of
timed = (λ e. cc, (λ e. cc, tt))

running-timed : WhenActive (AllTimed services) running.runner.active_test_procedure
running-timed = subst (WhenActive (AllTimed services)) (sym running-active) timed

Reachable-status_handler_example : RepliesWith 200 (status_handler services config running).0
Reachable-status_handler_example =
    Reachable-status_handler services named_steps config running running-Reachable running-timed

-- A wait whose duration is a variable: the trigger resolves it, and the status raises.
abbrev variable_wait : ActiveTestProcedure
variable_wait = record started_procedure {
  listeners =
      record {
        step = "GET-DER";
        event = record {
          type = "wait";
          parameters =
              (
                "duration_seconds",
                single (variable (named_variable NamedVariableType.dersetting_set_max_w)),
              )
              ∷ [];
          checks = none;
        };
        actions = [];
      }
      ∷ [];
}

variable_wait_status :
    get_event_status services 10000000 "GET-DER"
      (record { started_at = some 9000000; completed_at = none })
      variable_wait
    ≡ err type_error
unfolding get_event_status Dict.get
variable_wait_status = refl

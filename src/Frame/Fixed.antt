-- ===== src/Frame/Fixed.antt =====
-- event.py: what a trigger leaves alone.
use cactus_runner.Prelude.{String, Option, none, some, ◌≡◌, refl, arith, Option-cases, inl, inr}
use cactus_runner.Definitions.{Time, TestProcedure}
use cactus_runner.Models.{ActiveTestProcedure, RunnerState}
use cactus_runner.Services.{Services}
use cactus_runner.World.{World}
use cactus_runner.Resolvers.{set_random_uri}
use cactus_runner.Warning.{add_warning}
use cactus_runner.Finalize.{set_finished}
use cactus_runner.Actions.Steps.{set_enabled, set_step, remove_listener, set_communications}
use cactus_runner.Actions.Routes.{set_override}
use cactus_runner.Actions.Programs.{tag_program}
use cactus_runner.Actions.Controls.{tag_control}
use cactus_runner.Event.{EventTrigger, handle_event_trigger}
use cactus_runner.Frame.{Closed, ClosedUnder}
use cactus_runner.Frame.Writes.{
  Preserves-resolve_random_uri, Preserves-enable_listener, Preserves-complete_listener,
}
use cactus_runner.Frame.Engine.{Preserves-handle_event_trigger}

-- What a test procedure is from its start on.
pub record Identity : Type 0 where
  pub name : String
  pub definition : TestProcedure
  pub initialised_at : Time
  pub started_at : Option Time
  pub client_lfdi : String
  pub run_id : Option String

abbrev pub identity_of : Option ActiveTestProcedure → Option Identity
identity_of none = none
identity_of (some p) = some (record {
  name = p.name;
  definition = p.definition;
  initialised_at = p.initialised_at;
  started_at = p.started_at;
  client_lfdi = p.client_lfdi;
  run_id = p.run_id;
})

-- Two states of the runner with one log and one procedure, which may be further on.
pub SameRun : RunnerState → RunnerState → Type 0
SameRun r s =
    s.request_history ≡ r.request_history
    × s.client_interactions ≡ r.client_interactions
    × identity_of s.active_test_procedure ≡ identity_of r.active_test_procedure

pub SameRun-self : (r : RunnerState) → SameRun r r
unfolding SameRun
SameRun-self r = (refl, refl, refl)

module _ (S : Services) (r : RunnerState) where
  kept :
      (f : ActiveTestProcedure → ActiveTestProcedure)
      → ((p : ActiveTestProcedure) → identity_of (some (f p)) ≡ identity_of (some p))
      → ClosedUnder S (SameRun r) f
  unfolding SameRun
  kept f e s h = elim (Option-cases s.active_test_procedure) [
    | inl g ↦ ground arith
    | inr (p, g) ↦ ground (arith, e p)
  ]

  pub fixed : Closed S (SameRun r)
  unfolding set_random_uri add_warning set_finished set_enabled set_step remove_listener
      set_communications set_override tag_program tag_control
  fixed = record {
    random_uri = Preserves-resolve_random_uri S (SameRun r) (λ key uri. kept _ (λ p. refl));
    enable =
        Preserves-enable_listener S (SameRun r) (λ s t. kept _ (λ p. refl))
          (λ s i. kept _ (λ p. refl));
    complete =
        Preserves-complete_listener S (SameRun r) (λ s. kept _ (λ p. refl))
          (λ s i. kept _ (λ p. refl));
    warning = λ w. kept _ (λ p. refl);
    finished = λ path. kept _ (λ p. refl);
    communications = λ b. kept _ (λ p. refl);
    override = λ a b. kept _ (λ p. refl);
    program_tag = λ t g. kept _ (λ p. refl);
    control_tag = λ t g. kept _ (λ p. refl);
  }

-- Whatever listeners a trigger fires and whatever their actions do or raise, it leaves the request
-- history and the client interactions as they were, and there is an active test procedure after it
-- exactly if there was one, with the same name, definition, client, run, initialisation and start.
pub handle_event_trigger-SameRun :
    (S : Services) (t : EventTrigger) (w : World S)
    → SameRun w.runner (handle_event_trigger S t w).1.runner
unfolding SameRun
handle_event_trigger-SameRun S t w =
    (Preserves-handle_event_trigger S (SameRun w.runner) (fixed S w.runner) t).after w
      (refl, refl, refl)

-- ===== src/Frame/Writes.antt =====
-- Properties that no write to the active test procedure touches, or none but some of its fields.
use cactus_runner.Prelude.{String}
use cactus_runner.Exec.Preserves.{Preserves, Preserves-bind, preserving_rules}
use cactus_runner.Definitions.{Time}
use cactus_runner.Models.{Listener, StepInfo, ActiveTestProcedure, RunnerState}
use cactus_runner.Services.{Services}
use cactus_runner.Prelude.{ℕ, zero, suc, List}
use cactus_runner.Resolvers
use cactus_runner.Resolvers.{set_random_uri}
use cactus_runner.Actions.Steps
use cactus_runner.Actions.Steps.{set_enabled, set_step, remove_listener, set_communications}
use cactus_runner.Actions.Routes.{set_override}
use cactus_runner.Actions.Programs.{tag_program}
use cactus_runner.Actions.Controls.{tag_control}
use cactus_runner.Warning.{add_warning}
use cactus_runner.Finalize.{set_finished}
use cactus_runner.Frame.{OnRunner, Closed, ClosedUnder, Preserves-update_procedure, world_rules}

module _ (S : Services) (Q : RunnerState → Type 0) where
  candidate : Preserves (OnRunner S Q) (Resolvers.candidate_random_uri S)
  unfolding Resolvers.candidate_random_uri
  candidate = search (preserving_rules, world_rules)

  draw :
      ((key uri : String) → ClosedUnder S Q (set_random_uri key uri))
      → (left : ℕ) (key : String) (existing : List String)
      → Preserves (OnRunner S Q) (Resolvers.draw_random_uri S left key existing)
  unfolding Resolvers.draw_random_uri
  draw c zero key existing = search preserving_rules
  draw c (suc left) key existing =
      Preserves-bind _ _ candidate
        (λ uri. search (preserving_rules, Preserves-update_procedure S Q, c, draw c left))

  -- The three writes of `Closed` that are actions themselves.
  pub Preserves-resolve_random_uri :
      ((key uri : String) → ClosedUnder S Q (set_random_uri key uri))
      → (key : String) → Preserves (OnRunner S Q) (Resolvers.resolve_random_uri S key)
  unfolding Resolvers.resolve_random_uri
  Preserves-resolve_random_uri c key = search (preserving_rules, world_rules, draw c)

  update_step :
      (step : String) (f : StepInfo → StepInfo)
      → ((info : StepInfo) → ClosedUnder S Q (set_step step info))
      → Preserves (OnRunner S Q) (Steps.update_step S step f)
  unfolding Steps.update_step
  update_step step f c = search (preserving_rules, world_rules, Preserves-update_procedure S Q, c)

  pub Preserves-enable_listener :
      ((step : String) (now : Time) → ClosedUnder S Q (set_enabled step now))
      → ((step : String) (info : StepInfo) → ClosedUnder S Q (set_step step info))
      → (l : Listener) → Preserves (OnRunner S Q) (Steps.enable_listener S l)
  unfolding Steps.enable_listener
  Preserves-enable_listener ce cs l = Preserves-bind _ _ (search world_rules) (λ now.
      Preserves-bind _ _ (Preserves-update_procedure S Q _ (ce l.step now))
        (λ _. update_step l.step _ (cs l.step)))

  pub Preserves-complete_listener :
      ((step : String) → ClosedUnder S Q (remove_listener step))
      → ((step : String) (info : StepInfo) → ClosedUnder S Q (set_step step info))
      → (l : Listener) → Preserves (OnRunner S Q) (Steps.complete_listener S l)
  unfolding Steps.complete_listener
  Preserves-complete_listener cr cs l =
      Preserves-bind _ _ (Preserves-update_procedure S Q _ (cr l.step))
        (λ _. Preserves-bind _ _ (search world_rules) (λ now. update_step l.step _ (cs l.step)))

  -- A property that no write to the active procedure touches.
  pub Closed-untouched :
      ((f : ActiveTestProcedure → ActiveTestProcedure) → ClosedUnder S Q f) → Closed S Q
  Closed-untouched c = record {
    random_uri = Preserves-resolve_random_uri (λ key uri. c (set_random_uri key uri));
    enable = Preserves-enable_listener (λ s t. c (set_enabled s t)) (λ s i. c (set_step s i));
    complete = Preserves-complete_listener (λ s. c (remove_listener s)) (λ s i. c (set_step s i));
    warning = λ w. c (add_warning w);
    finished = λ path. c (set_finished path);
    communications = λ b. c (set_communications b);
    override = λ r t. c (set_override r t);
    program_tag = λ t g. c (tag_program t g);
    control_tag = λ t g. c (tag_control t g);
  }

-- ===== src/Main/Tracking.antt =====
-- models.py, action.py: how the listeners of the active procedure and its table of steps go
-- together, in every state that is reached.
pub mod Listeners
pub mod Writes
pub mod Completion
use cactus_runner.Prelude.{
  String, Bool, true, false, Option, none, some, [], ◌≡◌, ◌↔◌, refl, sym, subst, arith,
  Option-cases, inl, inr,
}
use cactus_runner.Prelude.Dict
use cactus_runner.Exec.Preserves.{Preserves}
use cactus_runner.Definitions.{TestProcedure}
use cactus_runner.Models.{Listener, StepInfo, ActiveTestProcedure, RunnerState}
use cactus_runner.Services.{Services}
use cactus_runner.World.{World, map_procedure}
use cactus_runner.Resolvers.{set_random_uri}
use cactus_runner.Warning.{add_warning}
use cactus_runner.Finalize.{set_finished}
use cactus_runner.Actions.Steps.{
  set_enabled, remove_listener, enable_listener, complete_listener, set_communications,
}
use cactus_runner.Actions.Routes.{set_override}
use cactus_runner.Actions.Programs.{tag_program}
use cactus_runner.Actions.Controls.{tag_control}
use cactus_runner.Handler.Replies.{Config}
use cactus_runner.Handler.Setup.{listeners_of, pending_steps}
use cactus_runner.Handler.Start.{add_interaction, set_started}
use cactus_runner.Handler.Initialise.{activate}
use cactus_runner.Handler.Proxied.{touch_interaction, record_request}
use cactus_runner.Handler.Control.{clear_runner}
use cactus_runner.Main.{Reachable, initial_runner}
use cactus_runner.Frame.{OnRunner, Closed, ClosedUnder}
use cactus_runner.Frame.Writes.{Preserves-resolve_random_uri}
use cactus_runner.Frame.Prepared.{IsPrepared}
use cactus_runner.Frame.Starting.{ClosedRequests}
use cactus_runner.Frame.Proxying.{Reachable-closed}
use cactus_runner.Main.Tracking.Listeners.{
  IsDict, IsTracked, IsDistinct-listeners_of, is_open-pending_steps, pending_steps-not_started,
  pending_steps-named,
}
use cactus_runner.Main.Tracking.Writes.{
  enabled_entry, completed_entry, runner-enable_listener, runner-complete_listener,
}
use mathlib.Core.Option.{map as map_option}

-- The predicate on the procedure that is active, if one is.
abbrev pub WhenActive : (ActiveTestProcedure → Type 0) → Option ActiveTestProcedure → Type 0
WhenActive P none = Unit
WhenActive P (some p) = P p

abbrev pub IsTrackedRun : RunnerState → Type 0
IsTrackedRun r = WhenActive IsTracked r.active_test_procedure

WhenActive-map :
    (P : ActiveTestProcedure → Type 0) (f : ActiveTestProcedure → ActiveTestProcedure)
    (o : Option ActiveTestProcedure)
    → ((p : ActiveTestProcedure) → P p → P (f p))
    → WhenActive P o
    → WhenActive P (map_option f o)
WhenActive-map P f none keeps h = h
WhenActive-map P f (some p) keeps h = keeps p h

active-map_procedure :
    (f : ActiveTestProcedure → ActiveTestProcedure) (r : RunnerState)
    → (map_procedure f r).active_test_procedure ≡ map_option f r.active_test_procedure
active-map_procedure f r = elim (Option-cases r.active_test_procedure) [
  | inl e ↦ ground arith
  | inr (p, e) ↦ ground arith
]

-- What the invariant reads of two procedures is the same.
abbrev HasSameSteps : ActiveTestProcedure → ActiveTestProcedure → Type 0
HasSameSteps p q =
    q.listeners ≡ p.listeners
    × q.enabled_times ≡ p.enabled_times
    × q.step_status ≡ p.step_status
    × q.definition ≡ p.definition

same_steps : (p q : ActiveTestProcedure) → HasSameSteps p q → IsTracked p → IsTracked q
same_steps p q (el, et, es, ed) h = record {
  distinct = rw el h.distinct;
  left = rw (el, es) h.left;
  enabled = rw (et, es) h.enabled;
  named = rw (es, ed) h.named;
}

module _ (S : Services) where
  mapped :
      (f : ActiveTestProcedure → ActiveTestProcedure)
      → ((p : ActiveTestProcedure) → IsTracked p → IsTracked (f p))
      → ClosedUnder S IsTrackedRun f
  mapped f keeps r h =
      subst (WhenActive IsTracked) (sym (active-map_procedure f r))
        (WhenActive-map IsTracked f r.active_test_procedure keeps h)

  Preserves-enable : (l : Listener) → Preserves (OnRunner S IsTrackedRun) (enable_listener S l)
  unfolding set_enabled Dict.get
  Preserves-enable l = record {
    after = λ w h.
        subst IsTrackedRun (sym (runner-enable_listener S l w))
          (mapped _ (λ p g. enabled_entry l _ p g _ refl) w.runner h);
  }

  Preserves-complete : (l : Listener) → Preserves (OnRunner S IsTrackedRun) (complete_listener S l)
  unfolding remove_listener Dict.get
  Preserves-complete l = record {
    after = λ w h.
        subst IsTrackedRun (sym (runner-complete_listener S l w))
          (mapped _ (λ p g. completed_entry l _ p g _ refl) w.runner h);
  }

  untouched :
      (f : ActiveTestProcedure → ActiveTestProcedure)
      → ((p : ActiveTestProcedure) → HasSameSteps p (f p))
      → ClosedUnder S IsTrackedRun f
  untouched f same = mapped f (λ p. same_steps p (f p) (same p))

  tracked : Closed S IsTrackedRun
  unfolding set_random_uri add_warning set_finished set_communications set_override tag_program
      tag_control
  tracked = record {
    random_uri =
        Preserves-resolve_random_uri S IsTrackedRun
          (λ key uri. untouched _ (λ p. (refl, refl, refl, refl)));
    enable = Preserves-enable;
    complete = Preserves-complete;
    warning = λ w. untouched _ (λ p. (refl, refl, refl, refl));
    finished = λ path. untouched _ (λ p. (refl, refl, refl, refl));
    communications = λ b. untouched _ (λ p. (refl, refl, refl, refl));
    override = λ a b. untouched _ (λ p. (refl, refl, refl, refl));
    program_tag = λ t g. untouched _ (λ p. (refl, refl, refl, refl));
    control_tag = λ t g. untouched _ (λ p. (refl, refl, refl, refl));
  }

  -- The steps of a definition that is read have different names: `steps` is a dictionary.
  abbrev pub HasNamedSteps : Type 0
  HasNamedSteps =
      (yaml : String) (definition : TestProcedure)
      → S.test_procedure_from_yaml yaml ≡ some definition
      → IsDict definition.steps

module _ (S : Services) (unique : HasNamedSteps S) where
  prepared-IsTracked : (p : ActiveTestProcedure) → IsPrepared S p → IsTracked p
  unfolding Dict.get
  prepared-IsTracked p h = record {
    distinct =
        rw h.listening
          (IsDistinct-listeners_of p.definition.steps (unique h.yaml p.definition h.loaded));
    left = λ k. rw (h.listening, h.pending) (is_open-pending_steps k p.definition.steps);
    enabled = λ k i e.
        rw h.disabled (sym (pending_steps-not_started k p.definition.steps i (rw h.pending at e)));
    named = λ k e. rw h.pending (pending_steps-named k p.definition.steps e);
  }

  tracked_requests : ClosedRequests S IsTrackedRun
  unfolding set_started add_interaction touch_interaction record_request activate clear_runner
  tracked_requests = record {
    engine = tracked S;
    started = λ now. untouched S _ (λ p. (refl, refl, refl, refl));
    interaction = λ type e now r h. h;
    touched = λ now r h. h;
    recorded = λ entry e r h. h;
    activated = λ p prepared r h. prepared-IsTracked p prepared;
    cleared = λ r h. tt;
  }

-- In every state that requests and rounds of the periodic task reach, whatever raised on the way,
-- with definitions whose steps have different names: a listener of the active procedure is left
-- for a step exactly while the step has no time of completion, no two listeners are of one step,
-- each was enabled exactly when the step was started, and all steps are those of the definition.
pub Reachable-IsTracked :
    (S : Services) (unique : HasNamedSteps S) (config : Config) (w : World S)
    → Reachable S config w
    → IsTrackedRun w.runner
unfolding initial_runner
Reachable-IsTracked S unique config =
    Reachable-closed S config IsTrackedRun (tracked_requests S unique) (λ now. tt)

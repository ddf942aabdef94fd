-- ===== src/Main/Tracking/Writes.antt =====
-- Enabling and completing a listener, as single writes to the active procedure.
use cactus_runner.Prelude.{
  String, Option, none, some, eq_iff, ◌≡◌, ◌∙◌, arith, Option-cases, inl, inr,
}
use cactus_runner.Prelude.Dict
use cactus_runner.Exec.{◌>>=◌}
use cactus_runner.Definitions.{Time}
use cactus_runner.Models.{Listener, StepInfo, ActiveTestProcedure, RunnerState}
use cactus_runner.Services.{Services}
use cactus_runner.World.{World, map_procedure, time_now, the_procedure, update_procedure}
use cactus_runner.Actions.Steps.{
  set_enabled, set_step, remove_listener, update_step, enable_listener, complete_listener,
}
use cactus_runner.Main.Tracking.Listeners.{
  IsTracked, has_listener-without_listener, IsDistinct-without_listener,
}

abbrev pub with_step :
    String → (StepInfo → StepInfo) → Option StepInfo → ActiveTestProcedure → ActiveTestProcedure
with_step step f none p = p
with_step step f (some i) p = set_step step (f i) p

-- What `update_step` leaves of a procedure.
abbrev pub changed_step : String → (StepInfo → StepInfo) → ActiveTestProcedure → ActiveTestProcedure
changed_step step f p = with_step step f (Dict.get step p.step_status) p

abbrev pub starting : Time → StepInfo → StepInfo
starting now i = record i { started_at = some now }

abbrev pub completing : Time → StepInfo → StepInfo
completing now i = record i { completed_at = some now }

module _ (S : Services) where
  runner-update_step :
      (step : String) (f : StepInfo → StepInfo) (w : World S)
      → (update_step S step f w).1.runner ≡ map_procedure (changed_step step f) w.runner
  unfolding update_step the_procedure update_procedure ◌>>=◌
  runner-update_step step f w = elim (Option-cases w.runner.active_test_procedure) [
    | inl e ↦ ground arith
    | inr (p, e) ↦ elim (Option-cases (Dict.get step p.step_status)) [
      | inl g ↦ ground arith
      | inr (i, g) ↦ ground arith
    ]
  ]

  map_procedure-map_procedure :
      (f g : ActiveTestProcedure → ActiveTestProcedure) (r : RunnerState)
      → map_procedure f (map_procedure g r) ≡ map_procedure (λ p. f (g p)) r
  map_procedure-map_procedure f g r = elim (Option-cases r.active_test_procedure) [
    | inl e ↦ ground arith
    | inr (p, e) ↦ ground arith
  ]

  abbrev pub enabled_at : Listener → Time → ActiveTestProcedure → ActiveTestProcedure
  enabled_at l now p = changed_step l.step (starting now) (set_enabled l.step now p)

  abbrev pub completed_at : Listener → Time → ActiveTestProcedure → ActiveTestProcedure
  completed_at l now p = changed_step l.step (completing now) (remove_listener l.step p)

  pub runner-enable_listener :
      (l : Listener) (w : World S)
      → (enable_listener S l w).1.runner ≡ map_procedure (enabled_at l (S.clock w.env).0) w.runner
  unfolding enable_listener time_now update_procedure ◌>>=◌
  runner-enable_listener l w =
      runner-update_step l.step _ _ ∙ map_procedure-map_procedure _ _ w.runner

  pub runner-complete_listener :
      (l : Listener) (w : World S)
      → (complete_listener S l w).1.runner
        ≡ map_procedure (completed_at l (S.clock w.env).0) w.runner
  unfolding complete_listener time_now update_procedure ◌>>=◌
  runner-complete_listener l w =
      runner-update_step l.step _ _ ∙ map_procedure-map_procedure _ _ w.runner

-- Each of the two writes, at the entry that the step has.
module _ (l : Listener) (now : Time) (p : ActiveTestProcedure) (h : IsTracked p) where
  pub enabled_entry :
      (o : Option StepInfo)
      → Dict.get l.step p.step_status ≡ o
      → IsTracked (with_step l.step (starting now) o (set_enabled l.step now p))
  unfolding set_enabled set_step
  enabled_entry none g = record {
    distinct = h.distinct;
    left = h.left;
    enabled = λ k j e.
        ground (arith, eq_iff l.step k, Dict.get-set l.step k now p.enabled_times, h.enabled k j e);
    named = h.named;
  }
  enabled_entry (some i) g = record {
    distinct = h.distinct;
    left = λ k.
        ground
          (arith, eq_iff l.step k, Dict.get-set l.step k (starting now i) p.step_status, h.left k);
    enabled = λ k j e. ground (
      arith,
      eq_iff l.step k,
      Dict.get-set l.step k (starting now i) p.step_status,
      Dict.get-set l.step k now p.enabled_times,
      h.enabled k j,
    );
    named = λ k e.
        ground (
          arith,
          eq_iff l.step k,
          Dict.get-set l.step k (starting now i) p.step_status,
          h.named k e,
        );
  }

  pub completed_entry :
      (o : Option StepInfo)
      → Dict.get l.step p.step_status ≡ o
      → IsTracked (with_step l.step (completing now) o (remove_listener l.step p))
  unfolding remove_listener set_step
  completed_entry none g = record {
    distinct = IsDistinct-without_listener l.step p.listeners h.distinct;
    left = λ k. ground (
      arith,
      eq_iff l.step k,
      has_listener-without_listener l.step k p.listeners h.distinct,
      h.left k,
    );
    enabled = h.enabled;
    named = h.named;
  }
  completed_entry (some i) g = record {
    distinct = IsDistinct-without_listener l.step p.listeners h.distinct;
    left = λ k. ground (
      arith,
      eq_iff l.step k,
      Dict.get-set l.step k (completing now i) p.step_status,
      has_listener-without_listener l.step k p.listeners h.distinct,
      h.left k,
    );
    enabled = λ k j e. ground (
      arith,
      eq_iff l.step k,
      Dict.get-set l.step k (completing now i) p.step_status,
      h.enabled k j,
      h.enabled k i,
    );
    named = λ k e. ground (
      arith,
      eq_iff l.step k,
      Dict.get-set l.step k (completing now i) p.step_status,
      h.named k e,
    );
  }

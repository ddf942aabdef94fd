-- ===== src/Handler/Transitions.antt =====
-- handler.py: what starting a test again and finalizing it do on every path.
use cactus_runner.Prelude.{
  List, Bool, false, true, Option, [], none, some, ◌≡◌, refl, arith, subst, sym, String,
}
use cactus_runner.Exec.{
  Exception, Result, ok, err, continue, pure, gets, try_except, on_option, ◌>>=◌, ◌>>◌,
}
use cactus_runner.Exec.Preserves.{
  Preserves, Preserves-bind, Preserves-pure, Preserves-on_option, Preserves-try_except,
  preserving_rules,
}
use cactus_runner.Exec.Total.{
  returns, Total, Total-pure, Total-bind, Total-try_except, Total-on_option,
}
use cactus_runner.Definitions.{Time, Preconditions}
use cactus_runner.Models.{ActiveTestProcedure, RunnerState}
use cactus_runner.Services.{Services}
use cactus_runner.World.{World, Run, call, observe, update_runner, time_now}
use cactus_runner.Finalize.{finish_active_test, safely_write_error_zip}
use cactus_runner.Finalize.Once.{HasActive, still_active}
use cactus_runner.Frame.{OnRunner}
use cactus_runner.Frame.Actions.{Preserves-finish_active_test, Preserves-safely_write_error_zip}
use cactus_runner.Frame.Checks.{Preserves-first_failing_check}
use cactus_runner.Frame.Fixed.{SameRun, SameRun-self, fixed}
use cactus_runner.Frame.Writes.{Closed-untouched}
use cactus_runner.Handler.Replies.{Reply, StartResult, reply, file}
use cactus_runner.Handler.Start.{
  failing_precondition, start_unless_started, start_procedure, attempt_start_for_state,
}
use cactus_runner.Handler.Control.{error_archive, finalize_handler, clear_runner}

abbrev pub started : Result StartResult → Bool
started (ok r) = r.success
started (err e) = false

module _ (S : Services) (r : RunnerState) where
  preconditions :
      (o : Option Preconditions) → Preserves (OnRunner S (SameRun r)) (failing_precondition S o)
  unfolding failing_precondition
  preconditions none = search preserving_rules
  preconditions (some p) = Preserves-first_failing_check S (SameRun r) (fixed S r) [] p.checks

  refused :
      (p : ActiveTestProcedure) (t : Time)
      → p.started_at ≡ some t
      → Preserves (OnRunner S (SameRun r)) (start_procedure S p)
  unfolding start_procedure start_unless_started on_option pure
  refused p t e = Preserves-bind _ _ (preconditions _) (λ result.
      Preserves-on_option result _ _ (rw e (Preserves-pure _)) (λ failed. Preserves-pure _))

module _ (S : Services) (w : World S) where
  -- A test procedure that has started is not started again: whatever the checks of its
  -- preconditions give or do, the attempt is not a success. The log and the interactions stay as they
  -- were, and so does the procedure's name, definition, client, run, initialisation and start.
  pub attempt_start_for_state-started :
      (p : ActiveTestProcedure) (t : Time)
      → w.runner.active_test_procedure ≡ some p
      → p.started_at ≡ some t
      → started (attempt_start_for_state S w).0 ≡ false
        × SameRun w.runner (attempt_start_for_state S w).1.runner
  unfolding attempt_start_for_state start_procedure start_unless_started ◌>>=◌
  attempt_start_for_state-started p t h g = (ground arith, unchanged)
    where
      same : attempt_start_for_state S w ≡ start_procedure S p w
      same = ground arith

      unchanged : SameRun w.runner (attempt_start_for_state S w).1.runner
      unchanged =
          subst (λ outcome. SameRun w.runner outcome.1.runner) (sym same)
            ((refused S w.runner p t g).after w (SameRun-self w.runner))

module _ (S : Services) where
  -- The archive, or the one that stands for it.
  archived :
      Preserves (OnRunner S HasActive) (try_except (finish_active_test S) (λ e. error_archive S e))
  archived =
      Preserves-try_except _ _
        (Preserves-finish_active_test S HasActive (Closed-untouched S HasActive (still_active S)))
        (λ e. Preserves-safely_write_error_zip S HasActive _)

  -- A test that is over, or one that is still there to be finalized.
  abbrev pub IsFinalized : Result Reply × World S → Type 0
  IsFinalized (ok r, w) =
      r.status ≡ 200 × w.runner.active_test_procedure ≡ none × w.runner.request_history ≡ []
  IsFinalized (err e, w) = HasActive w.runner

  abbrev concluded : String → Run S Reply
  concluded path = do
    update_runner S clear_runner
    generated ← time_now S
    pure (reply 200 (file path))

  cleared :
      (outcome : Result String × World S)
      → HasActive outcome.1.runner
      → IsFinalized (continue concluded outcome)
  unfolding update_runner clear_runner time_now observe ◌>>=◌
  cleared (ok path, w) h = (refl, refl, refl)
  cleared (err e, w) h = h

  -- Finalizing ends an active test: the reply is 200, and no active procedure and no request history
  -- are left. Where even the failover archive cannot be written it raises, and the procedure is
  -- still active.
  pub finalize_handler-IsFinalized :
      (w : World S) (p : ActiveTestProcedure)
      → w.runner.active_test_procedure ≡ some p
      → IsFinalized (finalize_handler S w)
  unfolding finalize_handler HasActive ◌>>=◌
  finalize_handler-IsFinalized w p h = subst IsFinalized (sym same) (
      cleared (try_except (finish_active_test S) (λ e. error_archive S e) w)
        (archived.after w (ground arith)))
    where
      same :
          finalize_handler S w
          ≡ continue concluded (try_except (finish_active_test S) (λ e. error_archive S e) w)
      same = ground arith

  Total-call :
      {R : Type 0} {f : S.Env → Result R × S.Env} → Total f → Total {W = World S} (call S f)
  unfolding call
  Total-call h = record { each = λ w. h.each w.env }

  -- Finalizing returns whatever the making of the archive raises, if a temporary file can be made
  -- and the text of the failure can be written to it.
  pub finalize_handler-returns :
      Total S.mkstemp
      → ((path : String) (errors : List String) (e : Exception)
          → Total (S.write_failure path errors e))
      → (w : World S) → returns (finalize_handler S w).0 ≡ true
  unfolding finalize_handler safely_write_error_zip gets observe time_now update_runner
  finalize_handler-returns made written w = (whole w).each w
    where
      failover : (e : Exception) → Total (error_archive S e)
      failover x = Total-bind _ _ (Total-call made) (λ path.
          Total-bind _ _ (Total-try_except _ _ (λ e. Total-call (written path _ e)))
            (λ _. Total-pure path))

      whole : World S → Total (finalize_handler S)
      whole w =
          Total-bind _ _ (record { each = λ w. refl })
            (λ active. Total-on_option active _ _ (Total-pure _) (λ p.
              Total-bind _ _ (Total-try_except _ _ failover) (λ path.
                Total-bind _ _ (record { each = λ w. refl })
                  (λ _. Total-bind _ _ (record { each = λ w. refl }) (λ now. Total-pure _)))))

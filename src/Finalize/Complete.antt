-- ===== src/Finalize/Complete.antt =====
-- finalize.py: that a test is finished whatever the parts of its archive raise.
use cactus_runner.Prelude.{String, true, List, subst, sym, Option, none, some, ◌≡◌, refl, arith}
use cactus_runner.Exec.{Result, ok, err, continue, gets, for_each, on_option, ◌>>=◌}
use cactus_runner.Exec.Preserves.{Preserves, Preserves-gets}
use cactus_runner.Exec.Total.{
  returns, Total, Total-pure, Total-bind, Total-try_except, Total-on_option,
}
use cactus_runner.Definitions.{Time}
use cactus_runner.Models.{ActiveTestProcedure, RequestEntry, CheckResult}
use cactus_runner.Prelude.Dict.{Dict}
use cactus_runner.Timeline.{Timeline}
use cactus_runner.Services.{Services}
use cactus_runner.World.{World, Run, call, observe, time_now, the_procedure, update_procedure}
use cactus_runner.Warning.{run_post_test_analysers}
use cactus_runner.Finalize.Archive.{Contents}
use cactus_runner.Finalize.{
  part, status_summary, criteria_results, test_timeline, reporting_data, write_and_finish,
  finish_active_test,
}
use cactus_runner.Finalize.Once.{HasActive, active-Closed, IsWritten, write_and_finish-Finishes}
use cactus_runner.Frame.{OnRunner, world_rules}
use cactus_runner.Frame.Actions.{
  Preserves-analysers, Preserves-status_summary, Preserves-criteria_results,
  Preserves-test_timeline, Preserves-reporting_data,
}

module _ (S : Services) where
  -- An action that returns while there is an active test procedure.
  record Answers {A : Type 0} (run : Run S A) : Type 0 where
    each : (w : World S) → HasActive w.runner → returns (run w).0 ≡ true

  always : {A : Type 0} (run : Run S A) → Total run → Answers run
  always run h = record { each = λ w active. h.each w }

  continued :
      {A B : Type 0} (next : A → Run S B) (outcome : Result A × World S)
      → ((a : A) → Answers (next a))
      → HasActive outcome.1.runner
      → returns outcome.0 ≡ true
      → returns (continue next outcome).0 ≡ true
  continued next (ok a, w) h active e = (h a).each w active
  continued next (err x, w) h active e = e

  Answers-bind :
      {A B : Type 0} (first : Run S A) (next : A → Run S B)
      → Preserves (OnRunner S HasActive) first
      → Answers first
      → ((a : A) → Answers (next a))
      → Answers (first >>= next)
  unfolding ◌>>=◌
  Answers-bind first next kept hf hn = record {
    each = λ w active. continued next (first w) hn (kept.after w active) (hf.each w active);
  }

  here : Answers (the_procedure S)
  unfolding the_procedure HasActive
  here = record { each = λ w active. ground (arith, active) }

  analysed : Total (run_post_test_analysers S)
  unfolding run_post_test_analysers for_each
  analysed =
      Total-bind _ _ (Total-try_except _ _ (λ e. Total-pure tt))
        (λ _. Total-bind _ _ (Total-try_except _ _ (λ e. Total-pure tt)) (λ _. Total-pure tt))

  made : {A : Type 0} (message : String) (m : Run S A) → Total (part S message m)
  made message m = Total-try_except _ _ (λ e. Total-pure _)

  summarised : (history : List RequestEntry) → Total (status_summary S history)
  unfolding status_summary
  summarised history = made _ _

  determined : (history : List RequestEntry) → Answers (criteria_results S history)
  unfolding criteria_results
  determined history = Answers-bind _ _ (search world_rules) here (λ p.
      always _ (Total-on_option p.definition.criteria _ _ (Total-pure _) (λ checks. made _ _)))

  timed : (now : Time) → Answers (test_timeline S now)
  unfolding test_timeline
  timed now = Answers-bind _ _ (search world_rules) here (λ p. always _ (
      Total-on_option p.started_at _ _ (Total-pure _)
        (λ started. Total-bind _ _ (made _ _) (λ timeline. Total-pure _))))

  reported :
      (history : List RequestEntry) (checks : Dict CheckResult) (t : Option Timeline)
      → Total (reporting_data S history checks t)
  unfolding reporting_data
  reported history checks t = made _ _

  looked : {A : Type 0} (f : World S → A) → Total (gets f)
  unfolding gets
  looked f = record { each = λ w. refl }

  called : {A : Type 0} (f : S.Env → Result A × S.Env) → Total f → Total (call S f)
  unfolding call
  called f h = record { each = λ w. h.each w.env }

  -- A test procedure that is finished, with the path that is returned.
  abbrev pub IsFinished : Result String × World S → Type 0
  IsFinished (ok path, w) = IsWritten S path w
  IsFinished (err e, w) = ⊥

  module _ (temporary : Total S.mkstemp)
      (archives : (path : String) (c : Contents) → Total (S.write_archive path c)) where
    answered : (now : Time) → Answers (write_and_finish S now)
    unfolding write_and_finish update_procedure
    answered now = Answers-bind _ _ (Preserves-gets _) (always _ (looked _)) (λ history.
        Answers-bind _ _ (Preserves-analysers S HasActive (active-Closed S)) (always _ analysed)
          (λ _.
            Answers-bind _ _ (Preserves-status_summary S HasActive (active-Closed S) _)
              (always _ (summarised _))
              (λ shown.
                Answers-bind _ _ (Preserves-criteria_results S HasActive (active-Closed S) _)
                  (determined _)
                  (λ results.
                    Answers-bind _ _ (Preserves-test_timeline S HasActive (active-Closed S) now)
                      (timed now)
                      (λ timeline.
                        Answers-bind _ _
                          (Preserves-reporting_data S HasActive (active-Closed S) _ _ _)
                          (always _ (reported _ _ _))
                          (λ report.
                            Answers-bind _ _ (search world_rules) (always _ (called _ temporary))
                              (λ path. Answers-bind _ _ (search world_rules) here (λ p. always _ (
                                Total-bind _ _ (called _ (archives path _)) (λ _.
                                  Total-bind _ _ (record { each = λ w. refl })
                                    (λ _. Total-pure path)))))))))))

    settled :
        (outcome : Result String × World S)
        → returns outcome.0 ≡ true
        → ((path : String) → outcome.0 ≡ ok path → IsWritten S path outcome.1)
        → IsFinished outcome
    settled (ok path, w) h written = written path refl
    settled (err e, w) h written = cc

    -- Whatever the status, the checks, the timeline and the reporting data raise: an active test
    -- procedure that is not finished is finished, with the path that is returned, if a temporary file
    -- can be made and the archive can be written to it.
    pub finish_active_test-IsFinished :
        (w : World S) (p : ActiveTestProcedure)
        → w.runner.active_test_procedure ≡ some p
        → p.finished_zip_path ≡ none
        → IsFinished (finish_active_test S w)
    unfolding finish_active_test time_now observe HasActive on_option ◌>>=◌
    finish_active_test-IsFinished w p active unfinished = subst IsFinished (sym same) (
        settled (write_and_finish S (S.clock w.env).0 (time_now S w).1)
          ((answered (S.clock w.env).0).each (time_now S w).1 (ground arith))
          (λ path e.
            (write_and_finish-Finishes S (S.clock w.env).0).each (time_now S w).1 path
              (ground arith) e))
      where
        same : finish_active_test S w ≡ write_and_finish S (S.clock w.env).0 (time_now S w).1
        same = ground arith

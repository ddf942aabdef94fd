-- ===== src/Finalize/Once.antt =====
-- finalize.py: a test procedure is finished once.
use cactus_runner.Prelude.{
  String, Bool, true, false, Option, none, some, ◌≡◌, arith, Option-cases, inl, inr, ap, subst,
}
use cactus_runner.Exec.{Result, ok, err, continue, pure, ◌>>=◌, ◌>>◌}
use cactus_runner.Exec.Preserves.{Preserves, Preserves-gets}
use cactus_runner.Definitions.{Time}
use cactus_runner.Models.{ActiveTestProcedure, RunnerState}
use cactus_runner.Services.{Services}
use cactus_runner.World.{World, Run, map_procedure, observe, time_now, update_procedure}
use cactus_runner.Finalize.{set_finished, write_and_finish, finish_active_test}
use cactus_runner.Frame.Actions.{
  Preserves-analysers, Preserves-status_summary, Preserves-criteria_results,
  Preserves-test_timeline, Preserves-reporting_data,
}
use cactus_runner.Frame.{OnRunner, Closed, world_rules}
use cactus_runner.Frame.Writes.{Closed-untouched}

abbrev is_some {ℓ} : {A : Type ℓ} → Option A → Bool
is_some none = false
is_some (some a) = true

unfoldable pub HasActive : RunnerState → Type 0
HasActive r = is_some r.active_test_procedure ≡ true

module _ (S : Services) where
  pub still_active :
      (f : ActiveTestProcedure → ActiveTestProcedure) (r : RunnerState)
      → HasActive r
      → HasActive (map_procedure f r)
  unfolding HasActive
  still_active f r h = ground arith

  pub active-Closed : Closed S HasActive
  active-Closed = Closed-untouched S HasActive still_active

  unfoldable pub IsWritten : String → World S → Type 0
  IsWritten path w =
      (p : ActiveTestProcedure) × (w.runner.active_test_procedure ≡ some p
        × p.finished_zip_path ≡ some path)

  -- An action that leaves a procedure finished with the path that it returns.
  pub record Finishes (run : Run S String) : Type 0 where
    pub each :
        (w : World S) (path : String)
        → HasActive w.runner
        → (run w).0 ≡ ok path
        → IsWritten path (run w).1

  continued :
      {A : Type 0} (next : A → Run S String) (path : String) (outcome : Result A × World S)
      → ((a : A) → Finishes (next a))
      → HasActive outcome.1.runner
      → (continue next outcome).0 ≡ ok path
      → IsWritten path (continue next outcome).1
  continued next path (ok a, w) h active e = (h a).each w path active e
  continued next path (err x, w) h active e = cc

  Finishes-bind :
      {A : Type 0} (first : Run S A) (next : A → Run S String)
      → Preserves (OnRunner S HasActive) first
      → ((a : A) → Finishes (next a))
      → Finishes (first >>= next)
  unfolding ◌>>=◌
  Finishes-bind first next kept h = record {
    each = λ w path active e. continued next path (first w) h (kept.after w active) e;
  }

  same_ok : {a b : String} → ok a ≡ ok b → a ≡ b
  same_ok e = cc

  finished : (path : String) → Finishes (update_procedure S (set_finished path) >> pure path)
  unfolding update_procedure HasActive IsWritten set_finished ◌>>=◌
  finished path = record {
    each = λ w given active e. elim (Option-cases w.runner.active_test_procedure) [
      | inl g ↦ ground (arith, active)
      | inr (p, g) ↦ (set_finished path p, (ground arith, ap some (same_ok e)))
    ];
  }

  pub write_and_finish-Finishes : (now : Time) → Finishes (write_and_finish S now)
  unfolding write_and_finish
  write_and_finish-Finishes now = Finishes-bind _ _ (Preserves-gets _) (λ history.
      Finishes-bind _ _ (Preserves-analysers S HasActive active-Closed) (λ _.
        Finishes-bind _ _ (Preserves-status_summary S HasActive active-Closed _) (λ shown.
          Finishes-bind _ _ (Preserves-criteria_results S HasActive active-Closed _) (λ determined.
            Finishes-bind _ _ (Preserves-test_timeline S HasActive active-Closed now) (λ timeline.
              Finishes-bind _ _ (Preserves-reporting_data S HasActive active-Closed _ _ _)
                (λ report. Finishes-bind _ _ (search world_rules) (λ path.
                  Finishes-bind _ _ (search world_rules)
                    (λ p. Finishes-bind _ _ (search world_rules) (λ _. finished path)))))))))

  written :
      (w w₁ : World S) (now : Time) (path : String)
      → HasActive w.runner
      → write_and_finish S now w ≡ (ok path, w₁)
      → IsWritten path w₁
  written w w₁ now path h e =
      subst (λ outcome. IsWritten path outcome.1) e
        ((write_and_finish-Finishes now).each w path h (ap (λ outcome. outcome.0) e))

  -- A test procedure is written out once: when `finish_active_test` has returned a path, a second
  -- call returns the same path and leaves the runner's state as it is.
  pub finish_active_test-again :
      (w w₁ : World S) (path : String)
      → finish_active_test S w ≡ (ok path, w₁)
      → (finish_active_test S w₁).0 ≡ ok path × (finish_active_test S w₁).1.runner ≡ w₁.runner
  unfolding finish_active_test observe time_now HasActive IsWritten ◌>>=◌
  finish_active_test-again w w₁ path e = elim (Option-cases w.runner.active_test_procedure) [
    | inl g ↦ ground arith
    | inr (p, g) ↦ elim (Option-cases p.finished_zip_path) [
      | inr (known, f) ↦ ground arith
      | inl f ↦
          repeated
            (written (time_now S w).1 w₁ (S.clock w.env).0 path (ground arith) (ground arith))
    ]
  ]
    where
      repeated :
          IsWritten path w₁
          → (finish_active_test S w₁).0 ≡ ok path × (finish_active_test S w₁).1.runner ≡ w₁.runner
      repeated (q, (a, z)) = ground arith

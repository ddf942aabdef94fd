-- ===== src/Warning.antt =====
-- warning.py: warnings on the active test procedure; the first of each type is kept.
pub mod First
use cactus_runner.Prelude.{String, List, [], ◌∷◌, none, some, concat}
use cactus_runner.Prelude.Dict
use cactus_runner.Prelude.Strings.{join}
use cactus_runner.Exec.{on_option, pure, try_except, for_each, ◌>>=◌}
use cactus_runner.Models.{ActiveTestProcedure, WarningEntry}
use cactus_runner.Services.{Services}
use cactus_runner.World.{Run, call, time_now, the_procedure, update_procedure}

unfoldable pub add_warning : WarningEntry → ActiveTestProcedure → ActiveTestProcedure
add_warning w p = record p { warnings = Dict.set w.type w p.warnings }

module _ (S : Services) where
  unfoldable pub warn : (type description message : String) → Run S (Unit {0})
  warn type description message = do
    p ← the_procedure S
    on_option (Dict.get type p.warnings)
        (do
          now ← time_now S
          update_procedure S (
              add_warning (record {
                type = type;
                description = description;
                message = message;
                timestamp = now;
              })))
        (λ known. pure tt)

  unfoldable pub warn_if_varied :
      List String → (type description message : String) → Run S (Unit {0})
  warn_if_varied [] type description message = pure tt
  warn_if_varied (_ ∷ _) type description message = warn type description message

  unfoldable pub analyse_der_settings_varied : Run S (Unit {0})
  unfolding warn_if_varied
  analyse_der_settings_varied = do
    varied ← call S S.der_settings_varied
    warn_if_varied varied "der-settings.set-max-w-varied" "setMaxW changed during the test" (
        concat "The DER's " (
          concat (join ", " varied)
            " (DERSettings) value changed at least once during the test. Altering these values is not standard practise. Site controls in tests use these values to create control limits, altering them may cause you to fail CACTUS tests."))

  unfoldable pub analyse_reading_type_varied : Run S (Unit {0})
  unfolding warn_if_varied
  analyse_reading_type_varied = do
    varied ← call S S.reading_types_varied
    warn_if_varied varied "reading-type.varied" "A reading type changed during the test" (
        concat "The " (
          concat (join ", " varied)
            " field(s) of a MirrorUsagePoint's ReadingType changed at least once during the test. This updates the reading type for all associated readings, including historical ones already submitted. Please ensure you do not update reading types unless your previous readings were submitted incorrectly."))

  unfoldable pub run_post_test_analysers : Run S (Unit {0})
  run_post_test_analysers =
      for_each (λ analyser. try_except analyser (λ _. pure tt))
        (analyse_der_settings_varied ∷ analyse_reading_type_varied ∷ [])

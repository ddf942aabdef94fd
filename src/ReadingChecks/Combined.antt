-- ===== src/ReadingChecks/Combined.antt =====
-- check.py: the six checks on readings, each the conjunction of the checks on their parts.
use cactus_runner.Prelude.{
  String, Bool, true, false, List, [], ◌∷◌, ◌++◌, str_eq, map, if◌then◌else◌,
}
use cactus_runner.Prelude.Int.{ℤ}
use cactus_runner.Prelude.Dict.{Dict}
use cactus_runner.Prelude.Strings.{join, texts}
use cactus_runner.Exec.{pure, ◌>>=◌}
use cactus_runner.Definitions.{Resolved}
use cactus_runner.Models.{CheckResult}
use cactus_runner.Services.{Services, SiteReadingType}
use cactus_runner.SoftChecker.{fail, merge_checks}
use cactus_runner.EnvoyCommon.{Query}
use cactus_runner.EnvoyCommon.Readings.{get_csip_aus_site_reading_types_partitioned}
use cactus_runner.Actions.Params.{parameter}
use cactus_runner.ReadingChecks.{
  do_check_readings_for_types, do_check_readings_on_minute_boundary,
  do_check_reading_type_mrids_match_pen, do_check_readings_for_duration,
}
use cactus_runner.ReadingChecks.Levels.{do_check_reading_levels_for_types}

-- READING_LOCATION_DESCRIPTIONS
abbrev reading_location_description : String → String
reading_location_description location =
    if str_eq location "SITE_READING"
    then "site level"
    else if str_eq location "DEVICE_READING"
    then "DER/device level"
    else location

abbrev qualifier_description : String → String
qualifier_description qualifier =
    if str_eq qualifier "NOT_APPLICABLE"
    then "NOT_APPLICABLE (i.e. a cumulative/sample reading, NOT an interval average)"
    else qualifier

module _ (S : Services) where
  -- The failure of readings that were found only under other role flags.
  abbrev unexpected_flags :
      (uom location qualifier : String) → List SiteReadingType → List CheckResult
  unexpected_flags uom location qualifier [] = []
  unexpected_flags uom location qualifier (t ∷ rest) =
      fail (
        texts (
          "Found MUP(s) with unexpected roleFlags="
          ∷ join ", " (map (λ srt. S.role_flags_hex srt.role_flags) (t ∷ rest))
          ∷ " (expected "
          ∷ reading_location_description location
          ∷ ") for "
          ∷ qualifier
          ∷ "/"
          ∷ uom
          ∷ " readings."
          ∷ []))
      ∷ []

  abbrev no_mup : (uom location qualifier : String) → CheckResult
  no_mup uom location qualifier = fail (
      texts (
        "No "
        ∷ reading_location_description location
        ∷ " MirrorUsagePoint for the active EndDevice with "
        ∷ uom
        ∷ " readings using DataQualifier "
        ∷ qualifier_description qualifier
        ∷ "."
        ∷ []))

  -- check_results, with the check of the durations where it is asked for.
  abbrev duration_results : Bool → List SiteReadingType → Query S (List CheckResult)
  duration_results false types = pure []
  duration_results true types = do
    result ← do_check_readings_for_duration S types
    pure (result ∷ [])

  -- The checks on the types that were found.
  unfoldable pub check_parts :
      Dict Resolved → ℤ → (check_duration : Bool) → List SiteReadingType → Query S CheckResult
  check_parts params pen check_duration types = do
    durations ← duration_results check_duration types
    count ← do_check_readings_for_types S types (parameter "minimum_count" params)
    levels ← do_check_reading_levels_for_types S types params
    boundary ← do_check_readings_on_minute_boundary S types
    let mrids = do_check_reading_type_mrids_match_pen S types pen
    pure (merge_checks (durations ++ count ∷ levels ∷ boundary ∷ mrids ∷ []))

  abbrev pub check_found :
      Dict Resolved
      → ℤ
      → (uom location qualifier : String) (check_duration : Bool)
      → (found : List SiteReadingType × List SiteReadingType) → Query S CheckResult
  check_found params pen uom location qualifier check_duration ([], incorrect) = pure (
      merge_checks
        (unexpected_flags uom location qualifier incorrect ++ no_mup uom location qualifier ∷ []))
  check_found params pen uom location qualifier check_duration (t ∷ types, incorrect) =
      check_parts params pen check_duration (t ∷ types)

  unfoldable pub do_check_site_readings_and_params :
      Dict Resolved
      → ℤ
      → (uom location qualifier kind : String) (check_duration : Bool) → Query S CheckResult
  unfolding check_parts merge_checks
  do_check_site_readings_and_params params pen uom location qualifier kind check_duration = do
    found ← get_csip_aus_site_reading_types_partitioned S uom location kind qualifier
    check_found params pen uom location qualifier check_duration found

  abbrev average : (uom location : String) → Dict Resolved → ℤ → Query S CheckResult
  average uom location params pen =
      do_check_site_readings_and_params params pen uom location "AVERAGE" "POWER" true

  unfoldable pub check_readings_site_active_power : Dict Resolved → ℤ → Query S CheckResult
  check_readings_site_active_power = average "REAL_POWER_WATT" "SITE_READING"

  unfoldable pub check_readings_site_reactive_power : Dict Resolved → ℤ → Query S CheckResult
  check_readings_site_reactive_power = average "REACTIVE_POWER_VAR" "SITE_READING"

  unfoldable pub check_readings_voltage : Dict Resolved → ℤ → Query S CheckResult
  check_readings_voltage params pen = do
    site ← average "VOLTAGE" "SITE_READING" params pen
    if site.passed then pure site else (do
      device ← average "VOLTAGE" "DEVICE_READING" params pen
      pure (if device.passed then device else merge_checks (site ∷ device ∷ [])))

  unfoldable pub check_readings_der_active_power : Dict Resolved → ℤ → Query S CheckResult
  check_readings_der_active_power = average "REAL_POWER_WATT" "DEVICE_READING"

  unfoldable pub check_readings_der_reactive_power : Dict Resolved → ℤ → Query S CheckResult
  check_readings_der_reactive_power = average "REACTIVE_POWER_VAR" "DEVICE_READING"

  unfoldable pub check_readings_der_stored_energy : Dict Resolved → ℤ → Query S CheckResult
  check_readings_der_stored_energy params pen =
      do_check_site_readings_and_params params pen "REAL_ENERGY_WATT_HOURS" "DEVICE_READING"
        "NOT_APPLICABLE" "ENERGY" false

-- ===== src/Tests/Messages.antt =====
-- The checks on messages, on flags and on readings, on sample rows.
use cactus_runner.Prelude.{
  ℕ, suc, String, true, false, List, [], ◌∷◌, none, some, ◌≡◌, ◌≢◌, ◌↔◌, ◌⊎◌, refl, All, concat,
}
use cactus_runner.Prelude.Int.{pos}
use cactus_runner.Exec.{ok}
use cactus_runner.Models.{CheckResult}
use cactus_runner.Services.{
  Services, Site, SiteReadingType, SiteReading, SiteControlRow, ControlResponse, Field, hexadecimal,
}
use cactus_runner.MessageChecks.{match_all_responses}
use cactus_runner.MessageChecks.Passing.{HasResponse, match_all_responses-passed}
use cactus_runner.DerChecks.{bits_set}
use cactus_runner.DerChecks.Bits.{HasBits, bits_set-HasBits}
use cactus_runner.ReadingChecks.{readings_result, count_durations, durations_result}
use cactus_runner.ReadingChecks.Combined.{do_check_site_readings_and_params, check_readings_voltage}
use cactus_runner.ReadingChecks.Passing.{IsOfPen, do_check_site_readings_and_params-passed}
use cactus_runner.EnvoyCommon.Asking.{IsAsked}
use cactus_runner.Tests.Samples.{services}

abbrev control : SiteControlRow
control = record {
  dynamic_operating_envelope_id = pos 4;
  site_id = pos 1;
  site_control_group_id = pos 1;
  superseded = false;
  start_time = 0;
  duration_seconds = 300;
  changed_time = 0;
  limits = record {
    import_limit = none;
    export_limit = none;
    load_limit = none;
    generation_limit = none;
    storage_target = none;
  };
  deleted_time = none;
  archive_time = none;
}

abbrev response : ControlResponse
response = record {
  dynamic_operating_envelope_id_snapshot = pos 4;
  created_time = 0;
  response_type = some (pos 1);
}

match_all_responses-passed_example :
    ((match_all_responses services "RECEIVED" (control ∷ []) (response ∷ [])).passed ≡ true)
    ↔ All (HasResponse (response ∷ [])) (control ∷ [])
match_all_responses-passed_example =
    match_all_responses-passed services "RECEIVED" (control ∷ []) (response ∷ [])

abbrev modes_field : Field
modes_field = record {
  key = "modes_enabled_set";
  alias = "modesEnabled_set";
  type = hexadecimal;
  property = none;
}

bits_set-HasBits_example : (bits_set services "DERSetting" modes_field 13 5 ≡ []) ↔ HasBits 13 5
bits_set-HasBits_example = bits_set-HasBits services "DERSetting" modes_field 13 5

abbrev pub reading_type : SiteReadingType
reading_type = record {
  site_reading_type_id = pos 7;
  aggregator_id = pos 1;
  site_id = pos 1;
  uom = "VOLTAGE";
  kind = "POWER";
  data_qualifier = "AVERAGE";
  flow_direction = pos 1;
  accumulation_behaviour = pos 12;
  phase = pos 0;
  role_flags = "SITE_READING";
  power_of_ten_multiplier = pos 0;
  mrid = "ABC00000064";
  group_id = pos 1;
  group_mrid = "DEF00000064";
  created_time = 0;
}

abbrev pub reading : SiteReading
reading = record {
  site_reading_type_id = pos 7;
  created_time = 0;
  changed_time = 0;
  time_period_start = 60000000;
  time_period_seconds = pos 300;
  value = pos 230;
}

abbrev pub site : Site
site = record {
  site_id = pos 1;
  changed_time = 0;
  lfdi = "";
  sfdi = pos 0;
  nmi = none;
  aggregator_id = pos 1;
  timezone_id = "";
  device_category = 0;
}

-- A server that holds one voltage reading at the site, and a test whose PEN is that of its type.
abbrev metered : Services
metered = record services {
  sites = λ n. (ok (site ∷ []), n);
  site_reading_types = λ n. (ok (reading_type ∷ []), n);
  site_readings = λ n. (ok (reading ∷ []), n);
  int_of = λ v. ok (pos 64);
}

abbrev voltage_result : CheckResult
voltage_result = record {
  passed = true;
  description = some (
      concat "All readings have a valid time_period_seconds set\n" (
        concat "All  reading(s) align on minute boundaries from  MirrorUsagePoint(s) and "
          " MirrorMeterReading(s).\nAll MRIDS and group MRIDS for the site readings types match the supplied Private Enterprise Number (PEN)."));
}

do_check_site_readings_and_params-passed_example :
    ((reading_type ∷ []) ≢ [])
    × All (IsAsked "VOLTAGE" "SITE_READING" "POWER" "AVERAGE") (reading_type ∷ [])
    × All (IsOfPen metered (pos 64)) (reading_type ∷ [])
unfolding cactus_runner.Exec.◌>>=◌ cactus_runner.Exec.on_option cactus_runner.Exec.pure
    cactus_runner.EnvoyCommon.query_active_site cactus_runner.EnvoyCommon.latest_site
    cactus_runner.EnvoyCommon.sort_by cactus_runner.EnvoyCommon.Readings.is_type_of
    cactus_runner.EnvoyCommon.Readings.get_csip_aus_site_reading_types_partitioned
    cactus_runner.EnvoyCommon.Readings.get_site_readings do_check_site_readings_and_params
    cactus_runner.ReadingChecks.Combined.check_parts check_readings_voltage
    cactus_runner.ReadingChecks.do_check_readings_for_duration
    cactus_runner.ReadingChecks.durations_of durations_result count_durations
    cactus_runner.ReadingChecks.do_check_readings_for_types
    cactus_runner.ReadingChecks.Levels.do_check_reading_levels_for_types
    cactus_runner.ReadingChecks.do_check_readings_on_minute_boundary
    cactus_runner.ReadingChecks.is_of_types cactus_runner.ReadingChecks.boundary_result
    cactus_runner.ReadingChecks.do_check_reading_type_mrids_match_pen
    cactus_runner.ReadingChecks.timestamp_on_minute_boundary
    cactus_runner.ReadingChecks.mrid_matches_pen cactus_runner.SoftChecker.merge_checks
    cactus_runner.SoftChecker.any_failing cactus_runner.SoftChecker.descriptions
    cactus_runner.Prelude.Strings.join cactus_runner.Prelude.Dict.get
    cactus_runner.Actions.Params.parameter
do_check_site_readings_and_params-passed_example =
    do_check_site_readings_and_params-passed metered [] (pos 64) "VOLTAGE" "SITE_READING" "AVERAGE"
      "POWER" true 0 (reading_type ∷ [], []) voltage_result refl refl refl

-- ===== src/Status/Summaries.antt =====
-- status.py: the parts of a status: the checks, the steps and the limits of the device.
use cactus_runner.Prelude.{String, false, List, [], ◌∷◌, Option, none, some}
use cactus_runner.Prelude.Int.{ℤ}
use cactus_runner.Prelude.Dict.{Dict}
use cactus_runner.Exec.{Result, ok, err, pure, lift, try_except, on_option, ◌>>=◌}
use cactus_runner.Definitions.{Time, Check, Preconditions}
use cactus_runner.Models.{RequestEntry, StepInfo, ActiveTestProcedure}
use cactus_runner.Services.{Services, Site, SiteDer}
use cactus_runner.World.{Run, call}
use cactus_runner.EnvoyCommon.{Query, query_active_site}
use cactus_runner.Resolvers.{resolve_named_variable_der_setting_max_w}
use cactus_runner.DerChecks.Contents.{row_of}
use cactus_runner.Check.{run_check}
use cactus_runner.Status.Values.{resolve_value_multiplier}
use cactus_runner.Status.Report.{
  described, unexpected_error, CheckEntry, StepEventStatus, DeviceMax, no_max,
}
use cactus_runner.Status.{get_event_status}

abbrev text_or_empty : Option String → String
text_or_empty none = ""
text_or_empty (some s) = s

-- The limit of one direction, or else setMaxW.
abbrev directional : (limit set_max_w : Option ℤ) → Option ℤ
directional none set_max_w = set_max_w
directional (some w) set_max_w = some w

abbrev label_of : Option ℤ → String → String
label_of none label = "setMaxW"
label_of (some w) label = label

module _ (S : Services) where
  abbrev pub check_entry : List RequestEntry → Check → Run S CheckEntry
  check_entry history check =
      try_except
        (do
          result ← run_check S history check
          pure (record {
            success = result.passed;
            type = check.type;
            details = described (text_or_empty result.description);
          }))
        (λ e. pure (record { success = false; type = check.type; details = unexpected_error e }))

  unfoldable pub check_entries : List RequestEntry → List Check → Run S (List CheckEntry)
  check_entries history [] = pure []
  check_entries history (check ∷ rest) = do
    entry ← check_entry history check
    others ← check_entries history rest
    pure (entry ∷ others)

  unfoldable pub get_criteria_summary :
      List RequestEntry → ActiveTestProcedure → Run S (List CheckEntry)
  get_criteria_summary history p = on_option p.definition.criteria (pure []) (check_entries history)

  abbrev checks_of : Option Preconditions → Option (List Check)
  checks_of none = none
  checks_of (some preconditions) = preconditions.checks

  unfoldable pub get_precondition_checks_summary :
      List RequestEntry → ActiveTestProcedure → Run S (List CheckEntry)
  get_precondition_checks_summary history p =
      on_option (checks_of p.definition.preconditions) (pure []) (check_entries history)

  abbrev pub paired : String → StepInfo → Result (Option String) → Result (String × StepEventStatus)
  paired name info (err e) = err e
  paired name info (ok event_status) = ok (
    name,
    record {
      started_at = info.started_at;
      completed_at = info.completed_at;
      event_status = event_status;
    },
  )

  unfoldable pub step_statuses :
      (now : Time) → ActiveTestProcedure → Dict StepInfo → Run S (Dict StepEventStatus)
  step_statuses now p [] = pure []
  step_statuses now p ((name, info) ∷ rest) = do
    entry ← lift (paired name info (get_event_status S now name info p))
    others ← step_statuses now p rest
    pure (entry ∷ others)

  -- int(…) of the setting, where it can be had
  unfoldable pub status_set_max_w : Run S (Option ℤ)
  status_set_max_w =
      try_except
        (do v ← resolve_named_variable_der_setting_max_w S; n ← lift (S.int_of v); pure (some n))
        (λ e. pure none)

  unfoldable pub max_of_row : (set_max_w : Option ℤ) → SiteDer → DeviceMax
  unfolding resolve_value_multiplier
  max_of_row set_max_w row =
      let discharge =
        resolve_value_multiplier S row.max_discharge_rate_w.value
          row.max_discharge_rate_w.multiplier in
      let charge =
        resolve_value_multiplier S row.max_charge_rate_w.value row.max_charge_rate_w.multiplier in
      record {
        upper_max_w = directional discharge set_max_w;
        upper_max_label = some (label_of discharge "setMaxDischargeRateW");
        lower_max_w = directional charge set_max_w;
        lower_max_label = some (label_of charge "setMaxChargeRateW");
      }

  abbrev max_of_site : (set_max_w : Option ℤ) → List SiteDer → Site → DeviceMax
  max_of_site set_max_w rows site = elim (row_of S site rows) [
    | none ↦ no_max
    | some row ↦ max_of_row set_max_w row
  ]

  unfoldable pub query_device_max : (set_max_w : Option ℤ) → Query S DeviceMax
  unfolding max_of_row
  query_device_max set_max_w = do
    site ← query_active_site S
    on_option site (pure no_max)
        (λ s. do rows ← S.site_der_settings; pure (max_of_site set_max_w rows s))

  unfoldable pub device_max : (set_max_w : Option ℤ) → Run S DeviceMax
  device_max set_max_w = try_except (call S (query_device_max set_max_w)) (λ e. pure no_max)

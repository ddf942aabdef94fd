-- ===== src/DerChecks/Contents.antt =====
-- check.py: the checks on the rows of settings and capability, parameter by parameter.
use cactus_runner.Prelude.{String, List, [], ◌∷◌, Option, none, some, if◌then◌else◌}
use cactus_runner.Prelude.Int.{eqb_ℤ}
use cactus_runner.Prelude.Dict
use cactus_runner.Prelude.Dict.{Dict}
use cactus_runner.Prelude.Strings.{texts}
use cactus_runner.Exec.{Result, ok, err, pure, lift, on_option, ◌>>=◌}
use cactus_runner.Definitions.{of_int}
use cactus_runner.Models.{CheckResult}
use cactus_runner.Services.{Services, Site, SiteDer, Field, Raw}
use cactus_runner.SoftChecker.{fail, finalize}
use cactus_runner.EnvoyCommon.{Query, query_active_site}
use cactus_runner.Evaluator.{ResolvedParam}
use cactus_runner.DeviceChecks.{no_end_device}
use cactus_runner.DerChecks.Fields.{params_der_settings_contents, params_der_capability_contents}
use cactus_runner.DerChecks.{setting_failures, capability_failures, with_failures}

module _ (S : Services) where
  abbrev validated_with :
      Field → Result Raw → Result (List (Field × Raw)) → Result (List (Field × Raw))
  validated_with field (ok raw) (ok rest) = ok ((field, raw) ∷ rest)
  validated_with field (ok raw) (err e) = err e
  validated_with field (err e) _ = err e

  -- model_validate(…): the fields that are set, with their values. The fields stand in the order of
  -- their declaration; model_fields_set is a set, whose order the code leaves open.
  unfoldable pub validated : List Field → Dict ResolvedParam → Result (List (Field × Raw))
  validated [] params = ok []
  validated (field ∷ fields) params =
      let rest = validated fields params in
      elim (Dict.get field.alias params) [
        | none ↦ rest
        | some p ↦ validated_with field (S.validate_field field.type p.value) rest
      ]

  unfoldable pub all_failures :
      (Field → Raw → Result (List CheckResult)) → List (Field × Raw) → Result (List CheckResult)
  all_failures failures_of [] = ok []
  all_failures failures_of ((field, raw) ∷ rest) =
      let others = all_failures failures_of rest in
      elim (failures_of field raw) [ err e ↦ err e | ok failures ↦ with_failures failures others ]

  abbrev finalized : Result (List CheckResult) → Result CheckResult
  finalized (ok failures) = ok (finalize failures)
  finalized (err e) = err e

  -- The result on a row, for the fields of the check and what its loop adds for each.
  unfoldable pub contents_result :
      List Field
      → (Field → Raw → Result (List CheckResult))
      → Dict ResolvedParam
      → Result CheckResult
  unfolding validated all_failures finalize
  contents_result fields failures_of params = elim (validated fields params) [
    | err e ↦ err e
    | ok values ↦ finalized (all_failures failures_of values)
  ]

  abbrev pub row_of : Site → List SiteDer → Option SiteDer
  row_of site [] = none
  row_of site (row ∷ rest) =
      let other = row_of site rest in if eqb_ℤ row.site_id site.site_id then some row else other

  abbrev missing : (label : String) → Site → CheckResult
  missing label site =
      fail (
        texts ("No " ∷ label ∷ " found for EndDevice " ∷ S.format (of_int site.site_id) ∷ "." ∷ []))

  unfoldable pub check_der_settings_contents : Dict ResolvedParam → Query S CheckResult
  unfolding contents_result setting_failures
  check_der_settings_contents params = do
    active ← query_active_site S
    on_option active (pure no_end_device) (λ site. do
      rows ← S.site_der_settings
      on_option (row_of site rows) (pure (missing "DERSetting" site)) (λ row.
          lift
            (contents_result params_der_settings_contents (setting_failures S row params) params)))

  unfoldable pub check_der_capability_contents : Dict ResolvedParam → Query S CheckResult
  unfolding contents_result capability_failures
  check_der_capability_contents params = do
    active ← query_active_site S
    on_option active (pure no_end_device) (λ site. do
      rows ← S.site_der_ratings
      on_option (row_of site rows) (pure (missing "DERCapability" site)) (λ row. lift (
          contents_result params_der_capability_contents (capability_failures S row params)
            params)))

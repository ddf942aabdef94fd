-- ===== src/DerChecks.antt =====
-- check.py: the checks on the settings and the capability of the client's resource.
pub mod Contents
pub mod Fields
pub mod Bits
use cactus_runner.Prelude.{
  ℕ, String, Bool, true, false, not, ◌&&◌, ◌||◌, List, [], ◌∷◌, ◌++◌, Option, none, some, str_eq,
  elem, ◌==◌, if◌then◌else◌,
}
use cactus_runner.Prelude.Int.{ℤ, pos, negsuc, eqb_ℤ}
use cactus_runner.Prelude.Dict
use cactus_runner.Prelude.Dict.{Dict}
use cactus_runner.Prelude.Strings.{texts, rstrip_any}
use cactus_runner.Exec.{type_error, Result, ok, err, pure, lift, on_option, ◌>>=◌}
use cactus_runner.Definitions.{text, BaseExpression, Resolved, scalar, of_int}
use cactus_runner.Models.{CheckResult}
use cactus_runner.Services.{
  Services, Site, SiteDer, Field, Raw, raw_none, raw_bool, raw_text, raw_int,
}
use cactus_runner.SoftChecker.{fail, add, finalize}
use cactus_runner.EnvoyCommon.{Query, query_active_site}
use cactus_runner.Evaluator.{ResolvedParam}
use cactus_runner.DeviceChecks.{bitand, no_end_device}

-- getattr(row, name, None)
abbrev attribute : SiteDer → String → Option ℤ
attribute row name =
    if str_eq name "max_w_value"
    then row.max_w.value
    else if str_eq name "max_va_value"
    then row.max_va.value
    else if str_eq name "max_var_value"
    then row.max_var.value
    else if str_eq name "max_var_neg_value"
    then row.max_var_neg.value
    else if str_eq name "max_charge_rate_w_value"
    then row.max_charge_rate_w.value
    else if str_eq name "max_discharge_rate_w_value"
    then row.max_discharge_rate_w.value
    else if str_eq name "max_wh_value"
    then row.max_wh.value
    else if str_eq name "min_pf_over_excited_displacement"
    then row.min_pf_over_excited.value
    else if str_eq name "min_pf_under_excited_displacement"
    then row.min_pf_under_excited.value
    else Dict.get name row.other_columns

abbrev failed : String → List CheckResult
failed message = add message []

abbrev pub with_failures : List CheckResult → Result (List CheckResult) → Result (List CheckResult)
with_failures failures (ok rest) = ok (failures ++ rest)
with_failures failures (err e) = err e

-- k in ["doe_modes_enabled_set", "modes_enabled_set"], and the like
abbrev settings_set : List String
settings_set = "doe_modes_enabled_set" ∷ "modes_enabled_set" ∷ []

abbrev settings_unset : List String
settings_unset = "doe_modes_enabled_unset" ∷ "modes_enabled_unset" ∷ []

abbrev capability_set : List String
capability_set = "doe_modes_supported_set" ∷ "modes_supported_set" ∷ []

abbrev capability_unset : List String
capability_unset = "doe_modes_supported_unset" ∷ "modes_supported_unset" ∷ []

abbrev to_natural : Option ℤ → Result ℕ
to_natural (some (pos n)) = ok n
to_natural _ = err type_error

module _ (S : Services) where
  -- int(raw_value, 16)
  abbrev raw_bits : Raw → Result ℕ
  raw_bits (raw_text s) = S.int_hex (scalar (text s))
  raw_bits _ = err type_error

  -- The column that a field of bits is about, and the bits of the parameter.
  abbrev with_bits :
      SiteDer
      → (suffix : String) → Field
      → Raw
      → (ℕ → ℕ → List CheckResult)
      → Result (List CheckResult)
  with_bits row suffix field raw compare = elim (raw_bits raw) [
    | err e ↦ err e
    | ok expected ↦ elim (to_natural (attribute row (rstrip_any suffix field.key))) [
      | err e ↦ err e
      | ok found ↦ ok (compare found expected)
    ]
  ]

  unfoldable pub bits_set : (label : String) → Field → (found expected : ℕ) → List CheckResult
  unfolding bitand add
  bits_set label field found expected =
      if bitand found expected == expected
      then []
      else failed
          (texts (label ∷ "." ∷ field.alias ∷ " minimum flag setting check hi (==1) failed" ∷ []))

  unfoldable pub bits_unset : (label : String) → Field → (found expected : ℕ) → List CheckResult
  unfolding bitand add
  bits_unset label field found expected =
      if bitand found expected == 0
      then []
      else failed
          (texts (label ∷ "." ∷ field.alias ∷ " minimum flag setting check lo (==0) failed" ∷ []))

  abbrev expression_failure : String → String → Option ℤ → List CheckResult
  expression_failure alias representation none = failed (
      texts
        (alias ∷ " must satisfy expression '" ∷ representation ∷ "' but is currently not set" ∷ []))
  expression_failure alias representation (some v) = failed (
      texts (
        alias
        ∷ " must satisfy expression '"
        ∷ representation
        ∷ "' but is currently set as: "
        ∷ S.format (of_int v)
        ∷ []))

  unfoldable pub do_field_boolean_expression_evaluated_check :
      SiteDer → Field → BaseExpression → List CheckResult
  unfolding add
  do_field_boolean_expression_evaluated_check row field original = elim field.property [
    | none ↦ []
    | some name ↦
        expression_failure field.alias (S.expression_representation original) (attribute row name)
  ]

  abbrev exists_failure : String → Option ℤ → (expected_to_be_set : Bool) → List CheckResult
  exists_failure alias none true =
      failed (texts (alias ∷ " MUST be set but is currently missing" ∷ []))
  exists_failure alias (some v) false =
      failed (
        texts (alias ∷ " MUST be unset but is currently specified as: " ∷ S.format (of_int v) ∷ []))
  exists_failure alias _ _ = []

  unfoldable pub do_field_exists_check :
      SiteDer → Field → (expected_to_be_set : Bool) → List CheckResult
  unfolding add
  do_field_exists_check row field expected = elim field.property [
    | none ↦ []
    | some name ↦ exists_failure field.alias (attribute row name) expected
  ]

  abbrev expression_of : Dict ResolvedParam → Field → Option BaseExpression
  expression_of params field = elim (Dict.get field.alias params) [
    | none ↦ none
    | some p ↦ p.original_expression
  ]

  -- The branches for a Boolean: an expression that is false, or a column that is to be set or not.
  unfoldable pub boolean_failures : SiteDer → Dict ResolvedParam → Field → Raw → List CheckResult
  unfolding do_field_boolean_expression_evaluated_check do_field_exists_check
  boolean_failures row params field (raw_bool false) = elim (expression_of params field) [
    | some e ↦ do_field_boolean_expression_evaluated_check row field e
    | none ↦ do_field_exists_check row field false
  ]
  boolean_failures row params field (raw_bool true) = do_field_exists_check row field true
  boolean_failures row params field _ = []

  abbrev same_grad_w : Option ℤ → Raw → Bool
  same_grad_w none raw_none = true
  same_grad_w (some n) (raw_int m) = eqb_ℤ n m
  same_grad_w _ _ = false

  abbrev format_column : Option ℤ → String
  format_column none = "None"
  format_column (some n) = S.format (of_int n)

  abbrev format_raw : Raw → String
  format_raw (raw_int n) = S.format (of_int n)
  format_raw _ = "None"

  abbrev grad_w_failure : Option ℤ → Raw → List CheckResult
  grad_w_failure grad_w raw = failed (
      texts (
        "DERSetting.setGradW "
        ∷ format_column grad_w
        ∷ " doesn't match expected "
        ∷ format_raw raw
        ∷ []))

  -- What the loop of check_der_settings_contents adds for one parameter.
  unfoldable pub setting_failures :
      SiteDer → Dict ResolvedParam → Field → Raw → Result (List CheckResult)
  unfolding bits_set bits_unset boolean_failures add rstrip_any
  setting_failures row params field raw =
      let grad_w = attribute row "grad_w" in
      if str_eq field.key "set_grad_w" && not (same_grad_w grad_w raw)
      then ok (grad_w_failure grad_w raw)
      else if elem field.key settings_set
      then with_bits row "_set" field raw (bits_set "DERSetting" field)
      else if elem field.key settings_unset
      then with_bits row "_unset" field raw (bits_unset "DERSetting" field)
      else ok (boolean_failures row params field raw)

  abbrev capability_bits : SiteDer → Field → Raw → Result (List CheckResult)
  capability_bits row field raw =
      if elem field.key capability_set
      then with_bits row "_set" field raw (bits_set "DERCapability" field)
      else ok []

  abbrev capability_rest : SiteDer → Dict ResolvedParam → Field → Raw → Result (List CheckResult)
  capability_rest row params field raw =
      if elem field.key capability_unset
      then with_bits row "_unset" field raw (bits_unset "DERCapability" field)
      else ok (boolean_failures row params field raw)

  -- What the loop of check_der_capability_contents adds for one parameter.
  unfoldable pub capability_failures :
      SiteDer → Dict ResolvedParam → Field → Raw → Result (List CheckResult)
  unfolding bits_set bits_unset boolean_failures rstrip_any
  capability_failures row params field raw = elim (capability_bits row field raw) [
    | err e ↦ err e
    | ok failures ↦ with_failures failures (capability_rest row params field raw)
  ]

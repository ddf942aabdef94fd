-- ===== src/DerChecks/Fields.antt =====
-- check.py: the parameters of the checks on a resource's settings and capability. A field has the
-- name of the model's attribute, the alias that the parameter has, the type of its value, and
-- the column that it is about.
use cactus_runner.Prelude.{String, List, [], ◌∷◌, none, some}
use cactus_runner.Services.{Field, boolean, hexadecimal, integer}

abbrev about : String → String → String → Field
about key alias column = record { key = key; alias = alias; type = boolean; property = some column }

abbrev bits : String → String → Field
bits key alias = record { key = key; alias = alias; type = hexadecimal; property = none }

abbrev pub params_der_settings_contents : List Field
params_der_settings_contents =
    about "doe_modes_enabled" "doeModesEnabled" "doe_modes_enabled"
    ∷ bits "doe_modes_enabled_set" "doeModesEnabled_set"
    ∷ bits "doe_modes_enabled_unset" "doeModesEnabled_unset"
    ∷ bits "modes_enabled_set" "modesEnabled_set"
    ∷ bits "modes_enabled_unset" "modesEnabled_unset"
    ∷ record { key = "set_grad_w"; alias = "setGradW"; type = integer; property = none }
    ∷ about "set_max_w" "setMaxW" "max_w_value"
    ∷ about "set_max_va" "setMaxVA" "max_va_value"
    ∷ about "set_max_var" "setMaxVar" "max_var_value"
    ∷ about "set_max_var_neg" "setMaxVarNeg" "max_var_neg_value"
    ∷ about "set_max_charge_rate_w" "setMaxChargeRateW" "max_charge_rate_w_value"
    ∷ about "set_max_discharge_rate_w" "setMaxDischargeRateW" "max_discharge_rate_w_value"
    ∷ about "set_max_wh" "setMaxWh" "max_wh_value"
    ∷ about "set_min_pf_over_excited" "setMinPFOverExcited" "min_pf_over_excited_displacement"
    ∷ about "set_min_pf_under_excited" "setMinPFUnderExcited" "min_pf_under_excited_displacement"
    ∷ about "set_min_wh" "setMinWh" "min_wh_value"
    ∷ bits "vpp_modes_enabled_set" "vppModesEnabled_set"
    ∷ bits "vpp_modes_enabled_unset" "vppModesEnabled_unset"
    ∷ about "vpp_modes_enabled" "vppModesEnabled" "vpp_modes_enabled"
    ∷ []

abbrev pub params_der_capability_contents : List Field
params_der_capability_contents =
    about "doe_modes_supported" "doeModesSupported" "doe_modes_supported"
    ∷ bits "doe_modes_supported_set" "doeModesSupported_set"
    ∷ bits "doe_modes_supported_unset" "doeModesSupported_unset"
    ∷ bits "modes_supported_set" "modesSupported_set"
    ∷ bits "modes_supported_unset" "modesSupported_unset"
    ∷ about "rtg_max_va" "rtgMaxVA" "max_va_value"
    ∷ about "rtg_max_var" "rtgMaxVar" "max_var_value"
    ∷ about "rtg_max_var_neg" "rtgMaxVarNeg" "max_var_neg_value"
    ∷ about "rtg_max_w" "rtgMaxW" "max_w_value"
    ∷ about "rtg_max_charge_rate_w" "rtgMaxChargeRateW" "max_charge_rate_w_value"
    ∷ about "rtg_max_discharge_rate_w" "rtgMaxDischargeRateW" "max_discharge_rate_w_value"
    ∷ about "rtg_max_wh" "rtgMaxWh" "max_wh_value"
    ∷ about "rtg_min_pf_over_excited" "rtgMinPFOverExcited" "min_pf_over_excited_displacement"
    ∷ about "rtg_min_pf_under_excited" "rtgMinPFUnderExcited" "min_pf_under_excited_displacement"
    ∷ bits "vpp_modes_supported_set" "vppModesSupported_set"
    ∷ bits "vpp_modes_supported_unset" "vppModesSupported_unset"
    ∷ about "vpp_modes_supported" "vppModesSupported" "vpp_modes_supported"
    ∷ []

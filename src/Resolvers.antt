-- ===== src/Resolvers.antt =====
-- resolvers.py: the values of named variables.
pub mod RandomUris
use cactus_runner.Prelude.{
  ℕ, zero, suc, String, List, [], ◌∷◌, Option, none, some, leb, elem, concat, if◌then◌else◌,
}
use cactus_runner.Prelude.Int.{ℤ}
use cactus_runner.Prelude.Dict
use cactus_runner.Exec.{
  on_option, unresolvable_variable_error, pure, raise, lift, try_except, ◌>>=◌, ◌>>◌,
}
use cactus_runner.Definitions.{Value, float, time}
use cactus_runner.Models.{ActiveTestProcedure}
use cactus_runner.Services.{Services, Scaled, SiteDer}
use cactus_runner.World.{Run, optional, call, observe, time_now, the_procedure, update_procedure}

abbrev pub random_uri_attempts : ℕ
random_uri_attempts = 20

-- ORDER BY changed_time DESC LIMIT 1
unfoldable pub latest : List SiteDer → Option SiteDer
latest [] = none
latest (r ∷ rs) = elim (latest rs) [
  | none ↦ some r
  | some m ↦ if leb m.changed_time r.changed_time then some r else some m
]

unfoldable pub set_random_uri : String → String → ActiveTestProcedure → ActiveTestProcedure
set_random_uri key uri p = record p { random_uri_by_key = Dict.set key uri p.random_uri_by_key }

module _ (S : Services) where
  unfoldable pub resolve_named_variable_now : Run S Value
  resolve_named_variable_now = do t ← time_now S; pure (time t)

  unfoldable pub select_single_site_der_setting : Run S SiteDer
  select_single_site_der_setting = do
    rows ← try_except (call S S.site_der_settings) (λ _. raise unresolvable_variable_error)
    lift (optional unresolvable_variable_error (latest rows))

  unfoldable pub select_single_site_der_rating : Run S SiteDer
  select_single_site_der_rating = do
    rows ← try_except (call S S.site_der_ratings) (λ _. raise unresolvable_variable_error)
    lift (optional unresolvable_variable_error (latest rows))

  abbrev pub decimal_value : Scaled → Option (ℤ × ℤ)
  decimal_value s = S.pow10_to_decimal_value s.value s.multiplier

  unfoldable pub or_unresolvable : Option (ℤ × ℤ) → Run S Value
  or_unresolvable none = raise unresolvable_variable_error
  or_unresolvable (some d) = pure (float (S.float_of_decimal d))

  unfoldable pub resolve_setting : (SiteDer → Scaled) → Run S Value
  resolve_setting column = do
    row ← select_single_site_der_setting
    or_unresolvable (decimal_value (column row))

  unfoldable pub resolve_rating : (SiteDer → Scaled) → Run S Value
  resolve_rating column = do
    row ← select_single_site_der_rating
    or_unresolvable (decimal_value (column row))

  -- The directional limit, or the mandatory setMaxW where it is not set.
  unfoldable pub resolve_setting_or_max_w : (SiteDer → Scaled) → Run S Value
  resolve_setting_or_max_w column = do
    row ← select_single_site_der_setting
    or_unresolvable
        (elim (decimal_value (column row)) [ none ↦ decimal_value row.max_w | some d ↦ some d ])

  unfoldable pub resolve_named_variable_der_setting_max_w : Run S Value
  resolve_named_variable_der_setting_max_w = resolve_setting (λ r. r.max_w)

  unfoldable pub resolve_named_variable_der_setting_max_va : Run S Value
  resolve_named_variable_der_setting_max_va = resolve_setting (λ r. r.max_va)

  unfoldable pub resolve_named_variable_der_setting_max_var : Run S Value
  resolve_named_variable_der_setting_max_var = resolve_setting (λ r. r.max_var)

  unfoldable pub resolve_named_variable_der_setting_max_var_neg : Run S Value
  resolve_named_variable_der_setting_max_var_neg = resolve_setting (λ r. r.max_var_neg)

  unfoldable pub resolve_named_variable_der_setting_max_charge_rate_w : Run S Value
  resolve_named_variable_der_setting_max_charge_rate_w = resolve_setting (λ r. r.max_charge_rate_w)

  unfoldable pub resolve_named_variable_der_setting_max_discharge_rate_w : Run S Value
  resolve_named_variable_der_setting_max_discharge_rate_w =
      resolve_setting (λ r. r.max_discharge_rate_w)

  unfoldable pub resolve_named_variable_der_setting_max_import_w : Run S Value
  resolve_named_variable_der_setting_max_import_w =
      resolve_setting_or_max_w (λ r. r.max_charge_rate_w)

  unfoldable pub resolve_named_variable_der_setting_max_export_w : Run S Value
  resolve_named_variable_der_setting_max_export_w =
      resolve_setting_or_max_w (λ r. r.max_discharge_rate_w)

  unfoldable pub resolve_named_variable_der_setting_min_pf_over_excited : Run S Value
  resolve_named_variable_der_setting_min_pf_over_excited =
      resolve_setting (λ r. r.min_pf_over_excited)

  unfoldable pub resolve_named_variable_der_setting_min_pf_under_excited : Run S Value
  resolve_named_variable_der_setting_min_pf_under_excited =
      resolve_setting (λ r. r.min_pf_under_excited)

  unfoldable pub resolve_named_variable_der_setting_max_wh : Run S Value
  resolve_named_variable_der_setting_max_wh = resolve_setting (λ r. r.max_wh)

  unfoldable pub resolve_named_variable_der_rating_max_w : Run S Value
  resolve_named_variable_der_rating_max_w = resolve_rating (λ r. r.max_w)

  unfoldable pub resolve_named_variable_der_rating_max_va : Run S Value
  resolve_named_variable_der_rating_max_va = resolve_rating (λ r. r.max_va)

  unfoldable pub resolve_named_variable_der_rating_max_var : Run S Value
  resolve_named_variable_der_rating_max_var = resolve_rating (λ r. r.max_var)

  unfoldable pub resolve_named_variable_der_rating_max_var_neg : Run S Value
  resolve_named_variable_der_rating_max_var_neg = resolve_rating (λ r. r.max_var_neg)

  unfoldable pub resolve_named_variable_der_rating_max_charge_rate_w : Run S Value
  resolve_named_variable_der_rating_max_charge_rate_w = resolve_rating (λ r. r.max_charge_rate_w)

  unfoldable pub resolve_named_variable_der_rating_max_discharge_rate_w : Run S Value
  resolve_named_variable_der_rating_max_discharge_rate_w =
      resolve_rating (λ r. r.max_discharge_rate_w)

  unfoldable pub resolve_named_variable_der_rating_min_pf_over_excited : Run S Value
  resolve_named_variable_der_rating_min_pf_over_excited =
      resolve_rating (λ r. r.min_pf_over_excited)

  unfoldable pub resolve_named_variable_der_rating_min_pf_under_excited : Run S Value
  resolve_named_variable_der_rating_min_pf_under_excited =
      resolve_rating (λ r. r.min_pf_under_excited)

  unfoldable pub resolve_named_variable_der_rating_max_wh : Run S Value
  resolve_named_variable_der_rating_max_wh = resolve_rating (λ r. r.max_wh)

  unfoldable pub candidate_random_uri : Run S String
  candidate_random_uri = do token ← observe S S.token_urlsafe; pure (concat "/" token)

  -- The loop over the attempts that are left.
  unfoldable pub draw_random_uri : ℕ → String → List String → Run S String
  draw_random_uri zero key existing = raise unresolvable_variable_error
  draw_random_uri (suc left) key existing = do
    candidate ← candidate_random_uri
    let again = draw_random_uri left key existing
    if elem candidate existing
        then again
        else do update_procedure S (set_random_uri key candidate); pure candidate

  unfoldable pub resolve_random_uri : String → Run S String
  resolve_random_uri key = do
    p ← the_procedure S
    on_option (Dict.get key p.random_uri_by_key)
        (draw_random_uri random_uri_attempts key (Dict.values p.random_uri_by_key))
        (λ uri. pure uri)

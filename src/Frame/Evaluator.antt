-- ===== src/Frame/Evaluator.antt =====
-- The evaluator and the resolvers.
use cactus_runner.Prelude.{String, List, [], ◌∷◌, Option, none, some}
use cactus_runner.Prelude.Int.{ℤ}
use cactus_runner.Exec.Preserves.{Preserves, Preserves-bind, preserving_rules}
use cactus_runner.Definitions.{
  NamedVariableType, BaseExpression, constant, named_variable, expression, Entry, plain, variable,
  Parameter, single, several, Parameters,
}
use cactus_runner.Models.{RunnerState}
use cactus_runner.Services.{Services, SiteDer, Scaled}
use cactus_runner.Resolvers
use cactus_runner.Evaluator.{
  random_uri, resolve_named, resolve_variable, do_resolve, resolve_list, resolve_parameter,
  resolve_variable_expressions_from_parameters,
}
use cactus_runner.Frame.{OnRunner, Closed, world_rules}

module _ (S : Services) (Q : RunnerState → Type 0) where
  select_setting : Preserves (OnRunner S Q) (Resolvers.select_single_site_der_setting S)
  unfolding Resolvers.select_single_site_der_setting
  select_setting = search (preserving_rules, world_rules)

  select_rating : Preserves (OnRunner S Q) (Resolvers.select_single_site_der_rating S)
  unfolding Resolvers.select_single_site_der_rating
  select_rating = search (preserving_rules, world_rules)

  or_unresolvable : (d : Option (ℤ × ℤ)) → Preserves (OnRunner S Q) (Resolvers.or_unresolvable S d)
  unfolding Resolvers.or_unresolvable
  or_unresolvable none = search preserving_rules
  or_unresolvable (some d) = search preserving_rules

  ruleset resolver_rules = (preserving_rules, select_setting, select_rating, or_unresolvable)

  pub setting :
      (column : SiteDer → Scaled) → Preserves (OnRunner S Q) (Resolvers.resolve_setting S column)
  unfolding Resolvers.resolve_setting
  setting column = search resolver_rules

  setting_or_max_w :
      (column : SiteDer → Scaled)
      → Preserves (OnRunner S Q) (Resolvers.resolve_setting_or_max_w S column)
  unfolding Resolvers.resolve_setting_or_max_w
  setting_or_max_w column = search resolver_rules

  rating :
      (column : SiteDer → Scaled) → Preserves (OnRunner S Q) (Resolvers.resolve_rating S column)
  unfolding Resolvers.resolve_rating
  rating column = search resolver_rules

  now : Preserves (OnRunner S Q) (Resolvers.resolve_named_variable_now S)
  unfolding Resolvers.resolve_named_variable_now
  now = search (preserving_rules, world_rules)

module _ (S : Services) (Q : RunnerState → Type 0) (closed : Closed S Q) where
  randuri : (key : String) → Preserves (OnRunner S Q) (random_uri S key)
  unfolding random_uri
  randuri key = search (preserving_rules, closed.random_uri)

  named : (v : NamedVariableType) → Preserves (OnRunner S Q) (resolve_named S v)
  unfolding resolve_named Resolvers.resolve_named_variable_der_setting_max_w
      Resolvers.resolve_named_variable_der_setting_max_va
      Resolvers.resolve_named_variable_der_setting_max_var
      Resolvers.resolve_named_variable_der_setting_max_var_neg
      Resolvers.resolve_named_variable_der_setting_max_charge_rate_w
      Resolvers.resolve_named_variable_der_setting_max_discharge_rate_w
      Resolvers.resolve_named_variable_der_setting_max_import_w
      Resolvers.resolve_named_variable_der_setting_max_export_w
      Resolvers.resolve_named_variable_der_setting_min_pf_over_excited
      Resolvers.resolve_named_variable_der_setting_min_pf_under_excited
      Resolvers.resolve_named_variable_der_setting_max_wh
      Resolvers.resolve_named_variable_der_rating_max_w
      Resolvers.resolve_named_variable_der_rating_max_va
      Resolvers.resolve_named_variable_der_rating_max_var
      Resolvers.resolve_named_variable_der_rating_max_var_neg
      Resolvers.resolve_named_variable_der_rating_max_charge_rate_w
      Resolvers.resolve_named_variable_der_rating_max_discharge_rate_w
      Resolvers.resolve_named_variable_der_rating_min_pf_over_excited
      Resolvers.resolve_named_variable_der_rating_min_pf_under_excited
      Resolvers.resolve_named_variable_der_rating_max_wh
  named (NamedVariableType.unsupported_variable n) = search preserving_rules
  named _ = search (now S Q, setting S Q, setting_or_max_w S Q, rating S Q, randuri)

  pub Preserves-resolve_variable :
      (e : BaseExpression) → Preserves (OnRunner S Q) (resolve_variable S e)
  unfolding resolve_variable
  Preserves-resolve_variable (constant v) = search preserving_rules
  Preserves-resolve_variable (named_variable v) = named v
  Preserves-resolve_variable (expression a o b) =
      search (preserving_rules, Preserves-resolve_variable a, Preserves-resolve_variable b)

  entry : (e : Entry) → Preserves (OnRunner S Q) (do_resolve S e)
  unfolding do_resolve
  entry (plain v) = search preserving_rules
  entry (variable e) = search (preserving_rules, Preserves-resolve_variable)

  entries : (es : List Entry) → Preserves (OnRunner S Q) (resolve_list S es)
  unfolding resolve_list
  entries [] = search preserving_rules
  entries (e ∷ es) = Preserves-bind _ _ (entry e) (λ v. search (preserving_rules, entries es))

  parameter : (p : Parameter) → Preserves (OnRunner S Q) (resolve_parameter S p)
  unfolding resolve_parameter
  parameter (single e) = search (preserving_rules, entry)
  parameter (several es) = search (preserving_rules, entries)

  pub Preserves-resolve_parameters :
      (ps : Parameters)
      → Preserves (OnRunner S Q) (resolve_variable_expressions_from_parameters S ps)
  unfolding resolve_variable_expressions_from_parameters
  Preserves-resolve_parameters [] = search preserving_rules
  Preserves-resolve_parameters ((k, p) ∷ ps) =
      Preserves-bind _ _ (parameter p)
        (λ r. search (preserving_rules, Preserves-resolve_parameters ps))

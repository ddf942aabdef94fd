-- ===== src/Evaluator.antt =====
-- evaluator.py: parameters with variable expressions, resolved to values.
use cactus_runner.Prelude.{String, not, List, [], ◌∷◌, Option, none, some}
use cactus_runner.Prelude.Dict.{Dict}
use cactus_runner.Exec.{unresolvable_variable_error, pure, raise, lift, ◌>>=◌}
use cactus_runner.Definitions.{
  Value, bool, text, NamedVariableType, OperationType, BaseExpression, constant, named_variable,
  expression, Entry, plain, variable, Parameter, single, several, Parameters, Resolved, scalar,
  items,
}
use cactus_runner.Services.{Services}
use cactus_runner.World.{Run, optional}
use cactus_runner.Resolvers

pub record ResolvedParam : Type 0 where
  pub value : Resolved
  pub original_expression : Option BaseExpression

-- {k: v.value for k, v in …}
unfoldable pub plain_values : Dict ResolvedParam → Dict Resolved
plain_values [] = []
plain_values ((k, v) ∷ rest) = (k, v.value) ∷ plain_values rest

module _ (S : Services) where
  unfoldable pub random_uri : String → Run S Value
  random_uri key = do uri ← Resolvers.resolve_random_uri S key; pure (text uri)

  -- The `match` on the type of a named variable.
  unfoldable pub resolve_named : NamedVariableType → Run S Value
  resolve_named NamedVariableType.now = Resolvers.resolve_named_variable_now S
  resolve_named NamedVariableType.dersetting_set_max_w =
      Resolvers.resolve_named_variable_der_setting_max_w S
  resolve_named NamedVariableType.dersetting_set_max_va =
      Resolvers.resolve_named_variable_der_setting_max_va S
  resolve_named NamedVariableType.dersetting_set_max_var =
      Resolvers.resolve_named_variable_der_setting_max_var S
  resolve_named NamedVariableType.dersetting_set_max_var_neg =
      Resolvers.resolve_named_variable_der_setting_max_var_neg S
  resolve_named NamedVariableType.dersetting_set_max_charge_rate_w =
      Resolvers.resolve_named_variable_der_setting_max_charge_rate_w S
  resolve_named NamedVariableType.dersetting_set_max_discharge_rate_w =
      Resolvers.resolve_named_variable_der_setting_max_discharge_rate_w S
  resolve_named NamedVariableType.dersetting_set_min_pf_over_excited =
      Resolvers.resolve_named_variable_der_setting_min_pf_over_excited S
  resolve_named NamedVariableType.dersetting_set_min_pf_under_excited =
      Resolvers.resolve_named_variable_der_setting_min_pf_under_excited S
  resolve_named NamedVariableType.dersetting_set_max_wh =
      Resolvers.resolve_named_variable_der_setting_max_wh S
  resolve_named NamedVariableType.dersetting_max_import_w =
      Resolvers.resolve_named_variable_der_setting_max_import_w S
  resolve_named NamedVariableType.dersetting_max_export_w =
      Resolvers.resolve_named_variable_der_setting_max_export_w S
  resolve_named NamedVariableType.dercapability_rtg_max_w =
      Resolvers.resolve_named_variable_der_rating_max_w S
  resolve_named NamedVariableType.dercapability_rtg_max_va =
      Resolvers.resolve_named_variable_der_rating_max_va S
  resolve_named NamedVariableType.dercapability_rtg_max_var =
      Resolvers.resolve_named_variable_der_rating_max_var S
  resolve_named NamedVariableType.dercapability_rtg_max_var_neg =
      Resolvers.resolve_named_variable_der_rating_max_var_neg S
  resolve_named NamedVariableType.dercapability_rtg_max_charge_rate_w =
      Resolvers.resolve_named_variable_der_rating_max_charge_rate_w S
  resolve_named NamedVariableType.dercapability_rtg_max_discharge_rate_w =
      Resolvers.resolve_named_variable_der_rating_max_discharge_rate_w S
  resolve_named NamedVariableType.dercapability_rtg_min_pf_over_excited =
      Resolvers.resolve_named_variable_der_rating_min_pf_over_excited S
  resolve_named NamedVariableType.dercapability_rtg_min_pf_under_excited =
      Resolvers.resolve_named_variable_der_rating_min_pf_under_excited S
  resolve_named NamedVariableType.dercapability_rtg_max_wh =
      Resolvers.resolve_named_variable_der_rating_max_wh S
  resolve_named NamedVariableType.randuri_1 = random_uri "1"
  resolve_named NamedVariableType.randuri_2 = random_uri "2"
  resolve_named NamedVariableType.randuri_3 = random_uri "3"
  resolve_named (NamedVariableType.unsupported_variable _) = raise unresolvable_variable_error

  -- The `match` on the operation; `none` stands for an exception of the operator, or the
  -- ValueError of an unsupported operation.
  unfoldable pub apply_operation : OperationType → Value → Value → Option Value
  apply_operation (OperationType.unsupported_operation _) lhs rhs = none
  apply_operation OperationType.add lhs rhs = S.operator OperationType.add lhs rhs
  apply_operation OperationType.subtract lhs rhs = S.operator OperationType.subtract lhs rhs
  apply_operation OperationType.multiply lhs rhs = S.operator OperationType.multiply lhs rhs
  apply_operation OperationType.divide lhs rhs = S.operator OperationType.divide lhs rhs
  apply_operation OperationType.eq lhs rhs = some (bool (S.equals lhs rhs))
  apply_operation OperationType.ne lhs rhs = some (bool (not (S.equals lhs rhs)))
  apply_operation OperationType.lt lhs rhs = S.operator OperationType.lt lhs rhs
  apply_operation OperationType.lte lhs rhs = S.operator OperationType.lte lhs rhs
  apply_operation OperationType.gt lhs rhs = S.operator OperationType.gt lhs rhs
  apply_operation OperationType.gte lhs rhs = S.operator OperationType.gte lhs rhs

  -- Raises UnresolvableVariableError if anything goes wrong.
  unfoldable pub resolve_variable : BaseExpression → Run S Value
  resolve_variable (constant value) = pure value
  resolve_variable (named_variable v) = resolve_named v
  resolve_variable (expression lhs_operand operation rhs_operand) = do
    lhs ← resolve_variable lhs_operand
    rhs ← resolve_variable rhs_operand
    lift (optional unresolvable_variable_error (apply_operation operation lhs rhs))

  unfoldable pub do_resolve : Entry → Run S (Value × Option BaseExpression)
  do_resolve (plain v) = pure (v, none)
  do_resolve (variable e) = do v ← resolve_variable e; pure (v, some e)

  unfoldable pub resolve_list : List Entry → Run S (List Value)
  resolve_list [] = pure []
  resolve_list (entry ∷ rest) = do
    (value, _) ← do_resolve entry
    values ← resolve_list rest
    pure (value ∷ values)

  unfoldable pub resolve_parameter : Parameter → Run S ResolvedParam
  resolve_parameter (several entries) = do
    values ← resolve_list entries
    pure (record { value = items values; original_expression = none })
  resolve_parameter (single entry) = do
    (value, original) ← do_resolve entry
    pure (record { value = scalar value; original_expression = original })

  unfoldable pub resolve_variable_expressions_from_parameters :
      Parameters → Run S (Dict ResolvedParam)
  resolve_variable_expressions_from_parameters [] = pure []
  resolve_variable_expressions_from_parameters ((k, v) ∷ rest) = do
    resolved ← resolve_parameter v
    others ← resolve_variable_expressions_from_parameters rest
    pure ((k, resolved) ∷ others)

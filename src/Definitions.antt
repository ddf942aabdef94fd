-- ===== src/Definitions.antt =====
-- The part of the test definitions (package cactus_test_definitions) that the runner reads: the
-- dynamically typed parameters, the variable expressions and the shape of a test procedure.
use cactus_runner.Prelude.{
  ℕ, String, Bool, true, false, not, List, [], ◌∷◌, Option, none, some, ◌^◌, ◌==◌, ◌||◌, str_eq,
}
use cactus_runner.Prelude.Int.{ℤ, pos, eqb_ℤ}
use cactus_runner.Prelude.Dict.{Dict}

-- A point in time with its zone: microseconds since the epoch.
abbrev pub Time : Type 0
Time = ℕ

-- A Python value as it stands in a parameter. A float is its 64 bits, a `decimal` its coefficient
-- and exponent, a `span` (timedelta) its microseconds.
pub data Value : Type 0 where
  null : Value
  bool : Bool → Value
  int : ℤ → Value
  float : ℕ → Value
  decimal : ℤ → ℤ → Value
  text : String → Value
  time : Time → Value
  span : ℤ → Value

-- `bool(value)`
unfoldable pub truthy : Value → Bool
truthy null = false
truthy (bool b) = b
truthy (int n) = not (eqb_ℤ n (pos 0))
truthy (float bits) = not (bits == 0 || bits == 2 ^ 63)
truthy (decimal coefficient _) = not (eqb_ℤ coefficient (pos 0))
truthy (text s) = not (str_eq s "")
truthy (time _) = true
truthy (span n) = not (eqb_ℤ n (pos 0))

pub data NamedVariableType : Type 0 where
  now : NamedVariableType
  dersetting_set_max_w dersetting_set_max_va dersetting_set_max_var : NamedVariableType
  dersetting_set_max_var_neg dersetting_set_max_charge_rate_w : NamedVariableType
  dersetting_set_max_discharge_rate_w dersetting_set_min_pf_over_excited : NamedVariableType
  dersetting_set_min_pf_under_excited dersetting_set_max_wh : NamedVariableType
  dersetting_max_import_w dersetting_max_export_w : NamedVariableType
  dercapability_rtg_max_w dercapability_rtg_max_va dercapability_rtg_max_var : NamedVariableType
  dercapability_rtg_max_var_neg dercapability_rtg_max_charge_rate_w : NamedVariableType
  dercapability_rtg_max_discharge_rate_w : NamedVariableType
  dercapability_rtg_min_pf_over_excited : NamedVariableType
  dercapability_rtg_min_pf_under_excited dercapability_rtg_max_wh : NamedVariableType
  randuri_1 randuri_2 randuri_3 : NamedVariableType
  -- a member of a later version of the package
  unsupported_variable : ℕ → NamedVariableType

pub data OperationType : Type 0 where
  add subtract multiply divide eq ne lt lte gt gte : OperationType
  unsupported_operation : ℕ → OperationType

pub data BaseExpression : Type 0 where
  constant : Value → BaseExpression
  named_variable : NamedVariableType → BaseExpression
  expression :
      (lhs_operand : BaseExpression)
      → OperationType
      → (rhs_operand : BaseExpression) → BaseExpression

-- An entry of the parameters: a plain value or something to resolve, alone or in a list.
pub data Entry : Type 0 where
  plain : Value → Entry
  variable : BaseExpression → Entry

pub data Parameter : Type 0 where
  single : Entry → Parameter
  several : List Entry → Parameter

-- What the value of a parameter is once nothing is left to resolve.
pub data Resolved : Type 0 where
  scalar : Value → Resolved
  items : List Value → Resolved

abbrev pub nothing : Resolved
nothing = scalar null

abbrev pub of_int : ℤ → Resolved
of_int n = scalar (int n)

abbrev pub of_optional_int : Option ℤ → Resolved
of_optional_int none = nothing
of_optional_int (some n) = of_int n

abbrev pub is_none : Resolved → Bool
is_none (scalar null) = true
is_none _ = false

-- `bool(parameter)`
unfoldable pub is_truthy : Resolved → Bool
unfolding truthy
is_truthy (scalar v) = truthy v
is_truthy (items []) = false
is_truthy (items (_ ∷ _)) = true

abbrev pub Parameters : Type 0
Parameters = Dict Parameter

pub record Check : Type 0 where
  pub type : String
  pub parameters : Parameters

pub record Action : Type 0 where
  pub type : String
  pub parameters : Parameters

pub record Event : Type 0 where
  pub type : String
  pub parameters : Parameters
  pub checks : Option (List Check)

pub record Step : Type 0 where
  pub event : Event
  pub actions : List Action
  pub instructions : Option (List String)

pub record Preconditions : Type 0 where
  pub immediate_start : Bool
  pub init_actions : Option (List Action)
  pub actions : Option (List Action)
  pub checks : Option (List Check)
  pub instructions : Option (List String)

pub record TestProcedure : Type 0 where
  pub steps : Dict Step
  pub preconditions : Option Preconditions
  pub criteria : Option (List Check)

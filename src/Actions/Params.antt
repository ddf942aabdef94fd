-- ===== src/Actions/Params.antt =====
-- Reading resolved parameters, with the exceptions of a value of another type.
use cactus_runner.Prelude.{
  String, Bool, true, false, List, [], ◌∷◌, Option, none, some, str_eq, ◌||◌,
}
use cactus_runner.Prelude.Int.{ℤ, pos}
use cactus_runner.Prelude.Dict
use cactus_runner.Prelude.Dict.{Dict}
use cactus_runner.Prelude.Strings.{contains}
use cactus_runner.Exec.{key_error, type_error, Result, ok, err}
use cactus_runner.Definitions.{Value, null, bool, int, text, Resolved, scalar, items, nothing}
use cactus_runner.Services.{Services}
use cactus_runner.World.{optional}

-- resolved_parameters[key]
unfoldable pub mandatory : String → Dict Resolved → Result Resolved
mandatory key params = optional key_error (Dict.get key params)

-- resolved_parameters.get(key, None)
unfoldable pub parameter : String → Dict Resolved → Resolved
parameter key params = Dict.get_or key nothing params

-- The parameters that are declared `str` or `int`.
unfoldable pub as_text : Resolved → Result String
as_text (scalar (text s)) = ok s
as_text _ = err type_error

unfoldable pub as_int : Resolved → Result ℤ
as_int (scalar (int n)) = ok n
as_int (scalar (bool true)) = ok (pos 1)
as_int (scalar (bool false)) = ok (pos 0)
as_int _ = err type_error

-- The parameters that are declared `int | None`.
unfoldable pub as_optional_int : Resolved → Result (Option ℤ)
as_optional_int (scalar null) = ok none
as_optional_int value = elim (as_int value) [ ok n ↦ ok (some n) | err e ↦ err e ]

-- `step in names`, for a list of names; in a text it looks for a part.
unfoldable pub names_step : List Value → String → Bool
names_step [] step = false
names_step (text name ∷ rest) step = str_eq name step || names_step rest step
names_step (_ ∷ rest) step = names_step rest step

unfoldable pub step_in : Resolved → String → Result Bool
unfolding names_step
step_in (items names) step = ok (names_step names step)
step_in (scalar (text names)) step = ok (contains step names)
step_in (scalar _) step = err type_error

module _ (S : Services) where
  -- `a == b`
  unfoldable pub same : Resolved → Resolved → Bool
  same (scalar a) (scalar b) = S.equals a b
  same _ _ = false

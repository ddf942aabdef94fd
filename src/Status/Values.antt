-- ===== src/Status/Values.antt =====
-- status.py: how the values of the database are shown.
use cactus_runner.Prelude.{
  ℕ, suc, ◌^◌, String, Bool, not, List, [], ◌∷◌, Option, none, some, ◌==◌, if◌then◌else◌,
}
use cactus_runner.Prelude.Int.{ℤ, pos, negsuc, scale_ℤ}
use cactus_runner.Services.{Services}
use cactus_runner.DeviceChecks.{bitand}

module _ (S : Services) where
  -- value * 10 ** multiplier
  unfoldable pub resolve_value_multiplier : (value multiplier : Option ℤ) → Option ℤ
  resolve_value_multiplier none multiplier = none
  resolve_value_multiplier (some value) none = some value
  resolve_value_multiplier (some value) (some (pos e)) = some (scale_ℤ (10 ^ e) value)
  resolve_value_multiplier (some value) (some (negsuc e)) = some (S.scaled_down value (suc e))

  -- bool(bitmap & flag), for a flag of one bit or more; of a negative bitmap in two's complement
  abbrev has_flag : ℤ → ℕ → Bool
  has_flag (pos bitmap) flag = not (bitand bitmap flag == 0)
  has_flag (negsuc n) flag = not (bitand flag n == flag)

  abbrev flag_names : ℤ → List (String × ℕ) → List String
  flag_names bitmap [] = []
  flag_names bitmap ((name, flag) ∷ members) =
      let others = flag_names bitmap members in
      if has_flag bitmap flag then name ∷ others else others

  unfoldable pub resolve_intflag : (bitmap : Option ℤ) (flag_type : String) → Option (List String)
  unfolding bitand
  resolve_intflag none flag_type = none
  resolve_intflag (some bitmap) flag_type = some (flag_names bitmap (S.flag_members flag_type))

  unfoldable pub resolve_intenum : (value : Option ℤ) (enum_type : String) → Option String
  resolve_intenum none enum_type = none
  resolve_intenum (some value) enum_type = S.enum_name enum_type value

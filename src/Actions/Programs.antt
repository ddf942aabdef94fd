-- ===== src/Actions/Programs.antt =====
-- set-default-der-control, create-der-program, cancel-active-der-controls and
-- remove-function-set-assignment: the site control groups of the utility server.
use cactus_runner.Prelude.{
  List, ℕ, ◌+◌, String, Bool, [], ◌∷◌, Option, none, some, length, concat, if◌then◌else◌,
}
use cactus_runner.Prelude.Int.{ℤ, pos}
use cactus_runner.Prelude.Dict
use cactus_runner.Prelude.Dict.{Dict}
use cactus_runner.Exec.{generic_exception, pure, raise, lift, for_each, ◌>>=◌}
use cactus_runner.Definitions.{
  Resolved, scalar, nothing, of_int, of_optional_int, is_none, is_truthy,
}
use cactus_runner.Models.{ActiveTestProcedure}
use cactus_runner.Services.{
  Services, SiteControlGroup, post_site_control_default, put_site_control_group,
  delete_site_controls_in_range,
}
use cactus_runner.World.{Run, call, send, update_procedure}
use cactus_runner.EnvoyCommon.{get_all_site_control_groups}
use cactus_runner.Actions.Params.{mandatory, parameter, as_int, as_text, same}

-- What a limit becomes: its value, the reset of a cancelled default, or no change.
unfoldable pub default_update : Bool → Resolved → Option Resolved
default_update cancelled limit =
    if is_none limit then (if cancelled then some nothing else none) else some limit

unfoldable pub tag_program : String → ℤ → ActiveTestProcedure → ActiveTestProcedure
tag_program tag group p = record p {
  resource_annotations = record (p.resource_annotations) {
    der_program_ids_by_alias = Dict.set tag group p.resource_annotations.der_program_ids_by_alias;
  };
}

-- datetime(2000, 1, 1) and datetime(2100, 1, 1)
abbrev pub year_2000 : ℕ
year_2000 = 946684800000000

abbrev pub year_2100 : ℕ
year_2100 = 4102444800000000

module _ (S : Services) where
  unfoldable pub first_group : List SiteControlGroup → Run S ℤ
  first_group [] = raise generic_exception
  first_group (g ∷ _) = pure g.site_control_group_id

  -- The nominated program, or the first one.
  unfoldable pub default_program : Resolved → Run S ℤ
  default_program derp_id =
      if is_none derp_id
      then (do groups ← call S S.first_site_control_groups; first_group groups)
      else lift (as_int derp_id)

  unfoldable pub action_set_default_der_control : Dict Resolved → Run S (Unit {0})
  action_set_default_der_control params = do
    let update = λ (name : String).
        default_update (is_truthy (parameter "cancelled" params)) (parameter name params)
    derp_id ← default_program (parameter "derp_id" params)
    send S (
        post_site_control_default derp_id (record {
          import_limit_watts = update "opModImpLimW";
          export_limit_watts = update "opModExpLimW";
          generation_limit_watts = update "opModGenLimW";
          load_limit_watts = update "opModLoadLimW";
          ramp_rate_percent_per_second = update "setGradW";
        }))

  -- int(parameter)
  unfoldable pub int_of : Resolved → Run S ℤ
  int_of (scalar v) = lift (S.int_of v)
  int_of _ = raise generic_exception

  unfoldable pub shared_display_id : Resolved → Run S Resolved
  shared_display_id end_device_indexes =
      if is_truthy end_device_indexes
      then (do groups ← get_all_site_control_groups S; pure (of_int (pos (length groups + 1))))
      else pure nothing

  unfoldable pub action_create_der_program : Dict Resolved → Run S (Unit {0})
  action_create_der_program params = do
    primacy_param ← lift (mandatory "primacy" params)
    primacy ← int_of primacy_param
    fsa_id ← int_of (Dict.get_or "fsa_id" (of_int (pos 1)) params)
    display_id ← shared_display_id (parameter "end_device_indexes" params)
    group ← call S (
        S.post_site_control_group (record {
          description = concat "Primacy " (S.format (of_int primacy));
          primacy = of_int primacy;
          fsa_id = of_int fsa_id;
          display_id = display_id;
        }))
    let tag = parameter "tag" params
    if is_none tag
        then pure tt
        else do key ← lift (as_text tag); update_procedure S (tag_program key group)

  unfoldable pub action_cancel_active_controls : Run S (Unit {0})
  action_cancel_active_controls = do
    groups ← call S S.get_all_site_control_groups
    for_each
        (λ (g : SiteControlGroup).
          send S (delete_site_controls_in_range g.site_control_group_id year_2000 year_2100))
        groups

  unfoldable pub unassign : Resolved → SiteControlGroup → Run S (Unit {0})
  unassign fsa_id g =
      if same S (of_optional_int g.fsa_id) fsa_id
      then send S (
          put_site_control_group g.site_control_group_id (record {
            description = g.description;
            primacy = of_int g.primacy;
            fsa_id = nothing;
            display_id = of_optional_int g.display_id;
          }))
      else pure tt

  unfoldable pub action_remove_function_set_assignment : Dict Resolved → Run S (Unit {0})
  action_remove_function_set_assignment params = do
    fsa_id ← lift (mandatory "fsa_id" params)
    groups ← get_all_site_control_groups S
    for_each (unassign fsa_id) groups

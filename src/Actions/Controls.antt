-- ===== src/Actions/Controls.antt =====
-- create-der-control: a control on one or several sites, under a program that is found or made.
use cactus_runner.Prelude.{
  ℕ, ◌+◌, ◌*◌, ◌/◌, ◌%◌, ◌^◌, String, Bool, ◌&&◌, ◌||◌, List, [], ◌∷◌, Option, none, some, ltb, leb,
  length, get_elem?, concat, if◌then◌else◌,
}
use cactus_runner.Prelude.Int.{ℤ, pos, negsuc, leb_ℤ}
use cactus_runner.Prelude.Dict
use cactus_runner.Prelude.Dict.{Dict}
use cactus_runner.Exec.{
  on_option, failed_action_error, generic_exception, type_error, Result, ok, err, pure, raise, lift,
  for_each, ◌>>=◌, ◌>>◌,
}
use cactus_runner.Definitions.{
  Value, Resolved, scalar, items, nothing, of_int, of_optional_int, is_none, is_truthy,
}
use cactus_runner.Models.{ActiveTestProcedure}
use cactus_runner.Services.{
  Services, Site, SiteControlGroup, SiteControlRequest, SiteControlResponse, create_site_controls,
  update_runtime_config,
}
use cactus_runner.World.{Run, optional, call, send, time_now, the_procedure, update_procedure}
use cactus_runner.EnvoyCommon.{
  get_active_site, get_all_sites, count_all_site_controls_with_cancelled,
}
use cactus_runner.Actions.Params.{mandatory, parameter, as_int, as_text, same}
use cactus_runner.Actions.Server.{no_config}

-- A site for each index; an index out of range raises.
unfoldable pub site_at : List Site → ℤ → Result ℤ
site_at sites (negsuc _) = err generic_exception
site_at sites (pos n) = elim (get_elem? sites n) [
  | none ↦ err generic_exception
  | some s ↦ ok s.site_id
]

unfoldable pub tag_control : String → ℤ → ActiveTestProcedure → ActiveTestProcedure
tag_control tag control p = record p {
  resource_annotations = record (p.resource_annotations) {
    der_control_ids_by_alias = Dict.set tag control p.resource_annotations.der_control_ids_by_alias;
  };
}

-- existing_control_count << 32 | (now_seconds & 0xFFFFFFFF): the two parts share no bit.
unfoldable pub shared_control_id : (existing now_seconds : ℕ) → ℕ
shared_control_id existing now_seconds = existing * 2 ^ 32 + now_seconds % 2 ^ 32

-- sorted(controls, key=created_time, reverse=True)[0]
unfoldable pub newest_control : List SiteControlResponse → Option SiteControlResponse
newest_control [] = none
newest_control (c ∷ rest) = elim (newest_control rest) [
  | none ↦ some c
  | some m ↦ if leb m.created_time c.created_time then some c else some m
]

abbrev max_ℤ : ℤ → ℤ → ℤ
max_ℤ a b = if leb_ℤ a b then b else a

module _ (S : Services) where
  unfoldable pub site_ids_at : List Site → List Value → Run S (List ℤ)
  site_ids_at sites [] = pure []
  site_ids_at sites (index ∷ rest) = do
    n ← lift (as_int (scalar index))
    site_id ← lift (site_at sites n)
    site_ids ← site_ids_at sites rest
    pure (site_id ∷ site_ids)

  unfoldable pub indexes_of : Resolved → Run S (List Value)
  indexes_of (items indexes) = pure indexes
  indexes_of (scalar _) = raise type_error

  -- The sites that the control is for and, where they share it, its display id.
  unfoldable pub control_targets : Resolved → Run S (List ℤ × Resolved)
  control_targets end_device_indexes =
      if is_truthy end_device_indexes
      then (do
        sites ← get_all_sites S
        indexes ← indexes_of end_device_indexes
        site_ids ← site_ids_at sites indexes
        existing ← count_all_site_controls_with_cancelled S none
        now ← time_now S
        pure (site_ids, of_int (pos (shared_control_id existing (now / 1000000)))))
      else (do
        active_site ← get_active_site S
        on_option active_site (raise generic_exception) (λ site. pure (site.site_id ∷ [], nothing)))

  -- The first group with the primacy and, if one is asked for, the function set assignment.
  unfoldable pub find_group : (primacy fsa_id : Resolved) → List SiteControlGroup → Option ℤ
  find_group primacy fsa_id [] = none
  find_group primacy fsa_id (g ∷ rest) =
      if same S (of_int g.primacy) primacy
        && (is_none fsa_id || same S fsa_id (of_optional_int g.fsa_id))
      then some g.site_control_group_id
      else find_group primacy fsa_id rest

  unfoldable pub tagged_group : Resolved → Run S ℤ
  tagged_group der_program_tag = do
    tag ← lift (as_text der_program_tag)
    p ← the_procedure S
    lift (optional generic_exception (Dict.get tag p.resource_annotations.der_program_ids_by_alias))

  unfoldable pub matching_group : (primacy fsa_id : Resolved) → Run S ℤ
  matching_group primacy fsa_id = do
    groups ← call S S.get_all_site_control_groups
    on_option (find_group primacy fsa_id groups)
        (call S (
          S.post_site_control_group (record {
            description = concat "Primacy " (S.format primacy);
            primacy = primacy;
            fsa_id = if is_none fsa_id then of_int (pos 1) else fsa_id;
            display_id = nothing;
          })))
        (λ group. pure group)

  unfoldable pub control_group : Dict Resolved → Run S ℤ
  control_group params =
      let tag = parameter "der_program_tag" params in
      if is_none tag
      then matching_group (Dict.get_or "primacy" (of_int (pos 0)) params)
          (parameter "fsa_id" params)
      else tagged_group tag

  -- `value is None or value == 0`
  unfoldable pub is_absent_limit : Resolved → Bool
  is_absent_limit v = is_none v || same S v (of_int (pos 0))

  unfoldable pub to_float : Resolved → Run S ℕ
  to_float (scalar v) = lift (S.float_of v)
  to_float (items _) = raise type_error

  -- The loop over the watt values, with the multiplier reached so far.
  unfoldable pub effective_pow10_multiplier : ℤ → List Resolved → Run S ℤ
  effective_pow10_multiplier effective [] = pure effective
  effective_pow10_multiplier effective (value ∷ rest) = do
    next ← if is_absent_limit value then pure effective else (do
      watts ← to_float value
      pure (
          if S.exceeds_int16 watts effective
          then max_ℤ effective (S.required_multiplier watts)
          else effective))
    effective_pow10_multiplier next rest

  unfoldable pub configure_multiplier : Dict Resolved → Run S (Unit {0})
  configure_multiplier params =
      let requested = parameter "pow_10_multipliers" params in
      if is_none requested then pure tt else (do
        n ← lift (as_int requested)
        effective ← effective_pow10_multiplier n (
            parameter "opModImpLimW" params
            ∷ parameter "opModExpLimW" params
            ∷ parameter "opModGenLimW" params
            ∷ parameter "opModLoadLimW" params
            ∷ [])
        send S (
            update_runtime_config
              (record no_config { site_control_pow10_encoding = of_int effective })))

  unfoldable pub control_request :
      (start duration display_id : Resolved) → Dict Resolved → ℤ → SiteControlRequest
  control_request start duration display_id params site_id = record {
    site_id = site_id;
    duration_seconds = duration;
    start_time = start;
    randomize_start_seconds = parameter "randomizeStart_seconds" params;
    display_id = display_id;
    set_energized = parameter "opModEnergize" params;
    set_connect = parameter "opModConnect" params;
    import_limit_watts = parameter "opModImpLimW" params;
    export_limit_watts = parameter "opModExpLimW" params;
    generation_limit_watts = parameter "opModGenLimW" params;
    load_limit_watts = parameter "opModLoadLimW" params;
    set_point_percentage = parameter "opModFixedW" params;
    ramp_time_seconds = parameter "ramp_time_seconds" params;
  }

  unfoldable pub annotate_control : Resolved → ℤ → Run S (Unit {0})
  annotate_control annotation group = if is_none annotation then pure tt else (do
    controls ← call S (S.get_all_site_controls group)
    control ← lift (optional failed_action_error (newest_control controls))
    tag ← lift (as_text annotation)
    update_procedure S (tag_control tag control.site_control_id))

  unfoldable pub action_create_der_control : Dict Resolved → Run S (Unit {0})
  action_create_der_control params = do
    start ← lift (mandatory "start" params)
    duration ← lift (mandatory "duration_seconds" params)
    let annotation = parameter "tag" params
    (site_ids, display_id) ← control_targets (parameter "end_device_indexes" params)
    if ltb 1 (length site_ids) && is_truthy annotation then raise generic_exception else (do
      group ← control_group params
      configure_multiplier params
      for_each
          (λ (site_id : ℤ). send S (
            create_site_controls group
              (control_request start duration display_id params site_id ∷ [])))
          site_ids
      annotate_control annotation group)

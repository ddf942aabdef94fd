-- ===== src/Frame/Server.antt =====
-- The actions on the utility server.
use cactus_runner.Prelude.{List, [], ◌∷◌, Option}
use cactus_runner.Prelude.Int.{ℤ}
use cactus_runner.Prelude.Dict.{Dict}
use cactus_runner.Exec.Preserves.{Preserves, Preserves-bind, Preserves-for_each, preserving_rules}
use cactus_runner.Definitions.{Value, Resolved, scalar, items}
use cactus_runner.Models.{ActiveTestProcedure, RunnerState}
use cactus_runner.Services.{Services, Site, NewSite, SiteControlGroup, RuntimeServerConfigRequest}
use cactus_runner.EnvoyCommon
use cactus_runner.Actions.Programs
use cactus_runner.Actions.Controls
use cactus_runner.Actions.Server
use cactus_runner.Actions.Devices
use cactus_runner.Frame.{OnRunner, world_rules}

module _ (S : Services) (Q : RunnerState → Type 0) where
  active_site : Preserves (OnRunner S Q) (EnvoyCommon.get_active_site S)
  unfolding EnvoyCommon.get_active_site
  active_site = search (preserving_rules, world_rules)

  pub Preserves-get_all_sites : Preserves (OnRunner S Q) (EnvoyCommon.get_all_sites S)
  unfolding EnvoyCommon.get_all_sites
  Preserves-get_all_sites = search (preserving_rules, world_rules)

  all_groups : Preserves (OnRunner S Q) (EnvoyCommon.get_all_site_control_groups S)
  unfolding EnvoyCommon.get_all_site_control_groups
  all_groups = search (preserving_rules, world_rules)

  control_count :
      (site : Option ℤ)
      → Preserves (OnRunner S Q) (EnvoyCommon.count_all_site_controls_with_cancelled S site)
  unfolding EnvoyCommon.count_all_site_controls_with_cancelled
  control_count site = search (preserving_rules, world_rules)

  indexes_of : (v : Resolved) → Preserves (OnRunner S Q) (Controls.indexes_of S v)
  unfolding Controls.indexes_of
  indexes_of (scalar v) = search preserving_rules
  indexes_of (items vs) = search preserving_rules

  site_ids :
      (sites : List Site) (vs : List Value)
      → Preserves (OnRunner S Q) (Controls.site_ids_at S sites vs)
  unfolding Controls.site_ids_at
  site_ids sites [] = search preserving_rules
  site_ids sites (v ∷ vs) = Preserves-bind _ _ (search preserving_rules) (λ n.
      Preserves-bind _ _ (search preserving_rules)
        (λ i. search (preserving_rules, site_ids sites vs)))

  pub Preserves-display_id :
      (v : Resolved) → Preserves (OnRunner S Q) (Programs.shared_display_id S v)
  unfolding Programs.shared_display_id
  Preserves-display_id v = search (preserving_rules, all_groups)

  pub Preserves-int_of : (v : Resolved) → Preserves (OnRunner S Q) (Programs.int_of S v)
  unfolding Programs.int_of
  Preserves-int_of (scalar v) = search preserving_rules
  Preserves-int_of (items vs) = search preserving_rules

  first_group : (gs : List SiteControlGroup) → Preserves (OnRunner S Q) (Programs.first_group S gs)
  unfolding Programs.first_group
  first_group [] = search preserving_rules
  first_group (g ∷ gs) = search preserving_rules

  default_program : (v : Resolved) → Preserves (OnRunner S Q) (Programs.default_program S v)
  unfolding Programs.default_program
  default_program v = search (preserving_rules, world_rules, first_group)

  pub Preserves-set_default_der_control :
      (params : Dict Resolved)
      → Preserves (OnRunner S Q) (Programs.action_set_default_der_control S params)
  unfolding Programs.action_set_default_der_control
  Preserves-set_default_der_control params = search (preserving_rules, world_rules, default_program)

  pub Preserves-cancel_active_controls :
      Preserves (OnRunner S Q) (Programs.action_cancel_active_controls S)
  unfolding Programs.action_cancel_active_controls
  Preserves-cancel_active_controls = search (preserving_rules, world_rules)

  unassign :
      (fsa_id : Resolved) (g : SiteControlGroup)
      → Preserves (OnRunner S Q) (Programs.unassign S fsa_id g)
  unfolding Programs.unassign
  unassign fsa_id g = search (preserving_rules, world_rules)

  pub Preserves-remove_function_set_assignment :
      (params : Dict Resolved)
      → Preserves (OnRunner S Q) (Programs.action_remove_function_set_assignment S params)
  unfolding Programs.action_remove_function_set_assignment
  Preserves-remove_function_set_assignment params =
      Preserves-bind _ _ (search preserving_rules) (λ fsa_id.
        Preserves-bind _ _ all_groups (λ groups. Preserves-for_each groups _ (unassign fsa_id)))

  rates : (r : RuntimeServerConfigRequest) → Preserves (OnRunner S Q) (Server.send_rates S r)
  unfolding Server.send_rates
  rates r = search (preserving_rules, world_rules)

  post_rate : (rate : Resolved) → Preserves (OnRunner S Q) (Server.send_post_rate S rate)
  unfolding Server.send_post_rate
  post_rate rate = search (preserving_rules, world_rules, active_site)

  pub Preserves-set_comms_rate :
      (params : Dict Resolved) → Preserves (OnRunner S Q) (Server.action_set_comms_rate S params)
  unfolding Server.action_set_comms_rate
  Preserves-set_comms_rate params = Preserves-bind _ _ (rates _) (λ _. post_rate _)

  pub Preserves-edev_registration_links :
      (params : Dict Resolved)
      → Preserves (OnRunner S Q) (Server.action_edev_registration_links S params)
  unfolding Server.action_edev_registration_links
  Preserves-edev_registration_links params = search (preserving_rules, world_rules)

  identity :
      (p : ActiveTestProcedure) (params : Dict Resolved)
      → Preserves (OnRunner S Q) (Devices.device_identity S p params)
  unfolding Devices.device_identity
  identity p params = search preserving_rules

  add_site :
      (known : List Site) (new : NewSite)
      → Preserves (OnRunner S Q) (Devices.add_unless_known S known new)
  unfolding Devices.add_unless_known
  add_site [] new = search (preserving_rules, world_rules)
  add_site (_ ∷ []) new = search preserving_rules
  add_site (_ ∷ _ ∷ _) new = search preserving_rules

  pub Preserves-register_end_device :
      (params : Dict Resolved)
      → Preserves (OnRunner S Q) (Devices.action_register_end_device S params)
  unfolding Devices.action_register_end_device
  Preserves-register_end_device params =
      search (preserving_rules, world_rules, identity, add_site) depth 9

  pub Preserves-control_targets :
      (indexes : Resolved) → Preserves (OnRunner S Q) (Controls.control_targets S indexes)
  unfolding Controls.control_targets
  Preserves-control_targets indexes =
      search
        (
          preserving_rules, world_rules, active_site, Preserves-get_all_sites, control_count,
          indexes_of, site_ids,
        )
        depth 12

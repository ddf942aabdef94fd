-- ===== src/Services/Commands.antt =====
-- The requests of the admin API and the commands that the runner sends.
use cactus_runner.Services.Rows.{NewSite}
use cactus_runner.Prelude.{ℕ, String, List, Option}
use cactus_runner.Prelude.Int.{ℤ}
use cactus_runner.Definitions.{Time, Resolved}

-- The bodies of the admin requests.
pub record SiteControlGroupRequest : Type 0 where
  pub description : String
  pub primacy : Resolved
  pub fsa_id : Resolved
  pub display_id : Resolved

-- UpdateDefaultValue(value) is `some value`.
pub record SiteControlGroupDefaultRequest : Type 0 where
  pub import_limit_watts : Option Resolved
  pub export_limit_watts : Option Resolved
  pub generation_limit_watts : Option Resolved
  pub load_limit_watts : Option Resolved
  pub ramp_rate_percent_per_second : Option Resolved

pub record SiteControlRequest : Type 0 where
  pub site_id : ℤ
  pub duration_seconds : Resolved
  pub start_time : Resolved
  pub randomize_start_seconds : Resolved
  pub display_id : Resolved
  pub set_energized : Resolved
  pub set_connect : Resolved
  pub import_limit_watts : Resolved
  pub export_limit_watts : Resolved
  pub generation_limit_watts : Resolved
  pub load_limit_watts : Resolved
  pub set_point_percentage : Resolved
  pub ramp_time_seconds : Resolved

pub record SiteControlResponse : Type 0 where
  pub site_control_id : ℤ
  pub created_time : Time

pub record RuntimeServerConfigRequest : Type 0 where
  pub site_control_pow10_encoding : Resolved
  pub disable_edev_registration : Resolved
  pub dcap_pollrate_seconds : Resolved
  pub edevl_pollrate_seconds : Resolved
  pub derl_pollrate_seconds : Resolved
  pub derpl_pollrate_seconds : Resolved
  pub fsal_pollrate_seconds : Resolved
  pub mup_postrate_seconds : Resolved

-- The calls whose result the runner does not read, one constructor for each method.
pub data Command : Type 0 where
  post_site_control_default : ℤ → SiteControlGroupDefaultRequest → Command
  put_site_control_group : ℤ → SiteControlGroupRequest → Command
  update_runtime_config : RuntimeServerConfigRequest → Command
  create_site_controls : ℤ → List SiteControlRequest → Command
  delete_site_controls_in_range : ℤ → (start end : Time) → Command
  update_single_site : ℤ → (post_rate_seconds : Resolved) → Command
  delete_all_site_control_groups : Command
  -- session.add(Site(…)) and session.commit()
  add_site : NewSite → Command
  commit : Command
  -- the SQL scripts of precondition.py
  truncate_all_tables truncate_playlist_tables : Command

-- The request archive on disk; its functions raise nothing.
pub data StoreCommand : Type 0 where
  write_request_response_files : (request_id : ℕ) → (step_name path : String) → StoreCommand
  prune_old_request_response_pairs : (current_request_id max_pairs : ℕ) → StoreCommand

pub record Response : Type 0 where
  pub status : ℕ
  pub body : String

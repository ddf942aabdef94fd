-- ===== src/Actions/Server.antt =====
-- set-comms-rate and edev-registration-links: the configuration of the utility server.
use cactus_runner.Prelude.{Bool, not, ◌||◌, if◌then◌else◌}
use cactus_runner.Prelude.Dict.{Dict}
use cactus_runner.Exec.{on_option, generic_exception, pure, raise, lift, ◌>>=◌, ◌>>◌}
use cactus_runner.Definitions.{bool, Resolved, scalar, nothing, is_none, is_truthy}
use cactus_runner.Services.{
  Services, RuntimeServerConfigRequest, update_runtime_config, update_single_site,
}
use cactus_runner.World.{Run, send}
use cactus_runner.EnvoyCommon.{get_active_site}
use cactus_runner.Actions.Params.{mandatory, parameter}

-- RuntimeServerConfigRequest()
abbrev pub no_config : RuntimeServerConfigRequest
no_config = record {
  site_control_pow10_encoding = nothing;
  disable_edev_registration = nothing;
  dcap_pollrate_seconds = nothing;
  edevl_pollrate_seconds = nothing;
  derl_pollrate_seconds = nothing;
  derpl_pollrate_seconds = nothing;
  fsal_pollrate_seconds = nothing;
  mup_postrate_seconds = nothing;
}

unfoldable pub comms_rates : Dict Resolved → RuntimeServerConfigRequest
comms_rates params = record no_config {
  dcap_pollrate_seconds = parameter "dcap_poll_seconds" params;
  edevl_pollrate_seconds = parameter "edev_list_poll_seconds" params;
  derl_pollrate_seconds = parameter "der_list_poll_seconds" params;
  derpl_pollrate_seconds = parameter "derp_list_poll_seconds" params;
  fsal_pollrate_seconds = parameter "fsa_list_poll_seconds" params;
  mup_postrate_seconds = parameter "mup_post_seconds" params;
}

unfoldable pub any_rate : RuntimeServerConfigRequest → Bool
any_rate r =
    is_truthy r.dcap_pollrate_seconds
    || is_truthy r.edevl_pollrate_seconds
    || is_truthy r.derl_pollrate_seconds
    || is_truthy r.derpl_pollrate_seconds
    || is_truthy r.fsal_pollrate_seconds
    || is_truthy r.mup_postrate_seconds

module _ (S : Services) where
  unfoldable pub send_rates : RuntimeServerConfigRequest → Run S (Unit {0})
  send_rates rates = if any_rate rates then send S (update_runtime_config rates) else pure tt

  unfoldable pub send_post_rate : Resolved → Run S (Unit {0})
  send_post_rate rate = if is_none rate then pure tt else (do
    active_site ← get_active_site S
    on_option active_site (raise generic_exception)
        (λ site. send S (update_single_site site.site_id rate)))

  unfoldable pub action_set_comms_rate : Dict Resolved → Run S (Unit {0})
  action_set_comms_rate params = do
    send_rates (comms_rates params)
    send_post_rate (parameter "edev_post_seconds" params)

  unfoldable pub action_edev_registration_links : Dict Resolved → Run S (Unit {0})
  action_edev_registration_links params = do
    enabled ← lift (mandatory "enabled" params)
    send S (
        update_runtime_config (record no_config {
          disable_edev_registration = scalar (bool (not (is_truthy enabled)));
        }))

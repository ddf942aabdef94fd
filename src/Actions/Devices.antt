-- ===== src/Actions/Devices.antt =====
-- register-end-device.
use cactus_runner.Prelude.{
  List, String, Bool, ◌&&◌, not, true, false, [], ◌∷◌, str_eq, keep, concat, if◌then◌else◌,
}
use cactus_runner.Prelude.Int.{pos}
use cactus_runner.Prelude.Dict.{Dict}
use cactus_runner.Prelude.Strings.{take}
use cactus_runner.Exec.{external, pure, raise, lift, ◌>>=◌, ◌>>◌}
use cactus_runner.Definitions.{Resolved, of_int, is_none}
use cactus_runner.Models.{ClientCertificateType, aggregator, device, ActiveTestProcedure}
use cactus_runner.Services.{Services, Site, NewSite, add_site, commit}
use cactus_runner.World.{Run, call, send, time_now, the_procedure}
use cactus_runner.Actions.Params.{parameter, as_text}

abbrev is_aggregator : ClientCertificateType → Bool
is_aggregator aggregator = true
is_aggregator device = false

module _ (S : Services) where
  -- The LFDI and SFDI that the device is registered with.
  unfoldable pub device_identity : ActiveTestProcedure → Dict Resolved → Run S (String × Resolved)
  device_identity p params =
      let aggregator_lfdi = parameter "aggregator_lfdi" params in
      let aggregator_sfdi = parameter "aggregator_sfdi" params in
      if is_aggregator p.client_certificate_type
        && (not (is_none aggregator_lfdi) && not (is_none aggregator_sfdi))
      then (do
        prefix ← lift (as_text aggregator_lfdi)
        pure (S.upper (concat (take 32 prefix) (S.zero_pad 8 p.pen)), aggregator_sfdi))
      else pure (S.upper p.client_lfdi, of_int p.client_sfdi)

  -- scalar_one_or_none: more than one site of the LFDI raises.
  unfoldable pub add_unless_known : List Site → NewSite → Run S (Unit {0})
  add_unless_known [] site = do send S (add_site site); send S commit
  add_unless_known (_ ∷ []) site = pure tt
  add_unless_known (_ ∷ _ ∷ _) site = raise external

  unfoldable pub action_register_end_device : Dict Resolved → Run S (Unit {0})
  action_register_end_device params = do
    now ← time_now S
    p ← the_procedure S
    (lfdi, sfdi) ← device_identity p params
    sites ← call S S.sites
    let pin = parameter "registration_pin" params
    add_unless_known (keep (λ (s : Site). str_eq s.lfdi (S.upper lfdi)) sites) (record {
      nmi = parameter "nmi" params;
      aggregator_id = p.client_aggregator_id;
      timezone_id = "Australia/Brisbane";
      created_time = now;
      changed_time = now;
      lfdi = S.upper lfdi;
      sfdi = sfdi;
      device_category = pos 0;
      registration_pin = if is_none pin then of_int (pos 1) else pin;
    })

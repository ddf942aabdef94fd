-- ===== src/Status/Metadata.antt =====
-- status.py: what the status shows of the end device.
use cactus_runner.Prelude.{ℕ, String, List, Option, none, some}
use cactus_runner.Prelude.Int.{ℤ}
use cactus_runner.Prelude.Dict
use cactus_runner.Exec.{pure, try_except, on_option, ◌>>=◌}
use cactus_runner.Services.{Services, Scaled, Site, SiteDer, SiteDerStatus}
use cactus_runner.EnvoyCommon.{Query, query_active_site}
use cactus_runner.DerChecks.Contents.{row_of}
use cactus_runner.DeviceChecks.Status.{status_of}
use cactus_runner.Status.Values.{resolve_value_multiplier, resolve_intflag, resolve_intenum}

pub record DerCapabilityInfo : Type 0 where
  pub der_type : Option String
  pub modes_supported : Option (List String)
  pub max_w : Option ℤ
  pub max_va : Option ℤ
  pub max_var : Option ℤ
  pub max_var_neg : Option ℤ
  pub max_a : Option ℤ
  pub max_charge_rate_w : Option ℤ
  pub max_discharge_rate_w : Option ℤ
  pub max_wh : Option ℤ
  pub doe_modes_supported : Option (List String)

pub record DerSettingsInfo : Type 0 where
  pub modes_enabled : Option (List String)
  pub max_w : Option ℤ
  pub max_va : Option ℤ
  pub max_var : Option ℤ
  pub max_var_neg : Option ℤ
  pub max_charge_rate_w : Option ℤ
  pub max_discharge_rate_w : Option ℤ
  pub grad_w : Option ℤ
  pub doe_modes_enabled : Option (List String)

pub record DerStatusInfo : Type 0 where
  pub alarm_status : Option (List String)
  pub generator_connect_status : Option (List String)
  pub storage_connect_status : Option (List String)
  pub inverter_status : Option String
  pub operational_mode_status : Option String
  pub storage_mode_status : Option String
  pub local_control_mode_status : Option String
  pub manufacturer_status : Option String
  pub state_of_charge_status : Option ℤ

pub record EndDeviceMetadata : Type 0 where
  pub edevid : ℤ
  pub lfdi : String
  pub sfdi : ℤ
  pub nmi : Option String
  pub aggregator_id : ℤ
  pub set_max_w : Option ℤ
  pub doe_modes_enabled : Option ℤ
  pub device_category : ℕ
  pub timezone_id : String
  pub der_capability : Option DerCapabilityInfo
  pub der_settings : Option DerSettingsInfo
  pub der_status : Option DerStatusInfo

abbrev mapped {ℓ κ} : {A : Type ℓ} {B : Type κ} → (A → B) → Option A → Option B
mapped f none = none
mapped f (some a) = some (f a)

module _ (S : Services) where
  abbrev scaled : Scaled → Option ℤ
  scaled column = resolve_value_multiplier S column.value column.multiplier

  abbrev flags : String → String → SiteDer → Option (List String)
  flags flag_type column row = resolve_intflag S (Dict.get column row.other_columns) flag_type

  unfoldable pub build_der_capability : SiteDer → DerCapabilityInfo
  unfolding resolve_value_multiplier resolve_intflag resolve_intenum
  build_der_capability rating = record {
    der_type = resolve_intenum S (Dict.get "der_type" rating.other_columns) "DERType";
    modes_supported = flags "DERControlType" "modes_supported" rating;
    max_w = scaled rating.max_w;
    max_va = scaled rating.max_va;
    max_var = scaled rating.max_var;
    max_var_neg = scaled rating.max_var_neg;
    max_a =
        resolve_value_multiplier S (Dict.get "max_a_value" rating.other_columns)
          (Dict.get "max_a_multiplier" rating.other_columns);
    max_charge_rate_w = scaled rating.max_charge_rate_w;
    max_discharge_rate_w = scaled rating.max_discharge_rate_w;
    max_wh = scaled rating.max_wh;
    doe_modes_supported = flags "DOESupportedMode" "doe_modes_supported" rating;
  }

  unfoldable pub build_der_settings : SiteDer → DerSettingsInfo
  unfolding resolve_value_multiplier resolve_intflag
  build_der_settings setting = record {
    modes_enabled = flags "DERControlType" "modes_enabled" setting;
    max_w = scaled setting.max_w;
    max_va = scaled setting.max_va;
    max_var = scaled setting.max_var;
    max_var_neg = scaled setting.max_var_neg;
    max_charge_rate_w = scaled setting.max_charge_rate_w;
    max_discharge_rate_w = scaled setting.max_discharge_rate_w;
    grad_w = Dict.get "grad_w" setting.other_columns;
    doe_modes_enabled = flags "DOESupportedMode" "doe_modes_enabled" setting;
  }

  unfoldable pub build_der_status : SiteDerStatus → DerStatusInfo
  unfolding resolve_intflag resolve_intenum
  build_der_status status = record {
    alarm_status = resolve_intflag S status.alarm_status "AlarmStatusType";
    generator_connect_status =
        resolve_intflag S status.generator_connect_status "ConnectStatusType";
    storage_connect_status = resolve_intflag S status.storage_connect_status "ConnectStatusType";
    inverter_status = resolve_intenum S status.inverter_status "InverterStatusType";
    operational_mode_status =
        resolve_intenum S status.operational_mode_status "OperationalModeStatusType";
    storage_mode_status = resolve_intenum S status.storage_mode_status "StorageModeStatusType";
    local_control_mode_status =
        resolve_intenum S status.local_control_mode_status "LocalControlModeStatusType";
    manufacturer_status = status.manufacturer_status;
    state_of_charge_status = status.state_of_charge_status;
  }

  -- The rows of a site are loaded with it.
  unfoldable pub site_metadata : (set_max_w : Option ℤ) → Site → Query S EndDeviceMetadata
  unfolding build_der_capability build_der_settings build_der_status
  site_metadata set_max_w site = do
    settings ← S.site_der_settings
    ratings ← S.site_der_ratings
    statuses ← S.site_der_status
    let setting = row_of S site settings
    pure (record {
      edevid = site.site_id;
      lfdi = site.lfdi;
      sfdi = site.sfdi;
      nmi = site.nmi;
      aggregator_id = site.aggregator_id;
      set_max_w = set_max_w;
      doe_modes_enabled = elim setting [
        | none ↦ none
        | some row ↦ Dict.get "doe_modes_enabled" row.other_columns
      ];
      device_category = site.device_category;
      timezone_id = site.timezone_id;
      der_capability = mapped build_der_capability (row_of S site ratings);
      der_settings = mapped build_der_settings setting;
      der_status = mapped build_der_status (status_of S site statuses);
    })

  unfoldable pub get_end_device_metadata :
      (set_max_w : Option ℤ) → Query S (Option EndDeviceMetadata)
  unfolding site_metadata
  get_end_device_metadata set_max_w =
      try_except
        (do
          site ← query_active_site S
          on_option site (pure none) (λ s. do m ← site_metadata set_max_w s; pure (some m)))
        (λ e. pure none)

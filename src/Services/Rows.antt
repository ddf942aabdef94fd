-- ===== src/Services/Rows.antt =====
-- The rows of envoy's database, with the columns that the runner reads, and the values that are
-- compared with them.
use cactus_runner.Prelude.{ℕ, String, Bool, Option}
use cactus_runner.Prelude.Int.{ℤ}
use cactus_runner.Definitions.{Time, Resolved}
use cactus_runner.Prelude.Dict.{Dict}

-- Rows of the database, with the columns that the runner reads.
pub record Scaled : Type 0 where
  pub value : Option ℤ
  pub multiplier : Option ℤ

-- SiteDERSetting and SiteDERRating have these columns under the same names.
pub record SiteDer : Type 0 where
  pub site_id : ℤ
  pub changed_time : Time
  pub max_w : Scaled
  pub max_va : Scaled
  pub max_var : Scaled
  pub max_var_neg : Scaled
  pub max_charge_rate_w : Scaled
  pub max_discharge_rate_w : Scaled
  pub max_wh : Scaled
  pub min_pf_over_excited : Scaled
  pub min_pf_under_excited : Scaled
  -- der_type, grad_w, max_a and the columns of modes, by name, without those that are null
  pub other_columns : Dict ℤ

pub record Site : Type 0 where
  pub site_id : ℤ
  pub changed_time : Time
  pub lfdi : String
  pub sfdi : ℤ
  pub nmi : Option String
  pub aggregator_id : ℤ
  pub timezone_id : String
  pub device_category : ℕ

-- The columns of a site that the runner registers itself.
pub record NewSite : Type 0 where
  pub nmi : Resolved
  pub aggregator_id : ℤ
  pub timezone_id : String
  pub created_time : Time
  pub changed_time : Time
  pub lfdi : String
  pub sfdi : Resolved
  pub device_category : ℤ
  pub registration_pin : Resolved

pub record SiteControlGroup : Type 0 where
  pub site_control_group_id : ℤ
  pub description : String
  pub primacy : ℤ
  pub fsa_id : Option ℤ
  pub display_id : Option ℤ

-- The limits of a control or of the defaults of a group, in watts; a decimal is its coefficient and
-- exponent.
pub record Limits : Type 0 where
  pub import_limit : Option (ℤ × ℤ)
  pub export_limit : Option (ℤ × ℤ)
  pub load_limit : Option (ℤ × ℤ)
  pub generation_limit : Option (ℤ × ℤ)
  pub storage_target : Option (ℤ × ℤ)

-- A DynamicOperatingEnvelope; of an archived one `deleted_time` says when it was deleted, and
-- `archive_time` when it was archived.
pub record SiteControlRow : Type 0 where
  pub dynamic_operating_envelope_id : ℤ
  pub site_id : ℤ
  pub site_control_group_id : ℤ
  pub superseded : Bool
  pub start_time : Time
  pub duration_seconds : ℕ
  pub changed_time : Time
  pub limits : Limits
  pub deleted_time : Option Time
  pub archive_time : Option Time

-- A SiteControlGroupDefault, with the columns of an archived one.
pub record SiteControlDefaultRow : Type 0 where
  pub changed_time : Time
  pub limits : Limits
  pub deleted_time : Option Time
  pub archive_time : Option Time

-- The columns that hold a member of an enumeration (uom, kind, data_qualifier, role_flags,
-- response_type) are given by the member's name.
pub record SiteReadingType : Type 0 where
  pub site_reading_type_id : ℤ
  pub aggregator_id : ℤ
  pub site_id : ℤ
  pub uom : String
  pub kind : String
  pub data_qualifier : String
  pub flow_direction : ℤ
  pub accumulation_behaviour : ℤ
  pub phase : ℤ
  pub role_flags : String
  pub power_of_ten_multiplier : ℤ
  pub mrid : String
  pub group_id : ℤ
  pub group_mrid : String
  pub created_time : Time

pub record SiteReading : Type 0 where
  pub site_reading_type_id : ℤ
  pub created_time : Time
  pub changed_time : Time
  pub time_period_start : Time
  pub time_period_seconds : ℤ
  pub value : ℤ

pub record TransmitNotificationLog : Type 0 where
  pub http_status_code : ℕ
  pub subscription_id_snapshot : ℤ

pub record Subscription : Type 0 where
  pub subscription_id : ℤ
  pub aggregator_id : ℤ
  pub scoped_site_id : Option ℤ
  pub resource_type : String
  pub resource_id : Option ℤ

-- `response_type` is absent where the column is null.
pub record ControlResponse : Type 0 where
  pub dynamic_operating_envelope_id_snapshot : ℤ
  pub created_time : Time
  pub response_type : Option ℤ

pub record SiteDerStatus : Type 0 where
  pub site_id : ℤ
  pub alarm_status : Option ℤ
  pub generator_connect_status : Option ℤ
  pub storage_connect_status : Option ℤ
  pub inverter_status : Option ℤ
  pub operational_mode_status : Option ℤ
  pub storage_mode_status : Option ℤ
  pub local_control_mode_status : Option ℤ
  pub manufacturer_status : Option String
  pub state_of_charge_status : Option ℤ

-- What SubscriptionMapper.parse_resource_href reads of a resource's address.
pub record ParsedHref : Type 0 where
  pub resource_type : String
  pub scoped_site_id : Option ℤ
  pub resource_id : Option ℤ

-- The parameters of the checks on settings and capability: bool | None, str | None, int | None
pub data FieldType : Type 0 where
  boolean hexadecimal integer : FieldType

pub record Field : Type 0 where
  pub key : String
  pub alias : String
  pub type : FieldType
  pub property : Option String

-- A value of one of these types.
pub data Raw : Type 0 where
  raw_none : Raw
  raw_bool : Bool → Raw
  raw_text : String → Raw
  raw_int : ℤ → Raw

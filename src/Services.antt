-- ===== src/Services.antt =====
-- What the runner reaches outside the repository: the clock, the random source, the database and
-- the admin API of the envoy utility server, its proxied endpoints, and the number formats of
-- Python. They are one record of operations over an abstract state, which the other modules take
-- as a parameter. Every call may raise.
pub mod Rows
pub mod Commands
use cactus_runner.Prelude.{ℕ, String, Bool, List, Option, ◌⊎◌}
use cactus_runner.Prelude.Int.{ℤ}
use cactus_runner.Exec.{Exception, Result}
use cactus_runner.Definitions.{
  Time, Value, Resolved, OperationType, BaseExpression, Parameter, TestProcedure,
}
use cactus_runner.Prelude.Dict.{Dict}
use cactus_runner.Timeline.Trees.{IntervalTrees}
use cactus_runner.Models.{RunnerState}
pub use Rows.*
pub use Commands.*

pub record Services : Type 1 where
  pub Env : Type 0
  -- datetime.now(UTC), secrets.token_urlsafe
  pub clock : Env → Time × Env
  pub token_urlsafe : Env → String × Env
  -- calls
  pub send : Command → Env → Result (Unit {0}) × Env
  pub post_site_control_group : SiteControlGroupRequest → Env → Result ℤ × Env
  pub get_all_site_control_groups : Env → Result (List SiteControlGroup) × Env
  pub get_all_site_controls : ℤ → Env → Result (List SiteControlResponse) × Env
  pub forward : (method url body : String) → Env → Result Response × Env
  -- tables
  pub site_der_settings : Env → Result (List SiteDer) × Env
  pub site_der_ratings : Env → Result (List SiteDer) × Env
  pub sites : Env → Result (List Site) × Env
  pub site_control_groups : Env → Result (List SiteControlGroup) × Env
  pub first_site_control_groups : Env → Result (List SiteControlGroup) × Env
  pub dynamic_operating_envelopes : Env → Result (List SiteControlRow) × Env
  pub site_control_group_defaults : Env → Result (List SiteControlDefaultRow) × Env
  pub archive_site_control_group_defaults : Env → Result (List SiteControlDefaultRow) × Env
  pub archive_dynamic_operating_envelopes : Env → Result (List SiteControlRow) × Env
  pub site_reading_types : Env → Result (List SiteReadingType) × Env
  pub site_readings : Env → Result (List SiteReading) × Env
  pub transmit_notification_logs : Env → Result (List TransmitNotificationLog) × Env
  pub subscriptions : Env → Result (List Subscription) × Env
  pub control_responses : Env → Result (List ControlResponse) × Env
  pub site_der_status : Env → Result (List SiteDerStatus) × Env
  -- the labels of the DERSetting columns, and the columns of a reading type, that have varied
  pub der_settings_varied : Env → Result (List String) × Env
  pub reading_types_varied : Env → Result (List String) × Env
  -- the JSON text of a record, and the file system that `write_zip_to_file` writes an archive to
  pub to_json : {A : Type 0} → A → Result String
  pub write_archive : {A : Type 0} → (path : String) → A → Env → Result (Unit {0}) × Env
  -- f"{exception}"; the temporary file of a failover archive, the archive with one text of errors,
  -- and the text that is written where making it raises
  pub text_of_exception : Exception → String
  pub mkstemp : Env → Result String × Env
  pub write_error_zip : (path : String) (errors : List String) → Env → Result (Unit {0}) × Env
  pub write_failure :
      (path : String) (errors : List String) → Exception → Env → Result (Unit {0}) × Env
  pub store : StoreCommand → Env → Env
  pub subscription_count : Env → Result ℕ × Env
  pub insert_aggregator : (lfdi subscription_domain : Option String) → Env → Result ℤ × Env
  -- envoy's conversions
  pub pow10_to_decimal_value : Option ℤ → Option ℤ → Option (ℤ × ℤ)
  pub convert_lfdi_to_sfdi : String → Result ℤ
  pub generate_lfdi_from_pem : String → Result String
  pub generate_lfdi_from_fingerprint : String → Result String
  pub is_valid_pem : String → Bool
  pub is_valid_sha256 : String → Bool
  pub is_valid_lfdi : String → Bool
  pub schema_errors : String → List String
  -- cactus_test_definitions: `none` stands for an exception
  pub test_procedure_from_yaml : String → Option TestProcedure
  pub csip_aus_version : String → Option String
  -- Python's numbers
  pub float_of_decimal : ℤ × ℤ → ℕ
  pub operator : OperationType → Value → Value → Option Value
  pub equals : Value → Value → Bool
  pub format : Resolved → String
  pub zero_pad : (width : ℕ) → ℤ → String
  pub upper : String → String
  -- the first value of a parameter of a URL's query, by parse_qs and urlparse
  pub query_value : (name url : String) → Option String
  pub isoformat : Time → String
  -- f"{span.total_seconds()}", of a span in microseconds
  pub total_seconds : ℤ → String
  -- int(text, 16), of no negative number, and f"{n:b}"
  pub int_hex : Resolved → Result ℕ
  pub format_binary : ℕ → String
  -- pydantic's conversion of a parameter to the type of its field
  pub validate_field : FieldType → Resolved → Result Raw
  pub expression_representation : BaseExpression → String
  -- int(value * pow(10, -n))
  pub scaled_down : (value : ℤ) (n : ℕ) → ℤ
  -- 10 ** exponent, which is a float for a negative exponent
  pub power_of_ten : ℤ → Value
  -- value * Decimal(factor)
  pub times_decimal : (value : ℤ) (factor : Value) → Value
  -- pandas: DataFrame.sort_values by a column of times
  pub sort_values : {A : Type 0} → (A → Time) → List A → List A
  -- f"0x{role_flags:02X}"
  pub role_flags_hex : String → String
  -- the name of a ResponseType; `none` for a number that is no member
  pub response_type_name : ℤ → Option String
  -- the message of an InvalidMappingError on the right
  pub parse_resource_href : String → ParsedHref ⊎ String
  pub int_of : Value → Result ℤ
  pub float_of : Value → Result ℕ
  pub seconds_at_least : ℤ → Value → Option Bool
  pub exceeds_int16 : (watts : ℕ) → (multiplier : ℤ) → Bool
  pub required_multiplier : (watts : ℕ) → ℤ
  -- t + timedelta(seconds=value), and f"{parameter}" of a parameter that is not resolved
  pub after_seconds : Time → Value → Result Time
  pub format_parameter : Parameter → String
  -- the members of an IntFlag of envoy_schema, and the name of a member of an IntEnum, by the name
  -- of the enumeration
  pub flag_members : (enumeration : String) → List (String × ℕ)
  pub enum_name : (enumeration : String) → ℤ → Option String
  -- what the health of the server is read from: the number of aggregators in the database, and
  -- whether the admin API answers with a list of them
  pub count_aggregators : Env → Result ℕ × Env
  pub get_aggregators : Env → Result Bool × Env
  -- the library intervaltree, and MAX_REQUEST_PAIRS of the environment
  pub interval_trees : IntervalTrees
  pub max_request_pairs : ℕ
  -- the end of envoy's log, which is a text in any case
  pub log_envoy : Env → String × Env

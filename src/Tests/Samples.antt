-- ===== src/Tests/Samples.antt =====
-- Services and states for the tests: a clock that counts seconds, tokens that count, and a server
-- and a database that hold one site and accept everything.
use cactus_runner.Prelude.{ℕ, suc, ◌*◌, String, true, false, List, [], ◌∷◌, Option, none, some, inr}
use cactus_runner.Prelude.Int.{ℤ, pos}
use cactus_runner.Exec.{ok, err, value_error}
use cactus_runner.Definitions.{
  int, text, Entry, plain, variable, single, several, named_variable, NamedVariableType, Action,
  Event, TestProcedure,
}
use cactus_runner.Models.{Listener, ActiveTestProcedure, device}
use cactus_runner.Services.{Services, raw_none}
use cactus_runner.World.{World}
use cactus_runner.Handler.Replies.{RunRequest, Config}
use cactus_runner.Handler.Setup.{new_procedure}
use cactus_runner.Main.{initial_runner, initial_certs}
use cactus_runner.Uri.{Request}
use cactus_runner.Event.{EventTrigger, proceed, ClientRequestDetails}

abbrev pub client_lfdi : String
client_lfdi = "3E4F45AB31EDFE5B67E343E5E4562E31984E23E5"

abbrev pub event : String → Event
event type = record {
  type = type;
  parameters = ("endpoint", single (plain (text "/edev/*/der"))) ∷ [];
  checks = none;
}

abbrev pub steps_named : String → List Entry
steps_named step = plain (text step) ∷ []

abbrev pub action : String → String → Action
action type step = record { type = type; parameters = ("steps", several (steps_named step)) ∷ [] }

abbrev pub unresolvable_action : Action
unresolvable_action = record {
  type = "enable-steps";
  parameters =
      ("steps", single (variable (named_variable NamedVariableType.dersetting_set_max_w))) ∷ [];
}

abbrev pub definition : TestProcedure
definition = record {
  steps =
      (
        "GET-DER",
        record {
          event = event "GET-request-received";
          actions = action "enable-steps" "PROCEED" ∷ action "remove-steps" "GET-DER" ∷ [];
          instructions = some ("Read the DER" ∷ []);
        },
      )
      ∷ (
        "PROCEED",
        record {
          event = event "proceed";
          actions = action "remove-steps" "PROCEED" ∷ action "finish-test" "" ∷ [];
          instructions = none;
        },
      )
      ∷ [];
  preconditions = none;
  criteria = none;
}

abbrev pub services : Services
services = record {
  Env = ℕ;
  clock = λ n. (n * 1000000, suc n);
  token_urlsafe = λ n. ("token", suc n);
  send = λ c n. (ok tt, n);
  post_site_control_group = λ g n. (ok (pos 1), n);
  get_all_site_control_groups = λ n. (ok [], n);
  get_all_site_controls = λ g n. (ok [], n);
  forward = λ method url body n. (ok (record { status = 200; body = "" }), suc n);
  site_der_settings = λ n. (ok [], n);
  site_der_ratings = λ n. (ok [], n);
  sites = λ n. (ok [], n);
  site_control_groups = λ n. (ok [], n);
  first_site_control_groups = λ n. (ok [], n);
  dynamic_operating_envelopes = λ n. (ok [], n);
  site_control_group_defaults = λ n. (ok [], n);
  archive_site_control_group_defaults = λ n. (ok [], n);
  archive_dynamic_operating_envelopes = λ n. (ok [], n);
  site_reading_types = λ n. (ok [], n);
  site_readings = λ n. (ok [], n);
  transmit_notification_logs = λ n. (ok [], n);
  subscriptions = λ n. (ok [], n);
  control_responses = λ n. (ok [], n);
  site_der_status = λ n. (ok [], n);
  der_settings_varied = λ n. (ok [], n);
  reading_types_varied = λ n. (ok [], n);
  to_json = λ a. ok "{}";
  write_archive = λ path a n. (ok tt, n);
  mkstemp = λ n. (ok "final.zip", n);
  text_of_exception = λ e. "";
  write_error_zip = λ path errors n. (ok tt, n);
  write_failure = λ path errors e n. (ok tt, n);
  store = λ c n. n;
  subscription_count = λ n. (ok 0, n);
  insert_aggregator = λ lfdi domain n. (ok (pos 1), n);
  pow10_to_decimal_value = λ v m. none;
  convert_lfdi_to_sfdi = λ lfdi. ok (pos 167261211391);
  generate_lfdi_from_pem = λ pem. ok client_lfdi;
  generate_lfdi_from_fingerprint = λ f. ok client_lfdi;
  is_valid_pem = λ s. false;
  is_valid_sha256 = λ s. false;
  is_valid_lfdi = λ s. true;
  schema_errors = λ s. [];
  test_procedure_from_yaml = λ s. some definition;
  csip_aus_version = λ s. some s;
  float_of_decimal = λ d. 0;
  operator = λ o a b. none;
  equals = λ a b. false;
  format = λ r. "";
  zero_pad = λ k n. "";
  upper = λ s. s;
  query_value = λ name url. none;
  isoformat = λ t. "";
  total_seconds = λ d. "";
  int_hex = λ s. ok 0;
  format_binary = λ n. "";
  validate_field = λ t v. ok raw_none;
  expression_representation = λ e. "";
  scaled_down = λ v n. v;
  power_of_ten = λ n. int (pos 1);
  times_decimal = λ value factor. int value;
  sort_values = λ column rows. rows;
  role_flags_hex = λ flags. flags;
  response_type_name = λ n. none;
  parse_resource_href = λ href. inr "";
  int_of = λ v. err value_error;
  float_of = λ v. err value_error;
  seconds_at_least = λ n v. none;
  exceeds_int16 = λ w m. false;
  required_multiplier = λ w. pos 0;
  after_seconds = λ t v. ok t;
  format_parameter = λ p. "";
  flag_members = λ enumeration. [];
  enum_name = λ enumeration n. none;
  count_aggregators = λ n. (ok 1, n);
  get_aggregators = λ n. (ok true, n);
  -- trees that cannot be built
  interval_trees = record { build = λ intervals. err value_error; slice = λ tree begin end. [] };
  max_request_pairs = 10;
  log_envoy = λ n. ("", n);
}

abbrev pub run_request : RunRequest
run_request = record {
  run_id = none;
  test_procedure_id = "ALL-01";
  yaml_definition = "";
  csip_aus_version = "v1.2";
  run_group_id = none;
  run_group_name = none;
  aggregator = none;
  device = some "pem";
  pen = pos 64;
  subscription_domain = none;
  is_static_url = none;
  user_id = none;
  user_name = none;
}

abbrev pub config : Config
config = record {
  mount_point = "/";
  envoy_proxy_prefix = "/";
  server_url = "http://envoy:8000";
  dev_skip_authorization_check = false;
}

abbrev pub request : (path certificate : String) → Request
request path certificate = record {
  method = "GET";
  path = path;
  path_qs = path;
  query = [];
  query_string = "";
  body = "";
  certificate = certificate;
}

-- The procedure just after it was set up.
abbrev pub procedure : ActiveTestProcedure
procedure =
    new_procedure run_request definition "v1.2" 0 client_lfdi (pos 167261211391) (pos 1) device

abbrev pub world_with : Option ActiveTestProcedure → World services
world_with active = record {
  runner = record (initial_runner 0) { active_test_procedure = active };
  certs = initial_certs;
  env = 5;
}

abbrev pub idle : World services
idle = world_with none

abbrev pub fresh : World services
fresh = world_with (some procedure)

abbrev pub listener : (step type : String) → Listener
listener step type = record { step = step; event = event type; actions = [] }

-- A procedure whose one listener waits for a proceed signal and does nothing else.
abbrev pub waiting : ActiveTestProcedure
waiting = record procedure {
  listeners = listener "PROCEED" "proceed" ∷ [];
  enabled_times = ("PROCEED", 1) ∷ [];
}

abbrev pub finished : ActiveTestProcedure
finished = record procedure { finished_zip_path = some "final.zip" }

abbrev pub proceed_trigger : EventTrigger
proceed_trigger = record { type = proceed; time = 9; single_listener = true; client_request = none }

abbrev pub details : ℤ → ClientRequestDetails
details start = record { method = "GET"; path = "/edev/1/der"; query_start = some start }

-- ===== src/Handler/Setup.antt =====
-- `setup_test_procedure_from_request`: a new procedure from a request.
use cactus_runner.Prelude.{String, false, List, [], ◌∷◌, none}
use cactus_runner.Prelude.Int.{ℤ}
use cactus_runner.Prelude.Dict.{Dict}
use cactus_runner.Exec.{value_error, pure, lift, ◌>>=◌}
use cactus_runner.Definitions.{Time, Step, TestProcedure}
use cactus_runner.Models.{ClientCertificateType, Listener, StepInfo, ActiveTestProcedure}
use cactus_runner.Services.{Services}
use cactus_runner.World.{Run, optional, time_now}
use cactus_runner.Handler.Replies.{RunRequest}

-- A listener for each step, in the order of the definition.
unfoldable pub listeners_of : Dict Step → List Listener
listeners_of [] = []
listeners_of ((name, step) ∷ rest) =
    record { step = name; event = step.event; actions = step.actions } ∷ listeners_of rest

abbrev pub not_started : StepInfo
not_started = record { started_at = none; completed_at = none }

unfoldable pub pending_steps : Dict Step → Dict StepInfo
pending_steps [] = []
pending_steps ((name, step) ∷ rest) = (name, not_started) ∷ pending_steps rest

unfoldable pub new_procedure :
    RunRequest
    → TestProcedure
    → (version : String) → Time
    → (client_lfdi : String) → (client_sfdi client_aggregator_id : ℤ) → ClientCertificateType
    → ActiveTestProcedure
new_procedure request definition version now client_lfdi client_sfdi client_aggregator_id
      client_type =
    record {
      name = request.test_procedure_id;
      definition = definition;
      csip_aus_version = version;
      initialised_at = now;
      started_at = none;
      listeners = listeners_of definition.steps;
      enabled_times = [];
      step_status = pending_steps definition.steps;
      client_certificate_type = client_type;
      client_aggregator_id = client_aggregator_id;
      client_lfdi = client_lfdi;
      client_sfdi = client_sfdi;
      run_id = request.run_id;
      pen = request.pen;
      subscription_domain = request.subscription_domain;
      is_static_url = request.is_static_url;
      run_group_id = request.run_group_id;
      run_group_name = request.run_group_name;
      user_id = request.user_id;
      user_name = request.user_name;
      communications_disabled = false;
      finished_zip_path = none;
      resource_annotations = record {
        der_program_ids_by_alias = [];
        der_control_ids_by_alias = [];
      };
      random_uri_by_key = [];
      proxy_route_overrides = [];
      warnings = [];
    }

module _ (S : Services) where
  unfoldable pub setup_test_procedure_from_request :
      RunRequest
      → (client_lfdi : String) → (client_aggregator_id : ℤ) → ClientCertificateType
      → Run S ActiveTestProcedure
  setup_test_procedure_from_request request client_lfdi client_aggregator_id client_type = do
    definition ← lift (optional value_error (S.test_procedure_from_yaml request.yaml_definition))
    version ← lift (optional value_error (S.csip_aus_version request.csip_aus_version))
    now ← time_now S
    client_sfdi ← lift (S.convert_lfdi_to_sfdi client_lfdi)
    pure (
        new_procedure request definition version now client_lfdi client_sfdi client_aggregator_id
          client_type)

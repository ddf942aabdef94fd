-- ===== src/Handler/Replies.antt =====
-- The requests and replies of the handlers.
use cactus_runner.Prelude.{ℕ, String, Bool, List, Option}
use cactus_runner.Prelude.Int.{ℤ}
use cactus_runner.Exec.{Exception}
use cactus_runner.Definitions.{Time}
use cactus_runner.Services.{Response}
use cactus_runner.Status.Report.{RunnerStatus}

-- RunRequest, with the fields that the runner reads. A certificate is its PEM text.
pub record RunRequest : Type 0 where
  pub run_id : Option String
  pub test_procedure_id : String
  pub yaml_definition : String
  pub csip_aus_version : String
  pub run_group_id : Option String
  pub run_group_name : Option String
  pub aggregator : Option String
  pub device : Option String
  pub pen : ℤ
  pub subscription_domain : Option String
  pub is_static_url : Option Bool
  pub user_id : Option String
  pub user_name : Option String

-- The body of a request: no text, a text that is not one RunRequest, or a RunRequest.
pub data RequestBody : Type 0 where
  missing malformed : RequestBody
  parsed : RunRequest → RequestBody

pub data Body : Type 0 where
  empty : Body
  plain : String → Body
  -- str(exception)
  exception_text : Exception → Body
  start_response : (test_procedure : String) → Time → Body
  init_response : (test_procedure : String) → Time → (is_started : Bool) → Body
  proceed_response : (handled : Bool) → Body
  file : (path : String) → Body
  upstream : Response → Body
  runner_status : RunnerStatus → Body
  request_data : (request_id : ℤ) → (request response : Option String) → Body
  request_list : (request_ids : List ℤ) → (count : ℕ) → Body

pub record Reply : Type 0 where
  pub status : ℕ
  pub body : Body

abbrev pub reply : ℕ → Body → Reply
reply status body = record { status = status; body = body }

pub record StartResult : Type 0 where
  pub success : Bool
  pub status : ℕ
  pub content : Body

-- env.py
pub record Config : Type 0 where
  pub mount_point : String
  pub envoy_proxy_prefix : String
  pub server_url : String
  pub dev_skip_authorization_check : Bool

-- ===== src/Models.antt =====
-- models.py: the runner's state.
use cactus_runner.Prelude.{
  ℕ, String, Bool, true, false, List, [], ◌∷◌, Option, none, some, elem, if◌then◌else◌,
}
use cactus_runner.Prelude.Int.{ℤ}
use cactus_runner.Prelude.Dict
use cactus_runner.Prelude.Dict.{Dict}
use cactus_runner.Exec.{Result, ok, err, value_error}
use cactus_runner.Definitions.{Time, Event, Action, TestProcedure}

pub data ClientCertificateType : Type 0 where
  aggregator device : ClientCertificateType

pub record InitialisedCertificates : Type 0 where
  pub client_certificate_type : Option ClientCertificateType
  pub client_certificate : Option String
  pub client_lfdi : Option String
  pub client_aggregator_id : Option ℤ

-- A listener object. The procedure makes one object for each step name, so the name also tells
-- which object it is; the field `enabled_time`, which is written while other lists still hold the
-- object, is kept by that name in `ActiveTestProcedure.enabled_times`.
pub record Listener : Type 0 where
  pub step : String
  pub event : Event
  pub actions : List Action

pub data StepStatus : Type 0 where
  pending active resolved : StepStatus

pub record StepInfo : Type 0 where
  pub started_at : Option Time
  pub completed_at : Option Time

unfoldable pub get_step_status : StepInfo → StepStatus
get_step_status i = elim i.completed_at [
  | some _ ↦ resolved
  | none ↦ elim i.started_at [ some _ ↦ active | none ↦ pending ]
]

pub record ResourceAnnotations : Type 0 where
  pub der_program_ids_by_alias : Dict ℤ
  pub der_control_ids_by_alias : Dict ℤ

pub record ProxyRouteOverride : Type 0 where
  pub route : String
  pub proxy_to : String

pub record WarningEntry : Type 0 where
  pub type : String
  pub description : String
  pub message : String
  pub timestamp : Time

pub record ActiveTestProcedure : Type 0 where
  pub name : String
  pub definition : TestProcedure
  pub csip_aus_version : String
  pub initialised_at : Time
  pub started_at : Option Time
  pub listeners : List Listener
  -- `listener.enabled_time`, by the listener's step; a listener without an entry is disabled
  pub enabled_times : Dict Time
  pub step_status : Dict StepInfo
  pub client_certificate_type : ClientCertificateType
  pub client_aggregator_id : ℤ
  pub client_lfdi : String
  pub client_sfdi : ℤ
  pub run_id : Option String
  pub pen : ℤ
  pub subscription_domain : Option String
  pub is_static_url : Option Bool
  pub run_group_id : Option String
  pub run_group_name : Option String
  pub user_id : Option String
  pub user_name : Option String
  pub communications_disabled : Bool
  pub finished_zip_path : Option String
  pub resource_annotations : ResourceAnnotations
  -- `random_values.random_uri_by_key`
  pub random_uri_by_key : Dict String
  pub proxy_route_overrides : List ProxyRouteOverride
  pub warnings : Dict WarningEntry

unfoldable pub is_finished : ActiveTestProcedure → Bool
is_finished p = elim p.finished_zip_path [ none ↦ false | some _ ↦ true ]

-- `listener.enabled_time`
unfoldable pub enabled_time : ActiveTestProcedure → Listener → Option Time
enabled_time p l = Dict.get l.step p.enabled_times

any_enabled : Dict Time → List Listener → Bool
any_enabled times [] = false
any_enabled times (l ∷ ls) = elim (Dict.get l.step times) [
  | some _ ↦ true
  | none ↦ any_enabled times ls
]

-- True if any listener has been enabled.
unfoldable pub is_started : ActiveTestProcedure → Bool
unfolding any_enabled
is_started p = any_enabled p.enabled_times p.listeners

pub data ClientInteractionType : Type 0 where
  runner_start test_procedure_init test_procedure_start proxied_request : ClientInteractionType

pub record ClientInteraction : Type 0 where
  pub interaction_type : ClientInteractionType
  pub timestamp : Time

-- The members of HTTPMethod.
abbrev pub is_http_method : String → Bool
is_http_method name =
    elem name
      ("CONNECT" ∷ "DELETE" ∷ "GET" ∷ "HEAD" ∷ "OPTIONS" ∷ "PATCH" ∷ "POST" ∷ "PUT" ∷ "TRACE" ∷ [])

-- HTTPMethod(name)
unfoldable pub http_method : String → Result String
http_method name = if is_http_method name then ok name else err value_error

pub record RequestEntry : Type 0 where
  pub url : String
  pub path : String
  pub method : String
  pub status : ℕ
  pub timestamp : Time
  pub step_name : String
  pub body_xml_errors : List String
  pub request_id : ℕ

pub record RunnerState : Type 0 where
  pub active_test_procedure : Option ActiveTestProcedure
  pub request_history : List RequestEntry
  pub client_interactions : List ClientInteraction

-- `None` stands for the IndexError of an empty list.
unfoldable pub last_client_interaction : List ClientInteraction → Option ClientInteraction
last_client_interaction [] = none
last_client_interaction (x ∷ []) = some x
last_client_interaction (x ∷ y ∷ rest) = last_client_interaction (y ∷ rest)

pub record CheckResult : Type 0 where
  pub passed : Bool
  pub description : Option String

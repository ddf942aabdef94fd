-- ===== src/Event.antt =====
-- event.py: which listeners a trigger fires.
pub mod Methods
pub mod Rounds
pub mod Fired
use cactus_runner.Prelude.{
  String, Bool, true, false, not, ◌&&◌, ◌||◌, List, [], ◌∷◌, Option, none, some, str_eq, elem,
  concat, if◌then◌else◌,
}
use cactus_runner.Prelude.Int.{ℤ, pos, eqb_ℤ, leb_ℤ, sub_ℕ, scale_ℤ}
use cactus_runner.Prelude.Dict
use cactus_runner.Prelude.Dict.{Dict}
use cactus_runner.Prelude.Strings
use cactus_runner.Prelude.Strings.{ends_with, split, drop}
use cactus_runner.Event.Methods.{expected_method}
use cactus_runner.Exec.{
  on_option, value_error, type_error, Result, ok, err, pure, lift, gets, ◌>>=◌, ◌>>◌,
}
use cactus_runner.Definitions.{
  Time, bool, int, float, decimal, text, Resolved, scalar, nothing, of_int, is_none, is_truthy,
}
use cactus_runner.Models.{http_method, Listener, is_finished, enabled_time}
use cactus_runner.Services.{Services}
use cactus_runner.World.{World, Run, optional, time_now, the_procedure}
use cactus_runner.Evaluator.{plain_values, resolve_variable_expressions_from_parameters}
use cactus_runner.Actions.Params.{as_text}
use cactus_runner.Action.{apply_actions}
use cactus_runner.Check.{all_checks_passing}
use cactus_runner.Uri.{MountedProxyPathParts, does_endpoint_match}
use package.text.Mathlib.Text.{starts_with}

pub data EventTriggerType : Type 0 where
  client_request_before client_request_after time_tick proceed : EventTriggerType

-- An HTTPMethod is its name.
pub record ClientRequestDetails : Type 0 where
  pub method : String
  pub path : String
  pub query_start : Option ℤ

pub record EventTrigger : Type 0 where
  pub type : EventTriggerType
  pub time : Time
  pub single_listener : Bool
  pub client_request : Option ClientRequestDetails

abbrev pub is_before : EventTriggerType → Bool
is_before client_request_before = true
is_before _ = false

abbrev pub is_after : EventTriggerType → Bool
is_after client_request_after = true
is_after _ = false

-- The client request of a trigger that is raised for one.
unfoldable pub request_of : EventTrigger → Option ClientRequestDetails
request_of t = if is_before t.type || is_after t.type then t.client_request else none

-- Only the first page of a paginated list, or a request that is not paginated.
unfoldable pub is_first_page : Option ℤ → Bool
is_first_page none = true
is_first_page (some s) = eqb_ℤ s (pos 0)

-- `trigger.type` is the one that the listener waits for.
unfoldable pub serves_at : Bool → EventTriggerType → Bool
serves_at serve_request_first type = if serve_request_first then is_after type else is_before type

with_slash : String → String
with_slash path = if starts_with path "/" then path else concat "/" path

-- The path without the mount point, with its leading slash.
unfoldable pub strip_mount : (mount_point path : String) → String
unfolding with_slash
strip_mount mount_point path =
    if starts_with path mount_point
    then with_slash (drop (Strings.length mount_point) path)
    else path

module _ (S : Services) where
  -- `(now - since).total_seconds() >= seconds`. Over a whole number the comparison is exact, as that of
  -- the float is for spans of less than 2 ^ 33 seconds.
  unfoldable pub elapsed_at_least : (now since : Time) → Resolved → Result Bool
  elapsed_at_least now since (scalar (int n)) = ok (leb_ℤ (scale_ℤ 1000000 n) (sub_ℕ now since))
  elapsed_at_least now since (scalar (bool b)) =
      ok (leb_ℤ (pos (if b then 1000000 else 0)) (sub_ℕ now since))
  elapsed_at_least now since (scalar (float bits)) =
      optional type_error (S.seconds_at_least (sub_ℕ now since) (float bits))
  elapsed_at_least now since (scalar (decimal coefficient exponent)) =
      optional type_error (S.seconds_at_least (sub_ℕ now since) (decimal coefficient exponent))
  elapsed_at_least now since _ = err type_error

  unfoldable pub resolved_parameters : Listener → Run S (Dict Resolved)
  resolved_parameters l = do
    params ← resolve_variable_expressions_from_parameters S l.event.parameters
    pure (plain_values params)

  -- A "…-request-received" event and the request of the trigger.
  unfoldable pub request_triggers : Listener → EventTriggerType → ClientRequestDetails → Run S Bool
  request_triggers l type request = do
    expected ← lift (http_method (expected_method l.event.type))
    if not (str_eq expected request.method) then pure false else (do
      params ← resolved_parameters l
      endpoint ← lift (as_text (Dict.get_or "endpoint" (scalar (text "")) params))
      let first = Dict.get_or "serve_request_first" (scalar (bool false)) params
      pure (
          does_endpoint_match request.path endpoint
          && (is_first_page request.query_start && serves_at (is_truthy first) type)))

  -- A wait event and a TIME trigger.
  unfoldable pub wait_triggers : Listener → (now since : Time) → Run S Bool
  wait_triggers l now since = do
    params ← resolved_parameters l
    lift (elapsed_at_least now since (Dict.get_or "duration_seconds" (of_int (pos 0)) params))

  -- A proceed event and a TIME trigger: the timeout, if one is set.
  unfoldable pub timeout_triggers : Listener → (now since : Time) → Run S Bool
  timeout_triggers l now since = do
    params ← resolved_parameters l
    let timeout = Dict.get_or "timeout_seconds" nothing params
    if is_none timeout then pure false else lift (elapsed_at_least now since timeout)

  unfoldable pub on_time : EventTriggerType → Run S Bool → Run S Bool
  on_time time_tick test = test
  on_time _ test = pure false

  -- A PROCEED trigger always fires; at a TIME trigger the test decides.
  unfoldable pub on_proceed : EventTriggerType → Run S Bool → Run S Bool
  on_proceed proceed test = pure true
  on_proceed time_tick test = test
  on_proceed _ test = pure false

  -- The two tests after the one for requests.
  unfoldable pub timed_triggers : Listener → EventTrigger → (since : Time) → Run S Bool
  timed_triggers l t since =
      if str_eq l.event.type "wait"
      then on_time t.type (wait_triggers l t.time since)
      else if str_eq l.event.type "proceed"
      then on_proceed t.type (timeout_triggers l t.time since)
      else pure false

  unfoldable pub enabled_triggers : Listener → EventTrigger → (since : Time) → Run S Bool
  enabled_triggers l t since =
      if ends_with l.event.type "-request-received"
      then on_option (request_of t) (timed_triggers l t since) (request_triggers l t.type)
      else timed_triggers l t since

  unfoldable pub is_listener_triggerable : Listener → EventTrigger → Run S Bool
  is_listener_triggerable l t = do
    p ← the_procedure S
    on_option (enabled_time p l) (pure false) (enabled_triggers l t)

  -- The test of one listener in the loop below: it matches, and its checks pass.
  unfoldable pub is_fired : Listener → EventTrigger → Run S Bool
  is_fired l t = do
    matched ← is_listener_triggerable l t
    if matched then all_checks_passing S [] l.event.checks else pure false

  -- The loop over the copy of the listeners, which their actions do not change.
  unfoldable pub scan : EventTrigger → List Listener → Run S (List Listener)
  scan t [] = pure []
  scan t (l ∷ ls) = do
    fired ← is_fired l t
    let others = scan t ls
    if fired
        then (do
          apply_actions S l
          if t.single_listener then pure (l ∷ []) else (do rest ← others; pure (l ∷ rest)))
        else others

  -- The listeners that fired, each with its actions run.
  unfoldable pub handle_event_trigger : EventTrigger → Run S (List Listener)
  unfolding scan
  handle_event_trigger t = do
    active ← gets (λ (w : World S). w.runner.active_test_procedure)
    on_option active (pure []) (λ p. if is_finished p then pure [] else scan t p.listeners)

  unfoldable pub generate_time_trigger : Run S EventTrigger
  generate_time_trigger = do
    now ← time_now S
    pure (record { type = time_tick; time = now; single_listener = false; client_request = none })

  unfoldable pub generate_proceed_trigger : Run S EventTrigger
  generate_proceed_trigger = do
    now ← time_now S
    pure (record { type = proceed; time = now; single_listener = true; client_request = none })

  unfoldable pub query_start : Dict String → Run S (Option ℤ)
  query_start query =
      on_option (Dict.get "s" query) (pure none)
        (λ s. (do n ← lift (S.int_of (text s)); pure (some n)))

  unfoldable pub generate_client_request_trigger :
      MountedProxyPathParts → (mount_point : String) → (before_serving : Bool) → Run S EventTrigger
  generate_client_request_trigger request mount_point before_serving = do
    start ← query_start request.query
    now ← time_now S
    method ← lift (http_method request.method)
    pure (record {
      type = if before_serving then client_request_before else client_request_after;
      time = now;
      single_listener = true;
      client_request = some (record {
        method = method;
        path = strip_mount mount_point request.path;
        query_start = start;
      });
    })

-- ===== src/Handler/Proxied.antt =====
-- `proxied_request_handler`: a request of the device, between its two triggers.
use cactus_runner.Prelude.{
  ℕ, String, Bool, true, false, List, [], ◌∷◌, ◌++◌, str_eq, length, concat, if◌then◌else◌,
}
use cactus_runner.Exec.{on_option, pure, gets, ◌>>=◌, ◌>>◌}
use cactus_runner.Definitions.{Time}
use cactus_runner.Models.{
  Listener, ActiveTestProcedure, is_finished, is_started, RunnerState, ClientInteraction,
  ClientInteractionType, proxied_request, RequestEntry,
}
use cactus_runner.Services.{
  Services, write_request_response_files, prune_old_request_response_pairs, commit,
}
use cactus_runner.World.{World, Run, observe, send, time_now, the_procedure, update_runner}
use cactus_runner.Uri.{Request, MountedProxyPathParts, uri_proxy_path_extract, calculate_proxy_uri}
use cactus_runner.Event.{generate_client_request_trigger, handle_event_trigger}
use cactus_runner.Proxy.{ProxyResult, proxy_request, request_is_authorized}
use cactus_runner.Handler.Replies.{plain, upstream, Reply, reply, Config}

abbrev pub is_proxied : ClientInteractionType → Bool
is_proxied proxied_request = true
is_proxied _ = false

-- The new interaction replaces a last one of its kind, so that the list stays short.
unfoldable pub touch : ClientInteraction → List ClientInteraction → List ClientInteraction
touch new [] = new ∷ []
touch new (x ∷ []) = if is_proxied x.interaction_type then new ∷ [] else x ∷ new ∷ []
touch new (x ∷ y ∷ rest) = x ∷ touch new (y ∷ rest)

unfoldable pub touch_interaction : Time → RunnerState → RunnerState
unfolding touch
touch_interaction now r = record r {
  client_interactions =
      touch (record { interaction_type = proxied_request; timestamp = now }) r.client_interactions;
}

-- The request id is the position in the history.
unfoldable pub record_request : (ℕ → RequestEntry) → RunnerState → RunnerState
record_request entry r = record r {
  request_history = r.request_history ++ entry (length r.request_history) ∷ [];
}

-- The step that handled the request, if one did.
unfoldable pub step_name_of : ActiveTestProcedure → List Listener → String
step_name_of p (l ∷ _) = l.step
step_name_of p [] = if is_started p then "Unmatched" else "Init"

module _ (S : Services) (config : Config) where
  unfoldable pub raise_trigger :
      MountedProxyPathParts → (before_serving : Bool) → Run S (List Listener)
  raise_trigger parts before_serving = do
    trigger ← generate_client_request_trigger S parts config.mount_point before_serving
    handled ← handle_event_trigger S trigger
    send S commit
    pure handled

  -- The trigger after serving is raised only if no listener took the one before.
  unfoldable pub raise_after : MountedProxyPathParts → List Listener → Run S (List Listener)
  raise_after parts [] = raise_trigger parts false
  raise_after parts (l ∷ handled) = pure (l ∷ handled)

  unfoldable pub body_errors : String → List String
  body_errors body = if str_eq body "" then [] else S.schema_errors body

  unfoldable pub log_request :
      Request
      → (relative_url : String) → Time
      → (step_name : String) → ProxyResult
      → Run S (Unit {0})
  log_request request relative_url timestamp step_name result = do
    request_id ← gets (λ (w : World S). length w.runner.request_history)
    update_runner S (
        record_request (λ id. record {
          url = result.uri;
          path = relative_url;
          method = request.method;
          status = result.response.status;
          timestamp = timestamp;
          step_name = step_name;
          body_xml_errors = body_errors request.body;
          request_id = id;
        }))
    observe S
        (λ e. (tt, S.store (write_request_response_files request_id step_name relative_url) e))
    observe S
        (λ e. (tt, S.store (prune_old_request_response_pairs request_id S.max_request_pairs) e))

  unfoldable pub serve_authorized :
      Request → Time → (remote_url : String) → MountedProxyPathParts → Run S Reply
  serve_authorized request timestamp remote_url parts = do
    before ← raise_trigger parts true
    current ← the_procedure S
    result ← proxy_request S request remote_url current
    handled ← raise_after parts before
    p ← the_procedure S
    log_request request parts.path timestamp (step_name_of p handled) result
    pure (reply result.response.status (upstream result.response))

  unfoldable pub is_authorized : Request → Run S Bool
  is_authorized request =
      if config.dev_skip_authorization_check then pure true else request_is_authorized S request

  unfoldable pub serve_active : Request → ActiveTestProcedure → Run S Reply
  serve_active request p = do
    timestamp ← time_now S
    authorized ← is_authorized request
    if authorized
        then (do
          update_runner S (touch_interaction timestamp)
          let parts = uri_proxy_path_extract config.mount_point config.envoy_proxy_prefix request
          let remote_url = calculate_proxy_uri config.server_url parts p.proxy_route_overrides
          serve_authorized request timestamp remote_url parts)
        else pure
            (reply 403 (plain "Forwarded certificate does not match for registered aggregator"))

  gone : ActiveTestProcedure → Reply
  gone p =
      reply 410
        (plain (concat p.name " has been marked as finished. This request will not be logged."))

  unfoldable pub proxied_request_handler : Request → Run S Reply
  unfolding gone
  proxied_request_handler request = do
    active ← gets (λ (w : World S). w.runner.active_test_procedure)
    on_option active
        (pure (reply 400 (plain "Unable to handle request. An active test procedure is required.")))
        (λ p. if is_finished p then pure (gone p) else serve_active request p)

-- ===== src/Main.antt =====
-- main.py: the middleware that turns an uncaught exception into a reply, the periodic task, and
-- the runs of the application: any sequence of requests and rounds of the task, each run to its end.
pub mod Log
pub mod Tracking
pub mod Statuses
use cactus_runner.Prelude.{Bool, true, false, [], ◌∷◌, Option, none, some, if◌then◌else◌}
use cactus_runner.Exec.{
  Exception, http_exception, on_option, pure, raise, gets, try_except, ◌>>=◌, ◌>>◌,
}
use cactus_runner.Models.{is_finished, runner_start, RunnerState, InitialisedCertificates}
use cactus_runner.Definitions.{Time}
use cactus_runner.Services.{Services, commit}
use cactus_runner.World.{World, Run, send}
use cactus_runner.Uri.{Request}
use cactus_runner.Event.{generate_time_trigger, handle_event_trigger}
use cactus_runner.Handler.Replies.{exception_text, Reply, reply, RequestBody, Config}
use cactus_runner.Handler.Start.{start_handler}
use cactus_runner.Handler.Initialise.{initialise_handler, next_test_handler}
use cactus_runner.Handler.Proxied.{proxied_request_handler}
use cactus_runner.Handler.Control.{finalize_handler, proceed_handler}
use cactus_runner.Handler.Reading.{health_handler, status_handler}

-- RunnerState() and InitialisedCertificates()
unfoldable pub initial_runner : Time → RunnerState
initial_runner now = record {
  active_test_procedure = none;
  request_history = [];
  client_interactions = record { interaction_type = runner_start; timestamp = now } ∷ [];
}

abbrev pub initial_certs : InitialisedCertificates
initial_certs = record {
  client_certificate_type = none;
  client_certificate = none;
  client_lfdi = none;
  client_aggregator_id = none;
}

-- What comes in from outside.
pub data Incoming : Type 0 where
  initialise next_test : RequestBody → Incoming
  start finalize proceed status health tick : Incoming
  proxied : Request → Incoming

abbrev pub is_http_exception : Exception → Bool
is_http_exception http_exception = true
is_http_exception _ = false

module _ (S : Services) where
  -- One round of the loop in `periodic_task`.
  unfoldable pub tick_active : Run S (Unit {0})
  tick_active = do trigger ← generate_time_trigger S; handle_event_trigger S trigger; send S commit

  unfoldable pub periodic_round : Run S (Unit {0})
  periodic_round =
      try_except
        (do
          active ← gets (λ (w : World S). w.runner.active_test_procedure)
          on_option active (pure tt) (λ p. if is_finished p then pure tt else tick_active))
        (λ _. pure tt)

  -- The `except` clauses of log_error_middleware: an HTTPException is left to the server.
  unfoldable pub error_reply : Exception → Run S Reply
  error_reply e = if is_http_exception e then raise e else pure (reply 500 (exception_text e))

  -- log_error_middleware
  unfoldable pub with_middleware : Run S Reply → Run S Reply
  with_middleware handler = try_except handler error_reply

module _ (S : Services) (config : Config) where
  unfoldable pub respond : Incoming → Run S (Option Reply)
  respond tick = do periodic_round S; pure none
  respond (initialise body) = do r ← with_middleware S (initialise_handler S body); pure (some r)
  respond (next_test body) = do r ← with_middleware S (next_test_handler S body); pure (some r)
  respond start = do r ← with_middleware S (start_handler S); pure (some r)
  respond finalize = do r ← with_middleware S (finalize_handler S); pure (some r)
  respond proceed = do r ← with_middleware S (proceed_handler S); pure (some r)
  respond health = do r ← with_middleware S (health_handler S); pure (some r)
  respond status = do r ← with_middleware S (status_handler S config); pure (some r)
  respond (proxied request) = do
    r ← with_middleware S (proxied_request_handler S config request)
    pure (some r)

  unfoldable pub initial : Time → S.Env → World S
  initial now env = record { runner = initial_runner now; certs = initial_certs; env = env }

  -- The states that the application reaches.
  pub data Reachable : World S → Type 0 where
    started : (now : Time) (env : S.Env) → Reachable (initial now env)
    step : {w : World S} (i : Incoming) → Reachable w → Reachable (respond i w).1

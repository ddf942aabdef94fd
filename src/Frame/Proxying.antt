-- ===== src/Frame/Proxying.antt =====
-- A proxied request, and every state that is reached.
use cactus_runner.Prelude.{Bool, String, List, [], ◌∷◌, refl}
use cactus_runner.Exec.Preserves.{
  Preserves, Preserves-bind, Preserves-pure, Preserves-gets, Preserves-if, Preserves-try_except,
  Preserves-raise, preserving_rules,
}
use cactus_runner.Definitions.{Time}
use cactus_runner.Models.{Listener, ActiveTestProcedure, RunnerState}
use cactus_runner.Prelude.Dict.{Dict}
use cactus_runner.Services.{Services}
use cactus_runner.World.{World, Run}
use cactus_runner.Uri.{Request, MountedProxyPathParts}
use cactus_runner.Event
use cactus_runner.Proxy
use cactus_runner.Proxy.{ProxyResult}
use cactus_runner.Handler.Replies.{Reply, Config}
use cactus_runner.Handler.Proxied
use cactus_runner.Main.{
  Incoming, initialise, next_test, start, finalize, proceed, status, health, tick, proxied, respond,
  with_middleware, error_reply, initial, initial_runner, Reachable, started, step,
}
use cactus_runner.Frame.{OnRunner, Preserves-update_runner, world_rules}
use cactus_runner.Frame.Engine.{Preserves-handle_event_trigger}
use cactus_runner.Frame.Starting.{
  ClosedRequests, Preserves-start_handler, Preserves-finalize_handler, Preserves-proceed_handler,
  Preserves-periodic_round,
}
use cactus_runner.Frame.Reading.{Preserves-health_handler, Preserves-status_handler}
use cactus_runner.Frame.Initialising.{Preserves-initialise_handler, Preserves-next_test_handler}

module _ (S : Services) (Q : RunnerState → Type 0) where
  page : (query : Dict String) → Preserves (OnRunner S Q) (Event.query_start S query)
  unfolding Event.query_start
  page query = search preserving_rules

  trigger :
      (parts : MountedProxyPathParts) (mount_point : String) (b : Bool)
      → Preserves (OnRunner S Q) (Event.generate_client_request_trigger S parts mount_point b)
  unfolding Event.generate_client_request_trigger
  trigger parts mount_point b = search (preserving_rules, world_rules, page) depth 9

  forward :
      (request : Request) (url : String) (p : ActiveTestProcedure)
      → Preserves (OnRunner S Q) (Proxy.proxy_request S request url p)
  unfolding Proxy.proxy_request
  forward request url p = search (preserving_rules, world_rules) depth 7

  authorized :
      (config : Config) (request : Request)
      → Preserves (OnRunner S Q) (Proxied.is_authorized S config request)
  unfolding Proxied.is_authorized Proxy.request_is_authorized
  authorized config request = search preserving_rules depth 12

module _ (S : Services) (config : Config) (Q : RunnerState → Type 0)
    (closed : ClosedRequests S Q) where
  raised :
      (parts : MountedProxyPathParts) (b : Bool)
      → Preserves (OnRunner S Q) (Proxied.raise_trigger S config parts b)
  unfolding Proxied.raise_trigger
  raised parts b = Preserves-bind _ _ (trigger S Q _ _ _) (λ t.
      Preserves-bind _ _ (Preserves-handle_event_trigger S Q closed.engine t)
        (λ handled. search (preserving_rules, world_rules)))

  raised_after :
      (parts : MountedProxyPathParts) (handled : List Listener)
      → Preserves (OnRunner S Q) (Proxied.raise_after S config parts handled)
  unfolding Proxied.raise_after
  raised_after parts [] = raised parts _
  raised_after parts (l ∷ handled) = search preserving_rules

  logged :
      (request : Request) (url : String) (t : Time) (name : String) (result : ProxyResult)
      → Preserves (OnRunner S Q) (Proxied.log_request S config request url t name result)
  unfolding Proxied.log_request
  logged request url t name result = Preserves-bind _ _ (Preserves-gets _) (λ id.
      Preserves-bind _ _ (Preserves-update_runner S Q _ (closed.recorded _ (λ n. refl)))
        (λ _. search (preserving_rules, world_rules)))

  served :
      (request : Request) (t : Time) (url : String) (parts : MountedProxyPathParts)
      → Preserves (OnRunner S Q) (Proxied.serve_authorized S config request t url parts)
  unfolding Proxied.serve_authorized
  served request t url parts = Preserves-bind _ _ (raised parts _) (λ before.
      Preserves-bind _ _ (search world_rules) (λ p.
        Preserves-bind _ _ (forward S Q _ _ _) (λ result.
          Preserves-bind _ _ (raised_after parts before) (λ handled.
            Preserves-bind _ _ (search world_rules)
              (λ q. Preserves-bind _ _ (logged _ _ _ _ _) (λ _. Preserves-pure _))))))

  serve :
      (request : Request) (p : ActiveTestProcedure)
      → Preserves (OnRunner S Q) (Proxied.serve_active S config request p)
  unfolding Proxied.serve_active
  serve request p = Preserves-bind _ _ (search world_rules) (λ t.
      Preserves-bind _ _ (authorized S Q config request) (λ b.
        Preserves-if b _ _
          (Preserves-bind _ _ (Preserves-update_runner S Q _ (closed.touched t))
            (λ _. served _ _ _ _))
          (Preserves-pure _)))

  pub Preserves-proxied_request_handler :
      (request : Request)
      → Preserves (OnRunner S Q) (Proxied.proxied_request_handler S config request)
  unfolding Proxied.proxied_request_handler
  Preserves-proxied_request_handler request = search (preserving_rules, serve)

  caught :
      (m : Run S Reply)
      → Preserves (OnRunner S Q) m
      → Preserves (OnRunner S Q) (with_middleware S m)
  unfolding with_middleware error_reply
  caught m h =
      Preserves-try_except _ _ h (λ e. Preserves-if _ _ _ (Preserves-raise e) (Preserves-pure _))

  pub Preserves-respond : (i : Incoming) → Preserves (OnRunner S Q) (respond S config i)
  unfolding respond
  Preserves-respond tick =
      Preserves-bind _ _ (Preserves-periodic_round S Q closed) (λ _. Preserves-pure _)
  Preserves-respond (initialise body) =
      Preserves-bind _ _ (caught _ (Preserves-initialise_handler S Q closed body))
        (λ r. Preserves-pure _)
  Preserves-respond (next_test body) =
      Preserves-bind _ _ (caught _ (Preserves-next_test_handler S Q closed body))
        (λ r. Preserves-pure _)
  Preserves-respond start =
      Preserves-bind _ _ (caught _ (Preserves-start_handler S Q closed)) (λ r. Preserves-pure _)
  Preserves-respond finalize =
      Preserves-bind _ _ (caught _ (Preserves-finalize_handler S Q closed)) (λ r. Preserves-pure _)
  Preserves-respond proceed =
      Preserves-bind _ _ (caught _ (Preserves-proceed_handler S Q closed)) (λ r. Preserves-pure _)
  Preserves-respond health =
      Preserves-bind _ _ (caught _ (Preserves-health_handler S Q)) (λ r. Preserves-pure _)
  Preserves-respond status =
      Preserves-bind _ _ (caught _ (Preserves-status_handler S Q closed.engine config))
        (λ r. Preserves-pure _)
  Preserves-respond (proxied request) =
      Preserves-bind _ _ (caught _ (Preserves-proxied_request_handler request))
        (λ r. Preserves-pure _)

  -- What holds at first and is closed under the writes holds in every state that is reached.
  pub Reachable-closed :
      ((now : Time) → Q (initial_runner now)) → (w : World S) → Reachable S config w → Q w.runner
  unfolding initial
  Reachable-closed first _ (started now env) = first now
  Reachable-closed first _ (step {w} i r) =
      (Preserves-respond i).after w (Reachable-closed first w r)

-- ===== src/Actions/Routes.antt =====
-- add-proxy-route.
use cactus_runner.Prelude.{String, List, [], ◌∷◌, str_eq, if◌then◌else◌}
use cactus_runner.Prelude.Dict.{Dict}
use cactus_runner.Exec.{lift, ◌>>=◌}
use cactus_runner.Definitions.{Resolved}
use cactus_runner.Models.{ActiveTestProcedure, ProxyRouteOverride}
use cactus_runner.Services.{Services}
use cactus_runner.World.{Run, update_procedure}
use cactus_runner.Actions.Params.{mandatory, as_text}

-- The first override of the route is redirected; without one an override is appended.
unfoldable pub put_override :
    (route proxy_to : String) → List ProxyRouteOverride → List ProxyRouteOverride
put_override route proxy_to [] = record { route = route; proxy_to = proxy_to } ∷ []
put_override route proxy_to (o ∷ rest) =
    if str_eq o.route route
    then record o { proxy_to = proxy_to } ∷ rest
    else o ∷ put_override route proxy_to rest

unfoldable pub set_override : (route proxy_to : String) → ActiveTestProcedure → ActiveTestProcedure
set_override route proxy_to p = record p {
  proxy_route_overrides = put_override route proxy_to p.proxy_route_overrides;
}

module _ (S : Services) where
  unfoldable pub action_add_proxy_route : Dict Resolved → Run S (Unit {0})
  action_add_proxy_route params = do
    route ← lift (mandatory "route" params)
    proxy_to ← lift (mandatory "proxy_to" params)
    route_text ← lift (as_text route)
    proxy_text ← lift (as_text proxy_to)
    update_procedure S (set_override route_text proxy_text)

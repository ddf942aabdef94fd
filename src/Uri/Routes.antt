-- ===== src/Uri/Routes.antt =====
-- action.py and uri.py: the route overrides, as the address of a later request sees them.
use cactus_runner.Prelude.{String, List, [], ◌∷◌, str_eq, ◌≡◌, arith, eq_iff, if◌then◌else◌, refl}
use cactus_runner.Models.{ProxyRouteOverride}
use cactus_runner.Uri.{MountedProxyPathParts, redirected, calculate_proxy_uri}
use cactus_runner.Actions.Routes.{put_override}

-- Once an override of `route` is put among the overrides `os`, a request of that route goes to the
-- new address, whether or not the route had an override before, and every other request goes where
-- it went before.
pub calculate_proxy_uri-put_override :
    (server_url : String) (parts : MountedProxyPathParts) (route proxy_to : String)
    (os : List ProxyRouteOverride)
    → calculate_proxy_uri server_url parts (put_override route proxy_to os) ≡ (
        if str_eq route parts.path
        then redirected server_url parts.query_string
            (record { route = route; proxy_to = proxy_to })
        else calculate_proxy_uri server_url parts os)
unfolding calculate_proxy_uri put_override redirected
calculate_proxy_uri-put_override server_url parts route proxy_to [] = refl
calculate_proxy_uri-put_override server_url parts route proxy_to (o ∷ os) = ground (
  arith,
  eq_iff o.route route,
  eq_iff o.route parts.path,
  eq_iff route parts.path,
  calculate_proxy_uri-put_override server_url parts route proxy_to os,
)
